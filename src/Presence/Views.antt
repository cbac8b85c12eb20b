-- ===== src/Presence/Views.antt =====
-- lovensepy/services/http_api/presence.py: `relay_echo`, `snapshot_for` and `activity_for_path`. A
-- socket that does not take a frame is left out; which do is an argument.
use lovensepy.Base.{
  ℕ, ◌-◌, String, Bool, true, false, not, ◌&&◌, Option, none, some, List, [], ◌∷◌, ltb,
  if◌then◌else◌, length, any, ◌==◌, ℕ_Eq, String_Eq, Pair_Eq, Codes_Eq,
}
use text.Mathlib.Text.{starts_with}
use lovensepy.Base.Dict.{Dict, get}
use lovensepy.Base.Text.{lower}
use lovensepy.Presence.Hub.{Role, PresenceClient, PresenceHub}

abbrev pub is_role : Role → Role → Bool
is_role Role.host Role.host = true
is_role Role.remote Role.remote = true
is_role _ _ = false

-- [row for row in self._clients.values() if row.role == role]
unfoldable pub of_role : Role → Dict String PresenceClient → List PresenceClient
of_role role [] = []
of_role role ((_, row) ∷ clients) =
    let rest = of_role role clients in if is_role role row.role then row ∷ rest else rest

abbrev one : Option PresenceClient → List PresenceClient
one none = []
one (some row) = row ∷ []

-- A frame without a receiver goes to the other role.
abbrev pub other_role : Role → Role
other_role Role.host = Role.remote
other_role Role.remote = Role.host

unfoldable pub targets : PresenceClient → Option String → PresenceHub → List PresenceClient
targets sender to_id hub = elim to_id [
  | none ↦ of_role (other_role sender.role) hub.clients
  | some id ↦
      if id == "" then of_role (other_role sender.role) hub.clients else one (get id hub.clients)
]

unfoldable pub takes_frame : (ℕ → Bool) → Option ℕ → Bool
takes_frame delivers none = false
takes_frame delivers (some socket) = delivers socket

unfoldable pub deliver : (ℕ → Bool) → List PresenceClient → List PresenceClient
unfolding takes_frame
deliver delivers [] = []
deliver delivers (row ∷ rows) =
    let rest = deliver delivers rows in if takes_frame delivers row.socket then row ∷ rest else rest

unfoldable pub relay_from :
    (ℕ → Bool) → Option String → Option PresenceClient → PresenceHub → List PresenceClient
relay_from delivers to_id none hub = []
relay_from delivers to_id (some sender) hub = deliver delivers (targets sender to_id hub)

-- The rows that got the frame; the code returns how many.
unfoldable pub relay_echo : (ℕ → Bool) → String → Option String → PresenceHub → List PresenceClient
relay_echo delivers from_id to_id hub = relay_from delivers to_id (get from_id hub.clients) hub

pub record SelfView : Type 0 where
  pub client_id : String
  pub role : Role
  pub device : String
  pub browser : String

pub record Presence : Type 0 where
  pub self_view : Option SelfView
  pub remotes : List PresenceClient
  pub hosts_online : ℕ
  pub remotes_online : ℕ

-- now - row.last_seen_mono > _STALE_SEC
abbrev pub is_stale : ℕ → PresenceClient → Bool
is_stale now row = ltb 45000 (now - row.last_seen_mono)

unfoldable pub fresh_remotes : ℕ → Dict String PresenceClient → List PresenceClient
fresh_remotes now [] = []
fresh_remotes now ((_, row) ∷ clients) =
    let rest = fresh_remotes now clients in
    if is_role Role.remote row.role && not (is_stale now row) then row ∷ rest else rest

-- Only a host is shown rows.
unfoldable pub shown : ℕ → Option PresenceClient → PresenceHub → List PresenceClient
shown now none hub = []
shown now (some viewer) hub =
    if is_role Role.host viewer.role then fresh_remotes now hub.clients else []

-- What a browser is told of itself.
view_self : Option PresenceClient → Option SelfView
view_self none = none
view_self (some viewer) = some (record {
  client_id = viewer.client_id;
  role = viewer.role;
  device = viewer.device;
  browser = viewer.browser;
})

-- The rows are shown before they are rounded and sorted.
unfoldable pub snapshot_for : ℕ → Option PresenceClient → PresenceHub → Presence
unfolding view_self
snapshot_for now viewer hub = record {
  self_view = view_self viewer;
  remotes = shown now viewer hub;
  hosts_online = length (of_role Role.host hub.clients);
  remotes_online = length (of_role Role.remote hub.clients);
}

abbrev mutating : List String
mutating = "POST" ∷ "PUT" ∷ "PATCH" ∷ "DELETE" ∷ []

abbrev labels : List (String × String)
labels =
    ("/command/function", "Adjusting intensity")
    ∷ ("/command/preset", "Playing a preset")
    ∷ ("/command/pattern", "Running a pattern")
    ∷ ("/command/stop", "Stopping toys")
    ∷ ("/ble/connect", "Connecting a Bluetooth toy")
    ∷ ("/ble/disconnect", "Managing Bluetooth")
    ∷ ("/ble/reconnect", "Managing Bluetooth")
    ∷ ("/ble/", "Bluetooth setup")
    ∷ ("/config/", "Changing settings")
    ∷ ("/system/tunnel", "Toggling the Cloudflare tunnel")
    ∷ []

first_label : String → List (String × String) → Option String
first_label path [] = none
first_label path ((prefix, label) ∷ rest) =
    if starts_with path prefix then some label else first_label path rest

-- The method is compared without regard to case.
unfoldable pub activity_for_path : String → String → Option String
unfolding first_label
activity_for_path path method =
    if any (λ m. lower m == lower method) mutating then first_label path labels else none
