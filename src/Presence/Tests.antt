-- ===== src/Presence/Tests.antt =====
-- Tests of the presence hub, and its theorems at concrete inputs.
use lovensepy.Base.{
  ℕ, zero, suc, ◌+◌, ◌-◌, ◌*◌, ◌/◌, ◌%◌, ◌^◌, ◌≤◌, ◌<◌, min, max, String, ◌≡◌, refl, sym, ap, ◌∙◌,
  ◌≢◌, ◌↔◌, ◌⊎◌, inl, inr, Bool, true, false, not, ◌&&◌, ◌||◌, Option, none, some, List, [], ◌∷◌,
  ◌++◌, map, arith, eq_iff, ltb, leb, nat_eq, if◌then◌else◌, ltb→lt, lt→ltb, leb→le, le→leb,
  nat_eq_iff, Bool-cases, Option-cases, is_some, length, take, drop, all, any, length-append, All,
  All-append, HasSame, ◌==◌, ==-self, ℕ_Eq, String_Eq, Pair_Eq, Codes_Eq, pair_eq_iff, codes_eq_iff,
  tests, if_split, if_true, if_false,
}
use lovensepy.Presence.Keyed.{Keyed, Event, join, part, stir, run, run-new_hub-Keyed}
use lovensepy.Presence.Hub.{new_hub}
use lovensepy.Base.Dict.{get}
use lovensepy.Gate.Types.{Platform}
use lovensepy.Gate.Visitors.{Scope, websocket}
use lovensepy.Presence.Hub.{Role, PresenceClient, PresenceHub}
use lovensepy.Presence.Views.{other_role, relay_echo, snapshot_for, activity_for_path}
use lovensepy.Presence.Private.{snapshot_for-MaySee, MaySee}

abbrev platform : Platform
platform = record {
  sha256_hex = λ s. s;
  hmac_hex = λ key token. token;
  ip_address = λ s. none;
  is_decimal = λ c. leb 48 c && leb c 57;
  round1 = λ x. x;
}

abbrev panel : Scope
panel = record {
  type = websocket;
  path = some "/ws";
  method = none;
  query_string = "";
  client = some "192.168.1.5";
  headers = λ name. none;
}

abbrev browser : String → Role → ℕ → PresenceClient
browser id role seen = record {
  client_id = id;
  role = role;
  connected_at = 0;
  last_seen_mono = seen;
  ip = none;
  country = none;
  user_agent = none;
  device = "Mac";
  browser = "Safari";
  tab = none;
  activity = none;
  activity_at = none;
  rtt_ms = none;
  rtt_at = none;
  socket = some 7;
}

abbrev hub : PresenceHub
hub = record {
  clients =
      ("h", browser "h" Role.host 1000)
      ∷ ("r", browser "r" Role.remote 1000)
      ∷ ("s", browser "s" Role.remote 90000)
      ∷ [];
  closed = [];
  changes = 0;
}

-- The host sees the remote that was heard of, and not the other.
host_sees :
    map
      (λ (row : PresenceClient). row.client_id)
      (snapshot_for 95000 (some (browser "h" Role.host 1000)) hub).remotes
    ≡ ("s" ∷ [])
unfolding snapshot_for lovensepy.Presence.Views.shown lovensepy.Presence.Views.fresh_remotes
host_sees = refl

-- A frame that names its receiver passes between remotes.
named_receiver :
    map (λ (row : PresenceClient). row.client_id) (relay_echo (λ socket. true) "r" (some "s") hub)
    ≡ ("s" ∷ [])
unfolding relay_echo lovensepy.Presence.Views.relay_from get lovensepy.Presence.Views.deliver
    lovensepy.Presence.Views.targets
named_receiver = refl

preset_label : activity_for_path "/command/preset/x" "post" ≡ some "Playing a preset"
unfolding activity_for_path lovensepy.Base.Text.lower
preset_label = refl

snapshot_for-MaySee_example :
    All
      (MaySee 95000 (some (browser "h" Role.host 1000)))
      (snapshot_for 95000 (some (browser "h" Role.host 1000)) hub).remotes
snapshot_for-MaySee_example = snapshot_for-MaySee 95000 (some (browser "h" Role.host 1000)) hub

abbrev visits : List Event
visits =
    join panel none 1000 7 "f" (some "h")
    ∷ join panel none 2000 8 "f" none
    ∷ stir 3000 "h" (record {
      tab = some "toys";
      activity = some " Adjusting ";
      rtt_ms = none;
      peer_id = some "f";
      notify = none;
    })
    ∷ part "f" (some 8)
    ∷ []

run-new_hub-Keyed_example : Keyed (run platform visits new_hub).clients
run-new_hub-Keyed_example = run-new_hub-Keyed platform visits
