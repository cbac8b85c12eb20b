-- ===== src/Presence/Hub.antt =====
-- lovensepy/services/http_api/presence.py: `PresenceClient`, and the operations of `PresenceHub` that
-- change its table. A socket is a number; `closed` lists the sockets closed with code 4000, newest
-- first; `changes` counts the calls of `_on_change`. Times are milliseconds of the monotonic clock.
use lovensepy.Base.{
  ℕ, suc, ◌-◌, String, Bool, true, false, not, ◌&&◌, ◌||◌, Option, none, some, List, [], ◌∷◌, ltb,
  nat_eq, if◌then◌else◌, is_some, ◌==◌, ℕ_Eq, String_Eq, Pair_Eq, Codes_Eq,
}
use lovensepy.Base.Dict.{Dict, get, put, pop}
use lovensepy.Base.Int.{ℤ, pos, negsuc}
use lovensepy.Base.Text.{take_chars, strip, or_empty, truthy}
use lovensepy.Gate.Types.{Platform}
use lovensepy.Gate.Visitors.{Scope, is_external_request, client_ip}
use lovensepy.Gate.Labels.{device_label, browser_label}

pub data Role : Type 0 where
  host remote : Role

pub record PresenceClient : Type 0 where
  pub client_id : String
  pub role : Role
  pub connected_at : ℕ
  pub last_seen_mono : ℕ
  pub ip : Option String
  pub country : Option String
  pub user_agent : Option String
  pub device : String
  pub browser : String
  pub tab : Option String
  pub activity : Option String
  pub activity_at : Option ℕ
  pub rtt_ms : Option ℕ
  pub rtt_at : Option ℕ
  pub socket : Option ℕ

pub record PresenceHub : Type 0 where
  pub clients : Dict String PresenceClient
  pub closed : List ℕ
  pub changes : ℕ

unfoldable pub new_hub : PresenceHub
new_hub = record { clients = []; closed = []; changes = 0 }

unfoldable pub notify : PresenceHub → PresenceHub
notify hub = record hub { changes = suc hub.changes }

unfoldable pub role_for_scope : Platform → Scope → Role
role_for_scope p scope = if is_external_request p scope then Role.remote else Role.host

-- x or None
abbrev pub non_empty : String → Option String
non_empty s = if s == "" then none else some s

-- (preferred_id or "").strip()[:64] or the fresh id
unfoldable pub chosen_id : Option String → String → String
chosen_id preferred fresh =
    let id = take_chars 64 (strip (or_empty preferred)) in if id == "" then fresh else id

unfoldable pub new_client : Platform → Scope → Option String → ℕ → ℕ → String → PresenceClient
new_client p scope country now socket client_id =
    let ua = scope.headers "user-agent" in
    record {
      client_id = client_id;
      role = role_for_scope p scope;
      connected_at = now;
      last_seen_mono = now;
      ip = client_ip scope;
      country = country;
      user_agent = ua;
      device = device_label ua;
      browser = browser_label ua;
      tab = none;
      activity = none;
      activity_at = none;
      rtt_ms = none;
      rtt_at = none;
      socket = some socket;
    }

-- The socket of an earlier row is closed, unless it is the new one.
close_other : ℕ → Option ℕ → List ℕ → List ℕ
close_other socket none closed = closed
close_other socket (some old) closed = if nat_eq old socket then closed else old ∷ closed

close_previous : ℕ → Option PresenceClient → List ℕ → List ℕ
unfolding close_other
close_previous socket none closed = closed
close_previous socket (some row) closed = close_other socket row.socket closed

unfoldable pub connect :
    Platform
    → Scope
    → Option String
    → ℕ
    → ℕ
    → String
    → Option String
    → PresenceHub
    → PresenceClient × PresenceHub
unfolding close_previous
connect p scope country now socket fresh preferred hub =
    let id = chosen_id preferred fresh in
    let row = new_client p scope country now socket id in
    let hub' = record hub {
      clients = put id row hub.clients;
      closed = close_previous socket (get id hub.clients) hub.closed;
    } in
    (row, notify hub')

-- socket is not None and row.socket is not None and row.socket is not socket
abbrev pub is_other : Option ℕ → Option ℕ → Bool
is_other none _ = false
is_other (some s) none = false
is_other (some s) (some t) = not (nat_eq t s)

unfoldable pub leave : String → Option ℕ → Option PresenceClient → PresenceHub → PresenceHub
leave client_id socket none hub = hub
leave client_id socket (some row) hub =
    if is_other socket row.socket
    then hub
    else notify (record hub { clients = pop client_id hub.clients })

unfoldable pub disconnect : String → Option ℕ → PresenceHub → PresenceHub
disconnect client_id socket hub = leave client_id socket (get client_id hub.clients) hub

same_text : Option String → Option String → Bool
same_text none none = true
same_text (some a) (some b) = a == b
same_text _ _ = false

-- Each part of `touch` gives the row and whether it changed.
unfoldable pub touch_tab : Option String → PresenceClient → PresenceClient × Bool
unfolding same_text
touch_tab none row = (row, false)
touch_tab (some tab) row =
    let next_tab = non_empty (take_chars 40 tab) in
    if same_text next_tab row.tab then (row, false) else (record row { tab = next_tab }, true)

-- Two seconds without the same activity.
is_due : ℕ → Option ℕ → Bool
is_due now none = true
is_due now (some at) = ltb 2000 (now - at)

unfoldable pub touch_activity : ℕ → Option String → PresenceClient → PresenceClient × Bool
unfolding is_due same_text
touch_activity now none row = (row, false)
touch_activity now (some activity) row =
    let cleaned = non_empty (take_chars 160 (strip activity)) in
    let at = if is_some cleaned then some now else none in
    if not (same_text cleaned row.activity)
    then (record row { activity = cleaned; activity_at = at }, true)
    else if is_some cleaned && is_due now row.activity_at
    then (record row { activity_at = some now }, true)
    else (row, false)

unfoldable pub is_remote : Role → Bool
is_remote Role.host = false
is_remote Role.remote = true

-- max(0.0, rtt)
unfoldable pub at_least_zero : ℤ → ℕ
at_least_zero (pos n) = n
at_least_zero (negsuc n) = 0

-- The round trip that was measured is noted on the remote's row.
unfoldable pub note_rtt :
    ℕ
    → Option ℤ
    → String
    → Option PresenceClient
    → Dict String PresenceClient
    → Dict String PresenceClient
note_rtt now (some rtt) peer (some target) clients =
    if is_remote target.role
    then put peer (record target { rtt_ms = some (at_least_zero rtt); rtt_at = some now }) clients
    else clients
note_rtt now _ peer _ clients = clients

pub record Touch : Type 0 where
  pub tab : Option String
  pub activity : Option String
  pub rtt_ms : Option ℤ
  pub peer_id : Option String
  pub notify : Option Bool

-- The row that `peer_id` names.
unfoldable pub peer_row : Option String → Dict String PresenceClient → Option PresenceClient
peer_row peer clients = if truthy peer then get (or_empty peer) clients else none

-- The table after the row is touched.
unfoldable pub touched :
    ℕ → String → Touch → PresenceClient → Dict String PresenceClient → Dict String PresenceClient
touched now client_id t row clients =
    let clients' = put client_id row clients in
    note_rtt now t.rtt_ms (or_empty t.peer_id) (peer_row t.peer_id clients') clients'

unfoldable pub touch_row : ℕ → String → Touch → PresenceClient → PresenceHub → PresenceHub
touch_row now client_id t row hub =
    let a = touch_tab t.tab (record row { last_seen_mono = now }) in
    let b = touch_activity now t.activity (a.0) in
    let should_notify : Bool = elim t.notify [ none ↦ a.1 || b.1 | some n ↦ n ] in
    record hub {
      clients = touched now client_id t (b.0) hub.clients;
      changes = if should_notify then suc hub.changes else hub.changes;
    }

unfoldable pub touch_found : ℕ → String → Touch → Option PresenceClient → PresenceHub → PresenceHub
touch_found now client_id t none hub = hub
touch_found now client_id t (some row) hub = touch_row now client_id t row hub

unfoldable pub touch : ℕ → String → Touch → PresenceHub → PresenceHub
touch now client_id t hub = touch_found now client_id t (get client_id hub.clients) hub
