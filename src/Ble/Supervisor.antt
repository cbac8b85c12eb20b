-- ===== src/Ble/Supervisor.antt =====
-- lovensepy/services/http_api/ble_supervisor.py: the keeper of the links. Times and delays are in
-- thousandths of a second. The world answers the n-th question: the clock, how a connect ends (the
-- error's text, or none), and the roll of the jitter. `calls` holds what was asked of the hub, newest
-- first.
use lovensepy.Base.{
  ℕ, suc, ◌+◌, ◌-◌, ◌*◌, ◌/◌, ◌^◌, min, max, String, Bool, true, false, not, ◌&&◌, ◌||◌, Option,
  none, some, List, [], ◌∷◌, ◌++◌, map, ltb, leb, if◌then◌else◌, is_some, length, drop, ℕ_Eq,
  String_Eq, Pair_Eq, Codes_Eq,
}
use lovensepy.Base.Dict.{Dict, get, put, pop, keep}
use lovensepy.Base.Result.{Result, ok, err, overflow_error}
use lovensepy.Toys.Features.{member}

-- The messages of `note`.
pub data Note : Type 0 where
  connected paused_by_user resumed reconnected : Note
  failed : ℕ → String → Note

pub record ToyState : Type 0 where
  pub attempts : ℕ
  pub reconnects : ℕ
  pub paused : Bool
  pub last_error : Option String
  pub last_attempt : Option ℕ
  pub next_attempt : ℕ
  pub connected_since : Option ℕ
  pub battery_checked : ℕ
  pub history : List Note

abbrev pub new_state : ToyState
new_state = record {
  attempts = 0;
  reconnects = 0;
  paused = false;
  last_error = none;
  last_attempt = none;
  next_attempt = 0;
  connected_since = none;
  battery_checked = 0;
  history = [];
}

pub data Call : Type 0 where
  connect refresh_battery : String → Call

pub record Keeper : Type 0 where
  pub states : Dict String ToyState
  pub calls : List Call
  pub ticks : ℕ
  pub changes : ℕ

pub record World : Type 0 where
  pub clock : ℕ → ℕ
  pub connects : ℕ → Option String
  pub roll : ℕ → ℕ

-- A row of `registry_rows`.
pub record Row : Type 0 where
  pub toy_id : String
  pub is_up : Bool
  pub battery : Option ℕ

pub record Config : Type 0 where
  pub ble_auto_reconnect : Bool
  pub ble_battery_refresh : ℕ

-- del self.history[:-5]
unfoldable pub note : Note → ToyState → ToyState
note message st =
    let history = st.history ++ (message ∷ []) in
    record st { history = drop (length history - 5) history }

-- self._states.setdefault(toy_id, _ToyState())
unfoldable pub state : String → Keeper → ToyState
state toy_id k = elim (get toy_id k.states) [ none ↦ new_state | some st ↦ st ]

abbrev pub set_state : String → ToyState → Keeper → Keeper
set_state toy_id st k = record k { states = put toy_id st k.states }

abbrev pub changed : Keeper → Keeper
changed k = record k { changes = suc k.changes }

abbrev pub ask : Call → Keeper → Keeper
ask call k = record k { calls = call ∷ k.calls; ticks = suc k.ticks }

abbrev pub tick : Keeper → Keeper
tick k = record k { ticks = suc k.ticks }

unfoldable pub note_connected : World → String → Keeper → Keeper
note_connected w toy_id k =
    let st = state toy_id k in
    let st' = note connected (record st {
      paused = false;
      attempts = 0;
      last_error = none;
      next_attempt = 0;
      connected_since = some (w.clock k.ticks);
    }) in
    changed (tick (set_state toy_id st' k))

unfoldable pub pause : String → Keeper → Keeper
pause toy_id k =
    let st = state toy_id k in
    let st' = note paused_by_user (record st { paused = true; connected_since = none }) in
    changed (set_state toy_id st' k)

unfoldable pub resume : String → Keeper → Keeper
resume toy_id k =
    let st = state toy_id k in
    let st' = note resumed (record st { paused = false; attempts = 0; next_attempt = 0 }) in
    changed (set_state toy_id st' k)

unfoldable pub forget : String → Keeper → Keeper
forget toy_id k = changed (record k { states = pop toy_id k.states })

-- max(0.5, delay - spread + roll / 1000 * 2 * spread), the spread a fifth of the delay
unfoldable pub jittered : ℕ → ℕ → ℕ
jittered delay roll = let spread = delay / 5 in max 500 (delay - spread + roll * 2 * spread / 1000)

-- min(60, 3 * 1.8 ** n): the power raises once it is past the largest double, 2 ** 1024.
unfoldable pub backoff : ℕ → Result ℕ
backoff n =
    if leb (5 ^ n * 2 ^ 1024) (9 ^ n)
    then err overflow_error
    else ok (min 60000 (3000 * 9 ^ n / 5 ^ n))

-- The failed attempt once its delay is known.
abbrev pub delayed :
    World → String → String → ToyState → Result ℕ → Keeper → Result (Unit {0}) × Keeper
delayed w toy_id e st (err x) k = (err x, set_state toy_id st k)
delayed w toy_id e st (ok delay) k =
    let st' = record st { next_attempt = w.clock k.ticks + jittered delay (w.roll k.ticks) } in
    (ok tt, changed (tick (set_state toy_id (note (failed st.attempts e) st') k)))

-- What follows `hub.connect`.
unfoldable pub connect_ended :
    World → String → ToyState → Option String → Keeper → Result (Unit {0}) × Keeper
connect_ended w toy_id st (some e) k =
    delayed w toy_id e (record st { last_error = some e }) (backoff (st.attempts - 1)) k
connect_ended w toy_id st none k =
    let k' = ask (refresh_battery toy_id) (tick k) in
    let st' = note reconnected (record st {
      reconnects = suc st.reconnects;
      attempts = 0;
      last_error = none;
      next_attempt = 0;
      connected_since = some (w.clock k.ticks);
    }) in
    let st'' = record st' { battery_checked = w.clock k'.ticks } in
    (ok tt, changed (tick (set_state toy_id st'' k')))

unfoldable pub try_reconnect : World → String → ToyState → Keeper → Result (Unit {0}) × Keeper
try_reconnect w toy_id st k =
    let k' = tick k in
    let st' = record st { attempts = suc st.attempts; last_attempt = some (w.clock k.ticks) } in
    connect_ended w toy_id st' (w.connects k'.ticks) (ask (connect toy_id) k')

unfoldable pub maybe_refresh_battery : World → Config → Row → ToyState → Keeper → Keeper
maybe_refresh_battery w cfg row st k =
    let due = leb (st.battery_checked + cfg.ble_battery_refresh) (w.clock k.ticks) in
    let k' = tick k in
    let st' = record st { battery_checked = w.clock k'.ticks } in
    if not due && is_some row.battery
    then set_state row.toy_id st k'
    else changed (ask (refresh_battery row.toy_id) (set_state row.toy_id st' (tick k')))

-- The first round that finds a toy connected.
unfoldable pub note_up : ℕ → ToyState → ToyState
note_up now st =
    if is_some st.connected_since
    then st
    else record st { connected_since = some now; attempts = 0; last_error = none }

-- One turn of the loop over the rows.
unfoldable pub supervise : World → Config → ℕ → Row → Keeper → Result (Unit {0}) × Keeper
supervise w cfg now row k =
    let st = state row.toy_id k in
    let down = record st { connected_since = none } in
    if row.is_up
    then (ok tt, maybe_refresh_battery w cfg row (note_up now st) k)
    else if st.paused || not cfg.ble_auto_reconnect || ltb now st.next_attempt
    then (ok tt, set_state row.toy_id down k)
    else try_reconnect w row.toy_id down k

-- An exception leaves the loop.
abbrev pub then_rows :
    (Keeper → Result (Unit {0}) × Keeper) → Result (Unit {0}) × Keeper → Result (Unit {0}) × Keeper
then_rows rest (ok _, k) = rest k
then_rows rest (err e, k) = (err e, k)

unfoldable pub supervise_all : World → Config → ℕ → List Row → Keeper → Result (Unit {0}) × Keeper
supervise_all w cfg now [] k = (ok tt, k)
supervise_all w cfg now (row ∷ rows) k =
    then_rows (λ k'. supervise_all w cfg now rows k') (supervise w cfg now row k)

-- for stale in set(self._states) - known
unfoldable pub drop_stale : List Row → Keeper → Keeper
drop_stale rows k = record k {
  states = keep (λ id _. member id (map (λ row. row.toy_id) rows)) k.states;
}

-- `_round`, with the rows of the hub if there is one
unfoldable pub round : World → Config → Option (List Row) → Keeper → Result (Unit {0}) × Keeper
round w cfg none k = (ok tt, k)
round w cfg (some rows) k = supervise_all w cfg (w.clock k.ticks) rows (tick (drop_stale rows k))
