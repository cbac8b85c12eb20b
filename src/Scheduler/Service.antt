-- ===== src/Scheduler/Service.antt =====
-- lovensepy/services/http_api/scheduler.py: `schedule_function`, the stops and `shutdown`. `fresh n` is
-- the n-th id that a call draws.
use lovensepy.Base.{
  ℕ, suc, ◌-◌, String, Bool, true, ◌||◌, Option, none, some, List, [], ◌∷◌, map, if◌then◌else◌,
  is_some, ◌==◌, ℕ_Eq, String_Eq, Pair_Eq, Codes_Eq,
}
use lovensepy.Base.Dict.{Dict}
use lovensepy.Base.Int.{ℤ}
use lovensepy.Base.Result.{Result, ok, err, runtime_error}
use lovensepy.Scheduler.Types.{
  Scheduler, Toys, Key, Meta, hold, session, send, stop, loop_request, function_loop,
}
use lovensepy.Scheduler.Snapshot.{expand_actions}
use lovensepy.Scheduler.Slots.{cancel_slot, cancel_task}
use lovensepy.Scheduler.Holds.{update_or_schedule_slot}
use lovensepy.Scheduler.Sessions.{
  cancel_sessions_for_toy, cancel_all_sessions, track_session, wait_finish,
}

-- [key for key in self._tasks if key[0] == toy_id]
unfoldable pub keys_of : String → Dict Key ℕ → List Key
keys_of toy_id [] = []
keys_of toy_id ((key, _) ∷ tasks) =
    let rest = keys_of toy_id tasks in if key.0 == toy_id then key ∷ rest else rest

unfoldable pub cancel_slots : Option Toys → List Key → Scheduler → Scheduler
cancel_slots toys [] s = s
cancel_slots toys (key ∷ keys) s = cancel_slots toys keys (cancel_slot toys key s)

unfoldable pub cancel_every_slot_for_toy : Option Toys → String → Scheduler → Scheduler
cancel_every_slot_for_toy toys toy_id s =
    let s' = cancel_sessions_for_toy (some toy_id) s in
    cancel_slots toys (keys_of toy_id s'.tasks) s'

unfoldable pub cancel_all_function_slots : Option Toys → Scheduler → Scheduler
cancel_all_function_slots toys s = cancel_slots toys (map (λ e. e.0) s.tasks) s

unfoldable pub cancel_all_slots : Option Toys → Scheduler → Scheduler
cancel_all_slots toys s = cancel_all_function_slots toys (cancel_all_sessions s)

unfoldable pub stop_toy : Option Toys → String → Scheduler → Scheduler
stop_toy toys toy_id s = send (stop (some toy_id)) (cancel_every_slot_for_toy toys toy_id s)

unfoldable pub stop_all : Option Toys → Scheduler → Scheduler
stop_all toys s = send (stop none) (cancel_all_slots toys s)

-- What `schedule_function` answers: the id of a loop's row, or the ids of the holds.
pub data Scheduled : Type 0 where
  looped : Option String → Scheduled
  scheduled : List (Option String) → Scheduled

-- The loop over the features.
unfoldable pub schedule_each :
    Option Toys
    → ℕ
    → (ℕ → String)
    → String
    → ℤ
    → Dict String ℤ
    → Scheduler
    → List (Option String) × Scheduler
schedule_each toys now fresh toy_id duration [] s = ([], s)
schedule_each toys now fresh toy_id duration ((feature, level) ∷ actions) s =
    let here = update_or_schedule_slot toys now (fresh 0) (toy_id, feature) level duration s in
    let rest = schedule_each toys now (λ n. fresh (suc n)) toy_id duration actions (here.1) in
    (here.0 ∷ rest.0, rest.1)

-- A scheduler closed in the meantime leaves the loop without a row.
unfoldable pub track_loop : Result Scheduler → String → Scheduler → Result Scheduled × Scheduler
track_loop (ok tracked) task_id s = (ok (looped (some task_id)), tracked)
track_loop (err e) task_id s = (ok (looped none), s)

pub record Ask : Type 0 where
  pub toy_id : String
  pub actions : Dict String ℤ
  pub duration : ℤ
  pub stop_previous : Bool
  pub loop_on_time : Option ℤ
  pub loop_off_time : Option ℤ

unfoldable pub start_loop :
    ℕ → String → Ask → Result (Dict String ℤ) → Scheduler → Result Scheduled × Scheduler
start_loop now task_id ask (err e) s = (err e, s)
start_loop now task_id ask (ok expanded) s =
    let s' =
      send (loop_request expanded ask.duration ask.loop_on_time ask.loop_off_time ask.toy_id) s in
    track_loop
      (track_session now task_id (function_loop expanded) (some ask.toy_id) ask.duration s') task_id
      s'

unfoldable pub start_holds :
    Option Toys
    → ℕ
    → (ℕ → String)
    → Ask
    → Result (Dict String ℤ)
    → Scheduler
    → Result Scheduled × Scheduler
start_holds toys now fresh ask (err e) s = (err e, s)
start_holds toys now fresh ask (ok expanded) s =
    let cleared = if ask.stop_previous then cancel_every_slot_for_toy toys ask.toy_id s else s in
    let made = schedule_each toys now fresh ask.toy_id ask.duration expanded cleared in
    (ok (scheduled (made.0)), made.1)

unfoldable pub schedule_function :
    Option Toys → ℕ → (ℕ → String) → Ask → Scheduler → Result Scheduled × Scheduler
schedule_function toys now fresh ask s =
    let expanded = expand_actions toys ask.toy_id ask.actions in
    if s.closed
    then (err runtime_error, s)
    else if is_some ask.loop_on_time || is_some ask.loop_off_time
    then start_loop now (fresh 0) ask expanded (cancel_every_slot_for_toy toys ask.toy_id s)
    else start_holds toys now fresh ask expanded s

unfoldable pub cancel_tasks : Option Toys → Dict Key ℕ → Scheduler → Scheduler
cancel_tasks toys [] s = s
cancel_tasks toys ((_, h) ∷ tasks) s = cancel_tasks toys tasks (cancel_task toys h s)

unfoldable pub cancel_waits : Dict String ℕ → Scheduler → Scheduler
cancel_waits [] s = s
cancel_waits ((tid, h) ∷ tasks) s = cancel_waits tasks (wait_finish h tid s)

-- Every task is cancelled, as its owner, before the tables are cleared.
unfoldable pub shutdown : Option Toys → Scheduler → Scheduler
shutdown toys s =
    let closing = record s { closed = true } in
    let ended = cancel_waits s.session_tasks (cancel_tasks toys s.tasks closing) in
    record ended { tasks = []; session_tasks = []; levels = []; metas = [] }

-- The rows of `list_tasks` before they are sorted, each with the time that is left.
unfoldable pub remaining : ℕ → Meta → Option ℕ
remaining now (hold h) = elim h.ends [ none ↦ none | some t ↦ some (t - now) ]
remaining now (session row) = some (row.ends - now)

unfoldable pub list_tasks : ℕ → Scheduler → List (String × (Meta × Option ℕ))
list_tasks now s = map (λ e. (e.0, (e.1, remaining now (e.1)))) s.metas
