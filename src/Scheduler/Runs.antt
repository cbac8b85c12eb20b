-- ===== src/Scheduler/Runs.antt =====
-- The scheduler over time: calls of its operations and turns of its tasks, in any order.
use lovensepy.Base.{
  ℕ, String, refl, true, ◌||◌, Option, some, List, [], ◌∷◌, arith, if◌then◌else◌, is_some, ℕ_Eq,
  String_Eq, Pair_Eq, Codes_Eq, if_split,
}
use lovensepy.Base.Dict.{Dict, get}
use lovensepy.Base.Int.{ℤ}
use lovensepy.Base.Result.{Result, ok, err, runtime_error}
use lovensepy.Scheduler.Types.{
  Scheduler, Toys, Key, SessionKind, new_scheduler, send, function_loop,
}
use lovensepy.Scheduler.Slots.{run_slot, cancel_task}
use lovensepy.Scheduler.Snapshot.{expand_actions}
use lovensepy.Scheduler.Holds.{stop_feature}
use lovensepy.Scheduler.Sessions.{run_session, track_session, extend_session, wait_finish}
use lovensepy.Scheduler.Service.{
  Ask, schedule_function, start_loop, start_holds, track_loop, stop_toy, stop_all, shutdown,
  cancel_tasks, cancel_waits, cancel_every_slot_for_toy, cancel_all_slots,
  cancel_all_function_slots,
}
use lovensepy.Scheduler.Valid.{IsValid}
use lovensepy.Scheduler.Steps.{
  cancel_slot-IsValid, cancel_slots-IsValid, run_slot-IsValid, schedule_each-IsValid,
  drop_level-IsValid, cancel_task-IsValid,
}
use lovensepy.Scheduler.Still.{
  state_of, run_session-IsValid, wait_finish-IsValid, track_session-IsValid, extend_session-IsValid,
  cancel_sessions_for_toy-IsValid, cancel_all_sessions-IsValid,
}

-- What GetToys answers, the clock and the ids drawn are part of an event.
pub data Event : Type 0 where
  schedule : Option Toys → ℕ → (ℕ → String) → Ask → Event
  turn : Option Toys → ℕ → Event
  track : ℕ → String → SessionKind → Option String → ℤ → Event
  extend : ℕ → String → ℤ → Event
  wake : ℕ → ℕ → String → Event
  halt_toy : Option Toys → String → Event
  halt_all : Option Toys → Event
  halt_feature : Option Toys → Key → Event
  close : Option Toys → Event

abbrev pub step : Event → Scheduler → Scheduler
step (schedule toys now fresh ask) s = (schedule_function toys now fresh ask s).1
step (turn toys me) s = run_slot toys me s
step (track now tid kind toy_id duration) s =
    state_of (track_session now tid kind toy_id duration s) s
step (extend now tid duration) s = state_of (extend_session now tid duration s) s
step (wake now me tid) s = run_session now me tid s
step (halt_toy toys toy_id) s = stop_toy toys toy_id s
step (halt_all toys) s = stop_all toys s
step (halt_feature toys key) s = stop_feature toys key s
step (close toys) s = shutdown toys s

abbrev pub run : List Event → Scheduler → Scheduler
run [] s = s
run (event ∷ events) s = run events (step event s)

cancel_every_slot_for_toy-IsValid :
    (toys : Option Toys) (toy_id : String) (s : Scheduler)
    → IsValid s
    → IsValid (cancel_every_slot_for_toy toys toy_id s)
unfolding cancel_every_slot_for_toy
cancel_every_slot_for_toy-IsValid toys toy_id s v =
    cancel_slots-IsValid toys _ _ (cancel_sessions_for_toy-IsValid (some toy_id) s v)

track_loop-IsValid :
    (r : Result Scheduler) (tid : String) (s : Scheduler)
    → IsValid (state_of r s)
    → IsValid (track_loop r tid s).1
unfolding track_loop
track_loop-IsValid (ok t) tid s v = v
track_loop-IsValid (err e) tid s v = v

start_loop-IsValid :
    (now : ℕ) (tid : String) (ask : Ask) (r : Result (Dict String ℤ)) (s : Scheduler)
    → IsValid s
    → IsValid (start_loop now tid ask r s).1
unfolding start_loop send
start_loop-IsValid now tid ask (err e) s v = v
start_loop-IsValid now tid ask (ok expanded) s v =
    track_loop-IsValid _ tid _
      (track_session-IsValid now tid (function_loop expanded) (some ask.toy_id) ask.duration _ v)

start_holds-IsValid :
    (toys : Option Toys) (now : ℕ) (fresh : ℕ → String) (ask : Ask) (r : Result (Dict String ℤ))
    (s : Scheduler)
    → IsValid s
    → IsValid (start_holds toys now fresh ask r s).1
unfolding start_holds
start_holds-IsValid toys now fresh ask (err e) s v = v
start_holds-IsValid toys now fresh ask (ok expanded) s v =
    let cleared : Scheduler = cancel_every_slot_for_toy toys ask.toy_id s in
    schedule_each-IsValid toys now fresh ask.toy_id ask.duration expanded
      (if ask.stop_previous then cleared else s)
      (if_split IsValid ask.stop_previous cleared s
        (λ _. cancel_every_slot_for_toy-IsValid toys ask.toy_id s v) (λ _. v))

schedule_function-IsValid :
    (toys : Option Toys) (now : ℕ) (fresh : ℕ → String) (ask : Ask) (s : Scheduler)
    → IsValid s
    → IsValid (schedule_function toys now fresh ask s).1
unfolding schedule_function
schedule_function-IsValid toys now fresh ask s v =
    let expanded = expand_actions toys ask.toy_id ask.actions in
    let cleared = cancel_every_slot_for_toy toys ask.toy_id s in
    let loop = start_loop now (fresh 0) ask expanded cleared in
    let holds = start_holds toys now fresh ask expanded s in
    let is_loop = is_some ask.loop_on_time || is_some ask.loop_off_time in
    if_split (λ r. IsValid r.1) s.closed (err runtime_error, s) (if is_loop then loop else holds)
      (λ _. v)
      (λ _.
        if_split (λ r. IsValid r.1) is_loop loop holds
          (λ _.
            start_loop-IsValid now (fresh 0) ask expanded cleared
              (cancel_every_slot_for_toy-IsValid toys ask.toy_id s v))
          (λ _. start_holds-IsValid toys now fresh ask expanded s v))

cancel_tasks-IsValid :
    (toys : Option Toys) (tasks : Dict Key ℕ) (s : Scheduler)
    → IsValid s
    → IsValid (cancel_tasks toys tasks s)
unfolding cancel_tasks
cancel_tasks-IsValid toys [] s v = v
cancel_tasks-IsValid toys ((key, h) ∷ tasks) s v =
    cancel_tasks-IsValid toys tasks (cancel_task toys h s) (cancel_task-IsValid toys h s v)

cancel_waits-IsValid :
    (tasks : Dict String ℕ) (s : Scheduler) → IsValid s → IsValid (cancel_waits tasks s)
unfolding cancel_waits
cancel_waits-IsValid [] s v = v
cancel_waits-IsValid ((tid, h) ∷ tasks) s v =
    cancel_waits-IsValid tasks (wait_finish h tid s) (wait_finish-IsValid h tid s v)

shutdown-IsValid : (toys : Option Toys) (s : Scheduler) → IsValid s → IsValid (shutdown toys s)
unfolding shutdown get
shutdown-IsValid toys s v =
    let ended =
      cancel_waits-IsValid s.session_tasks _
        (cancel_tasks-IsValid toys s.tasks (record s { closed = true }) v) in
    record {
      owned = λ key h e. ground (arith, e);
      fresh = ended.fresh;
      tasks_distinct = tt;
      levels_distinct = tt;
    }

-- One call or turn keeps the tables of tasks in agreement.
pub step-IsValid : (event : Event) (s : Scheduler) → IsValid s → IsValid (step event s)
unfolding stop_toy stop_all cancel_all_slots cancel_all_function_slots stop_feature send
step-IsValid (schedule toys now fresh ask) s v = schedule_function-IsValid toys now fresh ask s v
step-IsValid (turn toys me) s v = run_slot-IsValid toys me s v
step-IsValid (track now tid kind toy_id duration) s v =
    track_session-IsValid now tid kind toy_id duration s v
step-IsValid (extend now tid duration) s v = extend_session-IsValid now tid duration s v
step-IsValid (wake now me tid) s v = run_session-IsValid now me tid s v
step-IsValid (halt_toy toys toy_id) s v = cancel_every_slot_for_toy-IsValid toys toy_id s v
step-IsValid (halt_all toys) s v = cancel_slots-IsValid toys _ _ (cancel_all_sessions-IsValid s v)
step-IsValid (halt_feature toys key) s v =
    drop_level-IsValid toys key _ (cancel_slot-IsValid toys key s v)
step-IsValid (close toys) s v = shutdown-IsValid toys s v

run-IsValid : (events : List Event) (s : Scheduler) → IsValid s → IsValid (run events s)
run-IsValid [] s v = v
run-IsValid (event ∷ events) s v = run-IsValid events (step event s) (step-IsValid event s v)

pub new_scheduler-IsValid : (limit : ℕ) → IsValid (new_scheduler limit)
unfolding new_scheduler get
new_scheduler-IsValid limit = record {
  owned = λ key h e. ground (arith, e);
  fresh = λ h le. refl;
  tasks_distinct = tt;
  levels_distinct = tt;
}

-- From the start of the service, whatever is called and whichever task has its turn, each registered
-- task runs a slot of the motor it is registered for, task numbers are not given out twice, and no
-- motor stands twice among the tasks or the levels.
run-new_scheduler-IsValid :
    (limit : ℕ) (events : List Event) → IsValid (run events (new_scheduler limit))
run-new_scheduler-IsValid limit events =
    run-IsValid events (new_scheduler limit) (new_scheduler-IsValid limit)
