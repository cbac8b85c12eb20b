-- ===== src/Scheduler/Slots.antt =====
-- lovensepy/services/http_api/scheduler.py: `_run_slot` and `_cancel_slot`. A part of the code that
-- holds the toy's lock is one step; a task is cancelled with the steps that end it.
use lovensepy.Base.{
  ℕ, String, Bool, true, false, not, ◌||◌, Option, none, some, nat_eq, if◌then◌else◌, ℕ_Eq,
  String_Eq, Pair_Eq, Codes_Eq,
}
use lovensepy.Base.Dict.{get, put, pop}
use lovensepy.Base.Int.{is_positive}
use lovensepy.Scheduler.Types.{Scheduler, Slot, Phase, Toys, Key}
use lovensepy.Scheduler.Snapshot.{apply_snapshot}

unfoldable pub set_phase : ℕ → Slot → Phase → Scheduler → Scheduler
set_phase me slot phase s = record s { slots = put me (record slot { phase = phase }) s.slots }

-- self._tasks.get(key) is me
unfoldable pub owns : ℕ → Key → Scheduler → Bool
owns me key s = elim (get key s.tasks) [ none ↦ false | some h ↦ nat_eq h me ]

abbrev is_done : Phase → Bool
is_done Phase.done = true
is_done _ = false

unfoldable pub forget : String → Scheduler → Scheduler
forget task_id s = record s { metas = pop task_id s.metas }

-- The slot lets go of its motor.
unfoldable pub release : Option Toys → Slot → Scheduler → Scheduler
unfolding forget
release toys slot s = apply_snapshot toys (slot.key.0) (
    forget slot.task_id (record s { tasks = pop slot.key s.tasks; levels = pop slot.key s.levels }))

-- The `finally` block.
unfoldable pub slot_finish : Option Toys → ℕ → Slot → Scheduler → Scheduler
slot_finish toys me slot s =
    let s' = set_phase me slot Phase.done s in
    if owns me slot.key s then release toys slot s' else forget slot.task_id s'

-- The task takes the toy's lock for the first time.
unfoldable pub slot_begin : Option Toys → ℕ → Slot → Scheduler → Scheduler
slot_begin toys me slot s =
    if s.closed || not (owns me slot.key s)
    then slot_finish toys me slot s
    else apply_snapshot toys (slot.key.0)
        (set_phase me slot Phase.holding (record s { levels = put slot.key slot.level s.levels }))

-- What a task does when it is given the turn: begin, or end its sleep.
unfoldable pub slot_turn : Option Toys → ℕ → Slot → Phase → Scheduler → Scheduler
slot_turn toys me slot Phase.ready s = slot_begin toys me slot s
slot_turn toys me slot Phase.holding s =
    if is_positive slot.duration then slot_finish toys me slot s else s
slot_turn toys me slot Phase.done s = s

unfoldable pub turn_found : Option Toys → ℕ → Option Slot → Scheduler → Scheduler
turn_found toys me none s = s
turn_found toys me (some slot) s = slot_turn toys me slot slot.phase s

unfoldable pub run_slot : Option Toys → ℕ → Scheduler → Scheduler
run_slot toys me s = turn_found toys me (get me s.slots) s

-- A task that never ran is closed without entering its `try`. One that waits for the toy's lock counts as
-- such: it has set no level yet.
unfoldable pub cancel_in : Option Toys → ℕ → Slot → Phase → Scheduler → Scheduler
cancel_in toys me slot Phase.ready s = set_phase me slot Phase.done s
cancel_in toys me slot Phase.holding s = slot_finish toys me slot s
cancel_in toys me slot Phase.done s = s

unfoldable pub cancel_found : Option Toys → ℕ → Option Slot → Scheduler → Scheduler
cancel_found toys me none s = s
cancel_found toys me (some slot) s = cancel_in toys me slot slot.phase s

unfoldable pub cancel_task : Option Toys → ℕ → Scheduler → Scheduler
cancel_task toys me s = cancel_found toys me (get me s.slots) s

-- old is not None and not old.done()
unfoldable pub is_live : Option ℕ → Scheduler → Bool
is_live none s = false
is_live (some h) s = elim (get h s.slots) [ none ↦ false | some slot ↦ not (is_done slot.phase) ]

unfoldable pub cancel_old : Option Toys → Option ℕ → Scheduler → Scheduler
cancel_old toys none s = s
cancel_old toys (some old) s = cancel_task toys old s

unfoldable pub cancel_slot : Option Toys → Key → Scheduler → Scheduler
cancel_slot toys key s = cancel_old toys (get key s.tasks) (record s { tasks = pop key s.tasks })
