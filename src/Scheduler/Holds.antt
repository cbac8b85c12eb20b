-- ===== src/Scheduler/Holds.antt =====
-- lovensepy/services/http_api/scheduler.py: `_update_or_schedule_slot` and `stop_feature`. The new task
-- id is an argument; the answer is the row of the hold.
use lovensepy.Base.{
  ℕ, zero, suc, ◌+◌, String, Bool, false, not, ◌&&◌, Option, none, some, [], ◌∷◌, if◌then◌else◌,
  ◌==◌, ℕ_Eq, String_Eq, Pair_Eq, Codes_Eq,
}
use lovensepy.Base.Dict.{Dict, get, put, pop}
use lovensepy.Base.Int.{ℤ, pos, negsuc, is_positive}
use lovensepy.Scheduler.Types.{Scheduler, Phase, Toys, Key, Hold, Meta, hold, session}
use lovensepy.Scheduler.Snapshot.{apply_snapshot}
use lovensepy.Scheduler.Slots.{cancel_slot, is_live}

-- now + duration, if the hold has an end
end_of : ℕ → ℤ → Option ℕ
end_of now (pos zero) = none
end_of now (pos (suc n)) = some (now + suc n)
end_of now (negsuc n) = none

unfoldable pub new_hold : ℕ → Key → ℤ → ℤ → Hold
unfolding end_of
new_hold now key level duration = record {
  toy_id = key.0;
  feature = key.1;
  level = level;
  duration_sec = duration;
  started = now;
  ends = end_of now duration;
}

is_endless : Key → Meta → Bool
is_endless key (hold h) =
    h.toy_id == key.0 && h.feature == key.1 && not (is_positive h.duration_sec)
is_endless key (session _) = false

-- The first row of an endless hold of this motor.
unfoldable pub find_hold : Key → Dict String Meta → Option String
unfolding is_endless
find_hold key [] = none
find_hold key ((tid, m) ∷ metas) =
    let rest = find_hold key metas in if is_endless key m then some tid else rest

-- The row that a continuous overwrite reuses.
unfoldable pub reusable : Key → Scheduler → Option String
reusable key s = if is_live (get key s.tasks) s then find_hold key s.metas else none

-- The level, the row and the task of a new hold.
unfoldable pub add_slot : ℕ → String → Key → ℤ → ℤ → Scheduler → Scheduler
unfolding new_hold
add_slot now task_id key level duration s = record s {
  levels = put key level s.levels;
  metas = put task_id (hold (new_hold now key level duration)) s.metas;
  slots =
      put s.next_task
        (record {
          task_id = task_id;
          key = key;
          level = level;
          duration = duration;
          phase = Phase.ready;
        })
        s.slots;
  tasks = put key s.next_task s.tasks;
  next_task = suc s.next_task;
}

set_level : ℤ → Meta → Meta
set_level level (hold h) = hold (record h { level = level })
set_level level (session x) = session x

-- meta["level"] = level, if the row is there
relevel : String → ℤ → Dict String Meta → Dict String Meta
unfolding set_level
relevel task_id level metas = elim (get task_id metas) [
  | none ↦ metas
  | some m ↦ put task_id (set_level level m) metas
]

unfoldable pub overwrite : Key → ℤ → String → Scheduler → Scheduler
unfolding relevel
overwrite key level task_id s = record s {
  levels = put key level s.levels;
  metas = relevel task_id level s.metas;
}

unfoldable pub hold_at :
    Option Toys → ℕ → String → Key → ℤ → Option String → Scheduler → String × Scheduler
hold_at toys now task_id key level none s =
    (task_id, apply_snapshot toys (key.0) (add_slot now task_id key level (pos 0) s))
hold_at toys now task_id key level (some tid) s =
    (tid, apply_snapshot toys (key.0) (overwrite key level tid s))

-- `duration <= 0 < level`: the id of the row that the answer shows, and the state.
unfoldable pub hold_level : Option Toys → ℕ → String → Key → ℤ → Scheduler → String × Scheduler
hold_level toys now task_id key level s = hold_at toys now task_id key level (reusable key s) s

-- The level of one motor is dropped and the rest of the toy's is sent.
unfoldable pub drop_level : Option Toys → Key → Scheduler → Scheduler
drop_level toys key s = apply_snapshot toys (key.0) (record s { levels = pop key s.levels })

unfoldable pub update_or_schedule_slot :
    Option Toys → ℕ → String → Key → ℤ → ℤ → Scheduler → Option String × Scheduler
update_or_schedule_slot toys now task_id key level duration s =
    let s' = cancel_slot toys key s in
    let held = hold_level toys now task_id key level s in
    if not (is_positive duration) && is_positive level
    then (some held.0, held.1)
    else if not (is_positive duration)
    then (none, drop_level toys key s')
    else (some task_id, add_slot now task_id key level duration s')

unfoldable pub stop_feature : Option Toys → Key → Scheduler → Scheduler
stop_feature toys key s = drop_level toys key (cancel_slot toys key s)
