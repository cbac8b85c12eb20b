-- ===== src/Scheduler/Steps.antt =====
-- Every operation on the holds keeps the tables of tasks in agreement.
use lovensepy.Base.{
  ℕ, suc, ◌≤◌, String, ◌≡◌, refl, ap, ◌∙◌, inl, inr, not, ◌&&◌, ◌||◌, Option, none, some, List, [],
  ◌∷◌, arith, if◌then◌else◌, nat_eq_iff, Bool-cases, ◌==◌, ℕ_Eq, String_Eq, Pair_Eq, Codes_Eq,
  pair_eq_iff, if_split,
}
use lovensepy.Base.Dict.{Dict, get, put, pop, put-Distinct, get-put}
use lovensepy.Base.Int.{ℤ, pos, is_positive}
use lovensepy.Scheduler.Types.{Scheduler, Toys, Key, Slot, Phase, new_scheduler}
use lovensepy.Scheduler.Slots.{
  cancel_slot, cancel_task, cancel_found, cancel_in, cancel_old, slot_finish, slot_begin, slot_turn,
  turn_found, run_slot, set_phase, release, forget, owns,
}
use lovensepy.Scheduler.Snapshot.{apply_snapshot}
use lovensepy.Scheduler.Holds.{
  hold_at, add_slot, overwrite, hold_level, drop_level, update_or_schedule_slot, reusable,
}
use lovensepy.Scheduler.Service.{cancel_slots, schedule_each}
use lovensepy.Scheduler.Valid.{
  IsValid, set_phase-IsValid, pop_task-IsValid, pop_level-IsValid, put_level-IsValid, key_of,
}

release-IsValid :
    (toys : Option Toys) (slot : Slot) (s : Scheduler) → IsValid s → IsValid (release toys slot s)
unfolding release apply_snapshot lovensepy.Scheduler.Types.send pop
release-IsValid toys slot s v =
    pop_level-IsValid slot.key (record s { tasks = pop slot.key s.tasks })
      (pop_task-IsValid slot.key s v)

slot_finish-IsValid :
    (toys : Option Toys) (me : ℕ) (slot : Slot) (s : Scheduler)
    → get me s.slots ≡ some slot
    → IsValid s
    → IsValid (slot_finish toys me slot s)
unfolding slot_finish forget
slot_finish-IsValid toys me slot s g v =
    let v' = set_phase-IsValid me slot Phase.done s g v in
    if_split IsValid (owns me slot.key s) (release toys slot (set_phase me slot Phase.done s))
      (forget slot.task_id (set_phase me slot Phase.done s))
      (λ _. release-IsValid toys slot (set_phase me slot Phase.done s) v') (λ _. v')

slot_begin-IsValid :
    (toys : Option Toys) (me : ℕ) (slot : Slot) (s : Scheduler)
    → get me s.slots ≡ some slot
    → IsValid s
    → IsValid (slot_begin toys me slot s)
unfolding slot_begin apply_snapshot lovensepy.Scheduler.Types.send set_phase
slot_begin-IsValid toys me slot s g v =
    let put_level : Scheduler = record s { levels = put slot.key slot.level s.levels } in
    if_split IsValid (s.closed || not (owns me slot.key s)) (slot_finish toys me slot s)
      (apply_snapshot toys (slot.key.0) (set_phase me slot Phase.holding put_level))
      (λ _. slot_finish-IsValid toys me slot s g v)
      (λ _.
        set_phase-IsValid me slot Phase.holding
          (record s { levels = put slot.key slot.level s.levels }) g
          (put_level-IsValid slot.key slot.level s v))

slot_turn-IsValid :
    (toys : Option Toys) (me : ℕ) (slot : Slot) (phase : Phase) (s : Scheduler)
    → get me s.slots ≡ some slot
    → IsValid s
    → IsValid (slot_turn toys me slot phase s)
unfolding slot_turn
slot_turn-IsValid toys me slot Phase.ready s g v = slot_begin-IsValid toys me slot s g v
slot_turn-IsValid toys me slot Phase.holding s g v =
    if_split IsValid (is_positive slot.duration) _ _ (λ _. slot_finish-IsValid toys me slot s g v)
      (λ _. v)
slot_turn-IsValid toys me slot Phase.done s g v = v

turn_found-IsValid :
    (toys : Option Toys) (me : ℕ) (o : Option Slot) (s : Scheduler)
    → get me s.slots ≡ o
    → IsValid s
    → IsValid (turn_found toys me o s)
unfolding turn_found
turn_found-IsValid toys me none s g v = v
turn_found-IsValid toys me (some slot) s g v = slot_turn-IsValid toys me slot slot.phase s g v

cancel_in-IsValid :
    (toys : Option Toys) (me : ℕ) (slot : Slot) (phase : Phase) (s : Scheduler)
    → get me s.slots ≡ some slot
    → IsValid s
    → IsValid (cancel_in toys me slot phase s)
unfolding cancel_in
cancel_in-IsValid toys me slot Phase.ready s g v = set_phase-IsValid me slot Phase.done s g v
cancel_in-IsValid toys me slot Phase.holding s g v = slot_finish-IsValid toys me slot s g v
cancel_in-IsValid toys me slot Phase.done s g v = v

cancel_found-IsValid :
    (toys : Option Toys) (me : ℕ) (o : Option Slot) (s : Scheduler)
    → get me s.slots ≡ o
    → IsValid s
    → IsValid (cancel_found toys me o s)
unfolding cancel_found
cancel_found-IsValid toys me none s g v = v
cancel_found-IsValid toys me (some slot) s g v = cancel_in-IsValid toys me slot slot.phase s g v

cancel_old-IsValid :
    (toys : Option Toys) (o : Option ℕ) (s : Scheduler) → IsValid s → IsValid (cancel_old toys o s)
unfolding cancel_old cancel_task
cancel_old-IsValid toys none s v = v
cancel_old-IsValid toys (some old) s v = cancel_found-IsValid toys old (get old s.slots) s refl v

pub cancel_task-IsValid :
    (toys : Option Toys) (me : ℕ) (s : Scheduler) → IsValid s → IsValid (cancel_task toys me s)
unfolding cancel_task
cancel_task-IsValid toys me s v = cancel_found-IsValid toys me (get me s.slots) s refl v

pub cancel_slot-IsValid :
    (toys : Option Toys) (key : Key) (s : Scheduler) → IsValid s → IsValid (cancel_slot toys key s)
unfolding cancel_slot
cancel_slot-IsValid toys key s v =
    cancel_old-IsValid toys (get key s.tasks) (record s { tasks = pop key s.tasks })
      (pop_task-IsValid key s v)

pub cancel_slots-IsValid :
    (toys : Option Toys) (keys : List Key) (s : Scheduler)
    → IsValid s
    → IsValid (cancel_slots toys keys s)
unfolding cancel_slots
cancel_slots-IsValid toys [] s v = v
cancel_slots-IsValid toys (key ∷ keys) s v =
    cancel_slots-IsValid toys keys (cancel_slot toys key s) (cancel_slot-IsValid toys key s v)

pub run_slot-IsValid :
    (toys : Option Toys) (me : ℕ) (s : Scheduler) → IsValid s → IsValid (run_slot toys me s)
unfolding run_slot
run_slot-IsValid toys me s v = turn_found-IsValid toys me (get me s.slots) s refl v

pub drop_level-IsValid :
    (toys : Option Toys) (key : Key) (s : Scheduler) → IsValid s → IsValid (drop_level toys key s)
unfolding drop_level apply_snapshot lovensepy.Scheduler.Types.send pop
drop_level-IsValid toys key s v = pop_level-IsValid key s v

added_owned :
    (key k : Key) (h : ℕ) (new : Slot) (s : Scheduler)
    → IsValid s
    → new.key ≡ key
    → get k (put key s.next_task s.tasks) ≡ some h
    → key_of (get h (put s.next_task new s.slots)) ≡ some k
added_owned key k h new s v e t = elim (Bool-cases (key == k)) [
  | inl same ↦
      let here : s.next_task ≡ h = ground (arith, get-put key k s.next_task s.tasks) in
      let slot : get h (put s.next_task new s.slots) ≡ some new =
        ground (arith, get-put s.next_task h new s.slots, nat_eq_iff s.next_task h) in
      ap key_of slot ∙ ap some (e ∙ (pair_eq_iff key k).0 same)
  | inr other ↦
      let old : get k s.tasks ≡ some h = ground (arith, get-put key k s.next_task s.tasks) in
      let before : key_of (get h s.slots) ≡ some k = v.owned k h old in
      let slot : get h (put s.next_task new s.slots) ≡ get h s.slots =
        ground (arith, get-put s.next_task h new s.slots, v.fresh h, nat_eq_iff s.next_task h) in
      ap key_of slot ∙ before
]

added_fresh :
    (h : ℕ) (new : Slot) (s : Scheduler)
    → IsValid s
    → suc s.next_task ≤ h
    → get h (put s.next_task new s.slots) ≡ none
added_fresh h new s v le =
    ground (arith, get-put s.next_task h new s.slots, v.fresh h, nat_eq_iff s.next_task h)

pub add_slot-IsValid :
    (now : ℕ) (task_id : String) (key : Key) (level duration : ℤ) (s : Scheduler)
    → IsValid s
    → IsValid (add_slot now task_id key level duration s)
unfolding add_slot
add_slot-IsValid now task_id key level duration s v = record {
  owned = λ k h t. added_owned key k h _ s v refl t;
  fresh = λ h le. added_fresh h _ s v le;
  tasks_distinct = put-Distinct key s.next_task s.tasks v.tasks_distinct;
  levels_distinct = put-Distinct key level s.levels v.levels_distinct;
}

hold_at-IsValid :
    (toys : Option Toys) (now : ℕ) (task_id : String) (key : Key) (level : ℤ) (o : Option String)
    (s : Scheduler)
    → IsValid s
    → IsValid (hold_at toys now task_id key level o s).1
unfolding hold_at apply_snapshot overwrite lovensepy.Scheduler.Types.send add_slot
hold_at-IsValid toys now task_id key level none s v =
    add_slot-IsValid now task_id key level (pos 0) s v
hold_at-IsValid toys now task_id key level (some tid) s v = put_level-IsValid key level s v

pub update_or_schedule_slot-IsValid :
    (toys : Option Toys) (now : ℕ) (task_id : String) (key : Key) (level duration : ℤ)
    (s : Scheduler)
    → IsValid s
    → IsValid (update_or_schedule_slot toys now task_id key level duration s).1
unfolding update_or_schedule_slot hold_level
update_or_schedule_slot-IsValid toys now task_id key level duration s v =
    let v' = cancel_slot-IsValid toys key s v in
    let s' = cancel_slot toys key s in
    let held = hold_level toys now task_id key level s in
    let dropped : Option String × Scheduler = (none, drop_level toys key s') in
    let added : Option String × Scheduler =
      (some task_id, add_slot now task_id key level duration s') in
    let rest = if not (is_positive duration) then dropped else added in
    if_split (λ r. IsValid r.1) (not (is_positive duration) && is_positive level)
      (some held.0, held.1) rest
      (λ _. hold_at-IsValid toys now task_id key level (reusable key s) s v)
      (λ _.
        if_split (λ r. IsValid r.1) (not (is_positive duration)) dropped added
          (λ _. drop_level-IsValid toys key s' v')
          (λ _. add_slot-IsValid now task_id key level duration s' v'))

pub schedule_each-IsValid :
    (toys : Option Toys) (now : ℕ) (fresh : ℕ → String) (toy_id : String) (duration : ℤ)
    (actions : Dict String ℤ) (s : Scheduler)
    → IsValid s
    → IsValid (schedule_each toys now fresh toy_id duration actions s).1
unfolding schedule_each
schedule_each-IsValid toys now fresh toy_id duration [] s v = v
schedule_each-IsValid toys now fresh toy_id duration ((feature, level) ∷ actions) s v =
    schedule_each-IsValid toys now (λ n. fresh (suc n)) toy_id duration actions _
      (update_or_schedule_slot-IsValid toys now (fresh 0) (toy_id, feature) level duration s v)
