-- ===== src/Scheduler/Quiet.antt =====
-- What cancelling a slot leaves behind: the owner check of `_run_slot` fails after `_cancel_slot` has
-- taken the slot out of `_tasks`.
use lovensepy.Base.{
  ℕ, String, ◌≡◌, refl, ap, ◌∙◌, false, Option, none, some, List, [], ◌∷◌, map, arith, nat_eq,
  ==-self, ℕ_Eq, String_Eq, Pair_Eq, Codes_Eq, if_false,
}
use lovensepy.Base.Dict.{Dict, get, pop, get-pop}
use lovensepy.Scheduler.Types.{Scheduler, Toys, Key, Slot, Phase, send}
use lovensepy.Scheduler.Slots.{
  cancel_slot, cancel_task, cancel_found, cancel_in, cancel_old, slot_finish, owns, forget,
  set_phase,
}
use lovensepy.Scheduler.Service.{
  cancel_slots, stop_toy, stop_all, keys_of, cancel_every_slot_for_toy, cancel_all_slots,
  cancel_all_function_slots,
}
use lovensepy.Scheduler.Valid.{IsValid, key_of}
use lovensepy.Scheduler.Steps.{cancel_slot-IsValid}
use lovensepy.Scheduler.Sessions.{cancel_sessions_for_toy, cancel_all_sessions}
use lovensepy.Scheduler.Still.{
  cancel_sessions_for_toy-IsValid, cancel_sessions_for_toy-levels, cancel_all_sessions-IsValid,
  cancel_all_sessions-levels,
}

-- The motors are as they were: the levels, the owners and the calls made.
pub record SameMotors (s t : Scheduler) : Type 0 where
  pub same_levels : t.levels ≡ s.levels
  pub same_tasks : t.tasks ≡ s.tasks
  pub same_sent : t.sent ≡ s.sent

finish_stray :
    (toys : Option Toys) (me : ℕ) (slot : Slot) (s : Scheduler)
    → owns me slot.key s ≡ false
    → slot_finish toys me slot s ≡ forget slot.task_id (set_phase me slot Phase.done s)
unfolding slot_finish
finish_stray toys me slot s h = if_false (owns me slot.key s) _ _ h

pub slot_finish-SameMotors :
    (toys : Option Toys) (me : ℕ) (slot : Slot) (s : Scheduler)
    → owns me slot.key s ≡ false
    → SameMotors s (slot_finish toys me slot s)
unfolding forget set_phase
slot_finish-SameMotors toys me slot s h =
    let e = finish_stray toys me slot s h in
    record {
      same_levels = ap (λ (t : Scheduler). t.levels) e;
      same_tasks = ap (λ (t : Scheduler). t.tasks) e;
      same_sent = ap (λ (t : Scheduler). t.sent) e;
    }

cancel_in-SameMotors :
    (toys : Option Toys) (me : ℕ) (slot : Slot) (phase : Phase) (s : Scheduler)
    → owns me slot.key s ≡ false
    → SameMotors s (cancel_in toys me slot phase s)
unfolding cancel_in set_phase
cancel_in-SameMotors toys me slot Phase.ready s h = record {
  same_levels = refl;
  same_tasks = refl;
  same_sent = refl;
}
cancel_in-SameMotors toys me slot Phase.holding s h = slot_finish-SameMotors toys me slot s h
cancel_in-SameMotors toys me slot Phase.done s h = record {
  same_levels = refl;
  same_tasks = refl;
  same_sent = refl;
}

same_key : (j k : Key) → some j ≡ some k → j ≡ k
same_key j k e = ap (λ o. elim o [ none ↦ k | some i ↦ i ]) e

owns_absent : (me : ℕ) (key : Key) (s : Scheduler) → get key s.tasks ≡ none → owns me key s ≡ false
unfolding owns
owns_absent me key s n = ap (λ o. elim o [ none ↦ false | some h ↦ nat_eq h me ]) n

-- No task of the motor that `o` names is registered.
cancel_found-SameMotors :
    (toys : Option Toys) (me : ℕ) (key : Key) (o : Option Slot) (s : Scheduler)
    → key_of o ≡ some key
    → get key s.tasks ≡ none
    → SameMotors s (cancel_found toys me o s)
unfolding cancel_found owns
cancel_found-SameMotors toys me key none s k n = record {
  same_levels = refl;
  same_tasks = refl;
  same_sent = refl;
}
cancel_found-SameMotors toys me key (some slot) s k n =
    cancel_in-SameMotors toys me slot slot.phase s
      (owns_absent me slot.key s (ap (λ x. get x s.tasks) (same_key slot.key key k) ∙ n))

gone : (key : Key) (tasks : Dict Key ℕ) → get key (pop key tasks) ≡ none
gone key tasks = ground (arith, get-pop key key tasks, ==-self key)

cancel_old-SameMotors :
    (toys : Option Toys) (key : Key) (o : Option ℕ) (s : Scheduler)
    → ((h : ℕ) → o ≡ some h → key_of (get h s.slots) ≡ some key)
    → get key s.tasks ≡ none
    → SameMotors s (cancel_old toys o s)
unfolding cancel_old cancel_task
cancel_old-SameMotors toys key none s k n = record {
  same_levels = refl;
  same_tasks = refl;
  same_sent = refl;
}
cancel_old-SameMotors toys key (some h) s k n =
    cancel_found-SameMotors toys h key (get h s.slots) s (k h refl) n

-- Cancelling the slot of a motor sends nothing and changes no level; its only trace in the motors is
-- that the slot is no longer registered. The level of the motor stays in the table.
pub cancel_slot-SameMotors :
    (toys : Option Toys) (key : Key) (s : Scheduler)
    → IsValid s
    → SameMotors (record s { tasks = pop key s.tasks }) (cancel_slot toys key s)
unfolding cancel_slot
cancel_slot-SameMotors toys key s v =
    cancel_old-SameMotors toys key (get key s.tasks) (record s { tasks = pop key s.tasks })
      (λ h e. v.owned key h e) (gone key s.tasks)

cancel_slots-levels :
    (toys : Option Toys) (keys : List Key) (s : Scheduler)
    → IsValid s
    → (cancel_slots toys keys s).levels ≡ s.levels
unfolding cancel_slots
cancel_slots-levels toys [] s v = refl
cancel_slots-levels toys (key ∷ keys) s v =
    cancel_slots-levels toys keys (cancel_slot toys key s) (cancel_slot-IsValid toys key s v)
    ∙ (cancel_slot-SameMotors toys key s v).same_levels

-- Stopping a toy cancels its holds but forgets none of their levels.
pub stop_toy-levels :
    (toys : Option Toys) (toy_id : String) (s : Scheduler)
    → IsValid s
    → (stop_toy toys toy_id s).levels ≡ s.levels
unfolding stop_toy cancel_every_slot_for_toy send
stop_toy-levels toys toy_id s v =
    let t = cancel_sessions_for_toy (some toy_id) s in
    cancel_slots-levels toys (keys_of toy_id t.tasks) t
      (cancel_sessions_for_toy-IsValid (some toy_id) s v)
    ∙ cancel_sessions_for_toy-levels (some toy_id) s

-- Stopping everything cancels all holds but forgets none of their levels.
pub stop_all-levels :
    (toys : Option Toys) (s : Scheduler) → IsValid s → (stop_all toys s).levels ≡ s.levels
unfolding stop_all cancel_all_slots cancel_all_function_slots send
stop_all-levels toys s v =
    let t = cancel_all_sessions s in
    cancel_slots-levels toys (map (λ e. e.0) t.tasks) t (cancel_all_sessions-IsValid s v)
    ∙ cancel_all_sessions-levels s
