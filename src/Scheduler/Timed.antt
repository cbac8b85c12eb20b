-- ===== src/Scheduler/Timed.antt =====
-- The life of a timed hold: its task has a turn, sleeps, and has a second turn.
use lovensepy.Base.{
  ℕ, String, ◌≡◌, refl, sym, ap, ◌∙◌, true, false, not, ◌||◌, Option, none, some, arith, nat_eq,
  nat_eq_iff, ℕ_Eq, String_Eq, Pair_Eq, Codes_Eq, pair_eq_iff, if_true, if_false,
}
use mathlib.Core.Path.{subst}
use lovensepy.Base.Dict.{Dict, get, put, pop, get-put, Distinct, put-Distinct, pop-Distinct}
use lovensepy.Base.Int.{ℤ, is_positive}
use lovensepy.Scheduler.Types.{Scheduler, Toys, Key, Slot, Phase, send}
use lovensepy.Scheduler.Slots.{
  run_slot, turn_found, slot_turn, slot_begin, slot_finish, release, forget, set_phase, owns,
}
use lovensepy.Scheduler.Snapshot.{apply_snapshot, clamp_feature}
use lovensepy.Scheduler.Merge.{snapshot_call-levels, snapshot_call-AtRest, clamp_at}
use lovensepy.Scheduler.Motors.{last_level, Stopped, put_hit, pop_hit, pop_miss, put_miss}
use lovensepy.Scheduler.Holds.{add_slot}
use lovensepy.Scheduler.Valid.{IsValid}

found_turn :
    (toys : Option Toys) (me : ℕ) (slot : Slot) (s : Scheduler)
    → get me s.slots ≡ some slot
    → run_slot toys me s ≡ slot_turn toys me slot slot.phase s
unfolding run_slot turn_found
found_turn toys me slot s g = ap (λ o. turn_found toys me o s) g

-- The state after the first turn of an owner.
abbrev begun : Option Toys → ℕ → Slot → Scheduler → Scheduler
begun toys me slot s =
    apply_snapshot toys (slot.key.0)
      (set_phase me slot Phase.holding (record s { levels = put slot.key slot.level s.levels }))

begin_owner :
    (toys : Option Toys) (me : ℕ) (slot : Slot) (s : Scheduler)
    → s.closed ≡ false
    → owns me slot.key s ≡ true
    → slot_begin toys me slot s ≡ begun toys me slot s
unfolding slot_begin
begin_owner toys me slot s c o = if_false (s.closed || not (owns me slot.key s)) _ _ (ground arith)

finish_owner :
    (toys : Option Toys) (me : ℕ) (slot : Slot) (s : Scheduler)
    → owns me slot.key s ≡ true
    → slot_finish toys me slot s ≡ release toys slot (set_phase me slot Phase.done s)
unfolding slot_finish
finish_owner toys me slot s o = if_true (owns me slot.key s) _ _ o

owns_registered :
    (me : ℕ) (key : Key) (s : Scheduler) → get key s.tasks ≡ some me → owns me key s ≡ true
unfolding owns
owns_registered me key s g =
    ap (λ o. elim o [ none ↦ false | some h ↦ nat_eq h me ]) g ∙ (nat_eq_iff me me).1 refl

put_found {κ} : {V : Type κ} (me : ℕ) (v : V) (d : Dict ℕ V) → get me (put me v d) ≡ some v
put_found me v d = ground (arith, get-put me me v d, nat_eq_iff me me)

registered :
    (toy f : String) (me : ℕ) (tasks : Dict Key ℕ) → get (toy, f) (put (toy, f) me tasks) ≡ some me
registered toy f me tasks =
    ground (arith, get-put (toy, f) (toy, f) me tasks, pair_eq_iff (toy, f) (toy, f))

module _ (toys : Option Toys) (me : ℕ) (tid toy f : String) (level duration : ℤ) where
  abbrev timed : Phase → Slot
  timed phase = record {
    task_id = tid;
    key = (toy, f);
    level = level;
    duration = duration;
    phase = phase;
  }

  first_turn :
      (s : Scheduler)
      → get me s.slots ≡ some (timed Phase.ready)
      → get (toy, f) s.tasks ≡ some me
      → s.closed ≡ false
      → run_slot toys me s ≡ begun toys me (timed Phase.ready) s
  unfolding slot_turn
  first_turn s g t c =
      found_turn toys me (timed Phase.ready) s g
      ∙ begin_owner toys me (timed Phase.ready) s c (owns_registered me (toy, f) s t)

  second_turn :
      (s : Scheduler)
      → get me s.slots ≡ some (timed Phase.holding)
      → get (toy, f) s.tasks ≡ some me
      → is_positive duration ≡ true
      → run_slot toys me s
        ≡ release toys (timed Phase.holding) (set_phase me (timed Phase.holding) Phase.done s)
  unfolding slot_turn
  second_turn s g t d =
      found_turn toys me (timed Phase.holding) s g
      ∙ if_true (is_positive duration) (slot_finish toys me (timed Phase.holding) s) s d
      ∙ finish_owner toys me (timed Phase.holding) s (owns_registered me (toy, f) s t)

  begun_last :
      (s : Scheduler)
      → Distinct s.levels
      → last_level f (begun toys me (timed Phase.ready) s) ≡ some (clamp_feature f level)
  unfolding apply_snapshot set_phase send
  begun_last s d =
      snapshot_call-levels toys toy f f level (put (toy, f) level s.levels)
        (put-Distinct (toy, f) level s.levels d) (put_hit toy f level s.levels)
      ∙ ap (clamp_at f) (put_hit toy f level s.levels)

  released_Stopped :
      (s : Scheduler) → Distinct s.levels → Stopped toy f s (release toys (timed Phase.holding) s)
  unfolding release apply_snapshot forget send
  released_Stopped s d = record {
    no_task = pop_hit toy f s.tasks;
    no_level = pop_hit toy f s.levels;
    at_rest =
        snapshot_call-AtRest toys toy f (pop (toy, f) s.levels) (pop-Distinct (toy, f) s.levels d)
          (pop_hit toy f s.levels);
    levels_kept = λ g n. pop_miss toy f g s.levels n;
  }

  -- The two turns of the task, from the state that `add_slot` leaves.
  both_turns :
      (s : Scheduler)
      → get me s.slots ≡ some (timed Phase.ready)
      → get (toy, f) s.tasks ≡ some me
      → s.closed ≡ false
      → is_positive duration ≡ true
      → Distinct s.levels
      → (last_level f (run_slot toys me s) ≡ some (clamp_feature f level))
        × Stopped toy f s (run_slot toys me (run_slot toys me s))
  unfolding apply_snapshot set_phase send
  both_turns s g t c p d =
      let b : Scheduler = begun toys me (timed Phase.ready) s in
      let e = first_turn s g t c in
      let over : Scheduler = set_phase me (timed Phase.holding) Phase.done b in
      let ends = second_turn b (put_found me (timed Phase.holding) s.slots) t p in
      let distinct = put-Distinct (toy, f) level s.levels d in
      let r = released_Stopped over distinct in
      let stopped : Stopped toy f s (release toys (timed Phase.holding) over) = record {
        no_task = r.no_task;
        no_level = r.no_level;
        at_rest = r.at_rest;
        levels_kept = λ g n. r.levels_kept g n ∙ put_miss toy f g level s.levels n;
      } in
      (
        ap (last_level f) e ∙ begun_last s d,
        subst (Stopped toy f s) (sym (ap (run_slot toys me) e ∙ ends)) stopped,
      )

-- A timed hold comes to its end. The scheduler is open and the duration positive. The first turn of the
-- hold's task sets the feature to its clamped level; its second turn, when the sleep is over, takes the
-- task and the level away, leaves the feature or sets it to 0, and keeps the other levels of the toy.
pub add_slot-Stopped :
    (toys : Option Toys) (now : ℕ) (tid toy f : String) (level duration : ℤ) (s : Scheduler)
    → IsValid s
    → s.closed ≡ false
    → is_positive duration ≡ true
    → (last_level f (run_slot toys s.next_task (add_slot now tid (toy, f) level duration s))
        ≡ some (clamp_feature f level))
      × Stopped toy f (add_slot now tid (toy, f) level duration s) (
          run_slot toys s.next_task
            (run_slot toys s.next_task (add_slot now tid (toy, f) level duration s)))
unfolding add_slot
add_slot-Stopped toys now tid toy f level duration s v c p =
    both_turns toys s.next_task tid toy f level duration
      (add_slot now tid (toy, f) level duration s) (put_found s.next_task _ s.slots)
      (registered toy f s.next_task s.tasks) c p
      (put-Distinct (toy, f) level s.levels v.levels_distinct)
