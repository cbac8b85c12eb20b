-- ===== src/Scheduler/Motors.antt =====
-- What the operations make the motors do.
use lovensepy.Base.{
  ℕ, suc, String, ◌≡◌, ap, ◌∙◌, false, Option, none, some, [], ◌∷◌, arith, if◌then◌else◌, length,
  ◌==◌, ℕ_Eq, String_Eq, Pair_Eq, Codes_Eq, pair_eq_iff,
}
use lovensepy.Base.Dict.{
  Dict, get, put, pop, get-put, get-pop, Distinct, put-Distinct, pop-Distinct,
}
use lovensepy.Base.Int.{ℤ}
use lovensepy.Scheduler.Types.{Scheduler, Toys, Key, send}
use lovensepy.Scheduler.Snapshot.{clamp_feature, apply_snapshot}
use lovensepy.Scheduler.Slots.{cancel_slot}
use lovensepy.Scheduler.Holds.{
  hold_level, hold_at, reusable, add_slot, overwrite, stop_feature, drop_level,
}
use lovensepy.Scheduler.Service.{stop_toy}
use lovensepy.Scheduler.Merge.{
  level_in, clamp_at, snapshot_call-levels, snapshot_call-AtRest, AtRest,
}
use lovensepy.Scheduler.Valid.{IsValid}
use lovensepy.Scheduler.Quiet.{stop_toy-levels, cancel_slot-SameMotors}
use lovensepy.Scheduler.Steps.{cancel_slot-IsValid}

-- The level that the last call of the backend set one feature to.
abbrev pub last_level : String → Scheduler → Option ℤ
last_level feature s = elim s.sent [ [] ↦ none | call ∷ calls ↦ level_in feature call ]

pub put_hit :
    (toy f : String) (level : ℤ) (levels : Dict Key ℤ)
    → get (toy, f) (put (toy, f) level levels) ≡ some level
put_hit toy f level levels =
    ground (arith, get-put (toy, f) (toy, f) level levels, pair_eq_iff (toy, f) (toy, f))

pub pop_hit {κ} :
    {V : Type κ} (toy f : String) (d : Dict Key V) → get (toy, f) (pop (toy, f) d) ≡ none
pop_hit toy f d = ground (arith, get-pop (toy, f) (toy, f) d, pair_eq_iff (toy, f) (toy, f))

pub pop_miss :
    (toy f g : String) (levels : Dict Key ℤ)
    → (f == g) ≡ false
    → get (toy, g) (pop (toy, f) levels) ≡ get (toy, g) levels
pop_miss toy f g levels n = ground (arith, get-pop (toy, f) (toy, g) levels)

pub put_miss :
    (toy f g : String) (level : ℤ) (levels : Dict Key ℤ)
    → (f == g) ≡ false
    → get (toy, g) (put (toy, f) level levels) ≡ get (toy, g) levels
put_miss toy f g level levels n = ground (arith, get-put (toy, f) (toy, g) level levels)

held_last :
    (toys : Option Toys) (now : ℕ) (tid : String) (toy f g : String) (level : ℤ) (o : Option String)
    (s : Scheduler)
    → Distinct s.levels
    → last_level g (hold_at toys now tid (toy, f) level o s).1
      ≡ clamp_at g (get (toy, g) (put (toy, f) level s.levels))
unfolding hold_at apply_snapshot add_slot overwrite send
held_last toys now tid toy f g level none s d =
    snapshot_call-levels toys toy g f level (put (toy, f) level s.levels)
      (put-Distinct (toy, f) level s.levels d) (put_hit toy f level s.levels)
held_last toys now tid toy f g level (some t) s d =
    snapshot_call-levels toys toy g f level (put (toy, f) level s.levels)
      (put-Distinct (toy, f) level s.levels d) (put_hit toy f level s.levels)

-- Only one call was made, for the toy's merged levels; no task was started, ended or handed over.
pub record Redrawn (toy f g : String) (level : ℤ) (s t : Scheduler) : Type 0 where
  pub same_tasks : t.tasks ≡ s.tasks
  pub same_slots : t.slots ≡ s.slots
  pub one_call : length t.sent ≡ suc (length s.sent)
  pub sent_level :
      last_level g t ≡ clamp_at g (if f == g then some level else get (toy, g) s.levels)

-- A toy that has been stopped starts again where it was: a level that stood when the toy was stopped is
-- sent again with the first hold of any other feature of the toy.
stop_toy-restarts :
    (toys : Option Toys) (now : ℕ) (tid : String) (toy f g : String) (level stale : ℤ)
    (s : Scheduler)
    → IsValid s
    → get (toy, g) s.levels ≡ some stale
    → (f == g) ≡ false
    → last_level g (hold_level toys now tid (toy, f) level (stop_toy toys toy s)).1
      ≡ some (clamp_feature g stale)
unfolding hold_level
stop_toy-restarts toys now tid toy f g level stale s v h n =
    let t = stop_toy toys toy s in
    let kept = stop_toy-levels toys toy s v in
    held_last toys now tid toy f g level (reusable (toy, f) t) t (rw kept v.levels_distinct)
    ∙ ap (clamp_at g) (put_miss toy f g level t.levels n ∙ ap (get (toy, g)) kept ∙ h)

-- No task and no level of the feature, a last call that leaves it or sets it to 0, and every other
-- level as it was.
pub record Stopped (toy f : String) (s t : Scheduler) : Type 0 where
  pub no_task : get (toy, f) t.tasks ≡ none
  pub no_level : get (toy, f) t.levels ≡ none
  pub at_rest : AtRest (last_level f t)
  pub levels_kept : (g : String) → (f == g) ≡ false → get (toy, g) t.levels ≡ get (toy, g) s.levels

-- Stopping one feature of a toy takes its task and its level away; the call that is made leaves the
-- feature or sets it to 0, and the other levels of the toy stay.
pub stop_feature-Stopped :
    (toys : Option Toys) (toy f : String) (s : Scheduler)
    → IsValid s
    → Stopped toy f s (stop_feature toys (toy, f) s)
unfolding stop_feature drop_level apply_snapshot send
stop_feature-Stopped toys toy f s v =
    let quiet = cancel_slot-SameMotors toys (toy, f) s v in
    let levels = (cancel_slot toys (toy, f) s).levels in
    let distinct = (cancel_slot-IsValid toys (toy, f) s v).levels_distinct in
    record {
      no_task = ap (get (toy, f)) quiet.same_tasks ∙ pop_hit toy f s.tasks;
      no_level = pop_hit toy f levels;
      at_rest =
          snapshot_call-AtRest toys toy f (pop (toy, f) levels)
            (pop-Distinct (toy, f) levels distinct) (pop_hit toy f levels);
      levels_kept = λ g n. pop_miss toy f g levels n ∙ ap (get (toy, g)) quiet.same_levels;
    }
