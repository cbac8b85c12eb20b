-- ===== src/Scheduler/Rest.antt =====
-- lovensepy/services/http_api/scheduler.py, `stop_feature`: the call that it makes, while another level
-- of the toy is held and when none is left.
use lovensepy.Base.{
  String, ◌≡◌, ap, ◌∙◌, Bool, false, not, ◌&&◌, Option, none, some, any, ◌==◌, ℕ_Eq, String_Eq,
  Pair_Eq, Codes_Eq,
}
use lovensepy.Base.Dict.{Dict, get, pop, pop-Distinct}
use lovensepy.Base.Int.{ℤ}
use lovensepy.Scheduler.Types.{Scheduler, Toys, Key, send}
use lovensepy.Scheduler.Snapshot.{clamp_feature, apply_snapshot}
use lovensepy.Scheduler.Slots.{cancel_slot}
use lovensepy.Scheduler.Holds.{stop_feature, drop_level}
use lovensepy.Scheduler.Merge.{clamp_at, snapshot_call-levels}
use lovensepy.Scheduler.Motors.{last_level, pop_hit, stop_feature-Stopped}
use lovensepy.Scheduler.Valid.{IsValid}
use lovensepy.Scheduler.Steps.{cancel_slot-IsValid}

-- A feature is stopped, and another one of the toy goes on.
pub record GoesOn (toy f g : String) (level : ℤ) (t : Scheduler) : Type 0 where
  pub no_task : get (toy, f) t.tasks ≡ none
  pub no_level : get (toy, f) t.levels ≡ none
  pub unsent : last_level f t ≡ none
  pub level_kept : get (toy, g) t.levels ≡ some level
  pub level_sent : last_level g t ≡ some (clamp_feature g level)

-- Stopping one feature of a toy while another one has a level: its task and its level are gone, and the
-- call that is made sets the other feature to its level, clamped, and does not name the stopped one.
pub stop_feature-GoesOn :
    (toys : Option Toys) (toy f g : String) (level : ℤ) (s : Scheduler)
    → IsValid s
    → (f == g) ≡ false
    → get (toy, g) s.levels ≡ some level
    → GoesOn toy f g level (stop_feature toys (toy, f) s)
unfolding stop_feature drop_level apply_snapshot send
stop_feature-GoesOn toys toy f g level s v n h =
    let stopped = stop_feature-Stopped toys toy f s v in
    let levels : Dict Key ℤ = (cancel_slot toys (toy, f) s).levels in
    let distinct =
      pop-Distinct (toy, f) levels (cancel_slot-IsValid toys (toy, f) s v).levels_distinct in
    let kept : get (toy, g) (pop (toy, f) levels) ≡ some level = stopped.levels_kept g n ∙ h in
    let sent =
      λ (e : String). snapshot_call-levels toys toy e g level (pop (toy, f) levels) distinct kept in
    record {
      no_task = stopped.no_task;
      no_level = stopped.no_level;
      unsent = sent f ∙ ap (clamp_at f) (pop_hit toy f levels);
      level_kept = kept;
      level_sent = sent g ∙ ap (clamp_at g) kept;
    }

-- Whether another feature of the toy has a level.
abbrev pub has_other : String → String → Dict Key ℤ → Bool
has_other toy f levels = any (λ (e : Key × ℤ). e.0.0 == toy && not (e.0.1 == f)) levels
