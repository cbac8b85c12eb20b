-- ===== src/Scheduler/Tests.antt =====
-- Tests of the scheduler, and its theorems at concrete inputs.
use lovensepy.Base.{
  ℕ, zero, suc, ◌+◌, ◌-◌, ◌*◌, ◌/◌, ◌%◌, ◌^◌, ◌≤◌, ◌<◌, min, max, String, ◌≡◌, refl, sym, ap, ◌∙◌,
  ◌≢◌, ◌↔◌, ◌⊎◌, inl, inr, Bool, false, not, ◌&&◌, ◌||◌, Option, none, some, List, [], ◌∷◌, ◌++◌,
  map, arith, eq_iff, ltb, leb, nat_eq, if◌then◌else◌, ltb→lt, lt→ltb, leb→le, le→leb, nat_eq_iff,
  Bool-cases, Option-cases, is_some, length, take, drop, all, any, length-append, All, All-append,
  HasSame, ◌==◌, ==-self, ℕ_Eq, String_Eq, Pair_Eq, Codes_Eq, pair_eq_iff, codes_eq_iff, tests,
  if_split, if_true, if_false,
}
use lovensepy.Scheduler.Rest.{GoesOn, stop_feature-GoesOn}
use lovensepy.Scheduler.Timed.{add_slot-Stopped}
use lovensepy.Scheduler.Slots.{run_slot}
use lovensepy.Base.Dict.{get, put}
use lovensepy.Base.Int.{ℤ, pos, negsuc}
use lovensepy.Toys.Features.{Toy}
use lovensepy.Scheduler.Types.{Scheduler, Toys, new_scheduler}
use lovensepy.Scheduler.Slots.{run_slot, cancel_slot, slot_finish, owns}
use lovensepy.Scheduler.Snapshot.{snapshot_call, clamp_feature}
use lovensepy.Scheduler.Holds.{add_slot, stop_feature}
use lovensepy.Scheduler.Service.{stop_toy}
use lovensepy.Scheduler.Valid.{IsValid}
use lovensepy.Scheduler.Steps.{add_slot-IsValid}
use lovensepy.Scheduler.Runs.{new_scheduler-IsValid}
use lovensepy.Scheduler.Quiet.{stop_toy-levels}
use lovensepy.Scheduler.Motors.{last_level, Stopped}

abbrev nora : Toy
nora = record {
  toy_type = some "nora";
  name = some "Nora";
  full_function_names = [];
  short_function_names = [];
}

abbrev toys : Option Toys
toys = some (("t1", nora) ∷ [])

-- Two motors that have been asked to hold, before their tasks have had a turn.
abbrev state : Scheduler
state =
    add_slot 1000 "b" ("t1", "Rotate") (pos 33000) (pos 0)
      (add_slot 1000 "a" ("t1", "Vibrate") (pos 9600) (pos 0) (new_scheduler 60000))

state-IsValid : IsValid state
state-IsValid =
    add_slot-IsValid 1000 "b" ("t1", "Rotate") (pos 33000) (pos 0) _
      (add_slot-IsValid 1000 "a" ("t1", "Vibrate") (pos 9600) (pos 0) (new_scheduler 60000)
        (new_scheduler-IsValid 60000))

vibrate_rounds : clamp_feature "Vibrate" (pos 9500) ≡ pos 10000
unfolding clamp_feature lovensepy.Scheduler.Snapshot.clamp_round get lovensepy.Base.Int.round_even
vibrate_rounds = refl

rotate_clamps : clamp_feature "Rotate" (pos 33000) ≡ pos 20000
unfolding clamp_feature lovensepy.Scheduler.Snapshot.clamp_round get lovensepy.Base.Int.round_even
rotate_clamps = refl

stop_toy-levels_example : (stop_toy toys "t1" state).levels ≡ state.levels
stop_toy-levels_example = stop_toy-levels toys "t1" state state-IsValid

stop_feature-GoesOn_example :
    GoesOn "t1" "Rotate" "Vibrate" (pos 9600) (stop_feature toys ("t1", "Rotate") state)
unfolding add_slot put get new_scheduler
stop_feature-GoesOn_example =
    stop_feature-GoesOn toys "t1" "Rotate" "Vibrate" (pos 9600) state state-IsValid refl refl

-- Only the vibration is held.
abbrev alone : Scheduler
alone = add_slot 1000 "a" ("t1", "Vibrate") (pos 9600) (pos 0) (new_scheduler 60000)

add_slot-Stopped_example :
    (last_level "Vibrate"
        (run_slot toys 2 (add_slot 2000 "c" ("t1", "Vibrate") (pos 9600) (pos 5000) state))
      ≡ some (clamp_feature "Vibrate" (pos 9600)))
    × Stopped "t1" "Vibrate" (add_slot 2000 "c" ("t1", "Vibrate") (pos 9600) (pos 5000) state) (
        run_slot toys 2
          (run_slot toys 2 (add_slot 2000 "c" ("t1", "Vibrate") (pos 9600) (pos 5000) state)))
unfolding add_slot new_scheduler
add_slot-Stopped_example =
    add_slot-Stopped toys 2000 "c" "t1" "Vibrate" (pos 9600) (pos 5000) state state-IsValid refl
      refl
