-- ===== src/Scheduler/Snapshot.antt =====
-- lovensepy/services/http_api/scheduler.py: `_fetch_toy_dict`, `_expand_actions`, `_clamp_actions` and
-- `_apply_snapshot`. What GetToys answers is an argument.
use lovensepy.Base.{
  ℕ, ◌*◌, min, max, String, Option, none, some, [], ◌∷◌, map, nat_eq, if◌then◌else◌, length, ◌==◌,
  ℕ_Eq, String_Eq, Pair_Eq, Codes_Eq,
}
use lovensepy.Base.Dict.{Dict, get, put}
use lovensepy.Base.Int.{ℤ, pos, negsuc, round_even}
use lovensepy.Base.Result.{Result, ok, err, value_error}
use lovensepy.Toys.Constants.{function_ranges}
use lovensepy.Toys.Features.{Toy, features_for_toy, stop_actions}
use lovensepy.Scheduler.Types.{Key, Scheduler, Toys, Call, send, function_request, stop}

unfoldable pub find_toy : String → Toys → Option Toy
find_toy toy_id [] = none
find_toy toy_id ((i, toy) ∷ toys) =
    let rest = find_toy toy_id toys in if i == toy_id then some toy else rest

-- A response without data has no toy.
unfoldable pub fetch_toy : Option Toys → String → Option Toy
unfolding find_toy
fetch_toy none toy_id = none
fetch_toy (some toys) toy_id = find_toy toy_id toys

abbrev at_level : ℤ → Option Toy → Result (Dict String ℤ)
at_level level none = err value_error
at_level level (some toy) = ok (map (λ f. (f, level)) (features_for_toy toy))

unfoldable pub expand_actions : Option Toys → String → Dict String ℤ → Result (Dict String ℤ)
expand_actions toys toy_id actions = elim (get "All" actions) [
  | none ↦ ok actions
  | some level ↦
      if nat_eq (length actions) 1 then at_level level (fetch_toy toys toy_id) else err value_error
]

-- max(lo, min(hi, int(round(raw))))
unfoldable pub clamp_round : ℕ → ℕ → ℤ → ℕ
clamp_round lo hi (pos n) = max lo (min hi (round_even n))
clamp_round lo hi (negsuc n) = lo

-- FUNCTION_RANGES.get(feat, (0, 20))
abbrev pub range_of : String → ℕ × ℕ
range_of feat = elim (get feat function_ranges) [ none ↦ (0, 20) | some r ↦ r ]

unfoldable pub clamp_feature : String → ℤ → ℤ
clamp_feature feat raw =
    let range = range_of feat in pos (clamp_round (range.0) (range.1) raw * 1000)

unfoldable pub clamp_actions : Dict String ℤ → Dict String ℤ
clamp_actions [] = []
clamp_actions ((feat, raw) ∷ actions) = (feat, clamp_feature feat raw) ∷ clamp_actions actions

-- The loop of `_apply_snapshot` over the levels.
unfoldable pub gather : String → Dict String ℤ → Dict Key ℤ → Dict String ℤ
gather toy_id actions [] = actions
gather toy_id actions (((tid, feat), level) ∷ levels) =
    gather toy_id (if tid == toy_id then put feat level actions else actions) levels

unfoldable pub zeros : Toy → Dict String ℤ
zeros toy = map (λ (e : String × ℕ). (e.0, pos e.1)) (stop_actions toy)

-- Without a level left, the toy's motors are set to 0, or a toy that is not listed is stopped.
unfoldable pub silence : String → Option Toy → Call
silence toy_id none = stop (some toy_id)
silence toy_id (some toy) = function_request (zeros toy) toy_id

unfoldable pub call_of : Option Toys → String → Dict String ℤ → Call
call_of toys toy_id [] = silence toy_id (fetch_toy toys toy_id)
call_of toys toy_id (a ∷ actions) = function_request (a ∷ actions) toy_id

-- The call that `_apply_snapshot` makes.
unfoldable pub snapshot_call : Option Toys → String → Dict Key ℤ → Call
snapshot_call toys toy_id levels = call_of toys toy_id (clamp_actions (gather toy_id [] levels))

unfoldable pub apply_snapshot : Option Toys → String → Scheduler → Scheduler
apply_snapshot toys toy_id s = send (snapshot_call toys toy_id s.levels) s
