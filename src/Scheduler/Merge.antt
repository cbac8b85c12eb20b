-- ===== src/Scheduler/Merge.antt =====
-- What one snapshot sends: the levels of one toy, clamped.
use lovensepy.Base.{
  ℕ, String, ◌≡◌, refl, ap, ◌∙◌, Option, none, some, List, [], ◌∷◌, map, arith, eq_iff,
  if◌then◌else◌, ◌==◌, ℕ_Eq, String_Eq, Pair_Eq, Codes_Eq, if_split,
}
use lovensepy.Base.Dict.{Dict, get, put, get-put, Distinct}
use lovensepy.Base.Int.{ℤ, pos}
use lovensepy.Toys.Features.{Toy, features_for_toy, stop_actions}
use lovensepy.Scheduler.Types.{Toys, Key, Call, function_request}
use lovensepy.Scheduler.Snapshot.{
  silence, zeros, fetch_toy, gather, clamp_actions, clamp_feature, call_of, snapshot_call,
}

-- The level that a call sets one feature to.
abbrev pub level_in : String → Call → Option ℤ
level_in feature (function_request actions toy_id) = get feature actions
level_in feature _ = none

abbrev or_else : Option ℤ → Option ℤ → Option ℤ
or_else none b = b
or_else (some a) b = some a

or_else-none : (o : Option ℤ) → or_else o none ≡ o
or_else-none none = refl
or_else-none (some l) = refl

gather_step :
    (toy feature tid feat : String) (level : ℤ) (actions : Dict String ℤ) (levels : Dict Key ℤ)
    → get (tid, feat) levels ≡ none
    → or_else
        (get (toy, feature) levels)
        (get feature (if tid == toy then put feat level actions else actions))
      ≡ or_else (get (toy, feature) (((tid, feat), level) ∷ levels)) (get feature actions)
unfolding get
gather_step toy feature tid feat level actions levels n =
    ground (arith, get-put feat feature level actions, eq_iff tid toy, eq_iff feat feature)

get-gather :
    (toy feature : String) (actions : Dict String ℤ) (levels : Dict Key ℤ)
    → Distinct levels
    → get feature (gather toy actions levels)
      ≡ or_else (get (toy, feature) levels) (get feature actions)
unfolding gather get
get-gather toy feature actions [] d = refl
get-gather toy feature actions (((tid, feat), level) ∷ levels) d =
    get-gather toy feature (if tid == toy then put feat level actions else actions) levels d.1
    ∙ gather_step toy feature tid feat level actions levels d.0

abbrev pub clamp_at : String → Option ℤ → Option ℤ
clamp_at feature none = none
clamp_at feature (some level) = some (clamp_feature feature level)

get-clamp_actions :
    (feature : String) (actions : Dict String ℤ)
    → get feature (clamp_actions actions) ≡ clamp_at feature (get feature actions)
unfolding clamp_actions get
get-clamp_actions feature [] = refl
get-clamp_actions feature ((feat, raw) ∷ actions) =
    ground (arith, get-clamp_actions feature actions, eq_iff feat feature)

merged :
    (toy feature : String) (levels : Dict Key ℤ)
    → Distinct levels
    → get feature (clamp_actions (gather toy [] levels))
      ≡ clamp_at feature (get (toy, feature) levels)
unfolding get
merged toy feature levels d =
    get-clamp_actions feature (gather toy [] levels)
    ∙ ap (clamp_at feature)
        (get-gather toy feature [] levels d ∙ or_else-none (get (toy, feature) levels))

call_of-get :
    (toys : Option Toys) (toy feature g : String) (actions : Dict String ℤ) (level : ℤ)
    → get g actions ≡ some level
    → level_in feature (call_of toys toy actions) ≡ get feature actions
unfolding call_of get
call_of-get toys toy feature g [] level h = ground arith
call_of-get toys toy feature g (a ∷ actions) level h = refl

-- Keys stand once in the levels. If a toy has a level left, a snapshot sends, for each feature, exactly
-- the toy's level of it, clamped, and nothing for a feature without a level.
pub snapshot_call-levels :
    (toys : Option Toys) (toy feature g : String) (level : ℤ) (levels : Dict Key ℤ)
    → Distinct levels
    → get (toy, g) levels ≡ some level
    → level_in feature (snapshot_call toys toy levels)
      ≡ clamp_at feature (get (toy, feature) levels)
unfolding snapshot_call
snapshot_call-levels toys toy feature g level levels d h =
    let actions = clamp_actions (gather toy [] levels) in
    call_of-get toys toy feature g actions (clamp_feature g level)
      (merged toy g levels d ∙ ap (clamp_at g) h)
    ∙ merged toy feature levels d

-- No level, or 0.
abbrev pub AtRest : Option ℤ → Type 0
AtRest none = Unit
AtRest (some level) = level ≡ pos 0

zeros_rest :
    (feature : String) (fs : List String)
    → AtRest (get feature (map (λ (e : String × ℕ). (e.0, pos e.1)) (map (λ f. (f, 0)) fs)))
unfolding get
zeros_rest feature [] = tt
zeros_rest feature (f ∷ fs) =
    if_split AtRest (f == feature) (some (pos 0))
      (get feature (map (λ (e : String × ℕ). (e.0, pos e.1)) (map (λ f. (f, 0)) fs))) (λ _. refl)
      (λ _. zeros_rest feature fs)

silence_rest :
    (feature toy_id : String) (o : Option Toy) → AtRest (level_in feature (silence toy_id o))
unfolding silence zeros stop_actions
silence_rest feature toy_id none = tt
silence_rest feature toy_id (some toy) = zeros_rest feature (features_for_toy toy)

call_of_rest :
    (toys : Option Toys) (toy feature : String) (actions : Dict String ℤ)
    → get feature actions ≡ none
    → AtRest (level_in feature (call_of toys toy actions))
unfolding call_of
call_of_rest toys toy feature [] n = silence_rest feature toy (fetch_toy toys toy)
call_of_rest toys toy feature (a ∷ actions) n = rw n tt

-- Keys stand once in the levels. A snapshot of a toy sets a feature without a level to 0 or not at all.
pub snapshot_call-AtRest :
    (toys : Option Toys) (toy feature : String) (levels : Dict Key ℤ)
    → Distinct levels
    → get (toy, feature) levels ≡ none
    → AtRest (level_in feature (snapshot_call toys toy levels))
unfolding snapshot_call
snapshot_call-AtRest toys toy feature levels d n =
    call_of_rest toys toy feature (clamp_actions (gather toy [] levels))
      (merged toy feature levels d ∙ ap (clamp_at feature) n)
