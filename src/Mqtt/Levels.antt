-- ===== src/Mqtt/Levels.antt =====
-- What commands do to the levels of a toy.
use lovensepy.Base.{
  String, ◌≡◌, refl, ap, ◌∙◌, Bool, true, false, ◌&&◌, Option, none, some, List, [], ◌∷◌, arith,
  eq_iff, if◌then◌else◌, ◌==◌, ℕ_Eq, String_Eq, Pair_Eq, Codes_Eq,
}
use lovensepy.Base.Dict.{Distinct, Dict, get, put, get-put}
use lovensepy.Base.Int.{ℤ, pos}
use lovensepy.Toys.Features.{member}
use lovensepy.Mqtt.Topics.{feature_topic_segment}
use lovensepy.Mqtt.Bridge.{
  level, set_level, or_no_levels, levels_of, publish_state_str, Value, show_zeros, Bridge,
  start_levels, Bridge, levels_of, set_level, or_no_levels,
}
use lovensepy.Mqtt.Keeping.{publish_state_str-same}
use lovensepy.Mqtt.Commands.{update, standing, merged_actions, or_zero}

-- The recorded level of a feature.
abbrev pub level_of : String → String → Bridge → Option ℤ
level_of safe action b = get action (levels_of safe b)

pub get-standing :
    (levels : Dict String ℤ) (f : String) (features : List String)
    → get f (standing levels features)
      ≡ (if member f features then some (or_zero (get f levels)) else none)
unfolding get standing
get-standing levels f [] = refl
get-standing levels f (g ∷ features) = ground (arith, get-standing levels f features, eq_iff g f)

-- What `merged_actions` holds: the new level, and the others as they stand.
pub get-merged_actions :
    (action f : String) (v : ℤ) (levels : Dict String ℤ) (features : List String)
    → get f (merged_actions action v levels features) ≡ (
        if action == f
        then some v
        else if member f features
        then some (or_zero (get f levels))
        else none)
unfolding merged_actions
get-merged_actions action f v levels features =
    get-put action f v (standing levels features)
    ∙ ap (λ o. if action == f then some v else o) (get-standing levels f features)

abbrev pub or_kept : Option ℤ → Option ℤ → Option ℤ
or_kept none o = o
or_kept (some v) o = some v

-- What a toy's levels read after one toy's levels are replaced.
pub get-levels-put :
    (safe s f : String) (ls : Dict String ℤ) (all_levels : Dict String (Dict String ℤ))
    → get f (or_no_levels (get s (put safe ls all_levels)))
      ≡ (if safe == s then get f ls else get f (or_no_levels (get s all_levels)))
get-levels-put safe s f ls all_levels =
    ap (λ o. get f (or_no_levels o)) (get-put safe s ls all_levels) ∙ out (safe == s)
  where
    out :
        (c : Bool)
        → get f (or_no_levels (if c then some ls else get s all_levels))
          ≡ (if c then get f ls else get f (or_no_levels (get s all_levels)))
    out true = refl
    out false = refl

pub level-set_level :
    (safe action s f : String) (v : ℤ) (b : Bridge)
    → level_of s f (set_level safe action v b)
      ≡ (if safe == s then (if action == f then some v else level_of safe f b) else level_of s f b)
unfolding set_level levels_of
level-set_level safe action s f v b =
    get-levels-put safe s f (put action v (or_no_levels (get safe b.feature_levels)))
      b.feature_levels
    ∙ ap (λ o. if safe == s then o else level_of s f b)
        (get-put action f v (or_no_levels (get safe b.feature_levels)))

-- setdefault leaves every level.
pub level-opened :
    (safe s f : String) (b : Bridge)
    → level_of s f (record b { feature_levels = put safe (levels_of safe b) b.feature_levels })
      ≡ level_of s f b
unfolding levels_of
level-opened safe s f b = ground (
  arith,
  get-levels-put safe s f (or_no_levels (get safe b.feature_levels)) b.feature_levels,
  eq_iff safe s,
)

-- Publishing leaves the levels alone.
pub levels-publish_state_str :
    (safe segment : String) (v : Value) (force retain : Bool) (b : Bridge)
    → (publish_state_str safe segment v force retain b).feature_levels ≡ b.feature_levels
levels-publish_state_str =
    publish_state_str-same (λ x. x.feature_levels) (λ _ _. refl) (λ _ _. refl)

-- Reading a list of levels over what stands.
pub get-update :
    (f : String) (levels merged : Dict String ℤ)
    → Distinct merged
    → get f (update levels merged) ≡ or_kept (get f merged) (get f levels)
unfolding get update
get-update f levels [] d = refl
get-update f levels ((action, v) ∷ merged) d = ground (
  arith,
  get-update f (put action v levels) merged d.1,
  get-put action f v levels,
  d.0,
  eq_iff action f,
)

level-show_zeros :
    (safe s f : String) (actions : List String) (b : Bridge)
    → level_of s f (show_zeros safe actions b)
      ≡ (if safe == s && member f actions then some (pos 0) else level_of s f b)
unfolding show_zeros
level-show_zeros safe s f [] b = ground arith
level-show_zeros safe s f (action ∷ actions) b =
    let zeroed : Bridge = set_level safe action (pos 0) b in
    let said : Bridge =
      publish_state_str safe (feature_topic_segment action) (level (pos 0)) true false zeroed in
    let rest : level_of s f (show_zeros safe actions said)
        ≡ (if safe == s && member f actions then some (pos 0) else level_of s f said) =
      level-show_zeros safe s f actions said in
    let kept : level_of s f said ≡ level_of s f zeroed =
      unfold levels_of in
      ap (λ ls. get f (or_no_levels (get s ls)))
        (levels-publish_state_str safe (feature_topic_segment action) (level (pos 0)) true false
          zeroed) in
    ground (arith, rest, kept, level-set_level safe action s f (pos 0) b, eq_iff safe s)

-- Zeros reach every feature named, and nothing else.
pub level-start_levels :
    (safe s f : String) (actions : List String) (b : Bridge)
    → level_of s f (start_levels safe actions b)
      ≡ (if safe == s && member f actions then some (pos 0) else level_of s f b)
unfolding start_levels
level-start_levels safe s f actions b =
    let opened : Bridge = record b {
      feature_levels = put safe (levels_of safe b) b.feature_levels;
    } in
    let same : level_of s f opened ≡ level_of s f b = level-opened safe s f b in
    level-show_zeros safe s f actions opened
    ∙ ap (λ o. if safe == s && member f actions then some (pos 0) else o) same
