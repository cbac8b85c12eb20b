-- ===== src/Toys/Tests.antt =====
-- Tests of the toys' features and of the clamping, and their theorems at concrete inputs.
use lovensepy.Base.{
  ℕ, zero, suc, ◌+◌, ◌-◌, ◌*◌, ◌/◌, ◌%◌, ◌^◌, ◌≤◌, ◌<◌, min, max, String, ◌≡◌, refl, sym, ap, ◌∙◌,
  ◌≢◌, ◌↔◌, ◌⊎◌, inl, inr, Bool, true, false, not, ◌&&◌, ◌||◌, Option, none, some, List, [], ◌∷◌,
  ◌++◌, map, arith, eq_iff, ltb, leb, nat_eq, if◌then◌else◌, ltb→lt, lt→ltb, leb→le, le→leb,
  nat_eq_iff, Bool-cases, Option-cases, is_some, length, take, drop, all, any, length-append, All,
  All-append, HasSame, ◌==◌, ==-self, ℕ_Eq, String_Eq, Pair_Eq, Codes_Eq, pair_eq_iff, codes_eq_iff,
  tests, if_split, if_true, if_false,
}
use lovensepy.Base.Dict.{get}
use lovensepy.Base.Int.{pos, negsuc}
use lovensepy.Toys.Features.{
  Toy, features_for_toy, normalize_feature_name, default_features_for_toy_type, stop_actions,
}
use lovensepy.Toys.Commands.{
  clamp_function_actions, clamp_time_sec, rule_letters, action_to_pattern_letter,
}
use lovensepy.Toys.Known.{usable, is_empty, features_for_toy-usable}

abbrev edge_toy : Toy
edge_toy = record {
  toy_type = some "Edge 2";
  name = none;
  full_function_names = [];
  short_function_names = some " V " ∷ none ∷ some "zz" ∷ [];
}

edge_features : features_for_toy edge_toy ≡ ("Vibrate1" ∷ "Vibrate2" ∷ [])
unfolding features_for_toy lovensepy.Toys.Features.collect lovensepy.Base.Text.strip get
    lovensepy.Base.Text.lower
edge_features = refl

solace_features :
    default_features_for_toy_type " Solace Pro" ≡ ("Vibrate" ∷ "Thrusting" ∷ "Depth" ∷ [])
unfolding default_features_for_toy_type lovensepy.Base.Text.lower lovensepy.Base.Text.strip get
    lovensepy.Toys.Features.drop_blanks
solace_features = refl

pump_clamps :
    clamp_function_actions (("Pump", pos 7900) ∷ ("Rotate", negsuc 4) ∷ ("Vibrate", pos 12999) ∷ [])
    ≡ (("Pump", pos 3000) ∷ ("Rotate", pos 0) ∷ ("Vibrate", pos 12000) ∷ [])
unfolding clamp_function_actions get lovensepy.Toys.Commands.clamp_milli
pump_clamps = refl

letters :
    rule_letters ("Vibrate1" ∷ "Rotate" ∷ "Vibrate" ∷ "Stroke" ∷ "?" ∷ []) ≡ ("v" ∷ "r" ∷ "st" ∷ [])
unfolding rule_letters lovensepy.Toys.Commands.rule_letters_from action_to_pattern_letter get
    lovensepy.Base.Text.lower lovensepy.Base.Text.strip
letters = refl

features_for_toy-usable_example :
    (usable (features_for_toy edge_toy) ≡ true) × (is_empty (features_for_toy edge_toy) ≡ false)
features_for_toy-usable_example = features_for_toy-usable edge_toy
