-- ===== src/Toys/Commands.antt =====
-- lovensepy/_command_utils.py: the clamping of levels and times, and the letters of a pattern rule.
-- Numbers are in thousandths.
use lovensepy.Base.{
  ℕ, zero, suc, ◌*◌, ◌/◌, min, max, String, not, ◌&&◌, Option, none, some, List, [], ◌∷◌, ◌++◌, map,
  if◌then◌else◌, any, ◌==◌, ℕ_Eq, String_Eq, Pair_Eq, Codes_Eq,
}
use lovensepy.Base.Dict.{Dict, get}
use lovensepy.Base.Int.{ℤ, pos, negsuc}
use lovensepy.Base.Text.{lower, strip}
use lovensepy.Toys.Constants.{function_ranges}

-- max(lo, min(hi, value)) over thousandths, for bounds that are whole numbers
unfoldable pub clamp_milli : ℕ → ℕ → ℤ → ℕ
clamp_milli lo hi (pos n) = max (lo * 1000) (min (hi * 1000) n)
clamp_milli lo hi (negsuc n) = lo * 1000

-- clamp_nonzero_time_sec: max(1.0, min(value, 6000.0))
unfoldable pub clamp_nonzero_time_sec : ℤ → ℕ
clamp_nonzero_time_sec value = clamp_milli 1 6000 value

-- The `timeSec` of a payload after `clamp_time_sec_in_payload`.
unfoldable pub clamp_time_sec : Option ℤ → Option ℤ
clamp_time_sec none = none
clamp_time_sec (some (pos zero)) = some (pos 0)
clamp_time_sec (some (pos (suc n))) = some (pos (clamp_nonzero_time_sec (pos (suc n))))
clamp_time_sec (some (negsuc n)) = some (pos (clamp_nonzero_time_sec (negsuc n)))

abbrev pub pattern_action_map : Dict String String
pattern_action_map =
    ("vibrate", "v")
    ∷ ("vibrate1", "v")
    ∷ ("vibrate2", "v")
    ∷ ("vibrate3", "v")
    ∷ ("rotate", "r")
    ∷ ("pump", "p")
    ∷ ("thrusting", "t")
    ∷ ("fingering", "f")
    ∷ ("suction", "s")
    ∷ ("depth", "d")
    ∷ ("oscillate", "o")
    ∷ ("stroke", "st")
    ∷ []

-- normalized[0] if normalized else ""
first_letter : String → String
first_letter String.[] = ""
first_letter (String.◌∷◌ c s) = String.◌∷◌ c ""

unfoldable pub action_to_pattern_letter : String → String
unfolding first_letter
action_to_pattern_letter action =
    let normalized = lower (strip action) in
    elim (get normalized pattern_action_map) [ some l ↦ l | none ↦ first_letter normalized ]

abbrev pub valid_pattern_letters : List String
valid_pattern_letters = map (λ e. e.1) pattern_action_map

-- One round of the loop of `actions_to_rule_letters`.
add_letter : List String → String → List String
add_letter letters letter =
    if not (letter == "")
      && any (λ l. l == letter) valid_pattern_letters
      && not (any (λ l. l == letter) letters)
    then letters ++ (letter ∷ [])
    else letters

unfoldable pub rule_letters_from : List String → List String → List String
unfolding add_letter
rule_letters_from letters [] = letters
rule_letters_from letters (action ∷ actions) =
    rule_letters_from (add_letter letters (action_to_pattern_letter action)) actions

-- The letters of `actions_to_rule_letters`, before they are joined by commas.
unfoldable pub rule_letters : List String → List String
rule_letters actions = if any (λ a. a == "All") actions then [] else rule_letters_from [] actions

-- A level of a known function is an int in its range; any other passes as it is.
unfoldable pub clamp_level : String → ℤ → ℤ
clamp_level key value = elim (get key function_ranges) [
  | none ↦ value
  | some (lo, hi) ↦ pos (clamp_milli lo hi value / 1000 * 1000)
]

unfoldable pub clamp_function_actions : Dict String ℤ → Dict String ℤ
unfolding clamp_level
clamp_function_actions [] = []
clamp_function_actions ((key, value) ∷ actions) =
    (key, clamp_level key value) ∷ clamp_function_actions actions
