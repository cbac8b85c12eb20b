-- ===== src/Ble/Wire.antt =====
-- lovensepy/ble_direct/standard_compat.py and uart_catalog.py: the lines that drive and stop the motors.
-- A line `head:n;` is its head and its number; any other line is its text.
use lovensepy.Base.{
  ℕ, zero, suc, ◌/◌, min, max, String, Bool, true, false, not, ◌&&◌, Option, none, some, List, [],
  ◌∷◌, ◌++◌, map, if◌then◌else◌, is_some, ◌==◌, ℕ_Eq, String_Eq, Pair_Eq, Codes_Eq,
}
use lovensepy.Base.Dict.{Dict, get}
use lovensepy.Base.Int.{ℤ, pos, negsuc}
use lovensepy.Base.Result.{Result, ok, err, value_error, ◌>>=◌}
use lovensepy.Base.Text.{or_empty}
use lovensepy.Toys.Constants.{function_ranges}
use lovensepy.Toys.Features.{member, default_features_for_toy_type}
use lovensepy.Toys.Commands.{clamp_function_actions}

pub data Line : Type 0 where
  level : String → ℕ → Line
  query : String → Line

-- The heads of the lines of each feature that set it to 0.
abbrev pub feature_stop_uart : Dict String (List String)
feature_stop_uart =
    ("Vibrate", "Vibrate" ∷ [])
    ∷ ("Vibrate1", "Vibrate1" ∷ [])
    ∷ ("Vibrate2", "Vibrate2" ∷ [])
    ∷ ("Vibrate3", "Vibrate3" ∷ [])
    ∷ ("Rotate", "Rotate" ∷ [])
    ∷ ("Pump", "Air:Level" ∷ [])
    ∷ ("Thrusting", "Thrusting" ∷ [])
    ∷ ("Fingering", "Finger" ∷ [])
    ∷ ("Suction", "Suction" ∷ "suck" ∷ [])
    ∷ ("Depth", "Depth" ∷ [])
    ∷ ("Oscillate", "Slap" ∷ "Oscillate" ∷ [])
    ∷ ("Position", "Position" ∷ "FSetSite" ∷ [])
    ∷ ("Bumping", "Bumping" ∷ [])
    ∷ []

-- DEFAULT_FULL_STOP_COMMANDS, by their heads
abbrev pub full_stop : List String
full_stop =
    "Vibrate" ∷ "Vibrate1" ∷ "Vibrate2" ∷ "Vibrate3" ∷ "Rotate" ∷ "Rotate:False" ∷ "Air:Level"
    ∷ "Thrusting" ∷ "Finger" ∷ "Suction" ∷ "suck" ∷ "Depth" ∷ "Slap" ∷ "Oscillate" ∷ "Position"
    ∷ "FSetSite" ∷ "Bumping" ∷ "Squirt" ∷ []

unfoldable pub uart_features : Option String → List String
uart_features toy_type = default_features_for_toy_type (or_empty toy_type)

-- The inner loop over the lines of one feature.
unfoldable pub add_stops : List String → List String → List String
add_stops out [] = out
add_stops out (cmd ∷ cmds) = add_stops (if member cmd out then out else out ++ (cmd ∷ [])) cmds

abbrev pub stops_of : String → List String
stops_of feature = elim (get feature feature_stop_uart) [ none ↦ [] | some cmds ↦ cmds ]

unfoldable pub stop_loop : List String → List String → List String
stop_loop out [] = out
stop_loop out (feature ∷ features) = stop_loop (add_stops out (stops_of feature)) features

-- The heads of `ble_stop_command_strings_for_features`.
unfoldable pub stop_heads : List String → List String
stop_heads features = stop_loop [] features

unfoldable pub stop_lines_for_toy_type : Option String → List Line
stop_lines_for_toy_type toy_type = map (λ h. level h 0) (stop_heads (uart_features toy_type))

unfoldable pub default_full_stop_lines : List Line
default_full_stop_lines = map (λ h. level h 0) full_stop

abbrev pub uart_heads : Dict String String
uart_heads =
    ("Vibrate", "Vibrate")
    ∷ ("Vibrate1", "Vibrate1")
    ∷ ("Vibrate2", "Vibrate2")
    ∷ ("Vibrate3", "Vibrate3")
    ∷ ("Rotate", "Rotate")
    ∷ ("Pump", "Air:Level")
    ∷ ("Thrusting", "Thrusting")
    ∷ ("Fingering", "Finger")
    ∷ ("Suction", "Suction")
    ∷ ("Depth", "Depth")
    ∷ ("Oscillate", "Slap")
    ∷ []

unfoldable pub one_uart_for_feature : String → ℕ → Result Line
one_uart_for_feature name n = elim (get name uart_heads) [
  | none ↦ err value_error
  | some head ↦ ok (level head n)
]

-- int(raw); a number below 0 stands only at a name without a range, which is refused.
abbrev pub int_of : ℤ → ℕ
int_of (pos n) = n / 1000
int_of (negsuc n) = 0

unfoldable pub ble_clamp_actions : Dict String ℤ → Dict String ℤ
ble_clamp_actions actions = clamp_function_actions actions

-- max(lo, min(hi, n)) in the range of a feature, (0, 20) without one
clamp_in_range : String → ℕ → ℕ
clamp_in_range feature n = elim (get feature function_ranges) [
  | none ↦ max 0 (min 20 n)
  | some (lo, hi) ↦ max lo (min hi n)
]

-- The lines of "All".
unfoldable pub every_feature : ℕ → List String → Result (List Line)
unfolding clamp_in_range
every_feature n [] = ok []
every_feature n (feature ∷ features) =
    one_uart_for_feature feature (clamp_in_range feature n) >>= λ line.
    every_feature n features >>= λ lines. ok (line ∷ lines)

unfoldable pub item_lines : List String → String → ℕ → Result (List Line)
item_lines features name n =
    let one = one_uart_for_feature name n >>= λ line. ok (line ∷ []) in
    if name == "All"
    then every_feature n features
    else if name == "Stroke"
    then err value_error
    else one

-- The loop over the actions.
unfoldable pub items_lines : List String → Dict String ℤ → Result (List Line)
items_lines features [] = ok []
items_lines features ((name, raw) ∷ actions) = item_lines features name (int_of raw) >>= λ lines.
    items_lines features actions >>= λ rest. ok (lines ++ rest)

-- "Vibrate1" in feats and "Vibrate2" in feats
unfoldable pub is_dual : List String → Bool
is_dual features = member "Vibrate1" features && member "Vibrate2" features

-- n == 0
abbrev pub is_zero : ℕ → Bool
is_zero zero = true
is_zero (suc _) = false

-- Both lines, or the line of the channel that runs.
unfoldable pub pair_lines : ℕ → ℕ → List Line
pair_lines v1 v2 =
    if is_zero v1 && is_zero v2
    then level "Vibrate1" 0 ∷ level "Vibrate2" 0 ∷ []
    else if not (is_zero v1) && not (is_zero v2)
    then level "Vibrate1" v1 ∷ level "Vibrate2" v2 ∷ []
    else if not (is_zero v1)
    then level "Vibrate1" v1 ∷ []
    else level "Vibrate2" v2 ∷ []

-- Two motors at once, or one action after another.
unfoldable pub lines_of_pair :
    List String → Dict String ℤ → Option ℤ → Option ℤ → Result (List Line)
lines_of_pair features actions (some v1) (some v2) = ok (pair_lines (int_of v1) (int_of v2))
lines_of_pair features actions _ _ = items_lines features actions

unfoldable pub actions_to_uart : List String → Dict String ℤ → Result (List Line)
actions_to_uart features actions =
    let v1 = get "Vibrate1" actions in
    let v2 = get "Vibrate2" actions in
    if is_some (get "Stop" actions)
    then err value_error
    else if is_dual features
    then lines_of_pair features actions v1 v2
    else items_lines features actions
