-- ===== src/Toys/Constants.antt =====
-- lovensepy/_constants.py: the function ranges and the preset slots.
use lovensepy.Base.{ℕ, String, [], ◌∷◌, ℕ_Eq, String_Eq, Pair_Eq, Codes_Eq}
use lovensepy.Base.Dict.{Dict}

-- FUNCTION_RANGES
abbrev pub function_ranges : Dict String (ℕ × ℕ)
function_ranges =
    ("Vibrate", (0, 20))
    ∷ ("Vibrate1", (0, 20))
    ∷ ("Vibrate2", (0, 20))
    ∷ ("Vibrate3", (0, 20))
    ∷ ("Rotate", (0, 20))
    ∷ ("Pump", (0, 3))
    ∷ ("Thrusting", (0, 20))
    ∷ ("Fingering", (0, 20))
    ∷ ("Suction", (0, 20))
    ∷ ("Depth", (0, 3))
    ∷ ("Stroke", (0, 100))
    ∷ ("Oscillate", (0, 20))
    ∷ ("All", (0, 20))
    ∷ []

-- PRESET_BLE_PAT_INDEX
abbrev pub preset_ble_pat_index : Dict String ℕ
preset_ble_pat_index = ("pulse", 1) ∷ ("wave", 2) ∷ ("fireworks", 3) ∷ ("earthquake", 4) ∷ []
