-- ===== src/Base/Int.antt =====
-- Signed numbers. A float of the program is counted in thousandths: `pos 2500` is 2.5.
use Prim.Native.Nat.{ℕ, ◌+◌, ◌/◌, ◌%◌}
use mathlib.Core.Bool.{Bool, false}
use lovensepy.Base.Tests.{ltb, nat_eq, if◌then◌else◌}

-- `negsuc n` is -(n + 1).
pub data ℤ : Type 0 where
  pos : ℕ → ℤ
  negsuc : ℕ → ℤ

-- 0 < x
abbrev pub is_positive : ℤ → Bool
is_positive (pos n) = ltb 0 n
is_positive (negsuc n) = false

-- round(x) of a number in thousandths that is not negative: to the nearest, a tie to the even side
unfoldable pub round_even : ℕ → ℕ
round_even n =
    let q = n / 1000 in
    if ltb (n % 1000) 500
    then q
    else if ltb 500 (n % 1000)
    then q + 1
    else if nat_eq (q % 2) 0
    then q
    else q + 1
