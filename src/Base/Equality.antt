-- ===== src/Base/Equality.antt =====
-- Equality tests as an interface, one operator for every type that has an instance.
use Prim.Native.Nat.{ℕ}
use Prim.Native.String.{String}
use mathlib.Core.Path.{◌≡◌, refl}
use mathlib.Core.Logic.{◌↔◌}
use mathlib.Core.Bool.{Bool, true, false, ◌&&◌}
use mathlib.Core.List.{List, [], ◌∷◌}
use native.Mathlib.Omega.{arith}
use text.Mathlib.Text.{◌==◌ as str_eq}
use text.Mathlib.TextEquality.{eq_iff}
use lovensepy.Base.Tests.{nat_eq, nat_eq_iff}

-- A test that decides the paths of a type: the keys of dictionaries have one.
pub record HasSame {ℓ} (K : Type ℓ) : Type ℓ where
  pub same : K → K → Bool
  pub same_iff : (j k : K) → (same j k ≡ true) ↔ (j ≡ k)

instance abbrev pub String_Eq : HasSame String
String_Eq = record { same = λ s t. str_eq s t; same_iff = λ s t. eq_iff s t }

instance abbrev pub ℕ_Eq : HasSame ℕ
ℕ_Eq = record { same = λ m n. nat_eq m n; same_iff = λ m n. nat_eq_iff m n }

module _ {ℓ} {K : Type ℓ} ⦃h : HasSame K⦄ where
  infix 50 ◌==◌
  abbrev pub ◌==◌ : K → K → Bool
  j == k = h.same j k

  pub ==-self : (k : K) → (k == k) ≡ true
  ==-self k = (h.same_iff k k).1 refl

-- A pair of texts: the key (toy, feature).
abbrev pub pair_eq : String × String → String × String → Bool
pair_eq p q = str_eq p.0 q.0 && str_eq p.1 q.1

pub pair_eq_iff : (p q : String × String) → (pair_eq p q ≡ true) ↔ (p ≡ q)
pair_eq_iff (a, b) (c, d) = ground (arith, eq_iff a c, eq_iff b d)

instance abbrev pub Pair_Eq : HasSame (String × String)
Pair_Eq = record { same = pair_eq; same_iff = pair_eq_iff }

-- A text as the list of its code points, where the program walks it.
abbrev pub codes_eq : List ℕ → List ℕ → Bool
codes_eq [] [] = true
codes_eq [] (_ ∷ _) = false
codes_eq (_ ∷ _) [] = false
codes_eq (a ∷ s) (b ∷ t) = nat_eq a b && codes_eq s t

pub codes_eq_iff : (s t : List ℕ) → (codes_eq s t ≡ true) ↔ (s ≡ t)
codes_eq_iff [] [] = ground arith
codes_eq_iff [] (b ∷ t) = ground arith
codes_eq_iff (a ∷ s) [] = ground arith
codes_eq_iff (a ∷ s) (b ∷ t) = ground (arith, codes_eq_iff s t)

instance abbrev pub Codes_Eq : HasSame (List ℕ)
Codes_Eq = record { same = codes_eq; same_iff = codes_eq_iff }
