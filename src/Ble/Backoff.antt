-- ===== src/Ble/Backoff.antt =====
-- How long the keeper waits after a failed attempt, and how many failures it can count.
use lovensepy.Base.{
  ℕ, zero, suc, ◌+◌, ◌-◌, ◌*◌, ◌/◌, ◌^◌, ◌≤◌, ◌<◌, min, ◌≡◌, refl, ap, ◌∙◌, ◌↔◌, inl, inr, Bool,
  true, false, arith, leb, if◌then◌else◌, ltb→lt, leb→le, le→leb, Bool-cases, ℕ_Eq, String_Eq,
  Pair_Eq, Codes_Eq,
}
use mathlib.Core.Path.{subst}
use native.Mathlib.Nat.{
  pow-succ', pow-le-pow_left, one-le-pow, le-div_iff_mul-le, div-le_of_le-mul, mul-le-mul,
}
use lovensepy.Base.Result.{ok, err, overflow_error}
use lovensepy.Ble.Supervisor.{backoff, jittered}

-- 1.8 ** n is at least 1.
grows : (n : ℕ) → 3000 ≤ 3000 * 9 ^ n / 5 ^ n
grows n =
    let small : 5 ^ n ≤ 9 ^ n = pow-le-pow_left (omega arith) n in
    (le-div_iff_mul-le (one-le-pow n 5 (omega arith))).1 (omega arith)

part_of_roll : (roll spread : ℕ) → roll < 1000 → roll * 2 * spread / 1000 ≤ 2 * spread
part_of_roll roll spread h =
    let most : roll * (2 * spread) ≤ 1000 * (2 * spread) = mul-le-mul (omega arith) (omega arith) in
    div-le_of_le-mul 1000 (omega arith)

-- 1.8 ** n past a limit stays past it, and under it stays under it below.
five : (n l : ℕ) → 5 ^ suc n * l ≡ 5 * (5 ^ n * l)
five n l = ap (λ p. p * l) (pow-succ' 5 n) ∙ (omega arith)

still_past : (n l : ℕ) → 5 ^ n * l ≤ 9 ^ n → 5 ^ suc n * l ≤ 9 ^ suc n
still_past n l h = omega (arith, pow-succ' 9 n, five n l)

still_under : (n l : ℕ) → 9 ^ suc n < 5 ^ suc n * l → 9 ^ n < 5 ^ n * l
still_under n l h = omega (arith, pow-succ' 9 n, five n l)

-- From a first number on, and up to a last one.
past_from : (n m l : ℕ) → 5 ^ n * l ≤ 9 ^ n → 5 ^ (m + n) * l ≤ 9 ^ (m + n)
past_from n zero l h = subst (λ i. 5 ^ i * l ≤ 9 ^ i) (omega arith) h
past_from n (suc m) l h =
    subst (λ i. 5 ^ i * l ≤ 9 ^ i) (omega arith) (still_past (m + n) l (past_from n m l h))

under_until : (n m l : ℕ) → 9 ^ (m + n) < 5 ^ (m + n) * l → 9 ^ n < 5 ^ n * l
under_until n zero l h = subst (λ i. 9 ^ i < 5 ^ i * l) (omega arith) h
under_until n (suc m) l h =
    under_until n m l (still_under (m + n) l (subst (λ i. 9 ^ i < 5 ^ i * l) (omega arith) h))

delay_of : (b : Bool) (m d : ℕ) → (if b then err overflow_error else ok m) ≡ ok d → m ≡ d
delay_of true m d h = cc
delay_of false m d h = cc

delay_range :
    (m roll : ℕ)
    → roll < 1000
    → 3000 ≤ m
    → (2400 ≤ jittered (min 60000 m) roll) × (jittered (min 60000 m) roll ≤ 72000)
unfolding jittered
delay_range m roll h l = omega (arith, part_of_roll roll (min 60000 m / 5) h)

-- Whatever the jitter rolls below 1000, the delay after a failed attempt, when it can be computed, is
-- between 2.4 and 72 seconds.
pub backoff-jittered :
    (n roll delay : ℕ)
    → roll < 1000
    → backoff n ≡ ok delay
    → (2400 ≤ jittered delay roll) × (jittered delay roll ≤ 72000)
unfolding backoff
backoff-jittered n roll delay h b =
    subst (λ d. (2400 ≤ jittered d roll) × (jittered d roll ≤ 72000))
      (delay_of (leb (5 ^ n * 2 ^ 1024) (9 ^ n)) (min 60000 (3000 * 9 ^ n / 5 ^ n)) delay b)
      (delay_range (3000 * 9 ^ n / 5 ^ n) roll h (grows n))

refused_iff :
    (b : Bool) (m : ℕ)
    → ((if b then err overflow_error else ok m) ≡ err overflow_error) ↔ (b ≡ true)
refused_iff true m = (λ _. refl, λ _. refl)
refused_iff false m = (λ h. cc, λ h. cc)

past_iff :
    (n q l : ℕ)
    → 5 ^ suc q * l ≤ 9 ^ suc q
    → 9 ^ q < 5 ^ q * l
    → (leb (5 ^ n * l) (9 ^ n) ≡ true) ↔ (q < n)
past_iff n q l past under = (
  λ h. elim (Bool-cases (leb n q)) [
    | inl le ↦
        let le_q : n ≤ q = leb→le n q le in
        let at : q ≡ q - n + n = omega arith in
        let above : 5 ^ n * l ≤ 9 ^ n = leb→le (5 ^ n * l) (9 ^ n) h in
        let below : 9 ^ n < 5 ^ n * l =
          under_until n (q - n) l (subst (λ i. 9 ^ i < 5 ^ i * l) at under) in
        absurd (omega arith)
    | inr gt ↦ ground arith
  ],
  λ h.
      let at : n - suc q + suc q ≡ n = omega arith in
      le→leb (5 ^ n * l) (9 ^ n)
        (subst (λ i. 5 ^ i * l ≤ 9 ^ i) at (past_from (suc q) (n - suc q) l past)),
)

-- The delay cannot be computed, and an OverflowError is raised, from the 1209th failure in a row on and
-- not before.
pub backoff_overflow : (n : ℕ) → (backoff n ≡ err overflow_error) ↔ (1207 < n)
unfolding backoff
backoff_overflow n =
    let i = refused_iff (leb (5 ^ n * 2 ^ 1024) (9 ^ n)) (min 60000 (3000 * 9 ^ n / 5 ^ n)) in
    let p =
      past_iff n 1207 (2 ^ 1024) (leb→le (5 ^ 1208 * 2 ^ 1024) (9 ^ 1208) refl)
        (ltb→lt (9 ^ 1207) (5 ^ 1207 * 2 ^ 1024) refl) in
    (λ h. p.0 (i.0 h), λ h. i.1 (p.1 h))
