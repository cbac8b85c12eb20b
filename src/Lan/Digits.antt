-- ===== src/Lan/Digits.antt =====
-- The decimal numbers that `show` writes, as the readers of a pattern take them.
use lovensepy.Base.{
  ℕ, ◌+◌, ◌*◌, ◌/◌, ◌%◌, ◌≤◌, ◌<◌, ◌≡◌, refl, ap, ◌∙◌, Bool, true, false, not, ◌&&◌, Option, some,
  List, [], ◌∷◌, ◌++◌, arith, ltb, leb, ltb→lt, length, all, ℕ_Eq, String_Eq, Pair_Eq, Codes_Eq,
  if_split, codes_eq,
}
use lovensepy.Lan.Pattern.{digit, show, is_digit, decimal, read_s, value}

-- What holds of the lists of digits of every length holds of the printed number.
pub show-split {ℓ} :
    (P : List ℕ → Type ℓ) (n : ℕ)
    → (n < 10 → P (digit n ∷ []))
    → (n < 100 → P (digit (n / 10) ∷ digit n ∷ []))
    → (n < 1000 → P (digit (n / 100) ∷ digit (n / 10) ∷ digit n ∷ []))
    → P (digit (n / 1000) ∷ digit (n / 100) ∷ digit (n / 10) ∷ digit n ∷ [])
    → P (show n)
unfolding show
show-split P n a b c d =
    if_split P (ltb n 10) _ _ (λ h. a (ltb→lt n 10 h))
      (λ _.
        if_split P (ltb n 100) _ _ (λ h. b (ltb→lt n 100 h))
          (λ _. if_split P (ltb n 1000) _ _ (λ h. c (ltb→lt n 1000 h)) (λ _. d)))

module _ (foreign : ℕ → Option ℕ) where
  decimal-digit : (d : ℕ) → decimal foreign (digit d) ≡ some (d % 10)
  unfolding decimal
  decimal-digit d = ground arith

  read_digit :
      (n d : ℕ) (got : Bool) (s : List ℕ)
      → read_s foreign n got (digit d ∷ s) ≡ read_s foreign (n * 10 + d % 10) true s
  unfolding read_s
  read_digit n d got s = rw (read_s, decimal-digit d) refl

  read_end : (n : ℕ) → read_s foreign n true (b'#' ∷ []) ≡ some n
  unfolding read_s decimal
  read_end n = refl

  -- The number sign behind an interval.
  pub read_s-show : (n : ℕ) → n ≤ 1000 → read_s foreign 0 false (show n ++ (b'#' ∷ [])) ≡ some n
  read_s-show n h =
      let hash : List ℕ = b'#' ∷ [] in
      show-split (λ t. read_s foreign 0 false (t ++ hash) ≡ some n) n
        (λ k. read_digit 0 n false hash ∙ read_end (0 * 10 + n % 10) ∙ ap some (omega arith))
        (λ k.
          read_digit 0 (n / 10) false (digit n ∷ hash)
          ∙ read_digit (0 * 10 + n / 10 % 10) n true hash
          ∙ read_end ((0 * 10 + n / 10 % 10) * 10 + n % 10)
          ∙ ap some (omega arith))
        (λ k.
          read_digit 0 (n / 100) false (digit (n / 10) ∷ digit n ∷ hash)
          ∙ read_digit (0 * 10 + n / 100 % 10) (n / 10) true (digit n ∷ hash)
          ∙ read_digit ((0 * 10 + n / 100 % 10) * 10 + n / 10 % 10) n true hash
          ∙ read_end (((0 * 10 + n / 100 % 10) * 10 + n / 10 % 10) * 10 + n % 10)
          ∙ ap some (omega arith))
        (read_digit 0 (n / 1000) false (digit (n / 100) ∷ digit (n / 10) ∷ digit n ∷ hash)
          ∙ read_digit (0 * 10 + n / 1000 % 10) (n / 100) true (digit (n / 10) ∷ digit n ∷ hash)
          ∙ read_digit ((0 * 10 + n / 1000 % 10) * 10 + n / 100 % 10) (n / 10) true (digit n ∷ hash)
          ∙ read_digit (((0 * 10 + n / 1000 % 10) * 10 + n / 100 % 10) * 10 + n / 10 % 10) n true
              hash
          ∙ read_end
              ((((0 * 10 + n / 1000 % 10) * 10 + n / 100 % 10) * 10 + n / 10 % 10) * 10 + n % 10)
          ∙ ap some (omega arith))

pub show-digits :
    (n : ℕ)
    → (all is_digit (show n) && not (codes_eq (show n) []) && leb (length (show n)) 15) ≡ true
show-digits n =
    show-split (λ t. (all is_digit t && not (codes_eq t []) && leb (length t) 15) ≡ true) n
      (λ k. ground arith) (λ k. ground arith) (λ k. ground arith) (ground arith)

pub value-show : (n : ℕ) → n ≤ 20 → value 0 (show n) ≡ n
unfolding value
value-show n h =
    show-split (λ t. value 0 t ≡ n) n (λ k. omega arith) (λ k. omega arith) (λ k. omega arith)
      (omega arith)
