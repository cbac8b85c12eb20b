-- ===== src/Lan/ReadBack.antt =====
-- What a client of the local app builds for a pattern is read back over Bluetooth.
use lovensepy.Base.{
  ℕ, zero, suc, ◌≤◌, min, max, ◌≡◌, refl, ap, ◌∙◌, Bool, true, false, not, ◌&&◌, ◌||◌, Option, some,
  List, [], ◌∷◌, ◌++◌, map, arith, leb, nat_eq, if◌then◌else◌, length, take, all, ℕ_Eq, String_Eq,
  Pair_Eq, Codes_Eq, if_true, if_false, codes_eq,
}
use lovensepy.Base.Int.{ℤ, pos, negsuc}
use lovensepy.Base.Text.{codes}
use lovensepy.Lan.Pattern.{
  clamp_int, show, join, pattern_steps, pattern_interval, pattern_rule, pattern_strength, is_digit,
  search_s, until, search_f, is_blank, left_bare, right_push, right_bare, bare, split_codes, filled,
  value, int_of_part, steps_of, or_hundred, or_later, parse_pattern_rule_and_strength, add_step,
  after_colon, begins_colon,
}
use lovensepy.Lan.Digits.{read_s-show, show-digits, value-show}

-- A character of a letter or a comma between letters.
abbrev pub is_letter : ℕ → Bool
is_letter c = (leb b'a' c && leb c b'z') || nat_eq c b','

-- The interval is found behind the letters.
search_s-letters :
    (foreign : ℕ → Option ℕ) (letters s : List ℕ)
    → all is_letter letters ≡ true
    → search_s foreign (letters ++ s) ≡ search_s foreign s
unfolding search_s
search_s-letters foreign [] s h = refl
search_s-letters foreign (c ∷ letters) s h = ground (arith, search_s-letters foreign letters s)

until-letters :
    (letters s : List ℕ) → all is_letter letters ≡ true → until (letters ++ (b';' ∷ s)) ≡ letters
unfolding until
until-letters [] s h = refl
until-letters (c ∷ letters) s h = ground (arith, until-letters letters s)

-- Nothing is stripped from a text without blanks.
left-kept : (s : List ℕ) → all (λ c. not (is_blank c)) s ≡ true → left_bare s ≡ s
unfolding left_bare
left-kept [] h = refl
left-kept (c ∷ s) h = ground arith

right_push-kept : (c : ℕ) (s : List ℕ) → is_blank c ≡ false → right_push c s ≡ (c ∷ s)
unfolding right_push
right_push-kept c [] h = if_false (is_blank c) [] (c ∷ []) h
right_push-kept c (d ∷ s) h = refl

right-kept : (s : List ℕ) → all (λ c. not (is_blank c)) s ≡ true → right_bare s ≡ s
unfolding right_bare
right-kept [] h = refl
right-kept (c ∷ s) h =
    ap (right_push c) (right-kept s (ground arith)) ∙ right_push-kept c s (ground arith)

bare-kept : (s : List ℕ) → all (λ c. not (is_blank c)) s ≡ true → bare s ≡ s
unfolding bare
bare-kept s h = ap right_bare (left-kept s h) ∙ right-kept s h

all_mono :
    (q r : ℕ → Bool) (s : List ℕ)
    → ((c : ℕ) → q c ≡ true → r c ≡ true)
    → all q s ≡ true
    → all r s ≡ true
all_mono q r [] k h = refl
all_mono q r (c ∷ s) k h = ground (arith, k c, all_mono q r s k)

split-end : (t : List ℕ) → all is_digit t ≡ true → split_codes b';' t ≡ (t ∷ [])
unfolding split_codes
split-end [] h = refl
split-end (c ∷ t) h = ground (arith, split-end t)

split-more :
    (t s : List ℕ)
    → all is_digit t ≡ true
    → split_codes b';' (t ++ (b';' ∷ s)) ≡ (t ∷ split_codes b';' s)
unfolding split_codes
split-more [] s h = refl
split-more (c ∷ t) s h = ground (arith, split-more t s)

digit_bare : (c : ℕ) → is_digit c ≡ true → not (is_blank c) ≡ true
digit_bare c h = ground arith

letter_bare : (c : ℕ) → is_letter c ≡ true → not (is_blank c) ≡ true
letter_bare c h = ground arith

digits_of : (n : ℕ) → all is_digit (show n) ≡ true
digits_of n = ground (arith, show-digits n)

filled-next : (n : ℕ) (ps : List (List ℕ)) → filled (show n ∷ ps) ≡ (show n ∷ filled ps)
unfolding filled
filled-next n ps =
    let kept : bare (show n) ≡ show n =
      bare-kept (show n)
        (all_mono is_digit (λ c. not (is_blank c)) (show n) digit_bare (digits_of n)) in
    ap (λ t. if codes_eq t [] then filled ps else t ∷ filled ps) kept
    ∙ if_false (codes_eq (show n) []) (filled ps) (show n ∷ filled ps)
        (ground (arith, show-digits n))

-- The parts of joined numbers.
filled-show : (ns : List ℕ) → filled (split_codes b';' (join b';' (map show ns))) ≡ map show ns
unfolding filled join split_codes bare
filled-show [] = refl
filled-show (n ∷ []) = ap filled (split-end (show n) (digits_of n)) ∙ filled-next n []
filled-show (n ∷ m ∷ ns) =
    let rest : List ℕ = join b';' (map show (m ∷ ns)) in
    ap filled (split-more (show n) rest (digits_of n))
    ∙ filled-next n (split_codes b';' rest)
    ∙ ap (λ ps. show n ∷ ps) (filled-show (m ∷ ns))

int_of_part-show :
    (other : List ℕ → Option ℤ) (n : ℕ) → n ≤ 20 → int_of_part other (show n) ≡ some (pos n)
unfolding int_of_part
int_of_part-show other n h =
    if_true (all is_digit (show n) && not (codes_eq (show n) []) && leb (length (show n)) 15)
      (some (pos (value 0 (show n)))) (other (show n)) (show-digits n)
    ∙ ap (λ m. some (pos m)) (value-show n h)

clamp_int_keeps : (n : ℕ) → n ≤ 20 → clamp_int 0 20 (pos n) ≡ n
unfolding clamp_int
clamp_int_keeps n h = omega arith

steps_of-show :
    (other : List ℕ → Option ℤ) (ns : List ℕ)
    → all (λ n. leb n 20) ns ≡ true
    → steps_of other (map show ns) ≡ ns
unfolding steps_of add_step
steps_of-show other [] h = refl
steps_of-show other (n ∷ ns) h =
    let low : n ≤ 20 = ground arith in
    ap (λ o. add_step o (steps_of other (map show ns))) (int_of_part-show other n low)
    ∙ ap (λ m. m ∷ steps_of other (map show ns)) (clamp_int_keeps n low)
    ∙ ap (λ ms. n ∷ ms) (steps_of-show other ns (ground arith))

clamp_int-bounds :
    (lo hi : ℕ) (v : ℤ) → lo ≤ hi → (lo ≤ clamp_int lo hi v) × (clamp_int lo hi v ≤ hi)
unfolding clamp_int
clamp_int-bounds lo hi (pos n) h = (omega arith, omega arith)
clamp_int-bounds lo hi (negsuc n) h = (omega arith, omega arith)

clamped_low : (vs : List ℤ) → all (λ n. leb n 20) (map (clamp_int 0 20) vs) ≡ true
clamped_low [] = refl
clamped_low (v ∷ vs) = ground (arith, (clamp_int-bounds 0 20 v (omega arith)).1, clamped_low vs)

take-mapped :
    (k : ℕ) (f : ℤ → ℕ) (vs : List ℤ)
    → take k (map show (map f (take k vs))) ≡ map show (map f (take k vs))
take-mapped zero f vs = refl
take-mapped (suc k) f [] = refl
take-mapped (suc k) f (v ∷ vs) = ap (λ ts. show (f v) ∷ ts) (take-mapped k f vs)

search_s-rule :
    (foreign : ℕ → Option ℕ) (letters : List ℕ) (interval : ℤ)
    → all is_letter letters ≡ true
    → search_s foreign (pattern_rule letters interval) ≡ some (pattern_interval interval)
unfolding search_s after_colon pattern_rule
search_s-rule foreign letters interval h =
    let n : ℕ = pattern_interval interval in
    let top : n ≤ 1000 =
      unfold pattern_interval in (clamp_int-bounds 100 1000 interval (omega arith)).1 in
    search_s-letters foreign letters (codes ";S:" ++ (show n ++ codes "#")) h
    ∙ ap (λ o. or_later o (search_s foreign (b':' ∷ (show n ++ codes "#"))))
        (read_s-show foreign n top)

search_f-rule :
    (letters : List ℕ) (interval : ℤ)
    → all is_letter letters ≡ true
    → search_f (pattern_rule letters interval) ≡ letters
unfolding search_f begins_colon pattern_rule
search_f-rule letters interval h =
    until-letters letters (codes "S:" ++ (show (pattern_interval interval) ++ codes "#")) h

-- The rule and the strengths that a client of the local app builds are read over Bluetooth as the first
-- 50 steps, clamped to the levels from 0 to 20, the interval, clamped to 100 to 1000 milliseconds, and
-- the letters, which are lower-case letters and commas.
pub parse-pattern_request :
    (foreign : ℕ → Option ℕ) (other : List ℕ → Option ℤ) (pattern : List ℤ) (interval : ℤ)
    (letters : List ℕ)
    → all is_letter letters ≡ true
    → parse_pattern_rule_and_strength foreign other
        (pattern_rule letters interval)
        (pattern_strength pattern)
      ≡ (map (clamp_int 0 20) (take 50 pattern), clamp_int 100 1000 interval, letters)
unfolding parse_pattern_rule_and_strength pattern_strength pattern_steps pattern_interval
parse-pattern_request foreign other pattern interval letters h =
    let steps : List ℕ = map (clamp_int 0 20) (take 50 pattern) in
    let rule : List ℕ = pattern_rule letters interval in
    let n : ℕ = clamp_int 100 1000 interval in
    let bounds = clamp_int-bounds 100 1000 interval (omega arith) in
    let read : steps_of other (take 50 (filled (split_codes b';' (pattern_strength pattern))))
        ≡ steps =
      ap (λ ts. steps_of other (take 50 ts)) (filled-show steps)
      ∙ ap (steps_of other) (take-mapped 50 (clamp_int 0 20) pattern)
      ∙ steps_of-show other steps (clamped_low (take 50 pattern)) in
    let paced : min (max (or_hundred (search_s foreign rule)) 100) 1000 ≡ n =
      ap (λ o. min (max (or_hundred o) 100) 1000) (search_s-rule foreign letters interval h)
      ∙ omega (arith, bounds.0, bounds.1) in
    let lettered : bare (search_f rule) ≡ letters =
      ap bare (search_f-rule letters interval h)
      ∙ bare-kept letters (all_mono is_letter (λ c. not (is_blank c)) letters letter_bare h) in
    λ i. (read i, paced i, lettered i)
