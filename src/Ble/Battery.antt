-- ===== src/Ble/Battery.antt =====
-- lovensepy/ble_direct/uart_replies.py, `parse_battery_percent`: what it reads from the replies that its
-- comments name.
use lovensepy.Base.Text.{codes}
use lovensepy.Lan.Digits.{show-split}
use lovensepy.Base.{
  ℕ, ◌-◌, ◌<◌, min, ◌≡◌, refl, ap, ◌∙◌, Bool, true, false, not, ◌&&◌, ◌||◌, some, List, [], ◌∷◌,
  ◌++◌, arith, leb, nat_eq, if◌then◌else◌, length, all, any, ℕ_Eq, String_Eq, Pair_Eq, Codes_Eq,
  if_false,
}
use lovensepy.Base.Result.{ok}
use lovensepy.Lan.Pattern.{is_blank, left_bare, right_push, right_bare, bare, show}
use lovensepy.Ble.Replies.{
  Digits, drop_semicolons, reply_body, is_alpha, last_decimals, between, tagged, clamp_pct,
  percent_of, search_percent, tagged_percent, body_percent, parse_battery_percent,
}

abbrev pub is_ascii_digit : ℕ → Bool
is_ascii_digit c = leb b'0' c && leb c b'9'

-- Python's documentation of Unicode digits: those of ASCII are decimals, a decimal is a digit, and `int`
-- reads what `str` prints.
pub record IsUnicode (u : Digits) : Type 0 where
  pub ascii_decimal : (c : ℕ) → is_ascii_digit c ≡ true → u.is_decimal c ≡ true
  pub decimal_digit : (c : ℕ) → u.is_decimal c ≡ true → u.is_digit c ≡ true
  pub int_of-show : (n : ℕ) → n < 1000 → u.int_of (show n) ≡ some n

-- A text that does not begin with a blank.
abbrev pub starts : List ℕ → Bool
starts [] = true
starts (c ∷ s) = not (is_blank c)

-- A text that ends, and neither with a blank nor with a semicolon.
abbrev pub ends : List ℕ → Bool
ends [] = false
ends (c ∷ []) = not (is_blank c) && not (nat_eq c b';')
ends (c ∷ d ∷ s) = ends (d ∷ s)

left_bare-starts : (s : List ℕ) → starts s ≡ true → left_bare s ≡ s
unfolding left_bare
left_bare-starts [] h = refl
left_bare-starts (c ∷ s) h = ground arith

right_bare-ends : (s : List ℕ) → ends s ≡ true → right_bare s ≡ s
unfolding right_bare right_push
right_bare-ends [] h = refl
right_bare-ends (c ∷ []) h = ground arith
right_bare-ends (c ∷ d ∷ s) h = ap (right_push c) (right_bare-ends (d ∷ s) h)

right_bare-semicolon : (s : List ℕ) → right_bare (s ++ (b';' ∷ [])) ≡ (s ++ (b';' ∷ []))
unfolding right_bare right_push
right_bare-semicolon [] = refl
right_bare-semicolon (c ∷ []) = refl
right_bare-semicolon (c ∷ d ∷ s) = ap (right_push c) (right_bare-semicolon (d ∷ s))

drop_semicolons-ends : (s : List ℕ) → ends s ≡ true → drop_semicolons (s ++ (b';' ∷ [])) ≡ s
unfolding drop_semicolons
drop_semicolons-ends [] h = absurd (ground arith)
drop_semicolons-ends (c ∷ []) h = ground arith
drop_semicolons-ends (c ∷ d ∷ s) h = ground (arith, drop_semicolons-ends (d ∷ s) h)

starts-semicolon : (s : List ℕ) → starts s ≡ true → starts (s ++ (b';' ∷ [])) ≡ true
starts-semicolon [] h = refl
starts-semicolon (c ∷ s) h = h

reply_body-kept : (s : List ℕ) → starts s ≡ true → ends s ≡ true → reply_body (s ++ (b';' ∷ [])) ≡ s
unfolding reply_body bare
reply_body-kept s h k =
    let line : List ℕ = s ++ (b';' ∷ []) in
    let whole : right_bare (left_bare line) ≡ line =
      ap right_bare (left_bare-starts line (starts-semicolon s h)) ∙ right_bare-semicolon s in
    ap (λ t. right_bare (left_bare t)) (ap drop_semicolons whole ∙ drop_semicolons-ends s k)
    ∙ ap right_bare (left_bare-starts s h)
    ∙ right_bare-ends s k

ends-append : (t s : List ℕ) → ends s ≡ true → ends (t ++ s) ≡ true
ends-append [] s h = h
ends-append (c ∷ []) [] h = absurd (ground arith)
ends-append (c ∷ []) (d ∷ s) h = h
ends-append (c ∷ d ∷ t) s h = ends-append (d ∷ t) s h

show-ends : (n : ℕ) → ends (show n) ≡ true
show-ends n =
    show-split (λ t. ends t ≡ true) n (λ k. ground arith) (λ k. ground arith) (λ k. ground arith)
      (ground arith)

show-starts : (n : ℕ) → starts (show n) ≡ true
show-starts n =
    show-split (λ t. starts t ≡ true) n (λ k. ground arith) (λ k. ground arith) (λ k. ground arith)
      (ground arith)

show-ascii : (n : ℕ) → all is_ascii_digit (show n) ≡ true
show-ascii n =
    show-split (λ t. all is_ascii_digit t ≡ true) n (λ k. ground arith) (λ k. ground arith)
      (λ k. ground arith) (ground arith)

show-short : (n : ℕ) → n < 1000 → between 1 3 (show n) ≡ true
unfolding show
show-short n h = ground arith

any-same : (q : ℕ → Bool) (s : List ℕ) → any q (s ++ []) ≡ any q s
any-same q [] = refl
any-same q (c ∷ s) = ap (λ b. q c || b) (any-same q s)

starts-append : (t s : List ℕ) → starts t ≡ true → starts s ≡ true → starts (t ++ s) ≡ true
starts-append [] s h k = k
starts-append (c ∷ t) s h k = h

-- Three tests with one answer, of which the last is met.
met {ℓ} : {A : Type ℓ} (a b : Bool) (x z : A) → z ≡ x → (if a then x else if b then x else z) ≡ x
met true b x z h = refl
met false true x z h = refl
met false false x z h = h

module _ (u : Digits) (laws : IsUnicode u) where
  all_decimal : (s : List ℕ) → all is_ascii_digit s ≡ true → all u.is_decimal s ≡ true
  all_decimal [] h = refl
  all_decimal (c ∷ s) h = ground (arith, laws.ascii_decimal c, all_decimal s)

  last_decimals-all : (s : List ℕ) → all u.is_decimal s ≡ true → last_decimals u s ≡ ([], s)
  unfolding last_decimals
  last_decimals-all [] h = refl
  last_decimals-all (c ∷ s) h = rw (last_decimals-all s (ground arith)) (ground arith)

  -- The last decimals behind a text without digits are those that stand there.
  last_decimals-behind :
      (tag s : List ℕ)
      → any u.is_digit tag ≡ false
      → all u.is_decimal s ≡ true
      → last_decimals u (tag ++ s) ≡ (tag, s)
  unfolding last_decimals
  last_decimals-behind [] s h k = last_decimals-all s k
  last_decimals-behind (c ∷ tag) s h k =
      rw (last_decimals-behind tag s (ground arith) k) (ground (arith, laws.decimal_digit c))

  search_percent-short :
      (tag digits : List ℕ)
      → any u.is_digit tag ≡ false
      → between 1 3 digits ≡ true
      → search_percent u tag digits ≡ percent_of u digits
  unfolding search_percent
  search_percent-short tag [] h k = absurd (ground arith)
  search_percent-short tag (c ∷ digits) h k =
      let none_over : length (c ∷ digits) - 3 ≡ 0 = ground arith in
      rw none_over (ground (arith, any-same u.is_digit tag))

  body_percent-tag :
      (tag digits : List ℕ)
      → any u.is_digit tag ≡ false
      → all u.is_decimal digits ≡ true
      → between 1 3 digits ≡ true
      → body_percent u (tag ++ digits) ≡ percent_of u digits
  unfolding body_percent tagged_percent
  body_percent-tag [] [] h k l = absurd (ground arith)
  body_percent-tag [] (c ∷ digits) h k l = ground arith
  body_percent-tag (c ∷ tag) digits h k l = rw (last_decimals-behind (c ∷ tag) digits h k) (
      if_false (all u.is_decimal (c ∷ (tag ++ digits))) _ _ (ground (arith, laws.decimal_digit c))
      ∙ met (all is_alpha (c ∷ tag) && between 1 12 (c ∷ tag) && between 1 3 digits)
          (tagged 0 (c ∷ tag) && between 1 3 digits) (percent_of u digits)
          (search_percent u (c ∷ tag) digits) (search_percent-short (c ∷ tag) digits h l))

-- A battery reply with a tag before the percentage and a semicolon behind it is read as the percentage,
-- at most 100, whatever the tag is: a text without a digit that does not begin with a blank, of any
-- length. The percentage is written with up to three ASCII digits.
pub parse_battery_percent-tag :
    (u : Digits) (tag : List ℕ) (n : ℕ)
    → IsUnicode u
    → any u.is_digit tag ≡ false
    → starts tag ≡ true
    → n < 1000
    → parse_battery_percent u ((tag ++ show n) ++ codes ";") ≡ ok (min 100 n)
unfolding parse_battery_percent percent_of
parse_battery_percent-tag u tag n laws plain begins small =
    ap (body_percent u) (
      reply_body-kept (tag ++ show n) (starts-append tag (show n) begins (show-starts n))
        (ends-append tag (show n) (show-ends n)))
    ∙ body_percent-tag u laws tag (show n) plain (all_decimal u laws (show n) (show-ascii n))
        (show-short n small)
    ∙ ap clamp_pct (laws.int_of-show n small)
