-- ===== src/Ble/Replies.antt =====
-- lovensepy/ble_direct/uart_replies.py: the replies of a toy, as lists of code points. What
-- Unicode says of digits is an argument; the blanks are those of Latin-1.
use lovensepy.Base.{
  ℕ, ◌+◌, ◌-◌, min, Bool, false, not, ◌&&◌, ◌||◌, Option, none, some, List, [], ◌∷◌, ◌++◌, leb,
  nat_eq, if◌then◌else◌, length, take, drop, all, any, ℕ_Eq, String_Eq, Pair_Eq, Codes_Eq, codes_eq,
}
use lovensepy.Base.{
  ℕ, ◌+◌, ◌-◌, min, Bool, false, not, ◌&&◌, ◌||◌, Option, none, some, List, [], ◌∷◌, ◌++◌, leb,
  nat_eq, if◌then◌else◌, length, take, drop, all, any, ℕ_Eq, String_Eq, Pair_Eq, Codes_Eq,
}
use lovensepy.Base.Result.{Result, ok, err, value_error}
use lovensepy.Lan.Pattern.{is_blank, bare, split_codes}

-- s.rstrip(";")
unfoldable pub drop_semicolons : List ℕ → List ℕ
drop_semicolons [] = []
drop_semicolons (c ∷ s) =
    let rest = drop_semicolons s in if nat_eq c b';' && codes_eq rest [] then [] else c ∷ rest

unfoldable pub reply_body : List ℕ → List ℕ
unfolding drop_semicolons bare
reply_body line = bare (drop_semicolons (bare line))

pub record DeviceTypeFields : Type 0 where
  pub model_letter : List ℕ
  pub firmware : List ℕ
  pub bt_addr_hex : List ℕ
  pub raw : List ℕ

three_fields : List (List ℕ) → List ℕ → Result DeviceTypeFields
unfolding bare
three_fields (a ∷ b ∷ c ∷ []) raw =
    ok (record { model_letter = bare a; firmware = bare b; bt_addr_hex = bare c; raw = raw })
three_fields _ raw = err value_error

unfoldable pub parse_device_type_fields : List ℕ → Result DeviceTypeFields
unfolding three_fields reply_body split_codes bare
parse_device_type_fields line = three_fields (split_codes b':' (reply_body line)) (bare line)

-- [A-Za-z]
abbrev pub is_alpha : ℕ → Bool
is_alpha c = (leb b'a' c && leb c b'z') || (leb b'A' c && leb c b'Z')

-- What Unicode says of a character. A letter, a blank, ":" and "=" are no decimals.
pub record Digits : Type 0 where
  -- whether \d matches it
  pub is_decimal : ℕ → Bool
  -- c.isdigit()
  pub is_digit : ℕ → Bool
  -- int(s) of a text of decimals; `none` stands for its ValueError
  pub int_of : List ℕ → Option ℕ

-- A text before its last decimals, and these.
unfoldable pub last_decimals : Digits → List ℕ → List ℕ × List ℕ
last_decimals u [] = ([], [])
last_decimals u (c ∷ s) =
    let rest : List ℕ × List ℕ = last_decimals u s in
    if codes_eq rest.0 [] && u.is_decimal c then ([], c ∷ rest.1) else (c ∷ rest.0, rest.1)

abbrev pub between : ℕ → ℕ → List ℕ → Bool
between lo hi s = leb lo (length s) && leb (length s) hi

-- [A-Za-z]{1,12}[:=]\s* behind n letters
unfoldable pub tagged : ℕ → List ℕ → Bool
tagged n [] = false
tagged n (c ∷ s) =
    let rest = tagged (n + 1) s in
    if is_alpha c
    then rest
    else (nat_eq c b':' || nat_eq c b'=') && leb 1 n && leb n 12 && all is_blank s

abbrev pub clamp_pct : Option ℕ → Result ℕ
clamp_pct none = err value_error
clamp_pct (some n) = ok (min 100 n)

unfoldable pub percent_of : Digits → List ℕ → Result ℕ
percent_of u digits = clamp_pct (u.int_of digits)

-- re.search(r"(\d{1,3})\s*$", s): the last three of the decimals, or all of them.
unfoldable pub search_percent : Digits → List ℕ → List ℕ → Result ℕ
unfolding percent_of bare
search_percent u prefix [] = err value_error
search_percent u prefix (c ∷ digits) =
    let before = prefix ++ take (length (c ∷ digits) - 3) (c ∷ digits) in
    if codes_eq (bare before) [] || not (any u.is_digit before)
    then percent_of u (drop (length (c ∷ digits) - 3) (c ∷ digits))
    else err value_error

-- The patterns after the first, which all end in one to three decimals.
unfoldable pub tagged_percent : Digits → List ℕ → List ℕ → Result ℕ
unfolding tagged percent_of search_percent
tagged_percent u prefix digits =
    if all is_alpha prefix && between 1 12 prefix && between 1 3 digits
    then percent_of u digits
    else if tagged 0 prefix && between 1 3 digits
    then percent_of u digits
    else search_percent u prefix digits

unfoldable pub body_percent : Digits → List ℕ → Result ℕ
unfolding tagged_percent last_decimals percent_of
body_percent u s =
    if codes_eq s []
    then err value_error
    else if all u.is_decimal s
    then percent_of u s
    else tagged_percent u (last_decimals u s).0 (last_decimals u s).1

unfoldable pub parse_battery_percent : Digits → List ℕ → Result ℕ
unfolding body_percent reply_body
parse_battery_percent u line = body_percent u (reply_body line)
