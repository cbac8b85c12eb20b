-- ===== src/Gate/Codes.antt =====
-- The six digits of a console code: how they are printed, shown and typed.
use lovensepy.Base.{
  ℕ, ◌+◌, ◌/◌, ◌%◌, ◌<◌, String, ◌≡◌, refl, ◌∙◌, true, ◌&&◌, some, arith, leb, length, ℕ_Eq,
  String_Eq, Pair_Eq, Codes_Eq,
}
use lovensepy.Base.Result.{ok}
use lovensepy.Gate.Types.{PendingCode, AccessGate, Platform}
use lovensepy.Gate.Challenge.{Peek, keep_digits, verify, format_06d, display, peek_code}
use lovensepy.Gate.Guesses.{IsAscii, verify-accepts_iff}

-- `\d` agrees with the ten digits on ASCII.
abbrev pub AsciiDigits : Platform → Type 0
AsciiDigits p = (c : ℕ) → c < 128 → p.is_decimal c ≡ (leb 48 c && leb c 57)

pub format_06d-IsAscii : (n : ℕ) → IsAscii (format_06d n)
unfolding format_06d
format_06d-IsAscii n = ground arith

pub length-format_06d : (n : ℕ) → length (format_06d n) ≡ 6
unfolding format_06d
length-format_06d n = refl

-- Two draws below a million that are printed alike are the same draw: every code is as likely as
-- its draw.
pub format_06d-injective :
    (n m : ℕ) → n < 1000000 → m < 1000000 → format_06d n ≡ format_06d m → n ≡ m
unfolding format_06d
format_06d-injective n m hn hm e = ground arith

is_decimal_digit : (p : Platform) → AsciiDigits p → (d : ℕ) → d < 10 → p.is_decimal (48 + d) ≡ true
is_decimal_digit p h d l = h (48 + d) (omega arith) ∙ ground arith

-- The blank in the middle of the displayed code is dropped again.
keep_digits-display :
    (p : Platform) → AsciiDigits p → (n : ℕ) → keep_digits p (display (format_06d n)) ≡ format_06d n
unfolding keep_digits display format_06d
keep_digits-display p h n = rw (
  is_decimal_digit p h (n / 100000 % 10) (omega arith),
  is_decimal_digit p h (n / 10000 % 10) (omega arith),
  is_decimal_digit p h (n / 1000 % 10) (omega arith),
  is_decimal_digit p h (n / 100 % 10) (omega arith),
  is_decimal_digit p h (n / 10 % 10) (omega arith),
  is_decimal_digit p h (n % 10) (omega arith),
  h 32 (omega arith),
)

-- What the host reads in the panel, the blank included, is what `verify` accepts while it is shown.
pub verify-peek_code :
    (p : Platform) (now n : ℕ) (token : String) (g : AccessGate) (c : PendingCode) (k : Peek)
    → AsciiDigits p
    → g.code ≡ some c
    → c.code ≡ format_06d n
    → peek_code p now g ≡ some k
    → (verify p k.display now token g).0 ≡ ok (some token)
unfolding peek_code
verify-peek_code p now n token g c k law e drawn seen =
    (verify-accepts_iff p k.display now token g c e (rw drawn (format_06d-IsAscii n))
        (rw drawn (length-format_06d n))).1
      (ground arith, shown)
  where
    shows : k.display ≡ display c.code
    shows = ground arith

    shown : keep_digits p k.display ≡ c.code
    shown = rw (shows, drawn) (keep_digits-display p law n)
