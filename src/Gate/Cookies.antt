-- ===== src/Gate/Cookies.antt =====
-- The signed cookie: what was signed reads back, and only a right signature is read.
use lovensepy.Base.{
  ℕ, zero, suc, String, ◌≡◌, refl, ap, ◌∙◌, ◌≢◌, inl, inr, Bool, true, ◌&&◌, ◌||◌, Option, none,
  some, arith, eq_iff, leb, nat_eq, Option-cases, ℕ_Eq, String_Eq, Pair_Eq, Codes_Eq,
}
use Prim.Native.Char.{Char, char, code}
use text.Mathlib.TextEquality.{Char-path}
use text.Mathlib.TextPositions.{eq_refl}
use text.Mathlib.TextLemmas.{nil-append, cons-append}
use lovensepy.Base.Result.{ok}
use lovensepy.Base.Text.{concat, push, take_chars, rsplit, split_at, is_ascii}
use lovensepy.Gate.Types.{AccessGate, Platform}
use lovensepy.Gate.Sessions.{sign_cookie_value, read_cookie_value}

-- A lower-case hexadecimal text, such as `hexdigest()` returns.
abbrev pub is_hex : String → Bool
is_hex String.[] = true
is_hex (String.◌∷◌ c s) =
    ((leb b'0' (code c) && leb (code c) b'9') || (leb b'a' (code c) && leb (code c) b'f'))
    && is_hex s

abbrev pub HexDigests : Platform → Type 0
HexDigests p = (key token : String) → is_hex (p.hmac_hex key token) ≡ true

is_hex-take_chars : (n : ℕ) (s : String) → is_hex s ≡ true → is_hex (take_chars n s) ≡ true
unfolding take_chars
is_hex-take_chars zero s h = refl
is_hex-take_chars (suc n) String.[] h = refl
is_hex-take_chars (suc n) (String.◌∷◌ c s) h = ground (arith, is_hex-take_chars n s)

is_hex-no_dot : (s : String) → is_hex s ≡ true → rsplit b'.' s ≡ none
unfolding rsplit
is_hex-no_dot String.[] h = refl
is_hex-no_dot (String.◌∷◌ c s) h = ground (arith, is_hex-no_dot s)

is_hex-is_ascii : (s : String) → is_hex s ≡ true → is_ascii s ≡ true
unfolding is_ascii
is_hex-is_ascii String.[] h = refl
is_hex-is_ascii (String.◌∷◌ c s) h = ground (arith, is_hex-is_ascii s)

dot : Char
dot = char 46 tt

dot_tail : (d : String) → rsplit b'.' d ≡ none → rsplit b'.' (concat "." d) ≡ some ("", d)
unfolding rsplit
dot_tail d h = rw (cons-append, nil-append) (rw h)

rsplit-concat :
    (t d : String) → rsplit b'.' d ≡ none → rsplit b'.' (concat t (concat "." d)) ≡ some (t, d)
unfolding rsplit
rsplit-concat String.[] d h = rw nil-append (dot_tail d h)
rsplit-concat (String.◌∷◌ c t) d h = rw cons-append (rw (rsplit-concat t d h))

split_at_sound :
    (c : Char) (s a b : String) (o : Option (String × String))
    → ((x y : String) → o ≡ some (x, y) → s ≡ concat x (concat "." y))
    → split_at b'.' c s o ≡ some (a, b)
    → push c s ≡ concat a (concat "." b)
unfolding split_at dot
split_at_sound c s a b none h e =
    let is_dot : nat_eq (code c) 46 ≡ true = ground arith in
    let ea : a ≡ "" = ground arith in
    let eb : b ≡ s = ground arith in
    let ec : c ≡ dot = Char-path c dot (ground arith) in
    rw (ea, eb, ec, nil-append, cons-append, nil-append)
split_at_sound c s a b (some (x, y)) h e =
    let ea : a ≡ push c x = ground arith in
    let eb : b ≡ y = ground arith in rw (ea, eb, cons-append) (ap (push c) (h x y refl))

rsplit_sound : (s a b : String) → rsplit b'.' s ≡ some (a, b) → s ≡ concat a (concat "." b)
unfolding rsplit
rsplit_sound String.[] a b e = cc
rsplit_sound (String.◌∷◌ c s) a b e = split_at_sound c s a b (rsplit b'.' s) (rsplit_sound s) e

module _ (p : Platform) (law : HexDigests p) (g : AccessGate) where
  -- A cookie that the gate has signed reads back as its token, whatever the token holds.
  pub read-sign_cookie_value :
      (token : String)
      → read_cookie_value p g (some (sign_cookie_value p g token)) ≡ ok (some token)
  unfolding read_cookie_value sign_cookie_value
  read-sign_cookie_value token =
      let d : String = take_chars 16 (p.hmac_hex g.secret token) in
      let hex : is_hex d ≡ true =
        is_hex-take_chars 16 (p.hmac_hex g.secret token) (law g.secret token) in
      rw (rsplit-concat token d (is_hex-no_dot d hex), is_hex-is_ascii d hex, eq_refl d)

cookie_none :
    (p : Platform) (g : AccessGate) (token : String) → read_cookie_value p g none ≢ ok (some token)
unfolding read_cookie_value
cookie_none p g token h = cc

-- The parts of a cookie that is read as a token.
read_parts :
    (p : Platform) (g : AccessGate) (raw token : String)
    → read_cookie_value p g (some raw) ≡ ok (some token)
    → (rsplit b'.' raw ≡ some (token, take_chars 16 (p.hmac_hex g.secret token)))
      × (concat token (concat "." (take_chars 16 (p.hmac_hex g.secret token)))
          ≡ sign_cookie_value p g token)
unfolding read_cookie_value sign_cookie_value
read_parts p g raw token h = elim (Option-cases (rsplit b'.' raw)) [
  | inl e ↦ absurd (ground arith)
  | inr (parts, e) ↦
      (ground (arith, eq_iff parts.1 (take_chars 16 (p.hmac_hex g.secret parts.0))), refl)
]

-- Only a cookie that the gate has signed with its secret is read as a token.
pub read_cookie_value-signed :
    (p : Platform) (g : AccessGate) (raw : Option String) (token : String)
    → read_cookie_value p g raw ≡ ok (some token)
    → raw ≡ some (sign_cookie_value p g token)
read_cookie_value-signed p g none token h = absurd (cookie_none p g token h)
read_cookie_value-signed p g (some raw) token h =
    let (parts, same) = read_parts p g raw token h in
    ap some (rsplit_sound raw token (take_chars 16 (p.hmac_hex g.secret token)) parts ∙ same)
