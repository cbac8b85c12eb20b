-- ===== src/Base/Text.antt =====
-- Python's `str` methods that the program calls, over the native texts. Lower case and white space
-- are those of Latin-1, the alphabet of header values.
use Prim.Native.Char.{Char, code}
use Prim.Native.String.{String, char_at, ◌++◌ as append}
use Prim.Native.Nat.{ℕ, zero, suc, ◌+◌, ◌-◌, ◌*◌}
use mathlib.Core.Bool.{Bool, true, false, not, ◌&&◌, ◌||◌}
use mathlib.Core.Option.{Option, none, some}
use mathlib.Core.List.{List}
use text.Mathlib.Text.{find?, ◌==◌ as str_eq}
use lovensepy.Base.Tests.{ltb, leb, nat_eq, if◌then◌else◌, is_some}

-- s + t
abbrev pub concat : String → String → String
concat s t = append s t

abbrev pub push : Char → String → String
push c s = String.◌∷◌ c s

abbrev pub codes : String → List ℕ
codes String.[] = List.[]
codes (String.◌∷◌ c s) = List.◌∷◌ (code c) (codes s)

-- s is not None and s != ""
abbrev pub truthy : Option String → Bool
truthy none = false
truthy (some String.[]) = false
truthy (some (String.◌∷◌ _ _)) = true

-- s or ""
abbrev pub or_empty : Option String → String
or_empty none = ""
or_empty (some s) = s

-- t in s
abbrev pub contains : String → String → Bool
contains s t = is_some (find? s t)

-- s.endswith(t)
unfoldable pub ends_with : String → String → Bool
ends_with String.[] t = str_eq "" t
ends_with (String.◌∷◌ c s) t = str_eq (push c s) t || ends_with s t

-- s[:n]
unfoldable pub take_chars : ℕ → String → String
take_chars zero s = ""
take_chars (suc n) String.[] = ""
take_chars (suc n) (String.◌∷◌ c s) = push c (take_chars n s)

lower_char : Char → Char
lower_char c =
    let n = code c in
    if leb 65 n && leb n 90
    then char_at "abcdefghijklmnopqrstuvwxyz" (n - 65)
    else if leb 192 n && leb n 222 && not (nat_eq n 215)
    then char_at "àáâãäåæçèéêëìíîïðñòóôõö÷øùúûüýþ" (2 * (n - 192))
    else c

upper_char : Char → Char
upper_char c =
    let n = code c in
    if leb 97 n && leb n 122
    then char_at "ABCDEFGHIJKLMNOPQRSTUVWXYZ" (n - 97)
    else if leb 224 n && leb n 254 && not (nat_eq n 247)
    then char_at "ÀÁÂÃÄÅÆÇÈÉÊËÌÍÎÏÐÑÒÓÔÕÖ×ØÙÚÛÜÝÞ" (2 * (n - 224))
    else c

-- s.lower()
unfoldable pub lower : String → String
unfolding lower_char
lower String.[] = ""
lower (String.◌∷◌ c s) = push (lower_char c) (lower s)

is_space : Char → Bool
is_space c =
    let n = code c in
    (leb 9 n && leb n 13) || (leb 28 n && leb n 32) || nat_eq n 133 || nat_eq n 160

unfoldable pub lstrip : String → String
unfolding is_space
lstrip String.[] = ""
lstrip (String.◌∷◌ c s) = if is_space c then lstrip s else push c s

rstrip_push : Char → String → String
rstrip_push c String.[] = if is_space c then "" else push c ""
rstrip_push c (String.◌∷◌ d s) = push c (push d s)

unfoldable pub rstrip : String → String
unfolding rstrip_push is_space
rstrip String.[] = ""
rstrip (String.◌∷◌ c s) = rstrip_push c (rstrip s)

-- s.strip()
unfoldable pub strip : String → String
unfolding lstrip rstrip
strip s = rstrip (lstrip s)

-- s.split(sep, 1)[0] for a separator of one character
unfoldable pub before : ℕ → String → String
before sep String.[] = ""
before sep (String.◌∷◌ c s) = if nat_eq (code c) sep then "" else push c (before sep s)

-- s.count(sep) for a separator of one character
unfoldable pub count_char : ℕ → String → ℕ
count_char sep String.[] = 0
count_char sep (String.◌∷◌ c s) =
    let n = count_char sep s in if nat_eq (code c) sep then n + 1 else n

-- s.rsplit(sep, 1), `none` where `sep` is not in `s`
unfoldable pub split_at : ℕ → Char → String → Option (String × String) → Option (String × String)
split_at sep c s none = if nat_eq (code c) sep then some ("", s) else none
split_at sep c s (some (a, b)) = some (push c a, b)

unfoldable pub rsplit : ℕ → String → Option (String × String)
unfolding split_at
rsplit sep String.[] = none
rsplit sep (String.◌∷◌ c s) = split_at sep c s (rsplit sep s)

-- s.isascii()
unfoldable pub is_ascii : String → Bool
is_ascii String.[] = true
is_ascii (String.◌∷◌ c s) = ltb (code c) 128 && is_ascii s

-- s[n:]
unfoldable pub drop_chars : ℕ → String → String
drop_chars zero s = s
drop_chars (suc n) String.[] = ""
drop_chars (suc n) (String.◌∷◌ c s) = drop_chars n s

add_char : Char → List String → List String
add_char c List.[] = List.◌∷◌ (push c "") List.[]
add_char c (List.◌∷◌ p ps) = List.◌∷◌ (push c p) ps

-- s.split(sep) for a separator of one character
unfoldable pub split : ℕ → String → List String
unfolding add_char
split sep String.[] = List.◌∷◌ "" List.[]
split sep (String.◌∷◌ c s) =
    let rest = split sep s in if nat_eq (code c) sep then List.◌∷◌ "" rest else add_char c rest

-- s.capitalize(), for a first letter whose capital is in Latin-1
unfoldable pub capitalize : String → String
unfolding upper_char lower
capitalize String.[] = ""
capitalize (String.◌∷◌ c s) = push (upper_char c) (lower s)

-- len(s)
unfoldable pub size : String → ℕ
size String.[] = 0
size (String.◌∷◌ c s) = suc (size s)

-- s.startswith(t)
unfoldable pub begins : String → String → Bool
begins s String.[] = true
begins String.[] (String.◌∷◌ d t) = false
begins (String.◌∷◌ c s) (String.◌∷◌ d t) = nat_eq (code c) (code d) && begins s t
