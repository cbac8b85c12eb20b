-- ===== src/Lan/Pattern.antt =====
-- lovensepy/standard/lan.py: the rule and the strengths of a pattern; ble_direct/standard_compat.py reads
-- them. Texts are lists of code points.
use lovensepy.Base.{
  ℕ, ◌+◌, ◌-◌, ◌*◌, ◌/◌, ◌%◌, min, max, Bool, true, false, not, ◌&&◌, ◌||◌, Option, none, some,
  List, [], ◌∷◌, ◌++◌, map, ltb, leb, nat_eq, if◌then◌else◌, length, take, drop, all, ℕ_Eq,
  String_Eq, Pair_Eq, Codes_Eq, codes_eq,
}
use lovensepy.Base.{
  ℕ, ◌+◌, ◌-◌, ◌*◌, ◌/◌, ◌%◌, min, max, Bool, true, false, not, ◌&&◌, ◌||◌, Option, none, some,
  List, [], ◌∷◌, ◌++◌, map, ltb, leb, nat_eq, if◌then◌else◌, length, take, drop, all, ℕ_Eq,
  String_Eq, Pair_Eq, Codes_Eq,
}
use lovensepy.Base.Int.{ℤ, pos, negsuc}
use lovensepy.Base.Text.{codes}

-- min(max(lo, n), hi)
unfoldable pub clamp_int : ℕ → ℕ → ℤ → ℕ
clamp_int lo hi (pos n) = min (max lo n) hi
clamp_int lo hi (negsuc n) = min lo hi

abbrev pub digit : ℕ → ℕ
digit d = b'0' + d % 10

-- str(n) of a number below 10000
unfoldable pub show : ℕ → List ℕ
show n =
    if ltb n 10
    then digit n ∷ []
    else if ltb n 100
    then digit (n / 10) ∷ digit n ∷ []
    else if ltb n 1000
    then digit (n / 100) ∷ digit (n / 10) ∷ digit n ∷ []
    else digit (n / 1000) ∷ digit (n / 100) ∷ digit (n / 10) ∷ digit n ∷ []

-- sep.join(texts) for a separator of one character
unfoldable pub join : ℕ → List (List ℕ) → List ℕ
join sep [] = []
join sep (t ∷ []) = t
join sep (t ∷ u ∷ ts) = t ++ (sep ∷ join sep (u ∷ ts))

unfoldable pub pattern_steps : List ℤ → List ℕ
unfolding clamp_int
pattern_steps pattern = map (clamp_int 0 20) (take 50 pattern)

unfoldable pub pattern_interval : ℤ → ℕ
unfolding clamp_int
pattern_interval interval = clamp_int 100 1000 interval

-- f"V:1;F:{letters};S:{interval}#"
unfoldable pub pattern_rule : List ℕ → ℤ → List ℕ
unfolding show pattern_interval
pattern_rule letters interval =
    codes "V:1;F:" ++ (letters ++ (codes ";S:" ++ (show (pattern_interval interval) ++ codes "#")))

unfoldable pub pattern_strength : List ℤ → List ℕ
unfolding join show pattern_steps
pattern_strength pattern = join b';' (map show (pattern_steps pattern))

-- A digit of ASCII.
abbrev pub is_digit : ℕ → Bool
is_digit c = leb b'0' c && leb c b'9'

-- The value of a character that \d matches. Of those outside ASCII the argument says it.
unfoldable pub decimal : (ℕ → Option ℕ) → ℕ → Option ℕ
decimal foreign c = if is_digit c then some (c - b'0') else if ltb c 128 then none else foreign c

-- The digits and the number sign of r"S:(\d+)#"; the flag says that a digit was read.
unfoldable pub read_s : (ℕ → Option ℕ) → ℕ → Bool → List ℕ → Option ℕ
unfolding decimal
read_s foreign n got [] = none
read_s foreign n got (c ∷ s) = elim (decimal foreign c) [
  | none ↦ if nat_eq c b'#' && got then some n else none
  | some v ↦ read_s foreign (n * 10 + v) true s
]

unfoldable pub after_colon : (ℕ → Option ℕ) → List ℕ → Option ℕ
unfolding read_s
after_colon foreign [] = none
after_colon foreign (c ∷ s) = if nat_eq c b':' then read_s foreign 0 false s else none

abbrev pub or_later : Option ℕ → Option ℕ → Option ℕ
or_later none o = o
or_later (some n) o = some n

-- _RE_RULE_S.search
unfoldable pub search_s : (ℕ → Option ℕ) → List ℕ → Option ℕ
unfolding after_colon
search_s foreign [] = none
search_s foreign (c ∷ s) =
    let rest = search_s foreign s in
    or_later (if nat_eq c b'S' then after_colon foreign s else none) rest

-- [^;#]*
unfoldable pub until : List ℕ → List ℕ
until [] = []
until (c ∷ s) = let rest = until s in if nat_eq c b';' || nat_eq c b'#' then [] else c ∷ rest

unfoldable pub begins_colon : List ℕ → Bool
begins_colon [] = false
begins_colon (c ∷ s) = nat_eq c b':'

-- _RE_RULE_F.search, empty where it finds nothing
unfoldable pub search_f : List ℕ → List ℕ
unfolding until begins_colon
search_f [] = []
search_f (c ∷ s) =
    let rest = search_f s in if nat_eq c b'F' && begins_colon s then until (drop 1 s) else rest

abbrev pub is_blank : ℕ → Bool
is_blank n = (leb 9 n && leb n 13) || (leb 28 n && leb n 32) || nat_eq n 133 || nat_eq n 160

unfoldable pub left_bare : List ℕ → List ℕ
left_bare [] = []
left_bare (c ∷ s) = let rest = left_bare s in if is_blank c then rest else c ∷ s

unfoldable pub right_push : ℕ → List ℕ → List ℕ
right_push c [] = if is_blank c then [] else c ∷ []
right_push c (d ∷ s) = c ∷ d ∷ s

unfoldable pub right_bare : List ℕ → List ℕ
unfolding right_push
right_bare [] = []
right_bare (c ∷ s) = right_push c (right_bare s)

-- s.strip()
unfoldable pub bare : List ℕ → List ℕ
unfolding left_bare right_bare
bare s = right_bare (left_bare s)

unfoldable pub add_first : ℕ → List (List ℕ) → List (List ℕ)
add_first c [] = (c ∷ []) ∷ []
add_first c (p ∷ ps) = (c ∷ p) ∷ ps

-- s.split(sep)
unfoldable pub split_codes : ℕ → List ℕ → List (List ℕ)
unfolding add_first
split_codes sep [] = [] ∷ []
split_codes sep (c ∷ s) =
    let rest = split_codes sep s in if nat_eq c sep then [] ∷ rest else add_first c rest

-- [p.strip() for p in parts if p.strip()]
unfoldable pub filled : List (List ℕ) → List (List ℕ)
unfolding bare
filled [] = []
filled (p ∷ ps) = let rest = filled ps in if codes_eq (bare p) [] then rest else bare p ∷ rest

unfoldable pub value : ℕ → List ℕ → ℕ
value n [] = n
value n (c ∷ s) = value (n * 10 + (c - b'0')) s

-- int(float(p)): of up to 15 ASCII digits their number, of another text what the argument says.
unfoldable pub int_of_part : (List ℕ → Option ℤ) → List ℕ → Option ℤ
unfolding value
int_of_part other s =
    if all is_digit s && not (codes_eq s []) && leb (length s) 15
    then some (pos (value 0 s))
    else other s

unfoldable pub add_step : Option ℤ → List ℕ → List ℕ
unfolding clamp_int
add_step none steps = steps
add_step (some v) steps = clamp_int 0 20 v ∷ steps

unfoldable pub steps_of : (List ℕ → Option ℤ) → List (List ℕ) → List ℕ
unfolding int_of_part add_step
steps_of other [] = []
steps_of other (p ∷ ps) = add_step (int_of_part other p) (steps_of other ps)

-- The interval that was found, or 100.
abbrev pub or_hundred : Option ℕ → ℕ
or_hundred none = 100
or_hundred (some n) = n

unfoldable pub parse_pattern_rule_and_strength :
    (ℕ → Option ℕ) → (List ℕ → Option ℤ) → List ℕ → List ℕ → List ℕ × ℕ × List ℕ
unfolding search_s search_f bare steps_of filled split_codes
parse_pattern_rule_and_strength foreign other rule strength = (
  steps_of other (take 50 (filled (split_codes b';' strength))),
  min (max (or_hundred (search_s foreign rule)) 100) 1000,
  bare (search_f rule),
)
