-- ===== src/Toys/Features.antt =====
-- lovensepy/toy_utils.py and lovensepy/toy_type_defaults.py: the features of a toy. A toy is the part
-- of its dictionary that is read; a function name that is no text is `none`.
use lovensepy.Base.{
  ℕ, String, Bool, false, not, ◌&&◌, ◌||◌, Option, none, some, List, [], ◌∷◌, ◌++◌, map, leb,
  nat_eq, if◌then◌else◌, any, ◌==◌, ℕ_Eq, String_Eq, Pair_Eq, Codes_Eq,
}
use Prim.Native.String.{count}
use Prim.Native.Char.{code}
use lovensepy.Base.Dict.{Dict, get}
use lovensepy.Base.Text.{contains, lower, strip, or_empty, truthy, push}

pub record Toy : Type 0 where
  pub toy_type : Option String
  pub name : Option String
  pub full_function_names : List (Option String)
  pub short_function_names : List (Option String)

abbrev pub short_to_full : Dict String String
short_to_full =
    ("v", "Vibrate")
    ∷ ("v1", "Vibrate1")
    ∷ ("v2", "Vibrate2")
    ∷ ("r", "Rotate")
    ∷ ("p", "Pump")
    ∷ ("t", "Thrusting")
    ∷ ("f", "Fingering")
    ∷ ("s", "Suction")
    ∷ ("d", "Depth")
    ∷ ("st", "Stroke")
    ∷ ("o", "Oscillate")
    ∷ []

abbrev pub known_features : List String
known_features = map (λ e. e.1) short_to_full

-- x in xs
abbrev pub member : String → List String → Bool
member x xs = any (λ y. y == x) xs

-- d.get(k, default)
abbrev pub get_default : String → Dict String String → String → String
get_default k d x = elim (get k d) [ none ↦ x | some v ↦ v ]

unfoldable pub normalize_feature_name : String → String
normalize_feature_name name =
    let n = strip name in if leb (count n) 3 then get_default (lower n) short_to_full n else n

-- One round of the loop of `features_for_toy`; the result so far is also what was seen.
unfoldable pub add_feature : List String → String → List String
add_feature result mapped =
    if member mapped known_features && not (member mapped result)
    then result ++ (mapped ∷ [])
    else result

unfoldable pub collect : List String → List (Option String) → List String
unfolding normalize_feature_name add_feature
collect result [] = result
collect result (none ∷ names) = collect result names
collect result (some name ∷ names) =
    collect (add_feature result (normalize_feature_name name)) names

-- s.replace(" ", "")
unfoldable pub drop_blanks : String → String
drop_blanks String.[] = ""
drop_blanks (String.◌∷◌ c s) =
    let rest = drop_blanks s in if nat_eq (code c) 32 then rest else push c rest

abbrev pub features_by_toy_type : Dict String (List String)
features_by_toy_type =
    ("edge", "Vibrate1" ∷ "Vibrate2" ∷ [])
    ∷ ("diamo", "Vibrate1" ∷ "Vibrate2" ∷ [])
    ∷ ("dolce", "Vibrate1" ∷ "Vibrate2" ∷ [])
    ∷ ("gemini", "Vibrate1" ∷ "Vibrate2" ∷ [])
    ∷ ("nora", "Vibrate" ∷ "Rotate" ∷ [])
    ∷ ("max", "Vibrate" ∷ "Pump" ∷ [])
    ∷ ("gush", "Vibrate" ∷ [])
    ∷ ("osci", "Vibrate" ∷ "Oscillate" ∷ [])
    ∷ ("vulse", "Vibrate" ∷ "Suction" ∷ [])
    ∷ ("calor", "Vibrate" ∷ "Oscillate" ∷ [])
    ∷ ("flexer", "Vibrate" ∷ "Oscillate" ∷ [])
    ∷ ("gravity", "Thrusting" ∷ "Vibrate" ∷ [])
    ∷ ("solace", "Vibrate" ∷ "Thrusting" ∷ "Depth" ∷ [])
    ∷ ("solacepro", "Vibrate" ∷ "Thrusting" ∷ "Depth" ∷ [])
    ∷ ("solace pro", "Vibrate" ∷ "Thrusting" ∷ "Depth" ∷ [])
    ∷ ("mini", "Thrusting" ∷ [])
    ∷ ("xmachine", "Thrusting" ∷ [])
    ∷ ("lapis", "Vibrate" ∷ "Vibrate3" ∷ [])
    ∷ ("lush", "Vibrate" ∷ [])
    ∷ ("hush", "Vibrate" ∷ [])
    ∷ ("domi", "Vibrate" ∷ [])
    ∷ ("ferri", "Vibrate" ∷ [])
    ∷ ("ambi", "Vibrate" ∷ [])
    ∷ ("ridge", "Vibrate" ∷ [])
    ∷ ("mission", "Vibrate" ∷ [])
    ∷ ("hyphy", "Vibrate" ∷ [])
    ∷ ("exomoon", "Vibrate" ∷ [])
    ∷ ("tenera", "Vibrate" ∷ [])
    ∷ ("spinel", "Vibrate" ∷ [])
    ∷ []

-- The entry of the table, if the name is one of its keys.
listed : String → Option (List String)
listed name = get name features_by_toy_type

unfoldable pub default_features_for_toy_type : String → List String
unfolding listed
default_features_for_toy_type toy_type =
    let raw = lower (strip toy_type) in
    let compact = drop_blanks raw in
    let guessed : List String =
      if contains compact "solace"
      then "Vibrate" ∷ "Thrusting" ∷ "Depth" ∷ []
      else if contains compact "gemini" || contains compact "dolce" || contains compact "quke"
      then "Vibrate1" ∷ "Vibrate2" ∷ []
      else "Vibrate" ∷ [] in
    let by_raw : List String = elim (listed raw) [ some feats ↦ feats | none ↦ guessed ] in
    let by_name : List String = elim (listed compact) [ some feats ↦ feats | none ↦ by_raw ] in
    if raw == "" then "Vibrate" ∷ [] else by_name

-- (toy.get("toyType") or toy.get("name") or "").lower()
unfoldable pub type_name : Toy → String
type_name toy = lower (if truthy toy.toy_type then or_empty toy.toy_type else or_empty toy.name)

is_lone_vibrate : List String → Bool
is_lone_vibrate (f ∷ []) = f == "Vibrate"
is_lone_vibrate _ = false

-- The features that the API names, or those of the toy's type.
unfoldable pub choose : String → List String → List String
unfolding is_lone_vibrate
choose toy_type [] = default_features_for_toy_type toy_type
choose toy_type (f ∷ fs) =
    if (contains toy_type "edge" || contains toy_type "diamo") && is_lone_vibrate (f ∷ fs)
    then "Vibrate1" ∷ "Vibrate2" ∷ []
    else f ∷ fs

unfoldable pub features_for_toy : Toy → List String
unfolding type_name choose
features_for_toy toy =
    choose (type_name toy) (collect [] (toy.full_function_names ++ toy.short_function_names))

-- {f: 0 for f in feats}
unfoldable pub stop_actions : Toy → Dict String ℕ
stop_actions toy = map (λ f. (f, 0)) (features_for_toy toy)
