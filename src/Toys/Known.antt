-- ===== src/Toys/Known.antt =====
-- The features that the service drives have a range, and none is named twice.
use lovensepy.Base.{
  String, ◌≡◌, refl, Bool, true, false, not, ◌&&◌, Option, none, some, List, [], ◌∷◌, ◌++◌, arith,
  eq_iff, if◌then◌else◌, is_some, all, ◌==◌, ℕ_Eq, String_Eq, Pair_Eq, Codes_Eq, if_split,
}
use lovensepy.Base.Dict.{get, get-all}
use lovensepy.Toys.Constants.{function_ranges}
use lovensepy.Toys.Features.{
  Toy, known_features, member, collect, features_by_toy_type, default_features_for_toy_type,
  features_for_toy, add_feature, normalize_feature_name, choose, type_name,
}

abbrev pub has_range : String → Bool
has_range f = is_some (get f function_ranges)

abbrev pub unique : List String → Bool
unique [] = true
unique (f ∷ fs) = not (member f fs) && unique fs

-- Every feature has a range, none stands twice.
abbrev pub usable : List String → Bool
usable fs = all has_range fs && unique fs

abbrev pub is_empty : List String → Bool
is_empty [] = true
is_empty (_ ∷ _) = false

all-snoc :
    (q : String → Bool) (fs : List String) (f : String)
    → all q fs ≡ true
    → q f ≡ true
    → all q (fs ++ (f ∷ [])) ≡ true
all-snoc q [] f h k = ground arith
all-snoc q (g ∷ fs) f h k = ground (arith, all-snoc q fs f)

member-snoc :
    (g f : String) (fs : List String)
    → member g fs ≡ false
    → (f == g) ≡ false
    → member g (fs ++ (f ∷ [])) ≡ false
member-snoc g f [] h k = ground arith
member-snoc g f (x ∷ fs) h k = ground (arith, member-snoc g f fs)

unique-snoc :
    (fs : List String) (f : String)
    → unique fs ≡ true
    → member f fs ≡ false
    → unique (fs ++ (f ∷ [])) ≡ true
unique-snoc [] f h k = ground arith
unique-snoc (g ∷ fs) f h k =
    ground (arith, unique-snoc fs f, member-snoc g f fs, eq_iff f g, eq_iff g f)

pub member-all :
    (q : String → Bool) (f : String) (fs : List String)
    → all q fs ≡ true
    → member f fs ≡ true
    → q f ≡ true
member-all q f [] h k = cc
member-all q f (g ∷ fs) h k = ground (arith, member-all q f fs, eq_iff g f)

known_have_range : all has_range known_features ≡ true
unfolding get
known_have_range = refl

-- A list of known names with property `q`, none twice, grows by a known name that it lacks.
grow :
    (q : String → Bool) (known result : List String) (mapped : String)
    → all q known ≡ true
    → (all q result && unique result) ≡ true
    → (member mapped known && not (member mapped result)) ≡ true
    → (all q (result ++ (mapped ∷ [])) && unique (result ++ (mapped ∷ []))) ≡ true
grow q known result mapped k h c =
    ground (arith, all-snoc q result mapped, unique-snoc result mapped, member-all q mapped known k)

add_feature-usable :
    (result : List String) (mapped : String)
    → usable result ≡ true
    → usable (add_feature result mapped) ≡ true
unfolding add_feature
add_feature-usable result mapped h =
    if_split (λ fs. usable fs ≡ true) (member mapped known_features && not (member mapped result))
      (result ++ (mapped ∷ [])) result
      (λ c. grow has_range known_features result mapped known_have_range h c) (λ _. h)

collect-usable :
    (result : List String) (names : List (Option String))
    → usable result ≡ true
    → usable (collect result names) ≡ true
unfolding collect
collect-usable result [] h = h
collect-usable result (none ∷ names) h = collect-usable result names h
collect-usable result (some name ∷ names) h =
    collect-usable (add_feature result (normalize_feature_name name)) names
      (add_feature-usable result (normalize_feature_name name) h)

table_usable : all (λ e. usable e.1 && not (is_empty e.1)) features_by_toy_type ≡ true
unfolding get
table_usable = refl

record IsGood (fs : List String) : Type 0 where
  good : (usable fs && not (is_empty fs)) ≡ true

if-IsGood : (b : Bool) (x y : List String) → IsGood x → IsGood y → IsGood (if b then x else y)
if-IsGood true x y h k = h
if-IsGood false x y h k = k

elim-IsGood :
    (o : Option (List String)) (x : List String)
    → ((fs : List String) → o ≡ some fs → IsGood fs)
    → IsGood x
    → IsGood (elim o [ some fs ↦ fs | none ↦ x ])
elim-IsGood none x h k = k
elim-IsGood (some fs) x h k = h fs refl

vibrate-IsGood : IsGood ("Vibrate" ∷ [])
unfolding get
vibrate-IsGood = record { good = refl }

dual-IsGood : IsGood ("Vibrate1" ∷ "Vibrate2" ∷ [])
unfolding get
dual-IsGood = record { good = refl }

solace-IsGood : IsGood ("Vibrate" ∷ "Thrusting" ∷ "Depth" ∷ [])
unfolding get
solace-IsGood = record { good = refl }

table-IsGood :
    (name : String) (fs : List String) → get name features_by_toy_type ≡ some fs → IsGood fs
table-IsGood name fs h = record {
  good = get-all (λ e. usable e && not (is_empty e)) name fs features_by_toy_type table_usable h;
}

default-IsGood : (toy_type : String) → IsGood (default_features_for_toy_type toy_type)
unfolding default_features_for_toy_type
default-IsGood toy_type = if-IsGood _ _ _ vibrate-IsGood (
    elim-IsGood _ _ (table-IsGood _) (
      elim-IsGood _ _ (table-IsGood _)
        (if-IsGood _ _ _ solace-IsGood (if-IsGood _ _ _ dual-IsGood vibrate-IsGood))))

filled-IsGood : (f : String) (fs : List String) → usable (f ∷ fs) ≡ true → IsGood (f ∷ fs)
filled-IsGood f fs h = record { good = ground arith }

choose-IsGood :
    (toy_type : String) (fs : List String) → usable fs ≡ true → IsGood (choose toy_type fs)
unfolding choose
choose-IsGood toy_type [] h = default-IsGood toy_type
choose-IsGood toy_type (f ∷ fs) h = if-IsGood _ _ _ dual-IsGood (filled-IsGood f fs h)

-- Whatever the API says of a toy, it has a feature, every feature has a range of levels, and none is
-- named twice.
pub features_for_toy-usable :
    (toy : Toy) → (usable (features_for_toy toy) ≡ true) × (is_empty (features_for_toy toy) ≡ false)
unfolding features_for_toy
features_for_toy-usable toy =
    let names = toy.full_function_names ++ toy.short_function_names in
    let good : IsGood (choose (type_name toy) (collect [] names)) =
      choose-IsGood (type_name toy) (collect [] names) (collect-usable [] names refl) in
    let both = good.good in (ground arith, ground arith)
