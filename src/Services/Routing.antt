-- ===== src/Services/Routing.antt =====
-- To whom a request for named toys goes.
use lovensepy.Base.{
  String, Bool, false, ◌&&◌, ◌||◌, Option, none, some, List, [], ◌∷◌, ◌==◌, ℕ_Eq, String_Eq,
  Pair_Eq, Codes_Eq,
}
use mathlib.Core.Path.{subst}
use mathlib.Core.Path.{subst}
use lovensepy.Base.Dict.{Dict, get}
use lovensepy.Base.Result.{Result, ok, err}
use lovensepy.Base.Text.{truthy}
use lovensepy.Services.Composite.{Toy, Backend, or_nothing}

-- The list that stands at a key.
abbrev pub at_key : String → Dict String (List String) → List String
at_key k d = or_nothing (get k d)

-- The id is this one, and one of the toys has it.
abbrev pub is_id : String → Option String → Bool
is_id tid none = false
is_id tid (some id) = truthy (some id) && id == tid

abbrev pub has : {T : Type 0} → String → List (Toy T) → Bool
has tid [] = false
has tid (toy ∷ toys) = is_id tid toy.id || has tid toys

-- This listing makes x an owner of the toy.
abbrev pub owns : {T : Type 0} → String → String → String → Result (List (Toy T)) → Bool
owns x tid name (err _) = false
owns x tid name (ok toys) = has tid toys && name == x

module _ {F P N R T : Type 0} where
  -- A backend of this name lists the toy.
  abbrev pub lists : String → String → Dict String (Backend F P N R T) → Bool
  lists x tid [] = false
  lists x tid ((name, backend) ∷ backends) =
      owns x tid name (backend.get_toys false) || lists x tid backends
