-- ===== src/Services/Composite.antt =====
-- lovensepy/services/http_api/multi_backend.py: one backend made of several, by name. A backend is a
-- parameter: it answers each request with a value or an exception. The options that are handed through
-- as they are stand in the request.
use lovensepy.Base.{
  String, Bool, false, Option, none, some, List, [], ◌∷◌, ◌++◌, if◌then◌else◌, ℕ_Eq, String_Eq,
  Pair_Eq, Codes_Eq,
}
use lovensepy.Base.Dict.{Dict, get, put}
use lovensepy.Base.Result.{Result, ok, err, value_error}
use lovensepy.Base.Text.{truthy}

-- A toy of a listing: its id, and the rest of the row.
pub record Toy {ℓ} (T : Type ℓ) : Type ℓ where
  pub id : Option String
  pub model_dump : T

-- `toy_id`: every toy, or those named.
abbrev pub Target : Type 0
Target = Option (List String)

-- `LovenseControlBackend`. A function request is of type F, a pattern of type P, a preset of type N.
pub record Backend (F P N R T : Type 0) : Type 0 where
  pub function_request : F → Target → Result R
  pub stop : Target → Result R
  pub pattern_request : P → Target → Result R
  pub preset_request : N → Target → Result R
  pub get_toys : Bool → Result (List (Toy T))

abbrev pub or_nothing : Option (List String) → List String
or_nothing none = []
or_nothing (some vs) = vs

-- d.setdefault(k, []).append(v)
unfoldable pub append_to : String → String → Dict String (List String) → Dict String (List String)
append_to k v d = put k (or_nothing (get k d) ++ (v ∷ [])) d

-- The replies by name, without those that are exceptions.
unfoldable pub gathered : {R : Type 0} → Dict String (Result R) → Dict String R
gathered [] = []
gathered ((name, ok r) ∷ replies) = (name, r) ∷ gathered replies
gathered ((name, err _) ∷ replies) = gathered replies

-- A toy without an id is passed over.
unfoldable pub index_toy :
    String → Option String → Dict String (List String) → Dict String (List String)
index_toy name none index = index
index_toy name (some id) index = if truthy (some id) then append_to id name index else index

-- The toys of one backend.
unfoldable pub index_toys :
    {T : Type 0} → String → List (Toy T) → Dict String (List String) → Dict String (List String)
index_toys name [] index = index
index_toys name (toy ∷ toys) index = index_toys name toys (index_toy name toy.id index)

unfoldable pub index_listing :
    {T : Type 0}
    → String
    → Result (List (Toy T))
    → Dict String (List String)
    → Dict String (List String)
index_listing name (err _) index = index
index_listing name (ok toys) index = index_toys name toys index

-- for backend_name in toy_to_backends.get(tid, [])
unfoldable pub use_all :
    String → List String → Dict String (List String) → Dict String (List String)
use_all tid [] used = used
use_all tid (name ∷ names) used = use_all tid names (append_to name tid used)

unfoldable pub used_by :
    Dict String (List String) → List String → Dict String (List String) → Dict String (List String)
used_by index [] used = used
used_by index (tid ∷ toy_ids) used =
    used_by index toy_ids (use_all tid (or_nothing (get tid index)) used)

-- str(toy.id)
abbrev pub id_text : Option String → String
id_text none = "None"
id_text (some id) = id

-- A toy that several backends list is the last one's.
unfoldable pub toy_rows : {T : Type 0} → List (Toy T) → Dict String T → Dict String T
toy_rows [] rows = rows
toy_rows (toy ∷ toys) rows = toy_rows toys (put (id_text toy.id) toy.model_dump rows)

module _ {F P N R T : Type 0} where
  -- The owners of each toy.
  unfoldable pub get_toys_index :
      Dict String (Backend F P N R T) → Dict String (List String) → Dict String (List String)
  get_toys_index [] index = index
  get_toys_index ((name, backend) ∷ backends) index =
      get_toys_index backends (index_listing name (backend.get_toys false) index)

  -- Which backend gets which ids.
  unfoldable pub used : Dict String (Backend F P N R T) → List String → Dict String (List String)
  used backends toy_ids = used_by (get_toys_index backends []) toy_ids []

  -- Every backend, and those that are used with their ids; the names in `used` are those of backends.
  unfoldable pub ask_every :
      (Backend F P N R T → Target → Result R)
      → Dict String (Backend F P N R T)
      → Dict String (Result R)
  ask_every call [] = []
  ask_every call ((name, backend) ∷ backends) = (name, call backend none) ∷ ask_every call backends

  unfoldable pub ask_used :
      (Backend F P N R T → Target → Result R)
      → Dict String (Backend F P N R T)
      → Dict String (List String)
      → Dict String (Result R)
  ask_used call backends [] = []
  ask_used call backends ((name, ids) ∷ used) = elim (get name backends) [
    | none ↦ ask_used call backends used
    | some backend ↦ (name, call backend (some ids)) ∷ ask_used call backends used
  ]

  -- What `function_request`, `stop`, `pattern_request` and `preset_request` have in common.
  unfoldable pub answer_used :
      (Backend F P N R T → Target → Result R)
      → Dict String (Backend F P N R T)
      → Dict String (List String)
      → Result (Dict String R)
  answer_used call backends [] = err value_error
  answer_used call backends (u ∷ us) = ok (gathered (ask_used call backends (u ∷ us)))

  unfoldable pub request :
      (Backend F P N R T → Target → Result R)
      → Dict String (Backend F P N R T)
      → Target
      → Result (Dict String R)
  request call backends none = ok (gathered (ask_every call backends))
  request call backends (some toy_ids) = answer_used call backends (used backends toy_ids)

  unfoldable pub function_request :
      Dict String (Backend F P N R T) → F → Target → Result (Dict String R)
  function_request backends f = request (λ b. b.function_request f) backends

  unfoldable pub stop : Dict String (Backend F P N R T) → Target → Result (Dict String R)
  stop backends = request (λ b. b.stop) backends

  unfoldable pub pattern_request :
      Dict String (Backend F P N R T) → P → Target → Result (Dict String R)
  pattern_request backends p = request (λ b. b.pattern_request p) backends

  unfoldable pub preset_request :
      Dict String (Backend F P N R T) → N → Target → Result (Dict String R)
  preset_request backends n = request (λ b. b.preset_request n) backends

  unfoldable pub get_toys : Dict String (Backend F P N R T) → Bool → Dict String T → Dict String T
  get_toys [] query_battery rows = rows
  get_toys ((_, backend) ∷ backends) query_battery rows =
      get_toys backends query_battery
        (elim (backend.get_toys query_battery) [ err _ ↦ rows | ok toys ↦ toy_rows toys rows ])
