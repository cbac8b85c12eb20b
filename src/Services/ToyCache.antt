-- ===== src/Services/ToyCache.antt =====
-- lovensepy/services/http_api/toy_cache.py: the toy list that readers share for a while. The backend
-- is a parameter: how the n-th listing ends, a snapshot or the text of an error. Times are in
-- thousandths of a second.
use lovensepy.Base.{
  ℕ, suc, ◌+◌, String, Bool, not, ◌&&◌, Option, none, some, leb, if◌then◌else◌, is_some, ℕ_Eq,
  String_Eq, Pair_Eq, Codes_Eq,
}

pub record ToyCache (V : Type 0) : Type 0 where
  pub ttl : ℕ
  pub value : Option V
  pub fetched : ℕ
  pub error : Option String
  pub asked : ℕ

pub data Listing (V : Type 0) : Type 0 where
  listed : V → Listing V
  failed : String → Listing V

module _ {V : Type 0} (listing : ℕ → Listing V) (no_toys : V) where
  unfoldable pub invalidate : ToyCache V → ToyCache V
  invalidate c = record c { value = none; fetched = 0 }

  unfoldable pub fresh : ℕ → ToyCache V → Bool
  fresh now c = is_some c.value && leb now (c.fetched + c.ttl)

  -- dict(self._value or {})
  abbrev pub shown : ToyCache V → V
  shown c = elim c.value [ none ↦ no_toys | some v ↦ v ]

  abbrev pub take_listing : Listing V → ToyCache V → ToyCache V
  take_listing (listed v) c = record c { value = some v; error = none }
  take_listing (failed e) c = record c { value = some (shown c); error = some e }

  -- Under the lock, at `now` when it is taken and at `later` when the backend has answered.
  unfoldable pub fetch : Bool → ℕ → ℕ → ToyCache V → V × ToyCache V
  fetch force now later c =
      let c' = record (take_listing (listing c.asked) c) { fetched = later; asked = suc c.asked } in
      if not force && fresh now c then (shown c, c) else (shown c', c')

  -- A reader that looks at `first`, and takes the lock at `now` if it must.
  unfoldable pub read : Bool → ℕ → ℕ → ℕ → ToyCache V → V × ToyCache V
  read force first now later c =
      let fetched = fetch force now later c in
      if not force && fresh first c then (shown c, c) else fetched
