-- ===== src/Base/Dict.antt =====
-- Python's `dict`: an association list in insertion order. `put` overwrites in place or appends,
-- `pop` drops the key. The laws hold for every list; `Distinct` says that no key stands twice, which
-- is what iteration over the entries relies on.
use mathlib.Core.Path.{◌≡◌, refl, ap, ◌∙◌}
use mathlib.Core.Bool.{Bool, true, false}
use mathlib.Core.Option.{Option, none, some}
use mathlib.Core.List.{List, [], ◌∷◌}
use native.Mathlib.Omega.{arith}
use lovensepy.Base.Lists.{all}
use lovensepy.Base.Equality.{HasSame, ◌==◌}
use lovensepy.Base.Tests.{if◌then◌else◌, Bool-cases}
use mathlib.Core.Logic.{inl, inr}

abbrev pub Dict {ℓ κ} : Type ℓ → Type κ → Type (ℓ ⊔ κ)
Dict K V = List (K × V)

abbrev pub map_at {κ} : {V : Type κ} → (V → V) → Option V → Option V
map_at f none = none
map_at f (some v) = some (f v)

module _ {ℓ κ} {K : Type ℓ} {V : Type κ} ⦃e : HasSame K⦄ where
  -- d.get(k)
  unfoldable pub get : K → Dict K V → Option V
  get k [] = none
  get k ((j, v) ∷ d) = if j == k then some v else get k d

  -- d[k] = v
  unfoldable pub put : K → V → Dict K V → Dict K V
  put k v [] = (k, v) ∷ []
  put k v ((j, w) ∷ d) = if j == k then (j, v) ∷ d else (j, w) ∷ put k v d

  -- d.pop(k, None)
  unfoldable pub pop : K → Dict K V → Dict K V
  pop k [] = []
  pop k ((j, w) ∷ d) = let rest = pop k d in if j == k then rest else (j, w) ∷ rest

  -- [e for e in d.items() if p(e)]
  unfoldable pub keep : (K → V → Bool) → Dict K V → Dict K V
  keep p [] = []
  keep p ((j, w) ∷ d) = let rest = keep p d in if p j w then (j, w) ∷ rest else rest

  abbrev pub Distinct : Dict K V → Type κ
  Distinct [] = Unit
  Distinct ((k, v) ∷ d) = (get k d ≡ none) × Distinct d

  pub get-put :
      (k j : K) (v : V) (d : Dict K V) → get j (put k v d) ≡ (if k == j then some v else get j d)
  unfolding get put
  get-put k j v [] = refl
  get-put k j v ((i, w) ∷ d) =
      ground (arith, e.same_iff k j, e.same_iff i k, e.same_iff i j, get-put k j v d)

  pub get-pop : (k j : K) (d : Dict K V) → get j (pop k d) ≡ (if k == j then none else get j d)
  unfolding get pop
  get-pop k j [] = ground arith
  get-pop k j ((i, w) ∷ d) =
      ground (arith, e.same_iff k j, e.same_iff i k, e.same_iff i j, get-pop k j d)

  -- What `keep p` leaves of an entry.
  abbrev pub keep_at : (K → V → Bool) → K → Option V → Option V
  keep_at p k none = none
  keep_at p k (some v) = if p k v then some v else none

  keep-absent : (p : K → V → Bool) (k : K) (d : Dict K V) → get k d ≡ none → get k (keep p d) ≡ none
  unfolding get keep
  keep-absent p k [] h = refl
  keep-absent p k ((j, w) ∷ d) h = ground (arith, keep-absent p k d)

  pub get-keep :
      (p : K → V → Bool) (k : K) (d : Dict K V)
      → Distinct d
      → get k (keep p d) ≡ keep_at p k (get k d)
  unfolding get keep
  get-keep p k [] h = refl
  get-keep p k ((j, w) ∷ d) h =
      ground (arith, e.same_iff j k, get-keep p k d h.1, keep-absent p k d, h.0)

  put-absent :
      (k j : K) (v : V) (d : Dict K V)
      → (j == k) ≡ false
      → get j d ≡ none
      → get j (put k v d) ≡ none
  put-absent k j v d n h = ground (arith, get-put k j v d, e.same_iff k j, e.same_iff j k)

  pop-absent : (k j : K) (d : Dict K V) → get j d ≡ none → get j (pop k d) ≡ none
  pop-absent k j d h = ground (arith, get-pop k j d)

  pub put-Distinct : (k : K) (v : V) (d : Dict K V) → Distinct d → Distinct (put k v d)
  unfolding put
  put-Distinct k v [] h = (unfold get in refl, tt)
  put-Distinct k v ((j, w) ∷ d) h = ground (arith, put-Distinct k v d h.1, put-absent k j v d)

  pub pop-Distinct : (k : K) (d : Dict K V) → Distinct d → Distinct (pop k d)
  unfolding pop
  pop-Distinct k [] h = tt
  pop-Distinct k ((j, w) ∷ d) h = ground (arith, pop-Distinct k d h.1, pop-absent k j d h.0)

  pub keep-Distinct : (p : K → V → Bool) (d : Dict K V) → Distinct d → Distinct (keep p d)
  unfolding keep
  keep-Distinct p [] h = tt
  keep-Distinct p ((j, w) ∷ d) h = ground (arith, keep-Distinct p d h.1, keep-absent p j d h.0)

  -- for v in d.values(): v := f(v)
  unfoldable pub map_values : (V → V) → Dict K V → Dict K V
  map_values f [] = []
  map_values f ((j, w) ∷ d) = (j, f w) ∷ map_values f d

  pub get-map_values :
      (f : V → V) (k : K) (d : Dict K V) → get k (map_values f d) ≡ map_at f (get k d)
  unfolding get map_values
  get-map_values f k [] = refl
  get-map_values f k ((j, w) ∷ d) = ground (arith, get-map_values f k d)

  pub map_values-Distinct : (f : V → V) (d : Dict K V) → Distinct d → Distinct (map_values f d)
  unfolding map_values
  map_values-Distinct f [] h = tt
  map_values-Distinct f ((j, w) ∷ d) h =
      (ground (arith, get-map_values f j d, h.0), map_values-Distinct f d h.1)

  -- What holds of every value holds of the one found.
  pub get-all :
      (q : V → Bool) (k : K) (v : V) (d : Dict K V)
      → all (λ e. q e.1) d ≡ true
      → get k d ≡ some v
      → q v ≡ true
  unfolding get
  get-all q k v [] h g = ground arith
  get-all q k v ((j, w) ∷ d) h g = ground (arith, get-all q k v d)

  pub get-pop-some : (k j : K) (v : V) (d : Dict K V) → get j (pop k d) ≡ some v → get j d ≡ some v
  get-pop-some k j v d h = ground (arith, get-pop k j d)

  -- An overwritten entry that looks the same through `f` leaves every key looking the same.
  pub get-put-same {κ'} :
      {B : Type κ'} (f : Option V → B) (k j : K) (v : V) (d : Dict K V)
      → f (some v) ≡ f (get k d)
      → f (get j (put k v d)) ≡ f (get j d)
  get-put-same f k j v d h = elim (Bool-cases (k == j)) [
    | inl same ↦
        let at : get j (put k v d) ≡ some v = ground (arith, get-put k j v d) in
        let key : k ≡ j = (e.same_iff k j).0 same in ap f at ∙ h ∙ ap (λ i. f (get i d)) key
    | inr other ↦ let at : get j (put k v d) ≡ get j d = ground (arith, get-put k j v d) in ap f at
  ]
