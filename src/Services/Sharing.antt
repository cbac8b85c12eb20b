-- ===== src/Services/Sharing.antt =====
-- What the readers of the cache share.
use lovensepy.Base.{
  ℕ, suc, ◌+◌, String, ◌≡◌, refl, ap, ◌∙◌, Bool, true, false, not, ◌&&◌, none, some, arith, leb,
  is_some, ℕ_Eq, String_Eq, Pair_Eq, Codes_Eq, if_split, if_true,
}
use lovensepy.Services.ToyCache.{
  ToyCache, Listing, listed, failed, fresh, shown, take_listing, fetch, read,
}

both : {a b : Bool} → a ≡ true → b ≡ true → (a && b) ≡ true
both h k = ground arith

valued : (force v f : Bool) → (not force && (v && f)) ≡ true → v ≡ true
valued force v f h = ground arith

module _ {V : Type 0} (listing : ℕ → Listing V) (no_toys : V) where
  -- A reader at this time gets this answer, and nothing changes.
  abbrev Answers : ℕ → ℕ → ℕ → V × ToyCache V → Type 0
  Answers first now later r =
      leb first (r.1.fetched + r.1.ttl) ≡ true → read listing no_toys false first now later r.1 ≡ r

  answers :
      (first now later : ℕ) (c : ToyCache V)
      → is_some c.value ≡ true
      → Answers first now later (shown listing no_toys c, c)
  unfolding read fresh
  answers first now later c s l =
      if_true (is_some c.value && leb first (c.fetched + c.ttl)) _ _ (both s l)

  taken_is_some :
      (l : Listing V) (c : ToyCache V) → is_some (take_listing listing no_toys l c).value ≡ true
  taken_is_some (listed v) c = refl
  taken_is_some (failed e) c = refl

  fetch-Answers :
      (force : Bool) (now later first' now' later' : ℕ) (c : ToyCache V)
      → Answers first' now' later' (fetch listing no_toys force now later c)
  unfolding fetch fresh
  fetch-Answers force now later first' now' later' c =
      let c' : ToyCache V = record (take_listing listing no_toys (listing c.asked) c) {
        fetched = later;
        asked = suc c.asked;
      } in
      if_split (Answers first' now' later') (not force && fresh listing no_toys now c) _ _
        (λ f. answers first' now' later' c (valued force (is_some c.value) _ f))
        (λ _. answers first' now' later' c' (taken_is_some (listing c.asked) c))

  -- After any reader has been served, a reader who does not force it and looks at the cache before its
  -- time is over gets the same answer, and leaves the cache as it is: the backend is not asked, whether
  -- the listing came from it or from a failure.
  pub read-read :
      (force : Bool) (first now later first' now' later' : ℕ) (c : ToyCache V)
      → leb first' (
          (read listing no_toys force first now later c).1.fetched
          + (read listing no_toys force first now later c).1.ttl)
        ≡ true
      → read listing no_toys false first' now' later'
          (read listing no_toys force first now later c).1
        ≡ read listing no_toys force first now later c
  unfolding read fresh
  read-read force first now later first' now' later' c =
      if_split (Answers first' now' later') (not force && fresh listing no_toys first c) _ _
        (λ f. answers first' now' later' c (valued force (is_some c.value) _ f))
        (λ _. fetch-Answers force now later first' now' later' c)

  -- The last good listing is shown while the backend fails.
  abbrev Kept : V → V × ToyCache V → Type 0
  Kept v r = (r.0 ≡ v) × (r.1.value ≡ some v)

  taken_kept :
      (l : Listing V) (e : String) (v : V) (c : ToyCache V)
      → l ≡ failed e
      → c.value ≡ some v
      → (take_listing listing no_toys l c).value ≡ some v
  taken_kept l e v c f h =
      ap (λ x. (take_listing listing no_toys x c).value) f
      ∙ ap (λ o. some (elim o [ none ↦ no_toys | some u ↦ u ])) h

  shown_at : (v : V) (c : ToyCache V) → c.value ≡ some v → Kept v (shown listing no_toys c, c)
  shown_at v c h = (ap (λ o. elim o [ none ↦ no_toys | some u ↦ u ]) h, h)

  fetch-Kept :
      (force : Bool) (now later : ℕ) (e : String) (v : V) (c : ToyCache V)
      → c.value ≡ some v
      → listing c.asked ≡ failed e
      → Kept v (fetch listing no_toys force now later c)
  unfolding fetch
  fetch-Kept force now later e v c h f =
      let c' : ToyCache V = record (take_listing listing no_toys (listing c.asked) c) {
        fetched = later;
        asked = suc c.asked;
      } in
      if_split (Kept v) (not force && fresh listing no_toys now c) _ _ (λ _. shown_at v c h)
        (λ _. shown_at v c' (taken_kept (listing c.asked) e v c f h))

  -- While the backend's next listing would fail, a reader of a cache that holds a listing gets this
  -- listing, forced or not, and the cache still holds it.
  pub read-Kept :
      (force : Bool) (first now later : ℕ) (e : String) (v : V) (c : ToyCache V)
      → c.value ≡ some v
      → listing c.asked ≡ failed e
      → Kept v (read listing no_toys force first now later c)
  unfolding read
  read-Kept force first now later e v c h f =
      if_split (Kept v) (not force && fresh listing no_toys first c) _ _ (λ _. shown_at v c h)
        (λ _. fetch-Kept force now later e v c h f)
