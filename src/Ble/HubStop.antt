-- ===== src/Ble/HubStop.antt =====
-- A stop of the hub, and every toy that it names.
use lovensepy.Base.{
  ℕ, String, ◌≡◌, refl, sym, ap, ◌∙◌, inl, inr, true, false, Option, none, some, List, [], ◌∷◌,
  arith, eq_iff, if◌then◌else◌, Bool-cases, ◌==◌, ==-self, ℕ_Eq, String_Eq, Pair_Eq, Codes_Eq,
  if_true, if_false,
}
use mathlib.Core.Path.{subst}
use lovensepy.Base.Dict.{get, get-put}
use lovensepy.Base.Result.{Result, ok}
use lovensepy.Toys.Features.{member}
use lovensepy.Ble.Wire.{uart_heads}
use lovensepy.Ble.Link.{Client, Radio, delivered, motor_toy_type_hint}
use lovensepy.Ble.Play.{stop_body}
use lovensepy.Ble.Clear.{last_number}
use lovensepy.Ble.Silence.{may_have}
use lovensepy.Ble.Registry.{Hub, ToyEntry}
use lovensepy.Ble.Hub.{Named, require_ids, on_entry, gather, for_ids, stop}
use lovensepy.Base.Text.{truthy}
use lovensepy.Ble.Halt.{Same, Ready, stop_body-Stopped, stop_body-Same}

hint_kept : (c c' : Client) → Same c c' → motor_toy_type_hint c' ≡ motor_toy_type_hint c
unfolding motor_toy_type_hint
hint_kept c c' s =
    ap (λ h. if truthy h then h else c'.last_adv_slug) s.hint
    ∙ ap (λ l. if truthy c.toy_type_hint then c.toy_type_hint else l) s.slug

-- A toy that is in reach and may have the feature; and one whose motor stands still besides.
pub record Within (id feature : String) (toys : Hub) : Type 0 where
  pub entry : ToyEntry
  pub listed : get id toys ≡ some entry
  pub ready : Ready entry.client
  pub motor : may_have (motor_toy_type_hint entry.client) feature ≡ true

pub record Rested (id feature head : String) (toys : Hub) : Type 0 where
  pub within : Within id feature toys
  pub at_zero : last_number head within.entry.client.sent ≡ 0

module _ (radios : String → Radio) (clear : (id : String) (n : ℕ) → radios id n ≡ delivered)
    (id feature head : String) (drives : get feature uart_heads ≡ some head) where
  -- The hub after the stop of one toy.
  abbrev step : String → Hub → Hub
  step j toys = (on_entry (stop_body (radios j)) j (get j toys) toys).1

  entry_other :
      (j : String) (o : Option ToyEntry) (toys : Hub)
      → (j == id) ≡ false
      → get id (on_entry (stop_body (radios j)) j o toys).1 ≡ get id toys
  entry_other j none toys n = refl
  entry_other j (some ent) toys n = get-put j id _ toys ∙ if_false (j == id) _ (get id toys) n

  step_other-Within :
      (j : String) (toys : Hub)
      → (j == id) ≡ false
      → Within id feature toys
      → Within id feature (step j toys)
  step_other-Within j toys n w = record {
    entry = w.entry;
    listed = entry_other j (get j toys) toys n ∙ w.listed;
    ready = w.ready;
    motor = w.motor;
  }

  -- The entry after its stop.
  abbrev halted : ToyEntry → ToyEntry
  halted ent = record ent { client = (stop_body (radios id) ent.client).1 }

  step_own :
      (toys : Hub) (w : Within id feature toys) → get id (step id toys) ≡ some (halted w.entry)
  step_own toys w =
      ap (λ o. get id (on_entry (stop_body (radios id)) id o toys).1) w.listed
      ∙ get-put id id (halted w.entry) toys
      ∙ if_true (id == id) (some (halted w.entry)) (get id toys) (==-self id)

  step_own-Rested : (toys : Hub) → Within id feature toys → Rested id feature head (step id toys)
  step_own-Rested toys w =
      let c : Client = w.entry.client in
      let s = stop_body-Stopped (radios id) (clear id) feature head c w.ready w.motor drives in
      let same =
        hint_kept c (stop_body (radios id) c).1 (stop_body-Same (radios id) (clear id) c w.ready) in
      record {
        within = record {
          entry = halted w.entry;
          listed = step_own toys w;
          ready = s.ready;
          motor = ap (λ h. may_have h feature) same ∙ w.motor;
        };
        at_zero = s.at_zero;
      }

  own-Rested :
      (j : String) (toys : Hub)
      → (j == id) ≡ true
      → Within id feature toys
      → Rested id feature head (step j toys)
  own-Rested j toys e w =
      subst (λ i. Rested id feature head (step i toys)) (sym ((eq_iff j id).0 e))
        (step_own-Rested toys w)

  -- The toys that follow leave it at rest.
  gather_keeps :
      (ids : List String) (toys : Hub)
      → Rested id feature head toys
      → Rested id feature head (gather (λ j. stop_body (radios j)) ids toys).1
  unfolding gather step_other-Within
  gather_keeps [] toys r = r
  gather_keeps (j ∷ ids) toys r = elim (Bool-cases (j == id)) [
    | inl e ↦ gather_keeps ids (step j toys) (own-Rested j toys e r.within)
    | inr n ↦
        gather_keeps ids (step j toys)
          (record { within = step_other-Within j toys n r.within; at_zero = r.at_zero })
  ]

  gather-Rested :
      (ids : List String) (toys : Hub)
      → member id ids ≡ true
      → Within id feature toys
      → Rested id feature head (gather (λ j. stop_body (radios j)) ids toys).1
  unfolding gather
  gather-Rested [] toys m w = absurd (ground arith)
  gather-Rested (j ∷ ids) toys m w = elim (Bool-cases (j == id)) [
    | inl e ↦ gather_keeps ids (step j toys) (own-Rested j toys e w)
    | inr n ↦ gather-Rested ids (step j toys) (ground arith) (step_other-Within j toys n w)
  ]

-- A hub whose radios let every write through. After a stop that names a toy, alone, among others or as
-- one of all, the last level written under the head of any feature that the toy may have is 0, where
-- the toy is connected and its client makes at least one attempt at a write; the other toys that the
-- stop names may be in any state.
pub stop-Rested :
    (radios : String → Radio) (names : Named) (ids : List String) (id feature head : String)
    (toys : Hub)
    → ((id : String) (n : ℕ) → radios id n ≡ delivered)
    → get feature uart_heads ≡ some head
    → require_ids names toys ≡ ok ids
    → member id ids ≡ true
    → Within id feature toys
    → Rested id feature head (stop radios names toys).1
unfolding stop
stop-Rested radios names ids id feature head toys clear drives r m w =
    subst
      (λ (x : Result (List String)).
        Rested id feature head (for_ids (λ j. stop_body (radios j)) x toys).1)
      (sym r) (gather-Rested radios clear id feature head drives ids toys m w)
