-- ===== src/Ble/Replaced.antt =====
-- A toy that is registered anew while it is connected.
use lovensepy.Base.{
  ℕ, String, ◌≡◌, refl, sym, ap, ◌∙◌, true, not, Option, none, some, List, [], ◌∷◌, is_some, ◌==◌,
  ==-self, ℕ_Eq, String_Eq, Pair_Eq, Codes_Eq, if_true, if_false,
}
use mathlib.Core.Path.{subst}
use lovensepy.Base.Dict.{get, pop, get-pop}
use lovensepy.Base.Result.{Result, ok, err, ble_error}
use lovensepy.Base.Text.{truthy, strip}
use lovensepy.Ble.Link.{Radio}
use lovensepy.Ble.Registry.{Hub, ToyEntry, add_toy, register, new_entry}
use lovensepy.Ble.Hub.{one, require_ids, known_ids, for_ids, stop}
use lovensepy.Ble.Play.{stop_body}

-- A stop of a toy that is not registered.
unknown_stop :
    (radios : String → Radio) (id : String) (toys : Hub)
    → get id toys ≡ none
    → stop radios (one id) toys ≡ (err ble_error, toys)
unfolding stop require_ids known_ids
unknown_stop radios id [] h = refl
unknown_stop radios id (e ∷ toys) h =
    ap (λ (x : Result (List String)). for_ids (λ j. stop_body (radios j)) x (e ∷ toys))
      (if_false (is_some (get id (e ∷ toys))) (ok (id ∷ [])) (err ble_error) (ap is_some h))

-- The registry without the toy, and the exception.
refused :
    (toy_id : String) (toy_type name : Option String) (attempts : ℕ) (ent : ToyEntry) (toys : Hub)
    → truthy (some (strip toy_id)) ≡ true
    → get (strip toy_id) toys ≡ some ent
    → ent.client.is_connected ≡ true
    → add_toy toy_id toy_type name true attempts toys ≡ (err ble_error, pop (strip toy_id) toys)
unfolding add_toy
refused toy_id toy_type name attempts ent toys t g c =
    let tid = strip toy_id in
    let fresh = new_entry tid toy_type name attempts in
    if_false (not (truthy (some tid))) _ _ (ap not t)
    ∙ ap (λ o. register tid true fresh o toys) g
    ∙ if_true ent.client.is_connected (err ble_error, pop tid toys) _ c

-- Registering a connected toy anew, with leave to replace it, raises a BLE error, and then a stop of
-- the toy raises one too and leaves the hub as it is: the toy is no longer registered.
pub add_toy-stop :
    (radios : String → Radio) (toy_id : String) (toy_type name : Option String) (attempts : ℕ)
    (ent : ToyEntry) (toys : Hub)
    → truthy (some (strip toy_id)) ≡ true
    → get (strip toy_id) toys ≡ some ent
    → ent.client.is_connected ≡ true
    → ((add_toy toy_id toy_type name true attempts toys).0 ≡ err ble_error)
      × (stop radios (one (strip toy_id)) (add_toy toy_id toy_type name true attempts toys).1
          ≡ (err ble_error, (add_toy toy_id toy_type name true attempts toys).1))
add_toy-stop radios toy_id toy_type name attempts ent toys t g c =
    let tid = strip toy_id in
    let gone : get tid (pop tid toys) ≡ none =
      get-pop tid tid toys ∙ if_true (tid == tid) none (get tid toys) (==-self tid) in
    subst
      (λ (r : Result (Unit {0}) × Hub).
        (r.0 ≡ err ble_error) × (stop radios (one tid) r.1 ≡ (err ble_error, r.1)))
      (sym (refused toy_id toy_type name attempts ent toys t g c))
      (refl, unknown_stop radios tid (pop tid toys) gone)
