-- ===== src/Ble/Hub.antt =====
-- lovensepy/ble_direct/hub.py: the requests of `BleDirectHub`, which go to one toy or several, and what
-- it tells of its toys. `radios` gives each toy its radio. Toys that are asked together answer in the
-- order in which they are named.
use lovensepy.Base.{
  ℕ, String, Bool, true, false, not, ◌&&◌, ◌||◌, Option, none, some, List, [], ◌∷◌, map, ltb,
  nat_eq, if◌then◌else◌, is_some, length, ℕ_Eq, String_Eq, Pair_Eq, Codes_Eq,
}
use lovensepy.Base.Dict.{Dict, get, put}
use lovensepy.Base.Int.{ℤ}
use lovensepy.Base.Result.{◌>>=◌, Result, ok, err, ble_error, key_error}
use lovensepy.Base.Text.{strip}
use lovensepy.Ble.Wire.{Line}
use lovensepy.Ble.Link.{silence_all_motors, Radio, Action}
use lovensepy.Ble.Play.{
  endless, timed, preset_request, position_body, stop_body, function_body, Timing,
}
use lovensepy.Ble.Supervisor.{Row}
use Prim.Native.Char.{code}
use lovensepy.Ble.Registry.{ToyEntry, Hub}

-- `toy_id`: every toy, one, or several
pub data Named : Type 0 where
  every : Named
  one : String → Named
  several : List String → Named

unfoldable pub known_ids : Hub → List String → Result (List String)
known_ids toys [] = ok []
known_ids toys (t ∷ ts) =
    let rest : Result (List String) = known_ids toys ts >>= λ out. ok (t ∷ out) in
    if is_some (get t toys) then rest else err ble_error

unfoldable pub require_ids : Named → Hub → Result (List String)
require_ids names [] = err ble_error
require_ids every (toy ∷ toys) = ok (map (λ e. e.0) (toy ∷ toys))
require_ids (one id) (toy ∷ toys) = known_ids (toy ∷ toys) (id ∷ [])
require_ids (several ids) (toy ∷ toys) = known_ids (toy ∷ toys) ids

-- A method of one toy's client.
abbrev pub with_client : {A : Type 0} → Action A → ToyEntry → Result A × ToyEntry
with_client m ent = let (r, c) = m ent.client in (r, record ent { client = c })

abbrev pub on_entry : {A : Type 0} → Action A → String → Option ToyEntry → Hub → Result A × Hub
on_entry m id none toys = (err key_error, toys)
on_entry m id (some ent) toys = let (r, ent') = with_client m ent in (r, put id ent' toys)

-- The first exception is what is raised; the other calls run all the same.
abbrev pub also : {A : Type 0} → Result A → Result (List A) → Result (List A)
also (err e) rs = err e
also (ok a) (err e) = err e
also (ok a) (ok answers) = ok (a ∷ answers)

unfoldable pub gather :
    {A : Type 0} → (String → Action A) → List String → Hub → Result (List A) × Hub
gather f [] toys = (ok [], toys)
gather f (id ∷ ids) toys =
    let (r, toys') = on_entry (f id) id (get id toys) toys in
    let (rs, toys'') = gather f ids toys' in (also r rs, toys'')

abbrev pub for_ids :
    {A : Type 0} → (String → Action A) → Result (List String) → Hub → Result (List A) × Hub
for_ids f (err e) toys = (err e, toys)
for_ids f (ok ids) toys = gather f ids toys

unfoldable pub stop : (String → Radio) → Named → Hub → Result (List (List Line)) × Hub
stop radios names toys = for_ids (λ id. stop_body (radios id)) (require_ids names toys) toys

-- ent.toy_type_slug
abbrev pub slug_of : String → Hub → Option String
slug_of id toys = elim (get id toys) [ none ↦ none | some ent ↦ ent.toy_type_slug ]

abbrev pub if_all :
    {A B : Type 0} → Result (List A) × Hub → (Hub → Result (List B) × Hub) → Result (List B) × Hub
if_all (ok _, toys) next = next toys
if_all (err e, toys) next = (err e, toys)

-- `_coordinated`: one hold for all of the toys, and then a stop of each.
unfoldable pub held :
    (String → Radio) → Dict String ℤ → Bool → List String → Hub → Result (List (List Line)) × Hub
held radios actions stop_previous ids toys =
    let silenced =
      if stop_previous
      then gather (λ id. silence_all_motors (radios id) (slug_of id toys)) ids toys
      else (ok [], toys) in
    if_all silenced (λ toys'.
      if_all (gather (λ id. function_body (radios id) actions false endless) ids toys')
        (λ toys''. gather (λ id. stop_body (radios id)) ids toys''))

abbrev pub is_timed : Timing → Bool
is_timed timed = true
is_timed _ = false

-- A timed request for several toys is held together.
abbrev pub request_ids :
    (String → Radio)
    → Dict String ℤ
    → Bool
    → Timing
    → Result (List String)
    → Hub
    → Result (List (List Line)) × Hub
request_ids radios actions stop_previous timing (err e) toys = (err e, toys)
request_ids radios actions stop_previous timing (ok ids) toys =
    let each = gather (λ id. function_body (radios id) actions stop_previous timing) ids toys in
    if ltb 1 (length ids) && is_timed timing && not (is_some (get "Stop" actions))
    then held radios actions stop_previous ids toys
    else each

unfoldable pub function_request :
    (String → Radio) → Dict String ℤ → Bool → Timing → Named → Hub → Result (List (List Line)) × Hub
function_request radios actions stop_previous timing names toys =
    request_ids radios actions stop_previous timing (require_ids names toys) toys

unfoldable pub preset_all :
    (String → Radio)
    → (String → Option ℕ)
    → String
    → String
    → Bool
    → Named
    → Hub
    → Result (List (List Line)) × Hub
preset_all radios to_number keyword name holds names toys =
    for_ids (λ id. preset_request (radios id) to_number keyword name holds) (require_ids names toys)
      toys

unfoldable pub position_all : (String → Radio) → ℤ → Named → Hub → Result (List (List Line)) × Hub
position_all radios value names toys =
    for_ids (λ id. position_body (radios id) value) (require_ids names toys) toys

-- `fetch_battery_percent` is an argument: what it answers, and the client after it.
abbrev pub note_battery : Result ℕ → ToyEntry → ToyEntry
note_battery (ok battery) ent = record ent { battery_percent = some battery }
note_battery (err _) ent = ent

abbrev pub refreshed : Action ℕ → String → Option ToyEntry → Hub → Hub
refreshed fetch tid none toys = toys
refreshed fetch tid (some ent) toys =
    let (r, ent') = with_client fetch ent in
    if ent.client.is_connected then put tid (note_battery r ent') toys else toys

unfoldable pub refresh_battery : Action ℕ → String → Hub → Hub
refresh_battery fetch toy_id toys =
    let tid = strip toy_id in refreshed fetch tid (get tid toys) toys

-- sorted(self._toys)
unfoldable pub codes_le : String → String → Bool
codes_le String.[] t = true
codes_le (String.◌∷◌ c s) String.[] = false
codes_le (String.◌∷◌ c s) (String.◌∷◌ d t) =
    ltb (code c) (code d) || (nat_eq (code c) (code d) && codes_le s t)

unfoldable pub insert_row : Row → List Row → List Row
insert_row row [] = row ∷ []
insert_row row (r ∷ rows) =
    let rest = insert_row row rows in
    if codes_le row.toy_id r.toy_id then row ∷ r ∷ rows else r ∷ rest

-- What the supervisor reads of the rows.
unfoldable pub registry_rows : Hub → List Row
registry_rows [] = []
registry_rows ((id, ent) ∷ toys) =
    insert_row
      (record { toy_id = id; is_up = ent.client.is_connected; battery = ent.battery_percent })
      (registry_rows toys)
