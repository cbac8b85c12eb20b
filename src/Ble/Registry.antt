-- ===== src/Ble/Registry.antt =====
-- lovensepy/ble_direct/hub.py: the entries of `BleDirectHub` and how a toy is registered.
use lovensepy.Base.{
  ℕ, max, String, Bool, true, false, not, ◌&&◌, Option, none, some, List, [], leb, nat_eq,
  if◌then◌else◌, ℕ_Eq, String_Eq, Pair_Eq, Codes_Eq,
}
use text.Mathlib.Text.{starts_with}
use lovensepy.Base.Dict.{Dict, get, put, pop}
use lovensepy.Base.Result.{Result, ok, err, value_error, ble_error}
use lovensepy.Base.Text.{truthy, strip, lower, drop_chars, before, push, or_empty}
use lovensepy.Base.Int.{pos}
use lovensepy.Ble.Link.{Client}
use Prim.Native.Char.{Char, code}

-- `_ToyEntry`
pub record ToyEntry : Type 0 where
  pub client : Client
  pub display_name : String
  pub toy_type_slug : Option String
  pub firmware : Option String
  pub model_letter : Option String
  pub suggested_features : List String
  pub battery_percent : Option ℕ

abbrev pub Hub : Type 0
Hub = Dict String ToyEntry

-- re.sub(r"\d+$", "", s)
drop_digit : Char → String → String
drop_digit c String.[] = if leb 48 (code c) && leb (code c) 57 then "" else push c ""
drop_digit c (String.◌∷◌ d s) = push c (push d s)

unfoldable pub drop_revision : String → String
unfolding drop_digit
drop_revision String.[] = ""
drop_revision (String.◌∷◌ c s) = drop_digit c (drop_revision s)

-- s.split(":", 1)[-1]
unfoldable pub after_colon : String → String → String
after_colon whole String.[] = whole
after_colon whole (String.◌∷◌ c s) = if nat_eq (code c) 58 then s else after_colon whole s

-- s or None
abbrev pub or_none : String → Option String
or_none s = if truthy (some s) then some s else none

unfoldable pub slug_from_adv_name : Option String → Option String
slug_from_adv_name name =
    let low = lower (strip (or_empty name)) in
    if not (truthy name)
    then none
    else if starts_with low "lvs-"
    then or_none (strip (drop_revision (before 58 (before 45 (drop_chars 4 low)))))
    else or_none (strip (drop_revision (strip (after_colon low low))))

-- `BleDirectClient` with its defaults
unfoldable pub new_client : Option String → Option String → ℕ → Client
new_client toy_type advertised_name attempts = record {
  toy_type_hint = toy_type;
  last_adv_slug = slug_from_adv_name advertised_name;
  prime_peer_zero = true;
  prime_delay = pos 45;
  gatt_write_max_attempts = max 1 attempts;
  is_connected = false;
  last_vibrate_sig = none;
  dual_vibrate_levels = (0, 0);
  dual_last_nonzero_motor = none;
  sent = [];
  tried = 0;
}

abbrev pub new_entry : String → Option String → Option String → ℕ → ToyEntry
new_entry tid toy_type name attempts =
    let raw_name = strip (or_empty name) in
    let advertised = if starts_with (lower raw_name) "lvs-" then some raw_name else none in
    record {
      client = new_client toy_type advertised attempts;
      display_name = if truthy (some raw_name) then raw_name else tid;
      toy_type_slug = toy_type;
      firmware = none;
      model_letter = none;
      suggested_features = [];
      battery_percent = none;
    }

-- The entry that stands under the id decides.
abbrev pub register : String → Bool → ToyEntry → Option ToyEntry → Hub → Result (Unit {0}) × Hub
register tid replace ent none toys = (ok tt, put tid ent toys)
register tid replace ent (some old) toys =
    if not replace
    then (err value_error, toys)
    else if old.client.is_connected
    then (err ble_error, pop tid toys)
    else (ok tt, put tid ent (pop tid toys))

unfoldable pub add_toy :
    String → Option String → Option String → Bool → ℕ → Hub → Result (Unit {0}) × Hub
add_toy toy_id toy_type name replace attempts toys =
    let tid = strip toy_id in
    if not (truthy (some tid))
    then (err value_error, toys)
    else register tid replace (new_entry tid toy_type name attempts) (get tid toys) toys
