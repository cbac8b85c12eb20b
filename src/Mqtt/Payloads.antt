-- ===== src/Mqtt/Payloads.antt =====
-- lovensepy/integrations/mqtt/ha_bridge.py: the readers of toy lists and of the events of the Lovense
-- app. A dictionary that stands for a toy is a JSON object.
use lovensepy.Base.{
  ℕ, zero, ◌/◌, min, String, Bool, true, false, not, ◌&&◌, ◌||◌, Option, none, some, List, [], ◌∷◌,
  map, if◌then◌else◌, ◌==◌, ℕ_Eq, String_Eq, Pair_Eq, Codes_Eq,
}
use lovensepy.Base.Int.{ℤ, pos, negsuc}
use lovensepy.Base.Text.{lower, strip}
use lovensepy.Services.Snapshot.{
  Json, Items, Fields, null, boolean, number, text, array, object, no_items, item, no_fields, field,
  value_at, truth,
}
use lovensepy.Toys.Features.{Toy, member}

-- What the readers take from Python: `int(float(s))`, none where that raises ValueError, and `str(v)` of
-- a value that is neither a text nor a Boolean nor None.
pub record Python : Type 0 where
  pub int_of_text : String → Option ℤ
  pub str_of : Json → String

unfoldable pub str : Python → Json → String
str p null = "None"
str p (boolean b) = if b then "True" else "False"
str p (text s) = s
str p (number n) = p.str_of (number n)
str p (array xs) = p.str_of (array xs)
str p (object fs) = p.str_of (object fs)

-- k in d
unfoldable pub has_key : String → Fields → Bool
has_key k no_fields = false
has_key k (field j v fs) = j == k || has_key k fs

-- d[k] = v
unfoldable pub set_field : String → Json → Fields → Fields
set_field k v no_fields = field k v no_fields
set_field k v (field j w fs) =
    let rest = set_field k v fs in if j == k then field j v fs else field j w rest

-- d.setdefault(k, v)
unfoldable pub set_default : String → Json → Fields → Fields
unfolding has_key set_field
set_default k v fs = if has_key k fs then fs else set_field k v fs

-- str(d.get("id") or "")
unfoldable pub id_of : Python → Fields → String
unfolding str value_at truth
id_of p d = let v = value_at "id" d in if truth v then str p v else ""

-- str(d.get("id") or d.get("toyId") or "")
unfoldable pub event_id : Python → Fields → String
unfolding str value_at truth
event_id p d =
    let v = value_at "id" d in
    let w = value_at "toyId" d in if truth v then str p v else if truth w then str p w else ""

text_or_none : Json → Option String
text_or_none (text s) = some s
text_or_none _ = none

names_in : Items → List (Option String)
names_in no_items = []
names_in (item v vs) = text_or_none v ∷ names_in vs

name_list : Json → List (Option String)
name_list (array vs) = names_in vs
name_list _ = []

-- What `features_for_toy` reads of a toy.
unfoldable pub toy_of : Fields → Toy
unfolding value_at text_or_none names_in name_list
toy_of d = record {
  toy_type = text_or_none (value_at "toyType" d);
  name = text_or_none (value_at "name" d);
  full_function_names = name_list (value_at "fullFunctionNames" d);
  short_function_names = name_list (value_at "shortFunctionNames" d);
}

renamed : String → String → Fields → Fields
unfolding has_key set_field value_at
renamed new old d =
    if not (has_key new d) && has_key old d then set_field new (value_at old d) d else d

unfoldable pub normalize_toy_dict_from_event : Fields → Fields
unfolding renamed
normalize_toy_dict_from_event toy = renamed "nickName" "nickname" (renamed "toyType" "type" toy)

is_object : Json → Bool
is_object (object _) = true
is_object _ = false

-- [t for t in raw if isinstance(t, dict)]
unfoldable pub objects_in : Items → List Fields
objects_in no_items = []
objects_in (item (object d) vs) = d ∷ objects_in vs
objects_in (item _ vs) = objects_in vs

-- The toys of a mapping from ids.
unfoldable pub objects_by_id : Fields → List Fields
unfolding set_default
objects_by_id no_fields = []
objects_by_id (field tid (object d) fs) = set_default "id" (text tid) d ∷ objects_by_id fs
objects_by_id (field tid _ fs) = objects_by_id fs

all_objects : Fields → Bool
unfolding is_object
all_objects no_fields = true
all_objects (field k v fs) = is_object v && all_objects fs

-- The flat mapping, an empty list for anything else.
flat : Fields → List Fields
unfolding all_objects objects_by_id
flat d = if all_objects d then objects_by_id d else []

from_toys : Fields → Json → List Fields
unfolding objects_in objects_by_id flat
from_toys d (array raw) = objects_in raw
from_toys d (object raw) = objects_by_id raw
from_toys d _ = flat d

from_toy_list : Fields → Json → List Fields
unfolding objects_in normalize_toy_dict_from_event from_toys value_at
from_toy_list d (array raw) = map normalize_toy_dict_from_event (objects_in raw)
from_toy_list d _ = from_toys d (value_at "toys" d)

unfoldable pub parse_toy_list_data : Json → List Fields
unfolding objects_in from_toy_list value_at
parse_toy_list_data (array raw) = objects_in raw
parse_toy_list_data (object d) = from_toy_list d (value_at "toyList" d)
parse_toy_list_data _ = []

-- max(0, min(100, value))
unfoldable pub percent : ℤ → ℕ
percent (pos n) = min 100 n
percent (negsuc n) = 0

unfoldable pub coerce_battery_percent : Python → Json → Option ℕ
unfolding percent strip
coerce_battery_percent p (number n) = some (percent (pos (n / 1000)))
coerce_battery_percent p (text s) =
    if strip s == ""
    then none
    else elim (p.int_of_text (strip s)) [ none ↦ none | some v ↦ some (percent v) ]
coerce_battery_percent p _ = none

abbrev pub battery_keys : List String
battery_keys =
    "battery" ∷ "batteryLevel" ∷ "batteryPercent" ∷ "battery_level" ∷ "level" ∷ "value" ∷ "percent"
    ∷ []

-- a if a is not None else b
abbrev pub or_else : Option ℕ → Option ℕ → Option ℕ
or_else none b = b
or_else (some v) b = some v

-- The loop over the keys. An absent key reads as null, which is no level.
unfoldable pub first_level : Python → List String → Fields → Option ℕ
unfolding coerce_battery_percent value_at
first_level p [] d = none
first_level p (k ∷ ks) d = or_else (coerce_battery_percent p (value_at k d)) (first_level p ks d)

-- The search goes on in the object under "data".
unfoldable mutual
  unfolding first_level

  pub battery_from_payload : Python → Json → Option ℕ
  battery_from_payload p (object d) =
      or_else (first_level p battery_keys d) (battery_under_data p d)
  battery_from_payload p _ = none

  pub battery_under_data : Python → Fields → Option ℕ
  battery_under_data p no_fields = none
  battery_under_data p (field k v fs) =
      let here = battery_from_payload p v in
      let rest = battery_under_data p fs in if k == "data" then here else rest

-- `_toy_connected_from_dict`
abbrev pub off_words : List String
off_words = "0" ∷ "false" ∷ "off" ∷ "disconnected" ∷ "no" ∷ "inactive" ∷ "unavailable" ∷ []

abbrev pub on_words : List String
on_words = "1" ∷ "true" ∷ "on" ∷ "connected" ∷ "yes" ∷ "active" ∷ "available" ∷ []

abbrev pub not_zero : Option ℤ → Bool
not_zero (some (pos zero)) = false
not_zero _ = true

unfoldable pub status_connected : Python → String → Bool
status_connected p s =
    if member s off_words
    then false
    else if member s on_words
    then true
    else not_zero (p.int_of_text s)

unfoldable pub connected_by : Python → Json → Bool
unfolding status_connected str lower strip
connected_by p null = true
connected_by p st = status_connected p (lower (strip (str p st)))

unfoldable pub toy_connected_from_dict : Python → Fields → Bool
unfolding connected_by value_at
toy_connected_from_dict p toy = connected_by p (value_at "status" toy)
