-- ===== src/Mqtt/Discovery.antt =====
-- lovensepy/integrations/mqtt/discovery.py: the documents that announce a toy. They are kept as JSON
-- values; their printing is json.dumps.
use lovensepy.Base.{
  ℕ, ◌*◌, String, Bool, true, ◌||◌, Option, none, some, List, [], ◌∷◌, ◌++◌, map, nat_eq,
  if◌then◌else◌, ◌==◌, ℕ_Eq, String_Eq, Pair_Eq, Codes_Eq,
}
use lovensepy.Base.Dict.{Dict, get}
use lovensepy.Base.Text.{concat, push}
use lovensepy.Services.Snapshot.{
  Json, Fields, boolean, number, text, array, no_items, item, value_at, truth, object_of,
}
use lovensepy.Toys.Constants.{function_ranges}
use lovensepy.Toys.Features.{features_for_toy}
use lovensepy.Mqtt.Topics.{
  trim, mqtt_safe_toy_id, command_topic, state_topic, toy_availability_topic, discovery_topic,
  feature_topic_segment,
}
use lovensepy.Mqtt.Payloads.{Python, str, id_of, toy_of}
use Prim.Native.Char.{code}

-- s.replace("/", "_").replace(" ", "_")
unfoldable pub underlined : String → String
underlined String.[] = ""
underlined (String.◌∷◌ c s) =
    let rest = underlined s in
    if nat_eq (code c) 47 || nat_eq (code c) 32 then concat "_" rest else push c rest

unfoldable pub re_safe_prefix : String → String
unfolding underlined trim
re_safe_prefix prefix = underlined (trim 47 prefix)

unfoldable pub discovery_object_id : String → String → String → String
unfolding re_safe_prefix
discovery_object_id prefix safe kind =
    concat (re_safe_prefix prefix) (concat "_" (concat safe (concat "_" kind)))

availability_entry : String → Json
availability_entry topic = object_of (
    ("topic", text topic)
    ∷ ("payload_available", text "online")
    ∷ ("payload_not_available", text "offline")
    ∷ [])

unfoldable pub ha_availability_entries : String → Option String → Json
unfolding availability_entry
ha_availability_entries bridge none = array (item (availability_entry bridge) no_items)
ha_availability_entries bridge (some toy) =
    array (item (availability_entry bridge) (item (availability_entry toy) no_items))

-- What the entities of one toy share.
pub record Shared : Type 0 where
  pub prefix : String
  pub safe : String
  pub device : Json
  pub availability : Json

-- v or w
abbrev pub or_json : Json → Json → Json
or_json v w = if truth v then v else w

-- The name of the model, left out where it is empty.
model_field : Json → Dict String Json
unfolding truth
model_field model = if truth model then ("model", model) ∷ [] else []

unfoldable pub device_of : Python → Fields → String → Json
unfolding str value_at truth model_field
device_of p d safe =
    let name =
      or_json (value_at "nickName" d)
        (or_json (value_at "name" d) (or_json (value_at "toyType" d) (value_at "id" d))) in
    let model = or_json (value_at "toyType" d) (or_json (value_at "name" d) (text "")) in
    object_of (
      ("identifiers", array (item (text (concat "lovensepy_" safe)) no_items))
      ∷ ("name", text (str p name))
      ∷ ("manufacturer", text "Lovense")
      ∷ model_field (text (str p model)))

unique_id : String → String → Json
unique_id safe kind = text (concat "lovensepy_" (concat safe (concat "_" kind)))

abbrev pub or_default : Option (ℕ × ℕ) → ℕ × ℕ
or_default none = (0, 20)
or_default (some range) = range

-- FUNCTION_RANGES.get(action, (0, 20))
unfoldable pub range_or_default : String → ℕ × ℕ
unfolding get
range_or_default action = or_default (get action function_ranges)

unfoldable pub number_config : Shared → String → String → Json
unfolding command_topic state_topic range_or_default unique_id
number_config s action segment = object_of (
    ("name", text action)
    ∷ ("command_topic", text (command_topic s.prefix s.safe segment))
    ∷ ("state_topic", text (state_topic s.prefix s.safe segment))
    ∷ ("min", number ((range_or_default action).0 * 1000))
    ∷ ("max", number ((range_or_default action).1 * 1000))
    ∷ ("step", number 1000)
    ∷ ("mode", text "box")
    ∷ ("availability", s.availability)
    ∷ ("unique_id", unique_id s.safe segment)
    ∷ ("device", s.device)
    ∷ [])

unfoldable pub stop_config : Shared → Json
unfolding command_topic unique_id
stop_config s = object_of (
    ("name", text "Stop")
    ∷ ("command_topic", text (command_topic s.prefix s.safe "stop"))
    ∷ ("payload_press", text "PRESS")
    ∷ ("availability", s.availability)
    ∷ ("unique_id", unique_id s.safe "stop")
    ∷ ("device", s.device)
    ∷ [])

unfoldable pub preset_config : Shared → Json
unfolding command_topic state_topic unique_id
preset_config s = object_of (
    ("name", text "Preset")
    ∷ ("command_topic", text (command_topic s.prefix s.safe "preset"))
    ∷ ("state_topic", text (state_topic s.prefix s.safe "preset"))
    ∷ (
      "options",
      array (
          item (text "pulse")
            (item (text "wave") (item (text "fireworks") (item (text "earthquake") no_items)))),
    )
    ∷ ("optimistic", boolean true)
    ∷ ("availability", s.availability)
    ∷ ("unique_id", unique_id s.safe "preset")
    ∷ ("device", s.device)
    ∷ [])

unfoldable pub battery_config : Shared → Json
unfolding state_topic unique_id
battery_config s = object_of (
    ("name", text "Battery")
    ∷ ("state_topic", text (state_topic s.prefix s.safe "battery"))
    ∷ ("unit_of_measurement", text "%")
    ∷ ("device_class", text "battery")
    ∷ ("state_class", text "measurement")
    ∷ ("availability", s.availability)
    ∷ ("unique_id", unique_id s.safe "battery")
    ∷ ("device", s.device)
    ∷ [])

unfoldable pub number_entity : Shared → String → String × Json
unfolding feature_topic_segment discovery_object_id discovery_topic number_config
number_entity s action =
    let segment = feature_topic_segment action in
    (
      discovery_topic "number" (discovery_object_id s.prefix s.safe (concat "num_" segment)),
      number_config s action segment,
    )

unfoldable pub entities : Shared → List String → List (String × Json)
unfolding number_entity discovery_object_id discovery_topic stop_config preset_config battery_config
entities s features =
    map (number_entity s) features
    ++ ((discovery_topic "button" (discovery_object_id s.prefix s.safe "stop"), stop_config s)
        ∷ (discovery_topic "select" (discovery_object_id s.prefix s.safe "preset"), preset_config s)
        ∷ (
          discovery_topic "sensor" (discovery_object_id s.prefix s.safe "battery"),
          battery_config s,
        )
        ∷ [])

-- The announcements of one toy: each is a topic and its document.
unfoldable pub build_discovery_payloads :
    Python → String → Fields → String → Bool → List (String × Json)
unfolding id_of mqtt_safe_toy_id toy_availability_topic ha_availability_entries device_of trim
    entities features_for_toy toy_of
build_discovery_payloads p prefix d bridge per_toy =
    let toy_id = id_of p d in
    let safe = mqtt_safe_toy_id toy_id in
    let shared : Shared = record {
      prefix = trim 47 prefix;
      safe = safe;
      device = device_of p d safe;
      availability =
          ha_availability_entries bridge
            (if per_toy then some (toy_availability_topic prefix safe) else none);
    } in
    if toy_id == "" then [] else entities shared (features_for_toy (toy_of d))
