-- ===== src/Mqtt/Events.antt =====
-- lovensepy/integrations/mqtt/ha_bridge.py: the events of the Lovense app, the refresh of the toy list,
-- the broker's connection, and the stop of the bridge.
use lovensepy.Base.{
  ℕ, String, Bool, true, false, not, ◌&&◌, ◌||◌, Option, none, some, List, [], ◌∷◌, if◌then◌else◌,
  ◌==◌, ℕ_Eq, String_Eq, Pair_Eq, Codes_Eq,
}
use lovensepy.Base.Dict.{Dict, get, put}
use lovensepy.Base.Int.{ℤ, pos}
use lovensepy.Base.Text.{strip}
use lovensepy.Services.Snapshot.{Json, Fields, no_fields, field, object, text, value_at, truth}
use lovensepy.Toys.Features.{features_for_toy, member}
use lovensepy.Mqtt.Topics.{mqtt_safe_toy_id, feature_topic_segment, bridge_status_topic}
use lovensepy.Mqtt.Payloads.{
  Python, str, id_of, event_id, toy_of, set_field, normalize_toy_dict_from_event,
  parse_toy_list_data, battery_from_payload, toy_connected_from_dict,
}
use lovensepy.Mqtt.Strength.{clamp_feature, strength_from_payload}
use lovensepy.Mqtt.Bridge.{
  Bridge, level, online, offline, send, publish_toy_availability, publish_state_str,
  publish_discovery_unlocked, set_level, off_status,
}

unfoldable pub put_toy : String → Fields → Bridge → Bridge
unfolding put
put_toy safe toy b = record b { toys = put safe toy b.toys }

-- One round of the first loop over a toy list.
unfoldable pub take_toy : Python → Fields → Bridge → Bridge
unfolding id_of mqtt_safe_toy_id put_toy normalize_toy_dict_from_event publish_toy_availability
    toy_connected_from_dict
take_toy p t b =
    let tid = id_of p t in
    let merged = normalize_toy_dict_from_event t in
    if tid == ""
    then b
    else publish_toy_availability (mqtt_safe_toy_id tid) (toy_connected_from_dict p merged)
        (put_toy (mqtt_safe_toy_id tid) merged b)

unfoldable pub take_toys : Python → List Fields → Bridge → Bridge
unfolding take_toy
take_toys p [] b = b
take_toys p (t ∷ ts) b = take_toys p ts (take_toy p t b)

unfoldable pub show_battery : String → Option ℕ → Bool → Bridge → Bridge
unfolding publish_state_str
show_battery safe none force b = b
show_battery safe (some v) force b = publish_state_str safe "battery" (level (pos v)) force true b

-- The second loop over a toy list.
unfoldable pub show_batteries : Python → List Fields → Bridge → Bridge
unfolding show_battery id_of mqtt_safe_toy_id battery_from_payload
show_batteries p [] b = b
show_batteries p (t ∷ ts) b =
    let tid = id_of p t in
    show_batteries p ts (
      if tid == ""
      then b
      else show_battery (mqtt_safe_toy_id tid) (battery_from_payload p (object t)) true b)

unfoldable pub toy_list_event : Python → Json → Bridge → Bridge
unfolding parse_toy_list_data take_toys publish_discovery_unlocked show_batteries
toy_list_event p body b =
    let toys = parse_toy_list_data body in
    show_batteries p toys (publish_discovery_unlocked p (take_toys p toys b))

unfoldable pub battery_changed_event : Python → Fields → Bridge → Bridge
unfolding event_id mqtt_safe_toy_id show_battery battery_from_payload
battery_changed_event p d b =
    let tid = event_id p d in
    if tid == ""
    then b
    else show_battery (mqtt_safe_toy_id tid) (battery_from_payload p (object d)) true b

unfoldable pub show_strength : String → String → ℕ → Bridge → Bridge
unfolding set_level publish_state_str clamp_feature feature_topic_segment
show_strength safe action raw b =
    let v = clamp_feature action (pos raw) in
    publish_state_str safe (feature_topic_segment action) (level v) false false
      (set_level safe action v b)

unfoldable pub show_strengths : String → List String → Dict String ℕ → Bridge → Bridge
unfolding show_strength
show_strengths safe supported [] b = b
show_strengths safe supported ((action, raw) ∷ strengths) b =
    show_strengths safe supported strengths
      (if member action supported then show_strength safe action raw b else b)

-- self._toys.get(safe) or {"id": tid}
unfoldable pub toy_or_id : String → Option Fields → Fields
toy_or_id tid none = field "id" (text tid) no_fields
toy_or_id tid (some no_fields) = field "id" (text tid) no_fields
toy_or_id tid (some (field k v fs)) = field k v fs

unfoldable pub strength_changed_event : Python → Fields → Bridge → Bridge
unfolding event_id mqtt_safe_toy_id strength_from_payload show_strengths features_for_toy toy_of
    toy_or_id get
strength_changed_event p d b =
    let tid = event_id p d in
    let safe = mqtt_safe_toy_id tid in
    if tid == ""
    then b
    else show_strengths safe (features_for_toy (toy_of (toy_or_id tid (get safe b.toys))))
        (strength_from_payload p d tid) b

-- An event with a payload that is no object does nothing, unless it is a toy list.
unfoldable pub object_event : Python → String → Json → Bridge → Bridge
unfolding battery_changed_event strength_changed_event
object_event p event_type (object d) b =
    if event_type == "battery-changed"
    then battery_changed_event p d b
    else if event_type == "function-strength-changed"
    then strength_changed_event p d b
    else b
object_event p event_type _ b = b

unfoldable pub handle_toy_event : Python → String → Json → Bridge → Bridge
unfolding toy_list_event object_event
handle_toy_event p event_type body b =
    if event_type == "toy-list" then toy_list_event p body b else object_event p event_type body b

-- A row of GetToys: the dump of the model, and its `battery`.
pub record Row : Type 0 where
  pub dump : Fields
  pub battery : Option ℤ

is_blank : Python → Json → Bool
unfolding truth str strip
is_blank p v = not (truth v) || strip (str p v) == ""

typed : Json → Fields → Fields
unfolding set_field strip
typed (text ty) d = if strip ty == "" then d else set_field "toyType" (text ty) d
typed _ d = d

unfoldable pub normalize_toy_row_from_get_toys : Python → Fields → Fields
unfolding is_blank typed value_at
normalize_toy_row_from_get_toys p d =
    if is_blank p (value_at "toyType" d) then typed (value_at "type" d) d else d

unfoldable pub show_row_battery : Python → String → Option ℤ → Fields → Bridge → Bridge
unfolding publish_state_str show_battery battery_from_payload
show_row_battery p safe (some v) d b = publish_state_str safe "battery" (level v) false true b
show_row_battery p safe none d b = show_battery safe (battery_from_payload p (object d)) false b

-- The safe id of a row, none where the row has no id.
unfoldable pub row_safe_id : Python → Row → Option String
unfolding normalize_toy_row_from_get_toys id_of mqtt_safe_toy_id
row_safe_id p row =
    let tid = id_of p (normalize_toy_row_from_get_toys p row.dump) in
    if tid == "" then none else some (mqtt_safe_toy_id tid)

unfoldable pub take_row_at : Python → Row → Option String → Bridge → Bridge
unfolding put_toy publish_toy_availability toy_connected_from_dict show_row_battery
    normalize_toy_row_from_get_toys
take_row_at p row none b = b
take_row_at p row (some safe) b =
    let d = normalize_toy_row_from_get_toys p row.dump in
    show_row_battery p safe row.battery d
      (publish_toy_availability safe (toy_connected_from_dict p d) (put_toy safe d b))

unfoldable pub take_rows : Python → List Row → Bridge → Bridge
unfolding take_row_at row_safe_id
take_rows p [] b = b
take_rows p (row ∷ rows) b = take_rows p rows (take_row_at p row (row_safe_id p row) b)

unfoldable pub seen_with : Option String → List String → List String
seen_with none seen = seen
seen_with (some safe) seen = safe ∷ seen

unfoldable pub seen_ids : Python → List Row → List String
unfolding seen_with row_safe_id
seen_ids p [] = []
seen_ids p (row ∷ rows) = seen_with (row_safe_id p row) (seen_ids p rows)

-- The loop over the toys that the snapshot lacks.
unfoldable pub drop_unseen : List String → Dict String Fields → Bridge → Bridge
unfolding publish_toy_availability put_toy off_status
drop_unseen seen [] b = b
drop_unseen seen ((safe, toy) ∷ toys) b = drop_unseen seen toys (
    if member safe seen
    then b
    else put_toy safe (off_status toy) (publish_toy_availability safe false b))

unfoldable pub refreshed : Python → List Row → Bridge → Bridge
unfolding take_rows drop_unseen seen_ids publish_discovery_unlocked
refreshed p rows b =
    let b' = take_rows p rows b in
    let b'' = drop_unseen (seen_ids p rows) b'.toys b' in
    publish_discovery_unlocked p (record b'' { inventory_ready = true })

-- What follows the answer of GetToys: the guard is not tested again. The call has failed, or its answer
-- has no data: `none`.
unfoldable pub toys_answered : Python → Option (List Row) → Bridge → Bridge
unfolding refreshed
toys_answered p none b = b
toys_answered p (some rows) b = refreshed p rows b

-- The guard of `_refresh_toys_and_discovery`: whether GetToys is called. Its answer is a step of its own.
unfoldable pub refresh_asks : Bridge → Bool
refresh_asks b = b.control && b.mqtt

-- The callback is handed its client. Without the subscription; the refresh that it schedules is a step of
-- its own.
unfoldable pub on_connect : Bool → Bridge → Bridge
unfolding send bridge_status_topic
on_connect failed b = if failed then b else send (bridge_status_topic b.prefix) online true b

unfoldable pub all_offline : Dict String Fields → Bridge → Bridge
unfolding publish_toy_availability
all_offline [] b = b
all_offline ((safe, toy) ∷ toys) b = all_offline toys (publish_toy_availability safe false b)

unfoldable pub farewell : Bridge → Bridge
unfolding all_offline send bridge_status_topic
farewell b =
    if b.mqtt then send (bridge_status_topic b.prefix) offline true (all_offline b.toys b) else b

unfoldable pub stop : Bridge → Bridge
unfolding farewell
stop b = record (farewell b) {
  running = false;
  mqtt = false;
  control = false;
  deduper = [];
  feature_levels = [];
  inventory_ready = false;
  cleared = [];
}
