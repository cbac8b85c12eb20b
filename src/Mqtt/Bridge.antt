-- ===== src/Mqtt/Bridge.antt =====
-- lovensepy/integrations/mqtt/ha_bridge.py and state.py: the state of HAMqttBridge, what it publishes and
-- the announcements. A message or a call to the control client is an entry of a log, the last one first.
use lovensepy.Base.{
  String, Bool, true, false, not, ◌||◌, Option, none, some, List, [], ◌∷◌, map, nat_eq,
  if◌then◌else◌, ◌==◌, ℕ_Eq, String_Eq, Pair_Eq, Codes_Eq,
}
use lovensepy.Base.Dict.{Dict, get, put}
use lovensepy.Base.Int.{ℤ, pos, negsuc}
use lovensepy.Base.Text.{concat}
use lovensepy.Services.Snapshot.{Json, Fields, text, value_at}
use lovensepy.Toys.Features.{features_for_toy, member}
use lovensepy.Mqtt.Topics.{
  trim, mqtt_safe_toy_id, slash, state_topic, toy_availability_topic, bridge_status_topic,
  discovery_topic, feature_topic_segment,
}
use lovensepy.Mqtt.Payloads.{Python, str, toy_of, set_field}
use lovensepy.Mqtt.Discovery.{re_safe_prefix, discovery_object_id, build_discovery_payloads}

-- The text of a state: a decimal number is kept as the number.
pub data Value : Type 0 where
  level : ℤ → Value
  word : String → Value

abbrev pub int_eq : ℤ → ℤ → Bool
int_eq (pos m) (pos n) = nat_eq m n
int_eq (pos m) (negsuc n) = false
int_eq (negsuc m) (pos n) = false
int_eq (negsuc m) (negsuc n) = nat_eq m n

unfoldable pub value_eq : Value → Value → Bool
value_eq (level m) (level n) = int_eq m n
value_eq (level m) (word t) = false
value_eq (word s) (level n) = false
value_eq (word s) (word t) = s == t

pub data Payload : Type 0 where
  shows : Value → Payload
  document : Json → Payload
  online offline nothing : Payload

pub record Message : Type 0 where
  pub topic : String
  pub payload : Payload
  pub retain : Bool

-- A request to the control client.
pub data Call : Type 0 where
  stop_call : String → Call
  preset_call : String → String → Call
  function_call : Dict String ℤ → String → Call

pub record Bridge : Type 0 where
  pub prefix : String
  pub running : Bool
  pub mqtt : Bool
  pub control : Bool
  pub deduper : Dict String Value
  pub toys : Dict String Fields
  pub published_discovery : List String
  pub initialized : List String
  pub feature_levels : Dict String (Dict String ℤ)
  pub inventory_ready : Bool
  pub cleared : List String
  pub sent : List Message
  pub calls : List Call

unfoldable pub same_as : Option Value → Value → Bool
unfolding value_eq
same_as none v = false
same_as (some w) v = value_eq w v

-- The answer of StateDeduper.should_publish; a true one is recorded.
unfoldable pub should_publish : String → Value → Dict String Value → Bool
unfolding same_as get
should_publish key payload d = not (same_as (get key d) payload)

unfoldable pub send : String → Payload → Bool → Bridge → Bridge
send topic payload retain b = record b {
  sent = record { topic = topic; payload = payload; retain = retain } ∷ b.sent;
}

-- f"{self._topic_prefix}/{safe_id}/{feature_segment}/state"
unfoldable pub state_key : Bridge → String → String → String
state_key b safe segment = slash b.prefix (slash safe (slash segment "state"))

-- The test of `_publish_state_str`, and the publishing behind it.
unfoldable pub publish_checked : Bool → String → String → Value → Bool → Bridge → Bridge
unfolding send state_topic
publish_checked true safe segment v retain b =
    send (state_topic b.prefix safe segment) (shows v) retain b
publish_checked false safe segment v retain b = b

unfoldable pub remembered : String → Value → Bridge → Bridge
unfolding put
remembered key v b = record b { deduper = put key v b.deduper }

unfoldable pub publish_state_str : String → String → Value → Bool → Bool → Bridge → Bridge
unfolding publish_checked remembered should_publish state_key
publish_state_str safe segment v force retain b =
    let key = state_key b safe segment in
    if not b.mqtt
    then b
    else if force
    then publish_checked true safe segment v retain b
    else if should_publish key v b.deduper
    then publish_checked true safe segment v retain (remembered key v b)
    else b

unfoldable pub publish_toy_availability : String → Bool → Bridge → Bridge
unfolding send toy_availability_topic
publish_toy_availability safe connected b =
    if b.mqtt
    then send (toy_availability_topic b.prefix safe) (if connected then online else offline) true b
    else b

-- toy["status"] = "0"
unfoldable pub off_status : Fields → Fields
unfolding set_field
off_status toy = set_field "status" (text "0") toy

unfoldable pub put_status : String → Option Fields → Dict String Fields → Dict String Fields
unfolding put off_status
put_status safe none toys = toys
put_status safe (some toy) toys = put safe (off_status toy) toys

unfoldable pub mark_toy_disconnected : String → Bridge → Bridge
unfolding get put_status publish_toy_availability
mark_toy_disconnected safe b =
    publish_toy_availability safe false
      (record b { toys = put_status safe (get safe b.toys) b.toys })

-- The kinds of entity with their components, in the order of the deletions.
unfoldable pub stale_kinds : List (String × String)
unfolding feature_topic_segment
stale_kinds =
    ("button", "stop")
    ∷ ("select", "preset")
    ∷ ("sensor", "battery")
    ∷ map (λ action. ("number", concat "num_" (feature_topic_segment action)))
        ("All" ∷ "Depth" ∷ "Fingering" ∷ "Oscillate" ∷ "Pump" ∷ "Rotate" ∷ "Stroke" ∷ "Suction"
          ∷ "Thrusting" ∷ "Vibrate" ∷ "Vibrate1" ∷ "Vibrate2" ∷ "Vibrate3" ∷ [])

-- s.discard(k)
unfoldable pub discard : String → List String → List String
discard k [] = []
discard k (j ∷ js) = let rest = discard k js in if j == k then rest else j ∷ rest

unfoldable pub delete_kinds : String → String → List (String × String) → Bridge → Bridge
unfolding discovery_object_id discovery_topic send discard
delete_kinds oid_prefix safe [] b = b
delete_kinds oid_prefix safe ((component, kind) ∷ kinds) b =
    let topic = discovery_topic component (discovery_object_id oid_prefix safe kind) in
    let b' = send topic nothing true b in
    delete_kinds oid_prefix safe kinds
      (record b' { published_discovery = discard topic b'.published_discovery })

unfoldable pub clear_discovery_for_stale_safe_id : String → Bridge → Bridge
unfolding delete_kinds stale_kinds re_safe_prefix trim
clear_discovery_for_stale_safe_id safe b =
    if not b.mqtt || safe == "" || member safe b.cleared
    then b
    else delete_kinds (re_safe_prefix (trim 47 b.prefix)) safe stale_kinds
        (record b { cleared = safe ∷ b.cleared })

-- dict.setdefault(k, {})
abbrev pub or_no_levels : Option (Dict String ℤ) → Dict String ℤ
or_no_levels none = []
or_no_levels (some levels) = levels

unfoldable pub levels_of : String → Bridge → Dict String ℤ
unfolding get
levels_of safe b = or_no_levels (get safe b.feature_levels)

-- levels[action] = v, in the toy's levels
unfoldable pub set_level : String → String → ℤ → Bridge → Bridge
unfolding levels_of put
set_level safe action v b = record b {
  feature_levels = put safe (put action v (levels_of safe b)) b.feature_levels;
}

-- The loop that sets every feature to 0 and says so.
unfoldable pub show_zeros : String → List String → Bridge → Bridge
unfolding set_level publish_state_str feature_topic_segment
show_zeros safe [] b = b
show_zeros safe (action ∷ actions) b = show_zeros safe actions (
    publish_state_str safe (feature_topic_segment action) (level (pos 0)) true false
      (set_level safe action (pos 0) b))

unfoldable pub announce_entry : String → Json → Bridge → Bridge
unfolding send
announce_entry topic config b =
    if member topic b.published_discovery
    then b
    else send topic (document config) true
        (record b { published_discovery = topic ∷ b.published_discovery })

unfoldable pub announce : List (String × Json) → Bridge → Bridge
unfolding announce_entry
announce [] b = b
announce ((topic, config) ∷ entries) b = announce entries (announce_entry topic config b)

-- levels = self._feature_levels.setdefault(safe, {}), then the zeros
unfoldable pub start_levels : String → List String → Bridge → Bridge
unfolding levels_of put show_zeros
start_levels safe actions b =
    show_zeros safe actions
      (record b { feature_levels = put safe (levels_of safe b) b.feature_levels })

-- The part of `_publish_discovery_unlocked` for one toy.
unfoldable pub announce_toy : Python → Fields → Bridge → Bridge
unfolding announce build_discovery_payloads bridge_status_topic str value_at mqtt_safe_toy_id
    start_levels features_for_toy toy_of
announce_toy p toy b =
    let b' =
      announce (build_discovery_payloads p b.prefix toy (bridge_status_topic b.prefix) true) b in
    let safe = mqtt_safe_toy_id (str p (value_at "id" toy)) in
    if member safe b'.initialized
    then b'
    else start_levels safe (features_for_toy (toy_of toy))
        (record b' { initialized = safe ∷ b'.initialized })

unfoldable pub announce_toys : Python → Dict String Fields → Bridge → Bridge
unfolding announce_toy
announce_toys p [] b = b
announce_toys p ((safe, toy) ∷ toys) b = announce_toys p toys (announce_toy p toy b)

unfoldable pub publish_discovery_unlocked : Python → Bridge → Bridge
unfolding announce_toys
publish_discovery_unlocked p b = if b.mqtt then announce_toys p b.toys b else b
