-- ===== src/Mqtt/Topics.antt =====
-- lovensepy/integrations/mqtt/topics.py: the names of the topics, and the reading of a command topic in
-- ha_bridge.py.
use lovensepy.Base.{
  ℕ, String, Bool, false, not, ◌&&◌, ◌||◌, Option, none, some, List, [], ◌∷◌, map, leb, nat_eq,
  if◌then◌else◌, ◌==◌, ℕ_Eq, String_Eq, Pair_Eq, Codes_Eq,
}
use lovensepy.Base.Dict.{Dict, get}
use lovensepy.Base.Text.{concat, push, lower, strip, take_chars, split}
use Prim.Native.Char.{Char, char, code}

-- _SEGMENT_TO_ACTION
abbrev pub segment_to_action : Dict String String
segment_to_action =
    ("vibrate", "Vibrate")
    ∷ ("vibrate1", "Vibrate1")
    ∷ ("vibrate2", "Vibrate2")
    ∷ ("vibrate3", "Vibrate3")
    ∷ ("rotate", "Rotate")
    ∷ ("pump", "Pump")
    ∷ ("thrusting", "Thrusting")
    ∷ ("fingering", "Fingering")
    ∷ ("suction", "Suction")
    ∷ ("depth", "Depth")
    ∷ ("stroke", "Stroke")
    ∷ ("oscillate", "Oscillate")
    ∷ []

-- _ACTION_TO_SEGMENT
abbrev pub action_to_segment : Dict String String
action_to_segment = map (λ e. (e.1, e.0)) segment_to_action

-- [a-zA-Z0-9_-]
unfoldable pub is_safe : ℕ → Bool
is_safe n =
    (leb b'a' n && leb n b'z')
    || (leb b'A' n && leb n b'Z')
    || (leb b'0' n && leb n b'9')
    || nat_eq n 95
    || nat_eq n 45

abbrev pub underline : Char
underline = char 95 tt

-- re.sub(r"[^a-zA-Z0-9_-]+", "_", s); the flag says that the character before was replaced
unfoldable pub squash : Bool → String → String
squash run String.[] = ""
squash run (String.◌∷◌ c s) =
    let rest = squash (not (is_safe (code c))) s in
    if is_safe (code c) then push c rest else if run then rest else push underline rest

unfoldable pub trim_left : ℕ → String → String
trim_left n String.[] = ""
trim_left n (String.◌∷◌ c s) =
    let rest = trim_left n s in if nat_eq (code c) n then rest else push c s

unfoldable pub trim_push : ℕ → Char → String → String
trim_push n c String.[] = if nat_eq (code c) n then "" else push c ""
trim_push n c (String.◌∷◌ d s) = push c (push d s)

unfoldable pub trim_right : ℕ → String → String
unfolding trim_push
trim_right n String.[] = ""
trim_right n (String.◌∷◌ c s) = trim_push n c (trim_right n s)

-- s.strip(c) for one character
unfoldable pub trim : ℕ → String → String
unfolding trim_left trim_right
trim n s = trim_right n (trim_left n s)

-- s or "toy"
unfoldable pub or_toy : String → String
or_toy String.[] = "toy"
or_toy (String.◌∷◌ c s) = push c s

unfoldable pub mqtt_safe_toy_id : String → String
unfolding squash trim or_toy take_chars strip
mqtt_safe_toy_id toy_id = take_chars 64 (or_toy (trim 95 (squash false (strip toy_id))))

-- f"{a}/{b}"
abbrev pub slash : String → String → String
slash a b = concat a (concat "/" b)

unfoldable pub bridge_status_topic : String → String
unfolding trim
bridge_status_topic prefix = slash (trim 47 prefix) "bridge/status"

unfoldable pub toy_availability_topic : String → String → String
unfolding trim
toy_availability_topic prefix safe = slash (trim 47 prefix) (slash safe "device_availability")

unfoldable pub command_topic : String → String → String → String
unfolding trim
command_topic prefix safe segment = slash (trim 47 prefix) (slash safe (slash segment "set"))

unfoldable pub state_topic : String → String → String → String
unfolding trim
state_topic prefix safe segment = slash (trim 47 prefix) (slash safe (slash segment "state"))

unfoldable pub discovery_topic : String → String → String
discovery_topic component object_id =
    slash "homeassistant" (slash component (slash object_id "config"))

unfoldable pub subscribe_wildcard : String → String
unfolding trim
subscribe_wildcard prefix = slash (trim 47 prefix) "+/+/set"

unfoldable pub feature_topic_segment : String → String
unfolding get lower
feature_topic_segment action = elim (get action action_to_segment) [
  | some segment ↦ segment
  | none ↦ lower action
]

unfoldable pub topic_segment_to_action_name : String → Option String
unfolding get lower
topic_segment_to_action_name segment = get (lower segment) segment_to_action

-- topic[len(prefix):] where the topic starts with the prefix
unfoldable pub after_prefix : String → String → Option String
after_prefix String.[] t = some t
after_prefix (String.◌∷◌ c p) String.[] = none
after_prefix (String.◌∷◌ c p) (String.◌∷◌ d t) =
    let rest = after_prefix p t in if nat_eq (code c) (code d) then rest else none

three_parts : List String → Option (String × String)
three_parts (safe ∷ segment ∷ last ∷ []) = if last == "set" then some (safe, segment) else none
three_parts _ = none

parts_of : Option String → Option (String × String)
parts_of none = none
parts_of (some rest) = three_parts (split 47 rest)

-- The toy and the feature that a topic names, if it is a command topic.
unfoldable pub command_parts : String → String → Option (String × String)
unfolding after_prefix parts_of three_parts split
command_parts prefix topic = parts_of (after_prefix (concat prefix "/") topic)
