-- ===== src/Mqtt/Tests.antt =====
-- Tests of the bridge, and its theorems at concrete inputs.
use lovensepy.Base.{
  ℕ, zero, suc, ◌+◌, ◌-◌, ◌*◌, ◌/◌, ◌%◌, ◌^◌, ◌≤◌, ◌<◌, min, max, String, ◌≡◌, refl, sym, ap, ◌∙◌,
  ◌≢◌, ◌↔◌, ◌⊎◌, inl, inr, Bool, true, false, not, ◌&&◌, ◌||◌, Option, none, some, List, [], ◌∷◌,
  ◌++◌, map, arith, eq_iff, ltb, leb, nat_eq, if◌then◌else◌, ltb→lt, lt→ltb, leb→le, le→leb,
  nat_eq_iff, Bool-cases, Option-cases, is_some, length, take, drop, all, any, length-append, All,
  All-append, HasSame, ◌==◌, ==-self, ℕ_Eq, String_Eq, Pair_Eq, Codes_Eq, pair_eq_iff, codes_eq_iff,
  tests, if_split, if_true, if_false,
}
use lovensepy.Base.Dict.{Dict, get}
use lovensepy.Base.Int.{pos}
use lovensepy.Base.Text.{strip}
use lovensepy.Services.Snapshot.{Fields, null, text, number, object, no_fields, field, value_at}
use lovensepy.Toys.Features.{features_for_toy, member}
use lovensepy.Mqtt.Topics.{
  trim, mqtt_safe_toy_id, command_parts, command_topic, state_topic, feature_topic_segment,
  topic_segment_to_action_name,
}
use lovensepy.Mqtt.Payloads.{Python, toy_of, battery_from_payload, parse_toy_list_data}
use lovensepy.Mqtt.Strength.{clamp_feature, thousandths, strength_from_payload}
use lovensepy.Mqtt.Discovery.{range_or_default, discovery_object_id, Shared, number_entity}
use lovensepy.Mqtt.Bridge.{Bridge, level, stop_call, shows, function_call, levels_of}
use lovensepy.Mqtt.Commands.{
  done, not_connected, merged_actions, or_zero, unquote, handle_command_topic,
}
use lovensepy.Mqtt.Events.{show_strength, stop}
use lovensepy.Mqtt.Levels.{level_of}
use lovensepy.Mqtt.Parts.{command_parts-advertised}
use lovensepy.Mqtt.Applied.{handle_command_topic-applies}
use lovensepy.Mqtt.Refused.{handle_command_topic-refused}
use lovensepy.Mqtt.Silent.{last_on, zero_shown, handle_command_topic-stops}
use lovensepy.Mqtt.Stopped.{message, toys_return, call_returns, run, stop-silent}
use lovensepy.Mqtt.Events.{Row}
use lovensepy.Mqtt.Commands.{stop_job}
use lovensepy.Mqtt.Bounds.{Announced, clamp_feature-Announced}
use lovensepy.Mqtt.Overlap.{overlapping, overlapping-undoes}
use lovensepy.Mqtt.Stale.{show_strength-stale}

abbrev python : Python
python = record {
  int_of_text = λ s. if s == "5" then some (pos 5) else if s == "50" then some (pos 50) else none;
  str_of = λ v. "";
}

abbrev nora : Fields
nora = field "id" (text "ab1") (field "toyType" (text "nora") no_fields)

abbrev house : Bridge
house = record {
  prefix = "home";
  running = true;
  mqtt = true;
  control = true;
  deduper = [];
  toys = ("ab1", nora) ∷ [];
  published_discovery = [];
  initialized = [];
  feature_levels = ("ab1", ("Vibrate", pos 7) ∷ []) ∷ [];
  inventory_ready = true;
  cleared = [];
  sent = [];
  calls = [];
}

clean_id : mqtt_safe_toy_id " ab/1 #+c_ " ≡ "ab_1_c"
unfolding mqtt_safe_toy_id lovensepy.Mqtt.Topics.is_safe
clean_id = refl

no_id : mqtt_safe_toy_id "//" ≡ "toy"
unfolding mqtt_safe_toy_id lovensepy.Mqtt.Topics.is_safe
no_id = refl

quoted : unquote "'Pulse '" ≡ "Pulse"
unfolding unquote
quoted = refl

object_id : discovery_object_id "my home/x" "ab1" "stop" ≡ "my_home_x_ab1_stop"
unfolding discovery_object_id
object_id = refl

battery_nested :
    battery_from_payload python
      (object (field "data" (object (field "value" (number 130000) no_fields)) no_fields))
    ≡ some 100
unfolding battery_from_payload
battery_nested = refl

strengths_read :
    strength_from_payload python
      (field "toyId"
        (text "ab1")
        (field "function" (text "v2") (field "value" (number 4500) no_fields)))
      "ab1"
    ≡ (("V2", 4500) ∷ [])
unfolding strength_from_payload lovensepy.Base.Dict.put lovensepy.Base.Text.capitalize
strengths_read = refl

rotate_parts : command_parts "home" "home/ab1/rotate/set" ≡ some ("ab1", "rotate")
unfolding command_parts
rotate_parts = refl

vibrate_parts : command_parts "home" "home/ab1/vibrate/set" ≡ some ("ab1", "vibrate")
unfolding command_parts
vibrate_parts = refl

stop_parts : command_parts "home" "home/ab1/stop/set" ≡ some ("ab1", "stop")
unfolding command_parts
stop_parts = refl

there : get "ab1" house.toys ≡ some nora
unfolding get
there = refl

rotates : member "Rotate" (features_for_toy (toy_of nora)) ≡ true
unfolding features_for_toy toy_of lovensepy.Toys.Features.collect
    lovensepy.Toys.Features.default_features_for_toy_type lovensepy.Base.Text.lower strip get
    lovensepy.Toys.Features.drop_blanks
rotates = refl

vibrates : member "Vibrate" (features_for_toy (toy_of nora)) ≡ true
unfolding features_for_toy toy_of lovensepy.Toys.Features.collect
    lovensepy.Toys.Features.default_features_for_toy_type lovensepy.Base.Text.lower strip get
    lovensepy.Toys.Features.drop_blanks
vibrates = refl

rotate_named : topic_segment_to_action_name "rotate" ≡ some "Rotate"
unfolding topic_segment_to_action_name
rotate_named = refl

vibrate_named : topic_segment_to_action_name "vibrate" ≡ some "Vibrate"
unfolding topic_segment_to_action_name
vibrate_named = refl

counted : python.int_of_text (strip "50 ") ≡ some (pos 50)
unfolding strip
counted = refl

-- The toy's vibration stands at 7 and is kept, a rotation of 50 is 20.
turned :
    (handle_command_topic python "home/ab1/rotate/set" "50 " done house).calls
    ≡ (function_call (("Vibrate", pos 7) ∷ ("Rotate", pos 20) ∷ []) "ab1" ∷ [])
unfolding handle_command_topic lovensepy.Toys.Features.collect
    lovensepy.Toys.Features.default_features_for_toy_type lovensepy.Toys.Features.drop_blanks
turned = refl

handle_command_topic-applies_example :
    let v = clamp_feature "Rotate" (thousandths (pos 50)) in
    let merged =
      merged_actions "Rotate" v (levels_of "ab1" house) (features_for_toy (toy_of nora)) in
    let after = handle_command_topic python "home/ab1/rotate/set" "50 " done house in
    (after.calls ≡ (function_call merged "ab1" ∷ []))
    × (get "Vibrate" merged ≡ some (or_zero (level_of "ab1" "Vibrate" house)))
    × (level_of "ab1" "Vibrate" after ≡ get "Vibrate" merged)
    × (after.sent ≡ (
        record {
          topic = state_topic "home" "ab1" "rotate";
          payload = shows (level v);
          retain = false;
        }
        ∷ []))
unfolding value_at lovensepy.Mqtt.Payloads.str
handle_command_topic-applies_example =
    handle_command_topic-applies python house "home/ab1/rotate/set" "50 " "ab1" "rotate" "Rotate"
      "Vibrate" nora (pos 50) refl refl rotate_parts there rotate_named rotates counted vibrates

lost : not_connected ≢ done
lost h = cc

handle_command_topic-refused_example :
    level_of "ab1" "Vibrate"
      (handle_command_topic python "home/ab1/stop/set" "" not_connected house)
    ≡ level_of "ab1" "Vibrate" house
handle_command_topic-refused_example =
    handle_command_topic-refused python "home/ab1/stop/set" "" not_connected house "ab1" "Vibrate"
      lost

handle_command_topic-stops_example :
    let after = handle_command_topic python "home/ab1/stop/set" "PRESS" done house in
    (after.calls ≡ (stop_call (lovensepy.Mqtt.Payloads.str python (value_at "id" nora)) ∷ []))
    × (level_of "ab1" "Vibrate" after ≡ some (pos 0))
    × (last_on (state_topic "home" "ab1" (feature_topic_segment "Vibrate")) after.sent
        ≡ some zero_shown)
handle_command_topic-stops_example =
    handle_command_topic-stops python house "home/ab1/stop/set" "PRESS" "ab1" "Vibrate" nora refl
      refl stop_parts there vibrates

bare : trim 47 "home" ≡ "home"
unfolding trim
bare = refl

command_parts-advertised_example :
    (command_parts "home"
        (command_topic "home" (mqtt_safe_toy_id "AB:1") (feature_topic_segment "Rotate"))
      ≡ some (mqtt_safe_toy_id "AB:1", feature_topic_segment "Rotate"))
    × (topic_segment_to_action_name (feature_topic_segment "Rotate") ≡ some "Rotate")
command_parts-advertised_example = command_parts-advertised "home" "AB:1" "Rotate" bare refl

-- A row that GetToys answers after the stop.
abbrev late_row : Row
late_row = record { dump = nora; battery = some (pos 80) }

stop-silent_example :
    let es =
      message "home/ab1/stop/set" ""
      ∷ toys_return (some (late_row ∷ []))
      ∷ call_returns done (stop_job "ab1" nora)
      ∷ [] in
    ((run python es (stop house)).sent ≡ (stop house).sent)
    × ((run python es (stop house)).calls ≡ (stop house).calls)
stop-silent_example =
    stop-silent python
      (message "home/ab1/stop/set" ""
        ∷ toys_return (some (late_row ∷ []))
        ∷ call_returns done (stop_job "ab1" nora)
        ∷ [])
      house refl

-- What the entities of the toy share.
abbrev shared : Shared
shared = record { prefix = "home"; safe = "ab1"; device = null; availability = null }

-- Pump is announced from 0 to 3.
pump_two : Announced shared "Pump" 2
unfolding number_entity lovensepy.Mqtt.Discovery.number_config value_at range_or_default get
pump_two = (omega arith, omega arith)

clamp_feature-Announced_example :
    ((k : ℕ) × (clamp_feature "Pump" (pos 2600) ≡ pos k) × Announced shared "Pump" k)
    × (clamp_feature "Pump" (thousandths (pos 2)) ≡ pos 2)
unfolding get
clamp_feature-Announced_example = clamp_feature-Announced shared "Pump" (pos 2600) 2 refl pump_two

five : python.int_of_text (strip "5") ≡ some (pos 5)
unfolding strip
five = refl

overlapping-undoes_example :
    let v = clamp_feature "Vibrate" (thousandths (pos 5)) in
    let w = clamp_feature "Rotate" (thousandths (pos 50)) in
    let features = features_for_toy (toy_of nora) in
    let after = overlapping python "home/ab1/vibrate/set" "5" "home/ab1/rotate/set" "50 " house in
    (after.calls ≡ (
      function_call (merged_actions "Rotate" w (levels_of "ab1" house) features) "ab1"
      ∷ function_call (merged_actions "Vibrate" v (levels_of "ab1" house) features) "ab1"
      ∷ []))
    × (get "Vibrate" (merged_actions "Rotate" w (levels_of "ab1" house) features)
        ≡ some (or_zero (level_of "ab1" "Vibrate" house)))
    × (level_of "ab1" "Vibrate" after ≡ some (or_zero (level_of "ab1" "Vibrate" house)))
    × (after.sent ≡ (
        record {
          topic = state_topic "home" "ab1" "rotate";
          payload = shows (level w);
          retain = false;
        }
        ∷ record {
          topic = state_topic "home" "ab1" "vibrate";
          payload = shows (level v);
          retain = false;
        }
        ∷ []))
unfolding value_at lovensepy.Mqtt.Payloads.str
overlapping-undoes_example =
    overlapping-undoes python house "home/ab1/vibrate/set" "5" "home/ab1/rotate/set" "50 " "ab1"
      "vibrate" "rotate" "Vibrate" "Rotate" nora (pos 5) (pos 50) refl refl vibrate_parts
      rotate_parts there vibrate_named rotate_named vibrates rotates five counted refl

vibrate_segment : feature_topic_segment "Vibrate" ≡ "vibrate"
unfolding feature_topic_segment
vibrate_segment = refl

vibrate_at :
    command_parts "home" "home/ab1/vibrate/set" ≡ some ("ab1", feature_topic_segment "Vibrate")
unfolding command_parts feature_topic_segment
vibrate_at = refl

vibrate_back : topic_segment_to_action_name (feature_topic_segment "Vibrate") ≡ some "Vibrate"
unfolding topic_segment_to_action_name feature_topic_segment
vibrate_back = refl

show_strength-stale_example :
    let commanded =
      handle_command_topic python "home/ab1/vibrate/set" "5" done
        (show_strength "ab1" "Vibrate" 9000 house) in
    let after = show_strength "ab1" "Vibrate" 9000 commanded in
    (level_of "ab1" "Vibrate" after ≡ some (clamp_feature "Vibrate" (pos 9000)))
    × (last_on (state_topic "home" "ab1" (feature_topic_segment "Vibrate")) after.sent
        ≡ some (shows (level (clamp_feature "Vibrate" (thousandths (pos 5))))))
show_strength-stale_example =
    show_strength-stale python house "home/ab1/vibrate/set" "5" "ab1" "Vibrate" 9000 nora (pos 5)
      refl refl vibrate_at there vibrate_back vibrates five
