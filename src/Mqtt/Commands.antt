-- ===== src/Mqtt/Commands.antt =====
-- lovensepy/integrations/mqtt/ha_bridge.py: `_handle_command_topic`. It is two steps, up to the call of
-- the control client and from its return on, so that other coroutines may run in between.
use lovensepy.Base.{
  ℕ, String, Bool, true, false, not, ◌&&◌, ◌||◌, Option, none, some, List, [], ◌∷◌, nat_eq,
  if◌then◌else◌, ◌==◌, ℕ_Eq, String_Eq, Pair_Eq, Codes_Eq,
}
use lovensepy.Base.Dict.{Dict, get, put}
use lovensepy.Base.Int.{ℤ, pos}
use lovensepy.Base.Text.{push, lower, strip}
use lovensepy.Services.Snapshot.{Fields, value_at}
use lovensepy.Toys.Features.{features_for_toy, member}
use lovensepy.Mqtt.Topics.{command_parts, topic_segment_to_action_name}
use lovensepy.Mqtt.Payloads.{Python, str, toy_of}
use lovensepy.Mqtt.Strength.{clamp_feature, thousandths}
use lovensepy.Mqtt.Bridge.{
  Bridge, Call, level, word, stop_call, preset_call, function_call, publish_toy_availability,
  publish_state_str, clear_discovery_for_stale_safe_id, levels_of, start_levels,
  mark_toy_disconnected,
}
use Prim.Native.Char.{code}

-- How a call to the control client ends: LovenseBLEError with "not connected" in its text, or any other
-- exception.
pub data Outcome : Type 0 where
  done not_connected failed : Outcome

-- What is left to do when the call returns.
pub data Job : Type 0 where
  stop_job : String → Fields → Job
  preset_job : String → Job
  function_job : String → String → ℤ → Dict String ℤ → Job

abbrev pub preset_values : List String
preset_values = "pulse" ∷ "wave" ∷ "fireworks" ∷ "earthquake" ∷ []

unfoldable pub ends_by : ℕ → String → Bool
ends_by n String.[] = false
ends_by n (String.◌∷◌ c s) = let rest = ends_by n s in if s == "" then nat_eq (code c) n else rest

unfoldable pub but_last : String → String
but_last String.[] = ""
but_last (String.◌∷◌ c s) = let rest = but_last s in if s == "" then "" else push c rest

-- A text in quotes, without them.
unfoldable pub unquote : String → String
unfolding ends_by but_last strip
unquote String.[] = ""
unquote (String.◌∷◌ c s) =
    if (nat_eq (code c) 39 || nat_eq (code c) 34) && ends_by (code c) s
    then strip (but_last s)
    else push c s

unfoldable pub log_call : Call → Bridge → Bridge
log_call c b = record b { calls = c ∷ b.calls }

unfoldable pub receive_preset : String → String → String → Bridge → Bridge × Option Job
unfolding unquote lower strip publish_state_str log_call
receive_preset safe toy_id payload b =
    let preset = lower (unquote (strip payload)) in
    if payload == "" || not (member preset preset_values) then (b, none) else (
      log_call (preset_call preset toy_id)
          (publish_state_str safe "preset" (word preset) true false b),
      some (preset_job safe),
    )

-- levels.get(action, 0)
abbrev pub or_zero : Option ℤ → ℤ
or_zero none = pos 0
or_zero (some v) = v

-- The levels of the toy's features as they stand.
unfoldable pub standing : Dict String ℤ → List String → Dict String ℤ
unfolding get
standing levels [] = []
standing levels (action ∷ actions) = (action, or_zero (get action levels)) ∷ standing levels actions

unfoldable pub merged_actions : String → ℤ → Dict String ℤ → List String → Dict String ℤ
unfolding standing put
merged_actions action v levels features = put action v (standing levels features)

unfoldable pub receive_level :
    String → String → String → Fields → String → ℤ → Bridge → Bridge × Option Job
unfolding merged_actions levels_of put log_call features_for_toy toy_of
receive_level safe segment toy_id toy action v b =
    let merged = merged_actions action v (levels_of safe b) (features_for_toy (toy_of toy)) in
    let b' = record b { feature_levels = put safe (levels_of safe b) b.feature_levels } in
    (log_call (function_call merged toy_id) b', some (function_job safe segment v merged))

unfoldable pub receive_number :
    String → String → String → Fields → String → Option ℤ → Bridge → Bridge × Option Job
unfolding receive_level clamp_feature thousandths
receive_number safe segment toy_id toy action none b = (b, none)
receive_number safe segment toy_id toy action (some n) b =
    receive_level safe segment toy_id toy action (clamp_feature action (thousandths n)) b

unfoldable pub receive_feature :
    Python
    → String
    → String
    → String
    → Fields
    → String
    → Option String
    → Bridge
    → Bridge × Option Job
unfolding receive_number features_for_toy toy_of
receive_feature p safe segment toy_id toy payload none b = (b, none)
receive_feature p safe segment toy_id toy payload (some action) b =
    if member action (features_for_toy (toy_of toy))
    then receive_number safe segment toy_id toy action (p.int_of_text payload) b
    else (b, none)

unfoldable pub receive_known :
    Python → String → String → String → Fields → Bridge → Bridge × Option Job
unfolding log_call receive_preset receive_feature topic_segment_to_action_name str value_at strip
receive_known p safe segment payload toy b =
    let toy_id = str p (value_at "id" toy) in
    let said = strip payload in
    if segment == "stop"
    then (log_call (stop_call toy_id) b, some (stop_job safe toy))
    else if segment == "preset"
    then receive_preset safe toy_id said b
    else receive_feature p safe segment toy_id toy said (topic_segment_to_action_name segment) b

unfoldable pub receive_unknown : String → Bridge → Bridge
unfolding publish_toy_availability clear_discovery_for_stale_safe_id
receive_unknown safe b =
    let b' = publish_toy_availability safe false b in
    if b.inventory_ready then clear_discovery_for_stale_safe_id safe b' else b'

unfoldable pub receive_toy :
    Python → String → String → String → Option Fields → Bridge → Bridge × Option Job
unfolding receive_unknown receive_known
receive_toy p safe segment payload none b = (receive_unknown safe b, none)
receive_toy p safe segment payload (some toy) b = receive_known p safe segment payload toy b

unfoldable pub receive_parts :
    Python → Option (String × String) → String → Bridge → Bridge × Option Job
unfolding receive_toy get
receive_parts p none payload b = (b, none)
receive_parts p (some (safe, segment)) payload b =
    if b.control then receive_toy p safe segment payload (get safe b.toys) b else (b, none)

-- Up to the call of the control client. The payload is the decoded text.
unfoldable pub receive : Python → String → String → Bridge → Bridge × Option Job
unfolding receive_parts command_parts
receive p topic payload b = receive_parts p (command_parts b.prefix topic) payload b

-- levels.update(merged)
unfoldable pub update : Dict String ℤ → Dict String ℤ → Dict String ℤ
unfolding put
update levels [] = levels
update levels ((action, v) ∷ merged) = update (put action v levels) merged

-- The toy's levels are the object read before the call; it is of no use if it has been dropped since.
unfoldable pub update_at : String → Dict String ℤ → Option (Dict String ℤ) → Bridge → Bridge
unfolding update put
update_at safe merged none b = b
update_at safe merged (some levels) b = record b {
  feature_levels = put safe (update levels merged) b.feature_levels;
}

unfoldable pub finish : Job → Bridge → Bridge
unfolding start_levels features_for_toy toy_of update_at get publish_state_str
finish (stop_job safe toy) b = start_levels safe (features_for_toy (toy_of toy)) b
finish (preset_job safe) b = b
finish (function_job safe segment v merged) b =
    publish_state_str safe segment (level v) true false
      (update_at safe merged (get safe b.feature_levels) b)

abbrev pub job_toy : Job → String
job_toy (stop_job safe toy) = safe
job_toy (preset_job safe) = safe
job_toy (function_job safe segment v merged) = safe

-- From the return of the call on.
unfoldable pub returned : Outcome → Job → Bridge → Bridge
unfolding finish mark_toy_disconnected
returned done job b = finish job b
returned not_connected job b = mark_toy_disconnected (job_toy job) b
returned failed job b = b

unfoldable pub finish_received : Outcome → Bridge × Option Job → Bridge
unfolding returned
finish_received o (b, none) = b
finish_received o (b, some job) = returned o job b

-- The whole handler, with nothing in between.
unfoldable pub handle_command_topic : Python → String → String → Outcome → Bridge → Bridge
unfolding receive finish_received
handle_command_topic p topic payload o b = finish_received o (receive p topic payload b)
