-- ===== src/Mqtt/Refused.antt =====
-- What a command does not do: when its call fails nothing is recorded, and one toy's command leaves the
-- others alone.
use lovensepy.Base.{
  String, ◌≡◌, refl, ◌∙◌, ◌≢◌, Bool, true, false, Option, none, some, ◌==◌, ℕ_Eq, String_Eq,
  Pair_Eq, Codes_Eq,
}
use lovensepy.Base.Dict.{get}
use lovensepy.Base.Int.{ℤ}
use lovensepy.Base.Text.{strip}
use lovensepy.Services.Snapshot.{Fields, value_at}
use lovensepy.Toys.Features.{features_for_toy, member}
use lovensepy.Mqtt.Topics.{command_parts, topic_segment_to_action_name}
use lovensepy.Mqtt.Payloads.{Python, str, toy_of}
use lovensepy.Mqtt.Bridge.{
  Bridge, publish_toy_availability, mark_toy_disconnected, levels_of, put_status,
}
use lovensepy.Mqtt.Keeping.{
  same_if, publish_state_str-same, publish_toy_availability-same, clear_discovery-same,
}
use lovensepy.Mqtt.Commands.{
  Outcome, Job, done, not_connected, failed, log_call, receive, receive_parts, receive_toy,
  receive_known, receive_unknown, receive_preset, receive_feature, receive_number, receive_level,
  returned, finish_received, handle_command_topic,
}
use lovensepy.Mqtt.Levels.{level_of, level-opened}

module _ (p : Python) (s f : String) where
  at : Bridge → Option ℤ
  at b = level_of s f b

  first_at : Bridge × Option Job → Option ℤ
  unfolding at
  first_at r = at r.0

  available-level :
      (safe : String) (c : Bool) (b : Bridge) → at (publish_toy_availability safe c b) ≡ at b
  unfolding at levels_of
  available-level = publish_toy_availability-same at (λ _ _. refl)

  unknown-level : (safe : String) (b : Bridge) → at (receive_unknown safe b) ≡ at b
  unfolding receive_unknown at levels_of
  unknown-level safe b =
      same_if at b.inventory_ready _ _ (at b)
        (clear_discovery-same at (λ _ _. refl) (λ _ _. refl) (λ _ _. refl) safe
            (publish_toy_availability safe false b)
          ∙ available-level safe false b)
        (available-level safe false b)

  preset-level :
      (safe toy_id payload : String) (b : Bridge)
      → at (receive_preset safe toy_id payload b).0 ≡ at b
  unfolding first_at receive_preset at levels_of log_call
  preset-level safe toy_id payload b =
      same_if first_at _ _ _ (at b) refl
        (publish_state_str-same at (λ _ _. refl) (λ _ _. refl) safe "preset" _ true false b)

  number-level :
      (safe segment toy_id : String) (toy : Fields) (action : String) (n : Option ℤ) (b : Bridge)
      → at (receive_number safe segment toy_id toy action n b).0 ≡ at b
  unfolding receive_number receive_level at log_call levels_of
  number-level safe segment toy_id toy action none b = refl
  number-level safe segment toy_id toy action (some n) b =
      unfold levels_of in level-opened safe s f b

  feature-level :
      (safe segment toy_id : String) (toy : Fields) (payload : String) (named : Option String)
      (b : Bridge)
      → at (receive_feature p safe segment toy_id toy payload named b).0 ≡ at b
  unfolding first_at receive_feature
  feature-level safe segment toy_id toy payload none b = refl
  feature-level safe segment toy_id toy payload (some action) b =
      same_if first_at (member action (features_for_toy (toy_of toy))) _ _ (at b)
        (number-level safe segment toy_id toy action (p.int_of_text payload) b) refl

  known-level :
      (safe segment payload : String) (toy : Fields) (b : Bridge)
      → at (receive_known p safe segment payload toy b).0 ≡ at b
  unfolding first_at receive_known at log_call levels_of
  known-level safe segment payload toy b = same_if first_at (segment == "stop") _ _ (at b) refl (
      same_if first_at (segment == "preset") _ _ (at b)
        (preset-level safe (str p (value_at "id" toy)) (strip payload) b)
        (feature-level safe segment (str p (value_at "id" toy)) toy (strip payload)
          (topic_segment_to_action_name segment) b))

  toy-level :
      (safe segment payload : String) (toy : Option Fields) (b : Bridge)
      → at (receive_toy p safe segment payload toy b).0 ≡ at b
  unfolding receive_toy
  toy-level safe segment payload none b = unknown-level safe b
  toy-level safe segment payload (some toy) b = known-level safe segment payload toy b

  parts-level :
      (parts : Option (String × String)) (payload : String) (b : Bridge)
      → at (receive_parts p parts payload b).0 ≡ at b
  unfolding first_at receive_parts
  parts-level none payload b = refl
  parts-level (some (safe, segment)) payload b =
      same_if first_at b.control _ _ (at b) (toy-level safe segment payload (get safe b.toys) b)
        refl

  -- Until its call returns a command leaves every level as it was.
  pub receive-level :
      (topic payload : String) (b : Bridge)
      → level_of s f (receive p topic payload b).0 ≡ level_of s f b
  unfolding receive at
  receive-level topic payload b = parts-level (command_parts b.prefix topic) payload b

  disconnected-level : (safe : String) (b : Bridge) → at (mark_toy_disconnected safe b) ≡ at b
  unfolding mark_toy_disconnected at levels_of
  disconnected-level safe b =
      available-level safe false (record b { toys = put_status safe (get safe b.toys) b.toys })

  refused-level :
      (o : Outcome) (r : Bridge × Option Job) → o ≢ done → at (finish_received o r) ≡ at r.0
  unfolding finish_received returned
  refused-level o (b, none) h = refl
  refused-level done (b, some job) h = absurd (h refl)
  refused-level not_connected (b, some job) h = disconnected-level _ b
  refused-level failed (b, some job) h = refl

-- Whatever is received, when the call of the control client fails no level of any toy is recorded.
pub handle_command_topic-refused :
    (p : Python) (topic payload : String) (o : Outcome) (b : Bridge) (s f : String)
    → o ≢ done
    → level_of s f (handle_command_topic p topic payload o b) ≡ level_of s f b
unfolding handle_command_topic at
handle_command_topic-refused p topic payload o b s f h =
    refused-level p s f o (receive p topic payload b) h ∙ receive-level p s f topic payload b
