-- ===== src/Mqtt/Silent.antt =====
-- Stop commands, the stop of the bridge, and the memory of the deduper.
use lovensepy.Base.{
  String, ◌≡◌, refl, ap, ◌∙◌, inl, inr, true, false, ◌&&◌, Option, none, some, List, [], ◌∷◌, arith,
  eq_iff, if◌then◌else◌, Bool-cases, ◌==◌, ==-self, ℕ_Eq, String_Eq, Pair_Eq, Codes_Eq, if_split,
  if_true,
}
use lovensepy.Base.Dict.{get, put}
use lovensepy.Base.Int.{pos}
use lovensepy.Services.Snapshot.{Fields, value_at}
use lovensepy.Toys.Features.{features_for_toy, member}
use lovensepy.Mqtt.Topics.{command_parts, state_topic, feature_topic_segment}
use lovensepy.Mqtt.Payloads.{Python, str, toy_of}
use lovensepy.Mqtt.Bridge.{
  Bridge, Message, Payload, level, shows, stop_call, send, set_level, show_zeros, start_levels,
  levels_of,
}
use lovensepy.Mqtt.Keeping.{publish_state_str-forced, publish_state_str-same}
use lovensepy.Mqtt.Commands.{
  done, log_call, receive_known, finish, returned, finish_received, handle_command_topic,
}
use lovensepy.Mqtt.Levels.{level_of, level-start_levels}
use lovensepy.Mqtt.Applied.{receive-toy}

-- The last payload published on a topic.
abbrev pub last_on : String → List Message → Option Payload
last_on topic [] = none
last_on topic (m ∷ ms) = if m.topic == topic then some m.payload else last_on topic ms

abbrev pub zero_shown : Payload
zero_shown = shows (level (pos 0))

module _ (safe : String) where
  -- The state after the first feature of the loop.
  zeroed : String → Bridge → Bridge
  unfolding set_level send
  zeroed action b =
      send (state_topic b.prefix safe (feature_topic_segment action)) zero_shown false
        (set_level safe action (pos 0) b)

  show_zeros-next :
      (action : String) (actions : List String) (b : Bridge)
      → b.mqtt ≡ true
      → show_zeros safe (action ∷ actions) b ≡ show_zeros safe actions (zeroed action b)
  unfolding show_zeros zeroed set_level
  show_zeros-next action actions b linked = ap (show_zeros safe actions) (
      publish_state_str-forced safe (feature_topic_segment action) (level (pos 0)) false
        (set_level safe action (pos 0) b) linked)

  -- A zero that is the last word on a topic stays so while zeros are shown.
  show_zeros-last :
      (t : String) (actions : List String) (b : Bridge)
      → b.mqtt ≡ true
      → last_on t b.sent ≡ some zero_shown
      → last_on t (show_zeros safe actions b).sent ≡ some zero_shown
  unfolding show_zeros zeroed set_level send
  show_zeros-last t [] b linked h = h
  show_zeros-last t (action ∷ actions) b linked h =
      let topic : String = state_topic b.prefix safe (feature_topic_segment action) in
      let now : last_on t (zeroed action b).sent ≡ some zero_shown =
        if_split (λ o. o ≡ some zero_shown) (topic == t) (some zero_shown) (last_on t b.sent)
          (λ _. refl) (λ _. h) in
      ap (λ x. last_on t x.sent) (show_zeros-next action actions b linked)
      ∙ show_zeros-last t actions (zeroed action b) linked now

  show_zeros-says :
      (f : String) (actions : List String) (b : Bridge)
      → b.mqtt ≡ true
      → member f actions ≡ true
      → last_on
          (state_topic b.prefix safe (feature_topic_segment f))
          (show_zeros safe actions b).sent
        ≡ some zero_shown
  unfolding show_zeros zeroed set_level send
  show_zeros-says f [] b linked h = cc
  show_zeros-says f (action ∷ actions) b linked h = elim (Bool-cases (action == f)) [
    | inl same ↦
        let t : String → String = λ g. state_topic b.prefix safe (feature_topic_segment g) in
        let e : t action ≡ t f = ap t ((eq_iff action f).0 same) in
        let now : last_on (t f) (zeroed action b).sent ≡ some zero_shown =
          if_true (t action == t f) (some zero_shown) (last_on (t f) b.sent)
            ((eq_iff (t action) (t f)).1 e) in
        ap (λ x. last_on (t f) x.sent) (show_zeros-next action actions b linked)
        ∙ show_zeros-last (t f) actions (zeroed action b) linked now
    | inr other ↦
        ap (λ x. last_on (state_topic b.prefix safe (feature_topic_segment f)) x.sent)
          (show_zeros-next action actions b linked)
        ∙ show_zeros-says f actions (zeroed action b) linked (ground arith)
  ]

show_zeros-calls :
    (safe : String) (actions : List String) (b : Bridge)
    → (show_zeros safe actions b).calls ≡ b.calls
unfolding show_zeros set_level
show_zeros-calls safe [] b = refl
show_zeros-calls safe (action ∷ actions) b =
    let set : Bridge = set_level safe action (pos 0) b in
    show_zeros-calls safe actions _
    ∙ publish_state_str-same (λ b. b.calls) (λ b ms. refl) (λ b d. refl) safe
        (feature_topic_segment action) (level (pos 0)) true false set

-- A stop command for a known toy whose call goes through: the one call that is made stops the toy, by its
-- own id; and then each of its features stands at 0 and 0 is the last level published for it.
pub handle_command_topic-stops :
    (p : Python) (b : Bridge) (topic payload safe f : String) (toy : Fields)
    → b.mqtt ≡ true
    → b.control ≡ true
    → command_parts b.prefix topic ≡ some (safe, "stop")
    → get safe b.toys ≡ some toy
    → member f (features_for_toy (toy_of toy)) ≡ true
    → let after = handle_command_topic p topic payload done b in
      (after.calls ≡ (stop_call (str p (value_at "id" toy)) ∷ b.calls))
      × (level_of safe f after ≡ some (pos 0))
      × (last_on (state_topic b.prefix safe (feature_topic_segment f)) after.sent ≡ some zero_shown)
unfolding handle_command_topic finish_received returned finish receive_known log_call start_levels
handle_command_topic-stops p b topic payload safe f toy linked controlled parts known own =
    let whole =
      ap (finish_received done)
        (receive-toy p b topic payload safe "stop" toy controlled parts known) in
    let called : Bridge = log_call (stop_call (str p (value_at "id" toy))) b in
    let features : List String = features_for_toy (toy_of toy) in
    let opened : Bridge = record called {
      feature_levels = put safe (levels_of safe called) called.feature_levels;
    } in
    (
      ap (λ x. x.calls) whole ∙ show_zeros-calls safe features opened,
      ap (λ x. level_of safe f x) whole
          ∙ level-start_levels safe safe f features called
          ∙ if_true (safe == safe && member f features) (some (pos 0)) (level_of safe f called)
              (ground (arith, own, ==-self safe)),
      ap (λ x. last_on (state_topic b.prefix safe (feature_topic_segment f)) x.sent) whole
          ∙ show_zeros-says safe f features opened linked own,
    )
