-- ===== src/Mqtt/Applied.antt =====
-- What one command does when its call succeeds, and when it fails.
use lovensepy.Base.{
  String, ◌≡◌, refl, sym, ap, ◌∙◌, inl, inr, true, false, none, some, List, [], ◌∷◌, arith, eq_iff,
  if◌then◌else◌, Bool-cases, ◌==◌, ==-self, ℕ_Eq, String_Eq, Pair_Eq, Codes_Eq, if_true,
}
use lovensepy.Base.Dict.{Dict, Distinct, get, put, get-put, put-Distinct}
use lovensepy.Base.Int.{ℤ}
use lovensepy.Base.Text.{strip}
use lovensepy.Services.Snapshot.{Fields, value_at}
use lovensepy.Toys.Features.{features_for_toy, member}
use lovensepy.Toys.Known.{unique, features_for_toy-usable}
use lovensepy.Mqtt.Topics.{command_parts, state_topic, topic_segment_to_action_name}
use lovensepy.Mqtt.Payloads.{Python, str, toy_of}
use lovensepy.Mqtt.Strength.{clamp_feature, thousandths}
use lovensepy.Mqtt.Bridge.{
  Bridge, level, shows, function_call, publish_state_str, publish_checked, send, levels_of,
  or_no_levels,
}
use lovensepy.Mqtt.Keeping.{publish_state_str-same}
use lovensepy.Mqtt.Keeping.{publish_state_str-same}
use lovensepy.Mqtt.Levels.{levels-publish_state_str}
use lovensepy.Mqtt.Commands.{
  done, log_call, standing, merged_actions, or_zero, receive, receive_parts, receive_toy,
  receive_known, receive_feature, receive_number, receive_level, update, update_at, finish,
  returned, finish_received, handle_command_topic,
}
use lovensepy.Mqtt.Levels.{
  level_of, get-standing, get-merged_actions, get-levels-put, get-update, levels-publish_state_str,
  or_kept,
}

standing-Distinct :
    (levels : Dict String ℤ) (features : List String)
    → unique features ≡ true
    → Distinct (standing levels features)
unfolding standing
standing-Distinct levels [] h = tt
standing-Distinct levels (f ∷ features) h = (
  ground (arith, get-standing levels f features),
  standing-Distinct levels features (ground arith),
)

pub merged_actions-Distinct :
    (action : String) (v : ℤ) (levels : Dict String ℤ) (features : List String)
    → unique features ≡ true
    → Distinct (merged_actions action v levels features)
unfolding merged_actions
merged_actions-Distinct action v levels features h =
    put-Distinct action v (standing levels features) (standing-Distinct levels features h)

-- A word without an action is not the segment of one.
pub not_word :
    (w segment action : String)
    → topic_segment_to_action_name w ≡ none
    → topic_segment_to_action_name segment ≡ some action
    → (segment == w) ≡ false
not_word w segment action h k = elim (Bool-cases (segment == w)) [
  | inl same ↦
      let e : topic_segment_to_action_name segment ≡ none =
        ap topic_segment_to_action_name ((eq_iff segment w).0 same) ∙ h in
      absurd (ground arith)
  | inr other ↦ other
]

pub stop_has_none : topic_segment_to_action_name "stop" ≡ none
unfolding topic_segment_to_action_name
stop_has_none = refl

pub preset_has_none : topic_segment_to_action_name "preset" ≡ none
unfolding topic_segment_to_action_name
preset_has_none = refl

-- What is received for a toy that is known.
pub receive-toy :
    (p : Python) (b : Bridge) (topic payload safe segment : String) (toy : Fields)
    → b.control ≡ true
    → command_parts b.prefix topic ≡ some (safe, segment)
    → get safe b.toys ≡ some toy
    → receive p topic payload b ≡ receive_known p safe segment payload toy b
unfolding receive receive_parts receive_toy
receive-toy p b topic payload safe segment toy controlled parts known =
    rw (parts, controlled, known) refl

pub receive-number :
    (p : Python) (b : Bridge) (payload safe segment action : String) (toy : Fields) (n : ℤ)
    → topic_segment_to_action_name segment ≡ some action
    → member action (features_for_toy (toy_of toy)) ≡ true
    → p.int_of_text (strip payload) ≡ some n
    → receive_known p safe segment payload toy b
      ≡ receive_level safe segment
          (str p (value_at "id" toy))
          toy
          action
          (clamp_feature action (thousandths n))
          b
unfolding receive_known receive_feature receive_number
receive-number p b payload safe segment action toy n named supported counted =
    rw
      (
        not_word "stop" segment action stop_has_none named,
        not_word "preset" segment action preset_has_none named,
      )
      (rw (named, supported, counted) refl)

-- What is received for a feature of a known toy.
pub receive-level_call :
    (p : Python) (b : Bridge) (topic payload safe segment action : String) (toy : Fields) (n : ℤ)
    → b.control ≡ true
    → command_parts b.prefix topic ≡ some (safe, segment)
    → get safe b.toys ≡ some toy
    → topic_segment_to_action_name segment ≡ some action
    → member action (features_for_toy (toy_of toy)) ≡ true
    → p.int_of_text (strip payload) ≡ some n
    → receive p topic payload b
      ≡ receive_level safe segment
          (str p (value_at "id" toy))
          toy
          action
          (clamp_feature action (thousandths n))
          b
receive-level_call p b topic payload safe segment action toy n controlled parts known named
      supported counted =
    receive-toy p b topic payload safe segment toy controlled parts known
    ∙ receive-number p b payload safe segment action toy n named supported counted

module _ (safe segment toy_id : String) (toy : Fields) (action : String) (v : ℤ) (b : Bridge) where
  merged_of : Dict String ℤ
  merged_of = merged_actions action v (levels_of safe b) (features_for_toy (toy_of toy))

  opened : Bridge
  opened = record b { feature_levels = put safe (levels_of safe b) b.feature_levels }

  updated : Bridge
  unfolding opened merged_of
  updated = record (log_call (function_call merged_of toy_id) opened) {
    feature_levels = put safe (update (levels_of safe b) merged_of) opened.feature_levels;
  }

  -- The handler after the call has returned.
  finish-level :
      finish_received done (receive_level safe segment toy_id toy action v b)
      ≡ publish_state_str safe segment (level v) true false updated
  unfolding finish_received returned finish receive_level update_at updated opened merged_of
      log_call
  finish-level =
      let held : get safe opened.feature_levels ≡ some (levels_of safe b) =
        ground (arith, get-put safe safe (levels_of safe b) b.feature_levels, ==-self safe) in
      rw held refl

  updated-level :
      (f : String) → level_of safe f updated ≡ or_kept (get f merged_of) (level_of safe f b)
  unfolding updated levels_of merged_of log_call opened
  updated-level f =
      let distinct : Distinct merged_of =
        merged_actions-Distinct action v (levels_of safe b) (features_for_toy (toy_of toy))
          (ground (arith, (features_for_toy-usable (toy_of toy)).0)) in
      get-levels-put safe safe f (update (levels_of safe b) merged_of) opened.feature_levels
      ∙ if_true (safe == safe) (get f (update (levels_of safe b) merged_of)) _ (==-self safe)
      ∙ get-update f (levels_of safe b) merged_of distinct

  finish-sent :
      b.mqtt ≡ true
      → (publish_state_str safe segment (level v) true false updated).sent ≡ (
          record {
            topic = state_topic b.prefix safe segment;
            payload = shows (level v);
            retain = false;
          }
          ∷ b.sent)
  unfolding publish_state_str updated opened log_call publish_checked send
  finish-sent linked = rw linked refl

  finish-deduper :
      b.mqtt ≡ true
      → (publish_state_str safe segment (level v) true false updated).deduper ≡ b.deduper
  unfolding publish_state_str updated opened log_call publish_checked send
  finish-deduper linked = rw linked refl

  finish-calls :
      (publish_state_str safe segment (level v) true false updated).calls
      ≡ (function_call merged_of toy_id ∷ b.calls)
  unfolding updated opened log_call
  finish-calls =
      publish_state_str-same (λ x. x.calls) (λ _ _. refl) (λ _ _. refl) safe segment (level v) true
        false updated

  finish-levels :
      (f : String)
      → level_of safe f (publish_state_str safe segment (level v) true false updated)
        ≡ or_kept (get f merged_of) (level_of safe f b)
  unfolding levels_of
  finish-levels f =
      ap (λ ls. get f (or_no_levels (get safe ls)))
        (levels-publish_state_str safe segment (level v) true false updated)
      ∙ updated-level f

-- A command's state is published past the deduper.
pub handle_command_topic-deduper :
    (p : Python) (b : Bridge) (topic payload safe segment action : String) (toy : Fields) (n : ℤ)
    → b.mqtt ≡ true
    → b.control ≡ true
    → command_parts b.prefix topic ≡ some (safe, segment)
    → get safe b.toys ≡ some toy
    → topic_segment_to_action_name segment ≡ some action
    → member action (features_for_toy (toy_of toy)) ≡ true
    → p.int_of_text (strip payload) ≡ some n
    → let after = handle_command_topic p topic payload done b in
      (after.deduper ≡ b.deduper) × (after.mqtt ≡ true) × (after.prefix ≡ b.prefix)
unfolding handle_command_topic updated opened log_call
handle_command_topic-deduper p b topic payload safe segment action toy n linked controlled parts
      known named supported counted =
    let v : ℤ = clamp_feature action (thousandths n) in
    let toy_id : String = str p (value_at "id" toy) in
    let whole : handle_command_topic p topic payload done b
        ≡ publish_state_str safe segment (level v) true false
            (updated safe segment toy_id toy action v b) =
      ap (finish_received done) (
        receive-level_call p b topic payload safe segment action toy n controlled parts known named
          supported counted)
      ∙ finish-level safe segment toy_id toy action v b in
    (
      ap (λ x. x.deduper) whole ∙ finish-deduper safe segment toy_id toy action v b linked,
      ap (λ x. x.mqtt) whole
          ∙ publish_state_str-same (λ x. x.mqtt) (λ _ _. refl) (λ _ _. refl) safe segment (level v)
              true false (updated safe segment toy_id toy action v b)
          ∙ linked,
      ap (λ x. x.prefix) whole
          ∙ publish_state_str-same (λ x. x.prefix) (λ _ _. refl) (λ _ _. refl) safe segment
              (level v) true false (updated safe segment toy_id toy action v b),
    )

-- A command for a feature of a known toy. The call that it makes holds the new level, clamped, and
-- every other feature of the toy at the level recorded before; when the call has
-- succeeded these levels are recorded, and the new one is published on the command's state topic.
pub handle_command_topic-applies :
    (p : Python) (b : Bridge) (topic payload safe segment action f : String) (toy : Fields) (n : ℤ)
    → b.mqtt ≡ true
    → b.control ≡ true
    → command_parts b.prefix topic ≡ some (safe, segment)
    → get safe b.toys ≡ some toy
    → topic_segment_to_action_name segment ≡ some action
    → member action (features_for_toy (toy_of toy)) ≡ true
    → p.int_of_text (strip payload) ≡ some n
    → member f (features_for_toy (toy_of toy)) ≡ true
    → let v = clamp_feature action (thousandths n) in
      let toy_id = str p (value_at "id" toy) in
      let merged = merged_actions action v (levels_of safe b) (features_for_toy (toy_of toy)) in
      let after = handle_command_topic p topic payload done b in
      (after.calls ≡ (function_call merged toy_id ∷ b.calls))
      × (get f merged ≡ some (if action == f then v else or_zero (level_of safe f b)))
      × (level_of safe f after ≡ get f merged)
      × (after.sent ≡ (
          record {
            topic = state_topic b.prefix safe segment;
            payload = shows (level v);
            retain = false;
          }
          ∷ b.sent))
unfolding merged_of handle_command_topic
handle_command_topic-applies p b topic payload safe segment action f toy n linked controlled parts
      known named supported counted own =
    let v : ℤ = clamp_feature action (thousandths n) in
    let toy_id : String = str p (value_at "id" toy) in
    let whole : handle_command_topic p topic payload done b
        ≡ publish_state_str safe segment (level v) true false
            (updated safe segment toy_id toy action v b) =
      ap (finish_received done) (
        receive-level_call p b topic payload safe segment action toy n controlled parts known named
          supported counted)
      ∙ finish-level safe segment toy_id toy action v b in
    let held : get f (merged_of safe segment toy_id toy action v b)
        ≡ some (if action == f then v else or_zero (level_of safe f b)) =
      ground (
        arith,
        get-merged_actions action f v (levels_of safe b) (features_for_toy (toy_of toy)),
        own,
      ) in
    (
      ap (λ x. x.calls) whole ∙ finish-calls safe segment toy_id toy action v b,
      held,
      ap (λ x. level_of safe f x) whole
          ∙ finish-levels safe segment toy_id toy action v b f
          ∙ ap (λ o. or_kept o (level_of safe f b)) held
          ∙ sym held,
      ap (λ x. x.sent) whole ∙ finish-sent safe segment toy_id toy action v b linked,
    )
