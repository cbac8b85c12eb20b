-- ===== src/Mqtt/Stale.antt =====
-- What the deduper remembers, and what it holds back: a command's state goes past it.
use lovensepy.Base.{
  ℕ, String, ◌≡◌, refl, ap, ◌∙◌, inl, inr, Bool, true, false, not, some, arith, eq_iff, Bool-cases,
  ◌==◌, ==-self, ℕ_Eq, String_Eq, Pair_Eq, Codes_Eq, if_true, if_false,
}
use lovensepy.Base.Dict.{Dict, get, put, get-put}
use lovensepy.Base.Int.{ℤ, pos, negsuc}
use lovensepy.Base.Text.{strip}
use lovensepy.Services.Snapshot.{Fields}
use lovensepy.Toys.Features.{features_for_toy, member}
use lovensepy.Mqtt.Topics.{
  slash, command_parts, state_topic, feature_topic_segment, topic_segment_to_action_name,
}
use lovensepy.Mqtt.Payloads.{Python, toy_of}
use lovensepy.Mqtt.Strength.{clamp_feature, thousandths}
use lovensepy.Mqtt.Bridge.{
  Bridge, Value, level, word, shows, int_eq, value_eq, same_as, should_publish, state_key,
  publish_state_str, publish_checked, remembered, send, set_level,
}
use lovensepy.Mqtt.Keeping.{publish_state_str-same}
use lovensepy.Mqtt.Keeping.{same_if}
use lovensepy.Mqtt.Commands.{done, handle_command_topic}
use lovensepy.Mqtt.Events.{show_strength}
use lovensepy.Mqtt.Levels.{level_of, level-set_level}
use lovensepy.Mqtt.Applied.{handle_command_topic-applies, handle_command_topic-deduper}
use lovensepy.Mqtt.Silent.{last_on}

int_eq_self : (n : ℤ) → int_eq n n ≡ true
int_eq_self (pos n) = ground arith
int_eq_self (negsuc n) = ground arith

value_eq_self : (v : Value) → value_eq v v ≡ true
unfolding value_eq
value_eq_self (level n) = int_eq_self n
value_eq_self (word s) = ==-self s

should_publish-put :
    (key : String) (v : Value) (d : Dict String Value) → should_publish key v (put key v d) ≡ false
unfolding should_publish same_as
should_publish-put key v d =
    ap (λ o. not (same_as o v))
      (get-put key key v d ∙ if_true (key == key) (some v) (get key d) (==-self key))
    ∙ ap not (value_eq_self v)

module _ (safe segment : String) (v : Value) (retain : Bool) (b : Bridge) where
  key : String
  key = state_key b safe segment

  -- A state that is remembered is not published again.
  publish_state_str-again :
      should_publish (state_key b safe segment) v b.deduper ≡ false
      → publish_state_str safe segment v false retain b ≡ b
  unfolding publish_state_str
  publish_state_str-again h =
      same_if (λ x. x) (not b.mqtt) b _ b refl
        (if_false (should_publish (state_key b safe segment) v b.deduper) _ b h)

  publish_state_str-new :
      b.mqtt ≡ true
      → should_publish (state_key b safe segment) v b.deduper ≡ true
      → (publish_state_str safe segment v false retain b).deduper
        ≡ put (state_key b safe segment) v b.deduper
  unfolding publish_state_str publish_checked remembered send
  publish_state_str-new linked h =
      ap (λ x. x.deduper)
        (if_false (not b.mqtt) b _ (ap not linked)
          ∙ if_true (should_publish (state_key b safe segment) v b.deduper) _ b h)

  -- The state that was last offered is the one remembered.
  publish_state_str-remembers :
      b.mqtt ≡ true
      → should_publish
          (state_key b safe segment)
          v
          (publish_state_str safe segment v false retain b).deduper
        ≡ false
  publish_state_str-remembers linked =
      elim (Bool-cases (should_publish (state_key b safe segment) v b.deduper)) [
        | inl new ↦
            ap (should_publish (state_key b safe segment) v) (publish_state_str-new linked new)
            ∙ should_publish-put (state_key b safe segment) v b.deduper
        | inr old ↦
            ap (λ x. should_publish (state_key b safe segment) v x.deduper)
              (publish_state_str-again old)
            ∙ old
      ]

-- A level that the app reports, a command that succeeds, and the same level reported again, all for one
-- feature: the level is recorded, and the command's stays the last one published.
pub show_strength-stale :
    (p : Python) (b : Bridge) (topic payload safe action : String) (raw : ℕ) (toy : Fields) (n : ℤ)
    → b.mqtt ≡ true
    → b.control ≡ true
    → command_parts b.prefix topic ≡ some (safe, feature_topic_segment action)
    → get safe b.toys ≡ some toy
    → topic_segment_to_action_name (feature_topic_segment action) ≡ some action
    → member action (features_for_toy (toy_of toy)) ≡ true
    → p.int_of_text (strip payload) ≡ some n
    → let commanded = handle_command_topic p topic payload done (show_strength safe action raw b) in
      let after = show_strength safe action raw commanded in
      (level_of safe action after ≡ some (clamp_feature action (pos raw)))
      × (last_on (state_topic b.prefix safe (feature_topic_segment action)) after.sent
          ≡ some (shows (level (clamp_feature action (thousandths n)))))
unfolding show_strength set_level
show_strength-stale p b topic payload safe action raw toy n linked controlled parts known named
      supported counted =
    let v : ℤ = clamp_feature action (pos raw) in
    let w : ℤ = clamp_feature action (thousandths n) in
    let segment : String = feature_topic_segment action in
    let told : Bridge = show_strength safe action raw b in
    let commanded : Bridge = handle_command_topic p topic payload done told in
    let reported : Bridge = set_level safe action v b in
    let same_prefix : told.prefix ≡ b.prefix =
      publish_state_str-same (λ x. x.prefix) (λ _ _. refl) (λ _ _. refl) safe segment (level v)
        false false reported in
    let on : told.mqtt ≡ true =
      publish_state_str-same (λ x. x.mqtt) (λ _ _. refl) (λ _ _. refl) safe segment (level v) false
        false reported
      ∙ linked in
    let ruled : told.control ≡ true =
      publish_state_str-same (λ x. x.control) (λ _ _. refl) (λ _ _. refl) safe segment (level v)
        false false reported
      ∙ controlled in
    let there : get safe told.toys ≡ some toy =
      ap (get safe) (
        publish_state_str-same (λ x. x.toys) (λ _ _. refl) (λ _ _. refl) safe segment (level v)
          false false reported)
      ∙ known in
    let read : command_parts told.prefix topic ≡ some (safe, segment) =
      ap (λ x. command_parts x topic) same_prefix ∙ parts in
    let facts =
      handle_command_topic-deduper p told topic payload safe segment action toy n on ruled read
        there named supported counted in
    let applied =
      handle_command_topic-applies p told topic payload safe segment action action toy n on ruled
        read there named supported counted supported in
    let again : Bridge = set_level safe action v commanded in
    let key_of : String → String = λ x. slash x (slash safe (slash segment "state")) in
    let held : should_publish (state_key again safe segment) (level v) again.deduper ≡ false =
      ap (λ x. should_publish (key_of x) (level v) commanded.deduper) (facts.2 ∙ same_prefix)
      ∙ ap (should_publish (key_of b.prefix) (level v)) facts.0
      ∙ publish_state_str-remembers safe segment (level v) false reported linked in
    let quiet : show_strength safe action raw commanded ≡ again =
      publish_state_str-again safe segment (level v) false again held in
    let topic_at : String → String = λ x. state_topic x safe segment in
    (
      ap (λ x. level_of safe action x) quiet
          ∙ level-set_level safe action safe action v commanded
          ∙ if_true (safe == safe) _ (level_of safe action commanded) (==-self safe)
          ∙ if_true (action == action) (some v) (level_of safe action commanded) (==-self action),
      ap (λ x. last_on (topic_at b.prefix) x.sent) quiet
          ∙ ap (last_on (topic_at b.prefix)) applied.3
          ∙ if_true (topic_at told.prefix == topic_at b.prefix) (some (shows (level w)))
              (last_on (topic_at b.prefix) told.sent)
              ((eq_iff (topic_at told.prefix) (topic_at b.prefix)).1 (ap topic_at same_prefix)),
    )
