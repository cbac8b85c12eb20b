-- ===== src/Mqtt/Overlap.antt =====
-- Two commands for one toy, the second received before the call of the first has returned.
use lovensepy.Base.{
  String, ◌≡◌, refl, ap, ◌∙◌, true, false, Option, some, List, ◌∷◌, arith, ◌==◌, ==-self, ℕ_Eq,
  String_Eq, Pair_Eq, Codes_Eq, if_true,
}
use lovensepy.Base.Dict.{Dict, Distinct, get, put, get-put}
use lovensepy.Base.Int.{ℤ}
use lovensepy.Base.Text.{strip}
use lovensepy.Services.Snapshot.{Fields, value_at}
use lovensepy.Toys.Features.{features_for_toy, member}
use lovensepy.Toys.Known.{features_for_toy-usable}
use lovensepy.Mqtt.Topics.{command_parts, state_topic, topic_segment_to_action_name}
use lovensepy.Mqtt.Payloads.{Python, str, toy_of}
use lovensepy.Mqtt.Strength.{clamp_feature, thousandths}
use lovensepy.Mqtt.Bridge.{
  Bridge, Message, level, shows, function_call, publish_state_str, send, levels_of, or_no_levels,
}
use lovensepy.Mqtt.Keeping.{publish_state_str-same, publish_state_str-forced}
use lovensepy.Mqtt.Commands.{
  Job, done, function_job, log_call, merged_actions, or_zero, receive, receive_level, update,
  update_at, finish, returned, finish_received,
}
use lovensepy.Mqtt.Levels.{
  level_of, get-merged_actions, get-levels-put, get-update, levels-publish_state_str, or_kept,
}
use lovensepy.Mqtt.Applied.{receive-level_call, merged_actions-Distinct}

-- Both commands are received, then their calls return in the same order.
unfoldable pub overlapping : Python → String → String → String → String → Bridge → Bridge
unfolding receive finish_received
overlapping p first said second answered b =
    let one : Bridge × Option Job = receive p first said b in
    let two : Bridge × Option Job = receive p second answered one.0 in
    finish_received done (finish_received done (two.0, one.1), two.1)

module _ (safe first second toy_id : String) (toy : Fields) (a c : String) (v w : ℤ)
    (b : Bridge) where
  features : List String
  features = features_for_toy (toy_of toy)

  held : Dict String ℤ
  held = levels_of safe b

  one : Dict String ℤ
  unfolding held features
  one = merged_actions a v held features

  two : Dict String ℤ
  unfolding held features
  two = merged_actions c w held features

  -- The state after both were received.
  received : Bridge
  unfolding one two
  received = record b {
    feature_levels = put safe held (put safe held b.feature_levels);
    calls = function_call two toy_id ∷ function_call one toy_id ∷ b.calls;
  }

  still : levels_of safe (receive_level safe first toy_id toy a v b).0 ≡ held
  unfolding levels_of receive_level log_call held
  still = ap or_no_levels (
      get-put safe safe (or_no_levels (get safe b.feature_levels)) b.feature_levels
      ∙ if_true (safe == safe) _ _ (==-self safe))

  twice :
      receive_level safe second toy_id toy c w (receive_level safe first toy_id toy a v b).0
      ≡ (received, some (function_job safe second w two))
  unfolding receive_level log_call received two one features held
  twice =
      ap
        (λ (ls : Dict String ℤ).
          (with_levels ls, some (function_job safe second w (merged_actions c w ls features))))
        still
    where
      with_levels : Dict String ℤ → Bridge
      with_levels ls = record b {
        feature_levels = put safe ls (put safe held b.feature_levels);
        calls =
            function_call (merged_actions c w ls features) toy_id
            ∷ function_call one toy_id
            ∷ b.calls;
      }

  shown_one : Bridge
  unfolding received one held
  shown_one =
      publish_state_str safe first (level v) true false
        (record received { feature_levels = put safe (update held one) received.feature_levels })

  finish-one : finish (function_job safe first v one) received ≡ shown_one
  unfolding finish update_at shown_one received
  finish-one =
      let there : get safe received.feature_levels ≡ some held =
        ground (arith, get-put safe safe held (put safe held b.feature_levels), ==-self safe) in
      rw there refl

  there_one : get safe shown_one.feature_levels ≡ some (update held one)
  unfolding shown_one
  there_one =
      ap (λ ls. get safe ls)
        (levels-publish_state_str safe first (level v) true false
          (record received { feature_levels = put safe (update held one) received.feature_levels }))
      ∙ get-put safe safe (update held one) received.feature_levels
      ∙ if_true (safe == safe) (some (update held one)) (get safe received.feature_levels)
          (==-self safe)

  last : Bridge
  unfolding shown_one one two held
  last = publish_state_str safe second (level w) true false (record shown_one {
    feature_levels = put safe (update (update held one) two) shown_one.feature_levels;
  })

  finish-two : finish (function_job safe second w two) shown_one ≡ last
  unfolding finish update_at last
  finish-two = rw there_one refl

  two-Distinct : Distinct two
  unfolding two features
  two-Distinct =
      merged_actions-Distinct c w held features
        (ground (arith, (features_for_toy-usable (toy_of toy)).0))

  last-level : (f : String) → level_of safe f last ≡ or_kept (get f two) (get f (update held one))
  unfolding last levels_of
  last-level f =
      let before : Bridge = record shown_one {
        feature_levels = put safe (update (update held one) two) shown_one.feature_levels;
      } in
      ap (λ ls. get f (or_no_levels (get safe ls)))
        (levels-publish_state_str safe second (level w) true false before)
      ∙ get-levels-put safe safe f (update (update held one) two) shown_one.feature_levels
      ∙ if_true (safe == safe) (get f (update (update held one) two)) _ (==-self safe)
      ∙ get-update f (update held one) two two-Distinct

  shown : String → ℤ → Message
  shown segment n = record {
    topic = state_topic b.prefix safe segment;
    payload = shows (level n);
    retain = false;
  }

  last-sent : b.mqtt ≡ true → last.sent ≡ (shown second w ∷ shown first v ∷ b.sent)
  unfolding last shown shown_one send received
  last-sent linked =
      let first_out : Bridge = record received {
        feature_levels = put safe (update held one) received.feature_levels;
      } in
      let with_update : Bridge → Bridge = λ x. record x {
        feature_levels = put safe (update (update held one) two) x.feature_levels;
      } in
      let said : Bridge =
        send (state_topic b.prefix safe first) (shows (level v)) false first_out in
      ap (λ x. (publish_state_str safe second (level w) true false (with_update x)).sent)
        (publish_state_str-forced safe first (level v) false first_out linked)
      ∙ ap (λ x. x.sent)
          (publish_state_str-forced safe second (level w) false (with_update said) linked)

  last-calls : last.calls ≡ (function_call two toy_id ∷ function_call one toy_id ∷ b.calls)
  unfolding last shown_one received
  last-calls =
      publish_state_str-same (λ x. x.calls) (λ _ _. refl) (λ _ _. refl) safe second (level w) true
        false
        (record shown_one {
          feature_levels = put safe (update (update held one) two) shown_one.feature_levels;
        })
      ∙ publish_state_str-same (λ x. x.calls) (λ _ _. refl) (λ _ _. refl) safe first (level v) true
          false
          (record received { feature_levels = put safe (update held one) received.feature_levels })

  after-twice :
      finish_received done (
        finish_received done (received, some (function_job safe first v one)),
        some (function_job safe second w two),
      )
      ≡ last
  unfolding finish_received returned
  after-twice = ap (finish (function_job safe second w two)) finish-one ∙ finish-two

-- Two commands for different features of one toy that overlap: the second call sets the first feature
-- back to its level before both, which is recorded too, while the level of the first command is the one
-- published for it.
pub overlapping-undoes :
    (p : Python) (b : Bridge) (one_topic said two_topic answered safe first second a c : String)
    (toy : Fields) (m n : ℤ)
    → b.mqtt ≡ true
    → b.control ≡ true
    → command_parts b.prefix one_topic ≡ some (safe, first)
    → command_parts b.prefix two_topic ≡ some (safe, second)
    → get safe b.toys ≡ some toy
    → topic_segment_to_action_name first ≡ some a
    → topic_segment_to_action_name second ≡ some c
    → member a (features_for_toy (toy_of toy)) ≡ true
    → member c (features_for_toy (toy_of toy)) ≡ true
    → p.int_of_text (strip said) ≡ some m
    → p.int_of_text (strip answered) ≡ some n
    → (c == a) ≡ false
    → let v = clamp_feature a (thousandths m) in
      let w = clamp_feature c (thousandths n) in
      let toy_id = str p (value_at "id" toy) in
      let features = features_for_toy (toy_of toy) in
      let after = overlapping p one_topic said two_topic answered b in
      (after.calls ≡ (
        function_call (merged_actions c w (levels_of safe b) features) toy_id
        ∷ function_call (merged_actions a v (levels_of safe b) features) toy_id
        ∷ b.calls))
      × (get a (merged_actions c w (levels_of safe b) features)
          ≡ some (or_zero (level_of safe a b)))
      × (level_of safe a after ≡ some (or_zero (level_of safe a b)))
      × (after.sent ≡ (
          record {
            topic = state_topic b.prefix safe second;
            payload = shows (level w);
            retain = false;
          }
          ∷ record {
            topic = state_topic b.prefix safe first;
            payload = shows (level v);
            retain = false;
          }
          ∷ b.sent))
unfolding overlapping receive_level log_call one two held features shown
overlapping-undoes p b one_topic said two_topic answered safe first second a c toy m n linked
      controlled at_one at_two known named_one named_two own_one own_two counted_one counted_two
      other =
    let v : ℤ = clamp_feature a (thousandths m) in
    let w : ℤ = clamp_feature c (thousandths n) in
    let toy_id : String = str p (value_at "id" toy) in
    let mid : Bridge = (receive_level safe first toy_id toy a v b).0 in
    let job : Job = function_job safe first v (one safe first second toy_id toy a c v w b) in
    let e1 : receive p one_topic said b ≡ receive_level safe first toy_id toy a v b =
      receive-level_call p b one_topic said safe first a toy m controlled at_one known named_one
        own_one counted_one in
    let e2 : receive p two_topic answered mid ≡ receive_level safe second toy_id toy c w mid =
      receive-level_call p mid two_topic answered safe second c toy n controlled at_two known
        named_two own_two counted_two in
    let whole : overlapping p one_topic said two_topic answered b
        ≡ last safe first second toy_id toy a c v w b =
      ap
        (λ (r : Bridge × Option Job). finish_received done (
          finish_received done ((receive p two_topic answered r.0).0, r.1),
          (receive p two_topic answered r.0).1,
        ))
        e1
      ∙ ap
          (λ (r : Bridge × Option Job).
            finish_received done (finish_received done (r.0, some job), r.1))
          (e2 ∙ twice safe first second toy_id toy a c v w b)
      ∙ after-twice safe first second toy_id toy a c v w b in
    let old : get a (two safe first second toy_id toy a c v w b)
        ≡ some (or_zero (level_of safe a b)) =
      ground (
        arith,
        get-merged_actions c a w (levels_of safe b) (features_for_toy (toy_of toy)),
        own_one,
      ) in
    (
      ap (λ x. x.calls) whole ∙ last-calls safe first second toy_id toy a c v w b,
      old,
      ap (λ x. level_of safe a x) whole
          ∙ last-level safe first second toy_id toy a c v w b a
          ∙ ap
              (λ o.
                or_kept o
                  (get a (update (levels_of safe b) (one safe first second toy_id toy a c v w b))))
              old,
      ap (λ x. x.sent) whole ∙ last-sent safe first second toy_id toy a c v w b linked,
    )
