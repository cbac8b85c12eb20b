-- ===== src/Mqtt/Keeping.antt =====
-- What the publishing of the bridge leaves alone: a view of the state that does not read the log, the
-- deduper or the announced topics is the same before and after.
use lovensepy.Base.{
  String, ◌≡◌, refl, ◌∙◌, Bool, true, false, not, ◌||◌, List, [], ◌∷◌, if◌then◌else◌, ◌==◌, ℕ_Eq,
  String_Eq, Pair_Eq, Codes_Eq,
}
use lovensepy.Services.Snapshot.{Json}
use lovensepy.Base.Dict.{Dict, put}
use lovensepy.Mqtt.Topics.{state_topic}
use lovensepy.Mqtt.Bridge.{
  shows, Bridge, Message, Value, publish_checked, remembered, should_publish, state_key,
  publish_state_str, publish_toy_availability, delete_kinds, clear_discovery_for_stale_safe_id,
  announce_entry, announce, send, discard, level, set_level, show_zeros, start_levels, stale_kinds,
}
use lovensepy.Toys.Features.{member}
use lovensepy.Mqtt.Discovery.{re_safe_prefix}
use lovensepy.Mqtt.Topics.{trim}

-- Both branches of a conditional look the same.
pub same_if {ℓ κ} :
    {A : Type ℓ} {B : Type κ} (f : A → B) (c : Bool) (x y : A) (t : B)
    → f x ≡ t
    → f y ≡ t
    → f (if c then x else y) ≡ t
same_if f true x y t h k = h
same_if f false x y t h k = k

module _ {ℓ} {A : Type ℓ} (view : Bridge → A)
    (of_sent : (b : Bridge) (ms : List Message) → view (record b { sent = ms }) ≡ view b) where
  pub send-same :
      (topic : String) (p : lovensepy.Mqtt.Bridge.Payload) (retain : Bool) (b : Bridge)
      → view (send topic p retain b) ≡ view b
  unfolding send
  send-same topic p retain b = of_sent b _

  pub publish_toy_availability-same :
      (safe : String) (c : Bool) (b : Bridge) → view (publish_toy_availability safe c b) ≡ view b
  unfolding publish_toy_availability
  publish_toy_availability-same safe c b = same_if view b.mqtt _ b (view b) (send-same _ _ _ b) refl

  pub publish_state_str-same :
      ((b : Bridge) (d : Dict String Value) → view (record b { deduper = d }) ≡ view b)
      → (safe segment : String) (v : Value) (force retain : Bool) (b : Bridge)
      → view (publish_state_str safe segment v force retain b) ≡ view b
  unfolding publish_state_str publish_checked remembered
  publish_state_str-same of_deduper safe segment v force retain b =
      let key = state_key b safe segment in
      let noted : Bridge = record b { deduper = put key v b.deduper } in
      same_if view (not b.mqtt) b _ (view b) refl (
        same_if view force (publish_checked true safe segment v retain b) _ (view b)
          (send-same _ _ _ b)
          (same_if view (should_publish key v b.deduper)
            (publish_checked true safe segment v retain (remembered key v b)) b (view b)
            (send-same _ _ _ noted ∙ of_deduper b (put key v b.deduper)) refl))

  module _
      (of_announced : (b : Bridge) (ts : List String)
        → view (record b { published_discovery = ts }) ≡ view b) where
    delete_kinds-same :
        (o safe : String) (kinds : List (String × String)) (b : Bridge)
        → view (delete_kinds o safe kinds b) ≡ view b
    unfolding delete_kinds
    delete_kinds-same o safe [] b = refl
    delete_kinds-same o safe ((component, kind) ∷ kinds) b =
        delete_kinds-same o safe kinds _ ∙ of_announced _ _ ∙ send-same _ _ _ b

    pub clear_discovery-same :
        ((b : Bridge) (ids : List String) → view (record b { cleared = ids }) ≡ view b)
        → (safe : String) (b : Bridge) → view (clear_discovery_for_stale_safe_id safe b) ≡ view b
    unfolding clear_discovery_for_stale_safe_id
    clear_discovery-same of_cleared safe b =
        let c : Bool = not b.mqtt || safe == "" || member safe b.cleared in
        let o : String = re_safe_prefix (trim 47 b.prefix) in
        let noted : Bridge = record b { cleared = safe ∷ b.cleared } in
        same_if view c b (delete_kinds o safe stale_kinds noted) (view b) refl
          (delete_kinds-same o safe stale_kinds noted ∙ of_cleared b (safe ∷ b.cleared))

    announce_entry-same :
        (topic : String) (config : Json) (b : Bridge)
        → view (announce_entry topic config b) ≡ view b
    unfolding announce_entry
    announce_entry-same topic config b =
        same_if view _ b _ (view b) refl (send-same _ _ _ _ ∙ of_announced b _)

    pub announce-same :
        (entries : List (String × Json)) (b : Bridge) → view (announce entries b) ≡ view b
    unfolding announce
    announce-same [] b = refl
    announce-same ((topic, config) ∷ entries) b =
        announce-same entries _ ∙ announce_entry-same topic config b

-- A forced state goes out while the broker is there.
pub publish_state_str-forced :
    (safe segment : String) (v : Value) (retain : Bool) (b : Bridge)
    → b.mqtt ≡ true
    → publish_state_str safe segment v true retain b
      ≡ send (state_topic b.prefix safe segment) (shows v) retain b
unfolding publish_state_str publish_checked
publish_state_str-forced safe segment v retain b linked = rw linked refl
