-- ===== src/Mqtt/Off.antt =====
-- What each stretch of the bridge's code does once neither the broker nor the control client is there.
use lovensepy.Base.{
  ℕ, String, ◌≡◌, sym, ap, Bool, true, false, not, Option, none, some, List, [], ◌∷◌, if◌then◌else◌,
  ◌==◌, ℕ_Eq, String_Eq, Pair_Eq, Codes_Eq, if_true, if_false,
}
use lovensepy.Base.Dict.{Dict, get}
use lovensepy.Base.Int.{ℤ, pos}
use lovensepy.Services.Snapshot.{Json, Fields, null, boolean, number, text, array, object}
use lovensepy.Toys.Features.{features_for_toy, member}
use lovensepy.Mqtt.Topics.{feature_topic_segment, mqtt_safe_toy_id}
use lovensepy.Mqtt.Payloads.{
  Python, id_of, toy_of, parse_toy_list_data, battery_from_payload, event_id,
}
use lovensepy.Mqtt.Strength.{clamp_feature, strength_from_payload}
use lovensepy.Mqtt.Bridge.{
  Bridge, Call, Message, Value, level, publish_state_str, publish_toy_availability,
  mark_toy_disconnected, set_level, show_zeros, start_levels, publish_discovery_unlocked,
}
use lovensepy.Mqtt.Commands.{
  Outcome, Job, done, not_connected, failed, stop_job, preset_job, function_job, job_toy,
  receive_parts, update_at, finish, returned,
}
use mathlib.Core.Path.{subst}
use lovensepy.Mqtt.Events.{
  Row, take_toy, take_toys, put_toy, show_battery, show_batteries, toy_list_event,
  battery_changed_event, show_strength, show_strengths, strength_changed_event, object_event,
  handle_toy_event, toys_answered, show_row_battery, row_safe_id, take_row_at, take_rows, seen_ids,
  drop_unseen, refreshed, normalize_toy_row_from_get_toys,
}

-- Neither the broker nor the control client is there, and the logs are these.
pub record Off (ms : List Message) (cs : List Call) (b : Bridge) : Type 0 where
  pub no_mqtt : b.mqtt ≡ false
  pub no_control : b.control ≡ false
  pub same_sent : b.sent ≡ ms
  pub same_calls : b.calls ≡ cs

module _ (ms : List Message) (cs : List Call) where
  state-Off :
      (safe segment : String) (v : Value) (force retain : Bool) (b : Bridge)
      → Off ms cs b
      → Off ms cs (publish_state_str safe segment v force retain b)
  unfolding publish_state_str
  state-Off safe segment v force retain b h =
      subst (Off ms cs) (sym (if_true (not b.mqtt) b _ (ap not h.no_mqtt))) h

  available-Off :
      (safe : String) (c : Bool) (b : Bridge)
      → Off ms cs b
      → Off ms cs (publish_toy_availability safe c b)
  unfolding publish_toy_availability
  available-Off safe c b h = subst (Off ms cs) (sym (if_false b.mqtt _ b h.no_mqtt)) h

  -- The levels and the toys are no part of it.
  levels-Off :
      (ls : Dict String (Dict String ℤ)) (b : Bridge)
      → Off ms cs b
      → Off ms cs (record b { feature_levels = ls })
  levels-Off ls b h = record {
    no_mqtt = h.no_mqtt;
    no_control = h.no_control;
    same_sent = h.same_sent;
    same_calls = h.same_calls;
  }

  toys-Off :
      (ts : Dict String Fields) (b : Bridge) → Off ms cs b → Off ms cs (record b { toys = ts })
  toys-Off ts b h = record {
    no_mqtt = h.no_mqtt;
    no_control = h.no_control;
    same_sent = h.same_sent;
    same_calls = h.same_calls;
  }

  if-Off : (c : Bool) (x y : Bridge) → Off ms cs x → Off ms cs y → Off ms cs (if c then x else y)
  if-Off true x y h k = h
  if-Off false x y h k = k

  zeros-Off :
      (safe : String) (actions : List String) (b : Bridge)
      → Off ms cs b
      → Off ms cs (show_zeros safe actions b)
  unfolding show_zeros set_level
  zeros-Off safe [] b h = h
  zeros-Off safe (action ∷ actions) b h = zeros-Off safe actions _ (
      state-Off safe (feature_topic_segment action) (level (pos 0)) true false
        (set_level safe action (pos 0) b) (levels-Off _ b h))

  start-Off :
      (safe : String) (actions : List String) (b : Bridge)
      → Off ms cs b
      → Off ms cs (start_levels safe actions b)
  unfolding start_levels
  start-Off safe actions b h = zeros-Off safe actions _ (levels-Off _ b h)

  update-Off :
      (safe : String) (merged : Dict String ℤ) (o : Option (Dict String ℤ)) (b : Bridge)
      → Off ms cs b
      → Off ms cs (update_at safe merged o b)
  unfolding update_at
  update-Off safe merged none b h = h
  update-Off safe merged (some ls) b h = levels-Off _ b h

  finish-Off : (job : Job) (b : Bridge) → Off ms cs b → Off ms cs (finish job b)
  unfolding finish
  finish-Off (stop_job safe toy) b h = start-Off safe (features_for_toy (toy_of toy)) b h
  finish-Off (preset_job safe) b h = h
  finish-Off (function_job safe segment v merged) b h =
      state-Off safe segment (level v) true false _
        (update-Off safe merged (get safe b.feature_levels) b h)

  pub returned-Off :
      (o : Outcome) (job : Job) (b : Bridge) → Off ms cs b → Off ms cs (returned o job b)
  unfolding returned mark_toy_disconnected
  returned-Off done job b h = finish-Off job b h
  returned-Off not_connected job b h = available-Off (job_toy job) false _ (toys-Off _ b h)
  returned-Off failed job b h = h

  pub receive-Off :
      (p : Python) (parts : Option (String × String)) (payload : String) (b : Bridge)
      → Off ms cs b
      → Off ms cs (receive_parts p parts payload b).0
  unfolding receive_parts
  receive-Off p none payload b h = h
  receive-Off p (some (safe, segment)) payload b h =
      subst (λ (r : Bridge × Option Job). Off ms cs r.0)
        (sym (if_false b.control _ (b, none) h.no_control)) h

  take-Off :
      (p : Python) (ts : List Fields) (b : Bridge) → Off ms cs b → Off ms cs (take_toys p ts b)
  unfolding take_toys take_toy put_toy
  take-Off p [] b h = h
  take-Off p (t ∷ ts) b h = take-Off p ts _ (
      if-Off (id_of p t == "") b _ h
        (available-Off (mqtt_safe_toy_id (id_of p t)) _ _ (toys-Off _ b h)))

  battery-Off :
      (safe : String) (v : Option ℕ) (force : Bool) (b : Bridge)
      → Off ms cs b
      → Off ms cs (show_battery safe v force b)
  unfolding show_battery
  battery-Off safe none force b h = h
  battery-Off safe (some v) force b h = state-Off safe "battery" (level (pos v)) force true b h

  batteries-Off :
      (p : Python) (ts : List Fields) (b : Bridge) → Off ms cs b → Off ms cs (show_batteries p ts b)
  unfolding show_batteries
  batteries-Off p [] b h = h
  batteries-Off p (t ∷ ts) b h = batteries-Off p ts _ (
      if-Off (id_of p t == "") b _ h
        (battery-Off (mqtt_safe_toy_id (id_of p t)) (battery_from_payload p (object t)) true b h))

  strengths-Off :
      (safe : String) (supported : List String) (rs : Dict String ℕ) (b : Bridge)
      → Off ms cs b
      → Off ms cs (show_strengths safe supported rs b)
  unfolding show_strengths show_strength set_level
  strengths-Off safe supported [] b h = h
  strengths-Off safe supported ((action, raw) ∷ rs) b h = strengths-Off safe supported rs _ (
      if-Off (member action supported) _ b
        (state-Off safe (feature_topic_segment action) (level (clamp_feature action (pos raw)))
          false false _ (levels-Off _ b h))
        h)

  discovery-Off :
      (p : Python) (b : Bridge) → Off ms cs b → Off ms cs (publish_discovery_unlocked p b)
  unfolding publish_discovery_unlocked
  discovery-Off p b h = subst (Off ms cs) (sym (if_false b.mqtt _ b h.no_mqtt)) h

  object-Off :
      (p : Python) (event_type : String) (body : Json) (b : Bridge)
      → Off ms cs b
      → Off ms cs (object_event p event_type body b)
  unfolding object_event battery_changed_event strength_changed_event
  object-Off p event_type (object d) b h =
      if-Off (event_type == "battery-changed") _ _
        (if-Off (event_id p d == "") b _ h (
          battery-Off (mqtt_safe_toy_id (event_id p d)) (battery_from_payload p (object d)) true b
            h))
        (if-Off (event_type == "function-strength-changed") _ b
          (if-Off (event_id p d == "") b _ h (
            strengths-Off (mqtt_safe_toy_id (event_id p d)) _
              (strength_from_payload p d (event_id p d)) b h))
          h)
  object-Off p event_type null b h = h
  object-Off p event_type (boolean c) b h = h
  object-Off p event_type (number n) b h = h
  object-Off p event_type (text s) b h = h
  object-Off p event_type (array xs) b h = h

  pub event-Off :
      (p : Python) (event_type : String) (body : Json) (b : Bridge)
      → Off ms cs b
      → Off ms cs (handle_toy_event p event_type body b)
  unfolding handle_toy_event toy_list_event
  event-Off p event_type body b h =
      if-Off (event_type == "toy-list") _ _
        (batteries-Off p (parse_toy_list_data body) _
          (discovery-Off p _ (take-Off p (parse_toy_list_data body) b h)))
        (object-Off p event_type body b h)

  row_battery-Off :
      (p : Python) (safe : String) (v : Option ℤ) (d : Fields) (b : Bridge)
      → Off ms cs b
      → Off ms cs (show_row_battery p safe v d b)
  unfolding show_row_battery
  row_battery-Off p safe none d b h = battery-Off safe (battery_from_payload p (object d)) false b h
  row_battery-Off p safe (some v) d b h = state-Off safe "battery" (level v) false true b h

  row-Off :
      (p : Python) (row : Row) (o : Option String) (b : Bridge)
      → Off ms cs b
      → Off ms cs (take_row_at p row o b)
  unfolding take_row_at put_toy
  row-Off p row none b h = h
  row-Off p row (some safe) b h =
      row_battery-Off p safe row.battery (normalize_toy_row_from_get_toys p row.dump) _
        (available-Off safe _ _ (toys-Off _ b h))

  rows-Off :
      (p : Python) (rows : List Row) (b : Bridge) → Off ms cs b → Off ms cs (take_rows p rows b)
  unfolding take_rows
  rows-Off p [] b h = h
  rows-Off p (row ∷ rows) b h = rows-Off p rows _ (row-Off p row (row_safe_id p row) b h)

  unseen-Off :
      (seen : List String) (ts : Dict String Fields) (b : Bridge)
      → Off ms cs b
      → Off ms cs (drop_unseen seen ts b)
  unfolding drop_unseen put_toy
  unseen-Off seen [] b h = h
  unseen-Off seen ((safe, toy) ∷ ts) b h =
      unseen-Off seen ts _
        (if-Off (member safe seen) b _ h (toys-Off _ _ (available-Off safe false b h)))

  ready-Off : (r : Bool) (b : Bridge) → Off ms cs b → Off ms cs (record b { inventory_ready = r })
  ready-Off r b h = record {
    no_mqtt = h.no_mqtt;
    no_control = h.no_control;
    same_sent = h.same_sent;
    same_calls = h.same_calls;
  }

  pub answered-Off :
      (p : Python) (rows : Option (List Row)) (b : Bridge)
      → Off ms cs b
      → Off ms cs (toys_answered p rows b)
  unfolding toys_answered refreshed
  answered-Off p none b h = h
  answered-Off p (some rows) b h =
      let taken : Bridge = take_rows p rows b in
      let dropped : Bridge = drop_unseen (seen_ids p rows) taken.toys taken in
      let fresh : Off ms cs dropped =
        unseen-Off (seen_ids p rows) taken.toys taken (rows-Off p rows b h) in
      discovery-Off p (record dropped { inventory_ready = true }) (ready-Off true dropped fresh)
