-- ===== src/Mqtt/Stopped.antt =====
-- The bridge after its stop: whatever is still under way, nothing is published or asked any more.
use lovensepy.Base.{
  String, ◌≡◌, refl, Bool, true, false, Option, List, [], ◌∷◌, arith, any, ℕ_Eq, String_Eq, Pair_Eq,
  Codes_Eq,
}
use lovensepy.Services.Snapshot.{Json}
use lovensepy.Mqtt.Topics.{command_parts}
use lovensepy.Mqtt.Payloads.{Python}
use lovensepy.Mqtt.Bridge.{Bridge, Call, Message}
use lovensepy.Mqtt.Commands.{Outcome, Job, receive, returned}
use lovensepy.Mqtt.Events.{Row, handle_toy_event, toys_answered, on_connect, stop}
use lovensepy.Mqtt.Off.{Off, returned-Off, receive-Off, event-Off, answered-Off}

-- A stretch of the bridge's code; a handler, a call of the control client or a refresh that waits for
-- GetToys may have begun before the stop. A refresh that begins after it asks nothing and is left out.
pub data Event : Type 0 where
  message : String → String → Event
  call_returns : Outcome → Job → Event
  app_event : String → Json → Event
  toys_return : Option (List Row) → Event
  connected : Bool → Event

unfoldable pub step : Python → Event → Bridge → Bridge
unfolding receive returned handle_toy_event toys_answered on_connect
step p (message topic payload) b = (receive p topic payload b).0
step p (call_returns o job) b = returned o job b
step p (app_event event_type body) b = handle_toy_event p event_type body b
step p (toys_return rows) b = toys_answered p rows b
step p (connected is_failure) b = on_connect is_failure b

unfoldable pub run : Python → List Event → Bridge → Bridge
unfolding step
run p [] b = b
run p (e ∷ es) b = run p es (step p e b)

-- Whether the broker has called `_on_connect`. It does so on the thread of its client, which
-- `loop_stop` ends.
abbrev pub is_connected : Event → Bool
is_connected (connected c) = true
is_connected _ = false

module _ (ms : List Message) (cs : List Call) where
  step-Off :
      (p : Python) (e : Event) (b : Bridge)
      → is_connected e ≡ false
      → Off ms cs b
      → Off ms cs (step p e b)
  unfolding step receive
  step-Off p (message topic payload) b other h =
      receive-Off ms cs p (command_parts b.prefix topic) payload b h
  step-Off p (call_returns o job) b other h = returned-Off ms cs o job b h
  step-Off p (app_event event_type body) b other h = event-Off ms cs p event_type body b h
  step-Off p (toys_return rows) b other h = answered-Off ms cs p rows b h
  step-Off p (connected c) b other h = absurd (ground arith)

  run-Off :
      (p : Python) (es : List Event) (b : Bridge)
      → any is_connected es ≡ false
      → Off ms cs b
      → Off ms cs (run p es b)
  unfolding run
  run-Off p [] b others h = h
  run-Off p (e ∷ es) b others h =
      run-Off p es (step p e b) (ground arith) (step-Off p e b (ground arith) h)

-- After the stop of the bridge nothing is published and nothing is asked of the control client, whatever
-- commands and events follow, and whatever calls and refreshes return that had begun before it; unless
-- the broker still calls `_on_connect`.
pub stop-silent :
    (p : Python) (es : List Event) (b : Bridge)
    → any is_connected es ≡ false
    → ((run p es (stop b)).sent ≡ (stop b).sent) × ((run p es (stop b)).calls ≡ (stop b).calls)
unfolding stop
stop-silent p es b others =
    let s : Bridge = stop b in
    let after : Off s.sent s.calls (run p es s) =
      run-Off s.sent s.calls p es s others
        (record { no_mqtt = refl; no_control = refl; same_sent = refl; same_calls = refl }) in
    (after.same_sent, after.same_calls)
