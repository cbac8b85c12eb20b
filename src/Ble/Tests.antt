-- ===== src/Ble/Tests.antt =====
-- Tests of direct Bluetooth, and its theorems at concrete inputs.
use lovensepy.Base.{
  ℕ, zero, suc, ◌+◌, ◌-◌, ◌*◌, ◌/◌, ◌%◌, ◌^◌, ◌≤◌, ◌<◌, min, max, String, ◌≡◌, refl, sym, ap, ◌∙◌,
  ◌≢◌, ◌↔◌, ◌⊎◌, inl, inr, Bool, true, false, not, ◌&&◌, ◌||◌, Option, none, some, List, [], ◌∷◌,
  ◌++◌, map, arith, eq_iff, ltb, leb, nat_eq, if◌then◌else◌, ltb→lt, lt→ltb, leb→le, le→leb,
  nat_eq_iff, Bool-cases, Option-cases, is_some, length, take, drop, all, any, length-append, All,
  All-append, HasSame, ◌==◌, ==-self, ℕ_Eq, String_Eq, Pair_Eq, Codes_Eq, pair_eq_iff, codes_eq_iff,
  tests, if_split, if_true, if_false,
}
use lovensepy.Ble.Replies.{Digits, parse_battery_percent}
use lovensepy.Ble.Battery.{is_ascii_digit, IsUnicode, parse_battery_percent-tag}
use lovensepy.Lan.Pattern.{show, value}
use lovensepy.Base.Text.{codes, strip}
use lovensepy.Base.Result.{ok, err, value_error, ble_error}
use lovensepy.Scheduler.Types.{Scheduler, Call, function_request, new_scheduler}
use lovensepy.Scheduler.Holds.{stop_feature, add_slot}
use lovensepy.Scheduler.Valid.{IsValid}
use lovensepy.Scheduler.Steps.{add_slot-IsValid}
use lovensepy.Ble.Play.{function_body, endless}
use lovensepy.Ble.Scheduled.{stop_feature-last_number}
use lovensepy.Base.Int.{pos}
use lovensepy.Base.Dict.{get}
use lovensepy.Ble.Wire.{Line, level, query, is_dual, uart_heads}
use lovensepy.Ble.Link.{
  Client, Motor, both, first, Radio, Outcome, delivered, transient, fatal, two, send_uart,
  send_uart_for_clamped, silence_all_motors, write, features_of,
}
use lovensepy.Ble.Clear.{last_number}
use lovensepy.Ble.Pair.{Tracks}
use lovensepy.Ble.Tracks.{DualReady, Driven, send_uart_for_clamped-Driven}
use lovensepy.Ble.Lost.{send_uart-Strayed}
use lovensepy.Ble.Silence.{silence_all_motors-last_number}
use lovensepy.Ble.Supervisor.{ToyState, new_state, Keeper, World, Row, Config, round, supervise_all}
use lovensepy.Ble.Registry.{Hub, ToyEntry, add_toy}
use lovensepy.Ble.Hub.{Named, one, require_ids, stop}
use lovensepy.Ble.HubStop.{Within, Rested, stop-Rested}
use lovensepy.Ble.Replaced.{add_toy-stop}
use lovensepy.Ble.Keeping.{LeftAlone, round-LeftAlone}
use lovensepy.Ble.Wedged.{Aborted, supervise_all-Aborted}
use lovensepy.Scheduler.Runs.{new_scheduler-IsValid}

abbrev all_through : Radio
all_through n = delivered

-- A toy with two motors, both at 5.
abbrev edge : Client
edge = record {
  toy_type_hint = some "edge";
  last_adv_slug = none;
  prime_peer_zero = true;
  prime_delay = pos 45;
  gatt_write_max_attempts = 3;
  is_connected = true;
  last_vibrate_sig = none;
  dual_vibrate_levels = (5, 5);
  dual_last_nonzero_motor = some both;
  sent = level "Vibrate2" 5 ∷ level "Vibrate1" 5 ∷ [];
  tried = 2;
}

edge_ready : DualReady edge
unfolding features_of is_dual lovensepy.Ble.Wire.uart_features
    lovensepy.Toys.Features.default_features_for_toy_type lovensepy.Base.Text.lower
    lovensepy.Base.Text.strip lovensepy.Ble.Link.motor_toy_type_hint get
    lovensepy.Toys.Features.drop_blanks
edge_ready = record { dual = refl; primes = refl; connected = refl; left = 2; attempts = refl }

edge-Tracks : Tracks edge
edge-Tracks = record { first_level = refl; second_level = refl; first_ran = tt; second_ran = tt }

send_uart_for_clamped-Driven_example :
    Driven 9 5 (send_uart_for_clamped all_through (("Vibrate1", pos 9000) ∷ []) edge).1
unfolding get
send_uart_for_clamped-Driven_example =
    send_uart_for_clamped-Driven all_through (("Vibrate1", pos 9000) ∷ []) edge (λ n. refl)
      edge_ready edge-Tracks refl

-- Edge after a battery query, and then told to run its first motor only.
abbrev queried_edge : Client
queried_edge = (send_uart all_through true (query "Battery;") edge).1

abbrev led_astray : Client
led_astray = (send_uart_for_clamped all_through (two 7 0) queried_edge).1

send_uart-Strayed_example :
    (last_number "Vibrate2" led_astray.sent ≡ 5) × (led_astray.dual_vibrate_levels ≡ (7, 0))
send_uart-Strayed_example = send_uart-Strayed all_through 6 "Battery;" edge (λ n. refl) edge_ready

silence_all_motors-last_number_example :
    last_number "Vibrate2" (silence_all_motors all_through none edge).1.sent ≡ 0
unfolding lovensepy.Ble.Link.motor_toy_type_hint lovensepy.Ble.Wire.uart_features
    lovensepy.Toys.Features.default_features_for_toy_type lovensepy.Base.Text.lower
    lovensepy.Base.Text.strip get lovensepy.Toys.Features.drop_blanks
silence_all_motors-last_number_example =
    silence_all_motors-last_number all_through none "Vibrate2" "Vibrate2" edge 2 (λ n. refl) refl
      refl refl refl

-- The third write goes through after a transient error; the fourth does not.
abbrev patchy : Radio
patchy n = if nat_eq n 2 then transient else if nat_eq n 3 then delivered else fatal

patchy_before : (i : ℕ) → i < 1 → patchy (i + 2) ≡ transient
patchy_before zero h = refl
patchy_before (suc i) h = absurd (omega arith)

abbrev world : World
world = record { clock = λ n. 100000 + n; connects = λ n. some "timeout"; roll = λ n. 500 }

abbrev config : Config
config = record { ble_auto_reconnect = true; ble_battery_refresh = 60000 }

abbrev down : String → Row
down id = record { toy_id = id; is_up = false; battery = none }

abbrev resting : ToyState
resting = record new_state { paused = true }

abbrev failing : ToyState
failing = record new_state { attempts = 1208 }

abbrev keeper : Keeper
keeper = record {
  states = ("a", resting) ∷ ("b", failing) ∷ [];
  calls = [];
  ticks = 0;
  changes = 0;
}

round-LeftAlone_example :
    LeftAlone config 100000 "a" 0 (round world config (some (down "a" ∷ down "c" ∷ [])) keeper).1
unfolding get
round-LeftAlone_example =
    round-LeftAlone world config (down "a" ∷ down "c" ∷ []) "a" resting keeper
      (unfold get in refl, (unfold get in refl, tt)) refl refl refl

supervise_all-Aborted_example :
    Aborted "b" failing keeper (supervise_all world config 100000 (down "b" ∷ down "c" ∷ []) keeper)
unfolding get
supervise_all-Aborted_example =
    supervise_all-Aborted world config 100000 (down "b") (down "c" ∷ []) failing keeper "timeout"
      refl refl refl (omega arith) refl

abbrev entry_of : Client → ToyEntry
entry_of c = record {
  client = c;
  display_name = "LVS-Edge";
  toy_type_slug = some "edge";
  firmware = none;
  model_letter = none;
  suggested_features = [];
  battery_percent = none;
}

-- One toy in reach, and one that is not.
abbrev hub : Hub
hub = ("a", entry_of edge) ∷ ("b", entry_of (record edge { is_connected = false })) ∷ []

edge-Within : Within "a" "Vibrate2" hub
unfolding get lovensepy.Ble.Link.motor_toy_type_hint lovensepy.Ble.Wire.uart_features
    lovensepy.Toys.Features.default_features_for_toy_type lovensepy.Base.Text.lower strip
    lovensepy.Toys.Features.drop_blanks
edge-Within = record {
  entry = entry_of edge;
  listed = refl;
  ready = record { connected = refl; left = 2; attempts = refl };
  motor = refl;
}

stop-Rested_example : Rested "a" "Vibrate2" "Vibrate2" (stop (λ id. all_through) Named.every hub).1
unfolding get require_ids
stop-Rested_example =
    stop-Rested (λ id. all_through) Named.every ("a" ∷ "b" ∷ []) "a" "Vibrate2" "Vibrate2" hub
      (λ id n. refl) refl refl refl edge-Within

-- The registry after the refusal.
abbrev without_a : Hub
without_a = (add_toy "a" (some "edge") none true 1 hub).1

add_toy-stop_example :
    ((add_toy "a" (some "edge") none true 1 hub).0 ≡ err ble_error)
    × (stop (λ id. all_through) (one "a") without_a ≡ (err ble_error, without_a))
unfolding strip get
add_toy-stop_example =
    add_toy-stop (λ id. all_through) "a" (some "edge") none 1 (entry_of edge) hub refl refl refl

-- Both motors of a toy are held at 5.
abbrev one_held : Scheduler
one_held = add_slot 1000 "a" ("t1", "Vibrate1") (pos 5000) (pos 0) (new_scheduler 60000)

abbrev both_held : Scheduler
both_held = add_slot 1000 "b" ("t1", "Vibrate2") (pos 5000) (pos 0) one_held

both_held-IsValid : IsValid both_held
both_held-IsValid =
    add_slot-IsValid 1000 "b" ("t1", "Vibrate2") (pos 5000) (pos 0) one_held
      (add_slot-IsValid 1000 "a" ("t1", "Vibrate1") (pos 5000) (pos 0) (new_scheduler 60000)
        (new_scheduler-IsValid 60000))

-- The second one is stopped: the request names the first alone.
first_alone :
    (stop_feature none ("t1", "Vibrate2") both_held).sent
    ≡ function_request (("Vibrate1", pos 5000) ∷ []) "t1" ∷ []
unfolding stop_feature lovensepy.Scheduler.Holds.drop_level
    lovensepy.Scheduler.Snapshot.apply_snapshot lovensepy.Scheduler.Types.send
    lovensepy.Scheduler.Snapshot.snapshot_call lovensepy.Scheduler.Slots.cancel_slot
    lovensepy.Scheduler.Snapshot.call_of lovensepy.Scheduler.Slots.cancel_old
    lovensepy.Scheduler.Snapshot.clamp_actions get lovensepy.Scheduler.Snapshot.gather add_slot
    lovensepy.Base.Dict.pop lovensepy.Base.Dict.put new_scheduler
    lovensepy.Scheduler.Slots.cancel_task lovensepy.Scheduler.Slots.cancel_found
    lovensepy.Scheduler.Slots.cancel_in lovensepy.Scheduler.Slots.set_phase
    lovensepy.Scheduler.Snapshot.clamp_feature lovensepy.Scheduler.Snapshot.clamp_round
    lovensepy.Base.Int.round_even
first_alone = refl

stop_feature-last_number_example :
    last_number "Vibrate2"
      (function_body all_through (("Vibrate1", pos 5000) ∷ []) false endless edge).1.sent
    ≡ 5
unfolding get add_slot lovensepy.Base.Dict.put new_scheduler
stop_feature-last_number_example =
    stop_feature-last_number all_through none "t1" "t1" (pos 5000) both_held
      (("Vibrate1", pos 5000) ∷ []) [] edge both_held-IsValid refl refl first_alone (λ n. refl)
      edge_ready edge-Tracks

-- The digits of ASCII, and the superscript two, which is a digit but no decimal.
abbrev ascii : Digits
ascii = record {
  is_decimal = is_ascii_digit;
  is_digit = λ c. is_ascii_digit c || nat_eq c 178;
  int_of = λ s. some (value 0 s);
}

-- "s92;"
tagged_reply : parse_battery_percent ascii (codes "s92;") ≡ ok 92
unfolding parse_battery_percent value
tagged_reply = refl

-- A superscript two before the digits.
superscript_reply : parse_battery_percent ascii (120 ∷ 178 ∷ codes "92;") ≡ err value_error
unfolding parse_battery_percent
superscript_reply = refl

long_reply : parse_battery_percent ascii (codes "x1234") ≡ err value_error
unfolding parse_battery_percent
long_reply = refl

value_shown : (n : ℕ) → n < 1000 → value 0 (show n) ≡ n
unfolding value show
value_shown n h = ground arith

ascii-IsUnicode : IsUnicode ascii
ascii-IsUnicode = record {
  ascii_decimal = λ c h. h;
  decimal_digit = λ c h. ground arith;
  int_of-show = λ n h. ap some (value_shown n h);
}

parse_battery_percent-tag_example :
    parse_battery_percent ascii ((codes "Bat: " ++ show 120) ++ codes ";") ≡ ok 100
parse_battery_percent-tag_example =
    parse_battery_percent-tag ascii (codes "Bat: ") 120 ascii-IsUnicode refl refl (omega arith)
