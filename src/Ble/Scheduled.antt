-- ===== src/Ble/Scheduled.antt =====
-- A scheduler's stop of one motor, as it reaches a Bluetooth toy with two.
use lovensepy.Base.{
  ℕ, String, ◌≡◌, refl, sym, ap, ◌∙◌, true, false, ◌||◌, Option, none, some, List, [], ◌∷◌, arith,
  eq_iff, is_some, ℕ_Eq, String_Eq, Pair_Eq, Codes_Eq, if_false,
}
use lovensepy.Base.Result.{Result}
use lovensepy.Ble.Wire.{Line}
use lovensepy.Ble.Link.{Client, Radio, delivered, send_uart_for_clamped}
use lovensepy.Ble.Play.{function_body, timed_body, endless}
use lovensepy.Ble.Clear.{last_number}
use lovensepy.Ble.Pair.{Tracks, wanted_second}
use lovensepy.Ble.Tracks.{DualReady, send_uart_for_clamped-Driven}
use lovensepy.Scheduler.Types.{Call, function_request}
use lovensepy.Scheduler.Merge.{level_in}
use lovensepy.Base.Int.{ℤ}
use lovensepy.Base.Dict.{Dict, get, pop, pop-Distinct, map_at}
use lovensepy.Base.Result.{Result}
use lovensepy.Toys.Commands.{clamp_level, clamp_function_actions}
use lovensepy.Ble.Wire.{Line, ble_clamp_actions}
use lovensepy.Ble.Link.{Client, Radio, delivered, send_uart_for_clamped}
use lovensepy.Ble.Play.{function_body, timed_body, endless}
use lovensepy.Ble.Clear.{last_number}
use lovensepy.Ble.Pair.{Tracks, wanted_second}
use lovensepy.Ble.Tracks.{DualReady, send_uart_for_clamped-Driven}
use lovensepy.Scheduler.Types.{Scheduler, Toys, Key, Call, function_request, send}
use lovensepy.Scheduler.Holds.{stop_feature, drop_level}
use lovensepy.Scheduler.Merge.{level_in, clamp_at, snapshot_call-levels}
use lovensepy.Scheduler.Motors.{last_level, pop_hit, pop_miss}
use lovensepy.Scheduler.Quiet.{cancel_slot-SameMotors}
use lovensepy.Scheduler.Valid.{IsValid}
use lovensepy.Scheduler.Snapshot.{apply_snapshot, clamp_feature}
use lovensepy.Scheduler.Slots.{cancel_slot}
use lovensepy.Scheduler.Steps.{cancel_slot-IsValid}

get-clamped :
    (f : String) (actions : Dict String ℤ)
    → get f (clamp_function_actions actions) ≡ map_at (clamp_level f) (get f actions)
unfolding clamp_function_actions get
get-clamped f [] = refl
get-clamped f ((g, value) ∷ actions) = ground (arith, get-clamped f actions, eq_iff g f)

-- What the last call sets a feature to, once another motor is left.
stopped_level :
    (toys : Option Toys) (toy g : String) (level : ℤ) (s : Scheduler)
    → IsValid s
    → get (toy, "Vibrate1") s.levels ≡ some level
    → last_level g (stop_feature toys (toy, "Vibrate2") s)
      ≡ clamp_at g (get (toy, g) (pop (toy, "Vibrate2") s.levels))
unfolding stop_feature drop_level apply_snapshot send
stopped_level toys toy g level s v h =
    let quiet = cancel_slot-SameMotors toys (toy, "Vibrate2") s v in
    let levels = (cancel_slot toys (toy, "Vibrate2") s).levels in
    let distinct = (cancel_slot-IsValid toys (toy, "Vibrate2") s v).levels_distinct in
    snapshot_call-levels toys toy g "Vibrate1" level (pop (toy, "Vibrate2") levels)
      (pop-Distinct (toy, "Vibrate2") levels distinct)
      (pop_miss toy "Vibrate2" "Vibrate1" levels refl
        ∙ ap (get (toy, "Vibrate1")) quiet.same_levels
        ∙ h)
    ∙ ap (λ (l : Dict Key ℤ). clamp_at g (get (toy, g) (pop (toy, "Vibrate2") l))) quiet.same_levels

none_clamped :
    (f : String) (actions : Dict String ℤ)
    → get f actions ≡ none
    → get f (ble_clamp_actions actions) ≡ none
unfolding ble_clamp_actions
none_clamped f actions h = get-clamped f actions ∙ ap (map_at (clamp_level f)) h

some_clamped :
    (f : String) (actions : Dict String ℤ) (level : ℤ)
    → get f actions ≡ some level
    → is_some (get f (ble_clamp_actions actions)) ≡ true
unfolding ble_clamp_actions
some_clamped f actions level h = ap is_some (get-clamped f actions ∙ ap (map_at (clamp_level f)) h)

-- A request that names the first motor alone leaves the second one as it was.
one_motor :
    (radio : Radio) (actions : Dict String ℤ) (level : ℤ) (c : Client)
    → ((n : ℕ) → radio n ≡ delivered)
    → DualReady c
    → Tracks c
    → get "Vibrate1" actions ≡ some level
    → get "Vibrate2" actions ≡ none
    → get "Stop" actions ≡ none
    → last_number "Vibrate2" (function_body radio actions false endless c).1.sent
      ≡ c.dual_vibrate_levels.1
unfolding function_body timed_body
one_motor radio actions level c clear r t first second stop =
    let clamped = ble_clamp_actions actions in
    let named : (is_some (get "Vibrate1" clamped) || is_some (get "Vibrate2" clamped)) ≡ true =
      ap (λ b. b || is_some (get "Vibrate2" clamped))
        (some_clamped "Vibrate1" actions level first) in
    let driven = send_uart_for_clamped-Driven radio clamped c clear r t named in
    ap (λ (x : Result (List Line) × Client). last_number "Vibrate2" x.1.sent)
      (if_false (is_some (get "Stop" actions)) _ (send_uart_for_clamped radio clamped c)
        (ap is_some stop))
    ∙ driven.second_at
    ∙ ap (λ v. wanted_second v c) (none_clamped "Vibrate2" actions second)

-- The scheduler holds the first motor of a toy, and stops the second. The toy is on Bluetooth, every
-- write to it goes through, and its client remembers the levels last written. The request of the
-- scheduler, run to its end, leaves the second motor at the level that it had.
pub stop_feature-last_number :
    (radio : Radio) (toys : Option Toys) (toy toy_id : String) (level : ℤ) (s : Scheduler)
    (actions : Dict String ℤ) (calls : List Call) (c : Client)
    → IsValid s
    → get (toy, "Vibrate1") s.levels ≡ some level
    → get (toy, "Stop") s.levels ≡ none
    → (stop_feature toys (toy, "Vibrate2") s).sent ≡ function_request actions toy_id ∷ calls
    → ((n : ℕ) → radio n ≡ delivered)
    → DualReady c
    → Tracks c
    → last_number "Vibrate2" (function_body radio actions false endless c).1.sent
      ≡ c.dual_vibrate_levels.1
stop_feature-last_number radio toys toy toy_id level s actions calls c v h st sent clear r t =
    let at : (g : String)
        → get g actions ≡ clamp_at g (get (toy, g) (pop (toy, "Vibrate2") s.levels)) =
      λ g.
        sym (ap (λ (l : List Call). elim l [ [] ↦ none | call ∷ _ ↦ level_in g call ]) sent)
        ∙ stopped_level toys toy g level s v h in
    one_motor radio actions (clamp_feature "Vibrate1" level) c clear r t
      (at "Vibrate1"
        ∙ ap (clamp_at "Vibrate1") (pop_miss toy "Vibrate2" "Vibrate1" s.levels refl ∙ h))
      (at "Vibrate2" ∙ ap (clamp_at "Vibrate2") (pop_hit toy "Vibrate2" s.levels))
      (at "Stop" ∙ ap (clamp_at "Stop") (pop_miss toy "Vibrate2" "Stop" s.levels refl ∙ st))
