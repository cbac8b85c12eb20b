-- ===== src/Ble/Tracks.antt =====
-- What the client remembers of two motors, against the lines that went through.
use lovensepy.Base.{
  ℕ, suc, String, ◌≡◌, refl, sym, ap, ◌∙◌, true, ◌||◌, Option, none, some, List, [], ◌∷◌, is_some,
  ℕ_Eq, String_Eq, Pair_Eq, Codes_Eq, if_true,
}
use mathlib.Core.Path.{subst}
use lovensepy.Base.Int.{ℤ}
use lovensepy.Base.Dict.{Dict, get}
use lovensepy.Base.Result.{ok, Result}
use lovensepy.Ble.Wire.{Line, is_dual, pair_lines, actions_to_uart}
use lovensepy.Ble.Link.{
  primes_peer, coerce_dual, motor_toy_type_hint, send_uart_for_clamped, finish, send_mapped, two,
  prime_of, features_of, delivered, Client, Radio, note_write, clear_dedupe,
}
use lovensepy.Ble.Clear.{last_number, wrote, primed, all_clear}
use lovensepy.Ble.Pair.{
  Tracks, pair_actions, pair_Stands, remember_pair, remembering, remembering-Tracks, wanted_first,
  wanted_second, fill_peer-two,
}

-- The client has been told of two motors, primes the one that stops, is connected and makes at least
-- one attempt at a write.
pub record DualReady (c : Client) : Type 0 where
  pub dual : is_dual (features_of c) ≡ true
  pub primes : primes_peer c ≡ true
  pub connected : c.is_connected ≡ true
  pub left : ℕ
  pub attempts : c.gatt_write_max_attempts ≡ suc left

-- The motors stand at these levels, by what was written and by what the client remembers.
pub record Driven (a b : ℕ) (c : Client) : Type 0 where
  pub tracks : Tracks c
  pub first_at : last_number "Vibrate1" c.sent ≡ a
  pub second_at : last_number "Vibrate2" c.sent ≡ b

wrote_features : (lines : List Line) (c : Client) → features_of (wrote lines c) ≡ features_of c
unfolding features_of motor_toy_type_hint clear_dedupe
wrote_features [] c = refl
wrote_features (line ∷ lines) c = wrote_features lines (note_write line (clear_dedupe true c))

primed_features : (p : Option Line) (c : Client) → features_of (primed p c) ≡ features_of c
unfolding features_of motor_toy_type_hint clear_dedupe
primed_features none c = refl
primed_features (some line) c = refl

-- The client after the lines of a pair.
abbrev pub after_pair : ℕ → ℕ → Client → Client
after_pair a b c = wrote (pair_lines a b) (primed (prime_of c (pair_lines a b)) c)

after_pair_dual :
    (a b : ℕ) (c : Client)
    → is_dual (features_of c) ≡ true
    → is_dual (features_of (after_pair a b c)) ≡ true
after_pair_dual a b c d =
    ap is_dual (
      wrote_features (pair_lines a b) (primed (prime_of c (pair_lines a b)) c)
      ∙ primed_features (prime_of c (pair_lines a b)) c)
    ∙ d

sent_pair :
    (radio : Radio) (a b : ℕ) (c : Client)
    → ((n : ℕ) → radio n ≡ delivered)
    → DualReady c
    → send_mapped radio (two a b) (ok (pair_lines a b)) c
      ≡ (ok (pair_lines a b), remembering a b (after_pair a b c))
unfolding send_mapped
sent_pair radio a b c clear r =
    ap (λ x. finish (two a b) (pair_lines a b) x)
      (all_clear radio clear (prime_of c (pair_lines a b)) (pair_lines a b) c r.left r.connected
        r.attempts)
    ∙ ap (λ x. (ok (pair_lines a b), x))
        (remember_pair a b (after_pair a b c) (after_pair_dual a b c r.dual))

coerced :
    (actions : Dict String ℤ) (c : Client)
    → is_dual (features_of c) ≡ true
    → (is_some (get "Vibrate1" actions) || is_some (get "Vibrate2" actions)) ≡ true
    → coerce_dual c actions
      ≡ two (wanted_first (get "Vibrate1" actions) c) (wanted_second (get "Vibrate2" actions) c)
unfolding coerce_dual
coerced actions c d h =
    if_true (is_dual (features_of c)) _ actions d
    ∙ fill_peer-two (get "Vibrate1" actions) (get "Vibrate2" actions) actions c h

pub sent_wanted :
    (radio : Radio) (actions : Dict String ℤ) (c : Client)
    → ((n : ℕ) → radio n ≡ delivered)
    → DualReady c
    → (is_some (get "Vibrate1" actions) || is_some (get "Vibrate2" actions)) ≡ true
    → let a = wanted_first (get "Vibrate1" actions) c in
      let b = wanted_second (get "Vibrate2" actions) c in
      send_uart_for_clamped radio actions c
      ≡ (ok (pair_lines a b), remembering a b (after_pair a b c))
unfolding send_uart_for_clamped
sent_wanted radio actions c clear r h =
    let a = wanted_first (get "Vibrate1" actions) c in
    let b = wanted_second (get "Vibrate2" actions) c in
    ap (λ x. send_mapped radio x (actions_to_uart (features_of c) x) c) (coerced actions c r.dual h)
    ∙ ap (λ x. send_mapped radio (two a b) x c) (pair_actions (features_of c) a b r.dual)
    ∙ sent_pair radio a b c clear r

-- A Bluetooth toy with two motors. Every write goes through, and the client remembers the levels last
-- written. A request that names a vibration channel is answered, and then the last level written to
-- each motor is the one that was asked for; a channel that the request does not name keeps its level.
-- The client remembers these levels.
pub send_uart_for_clamped-Driven :
    (radio : Radio) (actions : Dict String ℤ) (c : Client)
    → ((n : ℕ) → radio n ≡ delivered)
    → DualReady c
    → Tracks c
    → (is_some (get "Vibrate1" actions) || is_some (get "Vibrate2" actions)) ≡ true
    → Driven
        (wanted_first (get "Vibrate1" actions) c)
        (wanted_second (get "Vibrate2" actions) c)
        (send_uart_for_clamped radio actions c).1
send_uart_for_clamped-Driven radio actions c clear r t h =
    let a = wanted_first (get "Vibrate1" actions) c in
    let b = wanted_second (get "Vibrate2" actions) c in
    let stands = pair_Stands a b c t r.primes r.dual in
    subst (λ (x : Result (List Line) × Client). Driven a b x.1)
      (sym (sent_wanted radio actions c clear r h))
      (record {
        tracks = remembering-Tracks a b (after_pair a b c) stands;
        first_at = stands.0;
        second_at = stands.1;
      })
