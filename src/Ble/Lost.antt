-- ===== src/Ble/Lost.antt =====
-- What the client forgets after a line that it does not map itself, such as a battery query.
use lovensepy.Base.{
  ℕ, suc, String, ◌≡◌, refl, sym, ap, ◌∙◌, true, List, ℕ_Eq, String_Eq, Pair_Eq, Codes_Eq,
}
use mathlib.Core.Path.{subst}
use lovensepy.Base.Result.{Result, ok}
use lovensepy.Ble.Wire.{Line, level, query, pair_lines}
use lovensepy.Ble.Link.{
  Client, Radio, delivered, two, send_uart, send_uart_for_clamped, note_write, clear_dedupe,
  features_of, motor_toy_type_hint, remember,
}
use lovensepy.Ble.Clear.{last_number, send_uart_clear, primed}
use lovensepy.Ble.Pair.{remembering, prime_of_one, whole}
use lovensepy.Ble.Tracks.{DualReady, sent_wanted, after_pair}
use lovensepy.Ble.Wire.{pair_lines}
use lovensepy.Base.Dict.{get}

-- The client after a query that went through.
abbrev queried : String → Client → Client
queried q c = note_write (query q) (clear_dedupe true c)

queried_ready : (q : String) (c : Client) → DualReady c → DualReady (queried q c)
unfolding clear_dedupe features_of motor_toy_type_hint
queried_ready q c r = record {
  dual = r.dual;
  primes = r.primes;
  connected = r.connected;
  left = r.left;
  attempts = r.attempts;
}

-- Motor 2 at its old level, both levels remembered as asked.
abbrev Strayed : ℕ → ℕ → Client → Type 0
Strayed a b c = (last_number "Vibrate2" c.sent ≡ b) × (c.dual_vibrate_levels ≡ (a, 0))

strayed :
    (radio : Radio) (a : ℕ) (q : String) (c : Client)
    → ((n : ℕ) → radio n ≡ delivered)
    → DualReady c
    → Strayed
        (suc a)
        (last_number "Vibrate2" c.sent)
        (send_uart_for_clamped radio (two (suc a) 0) (queried q c)).1
unfolding get clear_dedupe pair_lines remember lovensepy.Ble.Link.peer_line
strayed radio a q c clear r =
    let c1 : Client = queried q c in
    let ready = queried_ready q c r in
    subst (λ (x : Result (List Line) × Client). Strayed (suc a) (last_number "Vibrate2" c.sent) x.1)
      (sym (
        sent_wanted radio (two (suc a) 0) c1 clear ready refl
        ∙ ap (λ n. (ok (pair_lines n 0), remembering n 0 (after_pair n 0 c1))) (whole (suc a))))
      (
        ap (λ p. last_number "Vibrate2" (primed p c1).sent)
            (prime_of_one (level "Vibrate1" (suc a)) c1 ready.primes ready.dual),
        refl,
      )

-- A Bluetooth toy with two motors, every write of which goes through. After a line that is sent as it
-- is, such as a battery query, a request for the first motor to run and for the second to stop leaves
-- the level last written to the second motor as it was, whatever it was, while the client remembers
-- that the second motor stands still.
pub send_uart-Strayed :
    (radio : Radio) (a : ℕ) (q : String) (c : Client)
    → ((n : ℕ) → radio n ≡ delivered)
    → DualReady c
    → Strayed
        (suc a)
        (last_number "Vibrate2" c.sent)
        (send_uart_for_clamped radio (two (suc a) 0) (send_uart radio true (query q) c).1).1
send_uart-Strayed radio a q c clear r =
    subst
      (λ (x : Result (Unit {0}) × Client).
        Strayed (suc a) (last_number "Vibrate2" c.sent)
          (send_uart_for_clamped radio (two (suc a) 0) x.1).1)
      (sym (send_uart_clear radio clear true (query q) c r.left r.connected r.attempts))
      (strayed radio a q c clear r)
