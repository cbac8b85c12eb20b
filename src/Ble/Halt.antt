-- ===== src/Ble/Halt.antt =====
-- The stop of one toy: where it leaves the motors, and that the client can be stopped again.
use lovensepy.Base.{
  ℕ, suc, String, ◌≡◌, refl, sym, ◌∙◌, true, Option, none, some, List, [], ◌∷◌, ℕ_Eq, String_Eq,
  Pair_Eq, Codes_Eq, if_split,
}
use mathlib.Core.Path.{subst}
use lovensepy.Base.Dict.{get}
use lovensepy.Base.Result.{Result, ok, err}
use lovensepy.Ble.Wire.{Line, uart_heads}
use lovensepy.Ble.Link.{
  Client, Radio, delivered, silence_all_motors, note_write, write_all, stop_lines,
  motor_toy_type_hint, given_or,
}
use lovensepy.Ble.Play.{stop_body, silence}
use lovensepy.Ble.Clear.{last_number}
use lovensepy.Ble.Silence.{silence_all_motors-last_number, write_clear, may_have}

-- The fields of a client that a stop needs and does not change.
pub record Same (c c' : Client) : Type 0 where
  pub connected : c'.is_connected ≡ c.is_connected
  pub attempts : c'.gatt_write_max_attempts ≡ c.gatt_write_max_attempts
  pub hint : c'.toy_type_hint ≡ c.toy_type_hint
  pub slug : c'.last_adv_slug ≡ c.last_adv_slug

-- A client that is connected and makes at least one attempt at a write.
pub record Ready (c : Client) : Type 0 where
  pub connected : c.is_connected ≡ true
  pub left : ℕ
  pub attempts : c.gatt_write_max_attempts ≡ suc left

-- What `stop_body` returns after the stop.
abbrev then_nothing : Result (Unit {0}) × Client → Result (List Line) × Client
then_nothing r = elim (r.0) [ ok _ ↦ (ok [], r.1) | err e ↦ (err e, r.1) ]

nothing_more : (r : Result (Unit {0}) × Client) → (then_nothing r).1 ≡ r.1
nothing_more (ok _, c) = refl
nothing_more (err e, c) = refl

pub record Stopped (head : String) (c : Client) : Type 0 where
  pub at_zero : last_number head c.sent ≡ 0
  pub ready : Ready c

module _ (radio : Radio) (clear : (n : ℕ) → radio n ≡ delivered) where
  write_all-Same : (lines : List Line) (c : Client) → Ready c → Same c (write_all radio lines c).1
  unfolding write_all
  write_all-Same [] c r = record { connected = refl; attempts = refl; hint = refl; slug = refl }
  write_all-Same (line ∷ lines) c r =
      let next : Client = note_write line c in
      let s =
        write_all-Same lines next
          (record { connected = r.connected; left = r.left; attempts = r.attempts }) in
      subst (λ (x : Result (Unit {0}) × Client). Same c (write_all radio lines x.1).1)
        (sym (write_clear radio clear line c r.left r.connected r.attempts))
        (record { connected = s.connected; attempts = s.attempts; hint = s.hint; slug = s.slug })

  silence-Same :
      (toy_type : Option String) (c : Client)
      → Ready c
      → Same c (silence_all_motors radio toy_type c).1
  unfolding silence_all_motors
  silence-Same toy_type c r =
      let c0 : Client = record c { last_vibrate_sig = none } in
      let lines : List Line = stop_lines (given_or toy_type (motor_toy_type_hint c)) in
      let s =
        write_all-Same lines c0
          (record { connected = r.connected; left = r.left; attempts = r.attempts }) in
      if_split (λ (x : Result (Unit {0}) × Client). Same c x.1) c.is_connected _ _
        (λ _. record {
          connected = s.connected;
          attempts = s.attempts;
          hint = s.hint;
          slug = s.slug;
        })
        (λ _. record { connected = refl; attempts = refl; hint = refl; slug = refl })

  stop_body-client : (c : Client) → (stop_body radio c).1 ≡ (silence_all_motors radio none c).1
  unfolding stop_body silence
  stop_body-client c = nothing_more (silence_all_motors radio none c)

  -- The last level of a head is 0 after a stop, and the client can be stopped again.
  pub stop_body-Stopped :
      (feature head : String) (c : Client)
      → Ready c
      → may_have (motor_toy_type_hint c) feature ≡ true
      → get feature uart_heads ≡ some head
      → Stopped head (stop_body radio c).1
  stop_body-Stopped feature head c r m g =
      let s = silence-Same none c r in
      subst (Stopped head) (sym (stop_body-client c)) (record {
        at_zero =
            silence_all_motors-last_number radio none feature head c r.left clear r.connected
              r.attempts m g;
        ready = record {
          connected = s.connected ∙ r.connected;
          left = r.left;
          attempts = s.attempts ∙ r.attempts;
        };
      })

  pub stop_body-Same : (c : Client) → Ready c → Same c (stop_body radio c).1
  stop_body-Same c r = subst (Same c) (sym (stop_body-client c)) (silence-Same none c r)
