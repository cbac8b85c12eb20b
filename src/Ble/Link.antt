-- ===== src/Ble/Link.antt =====
-- lovensepy/ble_direct/client.py: the writes of `BleDirectClient` and what it remembers of the motors.
-- `radio n` is how the n-th GATT write ends. `sent` holds the lines that went through, newest first;
-- a line ends in its semicolon. Pauses between writes are not kept.
use lovensepy.Base.{
  ℕ, zero, suc, ◌*◌, String, Bool, true, false, not, ◌&&◌, ◌||◌, Option, none, some, List, [], ◌∷◌,
  if◌then◌else◌, is_some, ◌==◌, ℕ_Eq, String_Eq, Pair_Eq, Codes_Eq,
}
use lovensepy.Base.Dict.{Dict, get}
use lovensepy.Base.Int.{ℤ, pos, negsuc}
use lovensepy.Base.Result.{Result, ok, err, ble_error}
use lovensepy.Base.Text.{truthy}
use lovensepy.Ble.Wire.{
  Line, level, query, uart_features, stop_lines_for_toy_type, default_full_stop_lines, is_dual,
  actions_to_uart, is_zero, int_of,
}

pub data Outcome : Type 0 where
  delivered transient fatal : Outcome

-- _dual_last_nonzero_motor
pub data Motor : Type 0 where
  first second both : Motor

pub record Client : Type 0 where
  pub toy_type_hint : Option String
  pub last_adv_slug : Option String
  pub prime_peer_zero : Bool
  -- in thousandths of a second; below 0 there is no priming
  pub prime_delay : ℤ
  pub gatt_write_max_attempts : ℕ
  pub is_connected : Bool
  pub last_vibrate_sig : Option (Dict String ℕ)
  pub dual_vibrate_levels : ℕ × ℕ
  pub dual_last_nonzero_motor : Option Motor
  pub sent : List Line
  pub tried : ℕ

abbrev pub Radio : Type 0
Radio = ℕ → Outcome

-- A method: what it returns or raises, and the client after it.
abbrev pub Action : Type 0 → Type 0
Action A = Client → Result A × Client

infixl 5 ◌>>=◌ ◌>>◌
abbrev pub ◌>>=◌ : {A B : Type 0} → Action A → (A → Action B) → Action B
◌>>=◌ m f c = let (r, c') = m c in elim r [ ok a ↦ f a c' | err e ↦ (err e, c') ]

abbrev pub ◌>>◌ : {A B : Type 0} → Action A → Action B → Action B
m >> k = m >>= λ _. k

abbrev pub done : Action (Unit {0})
done c = (ok tt, c)

-- contextlib.suppress(Exception)
abbrev pub suppress : Action (Unit {0}) → Action (Unit {0})
suppress m c = (ok tt, (m c).1)

-- One GATT write, and whether another attempt follows a transient error.
abbrev pub note_write : Line → Client → Client
note_write line c = record c { sent = line ∷ c.sent; tried = suc c.tried }

abbrev pub note_failure : Client → Client
note_failure c = record c { tried = suc c.tried }

-- What follows the outcome of an attempt.
abbrev pub settle :
    Outcome → Line → Result (Unit {0}) × Client → Client → Result (Unit {0}) × Client
settle delivered line again c = (ok tt, note_write line c)
settle transient line again c = again
settle fatal line again c = (err ble_error, note_failure c)

-- The loop of `_write_gatt_char_resilient` with the attempts that are left.
unfoldable pub attempt_write : Radio → ℕ → Line → Action (Unit {0})
attempt_write radio zero line c = (err ble_error, c)
attempt_write radio (suc left) line c =
    let again = attempt_write radio left line (note_failure c) in
    settle (radio c.tried) line again c

unfoldable pub write : Radio → Line → Action (Unit {0})
write radio line c =
    if c.is_connected
    then attempt_write radio c.gatt_write_max_attempts line c
    else (err ble_error, c)

unfoldable pub clear_dedupe : Bool → Client → Client
clear_dedupe reset c = record c {
  last_vibrate_sig = none;
  dual_last_nonzero_motor = if reset then none else c.dual_last_nonzero_motor;
}

-- `send_uart_bytes`, which `send_uart_command` calls.
unfoldable pub send_uart : Radio → Bool → Line → Action (Unit {0})
send_uart radio reset line c =
    if c.is_connected then write radio line (clear_dedupe reset c) else (err ble_error, c)

-- self._toy_type_hint or self._last_adv_slug
unfoldable pub motor_toy_type_hint : Client → Option String
motor_toy_type_hint c = if truthy c.toy_type_hint then c.toy_type_hint else c.last_adv_slug

unfoldable pub features_of : Client → List String
features_of c = uart_features (motor_toy_type_hint c)

unfoldable pub write_all : Radio → List Line → Action (Unit {0})
write_all radio [] c = (ok tt, c)
write_all radio (line ∷ lines) c = write_all radio lines (suppress (write radio line) c).1

-- The lines of a stop: those of the toy's type, or every one that is known.
unfoldable pub stop_lines : Option String → List Line
stop_lines toy_type =
    if truthy toy_type then stop_lines_for_toy_type toy_type else default_full_stop_lines

abbrev pub given_or : Option String → Option String → Option String
given_or none b = b
given_or (some a) b = some a

unfoldable pub silence_all_motors : Radio → Option String → Action (Unit {0})
silence_all_motors radio toy_type c =
    let lines = stop_lines (given_or toy_type (motor_toy_type_hint c)) in
    let c' = (write_all radio lines (record c { last_vibrate_sig = none })).1 in
    if c.is_connected
    then (ok tt, record c' { dual_vibrate_levels = (0, 0) })
    else (err ble_error, c)

abbrev pub two : ℕ → ℕ → Dict String ℤ
two v1 v2 = ("Vibrate1", pos (v1 * 1000)) ∷ ("Vibrate2", pos (v2 * 1000)) ∷ []

-- The channel that is not named keeps its last level.
unfoldable pub fill_peer : ℕ × ℕ → Dict String ℤ → Option ℤ → Option ℤ → Dict String ℤ
fill_peer last actions (some v1) (some v2) = two (int_of v1) (int_of v2)
fill_peer last actions none none = actions
fill_peer last actions (some v1) none = two (int_of v1) (last.1)
fill_peer last actions none (some v2) = two (last.0) (int_of v2)

unfoldable pub coerce_dual : Client → Dict String ℤ → Dict String ℤ
coerce_dual c actions =
    if is_dual (features_of c)
    then fill_peer c.dual_vibrate_levels actions (get "Vibrate1" actions) (get "Vibrate2" actions)
    else actions

abbrev pub off_second : Motor → Option Line
off_second first = none
off_second _ = some (level "Vibrate2" 0)

abbrev pub off_first : Motor → Option Line
off_first second = none
off_first _ = some (level "Vibrate1" 0)

-- The line that sets the other motor to 0 before this one takes over.
unfoldable pub peer_line : Option Motor → Line → Option Line
peer_line none line = none
peer_line (some last) (query _) = none
peer_line (some last) (level head n) =
    if is_zero n
    then none
    else if head == "Vibrate1"
    then off_second last
    else if head == "Vibrate2"
    then off_first last
    else none

-- Only a single line is primed, on a toy with two motors.
abbrev pub is_natural : ℤ → Bool
is_natural (pos n) = true
is_natural (negsuc n) = false

-- prime_peer_zero and prime_d >= 0
abbrev pub primes_peer : Client → Bool
primes_peer c = c.prime_peer_zero && is_natural c.prime_delay

unfoldable pub prime_of : Client → List Line → Option Line
prime_of c (line ∷ []) =
    if primes_peer c && is_dual (features_of c)
    then peer_line c.dual_last_nonzero_motor line
    else none
prime_of c _ = none

unfoldable pub send_prime : Radio → Option Line → Action (Unit {0})
send_prime radio none c = (ok tt, c)
send_prime radio (some line) c = send_uart radio false line c

unfoldable pub send_lines : Radio → List Line → Action (Unit {0})
send_lines radio [] = done
send_lines radio (line ∷ lines) = send_uart radio true line >> send_lines radio lines

abbrev pub level_or : ℕ → Option ℤ → ℕ
level_or n none = n
level_or n (some v) = int_of v

-- The motors that run, or what was known before.
unfoldable pub running : ℕ → ℕ → Option Motor → Option Motor
running v1 v2 before =
    if not (is_zero v1) && not (is_zero v2)
    then some both
    else if not (is_zero v1)
    then some first
    else if not (is_zero v2)
    then some second
    else before

unfoldable pub remember : Dict String ℤ → Client → Client
remember expanded c =
    let v1 = get "Vibrate1" expanded in
    let v2 = get "Vibrate2" expanded in
    record c {
      dual_vibrate_levels =
          (level_or c.dual_vibrate_levels.0 v1, level_or c.dual_vibrate_levels.1 v2);
      dual_last_nonzero_motor = running (level_or 0 v1) (level_or 0 v2) c.dual_last_nonzero_motor;
    }

unfoldable pub remember_levels : Dict String ℤ → Client → Client
remember_levels expanded c =
    if is_dual (features_of c)
      && (is_some (get "Vibrate1" expanded) || is_some (get "Vibrate2" expanded))
    then remember expanded c
    else c

abbrev pub finish :
    Dict String ℤ → List Line → Result (Unit {0}) × Client → Result (List Line) × Client
finish expanded lines (ok _, c) = (ok lines, remember_levels expanded c)
finish expanded lines (err e, c) = (err e, c)

-- The lines are at hand: prime, write, remember.
unfoldable pub send_mapped : Radio → Dict String ℤ → Result (List Line) → Action (List Line)
send_mapped radio expanded (err e) c = (err ble_error, c)
send_mapped radio expanded (ok lines) c =
    finish expanded lines ((send_prime radio (prime_of c lines) >> send_lines radio lines) c)

unfoldable pub send_uart_for_clamped : Radio → Dict String ℤ → Action (List Line)
send_uart_for_clamped radio actions c =
    let expanded = coerce_dual c actions in
    send_mapped radio expanded (actions_to_uart (features_of c) expanded) c
