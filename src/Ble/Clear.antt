-- ===== src/Ble/Clear.antt =====
-- Writes that all go through: what the client is after them.
use lovensepy.Base.{
  ℕ, suc, String, ◌≡◌, refl, ap, ◌∙◌, Bool, true, false, Option, none, some, List, [], ◌∷◌,
  if◌then◌else◌, ◌==◌, ℕ_Eq, String_Eq, Pair_Eq, Codes_Eq, if_true,
}
use lovensepy.Base.Result.{ok, err, ble_error, Result}
use lovensepy.Ble.Wire.{query, level, Line}
use lovensepy.Ble.Link.{
  send_prime, send_lines, ◌>>◌, settle, note_failure, delivered, Client, Radio, note_write,
  attempt_write, write, clear_dedupe, send_uart,
}

-- The last level written to a channel, 0 if none was.
abbrev pub last_number : String → List Line → ℕ
last_number head [] = 0
last_number head (query _ ∷ lines) = last_number head lines
last_number head (level h n ∷ lines) = if h == head then n else last_number head lines

-- The client after these lines, all of which went through.
abbrev pub wrote : List Line → Client → Client
wrote [] c = c
wrote (line ∷ lines) c = wrote lines (note_write line (clear_dedupe true c))

abbrev pub primed : Option Line → Client → Client
primed none c = c
primed (some line) c = note_write line (clear_dedupe false c)

-- What `>>` does with the outcome of a write.
abbrev next_lines : Radio → List Line → Result (Unit {0}) × Client → Result (Unit {0}) × Client
next_lines radio lines r = elim (r.0) [ ok _ ↦ send_lines radio lines (r.1) | err e ↦ (err e, r.1) ]

module _ (radio : Radio) (clear : (n : ℕ) → radio n ≡ delivered) where
  pub send_uart_clear :
      (reset : Bool) (line : Line) (c : Client) (k : ℕ)
      → c.is_connected ≡ true
      → c.gatt_write_max_attempts ≡ suc k
      → send_uart radio reset line c ≡ (ok tt, note_write line (clear_dedupe reset c))
  unfolding send_uart write attempt_write clear_dedupe
  send_uart_clear reset line c k h e =
      let c0 : Client = clear_dedupe reset c in
      let again = attempt_write radio k line (note_failure c0) in
      if_true c.is_connected (write radio line c0) (err ble_error, c) h
      ∙ if_true c.is_connected (attempt_write radio c.gatt_write_max_attempts line c0)
          (err ble_error, c0) h
      ∙ ap (λ n. attempt_write radio n line c0) e
      ∙ ap (λ o. settle o line again c0) (clear c.tried)

  pub send_lines_clear :
      (lines : List Line) (c : Client) (k : ℕ)
      → c.is_connected ≡ true
      → c.gatt_write_max_attempts ≡ suc k
      → send_lines radio lines c ≡ (ok tt, wrote lines c)
  unfolding send_lines clear_dedupe
  send_lines_clear [] c k h e = refl
  send_lines_clear (line ∷ lines) c k h e =
      ap (λ (r : Result (Unit {0}) × Client). next_lines radio lines r)
        (send_uart_clear true line c k h e)
      ∙ send_lines_clear lines (note_write line (clear_dedupe true c)) k h e

  pub all_clear :
      (p : Option Line) (lines : List Line) (c : Client) (k : ℕ)
      → c.is_connected ≡ true
      → c.gatt_write_max_attempts ≡ suc k
      → (send_prime radio p >> send_lines radio lines) c ≡ (ok tt, wrote lines (primed p c))
  unfolding send_prime clear_dedupe
  all_clear none lines c k h e = send_lines_clear lines c k h e
  all_clear (some line) lines c k h e =
      ap (λ (r : Result (Unit {0}) × Client). next_lines radio lines r)
        (send_uart_clear false line c k h e)
      ∙ send_lines_clear lines (note_write line (clear_dedupe false c)) k h e
