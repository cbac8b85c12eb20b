-- ===== src/Ble/Attempts.antt =====
-- How a write that is tried again ends.
use lovensepy.Base.{
  ℕ, zero, suc, ◌+◌, ◌<◌, ◌≡◌, refl, ap, ◌∙◌, ◌≢◌, true, arith, ℕ_Eq, String_Eq, Pair_Eq, Codes_Eq,
  if_true,
}
use lovensepy.Base.Result.{Result, ok, err, ble_error}
use lovensepy.Ble.Wire.{Line}
use lovensepy.Ble.Link.{
  Client, Radio, Outcome, delivered, transient, fatal, attempt_write, write, note_failure,
  note_write, settle,
}

-- The client after so many more attempts, and after a line went through.
abbrev pub tried_more : ℕ → Client → Client
tried_more n c = record c { tried = n + c.tried }

abbrev pub attempts_end : Outcome → Line → Client → Result (Unit {0}) × Client
attempts_end delivered line c = (ok tt, note_write line c)
attempts_end _ line c = (err ble_error, note_failure c)

settle_end :
    (o : Outcome)
    → o ≢ transient
    → (line : Line) (again : Result (Unit {0}) × Client) (c : Client)
    → settle o line again c ≡ attempts_end o line c
settle_end delivered ends line again c = refl
settle_end transient ends line again c = absurd (ends refl)
settle_end fatal ends line again c = refl

module _ (radio : Radio) (o : Outcome) (ends : o ≢ transient) (line : Line) where
  attempts_course :
      (k n : ℕ) (c : Client)
      → k < n
      → ((i : ℕ) → i < k → radio (i + c.tried) ≡ transient)
      → radio (k + c.tried) ≡ o
      → attempt_write radio n line c ≡ attempts_end o line (tried_more k c)
  unfolding attempt_write
  attempts_course k zero c h before at = ground arith
  attempts_course zero (suc n) c h before at =
      let at_first : c.tried ≡ 0 + c.tried = omega arith in
      ap (λ i. settle (radio i) line (attempt_write radio n line (note_failure c)) c) at_first
      ∙ ap (λ p. settle p line (attempt_write radio n line (note_failure c)) c) at
      ∙ settle_end o ends line (attempt_write radio n line (note_failure c)) c
      ∙ ap (λ i. attempts_end o line (record c { tried = i })) at_first
  attempts_course (suc k) (suc n) c h before at =
      let past : (j : ℕ) → j + suc c.tried ≡ suc j + c.tried = λ j. omega arith in
      let at_first : c.tried ≡ 0 + c.tried = omega arith in
      ap (λ i. settle (radio i) line (attempt_write radio n line (note_failure c)) c) at_first
      ∙ ap (λ p. settle p line (attempt_write radio n line (note_failure c)) c)
          (before 0 (omega arith))
      ∙ attempts_course k n (note_failure c) (omega arith)
          (λ i l. ap radio (past i) ∙ before (suc i) (omega arith)) (ap radio (past k) ∙ at)
      ∙ ap (λ i. attempts_end o line (record c { tried = i })) (past k)

-- A write on a connected client. When its first k attempts, fewer than the limit, end in transient
-- errors and the next one does not, the write ends as that one does: the line is sent once and the
-- call returns, or the call raises and nothing is sent. It has made k + 1 attempts.
pub write-attempts_end :
    (radio : Radio) (o : Outcome) (line : Line) (k : ℕ) (c : Client)
    → o ≢ transient
    → c.is_connected ≡ true
    → k < c.gatt_write_max_attempts
    → ((i : ℕ) → i < k → radio (i + c.tried) ≡ transient)
    → radio (k + c.tried) ≡ o
    → write radio line c ≡ attempts_end o line (tried_more k c)
unfolding write
write-attempts_end radio o line k c ends h l before at =
    if_true c.is_connected (attempt_write radio c.gatt_write_max_attempts line c) (err ble_error, c)
      h
    ∙ attempts_course radio o ends line k c.gatt_write_max_attempts c l before at
