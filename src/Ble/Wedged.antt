-- ===== src/Ble/Wedged.antt =====
-- A round after so many failures that the delay cannot be computed.
use lovensepy.Base.{
  ℕ, suc, ◌<◌, String, ◌≡◌, refl, sym, ap, ◌∙◌, false, not, ◌||◌, none, some, List, ◌∷◌, arith, ltb,
  ◌==◌, ==-self, ℕ_Eq, String_Eq, Pair_Eq, Codes_Eq, if_true, if_false,
}
use mathlib.Core.Path.{subst}
use lovensepy.Base.Dict.{get, get-put}
use lovensepy.Base.Result.{Result, ok, err, overflow_error}
use lovensepy.Ble.Supervisor.{
  ToyState, Keeper, World, Row, Config, connect, state, ask, tick, delayed, connect_ended,
  try_reconnect, supervise, then_rows, supervise_all, backoff, new_state,
}
use lovensepy.Ble.Backoff.{backoff_overflow}

-- The round has ended in an OverflowError after the connect of this toy, and left its state without a
-- new delay.
pub record Aborted (toy : String) (st : ToyState) (k : Keeper) (r : Result (Unit {0}) × Keeper)
    : Type 0 where
  pub raised : r.0 ≡ err overflow_error
  pub calls_made : r.1.calls ≡ connect toy ∷ k.calls
  pub at : ToyState
  pub listed : get toy r.1.states ≡ some at
  pub same_delay : at.next_attempt ≡ st.next_attempt
  pub counted : at.attempts ≡ suc st.attempts

module _ (w : World) (toy : String) (st : ToyState) (k : Keeper) (e : String) where
  -- The state that the failed attempt leaves.
  abbrev given_up : ToyState
  given_up = record st {
    attempts = suc st.attempts;
    last_attempt = some (w.clock k.ticks);
    last_error = some e;
  }

  aborted :
      1207 < st.attempts
      → w.connects (suc k.ticks) ≡ some e
      → Aborted toy st k (try_reconnect w toy st k)
  unfolding try_reconnect connect_ended
  aborted l c =
      let k' : Keeper = ask (connect toy) (tick k) in
      let st' : ToyState = record st {
        attempts = suc st.attempts;
        last_attempt = some (w.clock k.ticks);
      } in
      subst (Aborted toy st k)
        (sym (
          ap (λ o. connect_ended w toy st' o k') c
          ∙ ap (λ n. delayed w toy e given_up (backoff n) k') (omega arith)
          ∙ ap (λ b. delayed w toy e given_up b k') ((backoff_overflow st.attempts).1 l)))
        (record {
          raised = refl;
          calls_made = refl;
          at = given_up;
          listed = get-put toy toy given_up k.states ∙ if_true (toy == toy) _ _ (==-self toy);
          same_delay = refl;
          counted = refl;
        })

then_rows-Aborted :
    (rest : Keeper → Result (Unit {0}) × Keeper) (toy : String) (st : ToyState) (k : Keeper)
    (r : Result (Unit {0}) × Keeper)
    → Aborted toy st k r
    → Aborted toy st k (then_rows rest r)
then_rows-Aborted rest toy st k (ok x, k') a = absurd (ground (arith, a.raised))
then_rows-Aborted rest toy st k (err x, k') a = a

-- A toy that is down and due, and whose last 1208 or more attempts have all failed: when the connect
-- fails once more, the round ends in an OverflowError, the toy is due again at once, and no toy that
-- follows it among the rows is looked at.
pub supervise_all-Aborted :
    (w : World) (cfg : Config) (now : ℕ) (row : Row) (rows : List Row) (st : ToyState) (k : Keeper)
    (e : String)
    → row.is_up ≡ false
    → get row.toy_id k.states ≡ some st
    → (st.paused || not cfg.ble_auto_reconnect || ltb now st.next_attempt) ≡ false
    → 1207 < st.attempts
    → w.connects (suc k.ticks) ≡ some e
    → Aborted row.toy_id st k (supervise_all w cfg now (row ∷ rows) k)
unfolding supervise_all supervise state
supervise_all-Aborted w cfg now row rows st k e down g due l c =
    let found : state row.toy_id k ≡ st = ap (λ o. elim o [ none ↦ new_state | some s ↦ s ]) g in
    let due_now =
      ap (λ (s : ToyState). s.paused || not cfg.ble_auto_reconnect || ltb now s.next_attempt) found
      ∙ due in
    let tried : supervise w cfg now row k
        ≡ try_reconnect w row.toy_id (record st { connected_since = none }) k =
      if_false row.is_up _ _ down
      ∙ if_false _ _ _ due_now
      ∙ ap (λ (s : ToyState). try_reconnect w row.toy_id (record s { connected_since = none }) k)
          found in
    let a = aborted w row.toy_id (record st { connected_since = none }) k e l c in
    then_rows-Aborted (λ k'. supervise_all w cfg now rows k') row.toy_id st k
      (supervise w cfg now row k)
      (subst (Aborted row.toy_id st k) (sym tried) (record {
        raised = a.raised;
        calls_made = a.calls_made;
        at = a.at;
        listed = a.listed;
        same_delay = a.same_delay;
        counted = a.counted;
      }))
