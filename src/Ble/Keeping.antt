-- ===== src/Ble/Keeping.antt =====
-- Whom the keeper leaves alone, and what becomes of a round that cannot compute a delay.
use lovensepy.Base.{
  ℕ, suc, ◌+◌, ◌-◌, String, ◌≡◌, refl, sym, ap, ◌∙◌, inl, inr, Bool, true, false, not, ◌&&◌, ◌||◌,
  Option, none, some, List, [], ◌∷◌, map, arith, eq_iff, ltb, leb, if◌then◌else◌, Bool-cases,
  is_some, ◌==◌, ℕ_Eq, String_Eq, Pair_Eq, Codes_Eq, if_split, if_true, if_false,
}
use mathlib.Core.Path.{subst}
use lovensepy.Base.Dict.{Dict, get, put, get-put, get-keep, keep_at, Distinct}
use lovensepy.Base.Result.{Result, ok, err}
use lovensepy.Toys.Features.{member}
use lovensepy.Ble.Supervisor.{
  ToyState, Keeper, World, Row, Config, Call, connect, refresh_battery, state, set_state, changed,
  ask, tick, delayed, connect_ended, try_reconnect, maybe_refresh_battery, note_up, supervise,
  then_rows, supervise_all, drop_stale, round, backoff, new_state,
}

-- How often the hub was asked to connect a toy.
abbrev pub asked : String → List Call → ℕ
asked id [] = 0
asked id (connect toy ∷ calls) = if toy == id then suc (asked id calls) else asked id calls
asked id (refresh_battery _ ∷ calls) = asked id calls

-- Nothing happened to this toy.
abbrev Same : String → Keeper → Keeper → Type 0
Same id k k' = (get id k'.states ≡ get id k.states) × (asked id k'.calls ≡ asked id k.calls)

module _ (id toy : String) (other : (toy == id) ≡ false) where
  get-put-other : (st : ToyState) (d : Dict String ToyState) → get id (put toy st d) ≡ get id d
  get-put-other st d = get-put toy id st d ∙ if_false (toy == id) (some st) (get id d) other

  asked-other : (calls : List Call) → asked id (connect toy ∷ calls) ≡ asked id calls
  asked-other calls = if_false (toy == id) (suc (asked id calls)) (asked id calls) other

  delayed-Same :
      (w : World) (e : String) (st : ToyState) (b : Result ℕ) (k : Keeper)
      → Same id k (delayed w toy e st b k).1
  delayed-Same w e st (err x) k = (get-put-other st k.states, refl)
  delayed-Same w e st (ok d) k = (get-put-other _ k.states, refl)

  connect_ended-Same :
      (w : World) (st : ToyState) (o : Option String) (k : Keeper)
      → Same id k (connect_ended w toy st o k).1
  unfolding connect_ended
  connect_ended-Same w st none k = (get-put-other _ k.states, refl)
  connect_ended-Same w st (some e) k =
      delayed-Same w e (record st { last_error = some e }) (backoff (st.attempts - 1)) k

  try_reconnect-Same :
      (w : World) (st : ToyState) (k : Keeper) → Same id k (try_reconnect w toy st k).1
  unfolding try_reconnect
  try_reconnect-Same w st k =
      let k' : Keeper = tick k in
      let st' : ToyState = record st {
        attempts = suc st.attempts;
        last_attempt = some (w.clock k.ticks);
      } in
      let same = connect_ended-Same w st' (w.connects k'.ticks) (ask (connect toy) k') in
      (same.0, same.1 ∙ asked-other k.calls)

-- A toy that the keeper must not connect now.
abbrev pub Off : Config → ℕ → ToyState → Type 0
Off cfg now st = (st.paused || not cfg.ble_auto_reconnect || ltb now st.next_attempt) ≡ true

-- It stays so, and was not asked for.
pub record LeftAlone (cfg : Config) (now : ℕ) (id : String) (n : ℕ) (k : Keeper) : Type 0 where
  pub at : ToyState
  pub listed : get id k.states ≡ some at
  pub off : Off cfg now at
  pub not_asked : asked id k.calls ≡ n

module _ (w : World) (cfg : Config) (now : ℕ) (id : String) (n : ℕ) where
  abbrev Alone : Keeper → Type 0
  Alone = LeftAlone cfg now id n

  refresh-other :
      (row : Row) (st : ToyState) (k : Keeper)
      → (row.toy_id == id) ≡ false
      → Same id k (maybe_refresh_battery w cfg row st k)
  unfolding maybe_refresh_battery
  refresh-other row st k other =
      let late : Bool = leb (st.battery_checked + cfg.ble_battery_refresh) (w.clock k.ticks) in
      if_split (λ (x : Keeper). Same id k x) (not late && is_some row.battery)
        (set_state row.toy_id st (tick k)) _
        (λ _. (get-put-other id row.toy_id other st k.states, refl))
        (λ _. (get-put-other id row.toy_id other _ k.states, refl))

  supervise-other :
      (row : Row) (k : Keeper)
      → (row.toy_id == id) ≡ false
      → Same id k (supervise w cfg now row k).1
  unfolding supervise
  supervise-other row k other =
      let st : ToyState = state row.toy_id k in
      let down : ToyState = record st { connected_since = none } in
      if_split (λ (r : Result (Unit {0}) × Keeper). Same id k r.1) row.is_up _ _
        (λ _. refresh-other row (note_up now st) k other)
        (λ _.
          if_split (λ (r : Result (Unit {0}) × Keeper). Same id k r.1)
            (st.paused || not cfg.ble_auto_reconnect || ltb now st.next_attempt) _ _
            (λ _. (get-put-other id row.toy_id other down k.states, refl))
            (λ _. try_reconnect-Same id row.toy_id other w down k))

  -- The toy's own row.
  set_state-Alone :
      (toy : String) (st : ToyState) (k : Keeper)
      → (toy == id) ≡ true
      → Off cfg now st
      → asked id k.calls ≡ n
      → Alone (set_state toy st k)
  set_state-Alone toy st k same o a = record {
    at = st;
    listed = get-put toy id st k.states ∙ if_true (toy == id) (some st) (get id k.states) same;
    off = o;
    not_asked = a;
  }

  changed-Alone :
      (toy : String) (k : Keeper) → Alone k → Alone (changed (ask (refresh_battery toy) k))
  changed-Alone toy k a = record {
    at = a.at;
    listed = a.listed;
    off = a.off;
    not_asked = a.not_asked;
  }

  refresh-own :
      (row : Row) (st : ToyState) (k : Keeper)
      → (row.toy_id == id) ≡ true
      → Off cfg now st
      → asked id k.calls ≡ n
      → Alone (maybe_refresh_battery w cfg row st k)
  unfolding maybe_refresh_battery
  refresh-own row st k same o a =
      let late : Bool = leb (st.battery_checked + cfg.ble_battery_refresh) (w.clock k.ticks) in
      let st' : ToyState = record st { battery_checked = w.clock (suc k.ticks) } in
      if_split Alone (not late && is_some row.battery) _ _
        (λ _. set_state-Alone row.toy_id st (tick k) same o a)
        (λ _.
          changed-Alone row.toy_id (set_state row.toy_id st' (tick (tick k)))
            (set_state-Alone row.toy_id st' (tick (tick k)) same o a))

  note_up-Off : (st : ToyState) → Off cfg now st → Off cfg now (note_up now st)
  unfolding note_up
  note_up-Off st o = if_split (Off cfg now) (is_some st.connected_since) st _ (λ _. o) (λ _. o)

  supervise-own :
      (row : Row) (k : Keeper)
      → (row.toy_id == id) ≡ true
      → Off cfg now (state row.toy_id k)
      → asked id k.calls ≡ n
      → Alone (supervise w cfg now row k).1
  unfolding supervise
  supervise-own row k same o a =
      let st : ToyState = state row.toy_id k in
      let down : ToyState = record st { connected_since = none } in
      if_split (λ (r : Result (Unit {0}) × Keeper). Alone r.1) row.is_up _ _
        (λ _. refresh-own row (note_up now st) k same (note_up-Off st o) a)
        (λ _.
          if_split (λ (r : Result (Unit {0}) × Keeper). Alone r.1)
            (st.paused || not cfg.ble_auto_reconnect || ltb now st.next_attempt) _ _
            (λ _. set_state-Alone row.toy_id down k same o a) (λ f. absurd (ground arith)))

  supervise-Alone : (row : Row) (k : Keeper) → Alone k → Alone (supervise w cfg now row k).1
  unfolding state
  supervise-Alone row k a = elim (Bool-cases (row.toy_id == id)) [
    | inl same ↦
        let own : row.toy_id ≡ id = (eq_iff row.toy_id id).0 same in
        let found : state row.toy_id k ≡ a.at =
          ap (λ t. state t k) own ∙ ap (λ o. elim o [ none ↦ new_state | some st ↦ st ]) a.listed in
        supervise-own row k same (subst (Off cfg now) (sym found) a.off) a.not_asked
    | inr other ↦
        let s = supervise-other row k other in
        record { at = a.at; listed = s.0 ∙ a.listed; off = a.off; not_asked = s.1 ∙ a.not_asked }
  ]

  then_rows-Alone :
      (rest : Keeper → Result (Unit {0}) × Keeper) (r : Result (Unit {0}) × Keeper)
      → ((k : Keeper) → Alone k → Alone (rest k).1)
      → Alone r.1
      → Alone (then_rows rest r).1
  then_rows-Alone rest (ok _, k) f a = f k a
  then_rows-Alone rest (err e, k) f a = a

  supervise_all-Alone :
      (rows : List Row) (k : Keeper) → Alone k → Alone (supervise_all w cfg now rows k).1
  unfolding supervise_all
  supervise_all-Alone [] k a = a
  supervise_all-Alone (row ∷ rows) k a =
      then_rows-Alone (λ k'. supervise_all w cfg now rows k') (supervise w cfg now row k)
        (λ k' a'. supervise_all-Alone rows k' a') (supervise-Alone row k a)

-- The ids of these rows.
abbrev pub ids : List Row → List String
ids rows = map (λ row. row.toy_id) rows

-- A toy that stands among the hub's rows, and that the keeper has paused or waits for, is left alone
-- for a round: the round does not connect it, even when it ends in an exception, and leaves it
-- listed, and paused or waiting as before. So is every toy while automatic reconnects are off.
pub round-LeftAlone :
    (w : World) (cfg : Config) (rows : List Row) (id : String) (st : ToyState) (k : Keeper)
    → Distinct k.states
    → get id k.states ≡ some st
    → member id (ids rows) ≡ true
    → Off cfg (w.clock k.ticks) st
    → LeftAlone cfg (w.clock k.ticks) id (asked id k.calls) (round w cfg (some rows) k).1
unfolding round drop_stale
round-LeftAlone w cfg rows id st k d g m o =
    supervise_all-Alone w cfg (w.clock k.ticks) id (asked id k.calls) rows
      (tick (drop_stale rows k))
      (record {
        at = st;
        listed =
            get-keep (λ i _. member i (ids rows)) id k.states d
            ∙ ap (λ q. keep_at (λ i _. member i (ids rows)) id q) g
            ∙ if_true (member id (ids rows)) (some st) none m;
        off = o;
        not_asked = refl;
      })
