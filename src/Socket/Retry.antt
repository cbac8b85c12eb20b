-- ===== src/Socket/Retry.antt =====
-- lovensepy/socket_api/client.py: the loop of `connect_with_retry`. The n-th run ends; then a stop may
-- have been requested by then, or be requested during the pause behind it.
use lovensepy.Base.{
  ℕ, zero, suc, ◌+◌, ◌≤◌, ◌<◌, ◌≡◌, refl, ◌∙◌, inl, inr, Bool, true, false, not, ◌&&◌, ◌||◌, Option,
  none, some, arith, ltb, nat_eq, if◌then◌else◌, Bool-cases, ℕ_Eq, String_Eq, Pair_Eq, Codes_Eq,
  if_true, if_false,
}

-- max_retries is not None and attempts > max_retries
unfoldable pub over : Option ℕ → ℕ → Bool
over none attempts = false
over (some m) attempts = ltb m attempts

module _ (stopped asleep : ℕ → Bool) where
  -- The loop with `attempts` runs behind it: the number of runs in the end, none where the fuel is out.
  unfoldable pub retry_loop : ℕ → Option ℕ → ℕ → Option ℕ
  unfolding over
  retry_loop zero max_retries attempts = none
  retry_loop (suc fuel) max_retries attempts =
      let rest = retry_loop fuel max_retries (suc attempts) in
      if stopped attempts
      then some (suc attempts)
      else if over max_retries (suc attempts)
      then some (suc attempts)
      else if asleep attempts
      then some (suc attempts)
      else rest

  -- With the flag as it is found; a client that was disconnected before is not connected.
  unfoldable pub connect_with_retry : ℕ → Bool → Option ℕ → Option ℕ
  unfolding retry_loop
  connect_with_retry fuel stop_requested max_retries =
      if stop_requested then some 0 else retry_loop fuel max_retries 0

  -- Nobody asked for a stop during the first n runs and the pauses behind them.
  unfoldable pub quiet : ℕ → Bool
  quiet zero = true
  quiet (suc n) = quiet n && not (stopped n) && not (asleep n)

  -- How the loop ended after k runs: by the limit, or by a stop in the last run or behind it.
  abbrev pub ended_by : ℕ → ℕ → Bool
  ended_by m zero = false
  ended_by m (suc k) = nat_eq k m || stopped k || asleep k

  retry_loop-ends :
      (fuel m attempts : ℕ)
      → m < fuel + attempts
      → attempts ≤ m
      → quiet attempts ≡ true
      → (k : ℕ) × (retry_loop fuel (some m) attempts ≡ some (suc k))
        × (k ≤ m)
        × (quiet k ≡ true)
        × (ended_by m (suc k) ≡ true)
  unfolding retry_loop over quiet
  retry_loop-ends zero m attempts h low q = absurd (omega arith)
  retry_loop-ends (suc fuel) m attempts h low q =
      let rest : Option ℕ = retry_loop fuel (some m) (suc attempts) in
      let here : Option ℕ = some (suc attempts) in
      let after_limit : Option ℕ = if asleep attempts then here else rest in
      let in_loop : Option ℕ = if ltb m (suc attempts) then here else after_limit in
      elim (Bool-cases (stopped attempts)) [
        | inl s ↦ (attempts, if_true (stopped attempts) here in_loop s, low, q, ground arith)
        | inr t ↦
            let on : retry_loop (suc fuel) (some m) attempts ≡ in_loop =
              if_false (stopped attempts) here in_loop t in
            elim (Bool-cases (ltb m (suc attempts))) [
              | inl o ↦ (
                attempts,
                on ∙ if_true (ltb m (suc attempts)) here after_limit o,
                low,
                q,
                ground (arith, o, low),
              )
              | inr u ↦ elim (Bool-cases (asleep attempts)) [
                | inl a ↦ (
                  attempts,
                  on
                      ∙ if_false (ltb m (suc attempts)) here after_limit u
                      ∙ if_true (asleep attempts) here rest a,
                  low,
                  q,
                  ground arith,
                )
                | inr w ↦
                    let later =
                      retry_loop-ends fuel m (suc attempts) (omega arith) (ground (arith, u))
                        (ground arith) in
                    (
                      later.0,
                      on
                          ∙ if_false (ltb m (suc attempts)) here after_limit u
                          ∙ if_false (asleep attempts) here rest w
                          ∙ later.1,
                      later.2,
                      later.3,
                      later.4,
                    )
              ]
            ]
      ]

  -- With a limit of m retries the loop ends, whatever the runs bring, after at most m + 1 of them: nobody
  -- asked for a stop before the last run, and it is the last one allowed, or one was asked for.
  pub connect_with_retry-ends :
      (fuel m : ℕ)
      → m < fuel
      → (k : ℕ) × (connect_with_retry fuel false (some m) ≡ some (suc k))
        × (k ≤ m)
        × (quiet k ≡ true)
        × (ended_by m (suc k) ≡ true)
  unfolding connect_with_retry quiet
  connect_with_retry-ends fuel m h = retry_loop-ends fuel m 0 (omega arith) (omega arith) refl
