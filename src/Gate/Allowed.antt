-- ===== src/Gate/Allowed.antt =====
-- Which requests stand approved: only those that the host has allowed while they waited.
use lovensepy.Base.{
  ℕ, String, ◌≡◌, ap, ◌∙◌, ◌⊎◌, inl, inr, Bool, true, false, not, ◌&&◌, Option, none, some, List,
  arith, eq_iff, Bool-cases, Option-cases, ◌==◌, ℕ_Eq, String_Eq, Pair_Eq, Codes_Eq,
}
use lovensepy.Base.Dict.{
  get, map_values, map_at, get-put, get-pop, get-keep, get-map_values, map_values-Distinct,
  Distinct, keep_at,
}
use lovensepy.Gate.Types.{PendingApproval, AccessGate, Platform, expired}
use lovensepy.Gate.Invariant.{IsValid, purge_sessions-IsValid}
use lovensepy.Gate.Challenge.{issue_challenge, verify, is_pending, mint_session, ensure_host_code}
use lovensepy.Gate.Approvals.{
  create_approval, is_approved, mark_expired, purge_approvals, is_dead, new_row, Visitor,
  is_waiting, approval_status, claim_approval,
}
use lovensepy.Gate.Events.{
  Event, allow, request, step, challenge, check, claim, drop_session, enter_code, host_code,
  list_pending, poll, refuse, report,
}
use lovensepy.Gate.Decisions.{approve, deny, status, granted, refused, pending_approvals}
use lovensepy.Gate.Sessions.{purge_sessions, session_valid, revoke}

abbrev pub StandsAllowed : AccessGate → String → PendingApproval → Type 0
StandsAllowed g id row = (get id g.approvals ≡ some row) × (is_approved row.status ≡ true)

-- The host allows a request that waits.
abbrev pub Allows : Event → AccessGate → String → PendingApproval → Type 0
Allows (allow now id' token) g id row =
    (id' ≡ id)
    × (row.session_token ≡ some token)
    × (w : PendingApproval) × (get id g.approvals ≡ some w)
    × (is_waiting now w ≡ true)
Allows _ g id row = ⊥

-- What a purge leaves of one request.
abbrev pub purge_at : ℕ → String → Option PendingApproval → Option PendingApproval
purge_at now id o = keep_at (λ _ r. not (is_dead now r)) id (map_at (mark_expired now) o)

pub get-purge_approvals :
    (now : ℕ) (id : String) (g : AccessGate)
    → Distinct g.approvals
    → get id (purge_approvals now g).approvals ≡ purge_at now id (get id g.approvals)
unfolding purge_approvals
get-purge_approvals now id g d =
    get-keep (λ _ r. not (is_dead now r)) id (map_values (mark_expired now) g.approvals)
      (map_values-Distinct (mark_expired now) g.approvals d)
    ∙ ap (keep_at (λ _ r. not (is_dead now r)) id)
        (get-map_values (mark_expired now) id g.approvals)

marked-approved :
    (now : ℕ) (row : PendingApproval) (o : Option PendingApproval)
    → map_at (mark_expired now) o ≡ some row
    → is_approved row.status ≡ true
    → o ≡ some row
marked-approved now row none e a = ground arith
marked-approved now row (some r) e a = ground arith

marked-waiting :
    (now : ℕ) (row : PendingApproval) (o : Option PendingApproval)
    → map_at (mark_expired now) o ≡ some row
    → is_pending row.status ≡ true
    → o ≡ some row
marked-waiting now row none e a = ground arith
marked-waiting now row (some r) e a = ground arith

module _ (now : ℕ) (g : AccessGate) (v : IsValid g) (id : String) (row : PendingApproval) where
  purged :
      get id (purge_approvals now g).approvals ≡ some row
      → map_at (mark_expired now) (get id g.approvals) ≡ some row
  purged h = ground (arith, get-purge_approvals now id g v.rows_ok.distinct)

  pub purge-approved :
      get id (purge_approvals now g).approvals ≡ some row
      → is_approved row.status ≡ true
      → get id g.approvals ≡ some row
  purge-approved h a = marked-approved now row (get id g.approvals) (purged h) a

  pub purge-pending :
      get id (purge_approvals now g).approvals ≡ some row
      → is_pending row.status ≡ true
      → get id g.approvals ≡ some row
  purge-pending h a = marked-waiting now row (get id g.approvals) (purged h) a

pub approvals-issue_challenge :
    (p : Platform) (now draw : ℕ) (force : Bool) (g : AccessGate)
    → (issue_challenge p now force draw g).1.approvals ≡ g.approvals
unfolding issue_challenge
approvals-issue_challenge p now draw force g = ground arith

module _ (p : Platform) (g : AccessGate) (v : IsValid g) (id : String) (row : PendingApproval) where
  allowed-verify :
      (raw : List ℕ) (now : ℕ) (token : String)
      → get id (verify p raw now token g).1.approvals ≡ some row
      → get id g.approvals ≡ some row
  unfolding verify mint_session
  allowed-verify raw now token h =
      ground (arith, get-keep (λ _ r. not (is_pending r.status)) id g.approvals v.rows_ok.distinct)

  allowed-request :
      (now now' draw : ℕ) (id' : String) (visitor : Visitor)
      → get id (create_approval p now now' draw id' visitor g).1.approvals ≡ some row
      → is_approved row.status ≡ true
      → get id g.approvals ≡ some row
  unfolding create_approval new_row
  allowed-request now now' draw id' visitor h a =
      let g' : AccessGate = purge_approvals now g in
      ground (
        arith,
        purge-approved now g v id row,
        get-put id' id (new_row p now id' visitor g') g'.approvals,
        approvals-issue_challenge p now' draw false g',
      )

  allowed-poll :
      (now : ℕ) (id' : String)
      → get id (approval_status p now id' g).1.approvals ≡ some row
      → is_approved row.status ≡ true
      → get id g.approvals ≡ some row
  unfolding approval_status
  allowed-poll now id' h a =
      let d = (purge_approvals now g).approvals in
      elim (Option-cases (get id' d)) [
        | inl e ↦ ground (arith, purge-approved now g v id row)
        | inr (r, e) ↦
            ground (
              arith,
              purge-approved now g v id row,
              get-put id' id (record r { status = expired }) d,
            )
      ]

  allowed-claim :
      (now : ℕ) (id' : String)
      → get id (claim_approval now id' g).1.approvals ≡ some row
      → get id g.approvals ≡ some row
  unfolding claim_approval
  allowed-claim now id' h = elim (Option-cases (get id' g.approvals)) [
    | inl e ↦ ground arith
    | inr (r, e) ↦ ground (arith, get-pop id' id g.approvals)
  ]

  allowed-refuse :
      (now : ℕ) (id' : String)
      → get id (deny p now id' g).1.approvals ≡ some row
      → is_approved row.status ≡ true
      → get id g.approvals ≡ some row
  unfolding deny
  allowed-refuse now id' h a =
      let d = (purge_approvals now g).approvals in
      elim (Option-cases (get id' d)) [
        | inl e ↦ ground (arith, purge-approved now g v id row)
        | inr (r, e) ↦
            ground (arith, purge-approved now g v id row, get-put id' id (refused now r) d)
      ]

  allowed-allow :
      (now : ℕ) (id' token : String)
      → get id (approve p now id' token g).1.approvals ≡ some row
      → is_approved row.status ≡ true
      → (get id g.approvals ≡ some row) ⊎ Allows (allow now id' token) g id row
  unfolding approve
  allowed-allow now id' token h a =
      let g' : AccessGate = purge_approvals now g in
      elim (Option-cases (get id' g'.approvals)) [
        | inl e ↦ inl (ground (arith, purge-approved now g v id row))
        | inr (r, e) ↦
            let law = get-put id' id (granted now token g' r) g'.approvals in
            elim (Bool-cases (id' == id && is_waiting now r)) [
              | inl this ↦
                  let same : id' ≡ id = ground (arith, eq_iff id' id) in
                  inr (
                    same,
                    ground (arith, law, eq_iff id' id),
                    r,
                    purge-pending now g v id r (rw same at e) (ground arith),
                    ground arith,
                  )
              | inr other ↦ inl (ground (arith, law, eq_iff id' id, purge-approved now g v id row))
            ]
      ]

  allowed-report :
      (now : ℕ)
      → get id (status p now g).1.approvals ≡ some row
      → is_approved row.status ≡ true
      → get id g.approvals ≡ some row
  unfolding status purge_sessions
  allowed-report now h a =
      purge-approved now (purge_sessions now g) (purge_sessions-IsValid now g v) id row h a

-- Whatever is called, a request that stands approved afterwards stood so before, unchanged, or the
-- call was the host's Allow for it, made while the request still waited.
pub step-StandsAllowed :
    (p : Platform) (ev : Event) (g : AccessGate) (id : String) (row : PendingApproval)
    → IsValid g
    → StandsAllowed (step p ev g) id row
    → StandsAllowed g id row ⊎ Allows ev g id row
unfolding step ensure_host_code session_valid purge_sessions pending_approvals revoke
step-StandsAllowed p (challenge now force draw) g id row v (h, a) =
    inl (rw approvals-issue_challenge at h, a)
step-StandsAllowed p (host_code now now' rotate draw) g id row v (h, a) =
    inl (ground (arith, approvals-issue_challenge p now draw rotate g), a)
step-StandsAllowed p (enter_code raw now token) g id row v (h, a) =
    inl (allowed-verify p g v id row raw now token h, a)
step-StandsAllowed p (request now now' draw id' visitor) g id row v (h, a) =
    inl (allowed-request p g v id row now now' draw id' visitor h a, a)
step-StandsAllowed p (poll now id') g id row v (h, a) =
    inl (allowed-poll p g v id row now id' h a, a)
step-StandsAllowed p (claim now id') g id row v (h, a) =
    inl (allowed-claim p g v id row now id' h, a)
step-StandsAllowed p (allow now id' token) g id row v (h, a) =
    elim (allowed-allow p g v id row now id' token h a) [
      | inl old ↦ inl (old, a)
      | inr new ↦ inr new
    ]
step-StandsAllowed p (refuse now id') g id row v (h, a) =
    inl (allowed-refuse p g v id row now id' h a, a)
step-StandsAllowed p (check token now) g id row v (h, a) = inl (ground arith, a)
step-StandsAllowed p (drop_session none) g id row v (h, a) = inl (h, a)
step-StandsAllowed p (drop_session (some t)) g id row v (h, a) = inl (ground arith, a)
step-StandsAllowed p (list_pending now) g id row v (h, a) =
    inl (purge-approved now g v id row h a, a)
step-StandsAllowed p (report now) g id row v (h, a) = inl (allowed-report p g v id row now h a, a)
