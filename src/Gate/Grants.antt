-- ===== src/Gate/Grants.antt =====
-- Where sessions come from: a right code, or a request that the host has approved.
use lovensepy.Base.{
  ℕ, ◌+◌, ◌<◌, String, ◌≡◌, ◌⊎◌, inl, inr, Bool, true, not, ◌&&◌, Option, none, some, List, arith,
  eq_iff, ltb, leb, nat_eq, Bool-cases, Option-cases, length, all, ◌==◌, ℕ_Eq, String_Eq, Pair_Eq,
  Codes_Eq, codes_eq_iff, codes_eq,
}
use lovensepy.Base.Dict.{get, get-put, get-pop, get-keep}
use lovensepy.Base.Text.{truthy, or_empty}
use lovensepy.Gate.Types.{PendingCode, PendingApproval, AccessGate, Platform}
use lovensepy.Gate.Invariant.{IsValid}
use lovensepy.Gate.Challenge.{
  keep_digits, compare_digest, issue_challenge, verify, ensure_host_code, mint_session,
}
use lovensepy.Gate.Sessions.{revoke, session_valid, purge_sessions}
use lovensepy.Gate.Approvals.{
  approval_status, claim_approval, create_approval, purge_approvals, Visitor, is_approved,
}
use lovensepy.Gate.Decisions.{approve, deny, status, pending_approvals}
use lovensepy.Gate.Events.{
  Event, step, allow, challenge, check, claim, drop_session, enter_code, host_code, list_pending,
  poll, refuse, report, request,
}

-- The calls that may open a session, and what they need for it.
abbrev pub Granted : Platform → Event → AccessGate → String → ℕ → Type 0
Granted p (enter_code raw now token) g t e =
    (c : PendingCode) × (g.code ≡ some c)
    × (now < c.expires_mono)
    × (keep_digits p raw ≡ c.code)
    × (token ≡ t)
    × (e ≡ now + g.session_ttl_sec)
Granted p (claim now id) g t e =
    (row : PendingApproval) × (get id g.approvals ≡ some row)
    × (is_approved row.status ≡ true)
    × (row.session_token ≡ some t)
    × (e ≡ now + g.session_ttl_sec)
Granted p _ g t e = ⊥

module _ (p : Platform) (g : AccessGate) (t : String) (e : ℕ) where
  sessions-verify :
      (raw : List ℕ) (now : ℕ) (token : String)
      → get t (verify p raw now token g).1.sessions ≡ some e
      → (get t g.sessions ≡ some e) ⊎ Granted p (enter_code raw now token) g t e
  unfolding verify mint_session compare_digest
  sessions-verify raw now token h = elim (Option-cases g.code) [
    | inl none_of ↦ inl (ground arith)
    | inr (c, found) ↦
        let law = get-put token t (now + g.session_ttl_sec) g.sessions in
        let typed = codes_eq_iff (keep_digits p raw) c.code in
        elim (Bool-cases (
          ltb now c.expires_mono
          && nat_eq (length (keep_digits p raw)) 6
          && all (λ d. ltb d 128) (keep_digits p raw)
          && all (λ d. ltb d 128) c.code
          && codes_eq (keep_digits p raw) c.code
          && (token == t))) [
            | inl right ↦ inr (
              c,
              found,
              ground (arith, right),
              ground (arith, right, typed),
              ground (arith, right, eq_iff token t),
              ground (arith, right, law, eq_iff token t),
            )
            | inr wrong ↦ inl (ground (arith, wrong, law, typed, eq_iff token t))
          ]
  ]

  sessions-claim :
      (now : ℕ) (id : String)
      → get t (claim_approval now id g).1.sessions ≡ some e
      → (get t g.sessions ≡ some e) ⊎ Granted p (claim now id) g t e
  unfolding claim_approval
  sessions-claim now id h = elim (Option-cases (get id g.approvals)) [
    | inl f ↦ inl (ground arith)
    | inr (row, f) ↦
        let token = or_empty row.session_token in
        let law = get-put token t (now + g.session_ttl_sec) g.sessions in
        elim (Bool-cases (is_approved row.status && truthy row.session_token)) [
          | inl live ↦ elim (Bool-cases (token == t)) [
            | inl same ↦
                inr (row, f, ground arith, ground (arith, eq_iff token t), ground (arith, law))
            | inr other ↦ inl (ground (arith, law))
          ]
          | inr off ↦ inl (ground arith)
        ]
  ]

  sessions-check :
      (token : Option String) (now : ℕ)
      → IsValid g
      → get t (session_valid token now g).1.sessions ≡ some e
      → get t g.sessions ≡ some e
  unfolding session_valid
  sessions-check token now v h =
      ground (arith, get-keep (λ _ x. not (leb x now)) t g.sessions v.sessions_distinct)

  sessions-report :
      (now : ℕ) → IsValid g → get t (status p now g).1.sessions ≡ some e → get t g.sessions ≡ some e
  unfolding status purge_sessions purge_approvals
  sessions-report now v h =
      ground (arith, get-keep (λ _ x. not (leb x now)) t g.sessions v.sessions_distinct)

  sessions-revoke :
      (token : Option String) → get t (revoke token g).sessions ≡ some e → get t g.sessions ≡ some e
  unfolding revoke
  sessions-revoke none h = h
  sessions-revoke (some k) h = ground (arith, get-pop k t g.sessions)

module _ (p : Platform) (g : AccessGate) where
  sessions-challenge :
      (now draw : ℕ) (force : Bool) → (issue_challenge p now force draw g).1.sessions ≡ g.sessions
  unfolding issue_challenge
  sessions-challenge now draw force = ground arith

  sessions-request :
      (now now' draw : ℕ) (id : String) (v : Visitor)
      → (create_approval p now now' draw id v g).1.sessions ≡ g.sessions
  unfolding create_approval issue_challenge purge_approvals
  sessions-request now now' draw id v = ground arith

  sessions-poll : (now : ℕ) (id : String) → (approval_status p now id g).1.sessions ≡ g.sessions
  unfolding approval_status purge_approvals
  sessions-poll now id = ground arith

  sessions-allow :
      (now : ℕ) (id token : String) → (approve p now id token g).1.sessions ≡ g.sessions
  unfolding approve purge_approvals
  sessions-allow now id token = ground arith

  sessions-refuse : (now : ℕ) (id : String) → (deny p now id g).1.sessions ≡ g.sessions
  unfolding deny purge_approvals
  sessions-refuse now id = ground arith

-- Whatever is called, a session that is there afterwards was there before; or a code was entered whose
-- digits are those of the live challenge, with this fresh token; or a request was claimed that stood
-- approved with this token. A session opened so ends after the session's time.
pub step-sessions :
    (p : Platform) (ev : Event) (g : AccessGate) (t : String) (e : ℕ)
    → IsValid g
    → get t (step p ev g).sessions ≡ some e
    → (get t g.sessions ≡ some e) ⊎ Granted p ev g t e
unfolding step ensure_host_code pending_approvals purge_approvals
step-sessions p (challenge now force draw) g t e v h = inl (rw sessions-challenge at h)
step-sessions p (host_code now now' rotate draw) g t e v h =
    inl (ground (arith, sessions-challenge p g now draw rotate))
step-sessions p (enter_code raw now token) g t e v h = sessions-verify p g t e raw now token h
step-sessions p (request now now' draw id visitor) g t e v h = inl (rw sessions-request at h)
step-sessions p (poll now id) g t e v h = inl (rw sessions-poll at h)
step-sessions p (claim now id) g t e v h = sessions-claim p g t e now id h
step-sessions p (allow now id token) g t e v h = inl (rw sessions-allow at h)
step-sessions p (refuse now id) g t e v h = inl (rw sessions-refuse at h)
step-sessions p (check token now) g t e v h = inl (sessions-check p g t e token now v h)
step-sessions p (drop_session token) g t e v h = inl (sessions-revoke p g t e token h)
step-sessions p (list_pending now) g t e v h = inl h
step-sessions p (report now) g t e v h = inl (sessions-report p g t e now v h)
