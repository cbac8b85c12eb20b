-- ===== src/Gate/Invariant.antt =====
-- What holds of the gate between two calls.
use lovensepy.Base.{
  ℕ, ◌+◌, ◌<◌, String, ◌≡◌, refl, inl, inr, Bool, true, false, not, Option, none, some, List, arith,
  eq_iff, ltb, Option-cases, is_some, length, all, ℕ_Eq, String_Eq, Pair_Eq, Codes_Eq,
}
use lovensepy.Base.Dict.{
  Dict, get, put, pop, keep, map_values, map_at, Distinct, get-put, get-pop, get-keep,
  get-map_values, put-Distinct, pop-Distinct, keep-Distinct, map_values-Distinct,
}
use lovensepy.Base.Text.{or_empty}
use lovensepy.Gate.Types.{
  PendingCode, PendingApproval, AccessGate, Platform, max_verify_failures, expired,
}
use lovensepy.Gate.Challenge.{is_pending, mint_session, issue_challenge, verify, format_06d}
use lovensepy.Gate.Sessions.{purge_sessions, revoke, session_valid}
use lovensepy.Gate.Approvals.{
  is_approved, mark_expired, new_row, purge_approvals, Visitor, approval_status, claim_approval,
  create_approval,
}
use lovensepy.Gate.Decisions.{approve, deny, granted, refused}

pub record CodeOk (c : PendingCode) : Type 0 where
  pub six : length c.code ≡ 6
  pub ascii : all (λ d. ltb d 128) c.code ≡ true
  pub few : c.failures < max_verify_failures

abbrev pub ForCode : (PendingCode → Type 0) → Option PendingCode → Type 0
ForCode P none = Unit
ForCode P (some c) = P c

-- A row holds a token exactly once it is approved, and is stored under its id.
pub record RowOk (id : String) (row : PendingApproval) : Type 0 where
  pub tokens : is_some row.session_token ≡ is_approved row.status
  pub named : row.id ≡ id

pub record RowsOk (d : Dict String PendingApproval) : Type 0 where
  pub distinct : Distinct d
  pub rows : (id : String) (row : PendingApproval) → get id d ≡ some row → RowOk id row

pub record IsValid (g : AccessGate) : Type 0 where
  pub code_ok : ForCode CodeOk g.code
  pub rows_ok : RowsOk g.approvals
  pub sessions_distinct : Distinct g.sessions

RowsOk-put :
    (id : String) (row : PendingApproval) (d : Dict String PendingApproval)
    → RowsOk d
    → RowOk id row
    → RowsOk (put id row d)
RowsOk-put id row d h r = record {
  distinct = put-Distinct id row d h.distinct;
  rows = λ j other e. ground (arith, get-put id j row d, h.rows j other, eq_iff id j);
}

RowsOk-pop : (id : String) (d : Dict String PendingApproval) → RowsOk d → RowsOk (pop id d)
RowsOk-pop id d h = record {
  distinct = pop-Distinct id d h.distinct;
  rows = λ j other e. ground (arith, get-pop id j d, h.rows j other);
}

RowsOk-keep :
    (p : String → PendingApproval → Bool) (d : Dict String PendingApproval)
    → RowsOk d
    → RowsOk (keep p d)
RowsOk-keep p d h = record {
  distinct = keep-Distinct p d h.distinct;
  rows = λ j other e. ground (arith, get-keep p j d h.distinct, h.rows j other);
}

RowOk-mark_expired :
    (now : ℕ) (id : String) (row : PendingApproval) → RowOk id row → RowOk id (mark_expired now row)
RowOk-mark_expired now id row h = ground arith

RowsOk-mark_expired :
    (now : ℕ) (d : Dict String PendingApproval)
    → RowsOk d
    → RowsOk (map_values (mark_expired now) d)
RowsOk-mark_expired now d h = record {
  distinct = map_values-Distinct (mark_expired now) d h.distinct;
  rows =
      λ j other e. marked j other (get j d) refl (rw (get-map_values (mark_expired now) j d) at e);
}
  where
    marked :
        (j : String) (other : PendingApproval) (o : Option PendingApproval)
        → get j d ≡ o
        → map_at (mark_expired now) o ≡ some other
        → RowOk j other
    marked j other none f e = ground arith
    marked j other (some row) f e = ground (arith, RowOk-mark_expired now j row (h.rows j row f))

pub purge_approvals-IsValid :
    (now : ℕ) (g : AccessGate) → IsValid g → IsValid (purge_approvals now g)
unfolding purge_approvals
purge_approvals-IsValid now g v = record {
  code_ok = v.code_ok;
  rows_ok = RowsOk-keep _ _ (RowsOk-mark_expired now g.approvals v.rows_ok);
  sessions_distinct = v.sessions_distinct;
}

pub purge_sessions-IsValid : (now : ℕ) (g : AccessGate) → IsValid g → IsValid (purge_sessions now g)
unfolding purge_sessions
purge_sessions-IsValid now g v = record {
  code_ok = v.code_ok;
  rows_ok = v.rows_ok;
  sessions_distinct = keep-Distinct _ g.sessions v.sessions_distinct;
}

fresh-CodeOk :
    (n e : ℕ) (b : Bool)
    → CodeOk (record { code = format_06d n; expires_mono = e; failures = 0; printed = b })
unfolding format_06d
fresh-CodeOk n e b = ground arith

pub issue_challenge-IsValid :
    (p : Platform) (now draw : ℕ) (force : Bool) (g : AccessGate)
    → IsValid g
    → IsValid (issue_challenge p now force draw g).1
unfolding issue_challenge
issue_challenge-IsValid p now draw force g v = ground (
  arith,
  fresh-CodeOk draw (now + g.code_ttl_sec) true,
  fresh-CodeOk draw (now + g.code_ttl_sec) false,
)

pub verify-IsValid :
    (p : Platform) (raw : List ℕ) (now : ℕ) (token : String) (g : AccessGate)
    → IsValid g
    → IsValid (verify p raw now token g).1
unfolding verify mint_session
verify-IsValid p raw now token g v = ground (
  arith,
  put-Distinct token (now + g.session_ttl_sec) g.sessions v.sessions_distinct,
  RowsOk-keep (λ _ row. not (is_pending row.status)) g.approvals v.rows_ok,
)

new_row-RowOk :
    (p : Platform) (now : ℕ) (id : String) (v : Visitor) (g : AccessGate)
    → RowOk id (new_row p now id v g)
unfolding new_row
new_row-RowOk p now id v g = ground arith

pub create_approval-IsValid :
    (p : Platform) (now now' draw : ℕ) (id : String) (visitor : Visitor) (g : AccessGate)
    → IsValid g
    → IsValid (create_approval p now now' draw id visitor g).1
unfolding create_approval
create_approval-IsValid p now now' draw id visitor g v =
    let g' : AccessGate = purge_approvals now g in
    let v' : IsValid g' = purge_approvals-IsValid now g v in
    let c : AccessGate = (issue_challenge p now' false draw g').1 in
    let w : IsValid c = issue_challenge-IsValid p now' draw false g' v' in
    ground (
      arith,
      RowsOk-put id (new_row p now id visitor g') c.approvals w.rows_ok
          (new_row-RowOk p now id visitor g'),
    )

pub approval_status-IsValid :
    (p : Platform) (now : ℕ) (id : String) (g : AccessGate)
    → IsValid g
    → IsValid (approval_status p now id g).1
unfolding approval_status
approval_status-IsValid p now id g v =
    let g' : AccessGate = purge_approvals now g in
    let v' : IsValid g' = purge_approvals-IsValid now g v in
    elim (Option-cases (get id g'.approvals)) [
      | inl e ↦ ground arith
      | inr (row, e) ↦
          let ok_row : RowOk id row = v'.rows_ok.rows id row e in
          ground (arith, RowsOk-put id (record row { status = expired }) g'.approvals v'.rows_ok)
    ]

pub claim_approval-IsValid :
    (now : ℕ) (id : String) (g : AccessGate) → IsValid g → IsValid (claim_approval now id g).1
unfolding claim_approval
claim_approval-IsValid now id g v = elim (Option-cases (get id g.approvals)) [
  | inl e ↦ ground arith
  | inr (row, e) ↦ ground (
    arith,
    RowsOk-pop id g.approvals v.rows_ok,
    put-Distinct (or_empty row.session_token) (now + g.session_ttl_sec) g.sessions
        v.sessions_distinct,
  )
]

pub approve-IsValid :
    (p : Platform) (now : ℕ) (id token : String) (g : AccessGate)
    → IsValid g
    → IsValid (approve p now id token g).1
unfolding approve
approve-IsValid p now id token g v =
    let g' : AccessGate = purge_approvals now g in
    let v' : IsValid g' = purge_approvals-IsValid now g v in
    elim (Option-cases (get id g'.approvals)) [
      | inl e ↦ ground arith
      | inr (row, e) ↦
          let ok_row : RowOk id row = v'.rows_ok.rows id row e in
          ground (arith, RowsOk-put id (granted now token g' row) g'.approvals v'.rows_ok)
    ]

pub deny-IsValid :
    (p : Platform) (now : ℕ) (id : String) (g : AccessGate)
    → IsValid g
    → IsValid (deny p now id g).1
unfolding deny
deny-IsValid p now id g v =
    let g' : AccessGate = purge_approvals now g in
    let v' : IsValid g' = purge_approvals-IsValid now g v in
    elim (Option-cases (get id g'.approvals)) [
      | inl e ↦ ground arith
      | inr (row, e) ↦
          let ok_row : RowOk id row = v'.rows_ok.rows id row e in
          ground (arith, RowsOk-put id (refused now row) g'.approvals v'.rows_ok)
    ]

pub session_valid-IsValid :
    (token : Option String) (now : ℕ) (g : AccessGate)
    → IsValid g
    → IsValid (session_valid token now g).1
unfolding session_valid
session_valid-IsValid token now g v = ground (arith, purge_sessions-IsValid now g v)

pub revoke-IsValid : (token : Option String) (g : AccessGate) → IsValid g → IsValid (revoke token g)
unfolding revoke
revoke-IsValid none g v = v
revoke-IsValid (some token) g v = ground (arith, pop-Distinct token g.sessions v.sessions_distinct)
