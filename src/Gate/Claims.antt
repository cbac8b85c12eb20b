-- ===== src/Gate/Claims.antt =====
-- A grant is claimed at most once, and within a minute of the host's decision.
use lovensepy.Base.{
  ℕ, ◌+◌, ◌<◌, String, ◌≡◌, ap, ◌∙◌, inl, inr, Bool, true, false, Option, none, some, arith, ltb,
  leb, Option-cases, ℕ_Eq, String_Eq, Pair_Eq, Codes_Eq,
}
use text.Mathlib.TextPositions.{eq_refl}
use lovensepy.Base.Dict.{get, get-put, get-pop}
use lovensepy.Base.Text.{or_empty}
use lovensepy.Gate.Types.{AccessGate, PendingApproval, seconds, Platform}
use lovensepy.Gate.Approvals.{
  claim_approval, ApprovalPublic, approval_status, is_approved, is_dead, purge_approvals,
  approval_public, is_waiting,
}
use lovensepy.Gate.Decisions.{approve, granted}
use lovensepy.Gate.Invariant.{IsValid, approve-IsValid}
use lovensepy.Gate.Allowed.{get-purge_approvals, purge_at}

-- A claim that hands out a token opens the session of that token, and the request is gone: no later
-- claim of it hands out anything.
pub claim_approval-once :
    (now now' : ℕ) (id t : String) (g : AccessGate)
    → (claim_approval now id g).0 ≡ some t
    → (get t (claim_approval now id g).1.sessions ≡ some (now + g.session_ttl_sec))
      × ((claim_approval now' id (claim_approval now id g).1).0 ≡ none)
unfolding claim_approval
claim_approval-once now now' id t g h = elim (Option-cases (get id g.approvals)) [
  | inl e ↦ absurd (ground arith)
  | inr (row, e) ↦ (
    ground (
      arith,
      get-put (or_empty row.session_token) t (now + g.session_ttl_sec) g.sessions,
      eq_refl t,
    ),
    ground (arith, get-pop id id g.approvals, eq_refl id),
  )
]

abbrev pub view_is_approved : Option ApprovalPublic → Bool
view_is_approved none = false
view_is_approved (some view) = is_approved view.status

-- The purge of a poll at `t` keeps a row approved at `a` for exactly 60 seconds.
granted-is_dead :
    (a t : ℕ) (token : String) (g : AccessGate) (row : PendingApproval)
    → 0 < a
    → is_dead t (granted a token g row) ≡ leb (a + seconds 60) t
granted-is_dead a t token g row pos = ground arith

-- Once the host has allowed a waiting request at time `a`, a poll at time `t` sees it approved
-- exactly while `t` is before `a` plus 60 seconds, whatever longer time `approve` has stored as its
-- end.
pub approval_status-approve :
    (p : Platform) (a t : ℕ) (id token : String) (g : AccessGate) (row : PendingApproval)
    → IsValid g
    → 0 < a
    → get id g.approvals ≡ some row
    → is_waiting a row ≡ true
    → view_is_approved (approval_status p t id (approve p a id token g).1).0
      ≡ ltb t (a + seconds 60)
unfolding approve approval_status approval_public
approval_status-approve p a t id token g row v pos e w =
    let g' : AccessGate = purge_approvals a g in
    let row' : PendingApproval = granted a token g' row in
    let kept : get id g'.approvals ≡ some row =
      ground (arith, get-purge_approvals a id g v.rows_ok.distinct) in
    let after : AccessGate = (approve p a id token g).1 in
    let v' : IsValid after = approve-IsValid p a id token g v in
    let stored : get id after.approvals ≡ some row' =
      ground (arith, get-put id id row' g'.approvals, eq_refl id) in
    let seen : get id (purge_approvals t after).approvals ≡ purge_at t id (some row') =
      get-purge_approvals t id after v'.rows_ok.distinct ∙ ap (purge_at t id) stored in
    ground (arith, seen, granted-is_dead a t token g' row pos)
