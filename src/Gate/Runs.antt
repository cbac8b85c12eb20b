-- ===== src/Gate/Runs.antt =====
-- Every sequence of calls keeps the gate valid.
use lovensepy.Base.{String, List, [], ◌∷◌, arith, ℕ_Eq, String_Eq, Pair_Eq, Codes_Eq}
use lovensepy.Base.Dict.{get}
use lovensepy.Gate.Types.{AccessGate, Platform, new_gate}
use lovensepy.Gate.Challenge.{ensure_host_code}
use lovensepy.Gate.Decisions.{pending_approvals, status}
use lovensepy.Gate.Events.{
  Event, run, step, allow, challenge, check, claim, drop_session, enter_code, host_code,
  list_pending, poll, refuse, report, request,
}
use lovensepy.Gate.Invariant.{
  IsValid, issue_challenge-IsValid, verify-IsValid, create_approval-IsValid,
  approval_status-IsValid, claim_approval-IsValid, approve-IsValid, deny-IsValid,
  session_valid-IsValid, revoke-IsValid, purge_approvals-IsValid, purge_sessions-IsValid,
}

-- Every call keeps the gate valid.
pub step-IsValid : (p : Platform) (ev : Event) (g : AccessGate) → IsValid g → IsValid (step p ev g)
unfolding step ensure_host_code pending_approvals status
step-IsValid p (challenge now force draw) g v = issue_challenge-IsValid p now draw force g v
step-IsValid p (host_code now now' rotate draw) g v =
    ground (arith, issue_challenge-IsValid p now draw rotate g v)
step-IsValid p (enter_code raw now token) g v = verify-IsValid p raw now token g v
step-IsValid p (request now now' draw id visitor) g v =
    create_approval-IsValid p now now' draw id visitor g v
step-IsValid p (poll now id) g v = approval_status-IsValid p now id g v
step-IsValid p (claim now id) g v = claim_approval-IsValid now id g v
step-IsValid p (allow now id token) g v = approve-IsValid p now id token g v
step-IsValid p (refuse now id) g v = deny-IsValid p now id g v
step-IsValid p (check token now) g v = session_valid-IsValid token now g v
step-IsValid p (drop_session token) g v = revoke-IsValid token g v
step-IsValid p (list_pending now) g v = purge_approvals-IsValid now g v
step-IsValid p (report now) g v = purge_approvals-IsValid now _ (purge_sessions-IsValid now g v)

pub new_gate-IsValid : (secret : String) → IsValid (new_gate secret)
unfolding get
new_gate-IsValid secret = record {
  code_ok = tt;
  rows_ok = record { distinct = tt; rows = λ id row e. cc };
  sessions_distinct = tt;
}

run-IsValid : (p : Platform) (evs : List Event) (g : AccessGate) → IsValid g → IsValid (run p evs g)
unfolding run
run-IsValid p [] g v = v
run-IsValid p (ev ∷ evs) g v = run-IsValid p evs (step p ev g) (step-IsValid p ev g v)

-- After any calls, in any order, from the start of the service: the challenge in force has six ASCII
-- digits and fewer than eight failures, no request or session stands twice, and a request holds a
-- token exactly if the host has approved it.
pub run_new-IsValid :
    (p : Platform) (secret : String) (evs : List Event) → IsValid (run p evs (new_gate secret))
run_new-IsValid p secret evs = run-IsValid p evs (new_gate secret) (new_gate-IsValid secret)
