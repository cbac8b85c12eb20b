-- ===== src/Gate/Events.antt =====
-- Every call that reaches an `AccessGate`, as an event, and runs of such calls. The interleaving of
-- visitors, the host and the clock is the order of the events; no call awaits, so each is atomic.
use lovensepy.Base.{ℕ, String, Bool, Option, List, [], ◌∷◌, ℕ_Eq, String_Eq, Pair_Eq, Codes_Eq}
use lovensepy.Gate.Types.{AccessGate, Platform}
use lovensepy.Gate.Challenge.{issue_challenge, ensure_host_code, verify}
use lovensepy.Gate.Sessions.{session_valid, revoke}
use lovensepy.Gate.Approvals.{Visitor, create_approval, approval_status, claim_approval}
use lovensepy.Gate.Decisions.{approve, deny, pending_approvals, status}

pub data Event : Type 0 where
  challenge : ℕ → Bool → ℕ → Event
  host_code : ℕ → ℕ → Bool → ℕ → Event
  enter_code : List ℕ → ℕ → String → Event
  request : ℕ → ℕ → ℕ → String → Visitor → Event
  poll : ℕ → String → Event
  claim : ℕ → String → Event
  allow : ℕ → String → String → Event
  refuse : ℕ → String → Event
  check : Option String → ℕ → Event
  drop_session : Option String → Event
  list_pending : ℕ → Event
  report : ℕ → Event

unfoldable pub step : Platform → Event → AccessGate → AccessGate
step p (challenge now force draw) g = (issue_challenge p now force draw g).1
step p (host_code now now' rotate draw) g = (ensure_host_code p now now' rotate draw g).1
step p (enter_code raw now token) g = (verify p raw now token g).1
step p (request now now' draw id v) g = (create_approval p now now' draw id v g).1
step p (poll now id) g = (approval_status p now id g).1
step p (claim now id) g = (claim_approval now id g).1
step p (allow now id token) g = (approve p now id token g).1
step p (refuse now id) g = (deny p now id g).1
step p (check token now) g = (session_valid token now g).1
step p (drop_session token) g = revoke token g
step p (list_pending now) g = (pending_approvals p now g).1
step p (report now) g = (status p now g).1

unfoldable pub run : Platform → List Event → AccessGate → AccessGate
run p [] g = g
run p (ev ∷ evs) g = run p evs (step p ev g)
