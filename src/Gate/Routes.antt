-- ===== src/Gate/Routes.antt =====
-- lovensepy/services/http_api/access_gate.py: the `/auth` routes of `install_access_gate`. Parsed
-- request bodies are arguments; a reply is data.
use lovensepy.Base.{
  ℕ, String, Bool, true, false, not, ◌||◌, Option, none, some, List, if◌then◌else◌, ◌==◌, ℕ_Eq,
  String_Eq, Pair_Eq, Codes_Eq,
}
use lovensepy.Base.Result.{Result, ok, err}
use lovensepy.Base.Text.{or_empty, strip}
use text.Mathlib.Text.{starts_with}
use lovensepy.Gate.Types.{AccessGate, Platform}
use lovensepy.Gate.Challenge.{issue_challenge, verify}
use lovensepy.Gate.Approvals.{
  ApprovalPublic, Visitor, is_approved, create_approval, approval_status, claim_approval,
}
use lovensepy.Gate.Decisions.{GateStatus, status}
use lovensepy.Gate.Sessions.{session_valid, sign_cookie_value, read_cookie_value}
use lovensepy.Gate.Visitors.{Scope, is_external_request, client_ip}

pub record SessionCookie : Type 0 where
  pub value : String
  pub secure : Bool
  pub max_age : ℕ

pub data Response : Type 0 where
  disabled : Response
  authorized : Response
  authorized_with : SessionCookie → Response
  claim_expired : Response
  wrong_code : Response
  poll : Option ApprovalPublic → Response

-- `scheme` is request.url.scheme
set_session_cookie : Platform → AccessGate → String → Scope → String → SessionCookie
set_session_cookie p g scheme scope token = record {
  value = sign_cookie_value p g token;
  secure = scheme == "https" || starts_with (or_empty (scope.headers "x-forwarded-proto")) "https";
  max_age = g.session_ttl_sec;
}

pub record AuthStatus : Type 0 where
  pub gate : GateStatus
  pub external : Bool
  pub authorized : Bool

-- The session is read only for an external visitor.
auth_status_for : Platform → ℕ → ℕ → Bool → Option String → AccessGate → AuthStatus × AccessGate
auth_status_for p now now' external token g =
    let (report, g') = status p now g in
    let (valid, g'') = session_valid token now' g' in
    if external
    then (record { gate = report; external = true; authorized = valid }, g'')
    else (record { gate = report; external = false; authorized = true }, g')

unfoldable pub auth_status :
    Platform → ℕ → ℕ → Scope → Option String → AccessGate → Result AuthStatus × AccessGate
unfolding auth_status_for
auth_status p now now' scope raw g = elim (read_cookie_value p g raw) [
  | err e ↦ (err e, g)
  | ok token ↦
      let (view, g') = auth_status_for p now now' (is_external_request p scope) token g in
      (ok view, g')
]

-- GET /auth and POST /auth/challenge
unfoldable pub auth_challenge : Platform → ℕ → ℕ → AccessGate → Option ℕ × AccessGate
auth_challenge p now draw g =
    let (left, g') = issue_challenge p now false draw g in
    if not g.enabled then (none, g) else (some left, g')

-- POST /auth/request; `prior` is the text of the payload's request_id, if it has a true one.
unfoldable pub auth_request :
    Platform
    → ℕ
    → ℕ
    → ℕ
    → String
    → Scope
    → Option String
    → Option String
    → AccessGate
    → Option ApprovalPublic × AccessGate
auth_request p now now' draw id scope country prior g =
    let visitor : Visitor = record {
      ip = client_ip scope;
      country = country;
      user_agent = scope.headers "user-agent";
      request_id = elim prior [ none ↦ none | some s ↦ some (strip s) ];
    } in
    let (view, g') = create_approval p now now' draw id visitor g in
    if not g.enabled then (none, g) else (some view, g')

-- Someone else has claimed the grant between the two calls.
late_claim : Platform → ℕ → Option String → AccessGate → Result Response × AccessGate
late_claim p now raw g = elim (read_cookie_value p g raw) [
  | err e ↦ (err e, g)
  | ok existing ↦
      let (valid, g') = session_valid existing now g in
      (ok (if valid then authorized else claim_expired), g')
]

poll_approved :
    Platform
    → ℕ
    → String
    → Scope
    → Option String
    → Option String × AccessGate
    → Result Response × AccessGate
unfolding set_session_cookie late_claim
poll_approved p now scheme scope raw (some token, g) =
    (ok (authorized_with (set_session_cookie p g scheme scope token)), g)
poll_approved p now scheme scope raw (none, g) = late_claim p now raw g

abbrev view_approved : Option ApprovalPublic → Bool
view_approved none = false
view_approved (some view) = is_approved view.status

-- GET /auth/request/{request_id}: `now` and `now'` are the readings of the status and of the claim,
-- `raw` is the session cookie that came with the request.
unfoldable pub auth_request_status :
    Platform
    → ℕ
    → ℕ
    → ℕ
    → String
    → String
    → Scope
    → Option String
    → AccessGate
    → Result Response × AccessGate
unfolding poll_approved
auth_request_status p now now' now'' id scheme scope raw g =
    let (view, g') = approval_status p now id g in
    let answer = poll_approved p now'' scheme scope raw (claim_approval now' id g') in
    if not g.enabled
    then (ok disabled, g)
    else if view_approved view
    then answer
    else (ok (poll view), g')

verified :
    Platform → String → Scope → Result (Option String) × AccessGate → Result Response × AccessGate
unfolding set_session_cookie
verified p scheme scope (err e, g) = (err e, g)
verified p scheme scope (ok none, g) = (ok wrong_code, g)
verified p scheme scope (ok (some token), g) =
    (ok (authorized_with (set_session_cookie p g scheme scope token)), g)

-- POST /auth/verify; `code` is str(payload.get("code") or "").
unfoldable pub auth_verify :
    Platform → ℕ → List ℕ → String → String → Scope → AccessGate → Result Response × AccessGate
unfolding verified
auth_verify p now code token scheme scope g =
    let answer = verified p scheme scope (verify p code now token g) in
    if not g.enabled then (ok disabled, g) else answer
