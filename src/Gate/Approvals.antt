-- ===== src/Gate/Approvals.antt =====
-- lovensepy/services/http_api/access_gate.py: the requests that the host allows or denies, and the
-- status reports. Every operation that reads the clock takes its reading as an argument.
use lovensepy.Base.{
  ℕ, zero, suc, ◌+◌, ◌-◌, String, Bool, true, false, not, ◌&&◌, ◌||◌, Option, none, some, [], ◌∷◌,
  ltb, leb, if◌then◌else◌, ◌==◌, ℕ_Eq, String_Eq, Pair_Eq, Codes_Eq,
}
use lovensepy.Base.Dict.{Dict, get, put, pop, keep, map_values}
use lovensepy.Base.Text.{truthy, or_empty, concat, take_chars}
use lovensepy.Gate.Types.{
  ApprovalStatus, PendingApproval, AccessGate, Platform, seconds, pending, approved, expired,
  allow_remote_access,
}
use lovensepy.Gate.Challenge.{is_pending, print, notify, issue_challenge}
use lovensepy.Gate.Labels.{device_label, browser_label}

abbrev pub is_expired : ApprovalStatus → Bool
is_expired expired = true
is_expired _ = false

abbrev pub is_approved : ApprovalStatus → Bool
is_approved approved = true
is_approved _ = false

-- A pending row whose time is over.
abbrev pub mark_expired : ℕ → PendingApproval → PendingApproval
mark_expired now row =
    if is_pending row.status && leb row.expires_mono now
    then record row { status = expired }
    else row

-- `row.decided_mono or row.expires_mono`: a reading of 0 counts as none.
abbrev decided_or : Option ℕ → ℕ → ℕ
decided_or none t = t
decided_or (some zero) t = t
decided_or (some (suc d)) t = suc d

abbrev keep_until : PendingApproval → ℕ
keep_until row =
    if is_pending row.status
    then row.expires_mono
    else decided_or row.decided_mono row.expires_mono + seconds 60

-- The rows that `_purge_approvals` pops, after their status is brought up to date.
abbrev pub is_dead : ℕ → PendingApproval → Bool
is_dead now row =
    (not (is_pending row.status) && leb (keep_until row) now)
    || (is_expired row.status && leb (row.expires_mono + seconds 60) now)

unfoldable pub purge_approvals : ℕ → AccessGate → AccessGate
purge_approvals now g = record g {
  approvals = keep (λ _ row. not (is_dead now row)) (map_values (mark_expired now) g.approvals);
}

pub record ApprovalPublic : Type 0 where
  pub status : ApprovalStatus
  pub request_id : String
  pub authorized : Bool
  pub expires_in_sec : ℕ
  pub device : String
  pub browser : String

unfoldable pub approval_public : Platform → PendingApproval → ℕ → ApprovalPublic
approval_public p row now = record {
  status = row.status;
  request_id = row.id;
  authorized = is_approved row.status;
  expires_in_sec = p.round1 (row.expires_mono - now);
  device = row.device;
  browser = row.browser;
}

unfoldable pub fingerprint : Platform → Option String → Option String → String
fingerprint p ip user_agent =
    take_chars 24
      (p.sha256_hex (concat (or_empty ip) (concat "\n" (take_chars 240 (or_empty user_agent)))))

-- A request that still waits for the host.
abbrev pub is_waiting : ℕ → PendingApproval → Bool
is_waiting now row = is_pending row.status && ltb now row.expires_mono

unfoldable pub find_fingerprint : ℕ → String → Dict String PendingApproval → Option PendingApproval
find_fingerprint now print [] = none
find_fingerprint now print ((_, row) ∷ d) =
    if is_waiting now row && row.fingerprint == print
    then some row
    else find_fingerprint now print d

-- The row named by the visitor, if it waits.
abbrev waiting_row : ℕ → Option PendingApproval → Option PendingApproval
waiting_row now none = none
waiting_row now (some row) = if is_waiting now row then some row else none

abbrev named_row : Option String → AccessGate → Option PendingApproval
named_row none g = none
named_row (some id) g = get id g.approvals

find_existing : ℕ → Option String → String → AccessGate → Option PendingApproval
find_existing now request_id print g =
    let named = if truthy request_id then waiting_row now (named_row request_id g) else none in
    elim named [ some row ↦ some row | none ↦ find_fingerprint now print g.approvals ]

-- (user_agent or "")[:300] or None
abbrev clip : Option String → Option String
clip ua = let s = take_chars 300 (or_empty ua) in if s == "" then none else some s

pub record Visitor : Type 0 where
  pub ip : Option String
  pub country : Option String
  pub user_agent : Option String
  pub request_id : Option String

unfoldable pub new_row : Platform → ℕ → String → Visitor → AccessGate → PendingApproval
new_row p now id v g = record {
  id = id;
  fingerprint = fingerprint p v.ip v.user_agent;
  created_mono = now;
  expires_mono = now + g.approval_ttl_sec;
  ip = v.ip;
  country = v.country;
  user_agent = clip v.user_agent;
  device = device_label v.user_agent;
  browser = browser_label v.user_agent;
  status = pending;
  session_token = none;
  decided_mono = none;
}

register : Platform → ℕ → ℕ → ℕ → String → Visitor → AccessGate → ApprovalPublic × AccessGate
unfolding new_row
register p now now' draw id v g =
    let (_, g') = issue_challenge p now' false draw g in
    let row = new_row p now id v g in
    let label = concat row.device (concat " " row.browser) in
    let stored = record g' { approvals = put id row g'.approvals } in
    (approval_public p row now, notify (print (allow_remote_access v.ip v.country label) stored))

reuse_or_register :
    Platform
    → ℕ
    → ℕ
    → ℕ
    → String
    → Visitor
    → AccessGate
    → Option PendingApproval
    → ApprovalPublic × AccessGate
unfolding register
reuse_or_register p now now' draw id v g (some row) = (approval_public p row now, g)
reuse_or_register p now now' draw id v g none = register p now now' draw id v g

-- `now` is the reading of `create_approval`, `now'` that of the `issue_challenge` it calls.
unfoldable pub create_approval :
    Platform → ℕ → ℕ → ℕ → String → Visitor → AccessGate → ApprovalPublic × AccessGate
unfolding reuse_or_register find_existing
create_approval p now now' draw id v g =
    let g' = purge_approvals now g in
    reuse_or_register p now now' draw id v g'
      (find_existing now v.request_id (fingerprint p v.ip v.user_agent) g')

-- `none` is the reply {"status": "expired", "authorized": False} for a row that is gone.
report :
    Platform → ℕ → String → Option PendingApproval → AccessGate → Option ApprovalPublic × AccessGate
report p now id none g = (none, g)
report p now id (some row) g =
    if is_pending row.status && leb row.expires_mono now
    then (none, record g { approvals = put id (record row { status = expired }) g.approvals })
    else (some (approval_public p row now), g)

unfoldable pub approval_status :
    Platform → ℕ → String → AccessGate → Option ApprovalPublic × AccessGate
unfolding report
approval_status p now id g =
    let g' = purge_approvals now g in report p now id (get id g'.approvals) g'

claim_token : ℕ → String → String → AccessGate → Option String × AccessGate
claim_token now id token g = (
  some token,
  notify (record g {
    approvals = pop id g.approvals;
    sessions = put token (now + g.session_ttl_sec) g.sessions;
  }),
)

claim_row : ℕ → String → Option PendingApproval → AccessGate → Option String × AccessGate
unfolding claim_token
claim_row now id none g = (none, g)
claim_row now id (some row) g =
    if is_approved row.status && truthy row.session_token
    then claim_token now id (or_empty row.session_token) g
    else (none, g)

unfoldable pub claim_approval : ℕ → String → AccessGate → Option String × AccessGate
unfolding claim_row
claim_approval now id g = claim_row now id (get id g.approvals) g
