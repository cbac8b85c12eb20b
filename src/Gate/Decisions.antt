-- ===== src/Gate/Decisions.antt =====
-- lovensepy/services/http_api/access_gate.py: `approve`, `deny`, `pending_approvals`, `status`.
use lovensepy.Base.{
  ℕ, suc, ◌+◌, ◌-◌, min, String, Bool, false, Option, none, some, List, [], ◌∷◌, ltb, leb,
  if◌then◌else◌, length, ℕ_Eq, String_Eq, Pair_Eq, Codes_Eq,
}
use lovensepy.Base.Dict.{Dict, get, put}
use lovensepy.Gate.Types.{
  PendingCode, PendingApproval, AccessGate, Platform, seconds, approved, denied, approved_remote,
  denied_remote,
}
use lovensepy.Gate.Challenge.{is_pending, print, notify}
use lovensepy.Gate.Approvals.{ApprovalPublic, approval_public, is_waiting, purge_approvals}
use lovensepy.Gate.Sessions.{purge_sessions}

-- The row after the host's decision.
abbrev pub granted : ℕ → String → AccessGate → PendingApproval → PendingApproval
granted now token g row = record row {
  status = approved;
  decided_mono = some now;
  session_token = some token;
  expires_mono = now + min (seconds 120) g.approval_ttl_sec;
}

abbrev pub refused : ℕ → PendingApproval → PendingApproval
refused now row = record row {
  status = denied;
  decided_mono = some now;
  session_token = none;
  expires_mono = now + seconds 60;
}

approve_row :
    Platform
    → ℕ
    → String
    → String
    → Option PendingApproval
    → AccessGate
    → Option ApprovalPublic × AccessGate
approve_row p now id token none g = (none, g)
approve_row p now id token (some row) g =
    let row' = granted now token g row in
    if is_waiting now row
    then (
      some (approval_public p row' now),
      notify (
          print (approved_remote row.ip row.device)
            (record g { approvals = put id row' g.approvals })),
    )
    else (none, g)

-- `token` is the fresh `secrets.token_urlsafe(32)`.
unfoldable pub approve :
    Platform → ℕ → String → String → AccessGate → Option ApprovalPublic × AccessGate
unfolding approve_row
approve p now id token g =
    let g' = purge_approvals now g in approve_row p now id token (get id g'.approvals) g'

deny_row :
    Platform → ℕ → String → Option PendingApproval → AccessGate → Option ApprovalPublic × AccessGate
deny_row p now id none g = (none, g)
deny_row p now id (some row) g =
    let row' = refused now row in
    if is_pending row.status
    then (
      some (approval_public p row' now),
      notify (
          print (denied_remote row.ip row.device)
            (record g { approvals = put id row' g.approvals })),
    )
    else (none, g)

unfoldable pub deny : Platform → ℕ → String → AccessGate → Option ApprovalPublic × AccessGate
unfolding deny_row
deny p now id g = let g' = purge_approvals now g in deny_row p now id (get id g'.approvals) g'

pub record ApprovalRow : Type 0 where
  pub id : String
  pub ip : Option String
  pub country : Option String
  pub device : String
  pub browser : String
  pub user_agent : Option String
  pub created_ago_sec : ℕ
  pub expires_in_sec : ℕ

approval_row : Platform → ℕ → PendingApproval → ApprovalRow
approval_row p now row = record {
  id = row.id;
  ip = row.ip;
  country = row.country;
  device = row.device;
  browser = row.browser;
  user_agent = row.user_agent;
  created_ago_sec = p.round1 (now - row.created_mono);
  expires_in_sec = p.round1 (row.expires_mono - now);
}

-- sorted(rows, key=lambda row: row.created_mono), stable
insert_row : PendingApproval → List PendingApproval → List PendingApproval
insert_row row [] = row ∷ []
insert_row row (r ∷ rows) =
    if leb row.created_mono r.created_mono then row ∷ r ∷ rows else r ∷ insert_row row rows

sort_rows : Dict String PendingApproval → List PendingApproval
unfolding insert_row
sort_rows [] = []
sort_rows ((_, row) ∷ d) = insert_row row (sort_rows d)

pending_rows : Platform → ℕ → List PendingApproval → List ApprovalRow
unfolding approval_row
pending_rows p now [] = []
pending_rows p now (row ∷ rows) =
    let rest = pending_rows p now rows in
    if is_pending row.status then approval_row p now row ∷ rest else rest

unfoldable pub pending_approvals : Platform → ℕ → AccessGate → List ApprovalRow × AccessGate
unfolding sort_rows pending_rows
pending_approvals p now g =
    let g' = purge_approvals now g in (pending_rows p now (sort_rows g'.approvals), g')

pub record GateStatus : Type 0 where
  pub enabled : Bool
  pub code_pending : Bool
  pub code_expires_in_sec : Option ℕ
  pub active_sessions : ℕ
  pub pending_approval_count : ℕ

abbrev live_code : ℕ → Option PendingCode → Bool
live_code now none = false
live_code now (some c) = ltb now c.expires_mono

abbrev live_for : Platform → ℕ → Option PendingCode → Option ℕ
live_for p now none = none
live_for p now (some c) =
    if ltb now c.expires_mono then some (p.round1 (c.expires_mono - now)) else none

count_pending : Dict String PendingApproval → ℕ
count_pending [] = 0
count_pending ((_, row) ∷ d) = let n = count_pending d in if is_pending row.status then suc n else n

unfoldable pub status : Platform → ℕ → AccessGate → GateStatus × AccessGate
unfolding count_pending
status p now g =
    let g' = purge_approvals now (purge_sessions now g) in
    (
      record {
        enabled = g.enabled;
        code_pending = live_code now g.code;
        code_expires_in_sec = live_for p now g.code;
        active_sessions = length g'.sessions;
        pending_approval_count = count_pending g'.approvals;
      },
      g',
    )
