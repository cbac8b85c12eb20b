-- ===== src/Gate/Types.antt =====
-- lovensepy/services/http_api/access_gate.py: the constants, `_PendingCode`, `_PendingApproval` and
-- the fields of `AccessGate`. Times are milliseconds of the monotonic clock. Lines printed to the
-- host console are kept as data, newest first, and `changes` counts the calls of `_on_change`.
use lovensepy.Base.{
  ℕ, ◌*◌, String, Bool, true, Option, none, List, [], ℕ_Eq, String_Eq, Pair_Eq, Codes_Eq,
}
use lovensepy.Base.Dict.{Dict}

abbrev pub seconds : ℕ → ℕ
seconds n = n * 1000

abbrev pub code_ttl : ℕ
code_ttl = seconds 600

abbrev pub approval_ttl : ℕ
approval_ttl = seconds 300

abbrev pub session_ttl : ℕ
session_ttl = seconds 604800

abbrev pub max_verify_failures : ℕ
max_verify_failures = 8

pub data ApprovalStatus : Type 0 where
  pending approved denied expired : ApprovalStatus

pub record PendingCode : Type 0 where
  pub code : List ℕ
  pub expires_mono : ℕ
  pub failures : ℕ
  pub printed : Bool

pub record PendingApproval : Type 0 where
  pub id : String
  pub fingerprint : String
  pub created_mono : ℕ
  pub expires_mono : ℕ
  pub ip : Option String
  pub country : Option String
  pub user_agent : Option String
  pub device : String
  pub browser : String
  pub status : ApprovalStatus
  pub session_token : Option String
  pub decided_mono : Option ℕ

pub data Line : Type 0 where
  access_code : List ℕ → Line
  too_many_failures : Line
  approved_by_code : Line
  allow_remote_access : Option String → Option String → String → Line
  approved_remote : Option String → String → Line
  denied_remote : Option String → String → Line

pub record AccessGate : Type 0 where
  pub enabled : Bool
  pub code_ttl_sec : ℕ
  pub approval_ttl_sec : ℕ
  pub session_ttl_sec : ℕ
  pub secret : String
  pub code : Option PendingCode
  pub approvals : Dict String PendingApproval
  pub sessions : Dict String ℕ
  pub console : List Line
  pub changes : ℕ

abbrev pub new_gate : String → AccessGate
new_gate secret = record {
  enabled = true;
  code_ttl_sec = code_ttl;
  approval_ttl_sec = approval_ttl;
  session_ttl_sec = session_ttl;
  secret = secret;
  code = none;
  approvals = [];
  sessions = [];
  console = [];
  changes = 0;
}

-- What the gate calls and does not implement: the hash functions, the parser of addresses, the
-- decimal digits of Unicode and the rounding of floats to one decimal.
pub record IpFlags : Type 0 where
  pub is_private : Bool
  pub is_loopback : Bool
  pub is_link_local : Bool
  pub is_reserved : Bool
  pub is_unspecified : Bool

pub record Platform : Type 0 where
  pub sha256_hex : String → String
  pub hmac_hex : String → String → String
  pub ip_address : String → Option IpFlags
  pub is_decimal : ℕ → Bool
  pub round1 : ℕ → ℕ
