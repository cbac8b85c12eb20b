-- ===== src/Gate/Tests.antt =====
-- Tests of the access gate, and its theorems at concrete inputs.
use lovensepy.Base.{
  ℕ, zero, suc, ◌+◌, ◌-◌, ◌*◌, ◌/◌, ◌%◌, ◌^◌, ◌≤◌, ◌<◌, min, max, String, ◌≡◌, refl, sym, ap, ◌∙◌,
  ◌≢◌, ◌↔◌, ◌⊎◌, inl, inr, Bool, true, false, not, ◌&&◌, ◌||◌, Option, none, some, List, [], ◌∷◌,
  ◌++◌, map, arith, eq_iff, ltb, leb, nat_eq, if◌then◌else◌, ltb→lt, lt→ltb, leb→le, le→leb,
  nat_eq_iff, Bool-cases, Option-cases, is_some, length, take, drop, all, any, length-append, All,
  All-append, HasSame, ◌==◌, ==-self, ℕ_Eq, String_Eq, Pair_Eq, Codes_Eq, pair_eq_iff, codes_eq_iff,
  tests, if_split, if_true, if_false,
}
use lovensepy.Base.Dict.{get, put, keep, map_values}
use lovensepy.Base.Result.{ok}
use lovensepy.Gate.Types.{
  PendingCode, PendingApproval, AccessGate, Platform, new_gate, ApprovalStatus,
}
use lovensepy.Gate.Events.{Event, request, run, poll, claim, check, refuse, step, allow, enter_code}
use lovensepy.Gate.Invariant.{IsValid}
use lovensepy.Gate.Challenge.{format_06d, keep_digits, verify, compare_digest, mint_session}
use lovensepy.Gate.Guesses.{Attempt, attempt_all, IsWrong, attempt_all_budget, verify-accepts_iff}
use lovensepy.Gate.Shut.{IsShut, run_new-IsShut}
use lovensepy.Gate.Approvals.{Visitor, claim_approval, purge_approvals}
use lovensepy.Base.Text.{codes, rsplit, is_ascii, take_chars, strip, lower, ends_with}
use lovensepy.Gate.Codes.{format_06d-IsAscii, length-format_06d}
use lovensepy.Gate.Runs.{run_new-IsValid}
use lovensepy.Gate.Claims.{claim_approval-once}
use lovensepy.Gate.Sessions.{read_cookie_value, sign_cookie_value}
use lovensepy.Gate.Visitors.{Scope, http, cookie, is_external_request, host_without_port}
use lovensepy.Gate.Middleware.{handle, is_unguarded, forward, is_open_path}
use lovensepy.Gate.Cookies.{HexDigests, read_cookie_value-signed}
use lovensepy.Gate.Decisions.{granted, approve}
use lovensepy.Gate.Grants.{Granted, step-sessions}
use lovensepy.Gate.Entry.{HasSession, handle-forward_iff}
use lovensepy.Gate.Allowed.{StandsAllowed, Allows, step-StandsAllowed}

-- A platform with no hash to speak of.
abbrev plain : Platform
plain = record {
  sha256_hex = λ s. s;
  hmac_hex = λ key token. "00ff";
  ip_address = λ s. none;
  is_decimal = λ c. leb 48 c && leb c 57;
  round1 = λ x. x;
}

abbrev start : AccessGate
start = new_gate "secret"

abbrev visitor : Visitor
visitor = record {
  ip = some "203.0.113.7";
  country = some "NL";
  user_agent = some "curl";
  request_id = none;
}

abbrev requested : List Event
requested = request 1000 1000 123456 "r1" visitor ∷ []

abbrev evening : List Event
evening =
    request 1000 1000 123456 "r1" visitor
    ∷ poll 2000 "r1"
    ∷ claim 2000 "r1"
    ∷ check (some "t") 3000
    ∷ refuse 4000 "r1"
    ∷ []

run_new-IsShut_example : IsShut (run plain evening (new_gate "secret"))
run_new-IsShut_example = run_new-IsShut plain "secret" evening refl

run_new-IsValid_example : IsValid (run plain evening (new_gate "secret"))
run_new-IsValid_example = run_new-IsValid plain "secret" evening

abbrev challenge_code : PendingCode
challenge_code = record {
  code = format_06d 123456;
  expires_mono = 5000;
  failures = 5;
  printed = true;
}

abbrev guarded : AccessGate
guarded = record start { code = some challenge_code }

abbrev guess : Attempt
guess = record { raw = codes "000 000"; now = 10; token = "t" }

guess-IsWrong : IsWrong plain (format_06d 123456) 5000 guess
unfolding keep_digits format_06d
guess-IsWrong = record { live = omega arith; ascii = refl; differs = λ e. ground arith }

attempt_all_budget_example :
    ((attempt_all plain (guess ∷ guess ∷ guess ∷ []) guarded).code ≡ none)
    × ((attempt_all plain (guess ∷ guess ∷ guess ∷ []) guarded).sessions ≡ [])
attempt_all_budget_example =
    attempt_all_budget plain (guess ∷ guess ∷ guess ∷ []) guarded challenge_code refl
      (format_06d-IsAscii 123456) (guess-IsWrong, (guess-IsWrong, (guess-IsWrong, tt)))
      (omega arith) (omega arith)

verify-accepts_iff_example :
    ((verify plain (codes "123 456") 10 "t" guarded).0 ≡ ok (some "t"))
    ↔ ((10 < 5000) × (keep_digits plain (codes "123 456") ≡ format_06d 123456))
verify-accepts_iff_example =
    verify-accepts_iff plain (codes "123 456") 10 "t" guarded challenge_code refl
      (format_06d-IsAscii 123456) (length-format_06d 123456)

right_code_test : (verify plain (codes "123 456") 10 "t" guarded).0 ≡ ok (some "t")
unfolding verify keep_digits compare_digest format_06d
right_code_test = refl

-- A session that is open until 9000.
abbrev inside : AccessGate
inside = record start { sessions = ("t", 9000) ∷ [] }

inside-IsValid : IsValid inside
unfolding get
inside-IsValid = record {
  code_ok = tt;
  rows_ok = record { distinct = tt; rows = λ id row e. cc };
  sessions_distinct = (refl, tt);
}

guarded-IsValid : IsValid guarded
unfolding get format_06d
guarded-IsValid = record {
  code_ok = record { six = refl; ascii = refl; few = omega arith };
  rows_ok = record { distinct = tt; rows = λ id row e. cc };
  sessions_distinct = tt;
}

entered_test :
    get "t" (step plain (enter_code (codes "123 456") 10 "t") guarded).sessions
    ≡ some (10 + guarded.session_ttl_sec)
unfolding step verify keep_digits compare_digest format_06d mint_session get put
entered_test = refl

step-sessions_example :
    (get "t" guarded.sessions ≡ some (10 + guarded.session_ttl_sec))
    ⊎ Granted plain (enter_code (codes "123 456") 10 "t") guarded "t" (10 + guarded.session_ttl_sec)
step-sessions_example =
    step-sessions plain (enter_code (codes "123 456") 10 "t") guarded "t"
      (10 + guarded.session_ttl_sec) guarded-IsValid entered_test

plain-HexDigests : HexDigests plain
plain-HexDigests key token = refl

abbrev tunnel_visit : Scope
tunnel_visit = record {
  type = http;
  path = some "/";
  method = some "GET";
  query_string = "";
  client = some "127.0.0.1";
  headers = λ name.
      if name == "host"
      then some "abc.trycloudflare.com"
      else if name == "cookie"
      then some "a=b; lovensepy_gate=t.00ff"
      else none;
}

guarded_visit : is_unguarded plain tunnel_visit inside ≡ false
unfolding is_unguarded is_open_path is_external_request host_without_port strip lower ends_with
    lovensepy.Base.Text.count_char
guarded_visit = refl

handle-forward_iff_example :
    ((handle plain tunnel_visit
        (record { session_now = 10; challenge_now = 10; draw = 0 })
        inside).0
      ≡ ok forward)
    ↔ ((token : String) × (cookie tunnel_visit ≡ some (sign_cookie_value plain inside token))
        × HasSession inside token 10)
unfolding get
handle-forward_iff_example =
    handle-forward_iff plain tunnel_visit
      (record { session_now = 10; challenge_now = 10; draw = 0 }) inside plain-HexDigests (refl, tt)
      guarded_visit

read_cookie_value-signed_example :
    ◌≡◌ {A = Option String} (some "t.00ff") (some (sign_cookie_value plain inside "t"))
unfolding read_cookie_value rsplit is_ascii take_chars
read_cookie_value-signed_example = read_cookie_value-signed plain inside (some "t.00ff") "t" refl

-- A request that waits, and the same once it is allowed.
abbrev waiting : PendingApproval
waiting = record {
  id = "r1";
  fingerprint = "f";
  created_mono = 1000;
  expires_mono = 301000;
  ip = none;
  country = none;
  user_agent = none;
  device = "Mac";
  browser = "Safari";
  status = ApprovalStatus.pending;
  session_token = none;
  decided_mono = none;
}

abbrev asked : AccessGate
asked = record start { approvals = ("r1", waiting) ∷ [] }

asked-IsValid : IsValid asked
unfolding get
asked-IsValid = record {
  code_ok = tt;
  rows_ok = record { distinct = (refl, tt); rows = λ id row e. ground (arith, eq_iff "r1" id) };
  sessions_distinct = tt;
}

abbrev allowed_row : PendingApproval
allowed_row = granted 2000 "t" asked waiting

abbrev allowed : AccessGate
allowed = record start { approvals = ("r1", allowed_row) ∷ [] }

claim_approval-once_example :
    (get "t" (claim_approval 3000 "r1" allowed).1.sessions ≡ some 604803000)
    × ((claim_approval 4000 "r1" (claim_approval 3000 "r1" allowed).1).0 ≡ none)
unfolding claim_approval get
claim_approval-once_example = claim_approval-once 3000 4000 "r1" "t" allowed refl

step-StandsAllowed_example :
    StandsAllowed asked "r1" allowed_row ⊎ Allows (allow 2000 "r1" "t") asked "r1" allowed_row
unfolding step approve purge_approvals get put keep map_values
step-StandsAllowed_example =
    step-StandsAllowed plain (allow 2000 "r1" "t") asked "r1" allowed_row asked-IsValid (refl, refl)
