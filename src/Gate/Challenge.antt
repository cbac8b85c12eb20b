-- ===== src/Gate/Challenge.antt =====
-- lovensepy/services/http_api/access_gate.py: the console code, `issue_challenge`, `peek_code`,
-- `ensure_host_code` and `verify`. A clock reading, a random draw and a fresh token are arguments.
use lovensepy.Base.{
  ℕ, ◌+◌, ◌-◌, ◌/◌, ◌%◌, String, Bool, true, false, not, ◌&&◌, ◌||◌, Option, none, some, List, [],
  ◌∷◌, ◌++◌, ltb, leb, nat_eq, if◌then◌else◌, length, take, drop, all, ◌==◌, ℕ_Eq, String_Eq,
  Pair_Eq, Codes_Eq,
}
use lovensepy.Base.Dict.{Dict, keep, put}
use lovensepy.Base.Result.{Result, ok, err, type_error}
use lovensepy.Gate.Types.{
  ApprovalStatus, PendingCode, PendingApproval, AccessGate, Platform, access_code,
  too_many_failures, approved_by_code, max_verify_failures, Line,
}

abbrev pub is_pending : ApprovalStatus → Bool
is_pending ApprovalStatus.pending = true
is_pending _ = false

-- f"{n:06d}", for n below a million
unfoldable pub format_06d : ℕ → List ℕ
format_06d n =
    (48 + n / 100000 % 10)
    ∷ (48 + n / 10000 % 10)
    ∷ (48 + n / 1000 % 10)
    ∷ (48 + n / 100 % 10)
    ∷ (48 + n / 10 % 10)
    ∷ (48 + n % 10)
    ∷ []

-- f"{code[:3]} {code[3:]}"
unfoldable pub display : List ℕ → List ℕ
display code = take 3 code ++ (32 ∷ drop 3 code)

abbrev pub print : Line → AccessGate → AccessGate
print line g = record g { console = line ∷ g.console }

abbrev pub notify : AccessGate → AccessGate
notify g = record g { changes = g.changes + 1 }

fresh_code : ℕ → ℕ → AccessGate → PendingCode
fresh_code now draw g = record {
  code = format_06d draw;
  expires_mono = now + g.code_ttl_sec;
  failures = 0;
  printed = false;
}

-- The challenge in force: a new one if there is none, or it is forced, expired or used up.
current_code : Bool → ℕ → ℕ → AccessGate → Option PendingCode → PendingCode
unfolding fresh_code
current_code force_new now draw g none = fresh_code now draw g
current_code force_new now draw g (some c) =
    if force_new || leb c.expires_mono now || leb max_verify_failures c.failures
    then fresh_code now draw g
    else c

announce : Bool → PendingCode → AccessGate → AccessGate
announce force_new c g =
    if not c.printed || force_new
    then print (access_code c.code) (record g { code = some (record c { printed = true }) })
    else record g { code = some c }

-- The reply of `issue_challenge` is the time left.
unfoldable pub issue_challenge : Platform → ℕ → Bool → ℕ → AccessGate → ℕ × AccessGate
unfolding current_code announce
issue_challenge p now force_new draw g =
    let c = current_code force_new now draw g g.code in
    (p.round1 (c.expires_mono - now), announce force_new c g)

pub record Peek : Type 0 where
  pub code : List ℕ
  pub display : List ℕ
  pub expires_in_sec : ℕ

peek : Platform → ℕ → Option PendingCode → Option Peek
peek p now none = none
peek p now (some c) =
    if leb c.expires_mono now
    then none
    else some (record {
      code = c.code;
      display = display c.code;
      expires_in_sec = p.round1 (c.expires_mono - now);
    })

unfoldable pub peek_code : Platform → ℕ → AccessGate → Option Peek
unfolding peek
peek_code p now g = peek p now g.code

-- `none` stands for the reply "disabled", `some none` for an "ok" with no code to show.
unfoldable pub ensure_host_code :
    Platform → ℕ → ℕ → Bool → ℕ → AccessGate → Option (Option Peek) × AccessGate
ensure_host_code p now now' rotate draw g =
    let (_, g') = issue_challenge p now rotate draw g in
    if not g.enabled then (none, g) else (some (peek_code p now' g'), g')

-- re.sub(r"\D", "", raw_code)
unfoldable pub keep_digits : Platform → List ℕ → List ℕ
keep_digits p [] = []
keep_digits p (c ∷ s) = let rest = keep_digits p s in if p.is_decimal c then c ∷ rest else rest

-- hmac.compare_digest on two texts: it refuses a text outside ASCII.
unfoldable pub compare_digest : List ℕ → List ℕ → Result Bool
compare_digest a b =
    if all (λ c. ltb c 128) a && all (λ c. ltb c 128) b then ok (a == b) else err type_error

clear_pending_approvals : Dict String PendingApproval → Dict String PendingApproval
clear_pending_approvals = keep (λ _ row. not (is_pending row.status))

unfoldable pub mint_session : ℕ → String → AccessGate → AccessGate
mint_session now token g = record g { sessions = put token (now + g.session_ttl_sec) g.sessions }

wrong_code : PendingCode → AccessGate → Result (Option String) × AccessGate
wrong_code c g =
    if leb max_verify_failures (c.failures + 1)
    then (ok none, print too_many_failures (record g { code = none }))
    else (ok none, record g { code = some (record c { failures = c.failures + 1 }) })

right_code : ℕ → String → AccessGate → Result (Option String) × AccessGate
unfolding clear_pending_approvals mint_session
right_code now token g =
    let cleared = record g { code = none; approvals = clear_pending_approvals g.approvals } in
    (ok (some token), notify (print approved_by_code (mint_session now token cleared)))

judge : ℕ → String → PendingCode → AccessGate → Result Bool → Result (Option String) × AccessGate
unfolding wrong_code right_code
judge now token c g (ok true) = right_code now token g
judge now token c g (ok false) = wrong_code c g
judge now token c g (err e) = (err e, g)

-- `compare_digest` is called only on six digits.
enter_code :
    Platform
    → List ℕ
    → ℕ
    → String
    → Option PendingCode
    → AccessGate
    → Result (Option String) × AccessGate
unfolding judge
enter_code p raw_code now token none g = (ok none, g)
enter_code p raw_code now token (some c) g =
    let digits = keep_digits p raw_code in
    if leb c.expires_mono now
    then (ok none, g)
    else if nat_eq (length digits) 6
    then judge now token c g (compare_digest digits c.code)
    else wrong_code c g

unfoldable pub verify :
    Platform → List ℕ → ℕ → String → AccessGate → Result (Option String) × AccessGate
unfolding enter_code
verify p raw_code now token g = enter_code p raw_code now token g.code g
