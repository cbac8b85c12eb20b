-- ===== src/Gate/Sessions.antt =====
-- lovensepy/services/http_api/access_gate.py: `session_valid`, `revoke`, `_purge_sessions` and the
-- signed cookie.
use lovensepy.Base.{
  ℕ, String, Bool, false, not, ◌&&◌, Option, none, some, ltb, leb, if◌then◌else◌, ◌==◌, ℕ_Eq,
  String_Eq, Pair_Eq, Codes_Eq,
}
use lovensepy.Base.Dict.{get, keep, pop}
use lovensepy.Base.Result.{Result, ok, err, type_error}
use lovensepy.Base.Text.{truthy, concat, take_chars, rsplit, is_ascii}
use lovensepy.Gate.Types.{AccessGate, Platform}

unfoldable pub purge_sessions : ℕ → AccessGate → AccessGate
purge_sessions now g = record g { sessions = keep (λ _ expires. not (leb expires now)) g.sessions }

abbrev unexpired : ℕ → Option ℕ → Bool
unexpired now none = false
unexpired now (some expires) = ltb now expires

-- The entry of a token that is not empty.
abbrev lookup_session : Option String → AccessGate → Option ℕ
lookup_session none g = none
lookup_session (some token) g = get token g.sessions

unfoldable pub session_valid : Option String → ℕ → AccessGate → Bool × AccessGate
unfolding purge_sessions
session_valid token now g =
    let g' = purge_sessions now g in
    if truthy token then (unexpired now (lookup_session token g'), g') else (false, g)

pop_session : Option String → AccessGate → AccessGate
pop_session none g = g
pop_session (some token) g = record g { sessions = pop token g.sessions }

unfoldable pub revoke : Option String → AccessGate → AccessGate
unfolding pop_session
revoke token g = if truthy token then pop_session token g else g

digest : Platform → AccessGate → String → String
digest p g token = take_chars 16 (p.hmac_hex g.secret token)

unfoldable pub sign_cookie_value : Platform → AccessGate → String → String
unfolding digest
sign_cookie_value p g token = concat token (concat "." (digest p g token))

-- hmac.compare_digest refuses a text outside ASCII.
check_digest : String → String → String → Result (Option String)
check_digest token found expected =
    if is_ascii found && is_ascii expected
    then ok (if found == expected then some token else none)
    else err type_error

check_cookie : Platform → AccessGate → Option (String × String) → Result (Option String)
unfolding check_digest digest
check_cookie p g none = ok none
check_cookie p g (some (token, found)) = check_digest token found (digest p g token)

-- A cookie with no dot, an empty one included, has no last dot to split at.
cookie_parts : Option String → Option (String × String)
cookie_parts none = none
cookie_parts (some raw) = rsplit b'.' raw

unfoldable pub read_cookie_value : Platform → AccessGate → Option String → Result (Option String)
unfolding check_cookie cookie_parts
read_cookie_value p g raw = check_cookie p g (cookie_parts raw)
