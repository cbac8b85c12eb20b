-- ===== src/Gate/Middleware.antt =====
-- lovensepy/services/http_api/access_gate.py: `AccessGateMiddleware.__call__`. The verdict says what
-- the middleware does with the request; an exception of the cookie check leaves it.
use lovensepy.Base.{
  ℕ, String, Bool, true, false, not, ◌&&◌, ◌||◌, Option, none, some, List, [], ◌∷◌, if◌then◌else◌,
  any, ◌==◌, ℕ_Eq, String_Eq, Pair_Eq, Codes_Eq,
}
use text.Mathlib.Text.{starts_with}
use lovensepy.Base.Result.{Result, ok, err}
use lovensepy.Base.Text.{or_empty, concat}
use lovensepy.Gate.Types.{AccessGate, Platform}
use lovensepy.Gate.Challenge.{issue_challenge}
use lovensepy.Gate.Sessions.{session_valid, read_cookie_value}
use lovensepy.Gate.Visitors.{
  Scope, ScopeType, http, websocket, other, is_external_request, wants_html, cookie,
}

pub data Verdict : Type 0 where
  forward : Verdict
  close_4401 : Verdict
  redirect_auth : String → Verdict
  auth_page : Verdict
  unauthorized : Verdict

-- The readings of the clock and the random draw that one request may use.
pub record Moment : Type 0 where
  pub session_now : ℕ
  pub challenge_now : ℕ
  pub draw : ℕ

abbrev open_paths : List String
open_paths =
    "/health" ∷ "/auth" ∷ "/auth/" ∷ "/auth/status" ∷ "/auth/verify" ∷ "/auth/challenge"
    ∷ "/auth/request" ∷ []

-- scope.get("path") or "/"
path_of : Scope → String
path_of scope = let s = or_empty scope.path in if s == "" then "/" else s

unfoldable pub is_open_path : String → Bool
is_open_path path = any (λ o. path == o) open_paths || starts_with path "/auth/"

abbrev gated_type : ScopeType → Bool
gated_type http = true
gated_type websocket = true
gated_type other = false

-- Requests that pass before any cookie is looked at.
unfoldable pub is_unguarded : Platform → Scope → AccessGate → Bool
unfolding path_of
is_unguarded p scope g =
    not (gated_type scope.type)
    || not g.enabled
    || is_open_path (path_of scope)
    || not (is_external_request p scope)

abbrev is_websocket : ScopeType → Bool
is_websocket websocket = true
is_websocket _ = false

abbrev is_read : Option String → Bool
is_read none = false
is_read (some m) = m == "GET" || m == "HEAD"

target_of : Scope → String
unfolding path_of
target_of scope =
    if scope.query_string == ""
    then path_of scope
    else concat (path_of scope) (concat "?" scope.query_string)

-- The answer to a visitor without a session.
unfoldable pub refusal : Scope → Verdict
unfolding target_of
refusal scope =
    if is_websocket scope.type
    then close_4401
    else if wants_html scope && is_read scope.method
    then (if target_of scope == "/" then auth_page else redirect_auth (target_of scope))
    else unauthorized

unfoldable pub decide :
    Platform → Scope → Moment → AccessGate → Result (Option String) → Result Verdict × AccessGate
decide p scope m g (err e) = (err e, g)
decide p scope m g (ok token) =
    let (valid, g') = session_valid token m.session_now g in
    let (_, challenged) = issue_challenge p m.challenge_now false m.draw g' in
    if valid then (ok forward, g') else (ok (refusal scope), challenged)

unfoldable pub handle : Platform → Scope → Moment → AccessGate → Result Verdict × AccessGate
unfolding decide
handle p scope m g =
    if is_unguarded p scope g
    then (ok forward, g)
    else decide p scope m g (read_cookie_value p g (cookie scope))
