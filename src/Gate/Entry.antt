-- ===== src/Gate/Entry.antt =====
-- Who passes the middleware, and how long a session lasts.
use lovensepy.Base.{
  ℕ, ◌<◌, String, ◌≡◌, refl, ◌≢◌, ◌↔◌, inl, inr, true, false, not, Option, none, some, arith, leb,
  Option-cases, ℕ_Eq, String_Eq, Pair_Eq, Codes_Eq,
}
use lovensepy.Base.Dict.{get, get-keep, Distinct}
use lovensepy.Base.Result.{ok, err, Result}
use lovensepy.Base.Text.{truthy}
use lovensepy.Gate.Types.{AccessGate, Platform}
use lovensepy.Gate.Sessions.{session_valid, sign_cookie_value, read_cookie_value}
use lovensepy.Gate.Visitors.{Scope, cookie}
use lovensepy.Gate.Middleware.{Moment, forward, refusal, is_unguarded, handle, decide}
use lovensepy.Gate.Cookies.{HexDigests, read_cookie_value-signed, read-sign_cookie_value}

-- A token that is not empty has a session that ends after `now`.
pub record HasSession (g : AccessGate) (token : String) (now : ℕ) : Type 0 where
  pub not_empty : truthy (some token) ≡ true
  pub ends : ℕ
  pub stored : get token g.sessions ≡ some ends
  pub later : now < ends

-- A session is valid exactly until its time is over; looking it up drops only what is over.
pub session_valid_iff :
    (g : AccessGate) (token : String) (now : ℕ)
    → Distinct g.sessions
    → ((session_valid (some token) now g).0 ≡ true) ↔ HasSession g token now
unfolding session_valid
session_valid_iff g token now d = (
  λ h. elim (Option-cases (get token g.sessions)) [
    | inl e ↦ absurd (ground (arith, get-keep (λ _ x. not (leb x now)) token g.sessions d))
    | inr (x, e) ↦ record {
      not_empty = ground (arith, get-keep (λ _ x. not (leb x now)) token g.sessions d);
      ends = x;
      stored = e;
      later = ground (arith, get-keep (λ _ x. not (leb x now)) token g.sessions d);
    }
  ],
  λ s.
      ground (
        arith,
        get-keep (λ _ x. not (leb x now)) token g.sessions d,
        s.stored,
        s.later,
        s.not_empty,
      ),
)

refusal-ne-forward : (scope : Scope) → refusal scope ≢ forward
unfolding refusal
refusal-ne-forward scope h = ground arith

no_token : (now : ℕ) (g : AccessGate) → (session_valid none now g).0 ≡ false
unfolding session_valid
no_token now g = refl

decide-forward :
    (p : Platform) (scope : Scope) (m : Moment) (g : AccessGate) (r : Result (Option String))
    → (decide p scope m g r).0 ≡ ok forward
    → (token : String) × (r ≡ ok (some token))
      × ((session_valid (some token) m.session_now g).0 ≡ true)
unfolding decide
decide-forward p scope m g (err e) h = absurd (ground arith)
decide-forward p scope m g (ok none) h =
    absurd (ground (arith, no_token m.session_now g, refusal-ne-forward scope))
decide-forward p scope m g (ok (some token)) h =
    (token, refl, ground (arith, refusal-ne-forward scope))

-- A request that is not let through freely is forwarded exactly if it brings a cookie that this gate
-- has signed, for a token whose session is not over. (Freely pass: other protocols, a disabled gate,
-- the open paths, visitors of the local network.)
pub handle-forward_iff :
    (p : Platform) (scope : Scope) (m : Moment) (g : AccessGate)
    → HexDigests p
    → Distinct g.sessions
    → is_unguarded p scope g ≡ false
    → ((handle p scope m g).0 ≡ ok forward) ↔ (
        (token : String) × (cookie scope ≡ some (sign_cookie_value p g token))
        × HasSession g token m.session_now)
unfolding handle
handle-forward_iff p scope m g hex d guarded = (
  λ h.
      let (token, read, valid) =
        decide-forward p scope m g (read_cookie_value p g (cookie scope)) (ground arith) in
      (
        token,
        read_cookie_value-signed p g (cookie scope) token read,
        (session_valid_iff g token m.session_now d).0 valid,
      ),
  λ s.
      let (token, brought, open_session) = s in
      let valid : (session_valid (some token) m.session_now g).0 ≡ true =
        (session_valid_iff g token m.session_now d).1 open_session in
      rw (guarded, brought, read-sign_cookie_value p hex g token) (unfold decide in rw valid),
)
