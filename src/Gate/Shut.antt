-- ===== src/Gate/Shut.antt =====
-- A gate at which nobody types a code and the host allows nobody stays shut.
use lovensepy.Base.{
  ℕ, String, ◌≡◌, refl, inl, inr, Bool, true, false, not, none, List, [], ◌∷◌, arith, Option-cases,
  all, ℕ_Eq, String_Eq, Pair_Eq, Codes_Eq,
}
use lovensepy.Base.Dict.{get}
use lovensepy.Gate.Types.{PendingApproval, AccessGate, Platform, new_gate}
use lovensepy.Gate.Allowed.{StandsAllowed, Allows, step-StandsAllowed}
use lovensepy.Gate.Events.{Event, run, allow, claim, enter_code, step}
use lovensepy.Gate.Invariant.{IsValid}
use lovensepy.Gate.Grants.{Granted, step-sessions}
use lovensepy.Gate.Runs.{new_gate-IsValid, step-IsValid}

-- The calls that can let a visitor in: a code typed, or the host's Allow.
abbrev pub lets_in : Event → Bool
lets_in (enter_code raw now token) = true
lets_in (allow now id token) = true
lets_in _ = false

-- No session, and no request that stands allowed.
pub record IsShut (g : AccessGate) : Type 0 where
  pub no_session : (t : String) → get t g.sessions ≡ none
  pub none_allowed : (id : String) (row : PendingApproval) → ¬ StandsAllowed g id row

not-Granted :
    (p : Platform) (ev : Event) (g : AccessGate) (t : String) (e : ℕ)
    → lets_in ev ≡ false
    → IsShut g
    → ¬ Granted p ev g t e
not-Granted p (enter_code raw now token) g t e q s h = cc
not-Granted p (claim now id) g t e q s (row, here, allowed, _, _) =
    s.none_allowed id row (here, allowed)
not-Granted p _ g t e q s h = h

not-Allows :
    (ev : Event) (g : AccessGate) (id : String) (row : PendingApproval)
    → lets_in ev ≡ false
    → ¬ Allows ev g id row
not-Allows (allow now id' token) g id row q h = cc
not-Allows _ g id row q h = h

step-IsShut :
    (p : Platform) (ev : Event) (g : AccessGate)
    → lets_in ev ≡ false
    → IsValid g
    → IsShut g
    → IsShut (step p ev g)
step-IsShut p ev g q v s = record {
  no_session = λ t. elim (Option-cases (get t (step p ev g).sessions)) [
    | inl e ↦ e
    | inr (x, e) ↦ absurd (elim (step-sessions p ev g t x v e) [
      | inl old ↦ (cc (s.no_session t))
      | inr new ↦ not-Granted p ev g t x q s new
    ])
  ];
  none_allowed = λ id row h. elim (step-StandsAllowed p ev g id row v h) [
    | inl old ↦ s.none_allowed id row old
    | inr new ↦ not-Allows ev g id row q new
  ];
}

run-IsShut :
    (p : Platform) (evs : List Event) (g : AccessGate)
    → all (λ ev. not (lets_in ev)) evs ≡ true
    → IsValid g
    → IsShut g
    → IsShut (run p evs g)
unfolding run
run-IsShut p [] g q v s = s
run-IsShut p (ev ∷ evs) g q v s =
    run-IsShut p evs (step p ev g) (ground arith) (step-IsValid p ev g v)
      (step-IsShut p ev g (ground arith) v s)

-- From the start of the service, as long as nobody types a code and the host allows nobody, no
-- session is open and no request stands allowed, whatever else visitors and the panel call: asking,
-- polling, claiming, presenting cookies, rotating codes.
pub run_new-IsShut :
    (p : Platform) (secret : String) (evs : List Event)
    → all (λ ev. not (lets_in ev)) evs ≡ true
    → IsShut (run p evs (new_gate secret))
unfolding get
run_new-IsShut p secret evs q =
    run-IsShut p evs (new_gate secret) q (new_gate-IsValid secret)
      (record { no_session = λ t. refl; none_allowed = λ id row h. cc (h.0) })
