-- ===== src/Gate/Guesses.antt =====
-- How often a console code can be guessed, and what the right code gives.
use lovensepy.Base.{
  ℕ, ◌+◌, ◌≤◌, ◌<◌, String, ◌≡◌, refl, ◌∙◌, ◌≢◌, ◌↔◌, inl, inr, true, none, some, List, [], ◌∷◌,
  arith, ltb, leb, if◌then◌else◌, Bool-cases, length, all, All, ◌==◌, ℕ_Eq, String_Eq, Pair_Eq,
  Codes_Eq, codes_eq_iff,
}
use lovensepy.Base.Result.{ok}
use lovensepy.Base.Dict.{get, get-put}
use lovensepy.Gate.Types.{PendingCode, AccessGate, Platform, max_verify_failures}
use lovensepy.Gate.Challenge.{keep_digits, compare_digest, verify}

abbrev pub IsAscii : List ℕ → Type 0
IsAscii s = all (λ c. ltb c 128) s ≡ true

-- An attempt: what was typed, when, and the token that success would mint.
pub record Attempt : Type 0 where
  pub raw : List ℕ
  pub now : ℕ
  pub token : String

-- The digits typed are not the code, the challenge is live, and the comparison accepts them.
pub record IsWrong (p : Platform) (code : List ℕ) (expires : ℕ) (a : Attempt) : Type 0 where
  pub live : a.now < expires
  pub ascii : IsAscii (keep_digits p a.raw)
  pub differs : keep_digits p a.raw ≢ code

unfoldable pub attempt_all : Platform → List Attempt → AccessGate → AccessGate
attempt_all p [] g = g
attempt_all p (a ∷ rest) g = attempt_all p rest (verify p a.raw a.now a.token g).1

compare_digest-ascii : (a b : List ℕ) → IsAscii a → IsAscii b → compare_digest a b ≡ ok (a == b)
unfolding compare_digest
compare_digest-ascii a b ha hb = rw (ha, hb)

module _ (p : Platform) (a : Attempt) (g : AccessGate) where
  verify_wrong :
      (c : PendingCode)
      → g.code ≡ some c
      → IsAscii c.code
      → IsWrong p c.code c.expires_mono a
      → ((verify p a.raw a.now a.token g).1.sessions ≡ g.sessions)
        × ((verify p a.raw a.now a.token g).1.code ≡ (
            if leb max_verify_failures (c.failures + 1)
            then none
            else some (record c { failures = c.failures + 1 })))
  unfolding verify
  verify_wrong c e ac w = ground (
    arith,
    codes_eq_iff (keep_digits p a.raw) c.code,
    compare_digest-ascii (keep_digits p a.raw) c.code w.ascii ac,
  )

  verify_no_code : g.code ≡ none → (verify p a.raw a.now a.token g) ≡ (ok none, g)
  unfolding verify
  verify_no_code e = ground arith

attempt_all_no_code :
    (p : Platform) (l : List Attempt) (g : AccessGate) → g.code ≡ none → attempt_all p l g ≡ g
unfolding attempt_all
attempt_all_no_code p [] g e = refl
attempt_all_no_code p (a ∷ l) g e = rw (verify_no_code p a g e) (attempt_all_no_code p l g e)

-- One challenge survives at most eight wrong codes. Whoever types wrong codes while the challenge is
-- live, until its failures would reach `MAX_VERIFY_FAILURES`, has cancelled it: no code is left to
-- guess, and no session has been added or dropped.
pub attempt_all_budget :
    (p : Platform) (l : List Attempt) (g : AccessGate) (c : PendingCode)
    → g.code ≡ some c
    → IsAscii c.code
    → All (IsWrong p c.code c.expires_mono) l
    → max_verify_failures ≤ c.failures + length l
    → c.failures < max_verify_failures
    → ((attempt_all p l g).code ≡ none) × ((attempt_all p l g).sessions ≡ g.sessions)
unfolding attempt_all
attempt_all_budget p [] g c e ac w enough few = absurd (omega arith)
attempt_all_budget p (a ∷ l) g c e ac w enough few =
    let (kept, next) = verify_wrong p a g c e ac w.0 in
    let g' : AccessGate = (verify p a.raw a.now a.token g).1 in
    let c' : PendingCode = record c { failures = c.failures + 1 } in
    elim (Bool-cases (leb max_verify_failures (c.failures + 1))) [
      | inl last ↦
          let gone : g'.code ≡ none = ground arith in
          rw (attempt_all_no_code p l g' gone) (gone, kept)
      | inr more ↦
          let (cancelled, same) =
            attempt_all_budget p l g' c' (ground arith) ac w.1 (omega arith) (ground arith) in
          (cancelled, same ∙ kept)
    ]

-- For a challenge of six ASCII digits, `verify` answers with the fresh session token exactly if the
-- challenge is live and the digits typed are its code.
pub verify-accepts_iff :
    (p : Platform) (raw : List ℕ) (now : ℕ) (token : String) (g : AccessGate) (c : PendingCode)
    → g.code ≡ some c
    → IsAscii c.code
    → length c.code ≡ 6
    → (((verify p raw now token g).0 ≡ ok (some token))
        ↔ ((now < c.expires_mono) × (keep_digits p raw ≡ c.code)))
unfolding verify compare_digest
verify-accepts_iff p raw now token g c e ac six = (
  λ h. (
    ground (arith, codes_eq_iff (keep_digits p raw) c.code),
    ground (arith, codes_eq_iff (keep_digits p raw) c.code),
  ),
  λ h. ground (arith, codes_eq_iff (keep_digits p raw) c.code),
)

-- What any accepted code does: the token returned is the fresh one, its session ends after the
-- session's time, every other session is as before, and the challenge is used up.
pub verify-mints :
    (p : Platform) (raw : List ℕ) (now : ℕ) (token t : String) (g : AccessGate)
    → (verify p raw now token g).0 ≡ ok (some t)
    → (t ≡ token)
      × ((verify p raw now token g).1.code ≡ none)
      × ((j : String)
          → get j (verify p raw now token g).1.sessions
            ≡ (if token == j then some (now + g.session_ttl_sec) else get j g.sessions))
unfolding verify
verify-mints p raw now token t g h = (
  ground arith,
  ground arith,
  λ j. ground (arith, get-put token j (now + g.session_ttl_sec) g.sessions),
)
