-- ===== src/Ble/Pair.antt =====
-- The lines of two motors and the prime before them: where the motors stand then.
use lovensepy.Base.{
  ℕ, zero, suc, ◌*◌, ◌/◌, String, ◌≡◌, refl, ap, ◌∙◌, true, ◌&&◌, ◌||◌, Option, none, some, List,
  [], ◌∷◌, arith, is_some, ℕ_Eq, String_Eq, Pair_Eq, Codes_Eq, if_true,
}
use lovensepy.Base.Int.{ℤ}
use lovensepy.Base.Dict.{Dict, get}
use lovensepy.Base.Result.{ok}
use lovensepy.Ble.Wire.{level, Line, is_dual, pair_lines, lines_of_pair, actions_to_uart}
use lovensepy.Ble.Link.{
  primes_peer, level_or, fill_peer, running, remember, remember_levels, two, first, second, both,
  peer_line, prime_of, features_of, Motor, Client, clear_dedupe,
}
use lovensepy.Ble.Clear.{last_number, wrote, primed}

-- The first motor stands still unless it is one of those that ran last; so the second.
abbrev pub FirstRan : Option Motor → ℕ → Type 0
FirstRan (some first) n = Unit
FirstRan (some both) n = Unit
FirstRan _ n = n ≡ 0

abbrev pub SecondRan : Option Motor → ℕ → Type 0
SecondRan (some second) n = Unit
SecondRan (some both) n = Unit
SecondRan _ n = n ≡ 0

-- The levels that the client remembers are the last ones written, and it knows which motor runs.
pub record Tracks (c : Client) : Type 0 where
  pub first_level : last_number "Vibrate1" c.sent ≡ c.dual_vibrate_levels.0
  pub second_level : last_number "Vibrate2" c.sent ≡ c.dual_vibrate_levels.1
  pub first_ran : FirstRan c.dual_last_nonzero_motor (c.dual_vibrate_levels.0)
  pub second_ran : SecondRan c.dual_last_nonzero_motor (c.dual_vibrate_levels.1)

pub whole : (n : ℕ) → n * 1000 / 1000 ≡ n
whole n = omega arith

pub pair_actions :
    (features : List String) (a b : ℕ)
    → is_dual features ≡ true
    → actions_to_uart features (two a b) ≡ ok (pair_lines a b)
unfolding actions_to_uart get lines_of_pair
pair_actions features a b d =
    if_true (is_dual features) (ok (pair_lines (a * 1000 / 1000) (b * 1000 / 1000))) _ d
    ∙ ap (λ x. ok (pair_lines x (b * 1000 / 1000))) (whole a)
    ∙ ap (λ y. ok (pair_lines a y)) (whole b)

-- The level of the other motor after the prime.
pub second_off :
    (m : Option Motor) (n k : ℕ) (c : Client)
    → last_number "Vibrate2" c.sent ≡ n
    → SecondRan m n
    → last_number "Vibrate2" (primed (peer_line m (level "Vibrate1" (suc k))) c).sent ≡ 0
unfolding peer_line clear_dedupe
second_off none n k c h r = h ∙ r
second_off (some first) n k c h r = h ∙ r
second_off (some second) n k c h r = refl
second_off (some both) n k c h r = refl

first_off :
    (m : Option Motor) (n k : ℕ) (c : Client)
    → last_number "Vibrate1" c.sent ≡ n
    → FirstRan m n
    → last_number "Vibrate1" (primed (peer_line m (level "Vibrate2" (suc k))) c).sent ≡ 0
unfolding peer_line clear_dedupe
first_off none n k c h r = h ∙ r
first_off (some second) n k c h r = h ∙ r
first_off (some first) n k c h r = refl
first_off (some both) n k c h r = refl

-- The levels that stand after the lines of a pair and their prime.
abbrev pub Stands : ℕ → ℕ → Client → Type 0
Stands a b c = (last_number "Vibrate1" c.sent ≡ a) × (last_number "Vibrate2" c.sent ≡ b)

pub prime_of_one :
    (line : Line) (c : Client)
    → primes_peer c ≡ true
    → is_dual (features_of c) ≡ true
    → prime_of c (line ∷ []) ≡ peer_line c.dual_last_nonzero_motor line
unfolding prime_of
prime_of_one line c p d =
    if_true (primes_peer c && is_dual (features_of c)) (peer_line c.dual_last_nonzero_motor line)
      none (ground arith)

pub pair_Stands :
    (a b : ℕ) (c : Client)
    → Tracks c
    → primes_peer c ≡ true
    → is_dual (features_of c) ≡ true
    → Stands a b (wrote (pair_lines a b) (primed (prime_of c (pair_lines a b)) c))
unfolding pair_lines prime_of clear_dedupe
pair_Stands zero zero c t p d = (refl, refl)
pair_Stands (suc a) (suc b) c t p d = (refl, refl)
pair_Stands (suc a) zero c t p d = (
  refl,
  ap (λ q. last_number "Vibrate2" (primed q c).sent) (prime_of_one (level "Vibrate1" (suc a)) c p d)
      ∙ second_off c.dual_last_nonzero_motor c.dual_vibrate_levels.1 a c t.second_level
          t.second_ran,
)
pair_Stands zero (suc b) c t p d = (
  ap (λ q. last_number "Vibrate1" (primed q c).sent) (prime_of_one (level "Vibrate2" (suc b)) c p d)
      ∙ first_off c.dual_last_nonzero_motor c.dual_vibrate_levels.0 b c t.first_level t.first_ran,
  refl,
)

at_rest_first : (m : Option Motor) → FirstRan m 0
at_rest_first none = refl
at_rest_first (some first) = tt
at_rest_first (some second) = refl
at_rest_first (some both) = tt

at_rest_second : (m : Option Motor) → SecondRan m 0
at_rest_second none = refl
at_rest_second (some first) = refl
at_rest_second (some second) = tt
at_rest_second (some both) = tt

running_first : (a b : ℕ) (m : Option Motor) → FirstRan (running a b m) a
unfolding running
running_first zero zero m = at_rest_first m
running_first (suc a) zero m = tt
running_first zero (suc b) m = refl
running_first (suc a) (suc b) m = tt

running_second : (a b : ℕ) (m : Option Motor) → SecondRan (running a b m) b
unfolding running
running_second zero zero m = at_rest_second m
running_second (suc a) zero m = refl
running_second zero (suc b) m = tt
running_second (suc a) (suc b) m = tt

-- The client that remembers these two levels.
abbrev pub remembering : ℕ → ℕ → Client → Client
remembering a b c = record c {
  dual_vibrate_levels = (a, b);
  dual_last_nonzero_motor = running a b c.dual_last_nonzero_motor;
}

pub remember_pair :
    (a b : ℕ) (c : Client)
    → is_dual (features_of c) ≡ true
    → remember_levels (two a b) c ≡ remembering a b c
unfolding remember_levels remember get
remember_pair a b c d =
    if_true (is_dual (features_of c) && true) (remembering (a * 1000 / 1000) (b * 1000 / 1000) c) c
      (ap (λ q. q && true) d)
    ∙ ap (λ x. remembering x (b * 1000 / 1000) c) (whole a)
    ∙ ap (λ y. remembering a y c) (whole b)

pub remembering-Tracks : (a b : ℕ) (c : Client) → Stands a b c → Tracks (remembering a b c)
remembering-Tracks a b c s = record {
  first_level = s.0;
  second_level = s.1;
  first_ran = running_first a b c.dual_last_nonzero_motor;
  second_ran = running_second a b c.dual_last_nonzero_motor;
}

-- The levels that a request asks for: those named, and the last ones of the channels not named.
abbrev pub wanted_first : Option ℤ → Client → ℕ
wanted_first v c = level_or c.dual_vibrate_levels.0 v

abbrev pub wanted_second : Option ℤ → Client → ℕ
wanted_second v c = level_or c.dual_vibrate_levels.1 v

pub fill_peer-two :
    (v1 v2 : Option ℤ) (actions : Dict String ℤ) (c : Client)
    → (is_some v1 || is_some v2) ≡ true
    → fill_peer c.dual_vibrate_levels actions v1 v2 ≡ two (wanted_first v1 c) (wanted_second v2 c)
unfolding fill_peer
fill_peer-two (some v1) (some v2) actions c h = refl
fill_peer-two (some v1) none actions c h = refl
fill_peer-two none (some v2) actions c h = refl
fill_peer-two none none actions c h = cc
