-- ===== src/Mqtt/Bounds.antt =====
-- The range that is announced for a feature is the range to which its commands are clamped.
use lovensepy.Base.{
  ℕ, ◌*◌, ◌≤◌, String, ◌≡◌, refl, ap, true, Option, none, some, arith, leb, leb→le, is_some, all,
  ℕ_Eq, String_Eq, Pair_Eq, Codes_Eq,
}
use lovensepy.Services.Snapshot.{Json, number, value_at, or_empty_fields}
use lovensepy.Base.Dict.{get, get-all}
use lovensepy.Base.Int.{ℤ, pos, negsuc, round_even}
use lovensepy.Toys.Constants.{function_ranges}
use lovensepy.Toys.Known.{has_range}
use lovensepy.Mqtt.Strength.{clamp_round, clamp_feature, thousandths, clamp_in}
use lovensepy.Mqtt.Discovery.{range_or_default, or_default, Shared, number_config, number_entity}

ranges_ordered : all (λ e. leb e.1.0 e.1.1) function_ranges ≡ true
ranges_ordered = refl

round_even-whole : (n : ℕ) → round_even (n * 1000) ≡ n
unfolding round_even
round_even-whole n = ground arith

clamp_round-bounds :
    (lo hi : ℕ) (v : ℤ) → lo ≤ hi → (lo ≤ clamp_round lo hi v) × (clamp_round lo hi v ≤ hi)
unfolding clamp_round
clamp_round-bounds lo hi (pos n) h = (omega arith, omega arith)
clamp_round-bounds lo hi (negsuc n) h = (omega arith, omega arith)

clamp_round-keeps : (lo hi n : ℕ) → lo ≤ n → n ≤ hi → clamp_round lo hi (pos (n * 1000)) ≡ n
unfolding clamp_round
clamp_round-keeps lo hi n h k = omega (arith, round_even-whole n)

Ordered : Option (ℕ × ℕ) → Type 0
Ordered none = Unit
Ordered (some (lo, hi)) = lo ≤ hi

function_ranges-Ordered :
    (action : String) (o : Option (ℕ × ℕ)) → get action function_ranges ≡ o → Ordered o
unfolding Ordered
function_ranges-Ordered action none h = tt
function_ranges-Ordered action (some (lo, hi)) h =
    leb→le lo hi (get-all (λ r. leb r.0 r.1) action (lo, hi) function_ranges ranges_ordered h)

clamp_in-bounds :
    (o : Option (ℕ × ℕ)) (v : ℤ) (n : ℕ)
    → is_some o ≡ true
    → Ordered o
    → (or_default o).0 ≤ n
    → n ≤ (or_default o).1
    → ((k : ℕ) × (clamp_in o v ≡ pos k) × ((or_default o).0 ≤ k) × (k ≤ (or_default o).1))
      × (clamp_in o (pos (n * 1000)) ≡ pos n)
unfolding clamp_in Ordered
clamp_in-bounds none v n some_of h low high = absurd (ground arith)
clamp_in-bounds (some (lo, hi)) v n some_of h low high =
    let within = clamp_round-bounds lo hi v h in
    ((clamp_round lo hi v, refl, within.0, within.1), ap pos (clamp_round-keeps lo hi n low high))

-- The whole numbers in thousandths from a least to a greatest, as the document of a feature says.
abbrev pub Bounded : Json → Json → ℕ → Type 0
Bounded (number lo) (number hi) k = (lo ≤ k * 1000) × (k * 1000 ≤ hi)
Bounded _ _ k = ⊥

-- The document that `build_discovery_payloads` announces for a feature admits this level.
abbrev pub Announced : Shared → String → ℕ → Type 0
Announced s action k =
    let config = or_empty_fields (some (number_entity s action).1) in
    Bounded (value_at "min" config) (value_at "max" config) k

-- Whatever number is sent for an action with a range, the level is a whole number between the "min" and
-- the "max" of the document that announces the action, and a whole number between these is the level
-- itself.
pub clamp_feature-Announced :
    (s : Shared) (action : String) (v : ℤ) (n : ℕ)
    → has_range action ≡ true
    → Announced s action n
    → ((k : ℕ) × (clamp_feature action v ≡ pos k) × Announced s action k)
      × (clamp_feature action (thousandths (pos n)) ≡ pos n)
unfolding clamp_feature range_or_default thousandths number_entity number_config value_at
clamp_feature-Announced s action v n has within =
    let inside =
      clamp_in-bounds (get action function_ranges) v n has
        (function_ranges-Ordered action (get action function_ranges) refl) (omega (arith, within.0))
        (omega (arith, within.1)) in
    let k = inside.0.0 in
    ((k, inside.0.1, (omega (arith, inside.0.2), omega (arith, inside.0.3))), inside.1)
