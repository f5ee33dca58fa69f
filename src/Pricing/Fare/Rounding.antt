-- ===== src/Pricing/Fare/Rounding.antt =====
-- The division in `Math.ceil(numerator / denominator)` of apps/api/src/pricing/fare-quote.ts.
use gove.Prelude.{ℕ, suc, ◌+◌, ◌-◌, ◌*◌, ◌/◌, ◌≤◌, ◌<◌, ◌≡◌, arith}
use native.Mathlib.Decide.{dec_le, dec_lt}
use native.Mathlib.Nat.{mul-le-mul_right}
use gove.Pricing.Fare.{ceil_ratio}

-- Any numbers with the defining property of the ceiling are equal.
ceil_unique : (n d p : ℕ) → 0 < d → n ≤ p * d → p * d < n + d → (n + (d - 1)) / d ≡ p
ceil_unique n d p pos below above = grind arith

pub ceil_ratio_bounds : (n d : ℕ) → 0 < d → (n ≤ ceil_ratio n d * d) × (ceil_ratio n d * d < n + d)
unfolding ceil_ratio
ceil_ratio_bounds n d pos = (grind arith, grind arith)

rounded_le :
    (n d k scale c : ℕ) → 0 < d → n ≤ c * d → 2 * (k * d) ≤ 2 * (n * scale) + d → k ≤ c * scale
rounded_le n d k scale c pos below near = elim (dec_le k (c * scale)) [
  | yes h ↦ h
  | no h ↦
      let above : suc (c * scale) ≤ k = omega arith in
      absurd (omega (arith, mul-le-mul_right d above, mul-le-mul_right scale below))
]

lt_rounded :
    (n d k scale c : ℕ)
    → d < 2 * scale
    → c * d < n + d
    → 2 * (n * scale) ≤ 2 * (k * d) + d
    → c * scale < k + scale
lt_rounded n d k scale c fine above near = elim (dec_lt (c * scale) (k + scale)) [
  | yes h ↦ h
  | no h ↦
      let below : k + scale ≤ c * scale = omega arith in
      absurd (omega (arith, mul-le-mul_right d below, mul-le-mul_right scale above))
]

-- A multiple k / scale of 1 / scale that is at most half a unit away from n / d has the same ceiling,
-- where d < 2 * scale.
ceil_ratio_rounded :
    (n d k scale : ℕ)
    → 0 < d
    → 0 < scale
    → d < 2 * scale
    → 2 * (k * d) ≤ 2 * (n * scale) + d
    → 2 * (n * scale) ≤ 2 * (k * d) + d
    → ceil_ratio k scale ≡ ceil_ratio n d
unfolding ceil_ratio
ceil_ratio_rounded n d k scale pos one fine above below =
    let (low, high) = ceil_ratio_bounds n d pos in
    ceil_unique k scale (ceil_ratio n d) one (rounded_le n d k scale (ceil_ratio n d) pos low above)
      (lt_rounded n d k scale (ceil_ratio n d) fine high below)
