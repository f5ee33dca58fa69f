-- ===== src/Pricing/Fare/Total.antt =====
-- When quoteInitialFare of apps/api/src/pricing/fare-quote.ts returns a quote, and that a longer
-- ride is not cheaper.
use native.Mathlib.Nat.{mul-le-mul, mul-le-mul_right}
use native.Mathlib.Decide.{dec_le}
use gove.Prelude.{
  ℕ, suc, subst, ◌+◌, ◌*◌, ◌≤◌, ◌≡◌, refl, [], ◌∷◌, Result, ok, arith, Returns, >>=-Returns,
}
use gove.Prelude.Int.{max_safe_integer, Number, int, pos, nat}
use gove.Pricing.Fare.{
  FarePricingRuleSnapshot, InitialFareQuoteInput, FinalFare, FinalFareInput, Subject, CheckedInput,
  CheckedRules, validate_input, validate_rules, distance_fare, duration_fare, subtotal,
  service_multiplier, surge_multiplier, checked_multiply, checked_sum, apply_multiplier, ceil_ratio,
  clamp, quote_initial_fare, calculate_final_fare, basis_points, meters_per_kilometer,
  seconds_per_minute,
}
use gove.Pricing.Fare.Rounding.{ceil_ratio_bounds}
use gove.Pricing.Fare.Amounts.{IsCeil, IsFare, calculate_final_fare-IsFare}

checked_multiply-eq_ok :
    (a b : ℕ) (s : Subject) → a * b ≤ max_safe_integer → checked_multiply a b s ≡ ok (a * b)
unfolding checked_multiply
checked_multiply-eq_ok a b s h = ground arith

checked_sum-eq_ok :
    (a b c : ℕ) (s : Subject)
    → a + b + c ≤ max_safe_integer
    → checked_sum (a ∷ b ∷ c ∷ []) s ≡ ok (a + b + c)
unfolding checked_sum
checked_sum-eq_ok a b c s h = ground arith

apply_multiplier-eq_ok :
    (a b : ℕ) (s : Subject)
    → a * b ≤ max_safe_integer
    → apply_multiplier a b s ≡ ok (ceil_ratio (a * b) 10000)
unfolding apply_multiplier
apply_multiplier-eq_ok a b s h = ground arith

-- Bounds on a ride and its rules: 1000 km, 600,000 s, and for the rates a million minor units per
-- kilometer, 100,000 per minute, a base of 10^9, a tenfold service multiplier and surge.
pub record IsModerate (i : CheckedInput) (r : CheckedRules) : Type 0 where
  pub distance_le : i.distance ≤ 1000000
  pub duration_le : i.duration ≤ 600000
  pub base_le : r.base_fare ≤ 1000000000
  pub distance_rate_le : r.distance_rate ≤ 1000000
  pub duration_rate_le : r.duration_rate ≤ 100000
  pub factor_le : r.service_factor ≤ 100000
  pub surge_le : r.maximum_surge ≤ 100000

clamp-le : (v lo hi : ℕ) → clamp v lo hi ≤ hi
unfolding clamp
clamp-le v lo hi = omega arith

-- Valid input and rules within these bounds always get a quote: no intermediate product or sum
-- leaves the safe integers.
pub quote_initial_fare-Returns :
    (input : InitialFareQuoteInput) (rules : FarePricingRuleSnapshot) (i : CheckedInput)
    (r : CheckedRules)
    → validate_input input ≡ ok i
    → validate_rules rules ≡ ok r
    → IsModerate i r
    → Returns (quote_initial_fare input rules)
unfolding quote_initial_fare
quote_initial_fare-Returns input rules i r hi hr m =
    let dp = i.distance * r.distance_rate in
    let tp = i.duration * r.duration_rate in
    let df = ceil_ratio dp meters_per_kilometer in
    let tf = ceil_ratio tp seconds_per_minute in
    let sub = r.base_fare + df + tf in
    let adj = ceil_ratio (sub * r.service_factor) basis_points in
    let surge = clamp i.requested_surge r.minimum_surge r.maximum_surge in
    let dp_le : dp ≤ 1000000 * 1000000 = mul-le-mul m.distance_le m.distance_rate_le in
    let tp_le : tp ≤ 600000 * 100000 = mul-le-mul m.duration_le m.duration_rate_le in
    let sub_le : sub ≤ 3000000000 =
      omega (
        arith,
        ceil_ratio_bounds dp 1000 (omega arith),
        ceil_ratio_bounds tp 60 (omega arith),
        m,
      ) in
    let sp_le : sub * r.service_factor ≤ 3000000000 * 100000 = mul-le-mul sub_le m.factor_le in
    let adj_le : adj ≤ 30000000000 =
      omega (arith, ceil_ratio_bounds (sub * r.service_factor) 10000 (omega arith)) in
    let surge_le : surge ≤ 100000 =
      omega (arith, clamp-le i.requested_surge r.minimum_surge r.maximum_surge, m) in
    let total_le : adj * surge ≤ 30000000000 * 100000 = mul-le-mul adj_le surge_le in
    >>=-Returns (validate_input input) _ hi (
      >>=-Returns (validate_rules rules) _ hr (
        >>=-Returns (checked_multiply i.distance r.distance_rate distance_fare) _
          (checked_multiply-eq_ok _ _ distance_fare (omega arith))
          (>>=-Returns (checked_multiply i.duration r.duration_rate duration_fare) _
            (checked_multiply-eq_ok _ _ duration_fare (omega arith))
            (>>=-Returns (checked_sum (r.base_fare ∷ df ∷ tf ∷ []) subtotal) _
              (checked_sum-eq_ok _ _ _ subtotal (omega arith))
              (>>=-Returns (apply_multiplier sub r.service_factor service_multiplier) _
                (apply_multiplier-eq_ok _ _ service_multiplier (omega arith))
                (>>=-Returns (apply_multiplier adj surge surge_multiplier) _
                  (apply_multiplier-eq_ok _ _ surge_multiplier (omega arith)) (_, refl)))))))

-- Two ceilings over one denominator are ordered as their numerators.
ceil_mono : {p q f g : ℕ} (d : ℕ) → IsCeil p d f → IsCeil q d g → p ≤ q → f ≤ g
ceil_mono {f} {g} d a b h = elim (dec_le f g) [
  | yes k ↦ k
  | no k ↦ let above : suc g ≤ f = omega arith in absurd (omega (arith, mul-le-mul_right d above))
]

same_rules {ℓ} : {E A : Type ℓ} {m : Result E A} {a b : A} → m ≡ ok a → m ≡ ok b → a ≡ b
same_rules p q = cc

IsFare-mono :
    {f g : FinalFare} {i j : CheckedInput} {r : CheckedRules}
    → IsFare i r f
    → IsFare j r g
    → i.distance ≤ j.distance
    → i.duration ≤ j.duration
    → i.requested_surge ≡ j.requested_surge
    → f.total_fare_minor ≤ g.total_fare_minor
IsFare-mono {f} {g} {i} {j} {r} p q dist dur same =
    let by_distance : f.distance_fare_minor ≤ g.distance_fare_minor =
      ceil_mono 1000 p.by_distance q.by_distance (mul-le-mul_right r.distance_rate dist) in
    let by_duration : f.duration_fare_minor ≤ g.duration_fare_minor =
      ceil_mono 60 p.by_duration q.by_duration (mul-le-mul_right r.duration_rate dur) in
    let sub_le : f.subtotal_minor ≤ g.subtotal_minor =
      omega (arith, p.base, q.base, p.sum, q.sum) in
    let adj_le : f.service_adjusted_fare_minor ≤ g.service_adjusted_fare_minor =
      ceil_mono 10000 p.adjusted q.adjusted (mul-le-mul_right r.service_factor sub_le) in
    let surge : f.applied_surge_multiplier_bps ≤ g.applied_surge_multiplier_bps = ground (
      arith, p.surge_kept, q.surge_kept, p.surge_raised, q.surge_raised, p.surge_lowered,
      q.surge_lowered,
    ) in
    ceil_mono 10000 p.total q.total (mul-le-mul adj_le surge)

abbrev pub ride : ℕ → ℕ → Number → FinalFareInput
ride distance duration surge = record {
  distance_meters = nat distance;
  duration_seconds = nat duration;
  applied_surge_multiplier_bps = surge;
}

validate_input-nat :
    (d t d' t' : ℕ) (s : Number) {i j : CheckedInput}
    → validate_input (record {
      distance_meters = nat d;
      duration_seconds = nat t;
      requested_surge_multiplier_bps = s;
    })
      ≡ ok i
    → validate_input (record {
      distance_meters = nat d';
      duration_seconds = nat t';
      requested_surge_multiplier_bps = s;
    })
      ≡ ok j
    → (i.distance ≡ d)
      × (i.duration ≡ t)
      × (j.distance ≡ d')
      × (j.duration ≡ t')
      × (i.requested_surge ≡ j.requested_surge)
unfolding validate_input
validate_input-nat d t d' t' (int (pos n)) p q = ground arith
validate_input-nat d t d' t' _ p q = ground arith

-- Under the same rules and the same requested surge, a ride that is no shorter in distance and no
-- shorter in time never has the lower final fare.
pub calculate_final_fare_mono :
    (d t d' t' : ℕ) (s : Number) (rules : FarePricingRuleSnapshot) {f g : FinalFare}
    → d ≤ d'
    → t ≤ t'
    → calculate_final_fare (ride d t s) rules ≡ ok f
    → calculate_final_fare (ride d' t' s) rules ≡ ok g
    → f.total_fare_minor ≤ g.total_fare_minor
calculate_final_fare_mono d t d' t' s rules {f} {g} far long h k =
    let (i, hi, r, hr, p) = calculate_final_fare-IsFare (ride d t s) rules h in
    let (j, hj, r', hr', q) = calculate_final_fare-IsFare (ride d' t' s) rules k in
    let (di, ti, dj, tj, same) = validate_input-nat d t d' t' s hi hj in
    let q' : IsFare j r g = subst (λ x. IsFare j x g) (same_rules hr' hr) q in
    IsFare-mono p q' (omega arith) (omega arith) same
