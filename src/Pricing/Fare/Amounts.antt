-- ===== src/Pricing/Fare/Amounts.antt =====
-- What quoteInitialFare and calculateFinalFare of apps/api/src/pricing/fare-quote.ts return.
use gove.Prelude.{ℕ, ◌+◌, ◌*◌, ◌≤◌, ◌<◌, ◌≡◌, [], ◌∷◌, ok, bind_ok, map_ok, map_ok->>=, arith}
use gove.Prelude.Int.{max_safe_integer}
use gove.Pricing.Fare.{
  FarePricingRuleSnapshot, InitialFareQuoteInput, InitialFareQuote, FinalFare, FinalFareInput,
  Subject, CheckedInput, CheckedRules, validate_input, validate_rules, distance_fare, duration_fare,
  subtotal, service_multiplier, surge_multiplier, checked_multiply, checked_sum, apply_multiplier,
  ceil_ratio, clamp, quote_initial_fare, calculate_final_fare, meters_per_kilometer,
  seconds_per_minute,
}
use gove.Pricing.Fare.Rounding.{ceil_ratio_bounds}

-- The quote without the snapshot of its rules.
abbrev pub final_of : InitialFareQuote → FinalFare
final_of q = record {
  currency = q.currency;
  base_fare_minor = q.base_fare_minor;
  distance_fare_minor = q.distance_fare_minor;
  duration_fare_minor = q.duration_fare_minor;
  subtotal_minor = q.subtotal_minor;
  service_multiplier_bps = q.service_multiplier_bps;
  service_adjusted_fare_minor = q.service_adjusted_fare_minor;
  applied_surge_multiplier_bps = q.applied_surge_multiplier_bps;
  total_fare_minor = q.total_fare_minor;
}

abbrev pub metered : InitialFareQuoteInput → FinalFareInput
metered input = record {
  distance_meters = input.distance_meters;
  duration_seconds = input.duration_seconds;
  applied_surge_multiplier_bps = input.requested_surge_multiplier_bps;
}

-- The final fare of a ride that took exactly the quoted distance and duration at the requested
-- surge is the quote, amount by amount, and it fails with the same error where the quote fails.
pub calculate_final_fare-quote_initial_fare :
    (input : InitialFareQuoteInput) (rules : FarePricingRuleSnapshot)
    → calculate_final_fare (metered input) rules ≡ map_ok final_of (quote_initial_fare input rules)
unfolding calculate_final_fare quote_initial_fare
calculate_final_fare-quote_initial_fare input rules = simp map_ok->>=

-- `f` is `p / d` rounded upward.
abbrev pub IsCeil : ℕ → ℕ → ℕ → Type 0
IsCeil p d f = (p ≤ f * d) × (f * d < p + d)

-- The pricing policy: each component rounded upward once, the surge held within its bounds.
pub record IsFare (i : CheckedInput) (r : CheckedRules) (f : FinalFare) : Type 0 where
  pub base : f.base_fare_minor ≡ r.base_fare
  pub by_distance : IsCeil (i.distance * r.distance_rate) 1000 f.distance_fare_minor
  pub by_duration : IsCeil (i.duration * r.duration_rate) 60 f.duration_fare_minor
  pub sum : f.subtotal_minor ≡ f.base_fare_minor + f.distance_fare_minor + f.duration_fare_minor
  pub adjusted : IsCeil (f.subtotal_minor * r.service_factor) 10000 f.service_adjusted_fare_minor
  pub surge_within :
      (r.minimum_surge ≤ f.applied_surge_multiplier_bps)
      × (f.applied_surge_multiplier_bps ≤ r.maximum_surge)
  pub surge_kept :
      r.minimum_surge ≤ i.requested_surge
      → i.requested_surge ≤ r.maximum_surge
      → f.applied_surge_multiplier_bps ≡ i.requested_surge
  pub surge_raised :
      i.requested_surge < r.minimum_surge → f.applied_surge_multiplier_bps ≡ r.minimum_surge
  pub surge_lowered :
      r.maximum_surge < i.requested_surge → f.applied_surge_multiplier_bps ≡ r.maximum_surge
  pub total :
      IsCeil
        (f.service_adjusted_fare_minor * f.applied_surge_multiplier_bps)
        10000
        f.total_fare_minor
  pub safe : (f.subtotal_minor ≤ max_safe_integer) × (f.total_fare_minor ≤ max_safe_integer)

checked_multiply_lem :
    (a b : ℕ) (s : Subject) {p : ℕ}
    → checked_multiply a b s ≡ ok p
    → (p ≡ a * b) × (p ≤ max_safe_integer)
unfolding checked_multiply
checked_multiply_lem a b s h = ground arith

checked_sum_lem :
    (a b c : ℕ) (s : Subject) {p : ℕ}
    → checked_sum (a ∷ b ∷ c ∷ []) s ≡ ok p
    → (p ≡ a + b + c) × (p ≤ max_safe_integer)
unfolding checked_sum
checked_sum_lem a b c s h = ground arith

apply_multiplier_lem :
    (a b : ℕ) (s : Subject) {f : ℕ}
    → apply_multiplier a b s ≡ ok f
    → IsCeil (a * b) 10000 f × (f ≤ max_safe_integer)
unfolding apply_multiplier
apply_multiplier_lem a b s h = ground (arith)

clamp_lem :
    (v lo hi : ℕ)
    → lo ≤ hi
    → (lo ≤ clamp v lo hi)
      × (clamp v lo hi ≤ hi)
      × (lo ≤ v → v ≤ hi → clamp v lo hi ≡ v)
      × (v < lo → clamp v lo hi ≡ lo)
      × (hi < v → clamp v lo hi ≡ hi)
unfolding clamp
clamp_lem v lo hi h =
    (omega arith, omega arith, λ p q. omega arith, λ p. omega arith, λ p. omega arith)

validate_rules-surge :
    (rules : FarePricingRuleSnapshot) {r : CheckedRules}
    → validate_rules rules ≡ ok r
    → r.minimum_surge ≤ r.maximum_surge
unfolding validate_rules
validate_rules-surge rules h = ground arith

-- A final fare is returned only for inputs and rules that pass validation, and it follows the
-- pricing policy of the checked rules: every amount is the exact upward rounding, and none leaves
-- the safe integers.
pub calculate_final_fare-IsFare :
    (input : FinalFareInput) (rules : FarePricingRuleSnapshot) {f : FinalFare}
    → calculate_final_fare input rules ≡ ok f
    → (i : CheckedInput) × (validate_input (record {
      distance_meters = input.distance_meters;
      duration_seconds = input.duration_seconds;
      requested_surge_multiplier_bps = input.applied_surge_multiplier_bps;
    })
        ≡ ok i)
      × (r : CheckedRules) × (validate_rules rules ≡ ok r)
      × IsFare i r f
unfolding calculate_final_fare
calculate_final_fare-IsFare input rules {f} h = bind_ok _ _ h λ i hi h1. bind_ok _ _ h1 λ r hr h2.
    bind_ok (checked_multiply i.distance r.distance_rate distance_fare) _ h2 λ dp hd h3.
      bind_ok (checked_multiply i.duration r.duration_rate duration_fare) _ h3 λ tp ht h4.
        let df = ceil_ratio dp meters_per_kilometer in
        let tf = ceil_ratio tp seconds_per_minute in
        let surge = clamp i.requested_surge r.minimum_surge r.maximum_surge in
        bind_ok (checked_sum (r.base_fare ∷ df ∷ tf ∷ []) subtotal) _ h4 λ sub hs h5.
          bind_ok (apply_multiplier sub r.service_factor service_multiplier) _ h5 λ adj ha h6.
            bind_ok (apply_multiplier adj surge surge_multiplier) _ h6 λ tot hq h7. (
              i,
              hi,
              r,
              hr,
              ground (
                arith,
                checked_multiply_lem i.distance r.distance_rate distance_fare hd,
                checked_multiply_lem i.duration r.duration_rate duration_fare ht,
                ceil_ratio_bounds dp 1000,
                ceil_ratio_bounds tp 60,
                checked_sum_lem r.base_fare df tf subtotal hs,
                apply_multiplier_lem sub r.service_factor service_multiplier ha,
                apply_multiplier_lem adj surge surge_multiplier hq,
                clamp_lem i.requested_surge r.minimum_surge r.maximum_surge
                    (validate_rules-surge rules hr),
              ),
            )
