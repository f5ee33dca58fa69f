-- ===== src/Pricing/Fare.antt =====
-- apps/api/src/pricing/fare-quote.ts. The assertions hand on the natural number that they have
-- checked. On safe non-negative integers the test of a product or a sum against
-- Number.MAX_SAFE_INTEGER agrees with the exact result, since rounding is monotone and
-- MAX_SAFE_INTEGER + 1 is a double.
pub mod Rounding
pub mod Amounts
pub mod Total
mod Tests
use Prim.Native.Nat.{min, max}
use gove.Prelude.{
  ℕ, suc, ◌+◌, ◌-◌, ◌*◌, ◌/◌, Bool, true, false, List, [], ◌∷◌, Result, ok, err, ◌>>=◌, ◌>>◌,
  throw_if, ltb, leb, if◌then◌else◌,
}
use gove.Prelude.Int.{ℤ, pos, negsuc, Number, int, not_integer, max_safe_integer}
use gove.Prelude.Text.{Text, is_blank}

abbrev pub basis_points : ℕ
basis_points = 10000

abbrev pub meters_per_kilometer : ℕ
meters_per_kilometer = 1000

abbrev pub seconds_per_minute : ℕ
seconds_per_minute = 60

pub record FarePricingRuleSnapshot : Type 0 where
  pub version : Text
  pub currency : Text
  pub service_type : Text
  pub base_fare_minor : Number
  pub distance_rate_minor_per_kilometer : Number
  pub duration_rate_minor_per_minute : Number
  pub service_multiplier_bps : Number
  pub minimum_surge_multiplier_bps : Number
  pub maximum_surge_multiplier_bps : Number

pub record InitialFareQuoteInput : Type 0 where
  pub distance_meters : Number
  pub duration_seconds : Number
  pub requested_surge_multiplier_bps : Number

pub record InitialFareQuote : Type 0 where
  pub currency : Text
  pub base_fare_minor : ℕ
  pub distance_fare_minor : ℕ
  pub duration_fare_minor : ℕ
  pub subtotal_minor : ℕ
  pub service_multiplier_bps : ℕ
  pub service_adjusted_fare_minor : ℕ
  pub applied_surge_multiplier_bps : ℕ
  pub total_fare_minor : ℕ
  pub rule_snapshot : FarePricingRuleSnapshot

pub record FinalFare : Type 0 where
  pub currency : Text
  pub base_fare_minor : ℕ
  pub distance_fare_minor : ℕ
  pub duration_fare_minor : ℕ
  pub subtotal_minor : ℕ
  pub service_multiplier_bps : ℕ
  pub service_adjusted_fare_minor : ℕ
  pub applied_surge_multiplier_bps : ℕ
  pub total_fare_minor : ℕ

-- The `name` or `context` in a message of PricingInputError.
pub data Subject : Type 0 where
  rule_version currency service_type distance_meters duration_seconds requested_surge_multiplier_bps
        base_fare_minor distance_rate_minor_per_kilometer duration_rate_minor_per_minute
        service_multiplier_bps minimum_surge_multiplier_bps maximum_surge_multiplier_bps
        distance_fare duration_fare subtotal service_multiplier surge_multiplier :
      Subject

pub data PricingInputError : Type 0 where
  must_not_be_empty : Subject → PricingInputError
  must_be_non_negative : Subject → PricingInputError
  must_be_positive : Subject → PricingInputError
  minimum_surge_exceeds_maximum : PricingInputError
  exceeds_safe_integer : Subject → PricingInputError

-- The values that have passed validateInput.
pub record CheckedInput : Type 0 where
  pub distance : ℕ
  pub duration : ℕ
  pub requested_surge : ℕ

-- The values that have passed validateRules.
pub record CheckedRules : Type 0 where
  pub base_fare : ℕ
  pub distance_rate : ℕ
  pub duration_rate : ℕ
  pub service_factor : ℕ
  pub minimum_surge : ℕ
  pub maximum_surge : ℕ

unfoldable pub assert_non_negative_integer : Number → Subject → Result PricingInputError ℕ
assert_non_negative_integer (int (pos n)) name =
    if leb n max_safe_integer then ok n else err (must_be_non_negative name)
assert_non_negative_integer _ name = err (must_be_non_negative name)

unfoldable pub assert_positive_integer : Number → Subject → Result PricingInputError ℕ
assert_positive_integer (int (pos n)) name =
    if leb n max_safe_integer
    then (if leb n 0 then err (must_be_positive name) else ok n)
    else err (must_be_positive name)
assert_positive_integer _ name = err (must_be_positive name)

unfoldable pub validate_input : InitialFareQuoteInput → Result PricingInputError CheckedInput
unfolding assert_non_negative_integer assert_positive_integer
validate_input input = do
  distance ← assert_non_negative_integer input.distance_meters distance_meters
  duration ← assert_non_negative_integer input.duration_seconds duration_seconds
  surge ←
      assert_positive_integer input.requested_surge_multiplier_bps requested_surge_multiplier_bps
  ok (record { distance = distance; duration = duration; requested_surge = surge })

unfoldable pub validate_rules : FarePricingRuleSnapshot → Result PricingInputError CheckedRules
unfolding assert_non_negative_integer assert_positive_integer is_blank
validate_rules rules = do
  throw_if (is_blank rules.version) (must_not_be_empty rule_version)
  throw_if (is_blank rules.currency) (must_not_be_empty currency)
  throw_if (is_blank rules.service_type) (must_not_be_empty service_type)
  base ← assert_non_negative_integer rules.base_fare_minor base_fare_minor
  distance_rate ←
      assert_non_negative_integer rules.distance_rate_minor_per_kilometer
        distance_rate_minor_per_kilometer
  duration_rate ←
      assert_non_negative_integer rules.duration_rate_minor_per_minute
        duration_rate_minor_per_minute
  factor ← assert_positive_integer rules.service_multiplier_bps service_multiplier_bps
  minimum ← assert_positive_integer rules.minimum_surge_multiplier_bps minimum_surge_multiplier_bps
  maximum ← assert_positive_integer rules.maximum_surge_multiplier_bps maximum_surge_multiplier_bps
  throw_if (ltb maximum minimum) minimum_surge_exceeds_maximum
  ok (record {
    base_fare = base;
    distance_rate = distance_rate;
    duration_rate = duration_rate;
    service_factor = factor;
    minimum_surge = minimum;
    maximum_surge = maximum;
  })

unfoldable pub checked_multiply : ℕ → ℕ → Subject → Result PricingInputError ℕ
checked_multiply left right context =
    let result = left * right in
    if leb result max_safe_integer then ok result else err (exceeds_safe_integer context)

-- `values.reduce((sum, value) => sum + value, 0)`
abbrev sum_from : ℕ → List ℕ → ℕ
sum_from acc [] = acc
sum_from acc (v ∷ vs) = sum_from (acc + v) vs

unfoldable pub checked_sum : List ℕ → Subject → Result PricingInputError ℕ
checked_sum values context =
    let result = sum_from 0 values in
    if leb result max_safe_integer then ok result else err (exceeds_safe_integer context)

-- `Math.ceil(numerator / denominator)`, the quotient taken exactly; doubles are not modelled.
unfoldable pub ceil_ratio : ℕ → ℕ → ℕ
ceil_ratio numerator denominator = (numerator + (denominator - 1)) / denominator

unfoldable pub apply_multiplier : ℕ → ℕ → Subject → Result PricingInputError ℕ
unfolding checked_multiply ceil_ratio
apply_multiplier amount multiplier_bps context = do
  product ← checked_multiply amount multiplier_bps context
  ok (ceil_ratio product basis_points)

unfoldable pub clamp : ℕ → ℕ → ℕ → ℕ
clamp value minimum maximum = min (max value minimum) maximum

unfoldable pub quote_initial_fare :
    InitialFareQuoteInput → FarePricingRuleSnapshot → Result PricingInputError InitialFareQuote
unfolding ceil_ratio clamp
quote_initial_fare input rules = do
  i ← validate_input input
  r ← validate_rules rules
  distance_product ← checked_multiply i.distance r.distance_rate distance_fare
  let distance_fare_minor = ceil_ratio distance_product meters_per_kilometer
  duration_product ← checked_multiply i.duration r.duration_rate duration_fare
  let duration_fare_minor = ceil_ratio duration_product seconds_per_minute
  subtotal_minor ←
      checked_sum (r.base_fare ∷ distance_fare_minor ∷ duration_fare_minor ∷ []) subtotal
  adjusted ← apply_multiplier subtotal_minor r.service_factor service_multiplier
  let surge = clamp i.requested_surge r.minimum_surge r.maximum_surge
  total ← apply_multiplier adjusted surge surge_multiplier
  ok (record {
    currency = rules.currency;
    base_fare_minor = r.base_fare;
    distance_fare_minor = distance_fare_minor;
    duration_fare_minor = duration_fare_minor;
    subtotal_minor = subtotal_minor;
    service_multiplier_bps = r.service_factor;
    service_adjusted_fare_minor = adjusted;
    applied_surge_multiplier_bps = surge;
    total_fare_minor = total;
    rule_snapshot = rules;
  })

-- The argument of calculateFinalFare.
pub record FinalFareInput : Type 0 where
  pub distance_meters : Number
  pub duration_seconds : Number
  pub applied_surge_multiplier_bps : Number

unfoldable pub calculate_final_fare :
    FinalFareInput → FarePricingRuleSnapshot → Result PricingInputError FinalFare
unfolding ceil_ratio clamp
calculate_final_fare input rules = do
  i ← validate_input (record {
    distance_meters = input.distance_meters;
    duration_seconds = input.duration_seconds;
    requested_surge_multiplier_bps = input.applied_surge_multiplier_bps;
  })
  r ← validate_rules rules
  distance_product ← checked_multiply i.distance r.distance_rate distance_fare
  let distance_fare_minor = ceil_ratio distance_product meters_per_kilometer
  duration_product ← checked_multiply i.duration r.duration_rate duration_fare
  let duration_fare_minor = ceil_ratio duration_product seconds_per_minute
  subtotal_minor ←
      checked_sum (r.base_fare ∷ distance_fare_minor ∷ duration_fare_minor ∷ []) subtotal
  adjusted ← apply_multiplier subtotal_minor r.service_factor service_multiplier
  let surge = clamp i.requested_surge r.minimum_surge r.maximum_surge
  total ← apply_multiplier adjusted surge surge_multiplier
  ok (record {
    currency = rules.currency;
    base_fare_minor = r.base_fare;
    distance_fare_minor = distance_fare_minor;
    duration_fare_minor = duration_fare_minor;
    subtotal_minor = subtotal_minor;
    service_multiplier_bps = r.service_factor;
    service_adjusted_fare_minor = adjusted;
    applied_surge_multiplier_bps = surge;
    total_fare_minor = total;
  })
