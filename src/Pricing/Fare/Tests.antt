-- ===== src/Pricing/Fare/Tests.antt =====
-- The quotes of apps/api/src/pricing/fare-quote.spec.ts's rate card, and the theorems at them.
use gove.Prelude.{◌≤◌, ◌≡◌, refl, [], ◌∷◌, ok, err, map_ok, Returns, arith}
use gove.Prelude.Int.{nat, not_integer}
use gove.Prelude.Text.{Text}
use gove.Pricing.Fare.{
  FarePricingRuleSnapshot, InitialFareQuoteInput, FinalFare, CheckedInput, CheckedRules,
  validate_input, validate_rules, quote_initial_fare, calculate_final_fare, checked_multiply,
  checked_sum, apply_multiplier, must_be_positive, minimum_surge_multiplier_bps,
}
use gove.Pricing.Fare.Amounts.{
  metered, final_of, IsFare, calculate_final_fare-quote_initial_fare, calculate_final_fare-IsFare,
}
use gove.Pricing.Fare.Total.{quote_initial_fare-Returns, calculate_final_fare_mono}

abbrev letter : Text
letter = 65 ∷ []

-- The motorbike rate card.
abbrev motorbike : FarePricingRuleSnapshot
motorbike = record {
  version = letter;
  currency = letter;
  service_type = letter;
  base_fare_minor = nat 12000;
  distance_rate_minor_per_kilometer = nat 6800;
  duration_rate_minor_per_minute = nat 350;
  service_multiplier_bps = nat 10000;
  minimum_surge_multiplier_bps = nat 10000;
  maximum_surge_multiplier_bps = nat 15000;
}

abbrev input : InitialFareQuoteInput
input = record {
  distance_meters = nat 2501;
  duration_seconds = nat 601;
  requested_surge_multiplier_bps = nat 20000;
}

abbrev checked : CheckedInput
checked = record { distance = 2501; duration = 601; requested_surge = 20000 }

abbrev checked_rules : CheckedRules
checked_rules = record {
  base_fare = 12000;
  distance_rate = 6800;
  duration_rate = 350;
  service_factor = 10000;
  minimum_surge = 10000;
  maximum_surge = 15000;
}

abbrev fare : FinalFare
fare = record {
  currency = letter;
  base_fare_minor = 12000;
  distance_fare_minor = 17007;
  duration_fare_minor = 3506;
  subtotal_minor = 32513;
  service_multiplier_bps = 10000;
  service_adjusted_fare_minor = 32513;
  applied_surge_multiplier_bps = 15000;
  total_fare_minor = 48770;
}

calculate_final_fare-input : calculate_final_fare (metered input) motorbike ≡ ok fare
unfolding calculate_final_fare validate_input validate_rules checked_multiply checked_sum
    apply_multiplier
calculate_final_fare-input = refl

validate_rules_refuses :
    validate_rules (record motorbike { minimum_surge_multiplier_bps = not_integer })
    ≡ err (must_be_positive minimum_surge_multiplier_bps)
unfolding validate_rules
validate_rules_refuses = refl

validate_input-input : validate_input input ≡ ok checked
unfolding validate_input
validate_input-input = refl

validate_rules-motorbike : validate_rules motorbike ≡ ok checked_rules
unfolding validate_rules
validate_rules-motorbike = refl

calculate_final_fare-quote_initial_fare_example :
    calculate_final_fare (metered input) motorbike
    ≡ map_ok final_of (quote_initial_fare input motorbike)
calculate_final_fare-quote_initial_fare_example =
    calculate_final_fare-quote_initial_fare input motorbike

calculate_final_fare-IsFare_example :
    (i : CheckedInput) × (validate_input input ≡ ok i)
    × (r : CheckedRules) × (validate_rules motorbike ≡ ok r)
    × IsFare i r fare
calculate_final_fare-IsFare_example =
    calculate_final_fare-IsFare (metered input) motorbike calculate_final_fare-input

quote_initial_fare-Returns_example : Returns (quote_initial_fare input motorbike)
quote_initial_fare-Returns_example =
    quote_initial_fare-Returns input motorbike checked checked_rules validate_input-input
      validate_rules-motorbike (omega arith)

calculate_final_fare_mono_example : 48770 ≤ 48770
calculate_final_fare_mono_example =
    calculate_final_fare_mono 2501 601 2501 601 (nat 20000) motorbike (omega arith) (omega arith)
      calculate_final_fare-input calculate_final_fare-input
