-- ===== src/Dispatch/Repository/Assigned/Metering.antt =====
-- apps/api/src/dispatch/dispatch.repository.ts: the checks of the metering and of `quote_snapshot`.
use gove.Prelude.{Bool, false, ◌&&◌, [], ◌∷◌, Option, none, some, if◌then◌else◌, ltb, leb}
use gove.Prelude.Text.{Text, is_blank}
use gove.Database.{◌>>=◌, pure, throw}
use gove.Dispatch.Tables.{
  Field, Snapshot, Work, string, number, other_value, object, not_object, pricing_snapshot_invalid,
  command_error,
}
use gove.Prelude.Int.{Number, int, pos, max_safe_integer}
use gove.Prelude.OrderedMap.{OrderedMap, get}
use gove.Pricing.Fare.{FarePricingRuleSnapshot}

unfoldable pub is_positive_safe_integer : Option Number → Bool
is_positive_safe_integer (some (int (pos n))) = leb n max_safe_integer && ltb 0 n
is_positive_safe_integer _ = false

abbrev pub is_non_negative_safe_integer : Number → Bool
is_non_negative_safe_integer (int (pos n)) = leb n max_safe_integer
is_non_negative_safe_integer _ = false

-- The names of the fields of `quote_snapshot`.
-- 'version'
abbrev version_key : Text
version_key = 118 ∷ 101 ∷ 114 ∷ 115 ∷ 105 ∷ 111 ∷ 110 ∷ []

-- 'currency'
abbrev currency_key : Text
currency_key = 99 ∷ 117 ∷ 114 ∷ 114 ∷ 101 ∷ 110 ∷ 99 ∷ 121 ∷ []

-- 'serviceType'
abbrev service_type_key : Text
service_type_key = 115 ∷ 101 ∷ 114 ∷ 118 ∷ 105 ∷ 99 ∷ 101 ∷ 84 ∷ 121 ∷ 112 ∷ 101 ∷ []

-- 'baseFareMinor'
abbrev base_fare_minor_key : Text
base_fare_minor_key = 98 ∷ 97 ∷ 115 ∷ 101 ∷ 70 ∷ 97 ∷ 114 ∷ 101 ∷ 77 ∷ 105 ∷ 110 ∷ 111 ∷ 114 ∷ []

-- 'distanceRateMinorPerKilometer'
abbrev distance_rate_minor_per_kilometer_key : Text
distance_rate_minor_per_kilometer_key =
    100 ∷ 105 ∷ 115 ∷ 116 ∷ 97 ∷ 110 ∷ 99 ∷ 101 ∷ 82 ∷ 97 ∷ 116 ∷ 101 ∷ 77 ∷ 105 ∷ 110 ∷ 111 ∷ 114
    ∷ 80 ∷ 101 ∷ 114 ∷ 75 ∷ 105 ∷ 108 ∷ 111 ∷ 109 ∷ 101 ∷ 116 ∷ 101 ∷ 114 ∷ []

-- 'durationRateMinorPerMinute'
abbrev duration_rate_minor_per_minute_key : Text
duration_rate_minor_per_minute_key =
    100 ∷ 117 ∷ 114 ∷ 97 ∷ 116 ∷ 105 ∷ 111 ∷ 110 ∷ 82 ∷ 97 ∷ 116 ∷ 101 ∷ 77 ∷ 105 ∷ 110 ∷ 111 ∷ 114
    ∷ 80 ∷ 101 ∷ 114 ∷ 77 ∷ 105 ∷ 110 ∷ 117 ∷ 116 ∷ 101 ∷ []

-- 'serviceMultiplierBps'
abbrev service_multiplier_bps_key : Text
service_multiplier_bps_key =
    115 ∷ 101 ∷ 114 ∷ 118 ∷ 105 ∷ 99 ∷ 101 ∷ 77 ∷ 117 ∷ 108 ∷ 116 ∷ 105 ∷ 112 ∷ 108 ∷ 105 ∷ 101
    ∷ 114 ∷ 66 ∷ 112 ∷ 115 ∷ []

-- 'minimumSurgeMultiplierBps'
abbrev minimum_surge_multiplier_bps_key : Text
minimum_surge_multiplier_bps_key =
    109 ∷ 105 ∷ 110 ∷ 105 ∷ 109 ∷ 117 ∷ 109 ∷ 83 ∷ 117 ∷ 114 ∷ 103 ∷ 101 ∷ 77 ∷ 117 ∷ 108 ∷ 116
    ∷ 105 ∷ 112 ∷ 108 ∷ 105 ∷ 101 ∷ 114 ∷ 66 ∷ 112 ∷ 115 ∷ []

-- 'maximumSurgeMultiplierBps'
abbrev maximum_surge_multiplier_bps_key : Text
maximum_surge_multiplier_bps_key =
    109 ∷ 97 ∷ 120 ∷ 105 ∷ 109 ∷ 117 ∷ 109 ∷ 83 ∷ 117 ∷ 114 ∷ 103 ∷ 101 ∷ 77 ∷ 117 ∷ 108 ∷ 116 ∷ 105
    ∷ 112 ∷ 108 ∷ 105 ∷ 101 ∷ 114 ∷ 66 ∷ 112 ∷ 115 ∷ []

-- The getters `requiredString` and `requiredInteger`.
unfoldable pub required_string : OrderedMap Field → Text → Work Text
required_string snapshot field = elim (get field snapshot) [
  | some (string value) ↦
      if is_blank value then throw (command_error pricing_snapshot_invalid) else pure value
  | some (number value) ↦ throw (command_error pricing_snapshot_invalid)
  | some other_value ↦ throw (command_error pricing_snapshot_invalid)
  | none ↦ throw (command_error pricing_snapshot_invalid)
]

unfoldable pub required_integer : OrderedMap Field → Text → Work Number
required_integer snapshot field = elim (get field snapshot) [
  | some (number value) ↦
      if is_non_negative_safe_integer value
      then pure value
      else throw (command_error pricing_snapshot_invalid)
  | some (string value) ↦ throw (command_error pricing_snapshot_invalid)
  | some other_value ↦ throw (command_error pricing_snapshot_invalid)
  | none ↦ throw (command_error pricing_snapshot_invalid)
]

unfoldable pub to_fare_pricing_rule_snapshot : Snapshot → Work FarePricingRuleSnapshot
unfolding required_string required_integer
to_fare_pricing_rule_snapshot not_object = throw (command_error pricing_snapshot_invalid)
to_fare_pricing_rule_snapshot (object snapshot) = do
  version ← required_string snapshot version_key
  currency ← required_string snapshot currency_key
  service_type ← required_string snapshot service_type_key
  base ← required_integer snapshot base_fare_minor_key
  distance ← required_integer snapshot distance_rate_minor_per_kilometer_key
  duration ← required_integer snapshot duration_rate_minor_per_minute_key
  multiplier ← required_integer snapshot service_multiplier_bps_key
  minimum ← required_integer snapshot minimum_surge_multiplier_bps_key
  maximum ← required_integer snapshot maximum_surge_multiplier_bps_key
  pure (record {
    version = version;
    currency = currency;
    service_type = service_type;
    base_fare_minor = base;
    distance_rate_minor_per_kilometer = distance;
    duration_rate_minor_per_minute = duration;
    service_multiplier_bps = multiplier;
    minimum_surge_multiplier_bps = minimum;
    maximum_surge_multiplier_bps = maximum;
  })
