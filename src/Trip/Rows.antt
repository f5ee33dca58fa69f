-- ===== src/Trip/Rows.antt =====
-- The rows that apps/api/src/trip/trip.repository.ts reads and writes besides those of dispatch, and
-- its answers, by the names of the columns in infra/postgres/migrations. Ids are the texts of UUIDs,
-- times are milliseconds since the epoch.
use gove.Prelude.{ℕ, Option}
use gove.Prelude.Int.{Number, Double}
use gove.Prelude.Text.{Text}
use gove.Prelude.OrderedMap.{OrderedMap}
use gove.Contracts.{ServiceType, TripState, TripCancellationRuleCode, PaymentStatus}

abbrev pub Uuid : Type 0
Uuid = Text

-- geography(Point, 4326)
pub record Point : Type 0 where
  pub longitude : Double
  pub latitude : Double

-- A field of the JSON object `quote_snapshot`, and the column.
pub data Field : Type 0 where
  string : Text → Field
  number : Number → Field
  other_value : Field

pub data Snapshot : Type 0 where
  object : OrderedMap Field → Snapshot
  not_object : Snapshot

pub data QuoteStatus : Type 0 where
  active consumed expired invalidated : QuoteStatus

-- pricing.fare_quotes
pub record Quote : Type 0 where
  pub id : Uuid
  pub customer_user_id : Uuid
  pub service_type_code : ServiceType
  pub pickup_label : Text
  pub pickup_location : Point
  pub dropoff_label : Text
  pub dropoff_location : Point
  pub rule_snapshot : Snapshot
  pub applied_surge_multiplier_bps : ℕ
  pub total_fare_minor : ℕ
  pub currency : Text
  pub status : QuoteStatus
  pub expires_at : ℕ
  pub consumed_at : Option ℕ

-- trip.trips
pub record Trip : Type 0 where
  pub id : Uuid
  pub customer_user_id : Uuid
  pub fare_quote_id : Uuid
  pub service_type_code : ServiceType
  pub state : TripState
  pub version : ℕ
  pub pickup_label : Text
  pub pickup_location : Point
  pub dropoff_label : Text
  pub dropoff_location : Point
  pub quote_snapshot : Snapshot
  pub quoted_total_fare_minor : ℕ
  pub currency : Text
  pub applied_surge_multiplier_bps : ℕ
  pub actual_distance_meters : Option Number
  pub actual_duration_seconds : Option Number
  pub final_fare_minor : Option ℕ
  pub created_at : ℕ
  pub completed_at : Option ℕ

pub data CancellationReasonCode : Type 0 where
  change_of_plans driver_delay driver_requested_cancellation safety_concern vehicle_issue other :
      CancellationReasonCode

-- trip.cancellations; the role of the actor is CUSTOMER.
pub record Cancellation : Type 0 where
  pub id : Uuid
  pub trip_id : Uuid
  pub actor_user_id : Uuid
  pub reason_code : CancellationReasonCode
  pub reason_detail : Option Text
  pub rule_code : TripCancellationRuleCode
  pub correlation_id : Text
  pub cancelled_at : ℕ

pub record TripResponse : Type 0 where
  pub id : Uuid
  pub fare_quote_id : Uuid
  pub service_type : ServiceType
  pub state : TripState
  pub version : ℕ
  pub currency : Text
  pub quoted_total_fare_minor : ℕ
  pub created_at : ℕ

-- TripDetailResponse without the Driver, who may be null in the answers of the Trip repository.
pub record TripSummary : Type 0 where
  pub trip : TripResponse
  pub driver_id : Option Uuid
  pub actual_distance_meters : Option Number
  pub actual_duration_seconds : Option Number
  pub final_fare_minor : Option ℕ
  pub completed_at : Option ℕ

pub record TripCancellationSummary : Type 0 where
  pub reason_code : CancellationReasonCode
  pub rule_code : TripCancellationRuleCode
  pub cancelled_at : ℕ

pub record CancelTripResponse : Type 0 where
  pub detail : TripSummary
  pub cancellation : TripCancellationSummary

pub record TripHistoryItem : Type 0 where
  pub detail : TripSummary
  pub payment_status : Option PaymentStatus

pub record RideLocation : Type 0 where
  pub label : Text
  pub latitude : Double
  pub longitude : Double

pub record ActiveTripResponse : Type 0 where
  pub detail : TripSummary
  pub pickup : RideLocation
  pub dropoff : RideLocation

pub data TripCommandErrorCode : Type 0 where
  fare_quote_not_found fare_quote_expired fare_quote_already_consumed active_trip_exists
        trip_not_found trip_cancellation_not_allowed idempotency_key_reused :
      TripCommandErrorCode
