-- ===== src/Dispatch/Tables.antt =====
-- The rows that apps/api/src/dispatch/dispatch.repository.ts reads and writes, by the names of the
-- columns in infra/postgres/migrations, and what the database and the process give to a command.
-- Ids are the texts of UUIDs, times are milliseconds since the epoch.
use gove.Prelude.{ℕ, Bool, List, Option}
use gove.Prelude.Int.{Number, Double}
use gove.Prelude.Text.{Text}
use gove.Database.{M}
pub use gove.Trip.Rows.{
  Uuid, Point, Field, Snapshot, Quote, Trip, CancellationReasonCode, Cancellation, TripResponse,
  CancelTripResponse, TripCommandErrorCode, string, number, other_value, object, not_object,
}
pub use gove.Payment.Rows.{PaymentAttempt, PaymentReceipt, PaymentEvent, PaymentCommandErrorCode}
use gove.Contracts.{ServiceType, TripState, DriverWorkState, TripOfferState}
use gove.Dispatch.ExpiryPolicy.{DriverReservationState, DispatchExpiryPolicyInputError}
use gove.Dispatch.Ranking.{DispatchRankingInputError}

-- dispatch.trip_offers
pub record Offer : Type 0 where
  pub id : Uuid
  pub trip_id : Uuid
  pub reservation_id : Uuid
  pub driver_user_id : Uuid
  pub attempt_number : ℕ
  pub status : TripOfferState
  pub offered_at : ℕ
  pub expires_at : ℕ
  pub resolved_at : Option ℕ
  pub accepted_by_user_id : Option Uuid
  pub acceptance_idempotency_key : Option Text
  pub accepted_trip_version : Option ℕ

-- dispatch.driver_reservations
pub record Reservation : Type 0 where
  pub id : Uuid
  pub driver_user_id : Uuid
  pub trip_id : Uuid
  pub status : DriverReservationState
  pub expires_at : ℕ
  pub resolved_at : Option ℕ

-- dispatch.driver_work_states
pub record WorkState : Type 0 where
  pub driver_user_id : Uuid
  pub work_state : DriverWorkState
  pub current_trip_id : Option Uuid
  pub current_delivery_id : Option Uuid
  pub state_version : ℕ
  pub state_changed_at : ℕ
  pub updated_at : ℕ

pub data AssignmentStatus : Type 0 where
  active completed cancelled released : AssignmentStatus

-- dispatch.assignments
pub record Assignment : Type 0 where
  pub id : Uuid
  pub trip_id : Uuid
  pub offer_id : Uuid
  pub driver_user_id : Uuid
  pub status : AssignmentStatus
  pub accepted_at : ℕ
  pub started_at : Option ℕ
  pub completed_at : Option ℕ

pub data Command : Type 0 where
  create_trip cancel_trip start_matching exhaust_matching reject_offer exhaust_matching_after_reject
        expire_offer expire_offer_no_reassignment assign_driver mark_at_pickup start_trip
        complete_trip :
      Command

-- trip.state_transitions
pub record Transition : Type 0 where
  pub trip_id : Uuid
  pub actor_user_id : Option Uuid
  pub command : Command
  pub from_state : Option TripState
  pub to_state : TripState
  pub from_version : Option ℕ
  pub to_version : ℕ
  pub reason : Option CancellationReasonCode
  pub correlation_id : Text

pub data EventType : Type 0 where
  trip_created trip_cancelled trip_matching_started trip_no_driver_available dispatch_offer_created
        dispatch_offer_reassigned dispatch_offer_rejected dispatch_offer_expired
        trip_driver_assigned trip_driver_arrived trip_started trip_completed :
      EventType

-- trip.outbox_events. The payload is a copy of values that are written beside it.
pub record OutboxEvent : Type 0 where
  pub trip_id : Uuid
  pub aggregate_version : ℕ
  pub event_type : EventType

-- TripOfferResponse, with `expiresAt` in milliseconds.
pub record TripOfferResponse : Type 0 where
  pub id : Uuid
  pub trip_id : Uuid
  pub driver_id : Uuid
  pub attempt_number : ℕ
  pub status : TripOfferState
  pub expires_at : ℕ
  pub trip_state : TripState
  pub trip_version : ℕ

pub record DispatchMatchResponse : Type 0 where
  pub trip_id : Uuid
  pub trip_state : TripState
  pub trip_version : ℕ
  pub offer : Option TripOfferResponse

pub record DispatchOfferRejectionResponse : Type 0 where
  pub rejected_offer : TripOfferResponse
  pub reassigned_offer : Option TripOfferResponse

pub record TripDetailResponse : Type 0 where
  pub id : Uuid
  pub fare_quote_id : Uuid
  pub service_type : ServiceType
  pub state : TripState
  pub version : ℕ
  pub currency : Text
  pub quoted_total_fare_minor : ℕ
  pub created_at : ℕ
  pub driver_id : Uuid
  pub actual_distance_meters : Option Number
  pub actual_duration_seconds : Option Number
  pub final_fare_minor : Option ℕ
  pub completed_at : Option ℕ

-- The JSON column `response_body`.
pub data ResponseBody : Type 0 where
  match_response : DispatchMatchResponse → ResponseBody
  rejection_response : DispatchOfferRejectionResponse → ResponseBody
  offer_response : TripOfferResponse → ResponseBody
  detail_response : TripDetailResponse → ResponseBody
  trip_response : TripResponse → ResponseBody
  cancel_response : CancelTripResponse → ResponseBody

pub data AssignedTripAction : Type 0 where
  arrive_at_pickup start_trip complete_trip : AssignedTripAction

-- The `operation` of a receipt.
pub data Operation : Type 0 where
  create_trip cancel_trip start_matching reject_offer accept_offer : Operation
  driver : AssignedTripAction → Operation

-- trip.command_receipts
pub record Receipt : Type 0 where
  pub actor_user_id : Uuid
  pub operation : Operation
  pub idempotency_key : Text
  pub request_fingerprint : Text
  pub response_body : ResponseBody

pub data ApprovalStatus : Type 0 where
  approved not_approved : ApprovalStatus

pub data VehicleClass : Type 0 where
  motorbike standard_car : VehicleClass

-- driver.driver_profiles
pub record DriverProfile : Type 0 where
  pub user_id : Uuid
  pub approval_status : ApprovalStatus
  pub deactivated_at : Option ℕ

-- driver.vehicles
pub record Vehicle : Type 0 where
  pub driver_user_id : Uuid
  pub vehicle_class : VehicleClass
  pub approval_status : ApprovalStatus
  pub is_selected : Bool

-- location.latest_driver_locations
pub record DriverLocation : Type 0 where
  pub driver_user_id : Uuid
  pub location : Point
  pub captured_at : ℕ
  pub received_at : ℕ
  pub sequence_number : ℕ

-- `fresh` counts the ids drawn from randomUUID.
pub record Db : Type 0 where
  pub trips : List Trip
  pub offers : List Offer
  pub reservations : List Reservation
  pub work_states : List WorkState
  pub assignments : List Assignment
  pub state_transitions : List Transition
  pub outbox : List OutboxEvent
  pub receipts : List Receipt
  pub profiles : List DriverProfile
  pub vehicles : List Vehicle
  pub locations : List DriverLocation
  pub quotes : List Quote
  pub cancellations : List Cancellation
  pub payment_attempts : List PaymentAttempt
  pub payment_outbox : List PaymentEvent
  pub payment_receipts : List PaymentReceipt
  pub fresh : ℕ

-- now() of the transaction, the readings of Date.now(), randomUUID, the functions of PostGIS and
-- EXTRACT(EPOCH ...), and which rows another transaction holds, by their keys.
pub record Env : Type 0 where
  pub now : ℕ
  pub date_now : ℕ
  pub date_now_later : ℕ
  pub random_uuid : ℕ → Uuid
  pub st_distance : Point → Point → Double
  pub st_dwithin : Point → Point → ℕ → Bool
  pub age_seconds : ℕ → ℕ → Double
  pub is_locked : Uuid → Bool

pub data DispatchCommandErrorCode : Type 0 where
  trip_not_found trip_not_matchable driver_not_eligible driver_work_state_conflict offer_not_found
        offer_not_for_driver offer_expired offer_already_resolved trip_not_assigned_to_driver
        trip_invalid_state metering_invalid pricing_snapshot_invalid idempotency_key_reused :
      DispatchCommandErrorCode

-- The codes of DeliveryCommandError in apps/api/src/delivery/delivery.repository.ts.
pub data DeliveryCommandErrorCode : Type 0 where
  idempotency_key_reused delivery_not_found delivery_not_matchable offer_not_found
        offer_not_for_driver offer_already_resolved offer_expired driver_work_state_conflict
        delivery_not_assigned_to_driver delivery_invalid_state :
      DeliveryCommandErrorCode

-- The unique constraints that an INSERT of the repositories can violate.
pub data UniqueConstraint : Type 0 where
  state_transitions_unique_version outbox_events_unique_event trip_offers_attempt_per_trip
        trip_offers_one_pending_trip trip_offers_one_pending_driver assignments_trip_id_key
        assignments_one_active_driver trips_fare_quote_id_key cancellations_trip_id_key
        payment_attempts_unique_number payment_attempts_one_open_or_success
        delivery_state_transitions_unique_version delivery_outbox_events_unique_event
        delivery_offers_one_pending_delivery delivery_assignments_one_active_delivery
        delivery_assignments_one_active_driver delivery_assignments_one_offer
        delivery_proofs_delivery_id_key delivery_proofs_assignment_id_key command_receipts_pkey
        payment_command_receipts_pkey payment_outbox_events_unique_event
        delivery_command_receipts_pkey :
      UniqueConstraint

-- The CHECK constraints that depend on what the caller of a repository passes.
pub data CheckConstraint : Type 0 where
  payment_attempts_provider_fields payment_attempts_failure_fields payment_attempts_resolution
        payment_attempts_attempt_number :
      CheckConstraint
  latest_driver_locations_ranges latest_driver_locations_timestamp_skew : CheckConstraint

-- What a command throws.
pub data Thrown : Type 0 where
  command_error : DispatchCommandErrorCode → Thrown
  unique_violation : UniqueConstraint → Thrown
  check_violation : CheckConstraint → Thrown
  ranking_error : DispatchRankingInputError → Thrown
  expiry_error : DispatchExpiryPolicyInputError → Thrown
  not_safe_integer : Thrown
  not_finite_number : Thrown
  trip_error : TripCommandErrorCode → Thrown
  payment_error : PaymentCommandErrorCode → Thrown
  delivery_error : DeliveryCommandErrorCode → Thrown

abbrev pub Work : Type 0 → Type 0
Work A = M Db Thrown A
