-- ===== src/Delivery/Rows.antt =====
-- The rows that apps/api/src/delivery/delivery.repository.ts reads and writes, by the names of the
-- columns in infra/postgres/migrations, and its answers.
use gove.Prelude.{ℕ, Bool, true, false, List, Option}
use gove.Prelude.Text.{Text}
use gove.Database.{M}
use gove.Dispatch.ExpiryPolicy.{DriverReservationState}
use gove.Trip.Rows.{RideLocation}
use gove.Dispatch.Tables.{Uuid, Point, Db, Thrown}

pub data DeliveryState : Type 0 where
  requested matching driver_to_pickup at_pickup in_transit delivered cancelled no_driver_available :
      DeliveryState

pub data DeliveryOfferState : Type 0 where
  pending accepted expired : DeliveryOfferState

-- delivery.deliveries
pub record Delivery : Type 0 where
  pub id : Uuid
  pub customer_user_id : Uuid
  pub pickup_label : Text
  pub pickup_location : Point
  pub dropoff_label : Text
  pub dropoff_location : Point
  pub recipient_display_name : Text
  pub recipient_contact_phone : Text
  pub parcel_description : Text
  pub declared_weight_grams : ℕ
  pub state : DeliveryState
  pub version : ℕ
  pub created_at : ℕ

-- delivery.driver_reservations
pub record DeliveryReservation : Type 0 where
  pub id : Uuid
  pub driver_user_id : Uuid
  pub delivery_id : Uuid
  pub status : DriverReservationState
  pub expires_at : ℕ
  pub resolved_at : Option ℕ

-- delivery.delivery_offers
pub record DeliveryOffer : Type 0 where
  pub id : Uuid
  pub delivery_id : Uuid
  pub reservation_id : Uuid
  pub driver_user_id : Uuid
  pub attempt_number : ℕ
  pub status : DeliveryOfferState
  pub offered_at : ℕ
  pub expires_at : ℕ
  pub resolved_at : Option ℕ
  pub accepted_by_user_id : Option Uuid
  pub acceptance_idempotency_key : Option Text
  pub accepted_delivery_version : Option ℕ

pub data DeliveryAssignmentStatus : Type 0 where
  active completed cancelled : DeliveryAssignmentStatus

-- delivery.assignments
pub record DeliveryAssignment : Type 0 where
  pub id : Uuid
  pub delivery_id : Uuid
  pub offer_id : Uuid
  pub driver_user_id : Uuid
  pub status : DeliveryAssignmentStatus
  pub accepted_at : ℕ
  pub completed_at : Option ℕ
  pub pickup_custody_confirmation : Option Text
  pub pickup_confirmed_at : Option ℕ

-- delivery.delivery_proofs
pub record DeliveryProof : Type 0 where
  pub id : Uuid
  pub delivery_id : Uuid
  pub assignment_id : Uuid
  pub recorded_by_user_id : Uuid
  pub confirmation_text : Option Text

pub data DeliveryAction : Type 0 where
  arrive_at_pickup confirm_pickup_custody complete_delivery : DeliveryAction

pub data DeliveryCommand : Type 0 where
  create_delivery start_matching no_eligible_driver assign_driver expire_delivery_offer :
      DeliveryCommand
  act : DeliveryAction → DeliveryCommand

-- delivery.state_transitions
pub record DeliveryTransition : Type 0 where
  pub delivery_id : Uuid
  pub actor_user_id : Option Uuid
  pub command : DeliveryCommand
  pub from_state : Option DeliveryState
  pub to_state : DeliveryState
  pub from_version : Option ℕ
  pub to_version : ℕ
  pub correlation_id : Text

pub data DeliveryEventType : Type 0 where
  delivery_created delivery_matching_started delivery_no_driver_available delivery_driver_assigned
        delivery_driver_arrived_at_pickup delivery_pickup_custody_confirmed delivery_completed :
      DeliveryEventType

-- delivery.outbox_events. The payload is a copy of values that are written beside it.
pub record DeliveryEvent : Type 0 where
  pub delivery_id : Uuid
  pub aggregate_version : ℕ
  pub event_type : DeliveryEventType

pub record DeliveryResponse : Type 0 where
  pub id : Uuid
  pub state : DeliveryState
  pub version : ℕ
  pub pickup : RideLocation
  pub dropoff : RideLocation
  pub recipient_display_name : Text
  pub parcel_description : Text
  pub declared_weight_grams : ℕ
  pub created_at : ℕ

pub record DeliveryOfferResponse : Type 0 where
  pub id : Uuid
  pub delivery_id : Uuid
  pub driver_id : Uuid
  pub attempt_number : ℕ
  pub status : DeliveryOfferState
  pub expires_at : ℕ
  pub delivery_state : DeliveryState
  pub delivery_version : ℕ

pub record DeliveryMatchResponse : Type 0 where
  pub delivery_id : Uuid
  pub delivery_state : DeliveryState
  pub delivery_version : ℕ
  pub offer : Option DeliveryOfferResponse

-- The JSON column `response_body`.
pub data DeliveryBody : Type 0 where
  delivery_response : DeliveryResponse → DeliveryBody
  match_response : DeliveryMatchResponse → DeliveryBody

-- The `operation` of a receipt.
pub data DeliveryOperation : Type 0 where
  create_delivery start_matching : DeliveryOperation
  act : DeliveryAction → DeliveryOperation

-- delivery.command_receipts
pub record DeliveryReceipt : Type 0 where
  pub actor_user_id : Uuid
  pub operation : DeliveryOperation
  pub idempotency_key : Text
  pub request_fingerprint : Text
  pub response_body : DeliveryBody

-- The tables of the schema delivery, and those of the other schemas.
pub record DeliveryDb : Type 0 where
  pub shared : Db
  pub deliveries : List Delivery
  pub offers : List DeliveryOffer
  pub reservations : List DeliveryReservation
  pub assignments : List DeliveryAssignment
  pub proofs : List DeliveryProof
  pub state_transitions : List DeliveryTransition
  pub outbox : List DeliveryEvent
  pub receipts : List DeliveryReceipt

abbrev pub DeliveryWork : Type 0 → Type 0
DeliveryWork A = M DeliveryDb Thrown A

abbrev pub delivery_state_eq : DeliveryState → DeliveryState → Bool
delivery_state_eq DeliveryState.requested DeliveryState.requested = true
delivery_state_eq DeliveryState.matching DeliveryState.matching = true
delivery_state_eq DeliveryState.driver_to_pickup DeliveryState.driver_to_pickup = true
delivery_state_eq DeliveryState.at_pickup DeliveryState.at_pickup = true
delivery_state_eq in_transit in_transit = true
delivery_state_eq delivered delivered = true
delivery_state_eq DeliveryState.cancelled DeliveryState.cancelled = true
delivery_state_eq DeliveryState.no_driver_available DeliveryState.no_driver_available = true
delivery_state_eq _ _ = false

abbrev pub delivery_offer_state_eq : DeliveryOfferState → DeliveryOfferState → Bool
delivery_offer_state_eq pending pending = true
delivery_offer_state_eq accepted accepted = true
delivery_offer_state_eq DeliveryOfferState.expired DeliveryOfferState.expired = true
delivery_offer_state_eq _ _ = false

abbrev pub delivery_action_eq : DeliveryAction → DeliveryAction → Bool
delivery_action_eq arrive_at_pickup arrive_at_pickup = true
delivery_action_eq confirm_pickup_custody confirm_pickup_custody = true
delivery_action_eq complete_delivery complete_delivery = true
delivery_action_eq _ _ = false

abbrev pub delivery_operation_eq : DeliveryOperation → DeliveryOperation → Bool
delivery_operation_eq DeliveryOperation.create_delivery DeliveryOperation.create_delivery = true
delivery_operation_eq DeliveryOperation.start_matching DeliveryOperation.start_matching = true
delivery_operation_eq (DeliveryOperation.act a) (DeliveryOperation.act b) = delivery_action_eq a b
delivery_operation_eq _ _ = false

abbrev pub delivery_event_eq : DeliveryEventType → DeliveryEventType → Bool
delivery_event_eq delivery_created delivery_created = true
delivery_event_eq delivery_matching_started delivery_matching_started = true
delivery_event_eq delivery_no_driver_available delivery_no_driver_available = true
delivery_event_eq delivery_driver_assigned delivery_driver_assigned = true
delivery_event_eq delivery_driver_arrived_at_pickup delivery_driver_arrived_at_pickup = true
delivery_event_eq delivery_pickup_custody_confirmed delivery_pickup_custody_confirmed = true
delivery_event_eq delivery_completed delivery_completed = true
delivery_event_eq _ _ = false
