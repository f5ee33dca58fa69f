-- ===== src/Contracts.antt =====
-- packages/contracts/src/index.ts: the enumerations that the services share, and `===` on them.
use gove.Prelude.{Bool, true, false}

pub data RoleCode : Type 0 where
  customer driver operator : RoleCode

pub data ServiceType : Type 0 where
  motorbike_standard car_standard : ServiceType

pub data TripState : Type 0 where
  requested matching driver_to_pickup at_pickup in_progress completed cancelled
        no_driver_available :
      TripState

pub data DriverWorkState : Type 0 where
  offline available reserved to_pickup on_trip : DriverWorkState

pub data TripOfferState : Type 0 where
  pending accepted rejected expired revoked : TripOfferState

pub data TripCancellationRuleCode : Type 0 where
  customer_pre_trip customer_at_pickup driver_at_pickup operator_pre_trip operator_assigned
        operator_in_progress :
      TripCancellationRuleCode

pub data PaymentStatus : Type 0 where
  pending succeeded failed unknown : PaymentStatus

pub data PaymentProvider : Type 0 where
  simulator momo sepay : PaymentProvider

-- `a === b`
abbrev pub trip_state_eq : TripState → TripState → Bool
trip_state_eq requested requested = true
trip_state_eq matching matching = true
trip_state_eq driver_to_pickup driver_to_pickup = true
trip_state_eq at_pickup at_pickup = true
trip_state_eq in_progress in_progress = true
trip_state_eq completed completed = true
trip_state_eq cancelled cancelled = true
trip_state_eq no_driver_available no_driver_available = true
trip_state_eq _ _ = false

abbrev pub work_state_eq : DriverWorkState → DriverWorkState → Bool
work_state_eq offline offline = true
work_state_eq available available = true
work_state_eq reserved reserved = true
work_state_eq to_pickup to_pickup = true
work_state_eq on_trip on_trip = true
work_state_eq _ _ = false

abbrev pub offer_state_eq : TripOfferState → TripOfferState → Bool
offer_state_eq TripOfferState.pending TripOfferState.pending = true
offer_state_eq accepted accepted = true
offer_state_eq rejected rejected = true
offer_state_eq expired expired = true
offer_state_eq revoked revoked = true
offer_state_eq _ _ = false
