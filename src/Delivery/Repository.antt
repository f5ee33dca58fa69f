-- ===== src/Delivery/Repository.antt =====
-- apps/api/src/delivery/delivery.repository.ts: the statements that its operations share.
pub mod Create
pub mod Reads
pub mod Matching
pub mod Offers
pub mod Assigned
pub mod Exclusive
pub mod Validity
pub mod Safety
pub mod Outcomes
pub mod Promises
pub mod Durable
pub mod Receipts
pub mod Replay
mod Tests
use gove.Prelude.{
  ℕ, ◌+◌, Bool, ◌&&◌, not, [], ◌∷◌, find?, any, count, Option, none, some, is_some, Result, ok, err,
  ◌==◌, if◌then◌else◌,
}
use gove.Prelude.Int.{Double, finite, not_finite}
use gove.Prelude.Text.{Text, text_eq}
use gove.Contracts.{DriverWorkState, available, reserved, work_state_eq}
use gove.Database.{◌>>=◌, ◌>>◌, pure, throw, throw_when, gets, modify, update}
use gove.Dispatch.ExpiryPolicy.{DriverReservationState, reservation_state_eq}
use gove.Dispatch.Tables.{
  Uuid, Point, WorkState, DeliveryCommandErrorCode, Env, Work, Db, Thrown, delivery_error,
  unique_violation, not_finite_number, delivery_state_transitions_unique_version,
  delivery_outbox_events_unique_event, delivery_command_receipts_pkey,
}
use gove.Trip.Rows.{RideLocation}
use gove.Dispatch.Repository.{same_digest, eq_uuid_option, update_work_states}
use gove.Delivery.Rows.{
  DeliveryState, DeliveryOfferState, Delivery, DeliveryReservation, DeliveryOffer,
  DeliveryTransition, DeliveryEvent, DeliveryEventType, DeliveryResponse, DeliveryOfferResponse,
  DeliveryBody, DeliveryOperation, DeliveryReceipt, DeliveryDb, DeliveryWork,
  delivery_offer_state_eq, delivery_operation_eq, delivery_event_eq,
}

abbrev pub share :
    {A : Type 0} → DeliveryDb → Result Thrown (A × Db) → Result Thrown (A × DeliveryDb)
share db (ok (a, shared)) = ok (a, record db { shared = shared })
share db (err e) = err e

-- A statement on the tables of the other schemas.
unfoldable pub on_shared : {A : Type 0} → Work A → DeliveryWork A
on_shared work db = share db (work db.shared)

unfoldable pub find_delivery_receipt :
    Uuid → DeliveryOperation → Text → DeliveryDb → Option DeliveryReceipt
find_delivery_receipt actor operation key db =
    find?
      (λ r.
        text_eq r.actor_user_id actor
        && delivery_operation_eq r.operation operation
        && text_eq r.idempotency_key key)
      db.receipts

-- The block of a command that answers a repeated request from its receipt.
unfoldable pub check_delivery_receipt :
    Uuid → DeliveryOperation → Text → Text → DeliveryWork (Option DeliveryBody)
unfolding find_delivery_receipt
check_delivery_receipt actor operation key fingerprint = do
  receipt ← gets (find_delivery_receipt actor operation key)
  elim receipt [
    | none ↦ pure none
    | some r ↦
        if not (same_digest r.request_fingerprint fingerprint)
        then throw (delivery_error DeliveryCommandErrorCode.idempotency_key_reused)
        else pure (some r.response_body)
  ]

-- `if (receipt) return ...;`
abbrev pub replay_or : Option DeliveryBody → DeliveryWork DeliveryBody → DeliveryWork DeliveryBody
replay_or (some response) rest = pure response
replay_or none rest = rest

-- INSERT INTO delivery.command_receipts, with its primary key
unfoldable pub persist_delivery_receipt :
    Uuid → DeliveryOperation → Text → Text → DeliveryBody → DeliveryWork (Unit {0})
unfolding find_delivery_receipt
persist_delivery_receipt actor operation key fingerprint response = do
  taken ← gets λ db. is_some (find_delivery_receipt actor operation key db)
  throw_when taken (unique_violation delivery_command_receipts_pkey)
  modify λ db. record db {
    receipts =
        record {
          actor_user_id = actor;
          operation = operation;
          idempotency_key = key;
          request_fingerprint = fingerprint;
          response_body = response;
        }
        ∷ db.receipts;
  }

-- appendTransition
unfoldable pub append_transition : DeliveryTransition → DeliveryWork (Unit {0})
append_transition transition = do
  taken ← gets λ db.
      any
        (λ t. text_eq t.delivery_id transition.delivery_id && t.to_version == transition.to_version)
        db.state_transitions
  throw_when taken (unique_violation delivery_state_transitions_unique_version)
  modify λ db. record db { state_transitions = transition ∷ db.state_transitions }

unfoldable pub append_delivery_outbox_event : Uuid → ℕ → DeliveryEventType → DeliveryWork (Unit {0})
append_delivery_outbox_event delivery_id version event_type = do
  taken ← gets λ db.
      any
        (λ e.
          text_eq e.delivery_id delivery_id
          && e.aggregate_version == version
          && delivery_event_eq e.event_type event_type)
        db.outbox
  throw_when taken (unique_violation delivery_outbox_events_unique_event)
  modify λ db. record db {
    outbox =
        record { delivery_id = delivery_id; aggregate_version = version; event_type = event_type }
        ∷ db.outbox;
  }

unfoldable pub finite_coordinate : Double → DeliveryWork Double
finite_coordinate (finite n) = pure (finite n)
finite_coordinate not_finite = throw not_finite_number

unfoldable pub to_delivery_response : Delivery → DeliveryWork DeliveryResponse
unfolding finite_coordinate
to_delivery_response row = do
  pickup_latitude ← finite_coordinate row.pickup_location.latitude
  pickup_longitude ← finite_coordinate row.pickup_location.longitude
  dropoff_latitude ← finite_coordinate row.dropoff_location.latitude
  dropoff_longitude ← finite_coordinate row.dropoff_location.longitude
  pure (record {
    id = row.id;
    state = row.state;
    version = row.version;
    pickup = record {
      label = row.pickup_label;
      latitude = pickup_latitude;
      longitude = pickup_longitude;
    };
    dropoff = record {
      label = row.dropoff_label;
      latitude = dropoff_latitude;
      longitude = dropoff_longitude;
    };
    recipient_display_name = row.recipient_display_name;
    parcel_description = row.parcel_description;
    declared_weight_grams = row.declared_weight_grams;
    created_at = row.created_at;
  })

-- An OfferRow: the Offer joined with the state and version of its delivery.
pub record DeliveryOfferRow : Type 0 where
  pub offer : DeliveryOffer
  pub delivery_state : DeliveryState
  pub delivery_version : ℕ

unfoldable pub to_delivery_offer_response : DeliveryOfferRow → DeliveryOfferResponse
to_delivery_offer_response row = record {
  id = row.offer.id;
  delivery_id = row.offer.delivery_id;
  driver_id = row.offer.driver_user_id;
  attempt_number = row.offer.attempt_number;
  status = row.offer.status;
  expires_at = row.offer.expires_at;
  delivery_state = row.delivery_state;
  delivery_version = row.delivery_version;
}

-- `rowCount` of an UPDATE on delivery.deliveries
unfoldable pub update_deliveries : (Delivery → Bool) → (Delivery → Delivery) → DeliveryWork ℕ
update_deliveries p change db =
    ok (count p db.deliveries, record db { deliveries = update p change db.deliveries })

unfoldable pub update_delivery_offers :
    (DeliveryOffer → Bool) → (DeliveryOffer → DeliveryOffer) → DeliveryWork (Unit {0})
update_delivery_offers p change = modify λ db. record db { offers = update p change db.offers }

unfoldable pub update_delivery_reservations :
    (DeliveryReservation → Bool)
    → (DeliveryReservation → DeliveryReservation)
    → DeliveryWork (Unit {0})
update_delivery_reservations p change =
    modify λ db. record db { reservations = update p change db.reservations }

-- SET state = ..., version = ...
abbrev pub with_delivery_state : DeliveryState → ℕ → Delivery → Delivery
with_delivery_state state version d = record d { state = state; version = version }

-- SET work_state = ..., current_delivery_id = ..., state_version = state_version + 1, and the times
abbrev pub with_delivery : Env → DriverWorkState → Option Uuid → WorkState → WorkState
with_delivery env state delivery w = record w {
  work_state = state;
  current_delivery_id = delivery;
  state_version = w.state_version + 1;
  state_changed_at = env.now;
  updated_at = env.now;
}

-- A reservation that its UPDATE resolves.
abbrev pub resolved_reservation :
    Env → DriverReservationState → DeliveryReservation → DeliveryReservation
resolved_reservation env status r = record r { status = status; resolved_at = some env.now }

abbrev pub is_active_reservation : DeliveryReservation → Bool
is_active_reservation r = reservation_state_eq r.status DriverReservationState.active

-- WHERE driver_user_id = ... AND work_state = 'RESERVED' AND current_delivery_id = ...
abbrev pub is_reserved_for_delivery : Uuid → Uuid → WorkState → Bool
is_reserved_for_delivery driver_user_id delivery_id w =
    text_eq w.driver_user_id driver_user_id
    && work_state_eq w.work_state reserved
    && eq_uuid_option w.current_delivery_id delivery_id

abbrev pub expired_delivery_offer : Env → DeliveryOffer → DeliveryOffer
expired_delivery_offer env o = record o {
  status = DeliveryOfferState.expired;
  resolved_at = some env.now;
}

unfoldable pub expire_delivery_offer : Env → DeliveryOffer → DeliveryWork (Unit {0})
unfolding update_delivery_offers update_delivery_reservations update_work_states on_shared
expire_delivery_offer env offer = do
  update_delivery_offers
      (λ o. text_eq o.id offer.id && delivery_offer_state_eq o.status DeliveryOfferState.pending)
      (expired_delivery_offer env)
  update_delivery_reservations
      (λ r.
        text_eq r.delivery_id offer.delivery_id
        && text_eq r.driver_user_id offer.driver_user_id
        && is_active_reservation r)
      (resolved_reservation env DriverReservationState.expired)
  on_shared (
      update_work_states (is_reserved_for_delivery offer.driver_user_id offer.delivery_id)
        (with_delivery env available none))
  pure tt
