-- ===== src/Trip/Repository/Cancel.antt =====
-- apps/api/src/trip/trip.repository.ts: cancelTrip.
use gove.Prelude.{
  ◌+◌, Bool, false, ◌&&◌, ◌||◌, not, List, [], ◌∷◌, filter, find?, any, Option, none, some,
  if◌then◌else◌, ◌==◌,
}
use gove.Prelude.Text.{Text, text_eq}
use gove.Contracts.{
  TripCancellationRuleCode, matching, driver_to_pickup, at_pickup, cancelled, trip_state_eq,
  TripOfferState, revoked, offer_state_eq, available, to_pickup, work_state_eq,
}
use gove.Database.{◌>>=◌, ◌>>◌, pure, throw_when, gets, modify, some_or_throw}
use gove.Dispatch.ExpiryPolicy.{DriverReservationState, released, reservation_state_eq}
use gove.Dispatch.Tables.{
  Uuid, Trip, Offer, AssignmentStatus, Assignment, CancellationReasonCode, CancelTripResponse,
  TripCommandErrorCode, ResponseBody, Operation, Command, Env, Work, trip_error, cancel_response,
  trip_cancelled, unique_violation, cancellations_trip_id_key, state_transitions_unique_version,
}
use gove.Dispatch.Repository.{
  random_uuid, check_receipt, answer_or, persist_receipt, append_trip_outbox, update_offers,
  update_reservations, update_work_states, update_trips, resolved, resolved_offer, with_work_state,
  with_state, is_trip_at, is_reserved_for, eq_uuid_option, is_active,
}
use gove.Dispatch.Repository.Assigned.{update_assignments}
use gove.Trip.Repository.{customer_cancellation_rule, safe_integer, optional_safe_integer}

pub record CancelTripInput : Type 0 where
  pub customer_user_id : Uuid
  pub trip_id : Uuid
  pub idempotency_key : Text
  pub correlation_id : Text
  pub reason_code : CancellationReasonCode
  pub reason_detail : Option Text
  pub request_fingerprint : Text

abbrev pub not_allowed : TripCommandErrorCode
not_allowed = TripCommandErrorCode.trip_cancellation_not_allowed

-- WHERE id = (SELECT reservation_id ...)
abbrev pub is_reservation_of : Option Offer → Uuid → Bool
is_reservation_of none id = false
is_reservation_of (some offer) id = text_eq id offer.reservation_id

-- One round of the loop over the pending Offers.
unfoldable pub revoke_offer : Env → Trip → Offer → Work (Unit {0})
unfolding update_offers update_reservations update_work_states
revoke_offer env trip offer = do
  update_offers (λ o. text_eq o.id offer.id && offer_state_eq o.status TripOfferState.pending)
      (resolved_offer env revoked)
  owner ← gets λ db. find? (λ o. text_eq o.id offer.id) db.offers
  update_reservations
      (λ r.
        is_reservation_of owner r.id && reservation_state_eq r.status DriverReservationState.active)
      (resolved env released)
  row_count ←
      update_work_states (is_reserved_for offer.driver_user_id trip.id)
        (with_work_state env available none)
  throw_when (not (row_count == 1)) (trip_error not_allowed)

unfoldable pub revoke_offers : Env → Trip → List Offer → Work (Unit {0})
unfolding revoke_offer
revoke_offers env trip [] = pure tt
revoke_offers env trip (offer ∷ offers) =
    revoke_offer env trip offer >> revoke_offers env trip offers

-- The block for a MATCHING Trip.
unfoldable pub revoke_pending : Env → Trip → Work (Unit {0})
unfolding revoke_offers
revoke_pending env trip = if not (trip_state_eq trip.state matching) then pure tt else do
  pending ← gets λ db.
      filter (λ o. text_eq o.trip_id trip.id && offer_state_eq o.status TripOfferState.pending)
        db.offers
  revoke_offers env trip pending

abbrev pub cancelled_assignment : Assignment → Assignment
cancelled_assignment a = record a { status = AssignmentStatus.cancelled }

-- The block for a Trip with a Driver on the way or waiting; the Driver.
unfoldable pub release_driver : Env → Trip → Work (Option Uuid)
unfolding update_assignments update_work_states
release_driver env trip =
    if not (trip_state_eq trip.state driver_to_pickup || trip_state_eq trip.state at_pickup)
    then pure none
    else do
      found ← gets λ db. find? (λ a. text_eq a.trip_id trip.id && is_active a.status) db.assignments
      assignment ← some_or_throw found (trip_error not_allowed)
      update_assignments (λ a. text_eq a.id assignment.id && is_active a.status)
          cancelled_assignment
      row_count ←
          update_work_states
            (λ w.
              text_eq w.driver_user_id assignment.driver_user_id
              && work_state_eq w.work_state to_pickup
              && eq_uuid_option w.current_trip_id trip.id)
            (with_work_state env available none)
      throw_when (not (row_count == 1)) (trip_error not_allowed)
      pure (some assignment.driver_user_id)

-- INSERT INTO trip.cancellations ... RETURNING cancelled_at
unfoldable pub insert_cancellation :
    Env → CancelTripInput → Uuid → TripCancellationRuleCode → Work (Unit {0})
insert_cancellation env input trip_id rule_code = do
  id ← random_uuid env
  taken ← gets λ db. any (λ c. text_eq c.trip_id trip_id) db.cancellations
  throw_when taken (unique_violation cancellations_trip_id_key)
  modify λ db. record db {
    cancellations =
        record {
          id = id;
          trip_id = trip_id;
          actor_user_id = input.customer_user_id;
          reason_code = input.reason_code;
          reason_detail = input.reason_detail;
          rule_code = rule_code;
          correlation_id = input.correlation_id;
          cancelled_at = env.now;
        }
        ∷ db.cancellations;
  }

-- INSERT INTO trip.state_transitions
unfoldable pub append_cancellation : CancelTripInput → Trip → Work (Unit {0})
append_cancellation input trip = do
  taken ← gets λ db.
      any (λ t. text_eq t.trip_id trip.id && t.to_version == trip.version + 1) db.state_transitions
  throw_when taken (unique_violation state_transitions_unique_version)
  modify λ db. record db {
    state_transitions =
        record {
          trip_id = trip.id;
          actor_user_id = some input.customer_user_id;
          command = Command.cancel_trip;
          from_state = some trip.state;
          to_state = cancelled;
          from_version = some trip.version;
          to_version = trip.version + 1;
          reason = some input.reason_code;
          correlation_id = input.correlation_id;
        }
        ∷ db.state_transitions;
  }

-- The CancelTripResponse of the command.
unfoldable pub cancellation_response :
    Env → CancelTripInput → Trip → TripCancellationRuleCode → Option Uuid → Work CancelTripResponse
unfolding safe_integer optional_safe_integer
cancellation_response env input trip rule_code driver_id = do
  quoted ← safe_integer trip.quoted_total_fare_minor
  fare ← optional_safe_integer trip.final_fare_minor
  pure (record {
    detail = record {
      trip = record {
        id = trip.id;
        fare_quote_id = trip.fare_quote_id;
        service_type = trip.service_type_code;
        state = cancelled;
        version = trip.version + 1;
        currency = trip.currency;
        quoted_total_fare_minor = quoted;
        created_at = trip.created_at;
      };
      driver_id = driver_id;
      actual_distance_meters = trip.actual_distance_meters;
      actual_duration_seconds = trip.actual_duration_seconds;
      final_fare_minor = fare;
      completed_at = trip.completed_at;
    };
    cancellation = record {
      reason_code = input.reason_code;
      rule_code = rule_code;
      cancelled_at = env.now;
    };
  })

-- The statements on a Trip that the Customer may cancel.
unfoldable pub cancel_rows :
    Env → CancelTripInput → Trip → TripCancellationRuleCode → Work ResponseBody
unfolding revoke_pending release_driver update_trips insert_cancellation append_cancellation
    append_trip_outbox cancellation_response persist_receipt
cancel_rows env input trip rule_code = do
  revoke_pending env trip
  driver_id ← release_driver env trip
  row_count ←
      update_trips (is_trip_at trip.id trip.state trip.version)
        (with_state cancelled (trip.version + 1))
  throw_when (not (row_count == 1)) (trip_error not_allowed)
  insert_cancellation env input trip.id rule_code
  append_cancellation input trip
  append_trip_outbox trip.id (trip.version + 1) trip_cancelled
  response ← cancellation_response env input trip rule_code driver_id
  persist_receipt input.customer_user_id Operation.cancel_trip input.idempotency_key
      input.request_fingerprint (cancel_response response)
  pure (cancel_response response)

-- cancelTrip after its receipt block.
unfoldable pub cancel : Env → CancelTripInput → Work ResponseBody
unfolding customer_cancellation_rule cancel_rows
cancel env input = do
  found ← gets λ db.
      find? (λ t. text_eq t.id input.trip_id && text_eq t.customer_user_id input.customer_user_id)
        db.trips
  trip ← some_or_throw found (trip_error TripCommandErrorCode.trip_not_found)
  rule_code ← some_or_throw (customer_cancellation_rule trip.state) (trip_error not_allowed)
  cancel_rows env input trip rule_code

unfoldable pub cancel_trip : Env → CancelTripInput → Work ResponseBody
unfolding check_receipt cancel
cancel_trip env input = do
  receipt ←
      check_receipt input.customer_user_id Operation.cancel_trip input.idempotency_key
        input.request_fingerprint
  answer_or receipt (λ response. response) (cancel env input)
