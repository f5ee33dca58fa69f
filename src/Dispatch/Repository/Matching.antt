-- ===== src/Dispatch/Repository/Matching.antt =====
-- apps/api/src/dispatch/dispatch.repository.ts: startMatching. The children have reserveNextOffer.
mod Candidates
mod Reserve
unfoldable pub use Candidates.*
unfoldable pub use Reserve.*
use gove.Prelude.{
  ℕ, ◌+◌, ◌*◌, ◌^◌, Bool, true, false, ◌&&◌, ◌||◌, not, List, [], ◌∷◌, filter, take, find?, any,
  map, Option, none, some, is_some, if◌then◌else◌, ltb, leb, ◌==◌,
}
use Prim.Native.Nat.{compare, max, Ordering}
use gove.Prelude.Int.{pos, Double, finite}
use gove.Prelude.Text.{Text, text_eq}
use gove.Contracts.{
  TripState, requested, matching, no_driver_available, available, reserved, TripOfferState,
  trip_state_eq, work_state_eq, offer_state_eq, ServiceType, motorbike_standard, car_standard,
}
use gove.Database.{
  ◌>>=◌, ◌>>◌, pure, throw_when, gets, modify, order_by, flat_map, some_or_throw, or_throw,
}
use gove.Dispatch.ExpiryPolicy.{DriverReservationState, reservation_state_eq}
use gove.Dispatch.Ranking.{
  DriverCandidate, rank_eligible_driver_candidates, difference, compare_driver_ids, or_then,
}
use gove.Dispatch.Tables.{
  Uuid, Trip, Offer, Reservation, WorkState, Command, DispatchMatchResponse, ResponseBody,
  Operation, ApprovalStatus, VehicleClass, DriverProfile, Vehicle, DriverLocation, Db, Env, Work,
  exhaust_matching, trip_matching_started, trip_no_driver_available, dispatch_offer_created,
  dispatch_offer_reassigned, match_response, approved, not_approved, motorbike, standard_car,
  trip_not_found, trip_not_matchable, trip_offers_attempt_per_trip, trip_offers_one_pending_trip,
  trip_offers_one_pending_driver, command_error, unique_violation, ranking_error,
}
use gove.Dispatch.Repository.{
  OfferRow, answer_or, check_receipt, persist_receipt, append_trip_transition, append_trip_outbox,
  random_uuid, eq_uuid_option, join_trip, head, to_offer_response, update_work_states, update_trips,
  with_work_state, with_state, is_trip_at, release_reservation, location_freshness_seconds,
  offer_ttl_seconds, max_offer_attempts, search_radius_meters, max_candidates,
}

pub record StartMatchingInput : Type 0 where
  pub customer_user_id : Uuid
  pub trip_id : Uuid
  pub idempotency_key : Text
  pub request_fingerprint : Text
  pub correlation_id : Text

-- The Offer of the Trip that waits for an answer, by the latest attempt.
unfoldable pub pending_offer : Uuid → Db → Option OfferRow
pending_offer trip_id db = head (
    flat_map (join_trip db) (
      order_by (λ a b. ltb b.attempt_number a.attempt_number)
        (filter (λ o. text_eq o.trip_id trip_id && offer_state_eq o.status TripOfferState.pending)
          db.offers)))

-- REQUESTED becomes MATCHING; the version of the Trip after it.
unfoldable pub enter_matching : StartMatchingInput → Trip → Work ℕ
unfolding update_trips append_trip_transition append_trip_outbox
enter_matching input trip =
    if not (trip_state_eq trip.state requested) then pure trip.version else do
      update_trips (λ t. text_eq t.id trip.id && t.version == trip.version)
          (with_state matching (trip.version + 1))
      append_trip_transition (record {
        trip_id = trip.id;
        actor_user_id = none;
        command = Command.start_matching;
        from_state = some requested;
        to_state = matching;
        from_version = some trip.version;
        to_version = trip.version + 1;
        correlation_id = input.correlation_id;
      })
      append_trip_outbox trip.id (trip.version + 1) trip_matching_started
      pure (trip.version + 1)

-- MATCHING becomes NO_DRIVER_AVAILABLE; the version of the Trip after it.
unfoldable pub exhaust : Uuid → Option Uuid → Command → ℕ → Text → Work ℕ
unfolding update_trips append_trip_transition append_trip_outbox
exhaust trip_id actor command version correlation_id = do
  update_trips (is_trip_at trip_id matching version) (with_state no_driver_available (version + 1))
  append_trip_transition (record {
    trip_id = trip_id;
    actor_user_id = actor;
    command = command;
    from_state = some matching;
    to_state = no_driver_available;
    from_version = some version;
    to_version = version + 1;
    correlation_id = correlation_id;
  })
  append_trip_outbox trip_id (version + 1) trip_no_driver_available
  pure (version + 1)

-- `await persistMatchingReceipt(...); return response;`
unfoldable pub respond_match : StartMatchingInput → DispatchMatchResponse → Work ResponseBody
unfolding persist_receipt
respond_match input response = do
  persist_receipt input.customer_user_id Operation.start_matching input.idempotency_key
      input.request_fingerprint (match_response response)
  pure (match_response response)

-- The answer with an Offer, or with none and the Trip exhausted.
unfoldable pub answer_match : StartMatchingInput → Uuid → ℕ → Option OfferRow → Work ResponseBody
unfolding exhaust respond_match to_offer_response
answer_match input trip_id version (some row) = respond_match input (record {
  trip_id = trip_id;
  trip_state = matching;
  trip_version = version;
  offer = some (to_offer_response row);
})
answer_match input trip_id version none = do
  exhausted ← exhaust trip_id none exhaust_matching version input.correlation_id
  respond_match input (record {
    trip_id = trip_id;
    trip_state = no_driver_available;
    trip_version = exhausted;
    offer = none;
  })

-- The Offer of the answer: the pending one, or else a new one.
unfoldable pub pending_or_reserve : Env → ReserveInput → Option OfferRow → Work (Option OfferRow)
unfolding reserve_next_offer
pending_or_reserve env input (some row) = pure (some row)
pending_or_reserve env input none = reserve_next_offer env input

-- startMatching after its receipt block.
unfoldable pub match_trip : Env → StartMatchingInput → Work ResponseBody
unfolding enter_matching pending_offer pending_or_reserve answer_match
match_trip env input = do
  found ← gets λ db.
      find? (λ t. text_eq t.id input.trip_id && text_eq t.customer_user_id input.customer_user_id)
        db.trips
  trip ← some_or_throw found (command_error trip_not_found)
  throw_when (not (trip_state_eq trip.state requested) && not (trip_state_eq trip.state matching))
      (command_error trip_not_matchable)
  version ← enter_matching input trip
  pending ← gets (pending_offer trip.id)
  offer ← pending_or_reserve env (first_input trip.id version) pending
  answer_match input trip.id version offer

unfoldable pub start_matching : Env → StartMatchingInput → Work ResponseBody
unfolding check_receipt match_trip
start_matching env input = do
  receipt ←
      check_receipt input.customer_user_id Operation.start_matching input.idempotency_key
        input.request_fingerprint
  answer_or receipt (λ response. response) (match_trip env input)
