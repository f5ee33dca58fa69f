-- ===== src/Dispatch/Repository/Offers.antt =====
-- apps/api/src/dispatch/dispatch.repository.ts: rejectOffer and acceptOffer.
use gove.Prelude.{
  any, ℕ, ◌+◌, Bool, ◌&&◌, ◌||◌, not, ◌∷◌, filter, find?, Option, none, some, if◌then◌else◌, leb,
  ◌==◌,
}
use gove.Prelude.Text.{Text, text_eq}
use gove.Database.{◌>>=◌, ◌>>◌, pure, throw_when, gets, modify, flat_map, some_or_throw}
use gove.Dispatch.Tables.{
  unique_violation, assignments_trip_id_key, assignments_one_active_driver, Uuid, Offer,
  Reservation, AssignmentStatus, Command, TripOfferResponse, DispatchOfferRejectionResponse,
  ResponseBody, Operation, Db, Env, DispatchCommandErrorCode, Work, exhaust_matching_after_reject,
  assign_driver, dispatch_offer_rejected, trip_driver_assigned, rejection_response, offer_response,
  accept_offer, trip_not_matchable, driver_work_state_conflict, offer_not_found,
  offer_not_for_driver, offer_expired, offer_already_resolved, command_error,
}
use gove.Dispatch.Repository.{
  is_active, OfferRow, answer_or, check_receipt, persist_receipt, append_trip_transition,
  append_trip_outbox, random_uuid, join_trip, head, to_offer_response, update_work_states,
  update_trips, update_offers, update_reservations, with_work_state, with_state, is_trip_at,
  is_reserved_for, expire_offer_row, resolved, resolved_offer, eq_uuid_option,
}
use gove.Contracts.{
  TripState, matching, driver_to_pickup, no_driver_available, available, to_pickup, TripOfferState,
  accepted, rejected, trip_state_eq, offer_state_eq,
}
use gove.Dispatch.ExpiryPolicy.{DriverReservationState, committed, released, reservation_state_eq}
use gove.Dispatch.Repository.Matching.{reserve_next_offer, reassignment_input, exhaust}

-- The input of rejectOffer and of acceptOffer.
pub record OfferCommandInput : Type 0 where
  pub driver_user_id : Uuid
  pub offer_id : Uuid
  pub idempotency_key : Text
  pub request_fingerprint : Text
  pub correlation_id : Text

-- AcceptResult and RejectResult
pub data OfferResult : Type 0 where
  succeeded : ResponseBody → OfferResult
  refused : DispatchCommandErrorCode → OfferResult

-- SELECT ... FROM dispatch.trip_offers o JOIN trip.trips t ON t.id = o.trip_id WHERE o.id = $1
unfoldable pub find_offer : Uuid → Db → Option OfferRow
find_offer offer_id db =
    head (flat_map (join_trip db) (filter (λ o. text_eq o.id offer_id) db.offers))

unfoldable pub find_reservation : Uuid → Db → Option Reservation
find_reservation id db = find? (λ r. text_eq r.id id) db.reservations

-- reservation.expires_at <= Date.now() || offer.expires_at <= Date.now()
abbrev pub is_late : Env → Reservation → Offer → Bool
is_late env reservation offer =
    leb reservation.expires_at env.date_now || leb offer.expires_at env.date_now_later

-- UPDATE trip_offers, driver_reservations, driver_work_states and trips of a rejection; the version
-- of the Trip after it.
unfoldable pub reject_rows : Env → OfferCommandInput → OfferRow → Reservation → Work ℕ
unfolding update_offers update_reservations update_work_states update_trips append_trip_transition
    append_trip_outbox
reject_rows env input row reservation = do
  update_offers (λ o. text_eq o.id input.offer_id && offer_state_eq o.status TripOfferState.pending)
      (resolved_offer env rejected)
  update_reservations
      (λ r.
        text_eq r.id reservation.id && reservation_state_eq r.status DriverReservationState.active)
      (resolved env released)
  row_count ←
      update_work_states (is_reserved_for input.driver_user_id row.offer.trip_id)
        (with_work_state env available none)
  throw_when (not (row_count == 1)) (command_error driver_work_state_conflict)
  trip_count ←
      update_trips (is_trip_at row.offer.trip_id matching row.trip_version)
        (with_state matching (row.trip_version + 1))
  throw_when (not (trip_count == 1)) (command_error trip_not_matchable)
  append_trip_transition (record {
    trip_id = row.offer.trip_id;
    actor_user_id = some input.driver_user_id;
    command = Command.reject_offer;
    from_state = some matching;
    to_state = matching;
    from_version = some row.trip_version;
    to_version = row.trip_version + 1;
    correlation_id = input.correlation_id;
  })
  append_trip_outbox row.offer.trip_id (row.trip_version + 1) dispatch_offer_rejected
  pure (row.trip_version + 1)

-- `await persistRejectionReceipt(...); return { rejected: true, response };`
unfoldable pub respond_reject :
    OfferCommandInput → DispatchOfferRejectionResponse → Work OfferResult
unfolding persist_receipt
respond_reject input response = do
  persist_receipt input.driver_user_id Operation.reject_offer input.idempotency_key
      input.request_fingerprint (rejection_response response)
  pure (succeeded (rejection_response response))

abbrev pub rejection :
    OfferRow → TripState → ℕ → Option TripOfferResponse → DispatchOfferRejectionResponse
rejection row state version reassigned = record {
  rejected_offer = record (to_offer_response row) {
    status = rejected;
    trip_state = state;
    trip_version = version;
  };
  reassigned_offer = reassigned;
}

-- What follows reserveNextOffer in rejectOffer.
unfoldable pub answer_reject : OfferCommandInput → OfferRow → ℕ → Option OfferRow → Work OfferResult
unfolding exhaust respond_reject to_offer_response
answer_reject input row version (some reassigned) =
    respond_reject input
      (rejection row row.trip_state version (some (to_offer_response reassigned)))
answer_reject input row version none = do
  exhausted ←
      exhaust row.offer.trip_id (some input.driver_user_id) exhaust_matching_after_reject version
        input.correlation_id
  respond_reject input (rejection row no_driver_available exhausted none)

-- A pending Offer of the Driver, with its reservation ACTIVE and in time.
unfoldable pub reject_pending : Env → OfferCommandInput → OfferRow → Reservation → Work OfferResult
unfolding reject_rows reserve_next_offer answer_reject
reject_pending env input row reservation = do
  version ← reject_rows env input row reservation
  reassigned ←
      reserve_next_offer env
        (reassignment_input row.offer.trip_id row.trip_state version input.driver_user_id)
  answer_reject input row version reassigned

-- The tests that rejectOffer and acceptOffer make of the reservation of a pending Offer, and
-- `decide` after them.
unfoldable pub answer_reserved :
    Env
    → OfferCommandInput
    → OfferRow
    → (Reservation → Work OfferResult)
    → Option Reservation
    → Work OfferResult
unfolding expire_offer_row
answer_reserved env input row decide none = pure (refused offer_already_resolved)
answer_reserved env input row decide (some reservation) =
    if not (reservation_state_eq reservation.status DriverReservationState.active)
    then pure (refused offer_already_resolved)
    else if is_late env reservation row.offer
    then expire_offer_row env input.offer_id row.offer.trip_id row.offer.driver_user_id
      >> pure (refused offer_expired)
    else if not (trip_state_eq row.trip_state matching)
    then pure (refused offer_already_resolved)
    else decide reservation

unfoldable pub answer_pending :
    Env → OfferCommandInput → OfferRow → (Reservation → Work OfferResult) → Work OfferResult
unfolding find_reservation answer_reserved
answer_pending env input row decide =
    gets (find_reservation row.offer.reservation_id) >>= answer_reserved env input row decide

-- rejectOffer after its receipt block.
unfoldable pub answer_rejection : Env → OfferCommandInput → Work OfferResult
unfolding find_offer answer_pending reject_pending
answer_rejection env input = do
  found ← gets (find_offer input.offer_id)
  row ← some_or_throw found (command_error offer_not_found)
  throw_when (not (text_eq row.offer.driver_user_id input.driver_user_id))
      (command_error offer_not_for_driver)
  if not (offer_state_eq row.offer.status TripOfferState.pending)
      then pure (refused offer_already_resolved)
      else answer_pending env input row (reject_pending env input row)

unfoldable pub reject_offer : Env → OfferCommandInput → Work OfferResult
unfolding check_receipt answer_rejection
reject_offer env input = do
  receipt ←
      check_receipt input.driver_user_id Operation.reject_offer input.idempotency_key
        input.request_fingerprint
  answer_or receipt (λ response. succeeded response) (answer_rejection env input)

-- `await persistAcceptanceReceipt(...); return { accepted: true, response };`
unfoldable pub respond_accept : OfferCommandInput → TripOfferResponse → Work OfferResult
unfolding persist_receipt
respond_accept input response = do
  persist_receipt input.driver_user_id accept_offer input.idempotency_key input.request_fingerprint
      (offer_response response)
  pure (succeeded (offer_response response))

abbrev pub accepted_row : Env → OfferCommandInput → ℕ → Offer → Offer
accepted_row env input version o = record o {
  status = accepted;
  resolved_at = some env.now;
  accepted_by_user_id = some input.driver_user_id;
  acceptance_idempotency_key = some input.idempotency_key;
  accepted_trip_version = some version;
}

-- INSERT INTO dispatch.assignments
unfoldable pub insert_assignment : Env → OfferCommandInput → Uuid → Work (Unit {0})
insert_assignment env input trip_id = do
  id ← random_uuid env
  taken ← gets λ db. any (λ a. text_eq a.trip_id trip_id) db.assignments
  throw_when taken (unique_violation assignments_trip_id_key)
  busy ← gets λ db.
      any (λ a. text_eq a.driver_user_id input.driver_user_id && is_active a.status) db.assignments
  throw_when busy (unique_violation assignments_one_active_driver)
  modify λ db. record db {
    assignments =
        record {
          id = id;
          trip_id = trip_id;
          offer_id = input.offer_id;
          driver_user_id = input.driver_user_id;
          status = AssignmentStatus.active;
          accepted_at = env.now;
          started_at = none;
          completed_at = none;
        }
        ∷ db.assignments;
  }

-- The acceptance of a pending Offer of the Driver, with its reservation ACTIVE and in time.
unfoldable pub accept_pending : Env → OfferCommandInput → OfferRow → Reservation → Work OfferResult
unfolding update_offers update_reservations update_work_states update_trips insert_assignment
    append_trip_transition append_trip_outbox to_offer_response respond_accept
accept_pending env input row reservation = do
  update_offers (λ o. text_eq o.id input.offer_id && offer_state_eq o.status TripOfferState.pending)
      (accepted_row env input (row.trip_version + 1))
  update_reservations
      (λ r.
        text_eq r.id reservation.id && reservation_state_eq r.status DriverReservationState.active)
      (resolved env committed)
  row_count ←
      update_work_states (is_reserved_for input.driver_user_id row.offer.trip_id)
        (with_work_state env to_pickup (some row.offer.trip_id))
  throw_when (not (row_count == 1)) (command_error driver_work_state_conflict)
  insert_assignment env input row.offer.trip_id
  update_trips (is_trip_at row.offer.trip_id matching row.trip_version)
      (with_state driver_to_pickup (row.trip_version + 1))
  append_trip_transition (record {
    trip_id = row.offer.trip_id;
    actor_user_id = some input.driver_user_id;
    command = assign_driver;
    from_state = some matching;
    to_state = driver_to_pickup;
    from_version = some row.trip_version;
    to_version = row.trip_version + 1;
    correlation_id = input.correlation_id;
  })
  append_trip_outbox row.offer.trip_id (row.trip_version + 1) trip_driver_assigned
  respond_accept input (record (to_offer_response row) {
    status = accepted;
    trip_state = driver_to_pickup;
    trip_version = row.trip_version + 1;
  })

-- acceptOffer once the Offer has been found to be the Driver's.
unfoldable pub answer_row : Env → OfferCommandInput → OfferRow → Work OfferResult
unfolding answer_pending accept_pending
answer_row env input row =
    if offer_state_eq row.offer.status accepted
    then if eq_uuid_option row.offer.acceptance_idempotency_key input.idempotency_key
      then pure (succeeded (offer_response (to_offer_response row)))
      else pure (refused offer_already_resolved)
    else if not (offer_state_eq row.offer.status TripOfferState.pending)
    then pure (refused offer_already_resolved)
    else answer_pending env input row (accept_pending env input row)

-- acceptOffer after its receipt block.
unfoldable pub answer_acceptance : Env → OfferCommandInput → Work OfferResult
unfolding find_offer answer_row
answer_acceptance env input = do
  found ← gets (find_offer input.offer_id)
  row ← some_or_throw found (command_error offer_not_found)
  throw_when (not (text_eq row.offer.driver_user_id input.driver_user_id))
      (command_error offer_not_for_driver)
  answer_row env input row

unfoldable pub accept_offer_command : Env → OfferCommandInput → Work OfferResult
unfolding check_receipt answer_acceptance
accept_offer_command env input = do
  receipt ←
      check_receipt input.driver_user_id accept_offer input.idempotency_key
        input.request_fingerprint
  answer_or receipt (λ response. succeeded response) (answer_acceptance env input)
