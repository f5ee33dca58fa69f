-- ===== src/Dispatch/Repository.antt =====
-- apps/api/src/dispatch/dispatch.repository.ts: the statements that its commands share. A command is
-- the work of one transaction; the row locks that it takes make it one step of the database.
pub mod Matching
pub mod Offers
pub mod Expiry
pub mod Assigned
pub mod WorkStates
pub mod Receipts
pub mod Durable
pub mod Replay
pub mod Rejections
pub mod Bindings
pub mod Validity
pub mod Invariant
pub mod Safety
pub mod Outcomes
pub mod Runs
pub mod Promises
pub mod Timeliness
pub mod Reads
pub mod Listing
pub mod Tests
use gove.Prelude.{
  ℕ, suc, ◌+◌, ◌-◌, ◌*◌, ◌^◌, Bool, true, false, ◌&&◌, ◌||◌, not, List, [], ◌∷◌, ◌++◌, filter, take,
  find?, any, count, map, Option, none, some, is_some, or_else, Result, ok, err, if◌then◌else◌, ltb,
  leb, ◌==◌,
}
use gove.Prelude.Int.{pos, Double, finite, ltb_ℤ}
use gove.Prelude.Text.{Text, text_eq, text_lt}
use gove.Contracts.{
  TripState, DriverWorkState, available, reserved, TripOfferState, trip_state_eq, work_state_eq,
  offer_state_eq, ServiceType, motorbike_standard, car_standard,
}
use gove.Database.{
  M, ◌>>=◌, ◌>>◌, pure, throw, throw_when, gets, modify, update, order_by, flat_map, some_or_throw,
  or_throw,
}
use gove.Dispatch.ExpiryPolicy.{DriverReservationState, active, released, reservation_state_eq}
use gove.Dispatch.Ranking.{DriverCandidate, rank_eligible_driver_candidates}
use gove.Dispatch.Tables.{
  TripCommandErrorCode, trip_error, trip_created, trip_cancelled, Uuid, Point, Field, Snapshot,
  Trip, Offer, Reservation, WorkState, AssignmentStatus, Assignment, Command, Transition, EventType,
  OutboxEvent, TripOfferResponse, DispatchMatchResponse, DispatchOfferRejectionResponse,
  TripDetailResponse, ResponseBody, AssignedTripAction, Operation, Receipt, ApprovalStatus,
  VehicleClass, DriverProfile, Vehicle, DriverLocation, Db, Env, DispatchCommandErrorCode,
  UniqueConstraint, Thrown, Work, string, number, other_value, object, not_object, exhaust_matching,
  exhaust_matching_after_reject, expire_offer, expire_offer_no_reassignment, assign_driver,
  mark_at_pickup, trip_matching_started, trip_no_driver_available, dispatch_offer_created,
  dispatch_offer_reassigned, dispatch_offer_rejected, dispatch_offer_expired, trip_driver_assigned,
  trip_driver_arrived, trip_started, trip_completed, match_response, rejection_response,
  offer_response, detail_response, arrive_at_pickup, accept_offer, driver, approved, not_approved,
  motorbike, standard_car, trip_not_found, trip_not_matchable, driver_not_eligible,
  driver_work_state_conflict, offer_not_found, offer_not_for_driver, offer_already_resolved,
  trip_not_assigned_to_driver, trip_invalid_state, metering_invalid, pricing_snapshot_invalid,
  idempotency_key_reused, state_transitions_unique_version, outbox_events_unique_event,
  trip_offers_attempt_per_trip, trip_offers_one_pending_trip, trip_offers_one_pending_driver,
  command_error, unique_violation, ranking_error, expiry_error, not_safe_integer,
  command_receipts_pkey,
}

abbrev pub location_freshness_seconds : ℕ
location_freshness_seconds = 15

abbrev pub offer_ttl_seconds : ℕ
offer_ttl_seconds = 20

abbrev pub max_offer_attempts : ℕ
max_offer_attempts = 3

abbrev pub search_radius_meters : ℕ
search_radius_meters = 5000

abbrev pub max_candidates : ℕ
max_candidates = 20

-- An OfferRow: the Offer joined with the state and version of its Trip.
pub record OfferRow : Type 0 where
  pub offer : Offer
  pub trip_state : TripState
  pub trip_version : ℕ

pub record TransitionInput : Type 0 where
  pub trip_id : Uuid
  pub actor_user_id : Option Uuid
  pub command : Command
  pub from_state : Option TripState
  pub to_state : TripState
  pub from_version : Option ℕ
  pub to_version : ℕ
  pub correlation_id : Text

abbrev pub eq_event : EventType → EventType → Bool
eq_event trip_created trip_created = true
eq_event trip_cancelled trip_cancelled = true
eq_event trip_matching_started trip_matching_started = true
eq_event trip_no_driver_available trip_no_driver_available = true
eq_event dispatch_offer_created dispatch_offer_created = true
eq_event dispatch_offer_reassigned dispatch_offer_reassigned = true
eq_event dispatch_offer_rejected dispatch_offer_rejected = true
eq_event dispatch_offer_expired dispatch_offer_expired = true
eq_event trip_driver_assigned trip_driver_assigned = true
eq_event trip_driver_arrived trip_driver_arrived = true
eq_event trip_started trip_started = true
eq_event trip_completed trip_completed = true
eq_event _ _ = false

abbrev pub eq_operation : Operation → Operation → Bool
eq_operation Operation.create_trip Operation.create_trip = true
eq_operation Operation.cancel_trip Operation.cancel_trip = true
eq_operation Operation.start_matching Operation.start_matching = true
eq_operation Operation.reject_offer Operation.reject_offer = true
eq_operation accept_offer accept_offer = true
eq_operation (driver arrive_at_pickup) (driver arrive_at_pickup) = true
eq_operation (driver AssignedTripAction.start_trip) (driver AssignedTripAction.start_trip) = true
eq_operation (driver AssignedTripAction.complete_trip) (driver AssignedTripAction.complete_trip) =
    true
eq_operation _ _ = false

abbrev pub same_digest : Text → Text → Bool
same_digest left right = text_eq left right

abbrev pub eq_uuid_option : Option Uuid → Uuid → Bool
eq_uuid_option none id = false
eq_uuid_option (some other) id = text_eq other id

-- randomUUID()
abbrev pub random_uuid : Env → Work Uuid
random_uuid env db = ok (env.random_uuid db.fresh, record db { fresh = suc db.fresh })

-- The receipt of an actor's operation under a key.
unfoldable pub find_receipt : Uuid → Operation → Text → Db → Option Receipt
find_receipt actor operation key db =
    find?
      (λ r.
        text_eq r.actor_user_id actor
        && eq_operation r.operation operation
        && text_eq r.idempotency_key key)
      db.receipts

-- The error of a key that has been used for another request.
abbrev pub key_reused : Operation → Thrown
key_reused Operation.create_trip = trip_error TripCommandErrorCode.idempotency_key_reused
key_reused Operation.cancel_trip = trip_error TripCommandErrorCode.idempotency_key_reused
key_reused Operation.start_matching = command_error DispatchCommandErrorCode.idempotency_key_reused
key_reused Operation.reject_offer = command_error DispatchCommandErrorCode.idempotency_key_reused
key_reused accept_offer = command_error DispatchCommandErrorCode.idempotency_key_reused
key_reused (driver action) = command_error DispatchCommandErrorCode.idempotency_key_reused

-- The block of each command that answers a repeated request from its receipt.
unfoldable pub check_receipt : Uuid → Operation → Text → Text → Work (Option ResponseBody)
check_receipt actor operation key fingerprint = do
  receipt ← gets (find_receipt actor operation key)
  elim receipt [
    | none ↦ pure none
    | some r ↦
        if not (same_digest r.request_fingerprint fingerprint)
        then throw (key_reused operation)
        else pure (some r.response_body)
  ]

-- `if (receipt) return ...;`
abbrev pub answer_or : {A : Type 0} → Option ResponseBody → (ResponseBody → A) → Work A → Work A
answer_or (some response) answer rest = pure (answer response)
answer_or none answer rest = rest

-- persistMatchingReceipt and its three sisters, with the primary key of trip.command_receipts.
unfoldable pub persist_receipt : Uuid → Operation → Text → Text → ResponseBody → Work (Unit {0})
unfolding find_receipt
persist_receipt actor operation key fingerprint response = do
  taken ← gets λ db. is_some (find_receipt actor operation key db)
  throw_when taken (unique_violation command_receipts_pkey)
  modify λ db. record db {
    receipts =
        record {
          actor_user_id = actor;
          operation = operation;
          idempotency_key = key;
          request_fingerprint = fingerprint;
          response_body = response;
        }
        ∷ db.receipts;
  }

unfoldable pub append_trip_transition : TransitionInput → Work (Unit {0})
append_trip_transition input = do
  taken ← gets λ db.
      any (λ t. text_eq t.trip_id input.trip_id && t.to_version == input.to_version)
        db.state_transitions
  throw_when taken (unique_violation state_transitions_unique_version)
  modify λ db. record db {
    state_transitions =
        record {
          trip_id = input.trip_id;
          actor_user_id = input.actor_user_id;
          command = input.command;
          from_state = input.from_state;
          to_state = input.to_state;
          from_version = input.from_version;
          to_version = input.to_version;
          reason = none;
          correlation_id = input.correlation_id;
        }
        ∷ db.state_transitions;
  }

unfoldable pub append_trip_outbox : Uuid → ℕ → EventType → Work (Unit {0})
append_trip_outbox trip_id version event_type = do
  taken ← gets λ db.
      any
        (λ e.
          text_eq e.trip_id trip_id
          && e.aggregate_version == version
          && eq_event e.event_type event_type)
        db.outbox
  throw_when taken (unique_violation outbox_events_unique_event)
  modify λ db. record db {
    outbox =
        record { trip_id = trip_id; aggregate_version = version; event_type = event_type }
        ∷ db.outbox;
  }

-- SELECT ... FROM trip.trips WHERE id = $1
unfoldable pub find_trip : Uuid → Db → Option Trip
find_trip id db = find? (λ t. text_eq t.id id) db.trips

unfoldable pub to_offer_response : OfferRow → TripOfferResponse
to_offer_response row = record {
  id = row.offer.id;
  trip_id = row.offer.trip_id;
  driver_id = row.offer.driver_user_id;
  attempt_number = row.offer.attempt_number;
  status = row.offer.status;
  expires_at = row.offer.expires_at;
  trip_state = row.trip_state;
  trip_version = row.trip_version;
}

-- dispatch.trip_offers o JOIN trip.trips t ON t.id = o.trip_id
abbrev pub join_trip : Db → Offer → List OfferRow
join_trip db offer =
    map (λ t. record { offer = offer; trip_state = t.state; trip_version = t.version })
      (filter (λ t. text_eq t.id offer.trip_id) db.trips)

abbrev pub head : {A : Type 0} → List A → Option A
head [] = none
head (x ∷ xs) = some x

-- `rowCount` of an UPDATE on dispatch.driver_work_states
unfoldable pub update_work_states : (WorkState → Bool) → (WorkState → WorkState) → Work ℕ
update_work_states p change db =
    ok (count p db.work_states, record db { work_states = update p change db.work_states })

unfoldable pub update_trips : (Trip → Bool) → (Trip → Trip) → Work ℕ
update_trips p change db = ok (count p db.trips, record db { trips = update p change db.trips })

unfoldable pub update_offers : (Offer → Bool) → (Offer → Offer) → Work (Unit {0})
update_offers p change = modify λ db. record db { offers = update p change db.offers }

unfoldable pub update_reservations :
    (Reservation → Bool) → (Reservation → Reservation) → Work (Unit {0})
update_reservations p change =
    modify λ db. record db { reservations = update p change db.reservations }

-- SET work_state = ..., current_trip_id = ..., state_version = state_version + 1, and the times
abbrev pub with_work_state : Env → DriverWorkState → Option Uuid → WorkState → WorkState
with_work_state env state trip w = record w {
  work_state = state;
  current_trip_id = trip;
  state_version = w.state_version + 1;
  state_changed_at = env.now;
  updated_at = env.now;
}

-- A reservation that its UPDATE resolves.
abbrev pub resolved : Env → DriverReservationState → Reservation → Reservation
resolved env status r = record r { status = status; resolved_at = some env.now }

-- An Offer that its UPDATE resolves without acceptance.
abbrev pub resolved_offer : Env → TripOfferState → Offer → Offer
resolved_offer env status o = record o { status = status; resolved_at = some env.now }

unfoldable pub release_reservation : Env → Uuid → Work (Unit {0})
unfolding update_reservations
release_reservation env id =
    update_reservations
      (λ r. text_eq r.id id && reservation_state_eq r.status DriverReservationState.active)
      (resolved env released)

-- WHERE driver_user_id = ... AND work_state = 'RESERVED' AND current_trip_id = ...
abbrev pub is_reserved_for : Uuid → Uuid → WorkState → Bool
is_reserved_for driver_user_id trip_id w =
    text_eq w.driver_user_id driver_user_id
    && work_state_eq w.work_state reserved
    && eq_uuid_option w.current_trip_id trip_id

-- expireOffer
unfoldable pub expire_offer_row : Env → Uuid → Uuid → Uuid → Work (Unit {0})
unfolding update_offers update_reservations update_work_states
expire_offer_row env offer_id trip_id driver_user_id = do
  update_offers (λ o. text_eq o.id offer_id && offer_state_eq o.status TripOfferState.pending)
      (resolved_offer env TripOfferState.expired)
  update_reservations
      (λ r.
        text_eq r.trip_id trip_id
        && text_eq r.driver_user_id driver_user_id
        && reservation_state_eq r.status DriverReservationState.active)
      (resolved env DriverReservationState.expired)
  update_work_states (is_reserved_for driver_user_id trip_id) (with_work_state env available none)
  pure tt

-- SET state = ..., version = ...
abbrev pub with_state : TripState → ℕ → Trip → Trip
with_state state version t = record t { state = state; version = version }

-- WHERE id = ... AND state = ... AND version = ...
abbrev pub is_trip_at : Uuid → TripState → ℕ → Trip → Bool
is_trip_at id state version t =
    text_eq t.id id && trip_state_eq t.state state && t.version == version

abbrev pub is_active : AssignmentStatus → Bool
is_active AssignmentStatus.active = true
is_active _ = false
