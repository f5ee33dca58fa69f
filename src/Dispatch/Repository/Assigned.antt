-- ===== src/Dispatch/Repository/Assigned.antt =====
-- apps/api/src/dispatch/dispatch.repository.ts: transitionAssignedTrip, the way of an assigned Trip
-- from the pickup to its end.
mod Metering
unfoldable pub use Metering.*
use gove.Prelude.{
  ℕ, ◌+◌, Bool, true, false, ◌&&◌, ◌||◌, not, [], ◌∷◌, filter, count, map, Option, none, some,
  is_some, or_else, ok, if◌then◌else◌, ltb, leb, ◌==◌,
}
use gove.Prelude.Text.{Text, text_eq, is_blank}
use gove.Database.{
  ◌>>=◌, ◌>>◌, pure, throw, throw_when, gets, update, flat_map, some_or_throw, or_throw,
}
use gove.Dispatch.Tables.{
  Uuid, Field, Snapshot, Trip, WorkState, AssignmentStatus, Assignment, Command, EventType,
  TripDetailResponse, ResponseBody, AssignedTripAction, Db, Env, Work, string, number, other_value,
  object, not_object, mark_at_pickup, trip_driver_arrived, trip_started, trip_completed,
  detail_response, arrive_at_pickup, driver, trip_not_found, driver_work_state_conflict,
  trip_not_assigned_to_driver, trip_invalid_state, metering_invalid, pricing_snapshot_invalid,
  command_error, not_safe_integer,
}
use gove.Dispatch.Repository.{
  is_active, answer_or, check_receipt, persist_receipt, append_trip_transition, append_trip_outbox,
  find_trip, head, update_work_states, update_trips, with_work_state, is_trip_at, eq_uuid_option,
}
use gove.Prelude.Int.{Number, int, not_integer, nat, pos, max_safe_integer}
use gove.Prelude.OrderedMap.{OrderedMap, get}
use gove.Contracts.{
  TripState, driver_to_pickup, at_pickup, in_progress, DriverWorkState, available, to_pickup,
  on_trip, trip_state_eq, work_state_eq,
}
use gove.Pricing.Fare.{FarePricingRuleSnapshot, FinalFareInput, calculate_final_fare}

pub record TransitionAssignedTripInput : Type 0 where
  pub driver_user_id : Uuid
  pub trip_id : Uuid
  pub action : AssignedTripAction
  pub idempotency_key : Text
  pub request_fingerprint : Text
  pub correlation_id : Text
  pub actual_distance_meters : Option Number
  pub actual_duration_seconds : Option Number

pub record AssignedTripTransitionPolicy : Type 0 where
  pub from_state : TripState
  pub to_state : TripState
  pub work_state_from : DriverWorkState
  pub work_state_to : DriverWorkState
  pub command : Command
  pub event_type : EventType

unfoldable pub assigned_trip_transition_policy : AssignedTripAction → AssignedTripTransitionPolicy
assigned_trip_transition_policy arrive_at_pickup = record {
  from_state = driver_to_pickup;
  to_state = at_pickup;
  work_state_from = to_pickup;
  work_state_to = to_pickup;
  command = mark_at_pickup;
  event_type = trip_driver_arrived;
}
assigned_trip_transition_policy AssignedTripAction.start_trip = record {
  from_state = at_pickup;
  to_state = in_progress;
  work_state_from = to_pickup;
  work_state_to = on_trip;
  command = Command.start_trip;
  event_type = trip_started;
}
assigned_trip_transition_policy AssignedTripAction.complete_trip = record {
  from_state = in_progress;
  to_state = TripState.completed;
  work_state_from = on_trip;
  work_state_to = available;
  command = Command.complete_trip;
  event_type = trip_completed;
}

-- An AssignedTripRow: a Trip joined with an assignment and its Driver's work state.
pub record AssignedTripRow : Type 0 where
  pub trip : Trip
  pub assignment : Assignment
  pub work_state : WorkState

abbrev pub is_complete : AssignedTripAction → Bool
is_complete AssignedTripAction.complete_trip = true
is_complete _ = false

abbrev pub is_start : AssignedTripAction → Bool
is_start AssignedTripAction.start_trip = true
is_start _ = false

-- SELECT ... FROM trip.trips t JOIN dispatch.assignments a ... JOIN dispatch.driver_work_states ws ...
unfoldable pub find_assigned : Uuid → Uuid → Db → Option AssignedTripRow
find_assigned trip_id driver_user_id db = head (
    flat_map
      (λ t.
        flat_map
          (λ a.
            map (λ ws. record { trip = t; assignment = a; work_state = ws })
              (filter (λ ws. text_eq ws.driver_user_id a.driver_user_id) db.work_states))
          (filter (λ a. text_eq a.trip_id t.id && text_eq a.driver_user_id driver_user_id)
            db.assignments))
      (filter (λ t. text_eq t.id trip_id) db.trips))

abbrev pub number_of : Option Number → Number
number_of none = not_integer
number_of (some n) = n

abbrev pub metered : TransitionAssignedTripInput → Trip → FinalFareInput
metered input trip = record {
  distance_meters = number_of input.actual_distance_meters;
  duration_seconds = number_of input.actual_duration_seconds;
  applied_surge_multiplier_bps = nat trip.applied_surge_multiplier_bps;
}

-- The final fare of COMPLETE_TRIP; its number is total_fare_minor.
unfoldable pub meter : TransitionAssignedTripInput → Trip → Work ℕ
unfolding is_positive_safe_integer to_fare_pricing_rule_snapshot calculate_final_fare
meter input trip = do
  throw_when
      (not (is_positive_safe_integer input.actual_distance_meters)
        || not (is_positive_safe_integer input.actual_duration_seconds))
      (command_error metering_invalid)
  rules ← to_fare_pricing_rule_snapshot trip.quote_snapshot
  fare ←
      or_throw (calculate_final_fare (metered input trip) rules)
        (λ e. command_error pricing_snapshot_invalid)
  pure fare.total_fare_minor

-- `finalFareMinor`, null but for COMPLETE_TRIP.
unfoldable pub final_fare : TransitionAssignedTripInput → Trip → Work (Option ℕ)
unfolding meter
final_fare input trip =
    if not (is_complete input.action)
    then pure none
    else meter input trip >>= λ fare. pure (some fare)

-- The columns that the UPDATE of the Trip sets.
abbrev pub advanced : Env → TransitionAssignedTripInput → TripState → ℕ → Option ℕ → Trip → Trip
advanced env input state version fare t =
    if is_complete input.action
    then record t {
      state = state;
      version = version;
      actual_distance_meters = input.actual_distance_meters;
      actual_duration_seconds = input.actual_duration_seconds;
      final_fare_minor = fare;
      completed_at = some env.now;
    }
    else record t { state = state; version = version }

unfoldable pub update_assignments : (Assignment → Bool) → (Assignment → Assignment) → Work ℕ
update_assignments p change db =
    ok (count p db.assignments, record db { assignments = update p change db.assignments })

-- COALESCE(old, now())
abbrev pub coalesce : Option ℕ → ℕ → Option ℕ
coalesce old new = some (or_else old new)

abbrev pub advanced_assignment : Env → AssignedTripAction → Assignment → Assignment
advanced_assignment env action a =
    if is_start action then record a { started_at = coalesce a.started_at env.now } else record a {
      status = AssignmentStatus.completed;
      completed_at = coalesce a.completed_at env.now;
    }

-- The UPDATE of the assignment by START_TRIP and COMPLETE_TRIP.
unfoldable pub advance_assignment : Env → AssignedTripAction → Uuid → Work (Unit {0})
unfolding update_assignments
advance_assignment env action assignment_id =
    if not (is_start action || is_complete action)
    then pure tt
    else update_assignments (λ a. text_eq a.id assignment_id && is_active a.status)
        (advanced_assignment env action)
      >>= λ row_count. throw_when (not (row_count == 1)) (command_error trip_invalid_state)

unfoldable pub safe_integer : ℕ → Work ℕ
safe_integer value = if leb value max_safe_integer then pure value else throw not_safe_integer

unfoldable pub optional_safe_integer : Option ℕ → Work (Option ℕ)
unfolding safe_integer
optional_safe_integer none = pure none
optional_safe_integer (some value) = safe_integer value >>= λ n. pure (some n)

-- The TripDetailResponse of the command.
unfoldable pub detail :
    Env
    → TransitionAssignedTripInput
    → AssignedTripRow
    → TripState
    → ℕ
    → Option ℕ
    → Work TripDetailResponse
unfolding safe_integer optional_safe_integer
detail env input row state version fare = do
  quoted ← safe_integer row.trip.quoted_total_fare_minor
  shown_fare ←
      if is_complete input.action
      then pure fare
      else optional_safe_integer row.trip.final_fare_minor
  pure (record {
    id = row.trip.id;
    fare_quote_id = row.trip.fare_quote_id;
    service_type = row.trip.service_type_code;
    state = state;
    version = version;
    currency = row.trip.currency;
    quoted_total_fare_minor = quoted;
    created_at = row.trip.created_at;
    driver_id = row.assignment.driver_user_id;
    actual_distance_meters =
        if is_complete input.action
        then input.actual_distance_meters
        else row.trip.actual_distance_meters;
    actual_duration_seconds =
        if is_complete input.action
        then input.actual_duration_seconds
        else row.trip.actual_duration_seconds;
    final_fare_minor = shown_fare;
    completed_at = if is_complete input.action then some env.now else row.trip.completed_at;
  })

-- The rows that an accepted transition changes, and its answer.
unfoldable pub advance : Env → TransitionAssignedTripInput → AssignedTripRow → Work ResponseBody
unfolding assigned_trip_transition_policy final_fare update_trips advance_assignment
    update_work_states append_trip_transition append_trip_outbox detail persist_receipt
advance env input row = do
  fare ← final_fare input row.trip
  trip_count ←
      update_trips
        (is_trip_at row.trip.id (assigned_trip_transition_policy input.action).from_state
          row.trip.version)
        (advanced env input (assigned_trip_transition_policy input.action).to_state
          (row.trip.version + 1) fare)
  throw_when (trip_count == 0) (command_error trip_invalid_state)
  advance_assignment env input.action row.assignment.id
  row_count ←
      update_work_states
        (λ w.
          text_eq w.driver_user_id input.driver_user_id
          && work_state_eq w.work_state
              (assigned_trip_transition_policy input.action).work_state_from
          && eq_uuid_option w.current_trip_id row.trip.id)
        (with_work_state env (assigned_trip_transition_policy input.action).work_state_to
          (if is_complete input.action then none else some row.trip.id))
  throw_when (not (row_count == 1)) (command_error driver_work_state_conflict)
  append_trip_transition (record {
    trip_id = row.trip.id;
    actor_user_id = some input.driver_user_id;
    command = (assigned_trip_transition_policy input.action).command;
    from_state = some (assigned_trip_transition_policy input.action).from_state;
    to_state = (assigned_trip_transition_policy input.action).to_state;
    from_version = some row.trip.version;
    to_version = row.trip.version + 1;
    correlation_id = input.correlation_id;
  })
  append_trip_outbox row.trip.id (row.trip.version + 1)
      (assigned_trip_transition_policy input.action).event_type
  response ←
      detail env input row (assigned_trip_transition_policy input.action).to_state
        (row.trip.version + 1) fare
  persist_receipt input.driver_user_id (driver input.action) input.idempotency_key
      input.request_fingerprint (detail_response response)
  pure (detail_response response)

-- transitionAssignedTrip after its receipt block.
unfoldable pub transition_assigned : Env → TransitionAssignedTripInput → Work ResponseBody
unfolding find_assigned find_trip assigned_trip_transition_policy advance
transition_assigned env input = do
  found ← gets (find_assigned input.trip_id input.driver_user_id)
  trip ← gets (find_trip input.trip_id)
  row ←
      some_or_throw found
        (command_error (if is_some trip then trip_not_assigned_to_driver else trip_not_found))
  throw_when (not (is_active row.assignment.status)) (command_error trip_invalid_state)
  throw_when
      (not (trip_state_eq row.trip.state (assigned_trip_transition_policy input.action).from_state)
        || not (
            work_state_eq row.work_state.work_state
              (assigned_trip_transition_policy input.action).work_state_from))
      (command_error trip_invalid_state)
  advance env input row

unfoldable pub transition_assigned_trip : Env → TransitionAssignedTripInput → Work ResponseBody
unfolding check_receipt transition_assigned
transition_assigned_trip env input = do
  receipt ←
      check_receipt input.driver_user_id (driver input.action) input.idempotency_key
        input.request_fingerprint
  answer_or receipt (λ response. response) (transition_assigned env input)
