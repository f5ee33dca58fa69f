-- ===== src/Dispatch/Repository/Tests.antt =====
-- The commands of apps/api/src/dispatch/dispatch.repository.ts on one waiting Trip and one free Driver.
use gove.Prelude.{
  ◌≡◌, refl, ℕ, ◌+◌, ◌-◌, ◌*◌, ◌/◌, ◌^◌, true, false, none, some, List, [], ◌∷◌, Result, ok, err,
  arith,
}
use gove.Prelude.Int.{pos, finite}
use gove.Contracts.{
  motorbike_standard, matching, requested, available, rejected, no_driver_available, at_pickup,
  driver_to_pickup, TripOfferState, accepted,
}
use gove.Dispatch.Ranking.{
  validate_options, validate_all, validate_candidate, to_sorted, may_be_offered, difference,
}
use gove.Dispatch.Repository.{find_receipt}
use gove.Trip.Lifecycle.{transitions}
use gove.Database.{◌>>=◌}
use gove.Dispatch.Tables.{
  Point, Trip, ResponseBody, Db, Env, not_object, match_response, rejection_response,
  detail_response, arrive_at_pickup, start_trip, approved, motorbike, outbox_events_unique_event,
  unique_violation, TripOfferResponse, offer_response,
}
use gove.Dispatch.Repository.Matching.{StartMatchingInput, start_matching}
use gove.Dispatch.Repository.Offers.{
  OfferCommandInput, succeeded, reject_offer, answer_acceptance, accept_offer_command,
}
use gove.Dispatch.Repository.Assigned.{
  TransitionAssignedTripInput, transition_assigned_trip, assigned_trip_transition_policy,
}
use gove.Dispatch.Repository.Validity.{IsValid}
use gove.Dispatch.Repository.Timeliness.{Acceptable, answer_acceptance-Acceptable}
use gove.Dispatch.Repository.Replay.{
  start_matching-replay, transition_assigned_trip-replay, reject_offer-replay,
}
use gove.Dispatch.Repository.Promises.{
  Request, match_trip, reject, accept, advance_trip, run, run-IsValid,
  assigned_trip_transition_policy-transitions, lifecycle_command,
}

abbrev pub origin : Point
origin = record { longitude = finite (pos 0); latitude = finite (pos 0) }

abbrev pub at_time : ℕ → Env
at_time t = record {
  now = t;
  date_now = t;
  date_now_later = t;
  random_uuid = λ n. (1000 + n) ∷ [];
  st_distance = λ a b. finite (pos 0);
  st_dwithin = λ a b r. true;
  age_seconds = λ a b. finite (pos ((a - b) / 1000 * 2 ^ 1074));
  is_locked = λ id. false;
}

abbrev pub waiting_trip : Trip
waiting_trip = record {
  id = 1 ∷ [];
  customer_user_id = 2 ∷ [];
  fare_quote_id = 3 ∷ [];
  service_type_code = motorbike_standard;
  state = requested;
  version = 0;
  pickup_label = [];
  pickup_location = origin;
  dropoff_label = [];
  dropoff_location = origin;
  quote_snapshot = not_object;
  quoted_total_fare_minor = 20000;
  currency = 86 ∷ 78 ∷ 68 ∷ [];
  applied_surge_multiplier_bps = 10000;
  actual_distance_meters = none;
  actual_duration_seconds = none;
  final_fare_minor = none;
  created_at = 0;
  completed_at = none;
}

abbrev pub start_db : Db
start_db = record {
  trips = waiting_trip ∷ [];
  offers = [];
  reservations = [];
  work_states =
      record {
        driver_user_id = 68 ∷ [];
        work_state = available;
        current_trip_id = none;
        current_delivery_id = none;
        state_version = 0;
        state_changed_at = 0;
        updated_at = 0;
      }
      ∷ [];
  assignments = [];
  state_transitions = [];
  outbox = [];
  receipts = [];
  profiles = record { user_id = 68 ∷ []; approval_status = approved; deactivated_at = none } ∷ [];
  vehicles =
      record {
        driver_user_id = 68 ∷ [];
        vehicle_class = motorbike;
        approval_status = approved;
        is_selected = true;
      }
      ∷ [];
  locations =
      record {
        driver_user_id = 68 ∷ [];
        location = origin;
        captured_at = 0;
        received_at = 0;
        sequence_number = 0;
      }
      ∷ [];
  quotes = [];
  cancellations = [];
  payment_attempts = [];
  payment_outbox = [];
  payment_receipts = [];
  fresh = 0;
}

abbrev pub match_input : ℕ → StartMatchingInput
match_input key = record {
  customer_user_id = 2 ∷ [];
  trip_id = 1 ∷ [];
  idempotency_key = key ∷ [];
  request_fingerprint = 7 ∷ [];
  correlation_id = [];
}

abbrev offer_input : OfferCommandInput
offer_input = record {
  driver_user_id = 68 ∷ [];
  offer_id = 1001 ∷ [];
  idempotency_key = 5 ∷ [];
  request_fingerprint = 7 ∷ [];
  correlation_id = [];
}

abbrev pub state_of : {S E A : Type 0} → S → Result E (A × S) → S
state_of db (ok (a, db')) = db'
state_of db (err e) = db

abbrev pub value_of : {E A : Type 0} → A → Result E (A × Db) → A
value_of a (ok (b, db)) = b
value_of a (err e) = a

abbrev nothing : ResponseBody
nothing =
    match_response (record { trip_id = []; trip_state = matching; trip_version = 0; offer = none })

-- The Driver gets the Offer.
unfoldable matched : Db
unfolding start_matching ◌>>=◌ find_receipt validate_options validate_all validate_candidate
    to_sorted may_be_offered difference
matched = state_of start_db (start_matching (at_time 5000) (match_input 5) start_db)

abbrev offered : ResponseBody
offered = match_response (record {
  trip_id = 1 ∷ [];
  trip_state = matching;
  trip_version = 1;
  offer = some (record {
    id = 1001 ∷ [];
    trip_id = 1 ∷ [];
    driver_id = 68 ∷ [];
    attempt_number = 1;
    status = TripOfferState.pending;
    expires_at = 25000;
    trip_state = matching;
    trip_version = 1;
  });
})

start_matching-matched :
    start_matching (at_time 5000) (match_input 5) start_db ≡ ok (offered, matched)
unfolding start_matching ◌>>=◌ matched find_receipt validate_options validate_all validate_candidate
    to_sorted may_be_offered difference
start_matching-matched = refl

-- The Driver rejects between the two requests.
abbrev rejection : List (Env × Request)
rejection = (at_time 6000, reject offer_input) ∷ []

start_matching-replay_example :
    start_matching (at_time 9000) (match_input 5) (run rejection matched)
    ≡ ok (offered, run rejection matched)
start_matching-replay_example =
    start_matching-replay (at_time 5000) (at_time 9000) rejection (match_input 5) start_db
      start_matching-matched

-- Rejected in time, with no other Driver near.
unfoldable rejected_db : Db
unfolding matched reject_offer ◌>>=◌ find_receipt validate_options validate_all validate_candidate
    to_sorted may_be_offered difference
rejected_db = state_of matched (reject_offer (at_time 6000) offer_input matched)

abbrev rejection_body : ResponseBody
rejection_body = rejection_response (record {
  rejected_offer = record {
    id = 1001 ∷ [];
    trip_id = 1 ∷ [];
    driver_id = 68 ∷ [];
    attempt_number = 1;
    status = rejected;
    expires_at = 25000;
    trip_state = no_driver_available;
    trip_version = 3;
  };
  reassigned_offer = none;
})

reject_offer-rejected_db :
    reject_offer (at_time 6000) offer_input matched ≡ ok (succeeded rejection_body, rejected_db)
unfolding matched rejected_db reject_offer ◌>>=◌ find_receipt validate_options validate_all
    validate_candidate to_sorted may_be_offered difference
reject_offer-rejected_db = refl

-- The Customer asks for a match once more between the two requests.
abbrev next_match : List (Env × Request)
next_match = (at_time 30000, match_trip (match_input 6)) ∷ []

reject_offer-replay_example :
    reject_offer (at_time 60000) offer_input (run next_match rejected_db)
    ≡ ok (succeeded rejection_body, run next_match rejected_db)
reject_offer-replay_example =
    reject_offer-replay (at_time 6000) (at_time 60000) next_match offer_input matched
      reject_offer-rejected_db

-- Accepted in time; the Driver then arrives.
unfoldable accepted_db : Db
unfolding matched accept_offer_command ◌>>=◌ find_receipt validate_options validate_all
    validate_candidate to_sorted may_be_offered difference
accepted_db = state_of matched (accept_offer_command (at_time 6000) offer_input matched)

abbrev arrival : TransitionAssignedTripInput
arrival = record {
  driver_user_id = 68 ∷ [];
  trip_id = 1 ∷ [];
  action = arrive_at_pickup;
  idempotency_key = 5 ∷ [];
  request_fingerprint = 7 ∷ [];
  correlation_id = [];
  actual_distance_meters = none;
  actual_duration_seconds = none;
}

unfoldable arrived : Db
unfolding accepted_db transition_assigned_trip ◌>>=◌ find_receipt validate_options validate_all
    validate_candidate to_sorted may_be_offered difference
arrived = state_of accepted_db (transition_assigned_trip (at_time 7000) arrival accepted_db)

abbrev arrival_body : ResponseBody
arrival_body = detail_response (record {
  id = 1 ∷ [];
  fare_quote_id = 3 ∷ [];
  service_type = motorbike_standard;
  state = at_pickup;
  version = 3;
  currency = 86 ∷ 78 ∷ 68 ∷ [];
  quoted_total_fare_minor = 20000;
  created_at = 0;
  driver_id = 68 ∷ [];
  actual_distance_meters = none;
  actual_duration_seconds = none;
  final_fare_minor = none;
  completed_at = none;
})

transition_assigned_trip-arrived :
    transition_assigned_trip (at_time 7000) arrival accepted_db ≡ ok (arrival_body, arrived)
unfolding accepted_db arrived transition_assigned_trip ◌>>=◌ find_receipt validate_options
    validate_all validate_candidate to_sorted may_be_offered difference
transition_assigned_trip-arrived = refl

-- The Trip starts between the two requests.
abbrev departure : List (Env × Request)
departure =
    (at_time 7500, advance_trip (record arrival { action = start_trip; idempotency_key = 6 ∷ [] }))
    ∷ []

transition_assigned_trip-replay_example :
    transition_assigned_trip (at_time 8000) arrival (run departure arrived)
    ≡ ok (arrival_body, run departure arrived)
transition_assigned_trip-replay_example =
    transition_assigned_trip-replay (at_time 7000) (at_time 8000) departure arrival accepted_db
      transition_assigned_trip-arrived

-- Accepted too late: the Offer expires, the Trip stays MATCHING at its version. With a second Driver
-- near, the next request for a match publishes `dispatch.offer.created` for this version once more.
unfoldable late_db : Db
unfolding matched accept_offer_command ◌>>=◌ find_receipt validate_options validate_all
    validate_candidate to_sorted may_be_offered difference
late_db = state_of matched (accept_offer_command (at_time 26000) offer_input matched)

abbrev second_driver_db : Db → Db
second_driver_db db = record db {
  work_states =
      record {
        driver_user_id = 69 ∷ [];
        work_state = available;
        current_trip_id = none;
        current_delivery_id = none;
        state_version = 0;
        state_changed_at = 0;
        updated_at = 0;
      }
      ∷ db.work_states;
  profiles =
      record { user_id = 69 ∷ []; approval_status = approved; deactivated_at = none } ∷ db.profiles;
  vehicles =
      record {
        driver_user_id = 69 ∷ [];
        vehicle_class = motorbike;
        approval_status = approved;
        is_selected = true;
      }
      ∷ db.vehicles;
  locations =
      record {
        driver_user_id = 69 ∷ [];
        location = origin;
        captured_at = 26000;
        received_at = 26000;
        sequence_number = 0;
      }
      ∷ db.locations;
}

start_matching_after_late_answer :
    start_matching (at_time 27000) (match_input 6) (second_driver_db late_db)
    ≡ err (unique_violation outbox_events_unique_event)
unfolding late_db start_matching ◌>>=◌ find_receipt validate_options validate_all validate_candidate
    to_sorted may_be_offered difference
start_matching_after_late_answer = refl

pub start_db-IsValid : IsValid start_db
start_db-IsValid = (
  λ t. (ground arith, ground arith),
  ((λ t. ground arith, λ d. ground arith), (refl, λ d. ground arith)),
)

abbrev requests : List (Env × Request)
requests = (at_time 5000, match_trip (match_input 5)) ∷ (at_time 6000, accept offer_input) ∷ []

run-IsValid_example : IsValid (run requests start_db)
run-IsValid_example = run-IsValid requests start_db start_db-IsValid

assigned_trip_transition_policy-transitions_example :
    transitions driver_to_pickup (lifecycle_command arrive_at_pickup) ≡ some at_pickup
unfolding assigned_trip_transition_policy
assigned_trip_transition_policy-transitions_example =
    assigned_trip_transition_policy-transitions arrive_at_pickup

abbrev accepted_body : TripOfferResponse
accepted_body = record {
  id = 1001 ∷ [];
  trip_id = 1 ∷ [];
  driver_id = 68 ∷ [];
  attempt_number = 1;
  status = accepted;
  expires_at = 25000;
  trip_state = driver_to_pickup;
  trip_version = 2;
}

answer_acceptance-accepted_db :
    answer_acceptance (at_time 6000) offer_input matched
    ≡ ok (succeeded (offer_response accepted_body), accepted_db)
unfolding matched accepted_db answer_acceptance ◌>>=◌ find_receipt validate_options validate_all
    validate_candidate to_sorted may_be_offered difference
answer_acceptance-accepted_db = refl

answer_acceptance-Acceptable_example :
    Acceptable (at_time 6000) offer_input matched (succeeded (offer_response accepted_body))
answer_acceptance-Acceptable_example =
    answer_acceptance-Acceptable (at_time 6000) offer_input matched
      (succeeded (offer_response accepted_body)) accepted_db answer_acceptance-accepted_db
