-- ===== src/Trip/Repository/Tests.antt =====
-- The operations of apps/api/src/trip/trip.repository.ts on one quote.
use gove.Prelude.{◌≡◌, refl, none, List, [], ◌∷◌, ok, err, ◌&&◌, not, is_some}
use gove.Contracts.{
  motorbike_standard, requested, cancelled, in_progress, trip_state_eq, customer_pre_trip,
}
use gove.Database.{◌>>=◌}
use gove.Dispatch.Tables.{
  not_object, Quote, ResponseBody, Db, Env, trip_response, cancel_response, trip_error,
  TripCommandErrorCode,
}
use gove.Trip.Rows.{QuoteStatus, CancellationReasonCode}
use gove.Trip.Lifecycle.{transitions}
use gove.Trip.Lifecycle
use gove.Dispatch.Repository.{find_receipt}
use gove.Dispatch.Repository.Tests.{at_time, origin, start_db, state_of}
use gove.Trip.Repository.{customer_cancellation_rule}
use gove.Trip.Repository.Create.{CreateTripRecord, create_trip}
use gove.Trip.Repository.Cancel.{CancelTripInput, cancel_trip}
use gove.Dispatch.Repository.Promises.{Request, create, cancel, run}
use gove.Dispatch.Repository.Replay.{create_trip-replay, cancel_trip-replay}
use gove.Trip.Repository.Rules.{customer_cancellation_rule-transitions}

abbrev quote : Quote
quote = record {
  id = 80 ∷ [];
  customer_user_id = 70 ∷ [];
  service_type_code = motorbike_standard;
  pickup_label = 65 ∷ [];
  pickup_location = origin;
  dropoff_label = 66 ∷ [];
  dropoff_location = origin;
  rule_snapshot = not_object;
  applied_surge_multiplier_bps = 10000;
  total_fare_minor = 20000;
  currency = 86 ∷ 78 ∷ 68 ∷ [];
  status = QuoteStatus.active;
  expires_at = 10000;
  consumed_at = none;
}

abbrev quoted_db : Db
quoted_db = record start_db { quotes = quote ∷ [] }

abbrev creation : CreateTripRecord
creation = record {
  customer_user_id = 70 ∷ [];
  fare_quote_id = 80 ∷ [];
  idempotency_key = 5 ∷ [];
  request_fingerprint = 7 ∷ [];
  correlation_id = [];
}

unfoldable created : Db
unfolding create_trip ◌>>=◌ find_receipt
created = state_of quoted_db (create_trip (at_time 5000) creation quoted_db)

abbrev created_body : ResponseBody
created_body = trip_response (record {
  id = 1000 ∷ [];
  fare_quote_id = 80 ∷ [];
  service_type = motorbike_standard;
  state = requested;
  version = 0;
  currency = 86 ∷ 78 ∷ 68 ∷ [];
  quoted_total_fare_minor = 20000;
  created_at = 5000;
})

create_trip-created : create_trip (at_time 5000) creation quoted_db ≡ ok (created_body, created)
unfolding created create_trip ◌>>=◌ find_receipt
create_trip-created = refl

-- The quote is late: the request fails.
create_trip-late :
    create_trip (at_time 10000) creation quoted_db
    ≡ err (trip_error TripCommandErrorCode.fare_quote_expired)
unfolding create_trip ◌>>=◌ find_receipt
create_trip-late = refl

abbrev cancellation : CancelTripInput
cancellation = record {
  customer_user_id = 70 ∷ [];
  trip_id = 1000 ∷ [];
  idempotency_key = 6 ∷ [];
  correlation_id = [];
  reason_code = CancellationReasonCode.change_of_plans;
  reason_detail = none;
  request_fingerprint = 8 ∷ [];
}

-- The Customer cancels between the two requests for the Trip.
abbrev change_of_mind : List (Env × Request)
change_of_mind = (at_time 6000, cancel cancellation) ∷ []

create_trip-replay_example :
    create_trip (at_time 90000) creation (run change_of_mind created)
    ≡ ok (created_body, run change_of_mind created)
create_trip-replay_example =
    create_trip-replay (at_time 5000) (at_time 90000) change_of_mind creation quoted_db
      create_trip-created

unfoldable cancelled_db : Db
unfolding created cancel_trip ◌>>=◌ find_receipt
cancelled_db = state_of created (cancel_trip (at_time 6000) cancellation created)

abbrev cancelled_body : ResponseBody
cancelled_body = cancel_response (record {
  detail = record {
    trip = record {
      id = 1000 ∷ [];
      fare_quote_id = 80 ∷ [];
      service_type = motorbike_standard;
      state = cancelled;
      version = 1;
      currency = 86 ∷ 78 ∷ 68 ∷ [];
      quoted_total_fare_minor = 20000;
      created_at = 5000;
    };
    driver_id = none;
    actual_distance_meters = none;
    actual_duration_seconds = none;
    final_fare_minor = none;
    completed_at = none;
  };
  cancellation = record {
    reason_code = CancellationReasonCode.change_of_plans;
    rule_code = customer_pre_trip;
    cancelled_at = 6000;
  };
})

cancel_trip-cancelled_db :
    cancel_trip (at_time 6000) cancellation created ≡ ok (cancelled_body, cancelled_db)
unfolding created cancelled_db cancel_trip ◌>>=◌ find_receipt
cancel_trip-cancelled_db = refl

-- The Customer asks for another Trip with the quote between the two requests.
abbrev next_creation : List (Env × Request)
next_creation = (at_time 7000, create (record creation { idempotency_key = 9 ∷ [] })) ∷ []

cancel_trip-replay_example :
    cancel_trip (at_time 90000) cancellation (run next_creation cancelled_db)
    ≡ ok (cancelled_body, run next_creation cancelled_db)
cancel_trip-replay_example =
    cancel_trip-replay (at_time 6000) (at_time 90000) next_creation cancellation created
      cancel_trip-cancelled_db

customer_cancellation_rule-transitions_example :
    is_some (customer_cancellation_rule in_progress)
    ≡ is_some (transitions in_progress Lifecycle.cancel)
      && not (trip_state_eq in_progress in_progress)
customer_cancellation_rule-transitions_example = customer_cancellation_rule-transitions in_progress
