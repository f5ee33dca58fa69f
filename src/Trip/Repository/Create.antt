-- ===== src/Trip/Repository/Create.antt =====
-- apps/api/src/trip/trip.repository.ts: createTrip.
use gove.Prelude.{
  ℕ, Bool, true, false, ◌&&◌, not, ◌∷◌, find?, any, Option, none, some, if◌then◌else◌, leb,
}
use gove.Prelude.Text.{Text, text_eq}
use gove.Contracts.{requested}
use gove.Database.{◌>>=◌, ◌>>◌, pure, throw, throw_when, gets, modify, update, some_or_throw}
use gove.Dispatch.Tables.{
  Uuid, Quote, Trip, TripResponse, TripCommandErrorCode, ResponseBody, Operation, Command, Db, Env,
  Work, trip_error, trip_response, trip_created, unique_violation, trips_fare_quote_id_key,
}
use gove.Trip.Rows.{QuoteStatus}
use gove.Dispatch.Repository.{
  random_uuid, check_receipt, answer_or, persist_receipt, append_trip_transition,
  append_trip_outbox,
}
use gove.Trip.Repository.{is_current, finite_number, safe_integer}

pub record CreateTripRecord : Type 0 where
  pub customer_user_id : Uuid
  pub fare_quote_id : Uuid
  pub idempotency_key : Text
  pub request_fingerprint : Text
  pub correlation_id : Text

unfoldable pub find_quote : Uuid → Db → Option Quote
find_quote id db = find? (λ q. text_eq q.id id) db.quotes

unfoldable pub update_quotes : (Quote → Bool) → (Quote → Quote) → Work (Unit {0})
update_quotes p change = modify λ db. record db { quotes = update p change db.quotes }

abbrev pub is_active_quote : QuoteStatus → Bool
is_active_quote QuoteStatus.active = true
is_active_quote _ = false

abbrev pub is_expired_quote : QuoteStatus → Bool
is_expired_quote QuoteStatus.expired = true
is_expired_quote _ = false

abbrev pub expired_quote : Quote → Quote
expired_quote q = record q { status = QuoteStatus.expired }

-- The tests of the status and the expiry of a quote.
unfoldable pub check_quote : Env → Quote → Work (Unit {0})
unfolding update_quotes
check_quote env quote =
    if is_active_quote quote.status && leb quote.expires_at env.date_now
    then update_quotes (λ q. text_eq q.id quote.id) expired_quote
      >> throw (trip_error TripCommandErrorCode.fare_quote_expired)
    else throw_when (is_expired_quote quote.status)
        (trip_error TripCommandErrorCode.fare_quote_expired)
      >> throw_when (not (is_active_quote quote.status))
          (trip_error TripCommandErrorCode.fare_quote_already_consumed)

abbrev pub new_trip : Env → CreateTripRecord → Quote → Uuid → ℕ → Trip
new_trip env input quote id total = record {
  id = id;
  customer_user_id = input.customer_user_id;
  fare_quote_id = quote.id;
  service_type_code = quote.service_type_code;
  state = requested;
  version = 0;
  pickup_label = quote.pickup_label;
  pickup_location = quote.pickup_location;
  dropoff_label = quote.dropoff_label;
  dropoff_location = quote.dropoff_location;
  quote_snapshot = quote.rule_snapshot;
  quoted_total_fare_minor = total;
  currency = quote.currency;
  applied_surge_multiplier_bps = quote.applied_surge_multiplier_bps;
  actual_distance_meters = none;
  actual_duration_seconds = none;
  final_fare_minor = none;
  created_at = env.now;
  completed_at = none;
}

-- INSERT INTO trip.trips, its parameters checked before it. The state and the version have the
-- defaults of the table.
unfoldable pub insert_trip : Env → CreateTripRecord → Quote → Uuid → Work Trip
unfolding finite_number safe_integer
insert_trip env input quote id = do
  finite_number quote.pickup_location.longitude
  finite_number quote.pickup_location.latitude
  finite_number quote.dropoff_location.longitude
  finite_number quote.dropoff_location.latitude
  total ← safe_integer quote.total_fare_minor
  taken ← gets λ db. any (λ t. text_eq t.fare_quote_id quote.id) db.trips
  throw_when taken (unique_violation trips_fare_quote_id_key)
  modify λ db. record db { trips = new_trip env input quote id total ∷ db.trips }
  pure (new_trip env input quote id total)

abbrev pub consumed_quote : Env → Quote → Quote
consumed_quote env q = record q { status = QuoteStatus.consumed; consumed_at = some env.now }

abbrev pub to_trip_response : Trip → ℕ → TripResponse
to_trip_response trip total = record {
  id = trip.id;
  fare_quote_id = trip.fare_quote_id;
  service_type = trip.service_type_code;
  state = requested;
  version = 0;
  currency = trip.currency;
  quoted_total_fare_minor = total;
  created_at = trip.created_at;
}

-- The statements that store a Trip for a quote in force.
unfoldable pub store_trip : Env → CreateTripRecord → Quote → Work ResponseBody
unfolding insert_trip update_quotes append_trip_transition append_trip_outbox safe_integer
    persist_receipt
store_trip env input quote = do
  id ← random_uuid env
  trip ← insert_trip env input quote id
  update_quotes (λ q. text_eq q.id quote.id) (consumed_quote env)
  append_trip_transition (record {
    trip_id = id;
    actor_user_id = some input.customer_user_id;
    command = Command.create_trip;
    from_state = none;
    to_state = requested;
    from_version = none;
    to_version = 0;
    correlation_id = input.correlation_id;
  })
  total ← safe_integer quote.total_fare_minor
  append_trip_outbox id 0 trip_created
  persist_receipt input.customer_user_id Operation.create_trip input.idempotency_key
      input.request_fingerprint (trip_response (to_trip_response trip total))
  pure (trip_response (to_trip_response trip total))

-- createTrip after its receipt block.
unfoldable pub create : Env → CreateTripRecord → Work ResponseBody
unfolding find_quote check_quote store_trip
create env input = do
  found ← gets (find_quote input.fare_quote_id)
  quote ← some_or_throw found (trip_error TripCommandErrorCode.fare_quote_not_found)
  throw_when (not (text_eq quote.customer_user_id input.customer_user_id))
      (trip_error TripCommandErrorCode.fare_quote_not_found)
  check_quote env quote
  current ← gets λ db. any (is_current input.customer_user_id) db.trips
  throw_when current (trip_error TripCommandErrorCode.active_trip_exists)
  store_trip env input quote

unfoldable pub create_trip : Env → CreateTripRecord → Work ResponseBody
unfolding check_receipt create
create_trip env input = do
  receipt ←
      check_receipt input.customer_user_id Operation.create_trip input.idempotency_key
        input.request_fingerprint
  answer_or receipt (λ response. response) (create env input)
