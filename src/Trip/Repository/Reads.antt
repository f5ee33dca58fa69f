-- ===== src/Trip/Repository/Reads.antt =====
-- apps/api/src/trip/trip.repository.ts: listHistory and findCurrentForCustomer.
use gove.Prelude.{
  Bool, true, false, ◌&&◌, ◌||◌, List, [], ◌∷◌, filter, map, take, Option, none, some, ltb, ◌==◌,
}
use gove.Prelude.Text.{text_eq, text_lt}
use gove.Contracts.{TripState, completed, cancelled, no_driver_available, PaymentStatus}
use gove.Database.{◌>>=◌, pure, gets, order_by, flat_map}
use gove.Dispatch.Tables.{Uuid, Trip, Assignment, PaymentAttempt, Db, Work}
use gove.Trip.Rows.{TripSummary, TripHistoryItem, ActiveTripResponse}
use gove.Dispatch.Repository.{is_active, head}
use gove.Trip.Repository.{is_current, finite_number, safe_integer, optional_safe_integer}

-- A HistoryRow: the Trip with the Driver of an assignment and the status of the last payment.
pub record HistoryRow : Type 0 where
  pub trip : Trip
  pub driver_id : Option Uuid
  pub payment_status : Option PaymentStatus

pub data HistoryRole : Type 0 where
  as_customer as_driver : HistoryRole

-- LEFT JOIN
abbrev pub left_join : {A : Type 0} → List A → List (Option A)
left_join [] = none ∷ []
left_join (x ∷ xs) = map some (x ∷ xs)

abbrev pub driver_of : Option Assignment → Option Uuid
driver_of none = none
driver_of (some a) = some a.driver_user_id

abbrev pub status_of : Option PaymentAttempt → Option PaymentStatus
status_of none = none
status_of (some p) = some p.status

-- The payment attempts of a Trip, the last one first.
unfoldable pub attempts_of : Uuid → Db → List PaymentAttempt
attempts_of trip_id db =
    order_by (λ a b. ltb b.attempt_number a.attempt_number)
      (filter (λ p. text_eq p.trip_id trip_id) db.payment_attempts)

unfoldable pub history_row : Db → Trip → Option Assignment → HistoryRow
unfolding attempts_of
history_row db trip assignment = record {
  trip = trip;
  driver_id = driver_of assignment;
  payment_status = status_of (head (attempts_of trip.id db));
}

-- state IN ('COMPLETED', 'CANCELLED', 'NO_DRIVER_AVAILABLE')
abbrev pub is_over : TripState → Bool
is_over completed = true
is_over cancelled = true
is_over no_driver_available = true
is_over _ = false

abbrev pub is_same_user : Option Uuid → Uuid → Bool
is_same_user none id = false
is_same_user (some other) id = text_eq other id

abbrev pub is_of_actor : Uuid → HistoryRole → HistoryRow → Bool
is_of_actor actor_id as_customer row = text_eq row.trip.customer_user_id actor_id
is_of_actor actor_id as_driver row = is_same_user row.driver_id actor_id

unfoldable pub history_rows : Uuid → HistoryRole → Db → List HistoryRow
unfolding history_row
history_rows actor_id role db = take 50 (
    order_by (λ a b. ltb b.trip.created_at a.trip.created_at)
      (filter (λ row. is_over row.trip.state && is_of_actor actor_id role row)
        (flat_map
          (λ t.
            map (history_row db t)
              (left_join (filter (λ a. text_eq a.trip_id t.id) db.assignments)))
          db.trips)))

unfoldable pub to_summary : HistoryRow → Work TripSummary
unfolding safe_integer optional_safe_integer
to_summary row = do
  quoted ← safe_integer row.trip.quoted_total_fare_minor
  fare ← optional_safe_integer row.trip.final_fare_minor
  pure (record {
    trip = record {
      id = row.trip.id;
      fare_quote_id = row.trip.fare_quote_id;
      service_type = row.trip.service_type_code;
      state = row.trip.state;
      version = row.trip.version;
      currency = row.trip.currency;
      quoted_total_fare_minor = quoted;
      created_at = row.trip.created_at;
    };
    driver_id = row.driver_id;
    actual_distance_meters = row.trip.actual_distance_meters;
    actual_duration_seconds = row.trip.actual_duration_seconds;
    final_fare_minor = fare;
    completed_at = row.trip.completed_at;
  })

unfoldable pub to_history_items : List HistoryRow → Work (List TripHistoryItem)
unfolding to_summary
to_history_items [] = pure []
to_history_items (row ∷ rows) = do
  summary ← to_summary row
  items ← to_history_items rows
  pure (record { detail = summary; payment_status = row.payment_status } ∷ items)

unfoldable pub list_history : Uuid → HistoryRole → Work (List TripHistoryItem)
unfolding history_rows to_history_items
list_history actor_id role = gets (history_rows actor_id role) >>= to_history_items

-- The Trips under way of the Customer, the latest first, with their active assignment.
unfoldable pub current_rows : Uuid → Db → List HistoryRow
unfolding history_row
current_rows customer_user_id db =
    order_by
      (λ a b.
        ltb b.trip.created_at a.trip.created_at
        || (b.trip.created_at == a.trip.created_at && text_lt b.trip.id a.trip.id))
      (flat_map
        (λ t.
          map (history_row db t)
            (left_join (filter (λ a. text_eq a.trip_id t.id && is_active a.status) db.assignments)))
        (filter (is_current customer_user_id) db.trips))

unfoldable pub to_active_response : HistoryRow → Work ActiveTripResponse
unfolding to_summary finite_number
to_active_response row = do
  summary ← to_summary row
  pickup_latitude ← finite_number row.trip.pickup_location.latitude
  pickup_longitude ← finite_number row.trip.pickup_location.longitude
  dropoff_latitude ← finite_number row.trip.dropoff_location.latitude
  dropoff_longitude ← finite_number row.trip.dropoff_location.longitude
  pure (record {
    detail = summary;
    pickup = record {
      label = row.trip.pickup_label;
      latitude = pickup_latitude;
      longitude = pickup_longitude;
    };
    dropoff = record {
      label = row.trip.dropoff_label;
      latitude = dropoff_latitude;
      longitude = dropoff_longitude;
    };
  })

unfoldable pub active_response : Option HistoryRow → Work (Option ActiveTripResponse)
unfolding to_active_response
active_response none = pure none
active_response (some row) = to_active_response row >>= λ response. pure (some response)

unfoldable pub find_current_for_customer : Uuid → Work (Option ActiveTripResponse)
unfolding current_rows active_response
find_current_for_customer customer_user_id =
    gets (λ db. head (current_rows customer_user_id db)) >>= active_response
