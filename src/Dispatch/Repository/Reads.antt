-- ===== src/Dispatch/Repository/Reads.antt =====
-- apps/api/src/dispatch/dispatch.repository.ts: listPendingOffers and findCurrentAssignedTrip.
use gove.Prelude.{◌&&◌, ◌||◌, ◌==◌, Bool, List, filter, map, Option, none, some, ltb}
use gove.Prelude.Text.{text_eq, text_lt}
use gove.Contracts.{pending, offer_state_eq}
use gove.Database.{◌>>=◌, gets, order_by, flat_map}
use gove.Dispatch.Tables.{Uuid, TripOfferResponse, Db, Work}
use gove.Dispatch.Repository.{OfferRow, is_active, head, join_trip, to_offer_response}
use gove.Dispatch.Repository.Assigned.{AssignedTripRow}
use gove.Trip.Rows.{ActiveTripResponse}
use gove.Trip.Repository.Reads.{HistoryRow, active_response}

-- ORDER BY o.offered_at ASC, o.id ASC
abbrev pub is_offered_before : OfferRow → OfferRow → Bool
is_offered_before a b =
    ltb a.offer.offered_at b.offer.offered_at
    || (a.offer.offered_at == b.offer.offered_at && text_lt a.offer.id b.offer.id)

unfoldable pub list_pending_offers : Uuid → Db → List TripOfferResponse
unfolding to_offer_response
list_pending_offers driver_user_id db = map to_offer_response (
    order_by is_offered_before (
      flat_map (join_trip db) (
        filter (λ o. text_eq o.driver_user_id driver_user_id && offer_state_eq o.status pending)
          db.offers)))

-- The active assignments of the Driver, each with its Trip and the Driver's work state.
unfoldable pub current_assigned : Uuid → Db → List AssignedTripRow
current_assigned driver_user_id db =
    flat_map
      (λ a.
        flat_map
          (λ t.
            map (λ ws. record { trip = t; assignment = a; work_state = ws })
              (filter (λ ws. text_eq ws.driver_user_id a.driver_user_id) db.work_states))
          (filter (λ t. text_eq t.id a.trip_id) db.trips))
      (filter (λ a. text_eq a.driver_user_id driver_user_id && is_active a.status) db.assignments)

-- The columns that toAssignedTripResponse reads; there is no payment among them.
abbrev pub assigned_columns : Option AssignedTripRow → Option HistoryRow
assigned_columns none = none
assigned_columns (some row) = some (record {
  trip = row.trip;
  driver_id = some row.assignment.driver_user_id;
  payment_status = none;
})

unfoldable pub find_current_assigned_trip : Uuid → Work (Option ActiveTripResponse)
unfolding current_assigned active_response
find_current_assigned_trip driver_user_id =
    gets (λ db. assigned_columns (head (current_assigned driver_user_id db))) >>= active_response
