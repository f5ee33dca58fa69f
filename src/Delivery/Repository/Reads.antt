-- ===== src/Delivery/Repository/Reads.antt =====
-- apps/api/src/delivery/delivery.repository.ts: the reads.
use gove.Prelude.{
  Bool, ◌&&◌, ◌||◌, true, false, List, [], ◌∷◌, filter, map, find?, Option, none, some, ltb, ◌==◌,
}
use gove.Prelude.Text.{text_eq, text_lt}
use gove.Database.{◌>>=◌, pure, gets, order_by, flat_map}
use gove.Dispatch.Tables.{Uuid}
use gove.Dispatch.Repository.{head}
use gove.Delivery.Rows.{
  DeliveryState, DeliveryOfferState, Delivery, DeliveryOffer, DeliveryAssignment,
  DeliveryAssignmentStatus, DeliveryResponse, DeliveryOfferResponse, DeliveryDb, DeliveryWork,
  in_transit, delivery_offer_state_eq,
}
use gove.Delivery.Repository.{DeliveryOfferRow, to_delivery_response, to_delivery_offer_response}

-- `row ? toDeliveryResponse(row) : null`
unfoldable pub delivery_or_null : Option Delivery → DeliveryWork (Option DeliveryResponse)
unfolding to_delivery_response
delivery_or_null none = pure none
delivery_or_null (some row) = to_delivery_response row >>= λ response. pure (some response)

-- `rows.map(toDeliveryResponse)`
unfoldable pub to_delivery_responses : List Delivery → DeliveryWork (List DeliveryResponse)
unfolding to_delivery_response
to_delivery_responses [] = pure []
to_delivery_responses (row ∷ rows) = do
  response ← to_delivery_response row
  responses ← to_delivery_responses rows
  pure (response ∷ responses)

unfoldable pub find_for_customer : Uuid → Uuid → DeliveryWork (Option DeliveryResponse)
unfolding delivery_or_null
find_for_customer customer_user_id delivery_id =
    gets (λ db.
      find? (λ d. text_eq d.id delivery_id && text_eq d.customer_user_id customer_user_id)
        db.deliveries)
    >>= delivery_or_null

-- ORDER BY created_at DESC, id DESC
abbrev pub is_later : Delivery → Delivery → Bool
is_later a b = ltb b.created_at a.created_at || (b.created_at == a.created_at && text_lt b.id a.id)

unfoldable pub list_for_customer : Uuid → DeliveryWork (List DeliveryResponse)
unfolding to_delivery_responses
list_for_customer customer_user_id =
    gets (λ db.
      order_by is_later (filter (λ d. text_eq d.customer_user_id customer_user_id) db.deliveries))
    >>= to_delivery_responses

-- state IN ('REQUESTED', 'MATCHING', 'DRIVER_TO_PICKUP', 'AT_PICKUP', 'IN_TRANSIT')
abbrev pub is_delivery_under_way : DeliveryState → Bool
is_delivery_under_way DeliveryState.requested = true
is_delivery_under_way DeliveryState.matching = true
is_delivery_under_way DeliveryState.driver_to_pickup = true
is_delivery_under_way DeliveryState.at_pickup = true
is_delivery_under_way in_transit = true
is_delivery_under_way _ = false

unfoldable pub list_active_for_customer : Uuid → DeliveryWork (List DeliveryResponse)
unfolding to_delivery_responses
list_active_for_customer customer_user_id =
    gets (λ db. order_by is_later (
      filter (λ d. text_eq d.customer_user_id customer_user_id && is_delivery_under_way d.state)
        db.deliveries))
    >>= to_delivery_responses

-- A delivery with one of its assignments.
pub record AssignedTo : Type 0 where
  pub delivery : Delivery
  pub assignment : DeliveryAssignment

-- delivery.deliveries d JOIN delivery.assignments a ON a.delivery_id = d.id, the last acceptance first
unfoldable pub assigned_deliveries :
    (Delivery → Bool) → (DeliveryAssignment → Bool) → DeliveryDb → List AssignedTo
assigned_deliveries p q db =
    order_by (λ a b. ltb b.assignment.accepted_at a.assignment.accepted_at)
      (flat_map
        (λ d.
          map (λ a. record { delivery = d; assignment = a })
            (filter (λ a. text_eq a.delivery_id d.id && q a) db.assignments))
        (filter p db.deliveries))

abbrev pub delivery_of : Option AssignedTo → Option Delivery
delivery_of none = none
delivery_of (some row) = some row.delivery

unfoldable pub find_for_driver : Uuid → Uuid → DeliveryWork (Option DeliveryResponse)
unfolding assigned_deliveries delivery_or_null
find_for_driver driver_user_id delivery_id =
    gets (λ db. delivery_of (
      head (
        assigned_deliveries (λ d. text_eq d.id delivery_id)
          (λ a. text_eq a.driver_user_id driver_user_id) db)))
    >>= delivery_or_null

abbrev pub is_active_assignment : DeliveryAssignmentStatus → Bool
is_active_assignment DeliveryAssignmentStatus.active = true
is_active_assignment _ = false

unfoldable pub find_current_for_driver : Uuid → DeliveryWork (Option DeliveryResponse)
unfolding assigned_deliveries delivery_or_null
find_current_for_driver driver_user_id =
    gets (λ db. delivery_of (
      head (
        assigned_deliveries (λ d. true)
          (λ a. text_eq a.driver_user_id driver_user_id && is_active_assignment a.status) db)))
    >>= delivery_or_null

-- delivery.delivery_offers o JOIN delivery.deliveries d ON d.id = o.delivery_id
abbrev pub join_delivery : DeliveryDb → DeliveryOffer → List DeliveryOfferRow
join_delivery db offer =
    map (λ d. record { offer = offer; delivery_state = d.state; delivery_version = d.version })
      (filter (λ d. text_eq d.id offer.delivery_id) db.deliveries)

unfoldable pub list_pending_offers : Uuid → DeliveryDb → List DeliveryOfferResponse
unfolding to_delivery_offer_response
list_pending_offers driver_user_id db = map to_delivery_offer_response (
    flat_map (join_delivery db) (
      order_by
        (λ a b.
          ltb a.offered_at b.offered_at || (a.offered_at == b.offered_at && text_lt a.id b.id))
        (filter
          (λ o.
            text_eq o.driver_user_id driver_user_id
            && delivery_offer_state_eq o.status DeliveryOfferState.pending)
          db.offers)))
