-- ===== src/Delivery/Repository/Matching.antt =====
-- apps/api/src/delivery/delivery.repository.ts: startMatching and reserveOffer.
use gove.Prelude.{
  ℕ, ◌+◌, ◌*◌, Bool, ◌&&◌, ◌||◌, not, List, [], ◌∷◌, filter, map, take, find?, any, Option, none,
  some, is_some, leb, ◌==◌, if◌then◌else◌,
}
use gove.Prelude.Int.{Double}
use gove.Prelude.Text.{Text, text_eq}
use gove.Contracts.{available, reserved, work_state_eq}
use gove.Database.{◌>>=◌, ◌>>◌, pure, throw_when, gets, modify, order_by, flat_map, some_or_throw}
use gove.Dispatch.ExpiryPolicy.{DriverReservationState, released}
use gove.Dispatch.Ranking.{difference, compare_driver_ids, or_then}
use gove.Dispatch.Tables.{
  Uuid, WorkState, DriverProfile, Vehicle, DriverLocation, DeliveryCommandErrorCode, Env,
  delivery_error, unique_violation, delivery_offers_one_pending_delivery,
}
use gove.Dispatch.Repository.{random_uuid, update_work_states}
use gove.Dispatch.Repository.Matching.{is_approved, is_lt}
use gove.Delivery.Rows.{
  DeliveryState, DeliveryOfferState, Delivery, DeliveryReservation, DeliveryOffer, DeliveryCommand,
  DeliveryMatchResponse, DeliveryBody, DeliveryOperation, DeliveryDb, DeliveryWork,
  delivery_state_eq, delivery_offer_state_eq, match_response, delivery_matching_started,
  delivery_no_driver_available,
}
use gove.Delivery.Repository.{
  DeliveryOfferRow, on_shared, check_delivery_receipt, replay_or, persist_delivery_receipt,
  append_transition, append_delivery_outbox_event, to_delivery_offer_response, update_deliveries,
  update_delivery_reservations, with_delivery_state, with_delivery, resolved_reservation,
  is_active_reservation,
}

-- A row of the query for Drivers near the pickup.
pub record NearbyDriver : Type 0 where
  pub driver_user_id : Uuid
  pub distance : Double

-- Its WHERE clause.
unfoldable pub is_nearby :
    Env → Delivery → DriverLocation → WorkState → DriverProfile → Vehicle → Bool
is_nearby env d loc ws p v =
    work_state_eq ws.work_state available
    && is_approved p.approval_status
    && not (is_some p.deactivated_at)
    && is_approved v.approval_status
    && v.is_selected
    && leb env.now (loc.received_at + 30 * 1000)
    && env.st_dwithin loc.location d.pickup_location 5000

-- Its joins.
unfoldable pub nearby_rows : Env → Uuid → DeliveryDb → List NearbyDriver
unfolding is_nearby
nearby_rows env delivery_id db =
    flat_map
      (λ d.
        flat_map
          (λ loc.
            flat_map
              (λ ws.
                flat_map
                  (λ p.
                    map
                      (λ v. record {
                        driver_user_id = ws.driver_user_id;
                        distance = env.st_distance loc.location d.pickup_location;
                      })
                      (filter
                        (λ v.
                          text_eq v.driver_user_id ws.driver_user_id && is_nearby env d loc ws p v)
                        db.shared.vehicles))
                  (filter (λ p. text_eq p.user_id ws.driver_user_id) db.shared.profiles))
              (filter (λ ws. text_eq ws.driver_user_id loc.driver_user_id) db.shared.work_states))
          db.shared.locations)
      (filter (λ d. text_eq d.id delivery_id) db.deliveries)

-- ORDER BY ST_Distance(...), ws.driver_user_id
unfoldable pub is_nearer : NearbyDriver → NearbyDriver → Bool
is_nearer a b = is_lt (
    or_then (difference a.distance b.distance)
      (compare_driver_ids a.driver_user_id b.driver_user_id))

-- The whole query: a row that another transaction holds is skipped before the limit counts.
unfoldable pub select_nearby : Env → Uuid → DeliveryDb → List NearbyDriver
unfolding nearby_rows is_nearer
select_nearby env delivery_id db = take 8 (
    filter (λ c. not (env.is_locked c.driver_user_id))
      (order_by is_nearer (nearby_rows env delivery_id db)))

abbrev pub new_delivery_reservation : Env → Uuid → Uuid → Uuid → DeliveryReservation
new_delivery_reservation env id driver_user_id delivery_id = record {
  id = id;
  driver_user_id = driver_user_id;
  delivery_id = delivery_id;
  status = DriverReservationState.active;
  expires_at = env.now + 20 * 1000;
  resolved_at = none;
}

-- INSERT INTO delivery.driver_reservations ... ON CONFLICT DO NOTHING RETURNING expires_at. The
-- conflicts are a second ACTIVE reservation of the Driver or of the delivery.
unfoldable pub insert_delivery_reservation :
    Env → Uuid → Uuid → DeliveryWork (Option DeliveryReservation)
unfolding on_shared
insert_delivery_reservation env driver_user_id delivery_id = do
  id ← on_shared (random_uuid env)
  taken ← gets λ db.
      any
        (λ r.
          is_active_reservation r
          && (text_eq r.driver_user_id driver_user_id || text_eq r.delivery_id delivery_id))
        db.reservations
  if taken
      then pure none
      else let reservation = new_delivery_reservation env id driver_user_id delivery_id in
        (modify λ db. record db { reservations = reservation ∷ db.reservations })
        >> pure (some reservation)

abbrev pub new_delivery_offer : Env → DeliveryReservation → Uuid → DeliveryOffer
new_delivery_offer env reservation id = record {
  id = id;
  delivery_id = reservation.delivery_id;
  reservation_id = reservation.id;
  driver_user_id = reservation.driver_user_id;
  attempt_number = 1;
  status = DeliveryOfferState.pending;
  offered_at = env.now;
  expires_at = reservation.expires_at;
  resolved_at = none;
  accepted_by_user_id = none;
  acceptance_idempotency_key = none;
  accepted_delivery_version = none;
}

-- INSERT INTO delivery.delivery_offers ... RETURNING
unfoldable pub insert_delivery_offer : Env → DeliveryReservation → ℕ → DeliveryWork DeliveryOfferRow
unfolding on_shared
insert_delivery_offer env reservation version = do
  id ← on_shared (random_uuid env)
  taken ← gets λ db.
      any
        (λ o.
          text_eq o.delivery_id reservation.delivery_id
          && delivery_offer_state_eq o.status DeliveryOfferState.pending)
        db.offers
  throw_when taken (unique_violation delivery_offers_one_pending_delivery)
  modify λ db. record db { offers = new_delivery_offer env reservation id ∷ db.offers }
  pure (record {
    offer = new_delivery_offer env reservation id;
    delivery_state = DeliveryState.matching;
    delivery_version = version;
  })

-- WHERE driver_user_id = ... AND work_state = 'AVAILABLE' AND neither a Trip nor a delivery
abbrev pub is_free : Uuid → WorkState → Bool
is_free driver_user_id w =
    text_eq w.driver_user_id driver_user_id
    && work_state_eq w.work_state available
    && not (is_some w.current_trip_id)
    && not (is_some w.current_delivery_id)

-- One round of the loop, `next` being the rest of it.
unfoldable pub reserve_nearby :
    Env
    → Uuid
    → ℕ
    → Uuid
    → DeliveryWork (Option DeliveryOfferRow)
    → Option DeliveryReservation
    → DeliveryWork (Option DeliveryOfferRow)
unfolding on_shared update_work_states update_delivery_reservations insert_delivery_offer
reserve_nearby env delivery_id version driver_id next none = next
reserve_nearby env delivery_id version driver_id next (some reservation) = do
  row_count ←
      on_shared
        (update_work_states (is_free driver_id) (with_delivery env reserved (some delivery_id)))
  if not (row_count == 1)
      then update_delivery_reservations (λ r. text_eq r.id reservation.id)
          (resolved_reservation env released)
        >> next
      else insert_delivery_offer env reservation version >>= λ row. pure (some row)

-- The loop of reserveOffer over the Drivers.
unfoldable pub reserve_each :
    Env → Uuid → ℕ → List NearbyDriver → DeliveryWork (Option DeliveryOfferRow)
unfolding insert_delivery_reservation reserve_nearby
reserve_each env delivery_id version [] = pure none
reserve_each env delivery_id version (driver ∷ drivers) = do
  reservation ← insert_delivery_reservation env driver.driver_user_id delivery_id
  reserve_nearby env delivery_id version driver.driver_user_id
      (reserve_each env delivery_id version drivers) reservation

-- reserveOffer
unfoldable pub reserve_offer : Env → Uuid → ℕ → DeliveryWork (Option DeliveryOfferRow)
unfolding select_nearby reserve_each
reserve_offer env delivery_id version =
    gets (select_nearby env delivery_id) >>= reserve_each env delivery_id version

pub record StartDeliveryMatchingInput : Type 0 where
  pub customer_user_id : Uuid
  pub delivery_id : Uuid
  pub idempotency_key : Text
  pub request_fingerprint : Text
  pub correlation_id : Text

-- WHERE id = ... AND state = ... AND version = ...
abbrev pub is_delivery_at : Uuid → DeliveryState → ℕ → Delivery → Bool
is_delivery_at id state version d =
    text_eq d.id id && delivery_state_eq d.state state && d.version == version

-- MATCHING becomes NO_DRIVER_AVAILABLE.
unfoldable pub exhaust_delivery : Uuid → DeliveryCommand → ℕ → Text → DeliveryWork (Unit {0})
unfolding update_deliveries append_transition append_delivery_outbox_event
exhaust_delivery delivery_id command version correlation_id = do
  update_deliveries (is_delivery_at delivery_id DeliveryState.matching version)
      (with_delivery_state DeliveryState.no_driver_available (version + 1))
  append_transition (record {
    delivery_id = delivery_id;
    actor_user_id = none;
    command = command;
    from_state = some DeliveryState.matching;
    to_state = DeliveryState.no_driver_available;
    from_version = some version;
    to_version = version + 1;
    correlation_id = correlation_id;
  })
  append_delivery_outbox_event delivery_id (version + 1) delivery_no_driver_available

abbrev pub matched_response : Uuid → ℕ → DeliveryOfferRow → DeliveryMatchResponse
matched_response delivery_id version row = record {
  delivery_id = delivery_id;
  delivery_state = DeliveryState.matching;
  delivery_version = version;
  offer = some (to_delivery_offer_response row);
}

abbrev pub exhausted_response : Uuid → ℕ → DeliveryMatchResponse
exhausted_response delivery_id version = record {
  delivery_id = delivery_id;
  delivery_state = DeliveryState.no_driver_available;
  delivery_version = version + 1;
  offer = none;
}

unfoldable pub respond_delivery_match :
    StartDeliveryMatchingInput → DeliveryMatchResponse → DeliveryWork DeliveryBody
unfolding persist_delivery_receipt
respond_delivery_match input response = do
  persist_delivery_receipt input.customer_user_id DeliveryOperation.start_matching
      input.idempotency_key input.request_fingerprint (match_response response)
  pure (match_response response)

-- The answer with an Offer, or with none and the delivery exhausted.
unfoldable pub answer_delivery_match :
    StartDeliveryMatchingInput → ℕ → Option DeliveryOfferRow → DeliveryWork DeliveryBody
unfolding exhaust_delivery respond_delivery_match to_delivery_offer_response
answer_delivery_match input version (some row) =
    respond_delivery_match input (matched_response input.delivery_id version row)
answer_delivery_match input version none =
    exhaust_delivery input.delivery_id DeliveryCommand.no_eligible_driver version
      input.correlation_id
    >> respond_delivery_match input (exhausted_response input.delivery_id version)

-- startMatching after its receipt block.
unfoldable pub match_delivery : Env → StartDeliveryMatchingInput → DeliveryWork DeliveryBody
unfolding update_deliveries append_transition append_delivery_outbox_event reserve_offer
    answer_delivery_match
match_delivery env input = do
  found ← gets λ db.
      find?
        (λ d. text_eq d.id input.delivery_id && text_eq d.customer_user_id input.customer_user_id)
        db.deliveries
  delivery ← some_or_throw found (delivery_error DeliveryCommandErrorCode.delivery_not_found)
  throw_when (not (delivery_state_eq delivery.state DeliveryState.requested))
      (delivery_error DeliveryCommandErrorCode.delivery_not_matchable)
  update_deliveries (is_delivery_at input.delivery_id DeliveryState.requested delivery.version)
      (with_delivery_state DeliveryState.matching (delivery.version + 1))
  append_transition (record {
    delivery_id = input.delivery_id;
    actor_user_id = some input.customer_user_id;
    command = DeliveryCommand.start_matching;
    from_state = some DeliveryState.requested;
    to_state = DeliveryState.matching;
    from_version = some delivery.version;
    to_version = delivery.version + 1;
    correlation_id = input.correlation_id;
  })
  append_delivery_outbox_event input.delivery_id (delivery.version + 1) delivery_matching_started
  offer ← reserve_offer env input.delivery_id (delivery.version + 1)
  answer_delivery_match input (delivery.version + 1) offer

unfoldable pub start_delivery_matching :
    Env → StartDeliveryMatchingInput → DeliveryWork DeliveryBody
unfolding check_delivery_receipt match_delivery
start_delivery_matching env input = do
  receipt ←
      check_delivery_receipt input.customer_user_id DeliveryOperation.start_matching
        input.idempotency_key input.request_fingerprint
  replay_or receipt (match_delivery env input)
