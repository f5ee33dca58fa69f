-- ===== src/Delivery/Repository/Offers.antt =====
-- apps/api/src/delivery/delivery.repository.ts: acceptOffer and expireDueOffers.
use gove.Prelude.{
  ℕ, suc, ◌+◌, Bool, true, false, ◌&&◌, ◌||◌, not, List, [], ◌∷◌, filter, find?, take, any, Option,
  none, some, is_some, Result, ok, err, ltb, leb, ◌==◌, if◌then◌else◌,
}
use gove.Prelude.Text.{Text, text_eq}
use gove.Contracts.{to_pickup, work_state_eq, reserved}
use gove.Database.{
  ◌>>=◌, ◌>>◌, pure, throw, throw_when, gets, modify, order_by, flat_map, some_or_throw,
  transaction,
}
use gove.Dispatch.ExpiryPolicy.{committed}
use gove.Dispatch.Tables.{
  Uuid, DeliveryCommandErrorCode, Env, Thrown, WorkState, delivery_error, unique_violation,
  delivery_assignments_one_active_delivery, delivery_assignments_one_active_driver,
  delivery_assignments_one_offer,
}
use gove.Dispatch.Repository.{random_uuid, update_work_states, head, eq_uuid_option}
use gove.Delivery.Rows.{
  DeliveryState, DeliveryOfferState, DeliveryReservation, DeliveryOffer, DeliveryAssignmentStatus,
  DeliveryAssignment, DeliveryCommand, DeliveryOfferResponse, DeliveryDb, DeliveryWork,
  delivery_state_eq, delivery_offer_state_eq, delivery_driver_assigned,
}
use gove.Delivery.Repository.{
  DeliveryOfferRow, on_shared, append_transition, append_delivery_outbox_event,
  to_delivery_offer_response, update_deliveries, update_delivery_offers,
  update_delivery_reservations, with_delivery_state, with_delivery, resolved_reservation,
  is_active_reservation, expire_delivery_offer,
}
use gove.Delivery.Repository.Reads.{join_delivery, is_active_assignment}
use gove.Delivery.Repository.Matching.{is_delivery_at, exhaust_delivery}

pub record AcceptDeliveryInput : Type 0 where
  pub driver_user_id : Uuid
  pub offer_id : Uuid
  pub idempotency_key : Text
  pub correlation_id : Text

-- SELECT ... FROM delivery.delivery_offers o JOIN delivery.deliveries d ... WHERE o.id = $1
unfoldable pub find_delivery_offer : Uuid → DeliveryDb → Option DeliveryOfferRow
find_delivery_offer offer_id db =
    head (flat_map (join_delivery db) (filter (λ o. text_eq o.id offer_id) db.offers))

-- WHERE id = (SELECT reservation_id FROM delivery.delivery_offers WHERE id = $1)
unfoldable pub find_delivery_reservation : Uuid → DeliveryDb → Option DeliveryReservation
find_delivery_reservation id db = find? (λ r. text_eq r.id id) db.reservations

abbrev pub resolved_already : Thrown
resolved_already = delivery_error DeliveryCommandErrorCode.offer_already_resolved

-- The Driver of a RESERVED work state for the delivery and for no Trip.
abbrev pub is_only_reserved_for : Uuid → Uuid → WorkState → Bool
is_only_reserved_for driver_user_id delivery_id w =
    text_eq w.driver_user_id driver_user_id
    && work_state_eq w.work_state reserved
    && eq_uuid_option w.current_delivery_id delivery_id
    && not (is_some w.current_trip_id)

abbrev pub accepted_delivery_offer : Env → AcceptDeliveryInput → ℕ → DeliveryOffer → DeliveryOffer
accepted_delivery_offer env input version o = record o {
  status = DeliveryOfferState.accepted;
  resolved_at = some env.now;
  accepted_by_user_id = some input.driver_user_id;
  acceptance_idempotency_key = some input.idempotency_key;
  accepted_delivery_version = some version;
}

abbrev pub new_delivery_assignment :
    Env → AcceptDeliveryInput → DeliveryOffer → Uuid → DeliveryAssignment
new_delivery_assignment env input offer id = record {
  id = id;
  delivery_id = offer.delivery_id;
  offer_id = offer.id;
  driver_user_id = input.driver_user_id;
  status = DeliveryAssignmentStatus.active;
  accepted_at = env.now;
  completed_at = none;
  pickup_custody_confirmation = none;
  pickup_confirmed_at = none;
}

-- INSERT INTO delivery.assignments
unfoldable pub insert_delivery_assignment :
    Env → AcceptDeliveryInput → DeliveryOffer → DeliveryWork (Unit {0})
unfolding on_shared
insert_delivery_assignment env input offer = do
  id ← on_shared (random_uuid env)
  offered ← gets λ db. any (λ a. text_eq a.offer_id offer.id) db.assignments
  throw_when offered (unique_violation delivery_assignments_one_offer)
  assigned ← gets λ db.
      any (λ a. text_eq a.delivery_id offer.delivery_id && is_active_assignment a.status)
        db.assignments
  throw_when assigned (unique_violation delivery_assignments_one_active_delivery)
  busy ← gets λ db.
      any (λ a. text_eq a.driver_user_id input.driver_user_id && is_active_assignment a.status)
        db.assignments
  throw_when busy (unique_violation delivery_assignments_one_active_driver)
  modify
      λ db. record db { assignments = new_delivery_assignment env input offer id ∷ db.assignments }

abbrev pub accepted_response : DeliveryOfferRow → DeliveryOfferResponse
accepted_response row = record (to_delivery_offer_response row) {
  status = DeliveryOfferState.accepted;
  delivery_state = DeliveryState.driver_to_pickup;
  delivery_version = row.delivery_version + 1;
}

-- The statements of an acceptance.
unfoldable pub accept_rows :
    Env
    → AcceptDeliveryInput
    → DeliveryOfferRow
    → DeliveryReservation
    → DeliveryWork DeliveryOfferResponse
unfolding on_shared update_work_states update_delivery_reservations update_delivery_offers
    insert_delivery_assignment update_deliveries append_transition append_delivery_outbox_event
    to_delivery_offer_response
accept_rows env input row reservation = do
  row_count ← on_shared (
      update_work_states (is_only_reserved_for input.driver_user_id row.offer.delivery_id)
        (with_delivery env to_pickup (some row.offer.delivery_id)))
  throw_when (not (row_count == 1))
      (delivery_error DeliveryCommandErrorCode.driver_work_state_conflict)
  update_delivery_reservations (λ r. text_eq r.id reservation.id && is_active_reservation r)
      (resolved_reservation env committed)
  update_delivery_offers
      (λ o.
        text_eq o.id input.offer_id && delivery_offer_state_eq o.status DeliveryOfferState.pending)
      (accepted_delivery_offer env input (row.delivery_version + 1))
  insert_delivery_assignment env input row.offer
  update_deliveries
      (is_delivery_at row.offer.delivery_id DeliveryState.matching row.delivery_version)
      (with_delivery_state DeliveryState.driver_to_pickup (row.delivery_version + 1))
  append_transition (record {
    delivery_id = row.offer.delivery_id;
    actor_user_id = some input.driver_user_id;
    command = DeliveryCommand.assign_driver;
    from_state = some DeliveryState.matching;
    to_state = DeliveryState.driver_to_pickup;
    from_version = some row.delivery_version;
    to_version = row.delivery_version + 1;
    correlation_id = input.correlation_id;
  })
  append_delivery_outbox_event row.offer.delivery_id (row.delivery_version + 1)
      delivery_driver_assigned
  pure (accepted_response row)

-- reservation.expires_at <= Date.now() || offer.expires_at <= Date.now()
abbrev pub is_delivery_late : Env → DeliveryReservation → DeliveryOffer → Bool
is_delivery_late env reservation offer =
    leb reservation.expires_at env.date_now || leb offer.expires_at env.date_now_later

-- A late Offer expires, and the command throws.
unfoldable pub refuse_late : Env → DeliveryOffer → Bool → DeliveryWork (Unit {0})
unfolding expire_delivery_offer
refuse_late env offer late =
    if late
    then expire_delivery_offer env offer
      >> throw (delivery_error DeliveryCommandErrorCode.offer_expired)
    else pure tt

-- The acceptance of a pending Offer.
unfoldable pub accept_pending_delivery :
    Env → AcceptDeliveryInput → DeliveryOfferRow → DeliveryWork DeliveryOfferResponse
unfolding find_delivery_reservation refuse_late accept_rows
accept_pending_delivery env input row = do
  found ← gets (find_delivery_reservation row.offer.reservation_id)
  reservation ← some_or_throw found resolved_already
  throw_when (not (is_active_reservation reservation)) resolved_already
  refuse_late env row.offer (is_delivery_late env reservation row.offer)
  throw_when (not (delivery_state_eq row.delivery_state DeliveryState.matching)) resolved_already
  accept_rows env input row reservation

-- acceptOffer once the Offer is found and is the Driver's.
unfoldable pub accept_own :
    Env → AcceptDeliveryInput → DeliveryOfferRow → DeliveryWork DeliveryOfferResponse
unfolding accept_pending_delivery to_delivery_offer_response
accept_own env input row =
    if delivery_offer_state_eq row.offer.status DeliveryOfferState.accepted
      && eq_uuid_option row.offer.acceptance_idempotency_key input.idempotency_key
    then pure (to_delivery_offer_response row)
    else throw_when (not (delivery_offer_state_eq row.offer.status DeliveryOfferState.pending))
        resolved_already
      >> accept_pending_delivery env input row

unfoldable pub accept_delivery_offer :
    Env → AcceptDeliveryInput → DeliveryWork DeliveryOfferResponse
unfolding find_delivery_offer accept_own
accept_delivery_offer env input = do
  found ← gets (find_delivery_offer input.offer_id)
  row ← some_or_throw found (delivery_error DeliveryCommandErrorCode.offer_not_found)
  throw_when (not (text_eq row.offer.driver_user_id input.driver_user_id))
      (delivery_error DeliveryCommandErrorCode.offer_not_for_driver)
  accept_own env input row

-- FOR UPDATE OF o, d SKIP LOCKED
abbrev pub unlocked_offer : Env → Option DeliveryOfferRow → Option DeliveryOfferRow
unlocked_offer env none = none
unlocked_offer env (some row) =
    if env.is_locked row.offer.id || env.is_locked row.offer.delivery_id then none else some row

-- The statements on an Offer that is due, and on its delivery if it is still MATCHING.
unfoldable pub expire_delivery : Env → DeliveryOfferRow → Text → DeliveryWork Bool
unfolding expire_delivery_offer exhaust_delivery
expire_delivery env row correlation_id =
    expire_delivery_offer env row.offer
    >> (if not (delivery_state_eq row.delivery_state DeliveryState.matching)
        then pure true
        else exhaust_delivery row.offer.delivery_id DeliveryCommand.expire_delivery_offer
            row.delivery_version correlation_id
          >> pure true)

-- The body of one transaction of expireDueOffers on a locked row; its correlation id is an id drawn
-- before it.
unfoldable pub expire_found_delivery : Env → Option DeliveryOfferRow → DeliveryWork Bool
unfolding expire_delivery on_shared
expire_found_delivery env none = pure false
expire_found_delivery env (some row) =
    if not (delivery_offer_state_eq row.offer.status DeliveryOfferState.pending)
      || ltb env.date_now row.offer.expires_at
    then pure false
    else on_shared (random_uuid env) >>= expire_delivery env row

unfoldable pub expire_due_delivery : Env → Uuid → DeliveryWork Bool
unfolding find_delivery_offer expire_found_delivery
expire_due_delivery env offer_id =
    gets (λ db. unlocked_offer env (find_delivery_offer offer_id db)) >>= expire_found_delivery env

-- SELECT id ... WHERE status = 'PENDING' AND expires_at <= now() ORDER BY expires_at LIMIT 50
unfoldable pub due_delivery_offers : Env → DeliveryDb → List DeliveryOffer
due_delivery_offers env db = take 50 (
    order_by (λ a b. ltb a.expires_at b.expires_at)
      (filter
        (λ o.
          delivery_offer_state_eq o.status DeliveryOfferState.pending && leb o.expires_at env.now)
        db.offers))

abbrev pub add_expired : Bool → ℕ → ℕ
add_expired true n = n + 1
add_expired false n = n

-- One pass of the loop each, in a transaction of its own; an error ends the sweep.
unfoldable pub expire_each_delivery :
    (ℕ → Env) → List DeliveryOffer → ℕ → DeliveryDb → Result Thrown ℕ × DeliveryDb
unfolding expire_due_delivery transaction
expire_each_delivery envs [] expired db = (ok expired, db)
expire_each_delivery envs (offer ∷ offers) expired db =
    let (outcome, db') = transaction (expire_due_delivery (envs 0) offer.id) db in
    elim outcome [
      | ok done ↦ expire_each_delivery (λ n. envs (suc n)) offers (add_expired done expired) db'
      | err e ↦ (err e, db')
    ]

unfoldable pub expire_due_delivery_offers :
    Env → (ℕ → Env) → DeliveryDb → Result Thrown ℕ × DeliveryDb
unfolding due_delivery_offers expire_each_delivery
expire_due_delivery_offers env envs db = expire_each_delivery envs (due_delivery_offers env db) 0 db
