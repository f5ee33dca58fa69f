-- ===== src/Delivery/Repository/Safety.antt =====
-- createDelivery, startMatching, acceptOffer, transitionAssignedDelivery and the sweep of
-- apps/api/src/delivery/delivery.repository.ts keep the invariant of the work states and the
-- reservations.
use gove.Prelude.{
  ◌≡◌, refl, subst, ◌∙◌, ℕ, ◌+◌, Bool, true, false, ◌&&◌, ◌||◌, not, List, [], ◌∷◌, any, Option,
  none, some, ok, arith, ◌==◌, if◌then◌else◌,
}
use gove.Prelude.Text.{Text, text_eq}
use gove.Contracts.{available, reserved}
use gove.Database.{◌>>◌, pure, modify}
use gove.Database.Laws.{
  Keeps, bind-Keeps, if-Keeps, bind_ends, read_ends, gets_end, ok_state, gets-Reads,
  throw_when-Reads, some_or_throw-Reads,
}
use gove.Dispatch.ExpiryPolicy.{DriverReservationState, released}
use gove.Dispatch.Tables.{Thrown, Uuid, Env}
use gove.Delivery.Rows.{
  DeliveryReservation, DeliveryOffer, DeliveryCommand, DeliveryMatchResponse, DeliveryDb,
  DeliveryWork, delivery_offer_state_eq, DeliveryOfferState, match_response,
}
use gove.Delivery.Repository.{
  expired_delivery_offer, DeliveryOfferRow, expire_delivery_offer, is_active_reservation,
}
use gove.Delivery.Repository.Exclusive.{cons-OneActive, count-any}
use gove.Delivery.Repository.Validity.{
  IsSound, IsReserved, Leaves, Leaves-Keeps, leaving, reading, finished, random_uuid-Keeps,
  update_deliveries-Leaves, update_delivery_offers-Leaves, append_transition-Leaves,
  append_delivery_outbox_event-Leaves, persist_delivery_receipt-Leaves,
  check_delivery_receipt-Reads, replay_or-Keeps, update_delivery_reservations-Keeps,
  update_bound_delivery-Keeps, update_free_delivery-Keeps,
}
use gove.Delivery.Repository.Create.{
  CreateDeliveryRecord, create_delivery, store_delivery, new_delivery,
}
use gove.Delivery.Repository.Matching.{
  NearbyDriver, StartDeliveryMatchingInput, insert_delivery_reservation, new_delivery_reservation,
  insert_delivery_offer, reserve_nearby, reserve_each, reserve_offer, exhaust_delivery,
  respond_delivery_match, answer_delivery_match, match_delivery, start_delivery_matching,
}

modify_deliveries-Leaves :
    (env : Env) (input : CreateDeliveryRecord) (id : Uuid)
    → Leaves (modify λ db. record db { deliveries = new_delivery env input id ∷ db.deliveries })
modify_deliveries-Leaves env input id s a s' h = ground arith

store_delivery-Keeps :
    (env : Env) (input : CreateDeliveryRecord) → Keeps IsSound (store_delivery env input)
unfolding store_delivery
store_delivery-Keeps env input = bind-Keeps _ _ (random_uuid-Keeps env) λ id.
    leaving _ _ (modify_deliveries-Leaves env input id) λ u.
      leaving _ _ (append_transition-Leaves _) λ u.
        leaving _ _ (append_delivery_outbox_event-Leaves _ _ _)
          λ u. leaving _ _ (persist_delivery_receipt-Leaves _ _ _ _ _) λ u. finished _

pub create_delivery-Keeps :
    (env : Env) (input : CreateDeliveryRecord) → Keeps IsSound (create_delivery env input)
unfolding create_delivery
create_delivery-Keeps env input =
    reading _ _ (check_delivery_receipt-Reads _ _ _ _)
      λ receipt. replay_or-Keeps receipt _ (store_delivery-Keeps env input)

-- The INSERT adds a reservation only where neither the Driver nor the delivery has an ACTIVE one.
abbrev conflicts : Uuid → Uuid → DeliveryReservation → Bool
conflicts d id r =
    is_active_reservation r && (text_eq r.driver_user_id d || text_eq r.delivery_id id)

cons-IsReserved :
    (r : DeliveryReservation) (rs : List DeliveryReservation)
    → any (conflicts r.driver_user_id r.delivery_id) rs ≡ false
    → IsReserved rs
    → IsReserved (r ∷ rs)
cons-IsReserved r rs h v = (
  cons-OneActive is_active_reservation (λ x. x.driver_user_id) r rs
      (count-any is_active_reservation (λ x. x.driver_user_id)
        (conflicts r.driver_user_id r.delivery_id) r.driver_user_id rs (λ x e. ground (arith, e)) h)
      v.0,
  cons-OneActive is_active_reservation (λ x. x.delivery_id) r rs
      (count-any is_active_reservation (λ x. x.delivery_id)
        (conflicts r.driver_user_id r.delivery_id) r.delivery_id rs (λ x e. ground (arith, e)) h)
      v.1,
)

insert_known :
    (env : Env) (rid d id : Uuid) (taken : Bool) (t : DeliveryDb) (a : Option DeliveryReservation)
    (s' : DeliveryDb)
    → any (conflicts d id) t.reservations ≡ taken
    → (if taken
          then pure {E = Thrown} none
          else (modify λ db. record db {
            reservations = new_delivery_reservation env rid d id ∷ db.reservations;
          })
            >> pure (some (new_delivery_reservation env rid d id)))
        t
      ≡ ok (a, s')
    → IsSound t
    → IsSound s'
insert_known env rid d id true t a s' e h v = subst IsSound (ok_state h) v
insert_known env rid d id false t a s' e h v = bind_ends _ _ h λ u x e1 e2.
    subst IsSound (ok_state e1 ∙ ok_state e2)
      (v.0, cons-IsReserved (new_delivery_reservation env rid d id) t.reservations e v.1)

insert_delivery_reservation-Keeps :
    (env : Env) (d id : Uuid) → Keeps IsSound (insert_delivery_reservation env d id)
unfolding insert_delivery_reservation
insert_delivery_reservation-Keeps env d id s a s' h v = bind_ends _ _ h λ rid t e h.
    read_ends _ _ (gets-Reads _) h λ taken e2 h.
      insert_known env rid d id taken t a s'
        (gets_end (λ db. any (conflicts d id) db.reservations) t e2).0 h
        (random_uuid-Keeps env s rid t e v)

modify_offers-Leaves :
    (offer : DeliveryOffer) → Leaves (modify λ db. record db { offers = offer ∷ db.offers })
modify_offers-Leaves offer s a s' h = ground arith

insert_delivery_offer-Keeps :
    (env : Env) (r : DeliveryReservation) (version : ℕ)
    → Keeps IsSound (insert_delivery_offer env r version)
unfolding insert_delivery_offer
insert_delivery_offer-Keeps env r version = bind-Keeps _ _ (random_uuid-Keeps env) λ id.
    reading _ _ (gets-Reads _) λ taken.
      reading _ _ (throw_when-Reads _ _) λ u. leaving _ _ (modify_offers-Leaves _) λ u. finished _

reserve_nearby-Keeps :
    (env : Env) (id : Uuid) (version : ℕ) (d : Uuid) (next : DeliveryWork (Option DeliveryOfferRow))
    (r : Option DeliveryReservation)
    → Keeps IsSound next
    → Keeps IsSound (reserve_nearby env id version d next r)
unfolding reserve_nearby
reserve_nearby-Keeps env id version d next none f = f
reserve_nearby-Keeps env id version d next (some r) f =
    bind-Keeps _ _
      (update_free_delivery-Keeps _ env reserved (some id) (λ w h. ground (arith, h)) refl)
      λ row_count.
        if-Keeps (not (row_count == 1)) _ _
          (bind-Keeps _ _ (update_delivery_reservations-Keeps _ env released refl) λ u. f)
          (bind-Keeps _ _ (insert_delivery_offer-Keeps env r version) λ row. finished (some row))

reserve_each-Keeps :
    (env : Env) (id : Uuid) (version : ℕ) (drivers : List NearbyDriver)
    → Keeps IsSound (reserve_each env id version drivers)
unfolding reserve_each
reserve_each-Keeps env id version [] = finished none
reserve_each-Keeps env id version (c ∷ cs) =
    bind-Keeps _ _ (insert_delivery_reservation-Keeps env c.driver_user_id id) λ r.
      reserve_nearby-Keeps env id version c.driver_user_id _ r
        (reserve_each-Keeps env id version cs)

reserve_offer-Keeps :
    (env : Env) (id : Uuid) (version : ℕ) → Keeps IsSound (reserve_offer env id version)
unfolding reserve_offer
reserve_offer-Keeps env id version =
    reading _ _ (gets-Reads _) λ drivers. reserve_each-Keeps env id version drivers

pub exhaust_delivery-Keeps :
    (id : Uuid) (c : DeliveryCommand) (version : ℕ) (correlation : Text)
    → Keeps IsSound (exhaust_delivery id c version correlation)
unfolding exhaust_delivery
exhaust_delivery-Keeps id c version correlation = leaving _ _ (update_deliveries-Leaves _ _) λ u.
    leaving _ _ (append_transition-Leaves _)
      λ u. Leaves-Keeps _ (append_delivery_outbox_event-Leaves _ _ _)

respond_delivery_match-Keeps :
    (input : StartDeliveryMatchingInput) (r : DeliveryMatchResponse)
    → Keeps IsSound (respond_delivery_match input r)
unfolding respond_delivery_match
respond_delivery_match-Keeps input r =
    leaving _ _ (persist_delivery_receipt-Leaves _ _ _ _ _) λ u. finished (match_response r)

answer_delivery_match-Keeps :
    (input : StartDeliveryMatchingInput) (version : ℕ) (offer : Option DeliveryOfferRow)
    → Keeps IsSound (answer_delivery_match input version offer)
unfolding answer_delivery_match
answer_delivery_match-Keeps input version (some row) = respond_delivery_match-Keeps input _
answer_delivery_match-Keeps input version none =
    bind-Keeps _ _ (exhaust_delivery-Keeps _ _ _ _) λ u. respond_delivery_match-Keeps input _

match_delivery-Keeps :
    (env : Env) (input : StartDeliveryMatchingInput) → Keeps IsSound (match_delivery env input)
unfolding match_delivery
match_delivery-Keeps env input = reading _ _ (gets-Reads _) λ found.
    reading _ _ (some_or_throw-Reads _ _) λ delivery. reading _ _ (throw_when-Reads _ _) λ u.
      leaving _ _ (update_deliveries-Leaves _ _) λ n. leaving _ _ (append_transition-Leaves _) λ u.
        leaving _ _ (append_delivery_outbox_event-Leaves _ _ _) λ u.
          bind-Keeps _ _ (reserve_offer-Keeps env input.delivery_id (delivery.version + 1))
            (answer_delivery_match-Keeps input (delivery.version + 1))

pub start_delivery_matching-Keeps :
    (env : Env) (input : StartDeliveryMatchingInput)
    → Keeps IsSound (start_delivery_matching env input)
unfolding start_delivery_matching
start_delivery_matching-Keeps env input =
    reading _ _ (check_delivery_receipt-Reads _ _ _ _)
      λ receipt. replay_or-Keeps receipt _ (match_delivery-Keeps env input)

pub expire_delivery_offer-Keeps :
    (env : Env) (offer : DeliveryOffer) → Keeps IsSound (expire_delivery_offer env offer)
unfolding expire_delivery_offer
expire_delivery_offer-Keeps env offer =
    leaving _ _
      (update_delivery_offers-Leaves
        (λ o. text_eq o.id offer.id && delivery_offer_state_eq o.status DeliveryOfferState.pending)
        (expired_delivery_offer env))
      λ u.
        bind-Keeps _ _
          (update_delivery_reservations-Keeps _ env DriverReservationState.expired refl)
          λ u.
            bind-Keeps _ _
              (update_bound_delivery-Keeps _ env available none offer.delivery_id
                (λ w h. ground (arith, h)) refl)
              λ n. finished tt
