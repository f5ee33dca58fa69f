-- ===== src/Delivery/Repository/Durable/Operations.antt =====
-- Every operation of apps/api/src/delivery/delivery.repository.ts leaves the receipts that there are.
use gove.Prelude.{ℕ, Bool, List, [], ◌∷◌, Option, none, some, ap, arith}
use gove.Prelude.Text.{Text}
use gove.Database.{◌>>=◌}
use gove.Database.Laws.{ok_state}
use gove.Dispatch.Tables.{Uuid, Env}
use gove.Dispatch.Repository.{random_uuid}
use gove.Delivery.Rows.{
  DeliveryReservation, DeliveryOffer, DeliveryAssignment, DeliveryAction, DeliveryCommand,
  DeliveryMatchResponse, DeliveryWork, arrive_at_pickup, confirm_pickup_custody, complete_delivery,
}
use gove.Delivery.Repository.{DeliveryOfferRow, on_shared}
use gove.Delivery.Repository.Create.{CreateDeliveryRecord, create_delivery, store_delivery}
use gove.Delivery.Repository.Matching.{
  NearbyDriver, StartDeliveryMatchingInput, insert_delivery_reservation, insert_delivery_offer,
  reserve_nearby, reserve_each, reserve_offer, exhaust_delivery, respond_delivery_match,
  answer_delivery_match, match_delivery, start_delivery_matching,
}
use gove.Delivery.Repository.Offers.{
  AcceptDeliveryInput, insert_delivery_assignment, accept_rows, refuse_late,
  accept_pending_delivery, accept_own, accept_delivery_offer, expire_delivery,
  expire_found_delivery, expire_due_delivery,
}
use gove.Delivery.Repository.Assigned.{
  DeliveryTransitionInput, AssignedDelivery, update_delivery_assignments, insert_proof,
  record_action, advance_delivery, transition_delivery, transition_assigned_delivery,
}
use gove.Delivery.Repository.Durable.{
  IsDurable, on_shared-IsDurable, same-IsDurable, pure-IsDurable, bind-IsDurable,
  expire_delivery_offer-IsDurable, delivery_durable_rules,
}

pub store_delivery-IsDurable :
    (env : Env) (input : CreateDeliveryRecord) → IsDurable (store_delivery env input)
unfolding store_delivery
store_delivery-IsDurable env input =
    bind-IsDurable _ _ (on_shared-IsDurable (random_uuid env)) λ id.
      bind-IsDurable _ _ (same-IsDurable _ λ s b s' h. ap (λ db. db.receipts) (ok_state h))
        λ u. search delivery_durable_rules depth 40 fits 5000

pub create_delivery-IsDurable :
    (env : Env) (input : CreateDeliveryRecord) → IsDurable (create_delivery env input)
unfolding create_delivery
create_delivery-IsDurable env input =
    search (delivery_durable_rules, store_delivery-IsDurable) depth 40 fits 5000

pub insert_delivery_reservation-IsDurable :
    (env : Env) (d t : Uuid) → IsDurable (insert_delivery_reservation env d t)
unfolding insert_delivery_reservation on_shared ◌>>=◌
insert_delivery_reservation-IsDurable env d t = same-IsDurable _ λ s b s' h. ground arith

pub insert_delivery_offer-IsDurable :
    (env : Env) (r : DeliveryReservation) (version : ℕ)
    → IsDurable (insert_delivery_offer env r version)
unfolding insert_delivery_offer on_shared ◌>>=◌
insert_delivery_offer-IsDurable env r version = same-IsDurable _ λ s b s' h. ground arith

reserve_nearby-IsDurable :
    (env : Env) (id : Uuid) (version : ℕ) (d : Uuid) (next : DeliveryWork (Option DeliveryOfferRow))
    (r : Option DeliveryReservation)
    → IsDurable next
    → IsDurable (reserve_nearby env id version d next r)
unfolding reserve_nearby
reserve_nearby-IsDurable env id version d next none f = f
reserve_nearby-IsDurable env id version d next (some r) f =
    search (delivery_durable_rules, insert_delivery_offer-IsDurable) depth 40 fits 5000

reserve_each-IsDurable :
    (env : Env) (id : Uuid) (version : ℕ) (drivers : List NearbyDriver)
    → IsDurable (reserve_each env id version drivers)
unfolding reserve_each
reserve_each-IsDurable env id version [] = pure-IsDurable none
reserve_each-IsDurable env id version (d ∷ ds) =
    bind-IsDurable _ _ (insert_delivery_reservation-IsDurable env d.driver_user_id id) λ r.
      reserve_nearby-IsDurable env id version d.driver_user_id _ r
        (reserve_each-IsDurable env id version ds)

pub reserve_offer-IsDurable :
    (env : Env) (id : Uuid) (version : ℕ) → IsDurable (reserve_offer env id version)
unfolding reserve_offer
reserve_offer-IsDurable env id version =
    search (delivery_durable_rules, reserve_each-IsDurable) depth 40 fits 5000

pub exhaust_delivery-IsDurable :
    (id : Uuid) (c : DeliveryCommand) (version : ℕ) (correlation_id : Text)
    → IsDurable (exhaust_delivery id c version correlation_id)
unfolding exhaust_delivery
exhaust_delivery-IsDurable id c version correlation_id =
    search delivery_durable_rules depth 40 fits 5000

pub respond_delivery_match-IsDurable :
    (input : StartDeliveryMatchingInput) (r : DeliveryMatchResponse)
    → IsDurable (respond_delivery_match input r)
unfolding respond_delivery_match
respond_delivery_match-IsDurable input r = search delivery_durable_rules depth 40 fits 5000

pub answer_delivery_match-IsDurable :
    (input : StartDeliveryMatchingInput) (version : ℕ) (offer : Option DeliveryOfferRow)
    → IsDurable (answer_delivery_match input version offer)
unfolding answer_delivery_match
answer_delivery_match-IsDurable input version none =
    search (delivery_durable_rules, exhaust_delivery-IsDurable, respond_delivery_match-IsDurable)
      depth 40 fits 5000
answer_delivery_match-IsDurable input version (some row) =
    search (delivery_durable_rules, respond_delivery_match-IsDurable) depth 40 fits 5000

pub match_delivery-IsDurable :
    (env : Env) (input : StartDeliveryMatchingInput) → IsDurable (match_delivery env input)
unfolding match_delivery
match_delivery-IsDurable env input =
    search (delivery_durable_rules, reserve_offer-IsDurable, answer_delivery_match-IsDurable) depth
      40 fits 5000

pub start_delivery_matching-IsDurable :
    (env : Env) (input : StartDeliveryMatchingInput) → IsDurable (start_delivery_matching env input)
unfolding start_delivery_matching
start_delivery_matching-IsDurable env input =
    search (delivery_durable_rules, match_delivery-IsDurable) depth 40 fits 5000

pub insert_delivery_assignment-IsDurable :
    (env : Env) (input : AcceptDeliveryInput) (offer : DeliveryOffer)
    → IsDurable (insert_delivery_assignment env input offer)
unfolding insert_delivery_assignment on_shared ◌>>=◌
insert_delivery_assignment-IsDurable env input offer = same-IsDurable _ λ s b s' h. ground arith

pub accept_rows-IsDurable :
    (env : Env) (input : AcceptDeliveryInput) (row : DeliveryOfferRow) (r : DeliveryReservation)
    → IsDurable (accept_rows env input row r)
unfolding accept_rows
accept_rows-IsDurable env input row r =
    search (delivery_durable_rules, insert_delivery_assignment-IsDurable) depth 40 fits 5000

pub refuse_late-IsDurable :
    (env : Env) (offer : DeliveryOffer) (late : Bool) → IsDurable (refuse_late env offer late)
unfolding refuse_late
refuse_late-IsDurable env offer late =
    search (delivery_durable_rules, expire_delivery_offer-IsDurable) depth 40 fits 5000

pub accept_pending_delivery-IsDurable :
    (env : Env) (input : AcceptDeliveryInput) (row : DeliveryOfferRow)
    → IsDurable (accept_pending_delivery env input row)
unfolding accept_pending_delivery
accept_pending_delivery-IsDurable env input row =
    search (delivery_durable_rules, accept_rows-IsDurable, refuse_late-IsDurable) depth 40 fits 5000

pub accept_delivery_offer-IsDurable :
    (env : Env) (input : AcceptDeliveryInput) → IsDurable (accept_delivery_offer env input)
unfolding accept_delivery_offer accept_own
accept_delivery_offer-IsDurable env input =
    search (delivery_durable_rules, accept_pending_delivery-IsDurable) depth 40 fits 5000

pub expire_delivery-IsDurable :
    (env : Env) (row : DeliveryOfferRow) (correlation_id : Text)
    → IsDurable (expire_delivery env row correlation_id)
unfolding expire_delivery
expire_delivery-IsDurable env row correlation_id =
    search (delivery_durable_rules, expire_delivery_offer-IsDurable, exhaust_delivery-IsDurable)
      depth 40 fits 5000

pub expire_found_delivery-IsDurable :
    (env : Env) (found : Option DeliveryOfferRow) → IsDurable (expire_found_delivery env found)
unfolding expire_found_delivery
expire_found_delivery-IsDurable env none = search delivery_durable_rules depth 40 fits 5000
expire_found_delivery-IsDurable env (some row) =
    search (delivery_durable_rules, expire_delivery-IsDurable) depth 40 fits 5000

pub expire_due_delivery-IsDurable : (env : Env) (id : Uuid) → IsDurable (expire_due_delivery env id)
unfolding expire_due_delivery
expire_due_delivery-IsDurable env id =
    search (delivery_durable_rules, expire_found_delivery-IsDurable) depth 40 fits 5000

pub update_delivery_assignments-IsDurable :
    (p : DeliveryAssignment → Bool) (c : DeliveryAssignment → DeliveryAssignment)
    → IsDurable (update_delivery_assignments p c)
unfolding update_delivery_assignments
update_delivery_assignments-IsDurable p c = same-IsDurable _ λ s b s' h. ground arith

pub insert_proof-IsDurable :
    (env : Env) (input : DeliveryTransitionInput) (d a : Uuid)
    → IsDurable (insert_proof env input d a)
unfolding insert_proof on_shared ◌>>=◌
insert_proof-IsDurable env input d a = same-IsDurable _ λ s b s' h. ground arith

pub record_action-IsDurable :
    (env : Env) (input : DeliveryTransitionInput) (d a : Uuid) (action : DeliveryAction)
    → IsDurable (record_action env input d a action)
unfolding record_action
record_action-IsDurable env input d a arrive_at_pickup =
    search delivery_durable_rules depth 40 fits 5000
record_action-IsDurable env input d a confirm_pickup_custody =
    search (delivery_durable_rules, update_delivery_assignments-IsDurable) depth 40 fits 5000
record_action-IsDurable env input d a complete_delivery =
    search (delivery_durable_rules, update_delivery_assignments-IsDurable, insert_proof-IsDurable)
      depth 40 fits 5000

pub advance_delivery-IsDurable :
    (env : Env) (input : DeliveryTransitionInput) (row : AssignedDelivery)
    → IsDurable (advance_delivery env input row)
unfolding advance_delivery
advance_delivery-IsDurable env input row =
    search (delivery_durable_rules, record_action-IsDurable) depth 40 fits 5000

pub transition_delivery-IsDurable :
    (env : Env) (input : DeliveryTransitionInput) → IsDurable (transition_delivery env input)
unfolding transition_delivery
transition_delivery-IsDurable env input =
    search (delivery_durable_rules, advance_delivery-IsDurable) depth 40 fits 5000

pub transition_assigned_delivery-IsDurable :
    (env : Env) (input : DeliveryTransitionInput)
    → IsDurable (transition_assigned_delivery env input)
unfolding transition_assigned_delivery
transition_assigned_delivery-IsDurable env input =
    search (delivery_durable_rules, transition_delivery-IsDurable) depth 40 fits 5000
