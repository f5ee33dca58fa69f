-- ===== src/Delivery/Repository/Outcomes.antt =====
-- acceptOffer, expireDueOffers and transitionAssignedDelivery of
-- apps/api/src/delivery/delivery.repository.ts keep the invariant of the work states and the
-- reservations.
use gove.Delivery.Repository.Reads.{is_active_assignment}
use gove.Prelude.{
  is_some, ◌≡◌, refl, ◌+◌, Bool, true, false, ◌&&◌, ◌||◌, not, ◌∷◌, Option, none, some, arith, ltb,
}
use gove.Prelude.Text.{Text, text_eq}
use gove.Contracts.{to_pickup}
use gove.Database.{modify, throw}
use gove.Database.Laws.{
  Keeps, bind-Keeps, if-Keeps, gets-Reads, throw_when-Reads, some_or_throw-Reads,
}
use gove.Dispatch.ExpiryPolicy.{committed}
use gove.Dispatch.Tables.{Uuid, Env, Thrown}
use gove.Dispatch.Repository.{eq_uuid_option}
use gove.Dispatch.Repository.Bindings.{binds}
use gove.Delivery.Rows.{
  DeliveryState, DeliveryReservation, DeliveryOffer, DeliveryAssignment, DeliveryAction,
  DeliveryProof, DeliveryOfferState, arrive_at_pickup, confirm_pickup_custody, complete_delivery,
  delivery_state_eq, delivery_offer_state_eq, delivery_response,
}
use gove.Delivery.Repository.{with_delivery_state, DeliveryOfferRow, to_delivery_offer_response}
use gove.Delivery.Repository.Validity.{
  IsSound, Leaves, Leaves-Keeps, leaving, reading, finished, random_uuid-Keeps,
  update_deliveries-Leaves, update_delivery_offers-Leaves, append_transition-Leaves,
  append_delivery_outbox_event-Leaves, persist_delivery_receipt-Leaves,
  check_delivery_receipt-Reads, to_delivery_response-Reads, replay_or-Keeps,
  update_delivery_reservations-Keeps, update_bound_delivery-Keeps,
}
use gove.Delivery.Repository.Safety.{expire_delivery_offer-Keeps, exhaust_delivery-Keeps}
use gove.Delivery.Repository.Offers.{
  accepted_delivery_offer, AcceptDeliveryInput, insert_delivery_assignment, accept_rows,
  refuse_late, is_delivery_late, accept_pending_delivery, accept_own, accept_delivery_offer,
  accepted_response, expire_delivery, expire_found_delivery, expire_due_delivery,
}
use gove.Delivery.Repository.Assigned.{
  confirmed_assignment, completed_assignment, DeliveryTransitionInput, AssignedDelivery,
  delivery_transition_policy, update_delivery_assignments, insert_proof, record_action,
  kept_delivery, advance_delivery, transition_delivery, transition_assigned_delivery,
}

modify_assignments-Leaves :
    (a : DeliveryAssignment) → Leaves (modify λ db. record db { assignments = a ∷ db.assignments })
modify_assignments-Leaves x s a s' h = ground arith

insert_delivery_assignment-Keeps :
    (env : Env) (input : AcceptDeliveryInput) (offer : DeliveryOffer)
    → Keeps IsSound (insert_delivery_assignment env input offer)
unfolding insert_delivery_assignment
insert_delivery_assignment-Keeps env input offer = bind-Keeps _ _ (random_uuid-Keeps env) λ id.
    reading _ _ (gets-Reads _) λ a. reading _ _ (throw_when-Reads _ _) λ u.
      reading _ _ (gets-Reads _) λ b. reading _ _ (throw_when-Reads _ _) λ u.
        reading _ _ (gets-Reads _)
          λ c. reading _ _ (throw_when-Reads _ _) λ u. Leaves-Keeps _ (modify_assignments-Leaves _)

accept_rows-Keeps :
    (env : Env) (input : AcceptDeliveryInput) (row : DeliveryOfferRow) (r : DeliveryReservation)
    → Keeps IsSound (accept_rows env input row r)
unfolding accept_rows
accept_rows-Keeps env input row r =
    bind-Keeps _ _
      (update_bound_delivery-Keeps _ env to_pickup (some row.offer.delivery_id)
        row.offer.delivery_id (λ w h. ground (arith, h)) refl)
      λ n. reading _ _ (throw_when-Reads _ _) λ u.
        bind-Keeps _ _ (update_delivery_reservations-Keeps _ env committed refl) λ u.
          leaving _ _
            (update_delivery_offers-Leaves
              (λ o.
                text_eq o.id input.offer_id
                && delivery_offer_state_eq o.status DeliveryOfferState.pending)
              (accepted_delivery_offer env input (row.delivery_version + 1)))
            λ u. bind-Keeps _ _ (insert_delivery_assignment-Keeps env input row.offer) λ u.
              leaving _ _ (update_deliveries-Leaves _ _) λ n.
                leaving _ _ (append_transition-Leaves _) λ u.
                  leaving _ _ (append_delivery_outbox_event-Leaves _ _ _)
                    λ u. finished (accepted_response row)

throw-Keeps : {A : Type 0} (e : Thrown) → Keeps {A = A} IsSound (throw e)
throw-Keeps e s a s' h v = cc

refuse_late-Keeps :
    (env : Env) (offer : DeliveryOffer) (late : Bool) → Keeps IsSound (refuse_late env offer late)
unfolding refuse_late
refuse_late-Keeps env offer late =
    if-Keeps late _ _ (bind-Keeps _ _ (expire_delivery_offer-Keeps env offer) λ u. throw-Keeps _)
      (finished tt)

accept_pending_delivery-Keeps :
    (env : Env) (input : AcceptDeliveryInput) (row : DeliveryOfferRow)
    → Keeps IsSound (accept_pending_delivery env input row)
unfolding accept_pending_delivery
accept_pending_delivery-Keeps env input row = reading _ _ (gets-Reads _) λ found.
    reading _ _ (some_or_throw-Reads _ _) λ r. reading _ _ (throw_when-Reads _ _) λ u.
      bind-Keeps _ _ (refuse_late-Keeps env row.offer (is_delivery_late env r row.offer))
        λ u. reading _ _ (throw_when-Reads _ _) λ u. accept_rows-Keeps env input row r

accept_own-Keeps :
    (env : Env) (input : AcceptDeliveryInput) (row : DeliveryOfferRow)
    → Keeps IsSound (accept_own env input row)
unfolding accept_own
accept_own-Keeps env input row =
    if-Keeps
      (delivery_offer_state_eq row.offer.status DeliveryOfferState.accepted
        && eq_uuid_option row.offer.acceptance_idempotency_key input.idempotency_key)
      _ _ (finished (to_delivery_offer_response row))
      (reading _ _ (throw_when-Reads _ _) λ u. accept_pending_delivery-Keeps env input row)

pub accept_delivery_offer-Keeps :
    (env : Env) (input : AcceptDeliveryInput) → Keeps IsSound (accept_delivery_offer env input)
unfolding accept_delivery_offer
accept_delivery_offer-Keeps env input = reading _ _ (gets-Reads _) λ found.
    reading _ _ (some_or_throw-Reads _ _)
      λ row. reading _ _ (throw_when-Reads _ _) λ u. accept_own-Keeps env input row

expire_delivery-Keeps :
    (env : Env) (row : DeliveryOfferRow) (correlation : Text)
    → Keeps IsSound (expire_delivery env row correlation)
unfolding expire_delivery
expire_delivery-Keeps env row correlation =
    bind-Keeps _ _ (expire_delivery_offer-Keeps env row.offer) λ u.
      if-Keeps (not (delivery_state_eq row.delivery_state DeliveryState.matching)) _ _
        (finished true) (bind-Keeps _ _ (exhaust_delivery-Keeps _ _ _ _) λ u. finished true)

expire_found_delivery-Keeps :
    (env : Env) (found : Option DeliveryOfferRow) → Keeps IsSound (expire_found_delivery env found)
unfolding expire_found_delivery
expire_found_delivery-Keeps env none = finished false
expire_found_delivery-Keeps env (some row) =
    if-Keeps
      (not (delivery_offer_state_eq row.offer.status DeliveryOfferState.pending)
        || ltb env.date_now row.offer.expires_at)
      _ _ (finished false) (bind-Keeps _ _ (random_uuid-Keeps env) (expire_delivery-Keeps env row))

pub expire_due_delivery-Keeps :
    (env : Env) (offer_id : Uuid) → Keeps IsSound (expire_due_delivery env offer_id)
unfolding expire_due_delivery
expire_due_delivery-Keeps env offer_id =
    reading _ _ (gets-Reads _) λ found. expire_found_delivery-Keeps env found

update_delivery_assignments-Leaves :
    (p : DeliveryAssignment → Bool) (c : DeliveryAssignment → DeliveryAssignment)
    → Leaves (update_delivery_assignments p c)
unfolding update_delivery_assignments
update_delivery_assignments-Leaves p c s a s' h = ground arith

modify_proofs-Leaves :
    (p : DeliveryProof) → Leaves (modify λ db. record db { proofs = p ∷ db.proofs })
modify_proofs-Leaves p s a s' h = ground arith

insert_proof-Keeps :
    (env : Env) (input : DeliveryTransitionInput) (id assignment_id : Uuid)
    → Keeps IsSound (insert_proof env input id assignment_id)
unfolding insert_proof
insert_proof-Keeps env input id assignment_id = bind-Keeps _ _ (random_uuid-Keeps env) λ i.
    reading _ _ (gets-Reads _) λ a. reading _ _ (throw_when-Reads _ _) λ u.
      reading _ _ (gets-Reads _)
        λ b. reading _ _ (throw_when-Reads _ _) λ u. Leaves-Keeps _ (modify_proofs-Leaves _)

record_action-Keeps :
    (env : Env) (input : DeliveryTransitionInput) (id assignment_id : Uuid)
    (action : DeliveryAction)
    → Keeps IsSound (record_action env input id assignment_id action)
unfolding record_action
record_action-Keeps env input id assignment_id arrive_at_pickup = finished tt
record_action-Keeps env input id assignment_id confirm_pickup_custody = Leaves-Keeps _ (
    update_delivery_assignments-Leaves
      (λ a.
        text_eq a.id assignment_id
        && is_active_assignment a.status
        && not (is_some a.pickup_custody_confirmation))
      (confirmed_assignment env input))
record_action-Keeps env input id assignment_id complete_delivery =
    bind-Keeps _ _ (insert_proof-Keeps env input id assignment_id) λ u. Leaves-Keeps _ (
      update_delivery_assignments-Leaves
        (λ a. text_eq a.id assignment_id && is_active_assignment a.status)
        (completed_assignment env))

policy_binds_delivery :
    (action : DeliveryAction) (id : Uuid)
    → binds (delivery_transition_policy action).work_state_to none (kept_delivery action id) ≡ true
unfolding delivery_transition_policy
policy_binds_delivery arrive_at_pickup id = refl
policy_binds_delivery confirm_pickup_custody id = refl
policy_binds_delivery complete_delivery id = refl

advance_delivery-Keeps :
    (env : Env) (input : DeliveryTransitionInput) (row : AssignedDelivery)
    → Keeps IsSound (advance_delivery env input row)
unfolding advance_delivery
advance_delivery-Keeps env input row = leaving _ _ (update_deliveries-Leaves _ _) λ n.
    reading _ _ (throw_when-Reads _ _) λ u.
      bind-Keeps _ _ (record_action-Keeps env input row.delivery.id row.assignment.id input.action)
        λ u.
          bind-Keeps _ _
            (update_bound_delivery-Keeps _ env
              (delivery_transition_policy input.action).work_state_to
              (kept_delivery input.action row.delivery.id) row.delivery.id
              (λ w h. ground (arith, h)) (policy_binds_delivery input.action row.delivery.id))
            λ n. reading _ _ (throw_when-Reads _ _) λ u.
              leaving _ _ (append_transition-Leaves _) λ u.
                leaving _ _ (append_delivery_outbox_event-Leaves _ _ _) λ u.
                  reading _ _
                    (to_delivery_response-Reads (
                      with_delivery_state (delivery_transition_policy input.action).to_state
                        (row.delivery.version + 1) row.delivery))
                    λ r.
                      leaving _ _ (persist_delivery_receipt-Leaves _ _ _ _ _)
                        λ u. finished (delivery_response r)

transition_delivery-Keeps :
    (env : Env) (input : DeliveryTransitionInput) → Keeps IsSound (transition_delivery env input)
unfolding transition_delivery
transition_delivery-Keeps env input = reading _ _ (gets-Reads _) λ found.
    reading _ _ (gets-Reads _) λ exists.
      reading _ _ (some_or_throw-Reads _ _)
        λ row. reading _ _ (throw_when-Reads _ _) λ u. advance_delivery-Keeps env input row

pub transition_assigned_delivery-Keeps :
    (env : Env) (input : DeliveryTransitionInput)
    → Keeps IsSound (transition_assigned_delivery env input)
unfolding transition_assigned_delivery
transition_assigned_delivery-Keeps env input =
    reading _ _ (check_delivery_receipt-Reads _ _ _ _)
      λ receipt. replay_or-Keeps receipt _ (transition_delivery-Keeps env input)
