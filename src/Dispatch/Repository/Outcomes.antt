-- ===== src/Dispatch/Repository/Outcomes.antt =====
-- The safety of the commands of apps/api/src/dispatch/dispatch.repository.ts: whatever commands run,
-- in whatever order, no Driver is promised twice. Here: acceptOffer and the sweep.
use gove.Prelude.{some, arith, refl, ℕ, ◌+◌, Bool, true, false, not, Option, none, is_some}
use gove.Contracts.{to_pickup, TripOfferState, accepted, trip_state_eq, offer_state_eq, matching}
use gove.Database.{◌>>=◌}
use gove.Database.Laws.{Keeps, bind-Keeps, if-Keeps}
use gove.Dispatch.ExpiryPolicy.{committed, evaluate_dispatch_expiry}
use gove.Dispatch.Tables.{
  Uuid, Reservation, TripOfferResponse, Env, offer_response, offer_already_resolved, expiry_error,
}
use gove.Dispatch.Repository.{OfferRow, eq_uuid_option, to_offer_response}
use gove.Dispatch.Repository.Matching.{reassignment_input}
use gove.Dispatch.Repository.Offers.{
  answer_row, OfferCommandInput, succeeded, refused, answer_pending, respond_accept, accepted_row,
  insert_assignment, accept_pending, answer_acceptance, accept_offer_command,
}
use gove.Dispatch.Repository.Expiry.{
  expiry_input, expire_due, expire_locked, expire_due_offer, DueOffer, rematch, expire_matching,
  is_release,
}
use gove.Dispatch.Repository.Validity.{
  IsValid, Frames, gets-Frames, throw_when-Frames, some_or_throw-Frames, update_trips-Frames,
  update_bound-Keeps, append_trip_transition-Frames, append_trip_outbox-Frames,
  persist_receipt-Frames, update_offers-Keeps, update_reservations-Keeps,
}
use gove.Dispatch.Repository.Invariant.{or_throw-Frames, reserve_next_offer-Keeps}
use gove.Dispatch.Repository.Safety.{
  framed, ended, check_receipt-Frames, answer_or-Keeps, exhaust-Keeps, answer_reserved-Keeps,
  expire_offer_row-Keeps,
}

insert_assignment-Frames :
    (env : Env) (input : OfferCommandInput) (t : Uuid) → Frames (insert_assignment env input t)
unfolding insert_assignment ◌>>=◌
insert_assignment-Frames env input t s a s' h = ground arith

respond_accept-Keeps :
    (input : OfferCommandInput) (r : TripOfferResponse) → Keeps IsValid (respond_accept input r)
unfolding respond_accept
respond_accept-Keeps input r =
    framed _ _ (persist_receipt-Frames _ _ _ _ _) λ u. ended (succeeded (offer_response r))

accept_pending-Keeps :
    (env : Env) (input : OfferCommandInput) (row : OfferRow) (r : Reservation)
    → Keeps IsValid (accept_pending env input row r)
unfolding accept_pending
accept_pending-Keeps env input row r =
    bind-Keeps _ _
      (update_offers-Keeps _ (accepted_row env input (row.trip_version + 1)) λ o. (refl, refl))
      λ u. bind-Keeps _ _ (update_reservations-Keeps _ env committed refl) λ u.
        bind-Keeps _ _
          (update_bound-Keeps _ env to_pickup (some row.offer.trip_id) row.offer.trip_id
            (λ w h. ground (arith, h)) refl)
          λ n. framed _ _ (throw_when-Frames _ _) λ u.
            framed _ _ (insert_assignment-Frames env input row.offer.trip_id) λ u.
              framed _ _ (update_trips-Frames _ _) λ n.
                framed _ _ (append_trip_transition-Frames _) λ l.
                  framed _ _ (append_trip_outbox-Frames _ _ _) λ e. respond_accept-Keeps input _

answer_acceptance-Keeps :
    (env : Env) (input : OfferCommandInput) → Keeps IsValid (answer_acceptance env input)
unfolding answer_acceptance answer_row answer_pending
answer_acceptance-Keeps env input = framed _ _ (gets-Frames _) λ found.
    framed _ _ (some_or_throw-Frames _ _) λ row. framed _ _ (throw_when-Frames _ _) λ u.
      if-Keeps (offer_state_eq row.offer.status accepted) _ _
        (if-Keeps (eq_uuid_option row.offer.acceptance_idempotency_key input.idempotency_key) _ _
          (ended (succeeded (offer_response (to_offer_response row))))
          (ended (refused offer_already_resolved)))
        (if-Keeps (not (offer_state_eq row.offer.status TripOfferState.pending)) _ _
          (ended (refused offer_already_resolved))
          (framed _ _ (gets-Frames _)
            (answer_reserved-Keeps env input row _ (accept_pending-Keeps env input row))))

pub accept_offer_command-Keeps :
    (env : Env) (input : OfferCommandInput) → Keeps IsValid (accept_offer_command env input)
unfolding accept_offer_command
accept_offer_command-Keeps env input =
    framed _ _ (check_receipt-Frames _ _ _ _)
      λ receipt. answer_or-Keeps receipt _ _ (answer_acceptance-Keeps env input)

rematch-Keeps : (env : Env) (due : DueOffer) (version : ℕ) → Keeps IsValid (rematch env due version)
unfolding rematch
rematch-Keeps env due version =
    bind-Keeps _ _
      (reserve_next_offer-Keeps env
        (reassignment_input due.trip.id due.trip.state version due.offer.driver_user_id))
      λ offer.
        if-Keeps (is_some offer) _ _ (ended true)
          (bind-Keeps _ _ (exhaust-Keeps _ _ _ _ _) λ v. ended true)

expire_matching-Keeps :
    (env : Env) (due : DueOffer) (may_retry : Bool)
    → Keeps IsValid (expire_matching env due may_retry)
unfolding expire_matching
expire_matching-Keeps env due may_retry = framed _ _ (update_trips-Frames _ _) λ u.
    framed _ _ (append_trip_transition-Frames _) λ l.
      framed _ _ (append_trip_outbox-Frames _ _ _) λ e.
        if-Keeps (not may_retry) _ _ (ended true) (rematch-Keeps env due (due.trip.version + 1))

expire_locked-Keeps : (env : Env) (due : DueOffer) → Keeps IsValid (expire_locked env due)
unfolding expire_locked
expire_locked-Keeps env due =
    framed _ _ (or_throw-Frames (evaluate_dispatch_expiry (expiry_input env due)) expiry_error)
      λ decision. if-Keeps (not (is_release decision)) _ _ (ended false) (
        bind-Keeps _ _ (expire_offer_row-Keeps env _ _ _) λ u.
          if-Keeps (not (trip_state_eq due.trip.state matching)) _ _
            (framed _ _ (append_trip_outbox-Frames _ _ _) λ e. ended true)
            (expire_matching-Keeps env due decision.may_retry_matching))

expire_due-Keeps : (env : Env) (locked : Option DueOffer) → Keeps IsValid (expire_due env locked)
unfolding expire_due
expire_due-Keeps env none = ended false
expire_due-Keeps env (some due) = expire_locked-Keeps env due

pub expire_due_offer-Keeps : (env : Env) (id : Uuid) → Keeps IsValid (expire_due_offer env id)
unfolding expire_due_offer
expire_due_offer-Keeps env id = framed _ _ (gets-Frames _) (expire_due-Keeps env)
