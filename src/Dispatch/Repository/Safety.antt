-- ===== src/Dispatch/Repository/Safety.antt =====
-- The safety of the commands of apps/api/src/dispatch/dispatch.repository.ts: whatever commands run,
-- in whatever order, no Driver is promised twice. Here: startMatching and rejectOffer.
use gove.Prelude.{refl, ℕ, ◌+◌, not, Option, none, some, arith}
use gove.Prelude.Text.{Text}
use gove.Contracts.{
  available, requested, TripOfferState, rejected, trip_state_eq, offer_state_eq, matching,
}
use gove.Database.{◌>>=◌, pure}
use gove.Database.Laws.{Keeps, bind-Keeps, if-Keeps}
use gove.Dispatch.ExpiryPolicy.{DriverReservationState, released, reservation_state_eq}
use gove.Dispatch.Tables.{
  Uuid, Trip, Reservation, Command, DispatchMatchResponse, DispatchOfferRejectionResponse,
  ResponseBody, Operation, Env, Thrown, Work, match_response, rejection_response, offer_expired,
  offer_already_resolved,
}
use gove.Dispatch.Repository.{OfferRow, check_receipt, answer_or, resolved_offer, expire_offer_row}
use gove.Dispatch.Repository.Matching.{
  first_input, reassignment_input, ReserveInput, StartMatchingInput, enter_matching, exhaust,
  respond_match, answer_match, match_trip, start_matching, pending_or_reserve,
}
use gove.Dispatch.Repository.Offers.{
  OfferCommandInput, OfferResult, succeeded, refused, is_late, reject_rows, respond_reject,
  answer_reject, reject_pending, answer_reserved, answer_pending, answer_rejection, reject_offer,
}
use gove.Dispatch.Repository.Validity.{
  IsValid, Frames, Frames-Keeps, pure-Frames, gets-Frames, throw_when-Frames, some_or_throw-Frames,
  update_trips-Frames, update_bound-Keeps, append_trip_transition-Frames, append_trip_outbox-Frames,
  persist_receipt-Frames, update_offers-Keeps, update_reservations-Keeps,
}
use gove.Dispatch.Repository.Invariant.{reserve_next_offer-Keeps}

-- A step that leaves the Offers and reservations, and the rest of the command after it.
pub framed :
    {A B : Type 0} (work : Work A) (next : A → Work B)
    → Frames work
    → ((a : A) → Keeps IsValid (next a))
    → Keeps IsValid (work >>= next)
framed work next f g = bind-Keeps work next (Frames-Keeps work f) g

pub ended : {A : Type 0} (a : A) → Keeps {E = Thrown} IsValid (pure a)
ended a = Frames-Keeps (pure a) (pure-Frames a)

pub check_receipt-Frames :
    (actor : Uuid) (o : Operation) (key fp : Text) → Frames (check_receipt actor o key fp)
unfolding check_receipt ◌>>=◌
check_receipt-Frames actor o key fp s a s' h = ground arith

pub answer_or-Keeps :
    {A : Type 0} (receipt : Option ResponseBody) (answer : ResponseBody → A) (rest : Work A)
    → Keeps IsValid rest
    → Keeps IsValid (answer_or receipt answer rest)
answer_or-Keeps (some r) answer rest f s a s' h v = ended (answer r) s a s' h v
answer_or-Keeps none answer rest f s a s' h v = f s a s' h v

pub exhaust-Keeps :
    (t : Uuid) (actor : Option Uuid) (c : Command) (version : ℕ) (id : Text)
    → Keeps IsValid (exhaust t actor c version id)
unfolding exhaust
exhaust-Keeps t actor c version id = framed _ _ (update_trips-Frames _ _) λ u.
    framed _ _ (append_trip_transition-Frames _)
      λ l. framed _ _ (append_trip_outbox-Frames _ _ _) λ e. ended (version + 1)

respond_match-Keeps :
    (input : StartMatchingInput) (r : DispatchMatchResponse) → Keeps IsValid (respond_match input r)
unfolding respond_match
respond_match-Keeps input r =
    framed _ _ (persist_receipt-Frames _ _ _ _ _) λ u. ended (match_response r)

answer_match-Keeps :
    (input : StartMatchingInput) (t : Uuid) (version : ℕ) (offer : Option OfferRow)
    → Keeps IsValid (answer_match input t version offer)
unfolding answer_match
answer_match-Keeps input t version (some row) = respond_match-Keeps input _
answer_match-Keeps input t version none =
    bind-Keeps _ _ (exhaust-Keeps _ _ _ _ _) λ v. respond_match-Keeps input _

enter_matching-Keeps :
    (input : StartMatchingInput) (trip : Trip) → Keeps IsValid (enter_matching input trip)
unfolding enter_matching
enter_matching-Keeps input trip =
    if-Keeps (not (trip_state_eq trip.state requested)) _ _ (ended trip.version) (
      framed _ _ (update_trips-Frames _ _) λ u.
        framed _ _ (append_trip_transition-Frames _)
          λ l. framed _ _ (append_trip_outbox-Frames _ _ _) λ e. ended (trip.version + 1))

pending_or_reserve-Keeps :
    (env : Env) (input : ReserveInput) (pending : Option OfferRow)
    → Keeps IsValid (pending_or_reserve env input pending)
unfolding pending_or_reserve
pending_or_reserve-Keeps env input (some row) = ended (some row)
pending_or_reserve-Keeps env input none = reserve_next_offer-Keeps env input

match_trip-Keeps : (env : Env) (input : StartMatchingInput) → Keeps IsValid (match_trip env input)
unfolding match_trip
match_trip-Keeps env input = framed _ _ (gets-Frames _) λ found.
    framed _ _ (some_or_throw-Frames _ _) λ trip. framed _ _ (throw_when-Frames _ _) λ u.
      bind-Keeps _ _ (enter_matching-Keeps input trip) λ version.
        framed _ _ (gets-Frames _) λ pending.
          bind-Keeps _ _ (pending_or_reserve-Keeps env (first_input trip.id version) pending)
            (answer_match-Keeps input trip.id version)

pub start_matching-Keeps :
    (env : Env) (input : StartMatchingInput) → Keeps IsValid (start_matching env input)
unfolding start_matching
start_matching-Keeps env input =
    framed _ _ (check_receipt-Frames _ _ _ _)
      λ receipt. answer_or-Keeps receipt _ _ (match_trip-Keeps env input)

reject_rows-Keeps :
    (env : Env) (input : OfferCommandInput) (row : OfferRow) (r : Reservation)
    → Keeps IsValid (reject_rows env input row r)
unfolding reject_rows
reject_rows-Keeps env input row r =
    bind-Keeps _ _ (update_offers-Keeps _ (resolved_offer env rejected) λ o. (refl, refl)) λ u.
      bind-Keeps _ _ (update_reservations-Keeps _ env released refl) λ u.
        bind-Keeps _ _
          (update_bound-Keeps _ env available none row.offer.trip_id (λ w h. ground (arith, h))
            refl)
          λ n. framed _ _ (throw_when-Frames _ _) λ u. framed _ _ (update_trips-Frames _ _) λ n.
            framed _ _ (throw_when-Frames _ _) λ u.
              framed _ _ (append_trip_transition-Frames _)
                λ l. framed _ _ (append_trip_outbox-Frames _ _ _) λ e. ended (row.trip_version + 1)

respond_reject-Keeps :
    (input : OfferCommandInput) (r : DispatchOfferRejectionResponse)
    → Keeps IsValid (respond_reject input r)
unfolding respond_reject
respond_reject-Keeps input r =
    framed _ _ (persist_receipt-Frames _ _ _ _ _) λ u. ended (succeeded (rejection_response r))

answer_reject-Keeps :
    (input : OfferCommandInput) (row : OfferRow) (version : ℕ) (offer : Option OfferRow)
    → Keeps IsValid (answer_reject input row version offer)
unfolding answer_reject
answer_reject-Keeps input row version (some reassigned) = respond_reject-Keeps input _
answer_reject-Keeps input row version none =
    bind-Keeps _ _ (exhaust-Keeps _ _ _ _ _) λ v. respond_reject-Keeps input _

pub expire_offer_row-Keeps :
    (env : Env) (offer_id trip_id d : Uuid)
    → Keeps IsValid (expire_offer_row env offer_id trip_id d)
unfolding expire_offer_row
expire_offer_row-Keeps env offer_id trip_id d =
    bind-Keeps _ _
      (update_offers-Keeps _ (resolved_offer env TripOfferState.expired) λ o. (refl, refl))
      λ u. bind-Keeps _ _ (update_reservations-Keeps _ env DriverReservationState.expired refl) λ u.
        bind-Keeps _ _
          (update_bound-Keeps _ env available none trip_id (λ w h. ground (arith, h)) refl)
          λ n. ended tt

pub answer_reserved-Keeps :
    (env : Env) (input : OfferCommandInput) (row : OfferRow)
    (decide : Reservation → Work OfferResult)
    → ((r : Reservation) → Keeps IsValid (decide r))
    → (found : Option Reservation) → Keeps IsValid (answer_reserved env input row decide found)
unfolding answer_reserved
answer_reserved-Keeps env input row decide f none = ended (refused offer_already_resolved)
answer_reserved-Keeps env input row decide f (some r) =
    if-Keeps (not (reservation_state_eq r.status DriverReservationState.active)) _ _
      (ended (refused offer_already_resolved))
      (if-Keeps (is_late env r row.offer) _ _
        (bind-Keeps _ _ (expire_offer_row-Keeps env _ _ _) λ u. ended (refused offer_expired))
        (if-Keeps (not (trip_state_eq row.trip_state matching)) _ _
          (ended (refused offer_already_resolved)) (f r)))

reject_pending-Keeps :
    (env : Env) (input : OfferCommandInput) (row : OfferRow) (r : Reservation)
    → Keeps IsValid (reject_pending env input row r)
unfolding reject_pending
reject_pending-Keeps env input row r = bind-Keeps _ _ (reject_rows-Keeps env input row r) λ version.
    bind-Keeps _ _
      (reserve_next_offer-Keeps env
        (reassignment_input row.offer.trip_id row.trip_state version input.driver_user_id))
      (answer_reject-Keeps input row version)

answer_rejection-Keeps :
    (env : Env) (input : OfferCommandInput) → Keeps IsValid (answer_rejection env input)
unfolding answer_rejection answer_pending
answer_rejection-Keeps env input = framed _ _ (gets-Frames _) λ found.
    framed _ _ (some_or_throw-Frames _ _) λ row. framed _ _ (throw_when-Frames _ _) λ u.
      if-Keeps (not (offer_state_eq row.offer.status TripOfferState.pending)) _ _
        (ended (refused offer_already_resolved))
        (framed _ _ (gets-Frames _)
          (answer_reserved-Keeps env input row _ (reject_pending-Keeps env input row)))

pub reject_offer-Keeps :
    (env : Env) (input : OfferCommandInput) → Keeps IsValid (reject_offer env input)
unfolding reject_offer
reject_offer-Keeps env input =
    framed _ _ (check_receipt-Frames _ _ _ _)
      λ receipt. answer_or-Keeps receipt _ _ (answer_rejection-Keeps env input)
