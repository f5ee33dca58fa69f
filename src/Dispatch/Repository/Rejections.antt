-- ===== src/Dispatch/Repository/Rejections.antt =====
-- Repeated requests in apps/api/src/dispatch/dispatch.repository.ts: the receipts of rejectOffer.
use gove.Prelude.{◌≡◌, subst, not, Option, none, some, ok, ℕ}
use gove.Contracts.{matching, TripOfferState, trip_state_eq, offer_state_eq}
use gove.Dispatch.ExpiryPolicy.{DriverReservationState, reservation_state_eq}
use gove.Database.{pure}
use gove.Database.Laws.{Ensures, bind_ends, ok_state, ok_value, bind-Ensures, if-Ensures}
use gove.Dispatch.Tables.{
  Reservation, DispatchOfferRejectionResponse, ResponseBody, Operation, Db, Env,
  DispatchCommandErrorCode, Thrown, Work, rejection_response, offer_expired, offer_already_resolved,
}
use gove.Dispatch.Repository.{check_receipt, OfferRow, answer_or}
use gove.Dispatch.Repository.Offers.{
  OfferCommandInput, OfferResult, succeeded, refused, reject_offer, answer_rejection,
  answer_pending, answer_reserved, reject_pending, is_late, answer_reject, respond_reject,
}
use gove.Dispatch.Repository.Receipts.{Answers, receipt-Answers, persist_receipt-Answers}

-- What reject_offer promises of an answer that it gives as a success.
abbrev pub RejectAnswered : OfferCommandInput → OfferResult → Db → Type 0
RejectAnswered input (succeeded response) db =
    Answers input.driver_user_id Operation.reject_offer input.idempotency_key
      input.request_fingerprint response db
RejectAnswered input (refused code) db = Unit

respond_reject-Answered :
    (input : OfferCommandInput) (response : DispatchOfferRejectionResponse)
    → Ensures (respond_reject input response) (λ s a s'. RejectAnswered input a s')
unfolding respond_reject
respond_reject-Answered input response s a s' h = bind_ends _ _ h λ u t e e'.
    subst (λ b. RejectAnswered input b s') (ok_value e')
      (subst (RejectAnswered input (succeeded (rejection_response response))) (ok_state e') (
        persist_receipt-Answers input.driver_user_id Operation.reject_offer input.idempotency_key
          input.request_fingerprint (rejection_response response) s u t e))

answer_reject-Answered :
    (input : OfferCommandInput) (row : OfferRow) (version : ℕ) (offer : Option OfferRow)
    → Ensures (answer_reject input row version offer) (λ s a s'. RejectAnswered input a s')
unfolding answer_reject
answer_reject-Answered input row version (some reassigned) = respond_reject-Answered input _
answer_reject-Answered input row version none =
    bind-Ensures _ _ λ exhausted. respond_reject-Answered input _

-- A refusal promises nothing.
refusal-Answered :
    (input : OfferCommandInput) (code : DispatchCommandErrorCode)
    → Ensures {S = Db} {E = Thrown} (pure (refused code)) (λ s a s'. RejectAnswered input a s')
refusal-Answered input code s a s' h = subst (λ b. RejectAnswered input b s') (ok_value h) tt

answer_reserved-Answered :
    (env : Env) (input : OfferCommandInput) (row : OfferRow)
    (decide : Reservation → Work OfferResult)
    → ((r : Reservation) → Ensures (decide r) (λ s a s'. RejectAnswered input a s'))
    → (found : Option Reservation)
    → Ensures (answer_reserved env input row decide found) (λ s a s'. RejectAnswered input a s')
unfolding answer_reserved
answer_reserved-Answered env input row decide f none = refusal-Answered input _
answer_reserved-Answered env input row decide f (some r) =
    if-Ensures (not (reservation_state_eq r.status DriverReservationState.active)) _ _
      (refusal-Answered input offer_already_resolved)
      (if-Ensures (is_late env r row.offer) _ _
        (bind-Ensures _ _ λ done. refusal-Answered input offer_expired)
        (if-Ensures (not (trip_state_eq row.trip_state matching)) _ _
          (refusal-Answered input offer_already_resolved) (f r)))

reject_pending-Answered :
    (env : Env) (input : OfferCommandInput) (row : OfferRow) (r : Reservation)
    → Ensures (reject_pending env input row r) (λ s a s'. RejectAnswered input a s')
unfolding reject_pending
reject_pending-Answered env input row r =
    bind-Ensures _ _
      λ version. bind-Ensures _ _ λ offer. answer_reject-Answered input row version offer

answer_rejection-Answered :
    (env : Env) (input : OfferCommandInput)
    → Ensures (answer_rejection env input) (λ s a s'. RejectAnswered input a s')
unfolding answer_rejection answer_pending
answer_rejection-Answered env input = bind-Ensures _ _ λ found. bind-Ensures _ _ λ row.
    bind-Ensures _ _ λ own.
      if-Ensures (not (offer_state_eq row.offer.status TripOfferState.pending)) _ _
        (refusal-Answered input offer_already_resolved)
        (bind-Ensures _ _ λ reservation.
          answer_reserved-Answered env input row _ (reject_pending-Answered env input row)
            reservation)

answer_or-RejectAnswered :
    (env : Env) (input : OfferCommandInput) (receipt : Option ResponseBody) (s : Db)
    {a : OfferResult} (t : Db) {s' : Db}
    → check_receipt input.driver_user_id Operation.reject_offer input.idempotency_key
        input.request_fingerprint s
      ≡ ok (receipt, t)
    → answer_or receipt (λ response. succeeded response) (answer_rejection env input) t ≡ ok (a, s')
    → RejectAnswered input a s'
answer_or-RejectAnswered env input (some r) s {a} t {s'} e e' =
    subst (λ x. RejectAnswered input a x) (ok_state e')
      (subst (λ x. RejectAnswered input x t) (ok_value e')
        (receipt-Answers input.driver_user_id Operation.reject_offer input.idempotency_key
          input.request_fingerprint s e))
answer_or-RejectAnswered env input none s {a} t {s'} e e' =
    answer_rejection-Answered env input t a s' e'

pub reject_offer-Answered :
    (env : Env) (input : OfferCommandInput)
    → Ensures (reject_offer env input) (λ s a s'. RejectAnswered input a s')
unfolding reject_offer
reject_offer-Answered env input s a s' h =
    bind_ends _ _ h λ receipt t e e'. answer_or-RejectAnswered env input receipt s t e e'
