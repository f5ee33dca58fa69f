-- ===== src/Dispatch/Repository/Durable/Offers.antt =====
-- rejectOffer, acceptOffer and expireDueOffer of apps/api/src/dispatch/dispatch.repository.ts leave
-- the receipts that there are.
use gove.Prelude.{ℕ, Bool, Option, none, some, arith}
use gove.Database.{◌>>=◌}
use gove.Dispatch.Tables.{
  Uuid, Reservation, TripOfferResponse, DispatchOfferRejectionResponse, Env, Work,
}
use gove.Dispatch.Repository.{OfferRow}
use gove.Dispatch.Repository.Offers.{
  answer_row, OfferCommandInput, OfferResult, reject_rows, respond_reject, answer_reject,
  reject_pending, answer_reserved, answer_pending, answer_rejection, reject_offer,
  insert_assignment, respond_accept, accept_pending, answer_acceptance, accept_offer_command,
}
use gove.Dispatch.Repository.Expiry.{
  DueOffer, rematch, expire_matching, expire_locked, expire_due, expire_due_offer,
}
use gove.Dispatch.Repository.Durable.{
  IsDurable, same-IsDurable, expire_offer_row-IsDurable, durable_rules,
}
use gove.Dispatch.Repository.Durable.Matching.{reserve_next_offer-IsDurable, exhaust-IsDurable}

answer_reserved-IsDurable :
    (env : Env) (input : OfferCommandInput) (row : OfferRow)
    (decide : Reservation → Work OfferResult) (found : Option Reservation)
    → ((r : Reservation) → IsDurable (decide r))
    → IsDurable (answer_reserved env input row decide found)
unfolding answer_reserved
answer_reserved-IsDurable env input row decide none f = search durable_rules depth 40 fits 5000
answer_reserved-IsDurable env input row decide (some r) f =
    search (durable_rules, expire_offer_row-IsDurable) depth 40 fits 5000

pub reject_rows-IsDurable :
    (env : Env) (input : OfferCommandInput) (row : OfferRow) (r : Reservation)
    → IsDurable (reject_rows env input row r)
unfolding reject_rows
reject_rows-IsDurable env input row r = search durable_rules depth 40 fits 5000

pub respond_reject-IsDurable :
    (input : OfferCommandInput) (r : DispatchOfferRejectionResponse)
    → IsDurable (respond_reject input r)
unfolding respond_reject
respond_reject-IsDurable input r = search durable_rules depth 40 fits 5000

pub answer_reject-IsDurable :
    (input : OfferCommandInput) (row : OfferRow) (version : ℕ) (offer : Option OfferRow)
    → IsDurable (answer_reject input row version offer)
unfolding answer_reject
answer_reject-IsDurable input row version none =
    search (durable_rules, exhaust-IsDurable, respond_reject-IsDurable) depth 40 fits 5000
answer_reject-IsDurable input row version (some o) =
    search (durable_rules, respond_reject-IsDurable) depth 40 fits 5000

pub reject_pending-IsDurable :
    (env : Env) (input : OfferCommandInput) (row : OfferRow) (r : Reservation)
    → IsDurable (reject_pending env input row r)
unfolding reject_pending
reject_pending-IsDurable env input row r =
    search
      (durable_rules, reserve_next_offer-IsDurable, reject_rows-IsDurable, answer_reject-IsDurable)
      depth 40 fits 5000

pub answer_rejection-IsDurable :
    (env : Env) (input : OfferCommandInput) → IsDurable (answer_rejection env input)
unfolding answer_rejection answer_pending
answer_rejection-IsDurable env input =
    search (durable_rules, answer_reserved-IsDurable, reject_pending-IsDurable) depth 40 fits 5000

pub reject_offer-IsDurable :
    (env : Env) (input : OfferCommandInput) → IsDurable (reject_offer env input)
unfolding reject_offer
reject_offer-IsDurable env input =
    search (durable_rules, answer_rejection-IsDurable) depth 40 fits 5000

pub insert_assignment-IsDurable :
    (env : Env) (input : OfferCommandInput) (t : Uuid) → IsDurable (insert_assignment env input t)
unfolding insert_assignment ◌>>=◌
insert_assignment-IsDurable env input t = same-IsDurable _ λ s b s' h. ground arith

pub respond_accept-IsDurable :
    (input : OfferCommandInput) (r : TripOfferResponse) → IsDurable (respond_accept input r)
unfolding respond_accept
respond_accept-IsDurable input r = search durable_rules depth 40 fits 5000

pub accept_pending-IsDurable :
    (env : Env) (input : OfferCommandInput) (row : OfferRow) (r : Reservation)
    → IsDurable (accept_pending env input row r)
unfolding accept_pending
accept_pending-IsDurable env input row r =
    search (durable_rules, insert_assignment-IsDurable, respond_accept-IsDurable) depth 40 fits 5000

pub answer_acceptance-IsDurable :
    (env : Env) (input : OfferCommandInput) → IsDurable (answer_acceptance env input)
unfolding answer_acceptance answer_row answer_pending
answer_acceptance-IsDurable env input =
    search (durable_rules, answer_reserved-IsDurable, accept_pending-IsDurable) depth 40 fits 5000

pub accept_offer_command-IsDurable :
    (env : Env) (input : OfferCommandInput) → IsDurable (accept_offer_command env input)
unfolding accept_offer_command
accept_offer_command-IsDurable env input =
    search (durable_rules, answer_acceptance-IsDurable) depth 40 fits 5000

pub rematch-IsDurable :
    (env : Env) (due : DueOffer) (version : ℕ) → IsDurable (rematch env due version)
unfolding rematch
rematch-IsDurable env due version =
    search (durable_rules, reserve_next_offer-IsDurable, exhaust-IsDurable) depth 40 fits 5000

pub expire_matching-IsDurable :
    (env : Env) (due : DueOffer) (may_retry : Bool) → IsDurable (expire_matching env due may_retry)
unfolding expire_matching
expire_matching-IsDurable env due may_retry =
    search (durable_rules, rematch-IsDurable) depth 40 fits 5000

pub expire_locked-IsDurable : (env : Env) (due : DueOffer) → IsDurable (expire_locked env due)
unfolding expire_locked
expire_locked-IsDurable env due =
    search (durable_rules, expire_offer_row-IsDurable, expire_matching-IsDurable) depth 40 fits 5000

pub expire_due-IsDurable :
    (env : Env) (locked : Option DueOffer) → IsDurable (expire_due env locked)
unfolding expire_due
expire_due-IsDurable env none = search durable_rules depth 40 fits 5000
expire_due-IsDurable env (some due) =
    search (durable_rules, expire_locked-IsDurable) depth 40 fits 5000

pub expire_due_offer-IsDurable : (env : Env) (id : Uuid) → IsDurable (expire_due_offer env id)
unfolding expire_due_offer
expire_due_offer-IsDurable env id = search (durable_rules, expire_due-IsDurable) depth 40 fits 5000
