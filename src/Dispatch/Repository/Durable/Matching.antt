-- ===== src/Dispatch/Repository/Durable/Matching.antt =====
-- startMatching of apps/api/src/dispatch/dispatch.repository.ts and its parts leave
-- the receipts that there are.
use gove.Prelude.{ℕ, List, [], ◌∷◌, Option, none, some, arith}
use gove.Prelude.Text.{Text}
use gove.Database.{◌>>=◌}
use gove.Dispatch.Ranking.{DriverCandidate}
use gove.Dispatch.Tables.{Uuid, Trip, Reservation, Command, DispatchMatchResponse, Env, Work}
use gove.Dispatch.Repository.{OfferRow}
use gove.Dispatch.Repository.Matching.{
  ReserveInput, StartMatchingInput, insert_reservation, insert_offer, reserve_candidate,
  reserve_candidates, reserve_next_offer, exhaust, enter_matching, pending_or_reserve,
  respond_match, answer_match, match_trip, start_matching,
}
use gove.Dispatch.Repository.Durable.{
  IsDurable, same-IsDurable, pure-IsDurable, bind-IsDurable, durable_rules,
}

pub insert_reservation-IsDurable : (env : Env) (d t : Uuid) → IsDurable (insert_reservation env d t)
unfolding insert_reservation ◌>>=◌
insert_reservation-IsDurable env d t = same-IsDurable _ λ s b s' h. ground arith

pub insert_offer-IsDurable :
    (env : Env) (input : ReserveInput) (attempt : ℕ) (r : Reservation) (d : Uuid)
    → IsDurable (insert_offer env input attempt r d)
unfolding insert_offer ◌>>=◌
insert_offer-IsDurable env input attempt r d = same-IsDurable _ λ s b s' h. ground arith

reserve_candidate-IsDurable :
    (env : Env) (input : ReserveInput) (attempt : ℕ) (d : Uuid) (next : Work (Option OfferRow))
    (r : Option Reservation)
    → IsDurable next
    → IsDurable (reserve_candidate env input attempt d next r)
unfolding reserve_candidate
reserve_candidate-IsDurable env input attempt d next none f = f
reserve_candidate-IsDurable env input attempt d next (some r) f =
    search (durable_rules, insert_offer-IsDurable) depth 40 fits 5000

reserve_candidates-IsDurable :
    (env : Env) (input : ReserveInput) (attempt : ℕ) (cs : List DriverCandidate)
    → IsDurable (reserve_candidates env input attempt cs)
unfolding reserve_candidates
reserve_candidates-IsDurable env input attempt [] = pure-IsDurable none
reserve_candidates-IsDurable env input attempt (c ∷ cs) =
    bind-IsDurable _ _ (insert_reservation-IsDurable env c.driver_id input.trip_id) λ r.
      reserve_candidate-IsDurable env input attempt c.driver_id _ r
        (reserve_candidates-IsDurable env input attempt cs)

pub reserve_next_offer-IsDurable :
    (env : Env) (input : ReserveInput) → IsDurable (reserve_next_offer env input)
unfolding reserve_next_offer
reserve_next_offer-IsDurable env input =
    search (durable_rules, reserve_candidates-IsDurable) depth 40 fits 5000

pub exhaust-IsDurable :
    (t : Uuid) (actor : Option Uuid) (c : Command) (version : ℕ) (id : Text)
    → IsDurable (exhaust t actor c version id)
unfolding exhaust
exhaust-IsDurable t actor c version id = search durable_rules depth 40 fits 5000

pub enter_matching-IsDurable :
    (input : StartMatchingInput) (trip : Trip) → IsDurable (enter_matching input trip)
unfolding enter_matching
enter_matching-IsDurable input trip = search durable_rules depth 40 fits 5000

pub pending_or_reserve-IsDurable :
    (env : Env) (input : ReserveInput) (pending : Option OfferRow)
    → IsDurable (pending_or_reserve env input pending)
unfolding pending_or_reserve
pending_or_reserve-IsDurable env input none =
    search (durable_rules, reserve_next_offer-IsDurable) depth 40 fits 5000
pending_or_reserve-IsDurable env input (some row) = search durable_rules depth 40 fits 5000

pub respond_match-IsDurable :
    (input : StartMatchingInput) (r : DispatchMatchResponse) → IsDurable (respond_match input r)
unfolding respond_match
respond_match-IsDurable input r = search durable_rules depth 40 fits 5000

pub answer_match-IsDurable :
    (input : StartMatchingInput) (t : Uuid) (version : ℕ) (offer : Option OfferRow)
    → IsDurable (answer_match input t version offer)
unfolding answer_match
answer_match-IsDurable input t version none =
    search (durable_rules, exhaust-IsDurable, respond_match-IsDurable) depth 40 fits 5000
answer_match-IsDurable input t version (some row) =
    search (durable_rules, respond_match-IsDurable) depth 40 fits 5000

pub match_trip-IsDurable :
    (env : Env) (input : StartMatchingInput) → IsDurable (match_trip env input)
unfolding match_trip
match_trip-IsDurable env input =
    search
      (
        durable_rules, enter_matching-IsDurable, pending_or_reserve-IsDurable,
        answer_match-IsDurable,
      )
      depth 40 fits 5000

pub start_matching-IsDurable :
    (env : Env) (input : StartMatchingInput) → IsDurable (start_matching env input)
unfolding start_matching
start_matching-IsDurable env input = search (durable_rules, match_trip-IsDurable) depth 40 fits 5000
