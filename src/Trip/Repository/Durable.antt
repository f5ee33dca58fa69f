-- ===== src/Trip/Repository/Durable.antt =====
-- createTrip and cancelTrip of apps/api/src/trip/trip.repository.ts leave the receipts that there
-- are.
use gove.Prelude.{ℕ, Bool, List, [], ◌∷◌, Option, arith}
use gove.Contracts.{TripCancellationRuleCode}
use gove.Database.{◌>>=◌}
use gove.Dispatch.Tables.{Uuid, Trip, Offer, Quote, Env}
use gove.Dispatch.Repository.Durable.{
  IsDurable, same-IsDurable, pure-IsDurable, bind-IsDurable, durable_rules,
}
use gove.Dispatch.Repository.Durable.Assigned.{update_assignments-IsDurable}
use gove.Trip.Repository.{finite_number, safe_integer, optional_safe_integer}
use gove.Trip.Repository.Create.{
  CreateTripRecord, create_trip, create, check_quote, insert_trip, store_trip, update_quotes,
}
use gove.Trip.Repository.Cancel.{
  CancelTripInput, cancel_trip, cancel, cancel_rows, revoke_offer, revoke_offers, revoke_pending,
  release_driver, insert_cancellation, append_cancellation, cancellation_response,
}

pub check_quote-IsDurable : (env : Env) (quote : Quote) → IsDurable (check_quote env quote)
unfolding check_quote update_quotes ◌>>=◌
check_quote-IsDurable env quote = same-IsDurable _ λ s b s' h. ground arith

pub update_quotes-IsDurable : (p : Quote → Bool) (c : Quote → Quote) → IsDurable (update_quotes p c)
unfolding update_quotes
update_quotes-IsDurable p c = same-IsDurable _ λ s b s' h. ground arith

pub insert_trip-IsDurable :
    (env : Env) (input : CreateTripRecord) (quote : Quote) (id : Uuid)
    → IsDurable (insert_trip env input quote id)
unfolding insert_trip finite_number safe_integer ◌>>=◌
insert_trip-IsDurable env input quote id = same-IsDurable _ λ s b s' h. ground arith

pub safe_integer-IsDurable : (n : ℕ) → IsDurable (safe_integer n)
unfolding safe_integer
safe_integer-IsDurable n = same-IsDurable _ λ s b s' h. ground arith

pub store_trip-IsDurable :
    (env : Env) (input : CreateTripRecord) (quote : Quote) → IsDurable (store_trip env input quote)
unfolding store_trip
store_trip-IsDurable env input quote =
    search (durable_rules, update_quotes-IsDurable, insert_trip-IsDurable, safe_integer-IsDurable)
      depth 40 fits 5000

pub create-IsDurable : (env : Env) (input : CreateTripRecord) → IsDurable (create env input)
unfolding create
create-IsDurable env input =
    search (durable_rules, check_quote-IsDurable, store_trip-IsDurable) depth 40 fits 5000

pub create_trip-IsDurable :
    (env : Env) (input : CreateTripRecord) → IsDurable (create_trip env input)
unfolding create_trip
create_trip-IsDurable env input = search (durable_rules, create-IsDurable) depth 40 fits 5000

pub revoke_offer-IsDurable :
    (env : Env) (trip : Trip) (offer : Offer) → IsDurable (revoke_offer env trip offer)
unfolding revoke_offer
revoke_offer-IsDurable env trip offer = search durable_rules depth 40 fits 5000

pub revoke_offers-IsDurable :
    (env : Env) (trip : Trip) (offers : List Offer) → IsDurable (revoke_offers env trip offers)
unfolding revoke_offers
revoke_offers-IsDurable env trip [] = pure-IsDurable tt
revoke_offers-IsDurable env trip (o ∷ os) =
    bind-IsDurable _ _ (revoke_offer-IsDurable env trip o) λ u. revoke_offers-IsDurable env trip os

pub revoke_pending-IsDurable : (env : Env) (trip : Trip) → IsDurable (revoke_pending env trip)
unfolding revoke_pending
revoke_pending-IsDurable env trip =
    search (durable_rules, revoke_offers-IsDurable) depth 40 fits 5000

pub release_driver-IsDurable : (env : Env) (trip : Trip) → IsDurable (release_driver env trip)
unfolding release_driver
release_driver-IsDurable env trip =
    search (durable_rules, update_assignments-IsDurable) depth 40 fits 5000

pub insert_cancellation-IsDurable :
    (env : Env) (input : CancelTripInput) (id : Uuid) (rule_code : TripCancellationRuleCode)
    → IsDurable (insert_cancellation env input id rule_code)
unfolding insert_cancellation ◌>>=◌
insert_cancellation-IsDurable env input id rule_code = same-IsDurable _ λ s b s' h. ground arith

pub append_cancellation-IsDurable :
    (input : CancelTripInput) (trip : Trip) → IsDurable (append_cancellation input trip)
unfolding append_cancellation ◌>>=◌
append_cancellation-IsDurable input trip = same-IsDurable _ λ s b s' h. ground arith

pub cancellation_response-IsDurable :
    (env : Env) (input : CancelTripInput) (trip : Trip) (rule_code : TripCancellationRuleCode)
    (driver_id : Option Uuid)
    → IsDurable (cancellation_response env input trip rule_code driver_id)
unfolding cancellation_response safe_integer optional_safe_integer ◌>>=◌
cancellation_response-IsDurable env input trip rule_code driver_id =
    same-IsDurable _ λ s b s' h. ground arith

pub cancel_rows-IsDurable :
    (env : Env) (input : CancelTripInput) (trip : Trip) (rule_code : TripCancellationRuleCode)
    → IsDurable (cancel_rows env input trip rule_code)
unfolding cancel_rows
cancel_rows-IsDurable env input trip rule_code =
    search
      (
        durable_rules, revoke_pending-IsDurable, release_driver-IsDurable,
        insert_cancellation-IsDurable, append_cancellation-IsDurable,
        cancellation_response-IsDurable,
      )
      depth 40 fits 5000

pub cancel-IsDurable : (env : Env) (input : CancelTripInput) → IsDurable (cancel env input)
unfolding cancel
cancel-IsDurable env input = search (durable_rules, cancel_rows-IsDurable) depth 40 fits 5000

pub cancel_trip-IsDurable :
    (env : Env) (input : CancelTripInput) → IsDurable (cancel_trip env input)
unfolding cancel_trip
cancel_trip-IsDurable env input = search (durable_rules, cancel-IsDurable) depth 40 fits 5000
