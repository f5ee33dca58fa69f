-- ===== src/Trip/Repository/Safety.antt =====
-- createTrip and cancelTrip of apps/api/src/trip/trip.repository.ts keep the invariant of the
-- dispatch tables.
use gove.Prelude.{ℕ, Bool, List, [], ◌∷◌, Option, some, none, arith, refl, not, ◌||◌}
use gove.Prelude.Text.{text_eq}
use gove.Contracts.{
  TripCancellationRuleCode, available, matching, driver_to_pickup, at_pickup, revoked,
  trip_state_eq,
}
use gove.Database.{◌>>=◌}
use gove.Database.Laws.{Keeps, bind-Keeps, if-Keeps}
use gove.Dispatch.ExpiryPolicy.{released}
use gove.Dispatch.Tables.{
  Uuid, Trip, Offer, Quote, Env, trip_response, cancel_response, trip_created,
}
use gove.Dispatch.Repository.{random_uuid, resolved_offer}
use gove.Dispatch.Repository.Validity.{
  IsValid, Frames, Frames-Keeps, gets-Frames, throw_when-Frames, some_or_throw-Frames,
  update_trips-Frames, update_bound-Keeps, update_offers-Keeps, update_reservations-Keeps,
  append_trip_transition-Frames, append_trip_outbox-Frames, persist_receipt-Frames,
}
use gove.Dispatch.Repository.Safety.{framed, ended, check_receipt-Frames, answer_or-Keeps}
use gove.Dispatch.Repository.Runs.{update_assignments-Frames}
use gove.Trip.Repository.{finite_number, safe_integer, optional_safe_integer}
use gove.Trip.Repository.Create.{
  CreateTripRecord, create_trip, create, check_quote, insert_trip, store_trip, update_quotes,
  to_trip_response, consumed_quote,
}
use gove.Trip.Repository.Cancel.{
  CancelTripInput, cancel_trip, cancel, cancel_rows, revoke_offer, revoke_offers, revoke_pending,
  release_driver, insert_cancellation, append_cancellation, cancellation_response,
}

pub random_uuid-Frames : (env : Env) → Frames (random_uuid env)
random_uuid-Frames env s a s' h = ground arith

check_quote-Frames : (env : Env) (quote : Quote) → Frames (check_quote env quote)
unfolding check_quote update_quotes ◌>>=◌
check_quote-Frames env quote s a s' h = ground arith

update_quotes-Frames : (p : Quote → Bool) (c : Quote → Quote) → Frames (update_quotes p c)
unfolding update_quotes
update_quotes-Frames p c s a s' h = ground arith

insert_trip-Frames :
    (env : Env) (input : CreateTripRecord) (quote : Quote) (id : Uuid)
    → Frames (insert_trip env input quote id)
unfolding insert_trip finite_number safe_integer ◌>>=◌
insert_trip-Frames env input quote id s a s' h = ground arith

safe_integer-Frames : (n : ℕ) → Frames (safe_integer n)
unfolding safe_integer
safe_integer-Frames n s a s' h = ground arith

store_trip-Keeps :
    (env : Env) (input : CreateTripRecord) (quote : Quote)
    → Keeps IsValid (store_trip env input quote)
unfolding store_trip
store_trip-Keeps env input quote = framed _ _ (random_uuid-Frames env) λ id.
    framed _ _ (insert_trip-Frames env input quote id) λ trip.
      framed _ _ (update_quotes-Frames (λ q. text_eq q.id quote.id) (consumed_quote env)) λ u.
        framed _ _ (append_trip_transition-Frames _) λ u.
          framed _ _ (safe_integer-Frames quote.total_fare_minor) λ total.
            framed _ _ (append_trip_outbox-Frames id 0 trip_created) λ u.
              framed _ _ (persist_receipt-Frames _ _ _ _ _)
                λ u. ended (trip_response (to_trip_response trip total))

create-Keeps : (env : Env) (input : CreateTripRecord) → Keeps IsValid (create env input)
unfolding create
create-Keeps env input = framed _ _ (gets-Frames _) λ found.
    framed _ _ (some_or_throw-Frames _ _) λ quote. framed _ _ (throw_when-Frames _ _) λ u.
      framed _ _ (check_quote-Frames env quote) λ u.
        framed _ _ (gets-Frames _)
          λ current. framed _ _ (throw_when-Frames _ _) λ u. store_trip-Keeps env input quote

pub create_trip-Keeps :
    (env : Env) (input : CreateTripRecord) → Keeps IsValid (create_trip env input)
unfolding create_trip
create_trip-Keeps env input =
    framed _ _ (check_receipt-Frames _ _ _ _)
      λ receipt. answer_or-Keeps receipt _ _ (create-Keeps env input)

revoke_offer-Keeps :
    (env : Env) (trip : Trip) (offer : Offer) → Keeps IsValid (revoke_offer env trip offer)
unfolding revoke_offer
revoke_offer-Keeps env trip offer =
    bind-Keeps _ _ (update_offers-Keeps _ (resolved_offer env revoked) λ o. (refl, refl)) λ u.
      framed _ _ (gets-Frames _) λ owner.
        bind-Keeps _ _ (update_reservations-Keeps _ env released refl) λ u.
          bind-Keeps _ _
            (update_bound-Keeps _ env available none trip.id (λ w h. ground (arith, h)) refl)
            λ n. Frames-Keeps _ (throw_when-Frames _ _)

revoke_offers-Keeps :
    (env : Env) (trip : Trip) (offers : List Offer) → Keeps IsValid (revoke_offers env trip offers)
unfolding revoke_offers
revoke_offers-Keeps env trip [] = ended tt
revoke_offers-Keeps env trip (offer ∷ offers) =
    bind-Keeps _ _ (revoke_offer-Keeps env trip offer) λ u. revoke_offers-Keeps env trip offers

revoke_pending-Keeps : (env : Env) (trip : Trip) → Keeps IsValid (revoke_pending env trip)
unfolding revoke_pending
revoke_pending-Keeps env trip =
    if-Keeps (not (trip_state_eq trip.state matching)) _ _ (ended tt)
      (framed _ _ (gets-Frames _) λ pending. revoke_offers-Keeps env trip pending)

release_driver-Keeps : (env : Env) (trip : Trip) → Keeps IsValid (release_driver env trip)
unfolding release_driver
release_driver-Keeps env trip =
    if-Keeps (not (trip_state_eq trip.state driver_to_pickup || trip_state_eq trip.state at_pickup))
      _ _ (ended none)
      (framed _ _ (gets-Frames _) λ found. framed _ _ (some_or_throw-Frames _ _) λ a.
        framed _ _ (update_assignments-Frames _ _) λ n.
          bind-Keeps _ _
            (update_bound-Keeps _ env available none trip.id (λ w h. ground (arith, h)) refl)
            λ n. framed _ _ (throw_when-Frames _ _) λ u. ended (some a.driver_user_id))

insert_cancellation-Frames :
    (env : Env) (input : CancelTripInput) (id : Uuid) (rule_code : TripCancellationRuleCode)
    → Frames (insert_cancellation env input id rule_code)
unfolding insert_cancellation ◌>>=◌
insert_cancellation-Frames env input id rule_code s a s' h = ground arith

append_cancellation-Frames :
    (input : CancelTripInput) (trip : Trip) → Frames (append_cancellation input trip)
unfolding append_cancellation ◌>>=◌
append_cancellation-Frames input trip s a s' h = ground arith

cancellation_response-Frames :
    (env : Env) (input : CancelTripInput) (trip : Trip) (rule_code : TripCancellationRuleCode)
    (driver_id : Option Uuid)
    → Frames (cancellation_response env input trip rule_code driver_id)
unfolding cancellation_response safe_integer optional_safe_integer ◌>>=◌
cancellation_response-Frames env input trip rule_code driver_id s a s' h = ground arith

cancel_rows-Keeps :
    (env : Env) (input : CancelTripInput) (trip : Trip) (rule_code : TripCancellationRuleCode)
    → Keeps IsValid (cancel_rows env input trip rule_code)
unfolding cancel_rows
cancel_rows-Keeps env input trip rule_code = bind-Keeps _ _ (revoke_pending-Keeps env trip) λ u.
    bind-Keeps _ _ (release_driver-Keeps env trip) λ driver_id.
      framed _ _ (update_trips-Frames _ _) λ n. framed _ _ (throw_when-Frames _ _) λ u.
        framed _ _ (insert_cancellation-Frames env input trip.id rule_code) λ u.
          framed _ _ (append_cancellation-Frames input trip) λ u.
            framed _ _ (append_trip_outbox-Frames _ _ _) λ u.
              framed _ _ (cancellation_response-Frames env input trip rule_code driver_id)
                λ r. framed _ _ (persist_receipt-Frames _ _ _ _ _) λ u. ended (cancel_response r)

cancel-Keeps : (env : Env) (input : CancelTripInput) → Keeps IsValid (cancel env input)
unfolding cancel
cancel-Keeps env input = framed _ _ (gets-Frames _) λ found.
    framed _ _ (some_or_throw-Frames _ _) λ trip.
      framed _ _ (some_or_throw-Frames _ _) λ rule_code. cancel_rows-Keeps env input trip rule_code

pub cancel_trip-Keeps :
    (env : Env) (input : CancelTripInput) → Keeps IsValid (cancel_trip env input)
unfolding cancel_trip
cancel_trip-Keeps env input =
    framed _ _ (check_receipt-Frames _ _ _ _)
      λ receipt. answer_or-Keeps receipt _ _ (cancel-Keeps env input)
