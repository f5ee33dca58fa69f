-- ===== src/Dispatch/Repository/Listing/Tests.antt =====
-- An Offer of apps/api/src/dispatch/dispatch.repository.ts that goes out and is listed.
use gove.Prelude.{◌≡◌, refl, true, any, [], ◌∷◌, none, some, ok}
use gove.Prelude.Text.{text_eq}
use gove.Contracts.{TripOfferState, matching}
use gove.Database.{◌>>=◌}
use gove.Dispatch.Ranking.{
  validate_options, validate_all, validate_candidate, to_sorted, may_be_offered, difference,
}
use gove.Dispatch.Tables.{Db}
use gove.Dispatch.Repository.{OfferRow, find_trip}
use gove.Dispatch.Repository.Matching.{ReserveInput, first_input, reserve_next_offer}
use gove.Dispatch.Repository.Reads.{list_pending_offers}
use gove.Dispatch.Repository.Listing.{reserve_next_offer-listed}
use gove.Dispatch.Repository.Tests.{at_time, waiting_trip, start_db, state_of}

abbrev input : ReserveInput
input = first_input (1 ∷ []) 1

abbrev row : OfferRow
row = record {
  offer = record {
    id = 1001 ∷ [];
    trip_id = 1 ∷ [];
    reservation_id = 1000 ∷ [];
    driver_user_id = 68 ∷ [];
    attempt_number = 1;
    status = TripOfferState.pending;
    offered_at = 5000;
    expires_at = 25000;
    resolved_at = none;
    accepted_by_user_id = none;
    acceptance_idempotency_key = none;
    accepted_trip_version = none;
  };
  trip_state = matching;
  trip_version = 1;
}

abbrev matching_db : Db
matching_db = record start_db { trips = record waiting_trip { state = matching; version = 1 } ∷ [] }

unfoldable reserved_db : Db
unfolding reserve_next_offer ◌>>=◌
reserved_db = state_of matching_db (reserve_next_offer (at_time 5000) input matching_db)

reserve_next_offer-reserved_db :
    reserve_next_offer (at_time 5000) input matching_db ≡ ok (some row, reserved_db)
unfolding reserve_next_offer ◌>>=◌ reserved_db validate_options validate_all validate_candidate
    to_sorted may_be_offered difference
reserve_next_offer-reserved_db = refl

find_trip-reserved_db :
    find_trip (1 ∷ []) reserved_db ≡ some (record waiting_trip { state = matching; version = 1 })
unfolding find_trip reserve_next_offer ◌>>=◌ reserved_db validate_options validate_all
    validate_candidate to_sorted may_be_offered difference
find_trip-reserved_db = refl

reserve_next_offer-listed_example :
    any (λ r. text_eq r.id (1001 ∷ [])) (list_pending_offers (68 ∷ []) reserved_db) ≡ true
reserve_next_offer-listed_example =
    reserve_next_offer-listed (at_time 5000) input matching_db reserved_db row
      (record waiting_trip { state = matching; version = 1 }) reserve_next_offer-reserved_db
      find_trip-reserved_db
