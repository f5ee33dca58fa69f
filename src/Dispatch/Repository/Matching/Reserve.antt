-- ===== src/Dispatch/Repository/Matching/Reserve.antt =====
-- apps/api/src/dispatch/dispatch.repository.ts: reserveNextOffer.
use gove.Prelude.{
  ℕ, ◌+◌, ◌*◌, Bool, true, false, ◌&&◌, ◌||◌, not, List, [], ◌∷◌, any, map, Option, none, some,
  is_some, if◌then◌else◌, ltb, ◌==◌,
}
use Prim.Native.Nat.{max}
use gove.Prelude.Text.{text_eq}
use gove.Contracts.{
  TripState, matching, available, reserved, TripOfferState, work_state_eq, offer_state_eq,
}
use gove.Database.{◌>>=◌, ◌>>◌, pure, throw_when, gets, modify, or_throw}
use gove.Dispatch.ExpiryPolicy.{DriverReservationState, reservation_state_eq}
use gove.Dispatch.Ranking.{DriverCandidate, rank_eligible_driver_candidates}
use gove.Dispatch.Tables.{
  Uuid, Offer, Reservation, Db, Env, Work, dispatch_offer_created, dispatch_offer_reassigned,
  trip_offers_attempt_per_trip, trip_offers_one_pending_trip, trip_offers_one_pending_driver,
  unique_violation, ranking_error,
}
use gove.Dispatch.Repository.{
  OfferRow, append_trip_outbox, random_uuid, update_work_states, with_work_state,
  release_reservation, location_freshness_seconds, offer_ttl_seconds, max_offer_attempts,
}
use gove.Dispatch.Repository.Matching.Candidates.{to_double, select_candidates, to_candidate}

-- The input of reserveNextOffer.
pub record ReserveInput : Type 0 where
  pub trip_id : Uuid
  pub trip_state : TripState
  pub trip_version : ℕ
  pub excluded_driver_user_id : Option Uuid
  pub reassignment : Bool

-- The calls of startMatching, and of rejectOffer and expireDueOffer.
abbrev pub first_input : Uuid → ℕ → ReserveInput
first_input trip_id version = record {
  trip_id = trip_id;
  trip_state = matching;
  trip_version = version;
  excluded_driver_user_id = none;
  reassignment = false;
}

abbrev pub reassignment_input : Uuid → TripState → ℕ → Uuid → ReserveInput
reassignment_input trip_id state version driver_user_id = record {
  trip_id = trip_id;
  trip_state = state;
  trip_version = version;
  excluded_driver_user_id = some driver_user_id;
  reassignment = true;
}

-- COALESCE(MAX(attempt_number), 0) over the Offers of a Trip
abbrev pub max_attempt : Uuid → List Offer → ℕ
max_attempt trip_id [] = 0
max_attempt trip_id (o ∷ os) =
    let rest = max_attempt trip_id os in
    if text_eq o.trip_id trip_id then max o.attempt_number rest else rest

unfoldable pub next_attempt : Uuid → Db → ℕ
next_attempt trip_id db = max_attempt trip_id db.offers + 1

abbrev pub new_reservation : Env → Uuid → Uuid → Uuid → Reservation
new_reservation env id driver_user_id trip_id = record {
  id = id;
  driver_user_id = driver_user_id;
  trip_id = trip_id;
  status = DriverReservationState.active;
  expires_at = env.now + offer_ttl_seconds * 1000;
  resolved_at = none;
}

-- INSERT INTO dispatch.driver_reservations ... ON CONFLICT DO NOTHING RETURNING id, expires_at. The
-- conflicts are a second ACTIVE reservation of the Driver or of the Trip.
unfoldable pub insert_reservation : Env → Uuid → Uuid → Work (Option Reservation)
insert_reservation env driver_user_id trip_id = do
  id ← random_uuid env
  taken ← gets λ db.
      any
        (λ r.
          reservation_state_eq r.status DriverReservationState.active
          && (text_eq r.driver_user_id driver_user_id || text_eq r.trip_id trip_id))
        db.reservations
  if taken
      then pure none
      else let reservation = new_reservation env id driver_user_id trip_id in
        (modify λ db. record db { reservations = reservation ∷ db.reservations })
        >> pure (some reservation)

abbrev pub new_offer : Env → ReserveInput → ℕ → Reservation → Uuid → Uuid → Offer
new_offer env input attempt reservation driver_user_id id = record {
  id = id;
  trip_id = input.trip_id;
  reservation_id = reservation.id;
  driver_user_id = driver_user_id;
  attempt_number = attempt;
  status = TripOfferState.pending;
  offered_at = env.now;
  expires_at = reservation.expires_at;
  resolved_at = none;
  accepted_by_user_id = none;
  acceptance_idempotency_key = none;
  accepted_trip_version = none;
}

-- INSERT INTO dispatch.trip_offers ... RETURNING
unfoldable pub insert_offer : Env → ReserveInput → ℕ → Reservation → Uuid → Work OfferRow
insert_offer env input attempt reservation driver_user_id = do
  id ← random_uuid env
  same_attempt ←
      gets λ db. any (λ o. text_eq o.trip_id input.trip_id && o.attempt_number == attempt) db.offers
  throw_when same_attempt (unique_violation trip_offers_attempt_per_trip)
  pending_trip ← gets λ db.
      any (λ o. offer_state_eq o.status TripOfferState.pending && text_eq o.trip_id input.trip_id)
        db.offers
  throw_when pending_trip (unique_violation trip_offers_one_pending_trip)
  pending_driver ← gets λ db.
      any
        (λ o.
          offer_state_eq o.status TripOfferState.pending && text_eq o.driver_user_id driver_user_id)
        db.offers
  throw_when pending_driver (unique_violation trip_offers_one_pending_driver)
  let offer = new_offer env input attempt reservation driver_user_id id in
      (modify λ db. record db { offers = offer ∷ db.offers })
      >> pure (record {
        offer = offer;
        trip_state = input.trip_state;
        trip_version = input.trip_version;
      })

-- One round of the loop, `next` being the rest of it.
unfoldable pub reserve_candidate :
    Env
    → ReserveInput
    → ℕ
    → Uuid
    → Work (Option OfferRow)
    → Option Reservation
    → Work (Option OfferRow)
unfolding insert_offer update_work_states release_reservation append_trip_outbox
reserve_candidate env input attempt driver_id next none = next
reserve_candidate env input attempt driver_id next (some reservation) = do
  row_count ←
      update_work_states
        (λ w.
          text_eq w.driver_user_id driver_id
          && work_state_eq w.work_state available
          && not (is_some w.current_trip_id))
        (with_work_state env reserved (some input.trip_id))
  if not (row_count == 1) then release_reservation env reservation.id >> next else do
    row ← insert_offer env input attempt reservation driver_id
    append_trip_outbox input.trip_id input.trip_version
        (if input.reassignment then dispatch_offer_reassigned else dispatch_offer_created)
    pure (some row)

-- The loop of reserveNextOffer over the ranked candidates.
unfoldable pub reserve_candidates :
    Env → ReserveInput → ℕ → List DriverCandidate → Work (Option OfferRow)
unfolding insert_reservation reserve_candidate
reserve_candidates env input attempt [] = pure none
reserve_candidates env input attempt (candidate ∷ candidates) = do
  reservation ← insert_reservation env candidate.driver_id input.trip_id
  reserve_candidate env input attempt candidate.driver_id
      (reserve_candidates env input attempt candidates) reservation

-- reserveNextOffer
unfoldable pub reserve_next_offer : Env → ReserveInput → Work (Option OfferRow)
unfolding next_attempt select_candidates rank_eligible_driver_candidates reserve_candidates
reserve_next_offer env input = do
  attempt ← gets (next_attempt input.trip_id)
  if ltb max_offer_attempts attempt then pure none else do
    candidates ← gets (select_candidates env input.excluded_driver_user_id input.trip_id)
    ranked ←
        or_throw
          (rank_eligible_driver_candidates (map to_candidate candidates)
            (record { max_freshness_age_seconds = to_double location_freshness_seconds }))
          ranking_error
    reserve_candidates env input attempt ranked
