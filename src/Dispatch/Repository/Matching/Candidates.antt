-- ===== src/Dispatch/Repository/Matching/Candidates.antt =====
-- apps/api/src/dispatch/dispatch.repository.ts: the query of reserveNextOffer for candidates.
use gove.Prelude.{
  ℕ, ◌+◌, ◌*◌, ◌^◌, Bool, true, false, ◌&&◌, not, List, filter, take, any, map, Option, is_some,
  leb,
}
use Prim.Native.Nat.{compare, Ordering}
use gove.Prelude.Int.{pos, Double, finite}
use gove.Prelude.Text.{text_eq}
use gove.Contracts.{available, work_state_eq, ServiceType, motorbike_standard, car_standard}
use gove.Database.{order_by, flat_map}
use gove.Dispatch.ExpiryPolicy.{DriverReservationState, reservation_state_eq}
use gove.Dispatch.Ranking.{DriverCandidate, difference, compare_driver_ids, or_then}
use gove.Dispatch.Tables.{
  Uuid, Trip, WorkState, ApprovalStatus, VehicleClass, DriverProfile, Vehicle, DriverLocation, Db,
  Env, approved, not_approved, motorbike, standard_car,
}
use gove.Dispatch.Repository.{
  eq_uuid_option, location_freshness_seconds, search_radius_meters, max_candidates,
}

pub record CandidateRow : Type 0 where
  pub driver_user_id : Uuid
  pub distance_meters : Double
  pub freshness_age_seconds : Double
  pub state_changed_at : ℕ

-- A number of JavaScript or PostgreSQL as a double.
abbrev pub to_double : ℕ → Double
to_double n = finite (pos (n * 2 ^ 1074))

abbrev pub serves : VehicleClass → ServiceType → Bool
serves motorbike motorbike_standard = true
serves standard_car car_standard = true
serves _ _ = false

abbrev pub is_approved : ApprovalStatus → Bool
is_approved approved = true
is_approved not_approved = false

-- The WHERE clause of the query for candidates.
unfoldable pub is_candidate :
    Env → Db → Option Uuid → Trip → DriverLocation → WorkState → DriverProfile → Vehicle → Bool
is_candidate env db excluded t loc ws p v =
    not (eq_uuid_option excluded ws.driver_user_id)
    && work_state_eq ws.work_state available
    && is_approved p.approval_status
    && not (is_some p.deactivated_at)
    && is_approved v.approval_status
    && v.is_selected
    && serves v.vehicle_class t.service_type_code
    && leb env.now (loc.received_at + location_freshness_seconds * 1000)
    && env.st_dwithin loc.location t.pickup_location search_radius_meters
    && not (
        any
          (λ r.
            text_eq r.driver_user_id ws.driver_user_id
            && reservation_state_eq r.status DriverReservationState.active)
          db.reservations)
    && not
        (any (λ o. text_eq o.trip_id t.id && text_eq o.driver_user_id ws.driver_user_id) db.offers)

-- Its joins.
unfoldable pub candidate_rows : Env → Option Uuid → Uuid → Db → List CandidateRow
unfolding is_candidate
candidate_rows env excluded trip_id db =
    flat_map
      (λ t.
        flat_map
          (λ loc.
            flat_map
              (λ ws.
                flat_map
                  (λ p.
                    map
                      (λ v. record {
                        driver_user_id = ws.driver_user_id;
                        distance_meters = env.st_distance loc.location t.pickup_location;
                        freshness_age_seconds = env.age_seconds env.now loc.received_at;
                        state_changed_at = ws.state_changed_at;
                      })
                      (filter
                        (λ v.
                          text_eq v.driver_user_id ws.driver_user_id
                          && is_candidate env db excluded t loc ws p v)
                        db.vehicles))
                  (filter (λ p. text_eq p.user_id ws.driver_user_id) db.profiles))
              (filter (λ ws. text_eq ws.driver_user_id loc.driver_user_id) db.work_states))
          db.locations)
      (filter (λ t. text_eq t.id trip_id) db.trips)

abbrev pub is_lt : Ordering → Bool
is_lt Ordering.lt = true
is_lt _ = false

-- ORDER BY distance_meters, ws.state_changed_at, ws.driver_user_id
unfoldable pub is_before : CandidateRow → CandidateRow → Bool
is_before a b = is_lt (
    or_then (difference a.distance_meters b.distance_meters) (
      or_then (compare a.state_changed_at b.state_changed_at)
        (compare_driver_ids a.driver_user_id b.driver_user_id)))

-- The whole query: a row that another transaction holds is skipped before the limit counts.
unfoldable pub select_candidates : Env → Option Uuid → Uuid → Db → List CandidateRow
unfolding candidate_rows is_before
select_candidates env excluded trip_id db = take max_candidates (
    filter (λ c. not (env.is_locked c.driver_user_id))
      (order_by is_before (candidate_rows env excluded trip_id db)))

abbrev pub to_candidate : CandidateRow → DriverCandidate
to_candidate row = record {
  driver_id = row.driver_user_id;
  distance_meters = row.distance_meters;
  freshness_age_seconds = row.freshness_age_seconds;
  eligible = true;
}
