-- ===== src/Trip/Lifecycle/Tests.antt =====
-- Runs of apps/api/src/trip/domain/trip-lifecycle.ts, and its theorems at concrete Trips.
use gove.Prelude.{◌+◌, ◌*◌, ◌≤◌, ◌≡◌, refl, List, [], ◌∷◌, length, ok, err}
use gove.Contracts.{requested, completed}
use gove.Trip.Lifecycle.{
  TripSnapshot, TripCommand, start_matching, assign_driver, retry_matching, mark_at_pickup,
  start_trip, complete_trip, cancel, apply,
}
use gove.Trip.Lifecycle.Traces.{
  apply_all, apply_all_bounded, retries, required, IsSubsequence, required-IsSubsequence,
}

abbrev new_trip : TripSnapshot
new_trip = record { state = requested; version = 0 }

-- A ride whose first Driver is replaced.
abbrev ride : List TripCommand
ride =
    start_matching ∷ assign_driver ∷ retry_matching ∷ assign_driver ∷ mark_at_pickup ∷ start_trip
    ∷ complete_trip ∷ []

abbrev finished : TripSnapshot
finished = record { state = completed; version = 7 }

apply_all-ride : apply_all new_trip ride ≡ ok finished
unfolding apply_all apply
apply_all-ride = refl

apply_refused :
    apply (record { state = completed; version = 3 }) cancel
    ≡ err (record { from = completed; command = cancel })
unfolding apply
apply_refused = refl

apply_all_bounded_example : (7 ≡ 0 + length ride) × (length ride ≤ 5 + 2 * retries ride)
apply_all_bounded_example = apply_all_bounded new_trip ride apply_all-ride

required-IsSubsequence_example : IsSubsequence (required requested) ride
required-IsSubsequence_example = required-IsSubsequence new_trip ride apply_all-ride refl
