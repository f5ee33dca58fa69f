-- ===== src/Trip/Repository/Rules.antt =====
-- customerCancellationRule of apps/api/src/trip/trip.repository.ts against the life cycle of a Trip.
use gove.Prelude.{◌≡◌, refl, ◌&&◌, not, is_some}
use gove.Contracts.{
  TripState, requested, matching, driver_to_pickup, at_pickup, in_progress, completed, cancelled,
  no_driver_available, trip_state_eq,
}
use gove.Trip.Lifecycle.{cancel, transitions}
use gove.Trip.Repository.{customer_cancellation_rule}

-- A Customer may cancel in the states in which the life cycle cancels, IN_PROGRESS excepted.
pub customer_cancellation_rule-transitions :
    (state : TripState)
    → is_some (customer_cancellation_rule state)
      ≡ is_some (transitions state cancel) && not (trip_state_eq state in_progress)
unfolding customer_cancellation_rule transitions
customer_cancellation_rule-transitions requested = refl
customer_cancellation_rule-transitions matching = refl
customer_cancellation_rule-transitions driver_to_pickup = refl
customer_cancellation_rule-transitions at_pickup = refl
customer_cancellation_rule-transitions in_progress = refl
customer_cancellation_rule-transitions completed = refl
customer_cancellation_rule-transitions cancelled = refl
customer_cancellation_rule-transitions no_driver_available = refl
