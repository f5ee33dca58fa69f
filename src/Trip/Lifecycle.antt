-- ===== src/Trip/Lifecycle.antt =====
-- apps/api/src/trip/domain/trip-lifecycle.ts: the transition table of a Trip and its versioned
-- application.
pub mod Traces
mod Tests
use gove.Prelude.{ℕ, ◌+◌, Option, none, some, Result, ok, err}
use gove.Contracts.{
  TripState, requested, matching, driver_to_pickup, at_pickup, in_progress, completed, cancelled,
  no_driver_available,
}

pub record TripSnapshot : Type 0 where
  pub state : TripState
  pub version : ℕ

pub data TripCommand : Type 0 where
  start_matching assign_driver exhaust_matching mark_at_pickup retry_matching start_trip
        complete_trip cancel :
      TripCommand

pub record TripTransitionError : Type 0 where
  pub from : TripState
  pub command : TripCommand

-- `transitions[state][command]`; `none` is a missing entry.
unfoldable pub transitions : TripState → TripCommand → Option TripState
transitions requested start_matching = some matching
transitions requested cancel = some cancelled
transitions matching assign_driver = some driver_to_pickup
transitions matching exhaust_matching = some no_driver_available
transitions matching cancel = some cancelled
transitions driver_to_pickup mark_at_pickup = some at_pickup
transitions driver_to_pickup retry_matching = some matching
transitions driver_to_pickup cancel = some cancelled
transitions at_pickup start_trip = some in_progress
transitions at_pickup cancel = some cancelled
transitions in_progress complete_trip = some completed
transitions in_progress cancel = some cancelled
transitions _ _ = none

-- TripLifecycle.apply
unfoldable pub apply : TripSnapshot → TripCommand → Result TripTransitionError TripSnapshot
unfolding transitions
apply current command = elim (transitions current.state command) [
  | none ↦ err (record { from = current.state; command = command })
  | some next_state ↦ ok (record { state = next_state; version = current.version + 1 })
]
