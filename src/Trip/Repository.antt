-- ===== src/Trip/Repository.antt =====
-- apps/api/src/trip/trip.repository.ts: the helpers that its operations share.
pub mod Create
pub mod Cancel
pub mod Reads
pub mod Receipts
pub mod Rules
pub mod Safety
pub mod Durable
mod Tests
use gove.Prelude.{ℕ, Bool, true, false, Option, none, some, ◌&&◌, if◌then◌else◌, leb, any, ◌||◌}
use gove.Prelude.Int.{Double, finite, not_finite, max_safe_integer}
use gove.Prelude.Text.{text_eq}
use gove.Contracts.{
  TripState, TripCancellationRuleCode, requested, matching, driver_to_pickup, at_pickup,
  in_progress, trip_state_eq, customer_pre_trip, customer_at_pickup,
}
use gove.Database.{◌>>=◌, pure, throw, throw_when}
use gove.Dispatch.Tables.{Uuid, Trip, Db, Work, not_finite_number, not_safe_integer}

-- state IN ('REQUESTED', 'MATCHING', 'DRIVER_TO_PICKUP', 'AT_PICKUP', 'IN_PROGRESS')
abbrev pub is_under_way : TripState → Bool
is_under_way requested = true
is_under_way matching = true
is_under_way driver_to_pickup = true
is_under_way at_pickup = true
is_under_way in_progress = true
is_under_way _ = false

-- A Trip under way of the Customer.
abbrev pub is_current : Uuid → Trip → Bool
is_current customer_user_id t = text_eq t.customer_user_id customer_user_id && is_under_way t.state

unfoldable pub customer_cancellation_rule : TripState → Option TripCancellationRuleCode
customer_cancellation_rule requested = some customer_pre_trip
customer_cancellation_rule matching = some customer_pre_trip
customer_cancellation_rule driver_to_pickup = some customer_pre_trip
customer_cancellation_rule at_pickup = some customer_at_pickup
customer_cancellation_rule _ = none

unfoldable pub finite_number : Double → Work Double
finite_number (finite n) = pure (finite n)
finite_number not_finite = throw not_finite_number

-- safeInteger of a column that holds an integer from 0
unfoldable pub safe_integer : ℕ → Work ℕ
safe_integer value = if leb value max_safe_integer then pure value else throw not_safe_integer

unfoldable pub optional_safe_integer : Option ℕ → Work (Option ℕ)
unfolding safe_integer
optional_safe_integer none = pure none
optional_safe_integer (some value) = safe_integer value >>= λ n. pure (some n)
