-- ===== src/Dispatch/ExpiryPolicy.antt =====
-- apps/api/src/dispatch/dispatch-expiry-policy.ts: what expiry does to an offer, its reservation
-- and its Driver.
pub mod Laws
mod Tests
use gove.Prelude.{
  Bool, true, false, ◌||◌, List, [], ◌∷◌, any, Result, ok, err, ◌>>=◌, if◌then◌else◌, not,
}
use gove.Prelude.Int.{ℤ, ltb_ℤ, Double, finite, not_finite}
use gove.Contracts.{
  TripState, matching, completed, cancelled, no_driver_available, DriverWorkState, available,
  reserved, to_pickup, on_trip, TripOfferState, accepted, rejected, revoked, trip_state_eq,
  work_state_eq, offer_state_eq,
}

pub data DriverReservationState : Type 0 where
  active committed released expired : DriverReservationState

abbrev pub reservation_state_eq : DriverReservationState → DriverReservationState → Bool
reservation_state_eq active active = true
reservation_state_eq committed committed = true
reservation_state_eq released released = true
reservation_state_eq DriverReservationState.expired DriverReservationState.expired = true
reservation_state_eq _ _ = false

abbrev pub terminal_offer_states : List TripOfferState
terminal_offer_states = accepted ∷ rejected ∷ TripOfferState.expired ∷ revoked ∷ []

abbrev pub terminal_trip_states : List TripState
terminal_trip_states = completed ∷ cancelled ∷ no_driver_available ∷ []

pub record DispatchExpiryInput : Type 0 where
  pub now_epoch_ms : Double
  pub offer_expires_at_epoch_ms : Double
  pub offer_state : TripOfferState
  pub reservation_state : DriverReservationState
  pub work_state : DriverWorkState
  pub trip_state : TripState

pub record RetryMatchingContext : Type 0 where
  pub offer_state : TripOfferState
  pub reservation_state : DriverReservationState
  pub work_state : DriverWorkState
  pub trip_state : TripState

pub record StateTransition (S : Type 0) : Type 0 where
  pub from : S
  pub to : S

pub data Outcome : Type 0 where
  not_due expired_and_released already_terminal : Outcome

pub record DispatchExpiryDecision : Type 0 where
  pub outcome : Outcome
  pub offer : StateTransition TripOfferState
  pub reservation : StateTransition DriverReservationState
  pub work_state : StateTransition DriverWorkState
  pub may_retry_matching : Bool

-- DispatchExpiryPolicyInputError, by the `name` in its message.
pub data DispatchExpiryPolicyInputError : Type 0 where
  now_epoch_ms offer_expires_at_epoch_ms : DispatchExpiryPolicyInputError

unfoldable pub is_terminal_offer_state : TripOfferState → Bool
is_terminal_offer_state state =
    any (λ terminal. offer_state_eq terminal state) terminal_offer_states

unfoldable pub is_terminal_trip_state : TripState → Bool
is_terminal_trip_state state = any (λ terminal. trip_state_eq terminal state) terminal_trip_states

unfoldable pub can_retry_matching : RetryMatchingContext → Bool
unfolding is_terminal_offer_state
can_retry_matching context =
    if not (trip_state_eq context.trip_state matching)
    then false
    else if offer_state_eq context.offer_state TripOfferState.pending
        || offer_state_eq context.offer_state accepted
        || reservation_state_eq context.reservation_state active
        || reservation_state_eq context.reservation_state committed
        || work_state_eq context.work_state reserved
        || work_state_eq context.work_state to_pickup
        || work_state_eq context.work_state on_trip
    then false
    else is_terminal_offer_state context.offer_state

abbrev pub unchanged : {S : Type 0} → S → StateTransition S
unchanged state = record { from = state; to = state }

unfoldable pub assert_finite :
    Double → DispatchExpiryPolicyInputError → Result DispatchExpiryPolicyInputError ℤ
assert_finite (finite value) name = ok value
assert_finite not_finite name = err name

-- The part of evaluateDispatchExpiry that follows the two assertions.
unfoldable pub decide_expiry : ℤ → ℤ → DispatchExpiryInput → DispatchExpiryDecision
unfolding can_retry_matching
decide_expiry now expires_at input =
    if not (offer_state_eq input.offer_state TripOfferState.pending)
    then record {
      outcome = already_terminal;
      offer = unchanged input.offer_state;
      reservation = unchanged input.reservation_state;
      work_state = unchanged input.work_state;
      may_retry_matching = can_retry_matching (record {
        offer_state = input.offer_state;
        reservation_state = input.reservation_state;
        work_state = input.work_state;
        trip_state = input.trip_state;
      });
    }
    else if ltb_ℤ now expires_at
    then record {
      outcome = not_due;
      offer = unchanged input.offer_state;
      reservation = unchanged input.reservation_state;
      work_state = unchanged input.work_state;
      may_retry_matching = false;
    }
    else let next_reservation_state =
        if reservation_state_eq input.reservation_state active
        then DriverReservationState.expired
        else input.reservation_state in
      let next_work_state =
        if work_state_eq input.work_state reserved then available else input.work_state in
      record {
        outcome = expired_and_released;
        offer = record { from = TripOfferState.pending; to = TripOfferState.expired };
        reservation = record { from = input.reservation_state; to = next_reservation_state };
        work_state = record { from = input.work_state; to = next_work_state };
        may_retry_matching = can_retry_matching (record {
          offer_state = TripOfferState.expired;
          reservation_state = next_reservation_state;
          work_state = next_work_state;
          trip_state = input.trip_state;
        });
      }

unfoldable pub evaluate_dispatch_expiry :
    DispatchExpiryInput → Result DispatchExpiryPolicyInputError DispatchExpiryDecision
unfolding assert_finite decide_expiry
evaluate_dispatch_expiry input = do
  now ← assert_finite input.now_epoch_ms now_epoch_ms
  expires_at ← assert_finite input.offer_expires_at_epoch_ms offer_expires_at_epoch_ms
  ok (decide_expiry now expires_at input)
