-- ===== src/Dispatch/ExpiryPolicy/Tests.antt =====
-- The decisions of apps/api/src/dispatch/dispatch-expiry-policy.ts on one due offer.
use gove.Prelude.{◌≡◌, refl, ◌≢◌, ◌↔◌, none, true, ok}
use gove.Prelude.Int.{pos, finite}
use gove.Contracts.{matching, completed, reserved, available, TripOfferState}
use gove.Trip.Lifecycle.{TripCommand, transitions}
use gove.Dispatch.ExpiryPolicy.{
  DriverReservationState, active, DispatchExpiryInput, DispatchExpiryDecision, not_due,
  expired_and_released, already_terminal, evaluate_dispatch_expiry, is_terminal_trip_state,
}
use gove.Dispatch.ExpiryPolicy.Laws.{
  Decides, IsFree, IsUnchanged, stored, evaluate_dispatch_expiry-Decides,
  evaluate_dispatch_expiry-retry, evaluate_dispatch_expiry_replay, is_terminal_trip_state_iff,
}

-- An offer at its expiry time.
abbrev due : DispatchExpiryInput
due = record {
  now_epoch_ms = finite (pos 20000);
  offer_expires_at_epoch_ms = finite (pos 20000);
  offer_state = TripOfferState.pending;
  reservation_state = active;
  work_state = reserved;
  trip_state = matching;
}

abbrev decision : DispatchExpiryDecision
decision = record {
  outcome = expired_and_released;
  offer = record { from = TripOfferState.pending; to = TripOfferState.expired };
  reservation = record { from = active; to = DriverReservationState.expired };
  work_state = record { from = reserved; to = available };
  may_retry_matching = true;
}

evaluate_dispatch_expiry-due : evaluate_dispatch_expiry due ≡ ok decision
unfolding evaluate_dispatch_expiry
evaluate_dispatch_expiry-due = refl

evaluate_dispatch_expiry-Decides_example :
    (d : DispatchExpiryDecision) × (evaluate_dispatch_expiry due ≡ ok d)
    × Decides (pos 20000) (pos 20000) due d
    × (d.offer.from ≡ TripOfferState.pending)
    × (d.reservation.from ≡ active)
    × (d.work_state.from ≡ reserved)
evaluate_dispatch_expiry-Decides_example =
    evaluate_dispatch_expiry-Decides due (pos 20000) (pos 20000) refl refl

evaluate_dispatch_expiry-retry_example : (decision.may_retry_matching ≡ true) ↔ (
    (decision.outcome ≢ not_due)
    × (due.trip_state ≡ matching)
    × IsFree decision.offer.to decision.reservation.to decision.work_state.to)
evaluate_dispatch_expiry-retry_example =
    evaluate_dispatch_expiry-retry due evaluate_dispatch_expiry-due

evaluate_dispatch_expiry_replay_example :
    (e : DispatchExpiryDecision) × (evaluate_dispatch_expiry
        (stored due decision (finite (pos 30000)))
      ≡ ok e)
    × (e.outcome ≡ already_terminal)
    × IsUnchanged (stored due decision (finite (pos 30000))) e
    × (e.may_retry_matching ≡ true)
evaluate_dispatch_expiry_replay_example =
    evaluate_dispatch_expiry_replay due (pos 30000) evaluate_dispatch_expiry-due refl

is_terminal_trip_state_iff_example :
    (is_terminal_trip_state completed ≡ true) ↔ ((c : TripCommand) → transitions completed c ≡ none)
is_terminal_trip_state_iff_example = is_terminal_trip_state_iff completed
