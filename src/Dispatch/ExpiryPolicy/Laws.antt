-- ===== src/Dispatch/ExpiryPolicy/Laws.antt =====
-- What the decisions of apps/api/src/dispatch/dispatch-expiry-policy.ts guarantee.
use gove.Prelude.{◌≡◌, refl, ◌≢◌, ◌⊎◌, ◌↔◌, none, ok, bind_ok, true, arith}
use gove.Prelude.Int.{ℤ, Double, finite, ◌<ℤ◌, ◌≤ℤ◌}
use gove.Contracts.{
  TripState, matching, requested, completed, cancelled, driver_to_pickup, at_pickup, in_progress,
  no_driver_available, DriverWorkState, offline, available, reserved, TripOfferState, rejected,
  revoked,
}
use gove.Trip.Lifecycle.{TripCommand, cancel, transitions}
use gove.Dispatch.ExpiryPolicy.{
  DriverReservationState, active, released, DispatchExpiryInput, RetryMatchingContext,
  DispatchExpiryDecision, now_epoch_ms, offer_expires_at_epoch_ms, assert_finite, not_due,
  expired_and_released, already_terminal, can_retry_matching, decide_expiry,
  evaluate_dispatch_expiry, is_terminal_trip_state,
}

-- No Driver is held: the offer is resolved without acceptance, the reservation is over, and the
-- Driver is free or off duty.
abbrev pub IsFree : TripOfferState → DriverReservationState → DriverWorkState → Type 0
IsFree o r w =
    ((o ≡ rejected) ⊎ (o ≡ TripOfferState.expired) ⊎ (o ≡ revoked))
    × ((r ≡ released) ⊎ (r ≡ DriverReservationState.expired))
    × ((w ≡ offline) ⊎ (w ≡ available))

can_retry_matching_iff :
    (c : RetryMatchingContext)
    → (can_retry_matching c ≡ true)
      ↔ ((c.trip_state ≡ matching) × IsFree c.offer_state c.reservation_state c.work_state)
unfolding can_retry_matching
can_retry_matching_iff c = (λ h. ground arith, λ h. ground arith)

-- Nothing moves.
abbrev pub IsUnchanged : DispatchExpiryInput → DispatchExpiryDecision → Type 0
IsUnchanged input d =
    (d.offer.to ≡ input.offer_state)
    × (d.reservation.to ≡ input.reservation_state)
    × (d.work_state.to ≡ input.work_state)

-- The offer expires; an ACTIVE reservation expires with it and a RESERVED Driver becomes AVAILABLE,
-- while any other reservation and any other Driver stay as they are.
abbrev pub IsExpired : DispatchExpiryInput → DispatchExpiryDecision → Type 0
IsExpired input d =
    (d.offer.to ≡ TripOfferState.expired)
    × (input.reservation_state ≡ active → d.reservation.to ≡ DriverReservationState.expired)
    × (input.reservation_state ≢ active → d.reservation.to ≡ input.reservation_state)
    × (input.work_state ≡ reserved → d.work_state.to ≡ available)
    × (input.work_state ≢ reserved → d.work_state.to ≡ input.work_state)

abbrev pub Decides : ℤ → ℤ → DispatchExpiryInput → DispatchExpiryDecision → Type 0
Decides now expires_at input d =
    ((input.offer_state ≢ TripOfferState.pending)
      × (d.outcome ≡ already_terminal)
      × IsUnchanged input d)
    ⊎ ((input.offer_state ≡ TripOfferState.pending)
        × (now <ℤ expires_at)
        × (d.outcome ≡ not_due)
        × IsUnchanged input d)
    ⊎ ((input.offer_state ≡ TripOfferState.pending)
        × (expires_at ≤ℤ now)
        × (d.outcome ≡ expired_and_released)
        × IsExpired input d)

-- Every evaluation with finite times decides one of three things, by the offer's state and the
-- clock: a resolved offer is left alone, a pending one is left alone before its expiry time and is
-- expired from that time on. The `from` states are those of the input.
pub evaluate_dispatch_expiry-Decides :
    (input : DispatchExpiryInput) (now expires_at : ℤ)
    → input.now_epoch_ms ≡ finite now
    → input.offer_expires_at_epoch_ms ≡ finite expires_at
    → (d : DispatchExpiryDecision) × (evaluate_dispatch_expiry input ≡ ok d)
      × Decides now expires_at input d
      × (d.offer.from ≡ input.offer_state)
      × (d.reservation.from ≡ input.reservation_state)
      × (d.work_state.from ≡ input.work_state)
unfolding evaluate_dispatch_expiry
evaluate_dispatch_expiry-Decides input now expires_at hn he = (
  decide_expiry now expires_at input,
  ground arith,
  ground arith,
  ground arith,
  ground arith,
  ground arith,
)

-- Matching may be retried exactly when the offer was due or resolved before, the Trip is MATCHING,
-- and the states after the decision hold no Driver.
pub evaluate_dispatch_expiry-retry :
    (input : DispatchExpiryInput) {d : DispatchExpiryDecision}
    → evaluate_dispatch_expiry input ≡ ok d
    → (d.may_retry_matching ≡ true) ↔ (
        (d.outcome ≢ not_due)
        × (input.trip_state ≡ matching)
        × IsFree d.offer.to d.reservation.to d.work_state.to)
unfolding evaluate_dispatch_expiry
evaluate_dispatch_expiry-retry input h = (λ r. ground arith, λ r. ground arith)

-- The input once the decision has been stored, at a later evaluation.
abbrev pub stored : DispatchExpiryInput → DispatchExpiryDecision → Double → DispatchExpiryInput
stored input d now = record input {
  now_epoch_ms = now;
  offer_state = d.offer.to;
  reservation_state = d.reservation.to;
  work_state = d.work_state.to;
}

-- A replay after an expiry changes nothing more, whatever the clock shows, and gives the same
-- answer on the retry.
pub evaluate_dispatch_expiry_replay :
    (input : DispatchExpiryInput) (now : ℤ) {d : DispatchExpiryDecision}
    → evaluate_dispatch_expiry input ≡ ok d
    → d.outcome ≡ expired_and_released
    → (e : DispatchExpiryDecision) × (evaluate_dispatch_expiry (stored input d (finite now)) ≡ ok e)
      × (e.outcome ≡ already_terminal)
      × IsUnchanged (stored input d (finite now)) e
      × (e.may_retry_matching ≡ d.may_retry_matching)
unfolding evaluate_dispatch_expiry
evaluate_dispatch_expiry_replay input now {d} h o =
    bind_ok (assert_finite input.now_epoch_ms now_epoch_ms) _ h λ n hn h1.
      bind_ok (assert_finite input.offer_expires_at_epoch_ms offer_expires_at_epoch_ms) _ h1
        λ ex he h2. (
          decide_expiry now ex (stored input d (finite now)),
          rw he,
          ground arith,
          ground arith,
          ground arith,
        )

-- A Trip state is terminal for the expiry policy exactly when the life cycle of a Trip accepts no
-- command in it.
pub is_terminal_trip_state_iff :
    (s : TripState)
    → (is_terminal_trip_state s ≡ true) ↔ ((c : TripCommand) → transitions s c ≡ none)
unfolding is_terminal_trip_state transitions
is_terminal_trip_state_iff requested = (cc, λ h. cc (h cancel))
is_terminal_trip_state_iff matching = (cc, λ h. cc (h cancel))
is_terminal_trip_state_iff driver_to_pickup = (cc, λ h. cc (h cancel))
is_terminal_trip_state_iff at_pickup = (cc, λ h. cc (h cancel))
is_terminal_trip_state_iff in_progress = (cc, λ h. cc (h cancel))
is_terminal_trip_state_iff completed = (λ _ c. refl, λ _. refl)
is_terminal_trip_state_iff cancelled = (λ _ c. refl, λ _. refl)
is_terminal_trip_state_iff no_driver_available = (λ _ c. refl, λ _. refl)
