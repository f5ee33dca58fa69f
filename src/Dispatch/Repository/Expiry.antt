-- ===== src/Dispatch/Repository/Expiry.antt =====
-- apps/api/src/dispatch/dispatch.repository.ts: expireDueOffers, the sweep over due Offers.
use gove.Prelude.{
  ℕ, suc, ◌+◌, Bool, true, false, ◌&&◌, ◌||◌, not, List, [], ◌∷◌, filter, take, find?, Option, none,
  some, is_some, Result, ok, err, if◌then◌else◌, ltb, leb, ◌==◌,
}
use gove.Prelude.Text.{text_eq, text_lt}
use gove.Database.{◌>>=◌, ◌>>◌, pure, gets, order_by, or_throw, transaction}
use gove.Dispatch.Tables.{
  Uuid, Trip, Offer, Reservation, WorkState, Db, Env, Thrown, Work, expire_offer,
  expire_offer_no_reassignment, dispatch_offer_expired, command_error, expiry_error,
}
use gove.Dispatch.Repository.{
  append_trip_transition, append_trip_outbox, find_trip, update_trips, with_state, expire_offer_row,
}
use gove.Contracts.{
  matching, available, TripOfferState, trip_state_eq, work_state_eq, offer_state_eq,
}
use gove.Dispatch.ExpiryPolicy.{
  DriverReservationState, reservation_state_eq, DispatchExpiryInput, DispatchExpiryDecision,
  expired_and_released, not_due, already_terminal, evaluate_dispatch_expiry,
}
use gove.Dispatch.Repository.Matching.{reserve_next_offer, reassignment_input, exhaust, to_double}
use gove.Dispatch.Repository.Offers.{find_reservation}

-- status = 'PENDING' AND expires_at <= now()
abbrev pub is_due : Env → Offer → Bool
is_due env o = offer_state_eq o.status TripOfferState.pending && leb o.expires_at env.now

-- ... FOR UPDATE SKIP LOCKED
abbrev pub unless_locked : {A : Type 0} → Env → Uuid → Option A → Option A
unless_locked env id row = if env.is_locked id then none else row

-- The rows that expireDueOffer locks.
pub record DueOffer : Type 0 where
  pub trip : Trip
  pub offer : Offer
  pub reservation : Reservation
  pub work_state : WorkState

unfoldable pub lock_due : Env → Uuid → Db → Option DueOffer
unfolding find_trip find_reservation
lock_due env offer_id db = elim (find? (λ o. text_eq o.id offer_id && is_due env o) db.offers) [
  | none ↦ none
  | some offer ↦ elim (unless_locked env offer.trip_id (find_trip offer.trip_id db)) [
    | none ↦ none
    | some trip ↦ elim (unless_locked env offer.id (some offer)) [
      | none ↦ none
      | some offer ↦
          elim (unless_locked env offer.reservation_id (find_reservation offer.reservation_id db)) [
            | none ↦ none
            | some reservation ↦
                elim (unless_locked env offer.driver_user_id
                  (find? (λ w. text_eq w.driver_user_id offer.driver_user_id) db.work_states)) [
                    | none ↦ none
                    | some work_state ↦ some (record {
                      trip = trip;
                      offer = offer;
                      reservation = reservation;
                      work_state = work_state;
                    })
                  ]
          ]
    ]
  ]
]

-- What follows the first events of the expiry: a new Offer, or the end of matching.
unfoldable pub rematch : Env → DueOffer → ℕ → Work Bool
unfolding reserve_next_offer exhaust
rematch env due version = do
  reassigned ←
      reserve_next_offer env
        (reassignment_input due.trip.id due.trip.state version due.offer.driver_user_id)
  if is_some reassigned
      then pure true
      else (exhaust due.trip.id none expire_offer_no_reassignment version due.offer.id) >> pure true

-- The statements on a Trip that is still MATCHING.
unfoldable pub expire_matching : Env → DueOffer → Bool → Work Bool
unfolding update_trips append_trip_transition append_trip_outbox rematch
expire_matching env due may_retry = do
  update_trips (λ t. text_eq t.id due.trip.id) (with_state matching (due.trip.version + 1))
  append_trip_transition (record {
    trip_id = due.trip.id;
    actor_user_id = none;
    command = expire_offer;
    from_state = some matching;
    to_state = matching;
    from_version = some due.trip.version;
    to_version = due.trip.version + 1;
    correlation_id = due.offer.id;
  })
  append_trip_outbox due.trip.id (due.trip.version + 1) dispatch_offer_expired
  if not may_retry then pure true else rematch env due (due.trip.version + 1)

abbrev pub is_release : DispatchExpiryDecision → Bool
is_release decision =
    elim decision.outcome [
      | expired_and_released ↦ true
      | not_due ↦ false
      | already_terminal ↦ false
    ]
    && reservation_state_eq decision.reservation.to DriverReservationState.expired
    && work_state_eq decision.work_state.to available

abbrev pub expiry_input : Env → DueOffer → DispatchExpiryInput
expiry_input env due = record {
  now_epoch_ms = to_double env.now;
  offer_expires_at_epoch_ms = to_double due.offer.expires_at;
  offer_state = TripOfferState.pending;
  reservation_state = due.reservation.status;
  work_state = due.work_state.work_state;
  trip_state = due.trip.state;
}

unfoldable pub expire_locked : Env → DueOffer → Work Bool
unfolding evaluate_dispatch_expiry expire_offer_row append_trip_outbox expire_matching
expire_locked env due = do
  decision ← or_throw (evaluate_dispatch_expiry (expiry_input env due)) expiry_error
  if not (is_release decision)
      then pure false
      else expire_offer_row env due.offer.id due.offer.trip_id due.offer.driver_user_id
        >> (if not (trip_state_eq due.trip.state matching)
            then append_trip_outbox due.offer.trip_id due.trip.version dispatch_offer_expired
              >> pure true
            else expire_matching env due decision.may_retry_matching)

unfoldable pub expire_due : Env → Option DueOffer → Work Bool
unfolding expire_locked
expire_due env none = pure false
expire_due env (some due) = expire_locked env due

unfoldable pub expire_due_offer : Env → Uuid → Work Bool
unfolding lock_due expire_due
expire_due_offer env offer_id = gets (lock_due env offer_id) >>= expire_due env

-- The worklist, by expiry time and id.
unfoldable pub due_offers : Env → Db → List Offer
due_offers env db = take 100 (
    order_by
      (λ a b. ltb a.expires_at b.expires_at || (a.expires_at == b.expires_at && text_lt a.id b.id))
      (filter (is_due env) db.offers))

abbrev pub add_one : Bool → ℕ → ℕ
add_one true n = n + 1
add_one false n = n

-- One pass of the loop each, in a transaction of its own: a DispatchCommandError is passed over,
-- any other error ends the sweep.
unfoldable pub expire_each : (ℕ → Env) → List Offer → ℕ → Db → Result Thrown ℕ × Db
unfolding expire_due_offer transaction
expire_each envs [] processed db = (ok processed, db)
expire_each envs (offer ∷ offers) processed db =
    let (outcome, db') = transaction (expire_due_offer (envs 0) offer.id) db in
    elim outcome [
      | ok done ↦ expire_each (λ n. envs (suc n)) offers (add_one done processed) db'
      | err (command_error code) ↦ expire_each (λ n. envs (suc n)) offers processed db'
      | err other ↦ (err other, db')
    ]

unfoldable pub expire_due_offers : Env → (ℕ → Env) → Db → Result Thrown ℕ × Db
unfolding due_offers expire_each
expire_due_offers env envs db = expire_each envs (due_offers env db) 0 db
