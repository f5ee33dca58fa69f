-- ===== src/Dispatch/Repository/Timeliness.antt =====
-- When acceptOffer and rejectOffer of apps/api/src/dispatch/dispatch.repository.ts succeed.
use gove.Prelude.{
  ◌≡◌, refl, sym, ◌∙◌, subst, ◌<◌, true, false, not, Option, none, some, inl, inr, ◌⊎◌, ok, arith,
}
use gove.Prelude.Text.{text_eq, text_eq→eq}
use gove.Contracts.{TripOfferState, trip_state_eq, offer_state_eq, matching, accepted}
use gove.Database.{pure}
use gove.Database.Laws.{
  Ensures, bind_ends, ok_value, bind-Ensures, if-Ensures_known, if_end, gets_end, some_or_throw_end,
  throw_when_end,
}
use gove.Dispatch.ExpiryPolicy.{DriverReservationState, active, reservation_state_eq}
use gove.Dispatch.Tables.{
  Reservation, Db, Env, DispatchCommandErrorCode, Thrown, Work, offer_expired,
  offer_already_resolved,
}
use gove.Dispatch.Repository.{OfferRow}
use gove.Dispatch.Repository.Offers.{
  answer_row, OfferCommandInput, OfferResult, find_offer, find_reservation, is_late,
  answer_reserved, answer_pending, answer_acceptance, succeeded, refused,
}

-- The reservation is ACTIVE, both readings of the clock are before the expiry times, and the Trip is
-- MATCHING.
abbrev pub InTime : Env → OfferRow → Reservation → Type 0
InTime env row r =
    (r.status ≡ active)
    × (env.date_now < r.expires_at)
    × (env.date_now_later < row.offer.expires_at)
    × (row.trip_state ≡ matching)

-- A success comes from an Offer in time only.
abbrev Timely : Env → OfferRow → Option Reservation → OfferResult → Type 0
Timely env row found (succeeded response) = (r : Reservation) × (found ≡ some r) × InTime env row r
Timely env row found (refused code) = Unit

refused-Timely :
    (env : Env) (row : OfferRow) (found : Option Reservation) (code : DispatchCommandErrorCode)
    → Ensures {S = Db} {E = Thrown} (pure (refused code)) (λ s a s'. Timely env row found a)
refused-Timely env row found code s a s' h = subst (Timely env row found) (ok_value h) tt

tests-InTime :
    (env : Env) (row : OfferRow) (r : Reservation)
    → reservation_state_eq r.status DriverReservationState.active ≡ true
    → is_late env r row.offer ≡ false
    → trip_state_eq row.trip_state matching ≡ true
    → InTime env row r
tests-InTime env row r a l m =
    (ground (arith, a), ground (arith, l), ground (arith, l), ground (arith, m))

InTime-Timely :
    (env : Env) (row : OfferRow) (r : Reservation) (a : OfferResult)
    → InTime env row r
    → Timely env row (some r) a
InTime-Timely env row r (succeeded response) t = (r, refl, t)
InTime-Timely env row r (refused code) t = tt

answer_reserved-Timely :
    (env : Env) (input : OfferCommandInput) (row : OfferRow)
    (decide : Reservation → Work OfferResult) (found : Option Reservation)
    → Ensures (answer_reserved env input row decide found) (λ s a s'. Timely env row found a)
unfolding answer_reserved
answer_reserved-Timely env input row decide none =
    refused-Timely env row none offer_already_resolved
answer_reserved-Timely env input row decide (some r) =
    if-Ensures_known (not (reservation_state_eq r.status DriverReservationState.active)) _ _
      (λ over. refused-Timely env row (some r) offer_already_resolved)
      (λ a.
        if-Ensures_known (is_late env r row.offer) _ _
          (λ late. bind-Ensures _ _ λ done. refused-Timely env row (some r) offer_expired)
          (λ l.
            if-Ensures_known (not (trip_state_eq row.trip_state matching)) _ _
              (λ other. refused-Timely env row (some r) offer_already_resolved)
              (λ m s b s' h.
                InTime-Timely env row r b
                  (tests-InTime env row r (ground (arith, a)) l (ground (arith, m))))))

-- What a first success of acceptOffer tells of the database: the Offer is the Driver's, and it was
-- in time, or had been accepted before.
abbrev pub Acceptable : Env → OfferCommandInput → Db → OfferResult → Type 0
Acceptable env input db (refused code) = Unit
Acceptable env input db (succeeded response) =
    (row : OfferRow) × (find_offer input.offer_id db ≡ some row)
    × (row.offer.driver_user_id ≡ input.driver_user_id)
    × (((r : Reservation) × (find_reservation row.offer.reservation_id db ≡ some r)
          × InTime env row r)
        ⊎ (row.offer.status ≡ accepted))

Timely-Acceptable :
    (env : Env) (input : OfferCommandInput) (db : Db) (row : OfferRow) (a : OfferResult)
    → find_offer input.offer_id db ≡ some row
    → row.offer.driver_user_id ≡ input.driver_user_id
    → Timely env row (find_reservation row.offer.reservation_id db) a
    → Acceptable env input db a
Timely-Acceptable env input db row (succeeded response) f o t = (row, f, o, inl t)
Timely-Acceptable env input db row (refused code) f o t = tt

before-Acceptable :
    (env : Env) (input : OfferCommandInput) (db : Db) (row : OfferRow) (a : OfferResult)
    → find_offer input.offer_id db ≡ some row
    → row.offer.driver_user_id ≡ input.driver_user_id
    → row.offer.status ≡ accepted
    → Acceptable env input db a
before-Acceptable env input db row (succeeded response) f o t = (row, f, o, inr t)
before-Acceptable env input db row (refused code) f o t = tt

answer_pending-Acceptable :
    (env : Env) (input : OfferCommandInput) (row : OfferRow)
    (decide : Reservation → Work OfferResult) (db : Db) (a : OfferResult) (db' : Db)
    → find_offer input.offer_id db ≡ some row
    → row.offer.driver_user_id ≡ input.driver_user_id
    → answer_pending env input row decide db ≡ ok (a, db')
    → Acceptable env input db a
unfolding answer_pending
answer_pending-Acceptable env input row decide db a db' f o h = bind_ends _ _ h λ found t e e'.
    Timely-Acceptable env input db row a f o (
      subst (λ x. Timely env row x a)
        (sym (gets_end (find_reservation row.offer.reservation_id) db e).0)
        (answer_reserved-Timely env input row decide found t a db' e'))

decided :
    (env : Env) (input : OfferCommandInput) (db : Db) (row : OfferRow) (a : OfferResult) (db' : Db)
    → find_offer input.offer_id db ≡ some row
    → row.offer.driver_user_id ≡ input.driver_user_id
    → answer_row env input row db ≡ ok (a, db')
    → Acceptable env input db a
unfolding answer_row
decided env input db row a db' f o h =
    elim (if_end (offer_state_eq row.offer.status accepted) _ _ db h) [
      | inl (e, k) ↦ before-Acceptable env input db row a f o (ground (arith, e))
      | inr (e, k) ↦
          elim (if_end (not (offer_state_eq row.offer.status TripOfferState.pending)) _ _ db k) [
            | inl (p, r) ↦ subst (Acceptable env input db) (ok_value r) tt
            | inr (p, r) ↦ answer_pending-Acceptable env input row _ db a db' f o r
          ]
    ]

-- An Offer is accepted only by its own Driver, with the reservation ACTIVE, before both expiry times
-- by the clock of the process and while the Trip is MATCHING, unless it had been accepted before.
pub answer_acceptance-Acceptable :
    (env : Env) (input : OfferCommandInput) (db : Db) (a : OfferResult) (db' : Db)
    → answer_acceptance env input db ≡ ok (a, db')
    → Acceptable env input db a
unfolding answer_acceptance
answer_acceptance-Acceptable env input db a db' h = bind_ends _ _ h λ found t e e'.
    bind_ends _ _ e' λ row t2 e2 e2'. bind_ends _ _ e2' λ u t3 e3 e3'.
      decided env input db row a db'
        ((gets_end (find_offer input.offer_id) db e).0 ∙ (some_or_throw_end found _ t e2).0)
        (text_eq→eq row.offer.driver_user_id input.driver_user_id (
          ground (
            arith,
            (throw_when_end (not (text_eq row.offer.driver_user_id input.driver_user_id)) _ t2
                e3).0,
          )))
        (subst (λ x. answer_row env input row x ≡ ok (a, db'))
          (sym (
            (gets_end (find_offer input.offer_id) db e).1
            ∙ (some_or_throw_end found _ t e2).1
            ∙ (throw_when_end _ _ t2 e3).1))
          e3')
