-- ===== src/Dispatch/Repository/Listing.antt =====
-- Which Offers listPendingOffers of apps/api/src/dispatch/dispatch.repository.ts lists.
mod Tests
use gove.Prelude.{
  ℕ, ltb, not, ◌==◌, ◌≡◌, refl, sym, ap, ◌∙◌, subst, Bool, true, false, ◌&&◌, ◌||◌, inl, inr, List,
  [], ◌∷◌, ◌++◌, any, map, filter, find?, Option, none, some, ok, arith, Bool-cases,
}
use gove.Prelude.Text.{text_eq, text_eq_refl}
use gove.Contracts.{TripOfferState, offer_state_eq}
use gove.Database.{order_by, order_by_insert, flat_map, ◌>>=◌}
use gove.Database.Laws.{Ensures, bind-Ensures, if-Ensures, bind_ends, ok_value, ok_state}
use gove.Dispatch.Repository.Matching.{
  ReserveInput, insert_offer, insert_reservation, reserve_candidate, reserve_candidates,
  reserve_next_offer,
}
use gove.Dispatch.Ranking.{DriverCandidate}
use gove.Dispatch.Tables.{
  Uuid, Trip, Offer, Reservation, EventType, TripOfferResponse, Db, Env, Work,
}
use gove.Dispatch.Repository.{
  OfferRow, max_offer_attempts, find_trip, append_trip_outbox, join_trip, to_offer_response,
}
use gove.Dispatch.Repository.Reads.{is_offered_before, list_pending_offers}

module _ {A : Type 0} (p : A → Bool) where
  any-append : (xs ys : List A) → any p (xs ++ ys) ≡ (any p xs || any p ys)
  any-append [] ys = refl
  any-append (x ∷ xs) ys = ground (arith, any-append xs ys)

  any-order_by_insert :
      (less : A → A → Bool) (x : A) (xs : List A)
      → any p (order_by_insert less x xs) ≡ (p x || any p xs)
  any-order_by_insert less x [] = refl
  any-order_by_insert less x (y ∷ ys) = ground (arith, any-order_by_insert less x ys)

  any-order_by : (less : A → A → Bool) (xs : List A) → any p (order_by less xs) ≡ any p xs
  any-order_by less [] = refl
  any-order_by less (x ∷ xs) =
      any-order_by_insert less x (order_by less xs) ∙ ap (λ b. p x || b) (any-order_by less xs)

any-map :
    {A B : Type 0} (p : B → Bool) (f : A → B) (xs : List A)
    → any p (map f xs) ≡ any (λ x. p (f x)) xs
any-map p f [] = refl
any-map p f (x ∷ xs) = ground (arith, any-map p f xs)

-- An Offer has its Trip.
any-join_trip :
    (p : OfferRow → Bool) (o : Offer) (t : Trip) (trips : List Trip)
    → ((u : Trip) → p (record { offer = o; trip_state = u.state; trip_version = u.version }) ≡ true)
    → find? (λ u. text_eq u.id o.trip_id) trips ≡ some t
    → any p (
        map
          (λ u. record { offer = o; trip_state = u.state; trip_version = u.version })
          (filter (λ u. text_eq u.id o.trip_id) trips))
      ≡ true
any-join_trip p o t [] all e = cc
any-join_trip p o t (u ∷ us) all e = elim (Bool-cases (text_eq u.id o.trip_id)) [
  | inl same ↦ rw (same, all u) refl
  | inr other ↦ rw other (any-join_trip p o t us all (ground (arith, e, other)))
]

-- The Offer is the last one that was inserted, and it is pending.
abbrev pub IsLatest : Option OfferRow → Db → Type 0
IsLatest none db = Unit
IsLatest (some row) db =
    (older : List Offer) × (db.offers ≡ row.offer ∷ older)
    × (row.offer.status ≡ TripOfferState.pending)

insert_offer-IsLatest :
    (env : Env) (input : ReserveInput) (attempt : ℕ) (r : Reservation) (d : Uuid) (s : Db)
    (row : OfferRow) (s' : Db)
    → insert_offer env input attempt r d s ≡ ok (row, s')
    → (s'.offers ≡ row.offer ∷ s.offers) × (row.offer.status ≡ TripOfferState.pending)
unfolding insert_offer ◌>>=◌
insert_offer-IsLatest env input attempt r d s row s' h = ground arith

append_trip_outbox-offers :
    (trip_id : Uuid) (version : ℕ) (event : EventType)
    → Ensures (append_trip_outbox trip_id version event) (λ s a s'. s'.offers ≡ s.offers)
unfolding append_trip_outbox ◌>>=◌
append_trip_outbox-offers trip_id version event s a s' h = ground arith

reserve_candidate-IsLatest :
    (env : Env) (input : ReserveInput) (attempt : ℕ) (d : Uuid) (next : Work (Option OfferRow))
    (r : Option Reservation)
    → Ensures next (λ s a s'. IsLatest a s')
    → Ensures (reserve_candidate env input attempt d next r) (λ s a s'. IsLatest a s')
unfolding reserve_candidate
reserve_candidate-IsLatest env input attempt d next none f = f
reserve_candidate-IsLatest env input attempt d next (some r) f = bind-Ensures _ _ λ row_count.
    if-Ensures (not (row_count == 1)) _ _ (bind-Ensures _ _ λ done. f) (λ s b s' h.
      bind_ends _ _ h λ row t e e'. bind_ends _ _ e' λ sent u e2 e3.
        let first = insert_offer-IsLatest env input attempt r d s row t e in
        let kept = append_trip_outbox-offers _ _ _ t sent u e2 in
        subst (λ o. IsLatest o s') (ok_value e3)
          (subst (IsLatest (some row)) (ok_state e3) (s.offers, kept ∙ first.0, first.1)))

reserve_candidates-IsLatest :
    (env : Env) (input : ReserveInput) (attempt : ℕ) (cs : List DriverCandidate)
    → Ensures (reserve_candidates env input attempt cs) (λ s a s'. IsLatest a s')
unfolding reserve_candidates
reserve_candidates-IsLatest env input attempt [] s a s' h =
    subst (λ o. IsLatest o s') (ok_value h) tt
reserve_candidates-IsLatest env input attempt (c ∷ cs) s a s' h =
    bind-Ensures _ _
      (λ r.
        reserve_candidate-IsLatest env input attempt c.driver_id _ r
          (reserve_candidates-IsLatest env input attempt cs))
      s a s' h

reserve_next_offer-IsLatest :
    (env : Env) (input : ReserveInput)
    → Ensures (reserve_next_offer env input) (λ s a s'. IsLatest a s')
unfolding reserve_next_offer
reserve_next_offer-IsLatest env input = bind-Ensures _ _ λ attempt.
    if-Ensures (ltb max_offer_attempts attempt) _ _
      (λ s a s' h. subst (λ o. IsLatest o s') (ok_value h) tt)
      (bind-Ensures _ _ λ candidates.
        bind-Ensures _ _ λ ranked. reserve_candidates-IsLatest env input attempt ranked)

-- An Offer that is the latest and pending is listed.
IsLatest-listed :
    (row : OfferRow) (t : Trip) (db : Db)
    → IsLatest (some row) db
    → find_trip row.offer.trip_id db ≡ some t
    → any (λ r. text_eq r.id row.offer.id) (list_pending_offers row.offer.driver_user_id db) ≡ true
unfolding list_pending_offers find_trip to_offer_response
IsLatest-listed row t db latest found =
    let p = λ (x : OfferRow). text_eq x.offer.id row.offer.id in
    let asked = λ (o : Offer).
      text_eq o.driver_user_id row.offer.driver_user_id
      && offer_state_eq o.status TripOfferState.pending in
    let mine : asked row.offer ≡ true = rw (text_eq_refl row.offer.driver_user_id, latest.2) refl in
    let joined : any p (join_trip db row.offer) ≡ true =
      any-join_trip p row.offer t db.trips (λ u. text_eq_refl row.offer.id) found in
    let first : any p (flat_map (join_trip db) (filter asked (row.offer ∷ latest.0))) ≡ true =
      rw mine (
        any-append p (join_trip db row.offer) (flat_map (join_trip db) (filter asked latest.0))
        ∙ rw joined refl) in
    any-map (λ r. text_eq r.id row.offer.id) to_offer_response
      (order_by is_offered_before (flat_map (join_trip db) (filter asked db.offers)))
    ∙ any-order_by p is_offered_before (flat_map (join_trip db) (filter asked db.offers))
    ∙ subst (λ os. any p (flat_map (join_trip db) (filter asked os)) ≡ true) (sym latest.1) first

-- When reserveNextOffer answers with an Offer and the Trip of the Offer is stored, the Offer is
-- in the list of pending Offers of its Driver, whatever else the database holds and whatever the
-- clocks say.
pub reserve_next_offer-listed :
    (env : Env) (input : ReserveInput) (db db' : Db) (row : OfferRow) (t : Trip)
    → reserve_next_offer env input db ≡ ok (some row, db')
    → find_trip row.offer.trip_id db' ≡ some t
    → any (λ r. text_eq r.id row.offer.id) (list_pending_offers row.offer.driver_user_id db') ≡ true
reserve_next_offer-listed env input db db' row t h found =
    IsLatest-listed row t db' (reserve_next_offer-IsLatest env input db (some row) db' h) found
