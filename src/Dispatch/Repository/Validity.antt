-- ===== src/Dispatch/Repository/Validity.antt =====
-- What the statements of apps/api/src/dispatch/dispatch.repository.ts do to the Offers and the
-- reservations.
use gove.Prelude.{
  ◌≡◌, refl, sym, ap, subst, ℕ, ◌+◌, ◌≤◌, Bool, true, false, ◌&&◌, ◌||◌, List, [], ◌∷◌, Option,
  none, some, ◌⊎◌, Bool-cases, inl, inr, ok, count, any, arith,
}
use gove.Prelude.Text.{Text, text_eq, text_eq→eq}
use gove.Database.{◌>>=◌, pure, update, gets, throw_when, some_or_throw}
use gove.Database.Laws.{Ensures, Keeps, ok_state}
use gove.Dispatch.ExpiryPolicy.{DriverReservationState, reservation_state_eq}
use gove.Dispatch.Tables.{
  Uuid, Trip, Offer, Reservation, WorkState, EventType, ResponseBody, Operation, Db, Env, Thrown,
  Work,
}
use gove.Dispatch.Repository.{
  OfferRow, update_trips, update_work_states, update_offers, update_reservations,
  append_trip_transition, TransitionInput, append_trip_outbox, persist_receipt, resolved,
  max_offer_attempts, with_work_state, eq_uuid_option,
}
use gove.Contracts.{DriverWorkState, offline, available, work_state_eq}
use gove.Dispatch.Repository.Bindings.{
  AreBound, binds, is_bound, update-AreBound, rebinds, delivery_of_bound, delivery_of_free,
}
use gove.Dispatch.Repository.Matching.{
  max_attempt, next_attempt, insert_reservation, new_reservation, insert_offer, new_offer,
  ReserveInput,
}

abbrev pub is_for_trip : Uuid → Offer → Bool
is_for_trip t o = text_eq o.trip_id t

abbrev pub is_active_for_trip : Uuid → Reservation → Bool
is_active_for_trip t r =
    reservation_state_eq r.status DriverReservationState.active && text_eq r.trip_id t

abbrev pub is_active_for_driver : Uuid → Reservation → Bool
is_active_for_driver d r =
    reservation_state_eq r.status DriverReservationState.active && text_eq r.driver_user_id d

-- No Trip has had more Offers than its last attempt number, which is three at most.
abbrev pub IsBounded : List Offer → Type 0
IsBounded os =
    (t : Uuid)
    → (count (is_for_trip t) os ≤ max_attempt t os) × (max_attempt t os ≤ max_offer_attempts)

-- No Trip and no Driver has two ACTIVE reservations.
abbrev pub IsExclusive : List Reservation → Type 0
IsExclusive rs =
    ((t : Uuid) → count (is_active_for_trip t) rs ≤ 1)
    × ((d : Uuid) → count (is_active_for_driver d) rs ≤ 1)

abbrev pub IsValid : Db → Type 0
IsValid db = IsBounded db.offers × (IsExclusive db.reservations × AreBound db.work_states)

-- The Offers, the reservations and the work states are the same.
abbrev pub Same : Db → Db → Type 0
Same s s' =
    (s'.offers ≡ s.offers) × ((s'.reservations ≡ s.reservations) × (s'.work_states ≡ s.work_states))

-- The work leaves them as they are.
abbrev pub Frames : {A : Type 0} → Work A → Type 0
Frames work = Ensures work (λ s a s'. Same s s')

pub Frames-Keeps : {A : Type 0} (work : Work A) → Frames work → Keeps IsValid work
Frames-Keeps work f s a s' h v = (
  subst IsBounded (sym (f s a s' h).0) v.0,
  (subst IsExclusive (sym (f s a s' h).1.0) v.1.0, subst AreBound (sym (f s a s' h).1.1) v.1.1),
)

pub pure-Frames : {A : Type 0} (x : A) → Frames (pure x)
pure-Frames x s a s' h = subst (λ t. Same s t) (ok_state h) (refl, (refl, refl))

pub gets-Frames : {A : Type 0} (f : Db → A) → Frames (gets f)
gets-Frames f s a s' h = ground arith

pub throw_when-Frames : (c : Bool) (e : Thrown) → Frames (throw_when c e)
throw_when-Frames c e s a s' h = ground arith

pub some_or_throw-Frames : {A : Type 0} (o : Option A) (e : Thrown) → Frames (some_or_throw o e)
some_or_throw-Frames (some x) e s a s' h = pure-Frames x s a s' h
some_or_throw-Frames none e s a s' h = ground arith

pub update_trips-Frames : (p : Trip → Bool) (c : Trip → Trip) → Frames (update_trips p c)
unfolding update_trips
update_trips-Frames p c s a s' h = ground arith

-- An UPDATE of work states whose rows are bound again.
pub update_work_states-Keeps :
    (p : WorkState → Bool) (c : WorkState → WorkState)
    → ((w : WorkState) → (c w).driver_user_id ≡ w.driver_user_id)
    → ((w : WorkState) → p w ≡ true → is_bound w ≡ true → is_bound (c w) ≡ true)
    → Keeps IsValid (update_work_states p c)
unfolding update_work_states
update_work_states-Keeps p c f g s a s' h v =
    subst IsValid (ok_state h) (v.0, (v.1.0, update-AreBound p c s.work_states f g v.1.1))

-- An UPDATE of the Drivers bound to a Trip.
pub update_bound-Keeps :
    (p : WorkState → Bool) (env : Env) (state : DriverWorkState) (trip : Option Uuid) (id : Uuid)
    → ((w : WorkState) → p w ≡ true → eq_uuid_option w.current_trip_id id ≡ true)
    → binds state trip none ≡ true
    → Keeps IsValid (update_work_states p (with_work_state env state trip))
update_bound-Keeps p env state trip id f b =
    update_work_states-Keeps p (with_work_state env state trip) (λ w. refl)
      λ w h k.
        rebinds env state trip w
          (delivery_of_bound w.work_state w.current_trip_id w.current_delivery_id id (f w h) k) b

-- An UPDATE of free Drivers.
pub update_free-Keeps :
    (p : WorkState → Bool) (env : Env) (state : DriverWorkState) (trip : Option Uuid)
    → ((w : WorkState)
        → p w ≡ true
        → work_state_eq w.work_state offline || work_state_eq w.work_state available ≡ true)
    → binds state trip none ≡ true
    → Keeps IsValid (update_work_states p (with_work_state env state trip))
update_free-Keeps p env state trip f b =
    update_work_states-Keeps p (with_work_state env state trip) (λ w. refl)
      λ w h k.
        rebinds env state trip w
          (delivery_of_free w.work_state w.current_trip_id w.current_delivery_id (f w h) k) b

pub update_work_states-offers :
    (p : WorkState → Bool) (c : WorkState → WorkState)
    → Ensures (update_work_states p c) (λ s a s'. s'.offers ≡ s.offers)
unfolding update_work_states
update_work_states-offers p c s a s' h = ground arith

pub append_trip_transition-Frames : (i : TransitionInput) → Frames (append_trip_transition i)
unfolding append_trip_transition ◌>>=◌
append_trip_transition-Frames i s a s' h = ground arith

pub append_trip_outbox-Frames :
    (t : Uuid) (v : ℕ) (e : EventType) → Frames (append_trip_outbox t v e)
unfolding append_trip_outbox ◌>>=◌
append_trip_outbox-Frames t v e s a s' h = ground arith

pub persist_receipt-Frames :
    (actor : Uuid) (o : Operation) (key fp : Text) (r : ResponseBody)
    → Frames (persist_receipt actor o key fp r)
unfolding persist_receipt ◌>>=◌
persist_receipt-Frames actor o key fp r s a s' h = ground arith

-- An UPDATE that does not move an Offer to another Trip or attempt.
pub count-update {ℓ} :
    {A : Type ℓ} (q p : A → Bool) (c : A → A) (xs : List A)
    → ((x : A) → q (c x) ≡ q x)
    → count q (update p c xs) ≡ count q xs
count-update q p c [] h = refl
count-update q p c (x ∷ xs) h = ground (arith, count-update q p c xs h, h x)

-- An UPDATE whose rows fail the test.
pub count-update_le {ℓ} :
    {A : Type ℓ} (q p : A → Bool) (c : A → A) (xs : List A)
    → ((x : A) → q (c x) ≡ false)
    → count q (update p c xs) ≤ count q xs
count-update_le q p c [] h = ground arith
count-update_le q p c (x ∷ xs) h = ground (arith, count-update_le q p c xs h, h x)

pub max_attempt-update :
    (t : Uuid) (p : Offer → Bool) (c : Offer → Offer) (os : List Offer)
    → ((o : Offer) → ((c o).trip_id ≡ o.trip_id) × ((c o).attempt_number ≡ o.attempt_number))
    → max_attempt t (update p c os) ≡ max_attempt t os
max_attempt-update t p c [] h = refl
max_attempt-update t p c (o ∷ os) h =
    ground (arith, max_attempt-update t p c os h, (h o).0, (h o).1)

pub update_offers-Keeps :
    (p : Offer → Bool) (c : Offer → Offer)
    → ((o : Offer) → ((c o).trip_id ≡ o.trip_id) × ((c o).attempt_number ≡ o.attempt_number))
    → Keeps IsValid (update_offers p c)
unfolding update_offers
update_offers-Keeps p c f s a s' h v = subst IsValid (ok_state h) (
  λ t. ground (
    arith,
    count-update (is_for_trip t) p c s.offers (λ o. ap (λ x. text_eq x t) (f o).0),
    max_attempt-update t p c s.offers f,
    (v.0 t).0,
    (v.0 t).1,
  ),
  v.1,
)

pub update_reservations-Keeps :
    (p : Reservation → Bool) (env : Env) (status : DriverReservationState)
    → reservation_state_eq status DriverReservationState.active ≡ false
    → Keeps IsValid (update_reservations p (resolved env status))
unfolding update_reservations
update_reservations-Keeps p env status f s a s' h v = subst IsValid (ok_state h) (
  v.0,
  (
    (
      λ t. ground (
        arith,
        count-update_le (is_active_for_trip t) p (resolved env status) s.reservations
            (λ r. ground (arith, f)),
        v.1.0.0 t,
      ),
      λ d. ground (
        arith,
        count-update_le (is_active_for_driver d) p (resolved env status) s.reservations
            (λ r. ground (arith, f)),
        v.1.0.1 d,
      ),
    ),
    v.1.1,
  ),
)

-- A reservation or an Offer that an INSERT adds.
count-any :
    (d t : Uuid) (rs : List Reservation)
    → any
        (λ r.
          reservation_state_eq r.status DriverReservationState.active
          && (text_eq r.driver_user_id d || text_eq r.trip_id t))
        rs
      ≡ false
    → (count (is_active_for_trip t) rs ≡ 0) × (count (is_active_for_driver d) rs ≡ 0)
count-any d t [] h = (refl, refl)
count-any d t (r ∷ rs) h = ground (arith, count-any d t rs)

cons-IsExclusive :
    (r : Reservation) (rs : List Reservation)
    → (count (is_active_for_trip r.trip_id) rs ≡ 0)
    → (count (is_active_for_driver r.driver_user_id) rs ≡ 0)
    → IsExclusive rs
    → IsExclusive (r ∷ rs)
cons-IsExclusive r rs h k v = (
  λ t. elim (Bool-cases (text_eq r.trip_id t)) [
    | inl e ↦
        ground
          (arith, subst (λ x. count (is_active_for_trip x) rs ≡ 0) (text_eq→eq r.trip_id t e) h)
    | inr e ↦ ground (arith, v.0 t)
  ],
  λ d. elim (Bool-cases (text_eq r.driver_user_id d)) [
    | inl e ↦ ground (
      arith,
      subst (λ x. count (is_active_for_driver x) rs ≡ 0) (text_eq→eq r.driver_user_id d e) k,
    )
    | inr e ↦ ground (arith, v.1 d)
  ],
)

cons-IsBounded :
    (o : Offer) (os : List Offer)
    → max_attempt o.trip_id os + 1 ≡ o.attempt_number
    → o.attempt_number ≤ max_offer_attempts
    → IsBounded os
    → IsBounded (o ∷ os)
cons-IsBounded o os h k v t = elim (Bool-cases (text_eq o.trip_id t)) [
  | inl e ↦ ground (
    arith,
    subst (λ x. max_attempt x os + 1 ≡ o.attempt_number) (text_eq→eq o.trip_id t e) h,
    (v t).0,
    (v t).1,
  )
  | inr e ↦ ground (arith, (v t).0, (v t).1)
]

abbrev conflicts : Uuid → Uuid → Reservation → Bool
conflicts d t r =
    reservation_state_eq r.status DriverReservationState.active
    && (text_eq r.driver_user_id d || text_eq r.trip_id t)

insert_reservation_outcome :
    (env : Env) (d t : Uuid) (s : Db) (a : Option Reservation) (s' : Db)
    → insert_reservation env d t s ≡ ok (a, s')
    → (s'.offers ≡ s.offers)
      × ((s'.work_states ≡ s.work_states)
          × ((s'.reservations ≡ s.reservations)
              ⊎ ((s'.reservations
                    ≡ new_reservation env (env.random_uuid s.fresh) d t ∷ s.reservations)
                  × (any (conflicts d t) s.reservations ≡ false))))
unfolding insert_reservation ◌>>=◌
insert_reservation_outcome env d t s a s' h =
    elim (Bool-cases (any (conflicts d t) s.reservations)) [
      | inl e ↦ (ground (arith, e), (ground (arith, e), inl (ground (arith, e))))
      | inr e ↦ (ground (arith, e), (ground (arith, e), inr (ground (arith, e), e)))
    ]

pub insert_reservation-Keeps : (env : Env) (d t : Uuid) → Keeps IsValid (insert_reservation env d t)
insert_reservation-Keeps env d t s a s' h v =
    let out = insert_reservation_outcome env d t s a s' h in
    (
      subst IsBounded (sym out.0) v.0,
      (
        elim out.1.1 [
          | inl e ↦ subst IsExclusive (sym e) v.1.0
          | inr (e, f) ↦ subst IsExclusive (sym e) (
              cons-IsExclusive (new_reservation env (env.random_uuid s.fresh) d t) s.reservations
                (count-any d t s.reservations f).0 (count-any d t s.reservations f).1 v.1.0)
        ],
        subst AreBound (sym out.1.0) v.1.1,
      ),
    )

-- The Offers stay as they are.
pub insert_reservation-offers :
    (env : Env) (d t : Uuid) → Ensures (insert_reservation env d t) (λ s a s'. s'.offers ≡ s.offers)
unfolding insert_reservation ◌>>=◌
insert_reservation-offers env d t s a s' h = ground arith

insert_offer_outcome :
    (env : Env) (input : ReserveInput) (attempt : ℕ) (r : Reservation) (d : Uuid) (s : Db)
    (row : OfferRow) (s' : Db)
    → insert_offer env input attempt r d s ≡ ok (row, s')
    → (s'.offers ≡ new_offer env input attempt r d (env.random_uuid s.fresh) ∷ s.offers)
      × ((s'.reservations ≡ s.reservations) × (s'.work_states ≡ s.work_states))
unfolding insert_offer ◌>>=◌
insert_offer_outcome env input attempt r d s row s' h = ground arith

pub insert_offer-Keeps :
    (env : Env) (input : ReserveInput) (attempt : ℕ) (r : Reservation) (d : Uuid)
    → attempt ≤ max_offer_attempts
    → Ensures
        (insert_offer env input attempt r d)
        (λ s row s'. next_attempt input.trip_id s ≡ attempt → IsValid s → IsValid s')
unfolding next_attempt
insert_offer-Keeps env input attempt r d k s row s' h n v =
    let out = insert_offer_outcome env input attempt r d s row s' h in
    (
      subst IsBounded (sym out.0) (
          cons-IsBounded (new_offer env input attempt r d (env.random_uuid s.fresh)) s.offers n k
            v.0),
      (subst IsExclusive (sym out.1.0) v.1.0, subst AreBound (sym out.1.1) v.1.1),
    )
