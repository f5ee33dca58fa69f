-- ===== src/Delivery/Repository/Validity.antt =====
-- What the statements of apps/api/src/delivery/delivery.repository.ts do to the work states of the
-- Drivers, which dispatch shares, and to the reservations for deliveries.
use gove.Prelude.{
  ◌≡◌, refl, sym, subst, ℕ, Bool, true, false, List, Option, none, some, is_some, Result, ok, err,
  ap, arith,
}
use gove.Prelude.Text.{Text}
use gove.Contracts.{DriverWorkState, offline, available, reserved, to_pickup, on_trip}
use gove.Database.{◌>>=◌, pure}
use gove.Database.Laws.{Ensures, Keeps, Reads, bind-Keeps, ok_state}
use gove.Dispatch.ExpiryPolicy.{DriverReservationState, reservation_state_eq}
use gove.Dispatch.Tables.{Uuid, WorkState, Db, Env, Work, Thrown}
use gove.Dispatch.Repository.{update_work_states, eq_uuid_option, random_uuid}
use gove.Dispatch.Repository.Bindings.{binds, is_bound}
use gove.Dispatch.Repository.Validity.{IsValid, Frames-Keeps, update_work_states-Keeps}
use gove.Trip.Repository.Safety.{random_uuid-Frames}
use gove.Delivery.Rows.{
  Delivery, DeliveryReservation, DeliveryOffer, DeliveryTransition, DeliveryEventType, DeliveryBody,
  DeliveryOperation, DeliveryDb, DeliveryWork,
}
use gove.Delivery.Repository.{
  on_shared, share, update_deliveries, update_delivery_offers, update_delivery_reservations,
  append_transition, append_delivery_outbox_event, persist_delivery_receipt, check_delivery_receipt,
  to_delivery_response, with_delivery, resolved_reservation, is_active_reservation, replay_or,
  finite_coordinate,
}
use gove.Delivery.Repository.Exclusive.{OneActive, update-OneActive}

-- No Driver and no delivery has two ACTIVE reservations.
abbrev pub IsReserved : List DeliveryReservation → Type 0
IsReserved rs =
    OneActive is_active_reservation (λ r. r.driver_user_id) rs
    × OneActive is_active_reservation (λ r. r.delivery_id) rs

-- The dispatch tables are valid, and the reservations for deliveries exclusive.
abbrev pub IsSound : DeliveryDb → Type 0
IsSound db = IsValid db.shared × IsReserved db.reservations

-- The work leaves both as they are.
abbrev pub Leaves : {A : Type 0} → DeliveryWork A → Type 0
Leaves work = Ensures work (λ s a s'. (s'.shared ≡ s.shared) × (s'.reservations ≡ s.reservations))

pub Leaves-Keeps : {A : Type 0} (work : DeliveryWork A) → Leaves work → Keeps IsSound work
Leaves-Keeps work f s a s' h v =
    (subst IsValid (sym (f s a s' h).0) v.0, subst IsReserved (sym (f s a s' h).1) v.1)

pub leaving :
    {A B : Type 0} (work : DeliveryWork A) (next : A → DeliveryWork B)
    → Leaves work
    → ((a : A) → Keeps IsSound (next a))
    → Keeps IsSound (work >>= next)
leaving work next f g = bind-Keeps work next (Leaves-Keeps work f) g

pub Reads-Leaves : {A : Type 0} (work : DeliveryWork A) → Reads work → Leaves work
Reads-Leaves work f s a s' h =
    (ap (λ t. t.shared) (sym (f s a s' h)), ap (λ t. t.reservations) (sym (f s a s' h)))

pub reading :
    {A B : Type 0} (work : DeliveryWork A) (next : A → DeliveryWork B)
    → Reads work
    → ((a : A) → Keeps IsSound (next a))
    → Keeps IsSound (work >>= next)
reading work next f g = leaving work next (Reads-Leaves work f) g

pub finished : {A : Type 0} (a : A) → Keeps {E = Thrown} IsSound (pure a)
finished a s b s' h v = subst IsSound (ok_state h) v

-- A statement on the tables of the other schemas.
share-IsSound :
    {A : Type 0} (s : DeliveryDb) (r : Result Thrown (A × Db)) (a : A) (s' : DeliveryDb)
    → ((b : A) (t : Db) → r ≡ ok (b, t) → IsValid t)
    → share s r ≡ ok (a, s')
    → IsReserved s.reservations
    → IsSound s'
share-IsSound s (ok (b, t)) a s' f h v = subst IsSound (ok_state h) (f b t refl, v)
share-IsSound s (err e) a s' f h v = cc

pub on_shared-Keeps :
    {A : Type 0} (work : Work A) → Keeps IsValid work → Keeps IsSound (on_shared work)
unfolding on_shared
on_shared-Keeps work f s a s' h v =
    share-IsSound s (work s.shared) a s' (λ b t e. f s.shared b t e v.0) h v.1

pub random_uuid-Keeps : (env : Env) → Keeps IsSound (on_shared (random_uuid env))
random_uuid-Keeps env = on_shared-Keeps (random_uuid env) (Frames-Keeps _ (random_uuid-Frames env))

pub update_deliveries-Leaves :
    (p : Delivery → Bool) (c : Delivery → Delivery) → Leaves (update_deliveries p c)
unfolding update_deliveries
update_deliveries-Leaves p c s a s' h = ground arith

pub update_delivery_offers-Leaves :
    (p : DeliveryOffer → Bool) (c : DeliveryOffer → DeliveryOffer)
    → Leaves (update_delivery_offers p c)
unfolding update_delivery_offers
update_delivery_offers-Leaves p c s a s' h = ground arith

pub append_transition-Leaves : (t : DeliveryTransition) → Leaves (append_transition t)
unfolding append_transition ◌>>=◌
append_transition-Leaves t s a s' h = ground arith

pub append_delivery_outbox_event-Leaves :
    (id : Uuid) (v : ℕ) (e : DeliveryEventType) → Leaves (append_delivery_outbox_event id v e)
unfolding append_delivery_outbox_event ◌>>=◌
append_delivery_outbox_event-Leaves id v e s a s' h = ground arith

pub persist_delivery_receipt-Leaves :
    (actor : Uuid) (o : DeliveryOperation) (key fp : Text) (r : DeliveryBody)
    → Leaves (persist_delivery_receipt actor o key fp r)
unfolding persist_delivery_receipt ◌>>=◌
persist_delivery_receipt-Leaves actor o key fp r s a s' h = ground arith

pub check_delivery_receipt-Reads :
    (actor : Uuid) (o : DeliveryOperation) (key fp : Text)
    → Reads (check_delivery_receipt actor o key fp)
unfolding check_delivery_receipt ◌>>=◌
check_delivery_receipt-Reads actor o key fp s a s' h = ground arith

pub to_delivery_response-Reads : (row : Delivery) → Reads (to_delivery_response row)
unfolding to_delivery_response finite_coordinate ◌>>=◌
to_delivery_response-Reads row s a s' h = ground arith

pub replay_or-Keeps :
    (receipt : Option DeliveryBody) (rest : DeliveryWork DeliveryBody)
    → Keeps IsSound rest
    → Keeps IsSound (replay_or receipt rest)
replay_or-Keeps none rest f = f
replay_or-Keeps (some r) rest f = finished r

-- An UPDATE that resolves reservations.
pub update_delivery_reservations-Keeps :
    (p : DeliveryReservation → Bool) (env : Env) (status : DriverReservationState)
    → reservation_state_eq status DriverReservationState.active ≡ false
    → Keeps IsSound (update_delivery_reservations p (resolved_reservation env status))
unfolding update_delivery_reservations
update_delivery_reservations-Keeps p env status e s a s' h v = subst IsSound (ok_state h) (
  v.0,
  (
    update-OneActive is_active_reservation (λ r. r.driver_user_id) p
        (resolved_reservation env status) s.reservations (λ r. e) v.1.0,
    update-OneActive is_active_reservation (λ r. r.delivery_id) p (resolved_reservation env status)
        s.reservations (λ r. e) v.1.1,
  ),
)

-- Who is bound to a delivery is not bound to a Trip.
trip_of_bound :
    (state : DriverWorkState) (trip delivery : Option Uuid) (id : Uuid)
    → eq_uuid_option delivery id ≡ true
    → binds state trip delivery ≡ true
    → trip ≡ none
trip_of_bound state none delivery id h b = refl
trip_of_bound offline (some t) delivery id h b = ground (arith, b)
trip_of_bound available (some t) delivery id h b = ground (arith, b)
trip_of_bound reserved (some t) none id h b = ground (arith, h)
trip_of_bound reserved (some t) (some d) id h b = ground (arith, b)
trip_of_bound to_pickup (some t) none id h b = ground (arith, h)
trip_of_bound to_pickup (some t) (some d) id h b = ground (arith, b)
trip_of_bound on_trip (some t) none id h b = ground (arith, h)
trip_of_bound on_trip (some t) (some d) id h b = ground (arith, b)

rebinds_delivery :
    (env : Env) (state : DriverWorkState) (delivery : Option Uuid) (w : WorkState)
    → w.current_trip_id ≡ none
    → binds state none delivery ≡ true
    → is_bound (with_delivery env state delivery w) ≡ true
rebinds_delivery env state delivery w h b = subst (λ t. binds state t delivery ≡ true) (sym h) b

-- An UPDATE of the Drivers bound to a delivery.
pub update_bound_delivery-Keeps :
    (p : WorkState → Bool) (env : Env) (state : DriverWorkState) (delivery : Option Uuid)
    (id : Uuid)
    → ((w : WorkState) → p w ≡ true → eq_uuid_option w.current_delivery_id id ≡ true)
    → binds state none delivery ≡ true
    → Keeps IsSound (on_shared (update_work_states p (with_delivery env state delivery)))
update_bound_delivery-Keeps p env state delivery id f b = on_shared-Keeps _ (
    update_work_states-Keeps p (with_delivery env state delivery) (λ w. refl)
      λ w h k.
        rebinds_delivery env state delivery w
          (trip_of_bound w.work_state w.current_trip_id w.current_delivery_id id (f w h) k) b)

trip_is_none : (trip : Option Uuid) → is_some trip ≡ false → trip ≡ none
trip_is_none none h = refl
trip_is_none (some t) h = ground (arith, h)

-- An UPDATE of Drivers without a Trip.
pub update_free_delivery-Keeps :
    (p : WorkState → Bool) (env : Env) (state : DriverWorkState) (delivery : Option Uuid)
    → ((w : WorkState) → p w ≡ true → is_some w.current_trip_id ≡ false)
    → binds state none delivery ≡ true
    → Keeps IsSound (on_shared (update_work_states p (with_delivery env state delivery)))
update_free_delivery-Keeps p env state delivery f b = on_shared-Keeps _ (
    update_work_states-Keeps p (with_delivery env state delivery) (λ w. refl)
      λ w h k. rebinds_delivery env state delivery w (trip_is_none w.current_trip_id (f w h)) b)
