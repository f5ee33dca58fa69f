-- ===== src/Dispatch/Repository/Bindings.antt =====
-- What the work state of a Driver says about the Trip or the delivery that the Driver is bound to: the
-- CHECK constraint of dispatch.driver_work_states, and its primary key.
use gove.Prelude.{
  ◌≡◌, refl, sym, subst, ◌≤◌, Bool, true, false, ◌&&◌, ◌||◌, not, List, [], ◌∷◌, all, count, find?,
  Option, none, some, is_some, Bool-cases, inl, inr, arith,
}
use gove.Prelude.Text.{text_eq, text_eq→eq}
use gove.Contracts.{
  DriverWorkState, offline, available, reserved, to_pickup, on_trip, work_state_eq,
}
use gove.Database.{update}
use gove.Dispatch.Tables.{Uuid, WorkState, Env}
use gove.Dispatch.Repository.{with_work_state, eq_uuid_option}

-- OFFLINE and AVAILABLE are free of both; the others are bound to a Trip or a delivery, not to both.
abbrev pub binds : DriverWorkState → Option Uuid → Option Uuid → Bool
binds offline trip delivery = not (is_some trip) && not (is_some delivery)
binds available trip delivery = not (is_some trip) && not (is_some delivery)
binds _ none delivery = is_some delivery
binds _ (some trip) delivery = not (is_some delivery)

abbrev pub is_bound : WorkState → Bool
is_bound w = binds w.work_state w.current_trip_id w.current_delivery_id

abbrev pub is_of_driver : Uuid → WorkState → Bool
is_of_driver d w = text_eq w.driver_user_id d

-- Every Driver has one row at most, and every row is bound as its state says.
abbrev pub AreBound : List WorkState → Type 0
AreBound ws = (all is_bound ws ≡ true) × ((d : Uuid) → count (is_of_driver d) ws ≤ 1)

-- Who is bound to a Trip is not bound to a delivery.
pub delivery_of_bound :
    (state : DriverWorkState) (trip delivery : Option Uuid) (id : Uuid)
    → eq_uuid_option trip id ≡ true
    → binds state trip delivery ≡ true
    → delivery ≡ none
delivery_of_bound state none delivery id h b = ground (arith, h)
delivery_of_bound offline (some t) delivery id h b = ground (arith, b)
delivery_of_bound available (some t) delivery id h b = ground (arith, b)
delivery_of_bound reserved (some t) none id h b = refl
delivery_of_bound reserved (some t) (some d) id h b = ground (arith, b)
delivery_of_bound to_pickup (some t) none id h b = refl
delivery_of_bound to_pickup (some t) (some d) id h b = ground (arith, b)
delivery_of_bound on_trip (some t) none id h b = refl
delivery_of_bound on_trip (some t) (some d) id h b = ground (arith, b)

pub delivery_of_free :
    (state : DriverWorkState) (trip delivery : Option Uuid)
    → work_state_eq state offline || work_state_eq state available ≡ true
    → binds state trip delivery ≡ true
    → delivery ≡ none
delivery_of_free offline none none h b = refl
delivery_of_free offline none (some d) h b = ground (arith, b)
delivery_of_free offline (some t) delivery h b = ground (arith, b)
delivery_of_free available none none h b = refl
delivery_of_free available none (some d) h b = ground (arith, b)
delivery_of_free available (some t) delivery h b = ground (arith, b)
delivery_of_free reserved trip delivery h b = ground (arith, h)
delivery_of_free to_pickup trip delivery h b = ground (arith, h)
delivery_of_free on_trip trip delivery h b = ground (arith, h)

-- A state and the Trip that it sets, on a row without a delivery.
pub rebinds :
    (env : Env) (state : DriverWorkState) (trip : Option Uuid) (w : WorkState)
    → w.current_delivery_id ≡ none
    → binds state trip none ≡ true
    → is_bound (with_work_state env state trip w) ≡ true
rebinds env state trip w h b = subst (λ d. binds state trip d ≡ true) (sym h) b

all-update :
    (q p : WorkState → Bool) (c : WorkState → WorkState) (ws : List WorkState)
    → ((w : WorkState) → p w ≡ true → q w ≡ true → q (c w) ≡ true)
    → all q ws ≡ true
    → all q (update p c ws) ≡ true
all-update q p c [] f h = refl
all-update q p c (w ∷ ws) f h = ground (arith, h, all-update q p c ws f (ground (arith, h)), f w)

count-update_driver :
    (d : Uuid) (p : WorkState → Bool) (c : WorkState → WorkState) (ws : List WorkState)
    → ((w : WorkState) → (c w).driver_user_id ≡ w.driver_user_id)
    → count (is_of_driver d) (update p c ws) ≡ count (is_of_driver d) ws
count-update_driver d p c [] f = refl
count-update_driver d p c (w ∷ ws) f = ground (arith, count-update_driver d p c ws f, f w)

-- An UPDATE whose rows are bound again.
pub update-AreBound :
    (p : WorkState → Bool) (c : WorkState → WorkState) (ws : List WorkState)
    → ((w : WorkState) → (c w).driver_user_id ≡ w.driver_user_id)
    → ((w : WorkState) → p w ≡ true → is_bound w ≡ true → is_bound (c w) ≡ true)
    → AreBound ws
    → AreBound (update p c ws)
update-AreBound p c ws f g v = (
  all-update is_bound p c ws g v.0,
  λ d. subst (λ n. n ≤ 1) (sym (count-update_driver d p c ws f)) (v.1 d),
)

update-none :
    (p : WorkState → Bool) (c : WorkState → WorkState) (ws : List WorkState)
    → count p ws ≤ 0
    → update p c ws ≡ ws
update-none p c [] h = refl
update-none p c (w ∷ ws) h = ground (arith, h, update-none p c ws)

first :
    (p : WorkState → Bool) (x : WorkState) (ws : List WorkState) (w : WorkState)
    → p x ≡ true
    → find? p (x ∷ ws) ≡ some w
    → x ≡ w
first p x ws w i e = ground (arith, i, e)

later :
    (p : WorkState → Bool) (x : WorkState) (ws : List WorkState) (w : WorkState)
    → p x ≡ false
    → find? p (x ∷ ws) ≡ some w
    → find? p ws ≡ some w
later p x ws w i e = ground (arith, i, e)

all-update_found :
    (q p : WorkState → Bool) (c : WorkState → WorkState) (ws : List WorkState) (w : WorkState)
    → find? p ws ≡ some w
    → count p ws ≤ 1
    → all q ws ≡ true
    → (q w ≡ true → q (c w) ≡ true)
    → all q (update p c ws) ≡ true
all-update_found q p c [] w e n h f = refl
all-update_found q p c (x ∷ ws) w e n h f = elim (Bool-cases (p x)) [
  | inl i ↦
      let same = first p x ws w i e in
      ground (
        arith,
        i,
        h,
        subst (λ y. q y ≡ true → q (c y) ≡ true) (sym same) f,
        update-none p c ws (ground (arith, n, i)),
      )
  | inr i ↦ ground (
    arith,
    i,
    h,
    all-update_found q p c ws w (later p x ws w i e) (ground (arith, n, i)) (ground (arith, h)) f,
  )
]

-- The row of a Driver, found by its key.
pub update_found-AreBound :
    (d : Uuid) (c : WorkState → WorkState) (ws : List WorkState) (w : WorkState)
    → find? (is_of_driver d) ws ≡ some w
    → ((w : WorkState) → (c w).driver_user_id ≡ w.driver_user_id)
    → (is_bound w ≡ true → is_bound (c w) ≡ true)
    → AreBound ws
    → AreBound (update (is_of_driver d) c ws)
update_found-AreBound d c ws w e f g v = (
  all-update_found is_bound (is_of_driver d) c ws w e (v.1 d) v.0 g,
  λ i. subst (λ n. n ≤ 1) (sym (count-update_driver i (is_of_driver d) c ws f)) (v.1 i),
)

count-found :
    (d : Uuid) (ws : List WorkState)
    → find? (is_of_driver d) ws ≡ none
    → count (is_of_driver d) ws ≡ 0
count-found d [] h = refl
count-found d (w ∷ ws) h = ground (arith, h, count-found d ws)

-- A first row of a Driver.
pub cons-AreBound :
    (w : WorkState) (ws : List WorkState)
    → find? (is_of_driver w.driver_user_id) ws ≡ none
    → is_bound w ≡ true
    → AreBound ws
    → AreBound (w ∷ ws)
cons-AreBound w ws e b v = (
  ground (arith, b, v.0),
  λ d. elim (Bool-cases (text_eq w.driver_user_id d)) [
    | inl h ↦ ground (
      arith,
      subst (λ x. count (is_of_driver x) ws ≡ 0) (text_eq→eq w.driver_user_id d h)
          (count-found w.driver_user_id ws e),
      h,
    )
    | inr h ↦ ground (arith, h, v.1 d)
  ],
)
