-- ===== src/Dispatch/Repository/Durable.antt =====
-- The receipts of apps/api/src/dispatch/dispatch.repository.ts are never lost: what its statements
-- leave of them, with a rule for each way to build a command.
pub mod Matching
pub mod Offers
pub mod Assigned
use gove.Prelude.{
  ◌≡◌, refl, sym, ap, ◌∙◌, subst, ℕ, Bool, true, false, Option, none, some, Result, ok, err, arith,
  if◌then◌else◌, find?, is_some, List, ◌∷◌, ◌&&◌, Bool-cases, inl, inr,
}
use gove.Prelude.Text.{Text, text_eq, text_eq→eq}
use gove.Contracts.{TripState}
use gove.Database.{◌>>=◌, pure, throw_when, gets, some_or_throw, or_throw}
use gove.Database.Laws.{
  Ensures, bind_ends, ok_state, read_ends, gets-Reads, throw_when-Reads, gets_end, throw_when_end,
}
use gove.Dispatch.Tables.{
  Uuid, Trip, Offer, Reservation, WorkState, EventType, ResponseBody, Operation, Receipt, Db, Env,
  Thrown, Work, AssignedTripAction, accept_offer, driver, arrive_at_pickup,
}
use gove.Dispatch.Repository.{
  TransitionInput, eq_operation, find_receipt, check_receipt, answer_or, persist_receipt,
  append_trip_transition, append_trip_outbox, random_uuid, update_work_states, update_trips,
  update_offers, update_reservations, release_reservation, expire_offer_row,
}

-- A receipt that is found before the work is found after it.
pub record IsDurable {A : Type 0} (work : Work A) : Type 0 where
  pub at :
      (actor : Uuid) (operation : Operation) (key : Text) (r : Receipt) (s : Db) (a : A) (s' : Db)
      → work s ≡ ok (a, s')
      → find_receipt actor operation key s ≡ some r
      → find_receipt actor operation key s' ≡ some r

-- The test of find_receipt.
abbrev is_under : Uuid → Operation → Text → Receipt → Bool
is_under actor operation key r =
    text_eq r.actor_user_id actor
    && eq_operation r.operation operation
    && text_eq r.idempotency_key key

find_receipt_same :
    (actor : Uuid) (operation : Operation) (key : Text) (s t : Db)
    → s.receipts ≡ t.receipts
    → find_receipt actor operation key s ≡ find_receipt actor operation key t
unfolding find_receipt
find_receipt_same actor operation key s t h = ap (find? _) h

-- Work that leaves the table as it is.
pub same-IsDurable :
    {A : Type 0} (work : Work A)
    → Ensures work (λ s a s'. s.receipts ≡ s'.receipts)
    → IsDurable work
same-IsDurable work f = record {
  at = λ actor operation key r s a s' h e.
      sym (find_receipt_same actor operation key s s' (f s a s' h)) ∙ e;
}

module _ {A : Type 0} where
  pub pure-IsDurable : (a : A) → IsDurable (pure a)
  pure-IsDurable a = same-IsDurable _ λ s b s' h. ap (λ db. db.receipts) (ok_state h)

  pub gets-IsDurable : (f : Db → A) → IsDurable (gets f)
  gets-IsDurable f = same-IsDurable _ λ s b s' h. ap (λ db. db.receipts) (ok_state h)

  pub some_or_throw-IsDurable : (o : Option A) (e : Thrown) → IsDurable (some_or_throw o e)
  some_or_throw-IsDurable o e = same-IsDurable _ λ s b s' h. ground arith

  pub or_throw-IsDurable :
      {B : Type 0} (r : Result B A) (wrap : B → Thrown) → IsDurable (or_throw r wrap)
  or_throw-IsDurable r wrap = same-IsDurable _ λ s b s' h. ground arith

  pub if-IsDurable :
      (c : Bool) (x y : Work A) → IsDurable x → IsDurable y → IsDurable (if c then x else y)
  if-IsDurable true x y f g = f
  if-IsDurable false x y f g = g

  pub answer_or-IsDurable :
      (receipt : Option ResponseBody) (answer : ResponseBody → A) (rest : Work A)
      → IsDurable rest
      → IsDurable (answer_or receipt answer rest)
  answer_or-IsDurable (some r) answer rest f = pure-IsDurable (answer r)
  answer_or-IsDurable none answer rest f = f

pub bind-IsDurable :
    {A B : Type 0} (work : Work A) (next : A → Work B)
    → IsDurable work
    → ((a : A) → IsDurable (next a))
    → IsDurable (work >>= next)
bind-IsDurable work next f g = record {
  at = λ actor operation key r s b s' h e.
      bind_ends work next h λ a t e1 e2.
        (g a).at actor operation key r t b s' e2 (f.at actor operation key r s a t e1 e);
}

pub throw_when-IsDurable : (c : Bool) (e : Thrown) → IsDurable (throw_when c e)
throw_when-IsDurable c e = same-IsDurable _ λ s b s' h. ground arith

pub check_receipt-IsDurable :
    (actor : Uuid) (o : Operation) (key fp : Text) → IsDurable (check_receipt actor o key fp)
unfolding check_receipt ◌>>=◌
check_receipt-IsDurable actor o key fp = same-IsDurable _ λ s b s' h. ground arith

pub random_uuid-IsDurable : (env : Env) → IsDurable (random_uuid env)
random_uuid-IsDurable env = same-IsDurable _ λ s b s' h. ground arith

pub update_work_states-IsDurable :
    (p : WorkState → Bool) (c : WorkState → WorkState) → IsDurable (update_work_states p c)
unfolding update_work_states
update_work_states-IsDurable p c = same-IsDurable _ λ s b s' h. ground arith

pub update_trips-IsDurable : (p : Trip → Bool) (c : Trip → Trip) → IsDurable (update_trips p c)
unfolding update_trips
update_trips-IsDurable p c = same-IsDurable _ λ s b s' h. ground arith

pub update_offers-IsDurable : (p : Offer → Bool) (c : Offer → Offer) → IsDurable (update_offers p c)
unfolding update_offers
update_offers-IsDurable p c = same-IsDurable _ λ s b s' h. ground arith

pub update_reservations-IsDurable :
    (p : Reservation → Bool) (c : Reservation → Reservation) → IsDurable (update_reservations p c)
unfolding update_reservations
update_reservations-IsDurable p c = same-IsDurable _ λ s b s' h. ground arith

pub release_reservation-IsDurable : (env : Env) (id : Uuid) → IsDurable (release_reservation env id)
unfolding release_reservation
release_reservation-IsDurable env id = search update_reservations-IsDurable

pub append_trip_transition-IsDurable :
    (input : TransitionInput) → IsDurable (append_trip_transition input)
unfolding append_trip_transition ◌>>=◌
append_trip_transition-IsDurable input = same-IsDurable _ λ s b s' h. ground arith

pub append_trip_outbox-IsDurable :
    (id : Uuid) (version : ℕ) (event : EventType) → IsDurable (append_trip_outbox id version event)
unfolding append_trip_outbox ◌>>=◌
append_trip_outbox-IsDurable id version event = same-IsDurable _ λ s b s' h. ground arith

eq_operation→eq : (a b : Operation) → eq_operation a b ≡ true → a ≡ b
eq_operation→eq Operation.create_trip b h = ground arith
eq_operation→eq Operation.cancel_trip b h = ground arith
eq_operation→eq Operation.start_matching b h = ground arith
eq_operation→eq Operation.reject_offer b h = ground arith
eq_operation→eq accept_offer b h = ground arith
eq_operation→eq (driver arrive_at_pickup) b h = ground arith
eq_operation→eq (driver AssignedTripAction.start_trip) b h = ground arith
eq_operation→eq (driver AssignedTripAction.complete_trip) b h = ground arith

-- A row in front is not found where nothing was found by its test.
pub find-cons_kept :
    {A : Type 0} (p : A → Bool) (x : A) (xs : List A) (r : A)
    → (p x ≡ true → is_some (find? p xs) ≡ false)
    → find? p xs ≡ some r
    → find? p (x ∷ xs) ≡ some r
find-cons_kept p x xs r f e = elim (Bool-cases (p x)) [
  | inl same ↦ ground (arith, f same, e)
  | inr other ↦ ground (arith, other, e)
]

-- A row that is new under its key is no other key's.
find_receipt-new :
    (actor : Uuid) (operation : Operation) (key : Text) (r new : Receipt) (rs : List Receipt)
    → is_some (find? (is_under new.actor_user_id new.operation new.idempotency_key) rs) ≡ false
    → find? (is_under actor operation key) rs ≡ some r
    → find? (is_under actor operation key) (new ∷ rs) ≡ some r
find_receipt-new actor operation key r new rs free e =
    find-cons_kept (is_under actor operation key) new rs r
      (λ same.
        subst (λ k. is_some (find? (is_under actor operation k) rs) ≡ false)
          (text_eq→eq new.idempotency_key key (ground (arith, same)))
          (subst (λ o. is_some (find? (is_under actor o new.idempotency_key) rs) ≡ false)
            (eq_operation→eq new.operation operation (ground (arith, same)))
            (subst (λ a. is_some (find? (is_under a new.operation new.idempotency_key) rs) ≡ false)
              (text_eq→eq new.actor_user_id actor (ground (arith, same))) free)))
      e

-- The primary key: a new receipt takes the place of none.
pub persist_receipt-IsDurable :
    (actor : Uuid) (o : Operation) (key fp : Text) (response : ResponseBody)
    → IsDurable (persist_receipt actor o key fp response)
unfolding persist_receipt find_receipt
persist_receipt-IsDurable actor o key fp response = record {
  at = λ actor' o' key' r s a s' h e. read_ends _ _ (gets-Reads _) h λ taken e1 h.
      read_ends _ _ (throw_when-Reads _ _) h λ u e2 h.
        subst (λ db. find_receipt actor' o' key' db ≡ some r) (ok_state h)
          (find_receipt-new actor' o' key' r _ s.receipts
            ((gets_end (λ db. is_some (find_receipt actor o key db)) s e1).0
              ∙ (throw_when_end taken _ s e2).0)
            e);
}

pub ruleset durable_rules = (
  pure-IsDurable, gets-IsDurable, some_or_throw-IsDurable, or_throw-IsDurable, if-IsDurable,
  answer_or-IsDurable, bind-IsDurable, throw_when-IsDurable, check_receipt-IsDurable,
  random_uuid-IsDurable, update_work_states-IsDurable, update_trips-IsDurable,
  update_offers-IsDurable, update_reservations-IsDurable, release_reservation-IsDurable,
  append_trip_transition-IsDurable, append_trip_outbox-IsDurable, persist_receipt-IsDurable,
)

pub expire_offer_row-IsDurable :
    (env : Env) (offer_id trip_id d : Uuid) → IsDurable (expire_offer_row env offer_id trip_id d)
unfolding expire_offer_row
expire_offer_row-IsDurable env offer_id trip_id d = search durable_rules depth 40 fits 5000
