-- ===== src/Delivery/Repository/Durable.antt =====
-- The receipts of apps/api/src/delivery/delivery.repository.ts are never lost: what its statements and
-- operations leave of them.
pub mod Operations
use gove.Prelude.{
  ◌≡◌, refl, sym, ap, ◌∙◌, subst, ℕ, Bool, true, false, Option, none, some, ok, arith,
  if◌then◌else◌, find?, is_some, List, ◌∷◌, ◌&&◌,
}
use gove.Prelude.Text.{Text, text_eq, text_eq→eq}
use gove.Database.{◌>>=◌, pure, throw, throw_when, gets, some_or_throw}
use gove.Database.Laws.{
  Ensures, bind_ends, ok_state, read_ends, gets-Reads, throw_when-Reads, gets_end, throw_when_end,
}
use gove.Dispatch.Tables.{Uuid, Env, Thrown, Work}
use gove.Dispatch.Repository.Durable.{find-cons_kept}
use gove.Delivery.Rows.{
  Delivery, DeliveryReservation, DeliveryOffer, DeliveryTransition, DeliveryEventType, DeliveryBody,
  DeliveryOperation, DeliveryReceipt, DeliveryDb, DeliveryWork, delivery_operation_eq,
  arrive_at_pickup, confirm_pickup_custody, complete_delivery,
}
use gove.Delivery.Repository.{
  on_shared, find_delivery_receipt, check_delivery_receipt, replay_or, persist_delivery_receipt,
  append_transition, append_delivery_outbox_event, finite_coordinate, to_delivery_response,
  update_deliveries, update_delivery_offers, update_delivery_reservations, expire_delivery_offer,
}

-- A receipt that is found before the work is found after it.
pub record IsDurable {A : Type 0} (work : DeliveryWork A) : Type 0 where
  pub at :
      (actor : Uuid) (operation : DeliveryOperation) (key : Text) (r : DeliveryReceipt)
      (s : DeliveryDb) (a : A) (s' : DeliveryDb)
      → work s ≡ ok (a, s')
      → find_delivery_receipt actor operation key s ≡ some r
      → find_delivery_receipt actor operation key s' ≡ some r

-- The test of find_delivery_receipt.
abbrev is_under : Uuid → DeliveryOperation → Text → DeliveryReceipt → Bool
is_under actor operation key r =
    text_eq r.actor_user_id actor
    && delivery_operation_eq r.operation operation
    && text_eq r.idempotency_key key

find_delivery_receipt_same :
    (actor : Uuid) (operation : DeliveryOperation) (key : Text) (s t : DeliveryDb)
    → s.receipts ≡ t.receipts
    → find_delivery_receipt actor operation key s ≡ find_delivery_receipt actor operation key t
unfolding find_delivery_receipt
find_delivery_receipt_same actor operation key s t h = ap (find? _) h

-- Work that leaves the table as it is.
pub same-IsDurable :
    {A : Type 0} (work : DeliveryWork A)
    → Ensures work (λ s a s'. s.receipts ≡ s'.receipts)
    → IsDurable work
same-IsDurable work f = record {
  at = λ actor operation key r s a s' h e.
      sym (find_delivery_receipt_same actor operation key s s' (f s a s' h)) ∙ e;
}

module _ {A : Type 0} where
  pub pure-IsDurable : (a : A) → IsDurable (pure a)
  pure-IsDurable a = same-IsDurable _ λ s b s' h. ap (λ db. db.receipts) (ok_state h)

  pub throw-IsDurable : (e : Thrown) → IsDurable {A = A} (throw e)
  throw-IsDurable e = same-IsDurable _ λ s b s' h. ground arith

  pub gets-IsDurable : (f : DeliveryDb → A) → IsDurable (gets f)
  gets-IsDurable f = same-IsDurable _ λ s b s' h. ap (λ db. db.receipts) (ok_state h)

  pub some_or_throw-IsDurable : (o : Option A) (e : Thrown) → IsDurable (some_or_throw o e)
  some_or_throw-IsDurable o e = same-IsDurable _ λ s b s' h. ground arith

  pub if-IsDurable :
      (c : Bool) (x y : DeliveryWork A) → IsDurable x → IsDurable y → IsDurable (if c then x else y)
  if-IsDurable true x y f g = f
  if-IsDurable false x y f g = g

  -- Whatever is done to the tables of the other schemas.
  pub on_shared-IsDurable : (work : Work A) → IsDurable (on_shared work)
  unfolding on_shared
  on_shared-IsDurable work = same-IsDurable _ λ s b s' h. ground arith

pub replay_or-IsDurable :
    (receipt : Option DeliveryBody) (rest : DeliveryWork DeliveryBody)
    → IsDurable rest
    → IsDurable (replay_or receipt rest)
replay_or-IsDurable (some r) rest f = pure-IsDurable r
replay_or-IsDurable none rest f = f

pub bind-IsDurable :
    {A B : Type 0} (work : DeliveryWork A) (next : A → DeliveryWork B)
    → IsDurable work
    → ((a : A) → IsDurable (next a))
    → IsDurable (work >>= next)
bind-IsDurable work next f g = record {
  at = λ actor operation key r s b s' h e.
      bind_ends work next h λ a t e1 e2.
        (g a).at actor operation key r t b s' e2 (f.at actor operation key r s a t e1 e);
}

pub throw_when-IsDurable : (c : Bool) (e : Thrown) → IsDurable (throw_when c e)
throw_when-IsDurable c e = same-IsDurable _ λ s b s' h. ground arith

pub check_delivery_receipt-IsDurable :
    (actor : Uuid) (o : DeliveryOperation) (key fp : Text)
    → IsDurable (check_delivery_receipt actor o key fp)
unfolding check_delivery_receipt ◌>>=◌
check_delivery_receipt-IsDurable actor o key fp = same-IsDurable _ λ s b s' h. ground arith

pub update_deliveries-IsDurable :
    (p : Delivery → Bool) (c : Delivery → Delivery) → IsDurable (update_deliveries p c)
unfolding update_deliveries
update_deliveries-IsDurable p c = same-IsDurable _ λ s b s' h. ground arith

pub update_delivery_offers-IsDurable :
    (p : DeliveryOffer → Bool) (c : DeliveryOffer → DeliveryOffer)
    → IsDurable (update_delivery_offers p c)
unfolding update_delivery_offers
update_delivery_offers-IsDurable p c = same-IsDurable _ λ s b s' h. ground arith

pub update_delivery_reservations-IsDurable :
    (p : DeliveryReservation → Bool) (c : DeliveryReservation → DeliveryReservation)
    → IsDurable (update_delivery_reservations p c)
unfolding update_delivery_reservations
update_delivery_reservations-IsDurable p c = same-IsDurable _ λ s b s' h. ground arith

pub append_transition-IsDurable : (t : DeliveryTransition) → IsDurable (append_transition t)
unfolding append_transition ◌>>=◌
append_transition-IsDurable t = same-IsDurable _ λ s b s' h. ground arith

pub append_delivery_outbox_event-IsDurable :
    (id : Uuid) (version : ℕ) (event : DeliveryEventType)
    → IsDurable (append_delivery_outbox_event id version event)
unfolding append_delivery_outbox_event ◌>>=◌
append_delivery_outbox_event-IsDurable id version event = same-IsDurable _ λ s b s' h. ground arith

pub to_delivery_response-IsDurable : (row : Delivery) → IsDurable (to_delivery_response row)
unfolding to_delivery_response finite_coordinate ◌>>=◌
to_delivery_response-IsDurable row = same-IsDurable _ λ s b s' h. ground arith

delivery_operation_eq→eq : (a b : DeliveryOperation) → delivery_operation_eq a b ≡ true → a ≡ b
delivery_operation_eq→eq DeliveryOperation.create_delivery b h = ground arith
delivery_operation_eq→eq DeliveryOperation.start_matching b h = ground arith
delivery_operation_eq→eq (DeliveryOperation.act arrive_at_pickup) b h = ground arith
delivery_operation_eq→eq (DeliveryOperation.act confirm_pickup_custody) b h = ground arith
delivery_operation_eq→eq (DeliveryOperation.act complete_delivery) b h = ground arith

-- A row that is new under its key is no other key's.
find_delivery_receipt-new :
    (actor : Uuid) (operation : DeliveryOperation) (key : Text) (r new : DeliveryReceipt)
    (rs : List DeliveryReceipt)
    → is_some (find? (is_under new.actor_user_id new.operation new.idempotency_key) rs) ≡ false
    → find? (is_under actor operation key) rs ≡ some r
    → find? (is_under actor operation key) (new ∷ rs) ≡ some r
find_delivery_receipt-new actor operation key r new rs free e =
    find-cons_kept (is_under actor operation key) new rs r
      (λ same.
        subst (λ k. is_some (find? (is_under actor operation k) rs) ≡ false)
          (text_eq→eq new.idempotency_key key (ground (arith, same)))
          (subst (λ o. is_some (find? (is_under actor o new.idempotency_key) rs) ≡ false)
            (delivery_operation_eq→eq new.operation operation (ground (arith, same)))
            (subst (λ a. is_some (find? (is_under a new.operation new.idempotency_key) rs) ≡ false)
              (text_eq→eq new.actor_user_id actor (ground (arith, same))) free)))
      e

-- The primary key: a new receipt takes the place of none.
pub persist_delivery_receipt-IsDurable :
    (actor : Uuid) (o : DeliveryOperation) (key fp : Text) (response : DeliveryBody)
    → IsDurable (persist_delivery_receipt actor o key fp response)
unfolding persist_delivery_receipt find_delivery_receipt
persist_delivery_receipt-IsDurable actor o key fp response = record {
  at = λ actor' o' key' r s a s' h e. read_ends _ _ (gets-Reads _) h λ taken e1 h.
      read_ends _ _ (throw_when-Reads _ _) h λ u e2 h.
        subst (λ db. find_delivery_receipt actor' o' key' db ≡ some r) (ok_state h)
          (find_delivery_receipt-new actor' o' key' r _ s.receipts
            ((gets_end (λ db. is_some (find_delivery_receipt actor o key db)) s e1).0
              ∙ (throw_when_end taken _ s e2).0)
            e);
}

pub ruleset delivery_durable_rules = (
  pure-IsDurable, throw-IsDurable, gets-IsDurable, some_or_throw-IsDurable, if-IsDurable,
  on_shared-IsDurable, replay_or-IsDurable, bind-IsDurable, throw_when-IsDurable,
  check_delivery_receipt-IsDurable, update_deliveries-IsDurable, update_delivery_offers-IsDurable,
  update_delivery_reservations-IsDurable, append_transition-IsDurable,
  append_delivery_outbox_event-IsDurable, to_delivery_response-IsDurable,
  persist_delivery_receipt-IsDurable,
)

pub expire_delivery_offer-IsDurable :
    (env : Env) (offer : DeliveryOffer) → IsDurable (expire_delivery_offer env offer)
unfolding expire_delivery_offer
expire_delivery_offer-IsDurable env offer = search delivery_durable_rules depth 40 fits 5000
