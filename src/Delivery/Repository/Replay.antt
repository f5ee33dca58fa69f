-- ===== src/Delivery/Repository/Replay.antt =====
-- Requests to apps/api/src/delivery/delivery.repository.ts that are made again, with other requests,
-- of rides too, in between.
use gove.Prelude.{◌≡◌, true, List, [], ◌∷◌, some, Option-cases, Bool-cases, inl, inr, ok, arith}
use gove.Prelude.Text.{Text}
use gove.Database.{◌>>=◌, transaction}
use gove.Database.Laws.{bind_then, transaction-Ensures}
use gove.Dispatch.Tables.{Uuid, Env}
use gove.Dispatch.Repository.{same_digest}
use gove.Delivery.Rows.{DeliveryBody, DeliveryOperation, DeliveryReceipt, DeliveryDb, DeliveryWork}
use gove.Delivery.Repository.{check_delivery_receipt, find_delivery_receipt}
use gove.Delivery.Repository.Create.{CreateDeliveryRecord, create_delivery}
use gove.Delivery.Repository.Matching.{StartDeliveryMatchingInput, start_delivery_matching}
use gove.Delivery.Repository.Assigned.{DeliveryTransitionInput, transition_assigned_delivery}
use gove.Delivery.Repository.Receipts.{
  Answers, receipted, store_delivery-Answers, match_delivery-Answered, transition_delivery-Answered,
}
use gove.Delivery.Repository.Durable.{IsDurable}
use gove.Delivery.Repository.Durable.Operations.{
  create_delivery-IsDurable, start_delivery_matching-IsDurable, accept_delivery_offer-IsDurable,
  expire_due_delivery-IsDurable, transition_assigned_delivery-IsDurable,
}
use gove.Delivery.Repository.Promises.{
  SharedRequest, ride, create, start, accept, expire, advance, execute_shared, run_shared,
}

module _ (actor : Uuid) (operation : DeliveryOperation) (key fingerprint : Text)
    (response : DeliveryBody) where
  -- The block answers from the receipt that is found.
  Answers-found :
      (db : DeliveryDb)
      → Answers actor operation key fingerprint response db
      → (r : DeliveryReceipt) × (find_delivery_receipt actor operation key db ≡ some r)
        × (same_digest r.request_fingerprint fingerprint ≡ true)
        × (r.response_body ≡ response)
  unfolding check_delivery_receipt ◌>>=◌
  Answers-found db h = elim (Option-cases (find_delivery_receipt actor operation key db)) [
    | inl e ↦ ground (arith, e, h)
    | inr (r, e) ↦ elim (Bool-cases (same_digest r.request_fingerprint fingerprint)) [
      | inl same ↦ (r, e, same, ground (arith, e, same, h))
      | inr other ↦ ground (arith, e, other, h)
    ]
  ]

  found-Answers :
      (db : DeliveryDb) (r : DeliveryReceipt)
      → find_delivery_receipt actor operation key db ≡ some r
      → same_digest r.request_fingerprint fingerprint ≡ true
      → r.response_body ≡ response
      → Answers actor operation key fingerprint response db
  unfolding check_delivery_receipt ◌>>=◌
  found-Answers db r e same body = ground (arith, e, same, body)

  transaction-Answers :
      {A : Type 0} (work : DeliveryWork A) (db : DeliveryDb)
      → IsDurable work
      → Answers actor operation key fingerprint response db
      → Answers actor operation key fingerprint response (transaction work db).1
  transaction-Answers work db d =
      transaction-Ensures work
        (λ s s'.
          Answers actor operation key fingerprint response s
          → Answers actor operation key fingerprint response s')
        db (λ t h. h)
        λ s a s' e h.
          let found = Answers-found s h in
          found-Answers s' found.0 (d.at actor operation key found.0 s a s' e found.1) found.2
            found.3

  execute_shared-Answers :
      (env : Env) (request : SharedRequest) (db : DeliveryDb)
      → Answers actor operation key fingerprint response db
      → Answers actor operation key fingerprint response (execute_shared env request db)
  unfolding execute_shared find_delivery_receipt
  execute_shared-Answers env (ride request) db h =
      let found = Answers-found db h in found-Answers _ found.0 found.1 found.2 found.3
  execute_shared-Answers env (create input) db h =
      transaction-Answers _ db (create_delivery-IsDurable env input) h
  execute_shared-Answers env (start input) db h =
      transaction-Answers _ db (start_delivery_matching-IsDurable env input) h
  execute_shared-Answers env (accept input) db h =
      transaction-Answers _ db (accept_delivery_offer-IsDurable env input) h
  execute_shared-Answers env (expire offer_id) db h =
      transaction-Answers _ db (expire_due_delivery-IsDurable env offer_id) h
  execute_shared-Answers env (advance input) db h =
      transaction-Answers _ db (transition_assigned_delivery-IsDurable env input) h

  run_shared-Answers :
      (steps : List (Env × SharedRequest)) (db : DeliveryDb)
      → Answers actor operation key fingerprint response db
      → Answers actor operation key fingerprint response (run_shared steps db)
  unfolding run_shared
  run_shared-Answers [] db h = h
  run_shared-Answers ((env, request) ∷ rest) db h =
      run_shared-Answers rest (execute_shared env request db)
        (execute_shared-Answers env request db h)

-- A request for a delivery that has got its answer gets the same answer again after whatever
-- requests for rides and deliveries have run in between, and then changes nothing: it makes no
-- second delivery.
pub create_delivery-replay :
    (env later : Env) (steps : List (Env × SharedRequest)) (input : CreateDeliveryRecord)
    (db : DeliveryDb) {response : DeliveryBody} {db' : DeliveryDb}
    → create_delivery env input db ≡ ok (response, db')
    → create_delivery later input (run_shared steps db') ≡ ok (response, run_shared steps db')
unfolding create_delivery
create_delivery-replay env later steps input db {response} {db'} h = bind_then _ _ (
    run_shared-Answers input.customer_user_id DeliveryOperation.create_delivery
      input.idempotency_key input.request_fingerprint response steps db'
      (receipted input.customer_user_id DeliveryOperation.create_delivery input.idempotency_key
        input.request_fingerprint _ (store_delivery-Answers env input) db response db' h))

-- A request for a Driver of a delivery that has got its answer gets the same answer again after
-- whatever requests for rides and deliveries have run in between, and then changes nothing.
pub start_delivery_matching-replay :
    (env later : Env) (steps : List (Env × SharedRequest)) (input : StartDeliveryMatchingInput)
    (db : DeliveryDb) {response : DeliveryBody} {db' : DeliveryDb}
    → start_delivery_matching env input db ≡ ok (response, db')
    → start_delivery_matching later input (run_shared steps db')
      ≡ ok (response, run_shared steps db')
unfolding start_delivery_matching
start_delivery_matching-replay env later steps input db {response} {db'} h = bind_then _ _ (
    run_shared-Answers input.customer_user_id DeliveryOperation.start_matching input.idempotency_key
      input.request_fingerprint response steps db'
      (receipted input.customer_user_id DeliveryOperation.start_matching input.idempotency_key
        input.request_fingerprint _ (match_delivery-Answered env input) db response db' h))

-- A transition that a Driver has made of a delivery gets the same answer when it is requested again
-- after whatever requests for rides and deliveries have run in between, and then changes nothing.
pub transition_assigned_delivery-replay :
    (env later : Env) (steps : List (Env × SharedRequest)) (input : DeliveryTransitionInput)
    (db : DeliveryDb) {response : DeliveryBody} {db' : DeliveryDb}
    → transition_assigned_delivery env input db ≡ ok (response, db')
    → transition_assigned_delivery later input (run_shared steps db')
      ≡ ok (response, run_shared steps db')
unfolding transition_assigned_delivery
transition_assigned_delivery-replay env later steps input db {response} {db'} h = bind_then _ _ (
    run_shared-Answers input.driver_user_id (DeliveryOperation.act input.action)
      input.idempotency_key input.request_fingerprint response steps db'
      (receipted input.driver_user_id (DeliveryOperation.act input.action) input.idempotency_key
        input.request_fingerprint _ (transition_delivery-Answered env input) db response db' h))
