-- ===== src/Dispatch/Repository/Replay.antt =====
-- Requests to apps/api/src/dispatch/dispatch.repository.ts and apps/api/src/trip/trip.repository.ts
-- that are made again, with other requests in between.
use gove.Prelude.{
  ◌≡◌, sym, subst, true, List, [], ◌∷◌, some, Result-cases, Option-cases, Bool-cases, inl, inr, ok,
  arith,
}
use gove.Prelude.Text.{Text}
use gove.Database.{◌>>=◌, transaction, settle}
use gove.Database.Laws.{bind_then}
use gove.Dispatch.Tables.{Uuid, ResponseBody, Operation, Receipt, Db, Env, Work, driver}
use gove.Dispatch.Repository.{check_receipt, find_receipt, same_digest}
use gove.Dispatch.Repository.Receipts.{
  Answers, start_matching-Answered, transition_assigned_trip-Answered,
}
use gove.Dispatch.Repository.Rejections.{reject_offer-Answered}
use gove.Dispatch.Repository.Matching.{StartMatchingInput, start_matching}
use gove.Dispatch.Repository.Offers.{OfferCommandInput, succeeded, reject_offer}
use gove.Dispatch.Repository.Assigned.{TransitionAssignedTripInput, transition_assigned_trip}
use gove.Dispatch.Repository.Durable.{IsDurable}
use gove.Dispatch.Repository.Durable.Matching.{start_matching-IsDurable}
use gove.Dispatch.Repository.Durable.Offers.{
  reject_offer-IsDurable, accept_offer_command-IsDurable, expire_due_offer-IsDurable,
}
use gove.Dispatch.Repository.Durable.Assigned.{
  transition_assigned_trip-IsDurable, set_work_state-IsDurable,
}
use gove.Dispatch.Repository.Promises.{
  Request, match_trip, reject, accept, sweep, advance_trip, create, cancel, change_state, execute,
  run,
}
use gove.Trip.Repository.Create.{CreateTripRecord, create_trip}
use gove.Trip.Repository.Cancel.{CancelTripInput, cancel_trip}
use gove.Trip.Repository.Receipts.{create_trip-Answered, cancel_trip-Answered}
use gove.Trip.Repository.Durable.{create_trip-IsDurable, cancel_trip-IsDurable}

module _ (actor : Uuid) (operation : Operation) (key fingerprint : Text)
    (response : ResponseBody) where
  -- The block answers from the receipt that is found.
  Answers-found :
      (db : Db)
      → Answers actor operation key fingerprint response db
      → (r : Receipt) × (find_receipt actor operation key db ≡ some r)
        × (same_digest r.request_fingerprint fingerprint ≡ true)
        × (r.response_body ≡ response)
  unfolding check_receipt ◌>>=◌
  Answers-found db h = elim (Option-cases (find_receipt actor operation key db)) [
    | inl e ↦ ground (arith, e, h)
    | inr (r, e) ↦ elim (Bool-cases (same_digest r.request_fingerprint fingerprint)) [
      | inl same ↦ (r, e, same, ground (arith, e, same, h))
      | inr other ↦ ground (arith, e, other, h)
    ]
  ]

  found-Answers :
      (db : Db) (r : Receipt)
      → find_receipt actor operation key db ≡ some r
      → same_digest r.request_fingerprint fingerprint ≡ true
      → r.response_body ≡ response
      → Answers actor operation key fingerprint response db
  unfolding check_receipt ◌>>=◌
  found-Answers db r e same body = ground (arith, e, same, body)

  transaction-Answers :
      {A : Type 0} (work : Work A) (db : Db)
      → IsDurable work
      → Answers actor operation key fingerprint response db
      → Answers actor operation key fingerprint response (transaction work db).1
  unfolding transaction
  transaction-Answers work db d h = elim (Result-cases (work db)) [
    | inl ((a, s'), e) ↦
        let found = Answers-found db h in
        subst (λ r. Answers actor operation key fingerprint response (settle db r).1) (sym e)
          (found-Answers s' found.0 (d.at actor operation key found.0 db a s' e found.1) found.2
            found.3)
    | inr (x, e) ↦
        subst (λ r. Answers actor operation key fingerprint response (settle db r).1) (sym e) h
  ]

  execute-Answers :
      (env : Env) (request : Request) (db : Db)
      → Answers actor operation key fingerprint response db
      → Answers actor operation key fingerprint response (execute env request db)
  unfolding execute
  execute-Answers env (match_trip input) db =
      transaction-Answers _ db (start_matching-IsDurable env input)
  execute-Answers env (reject input) db =
      transaction-Answers _ db (reject_offer-IsDurable env input)
  execute-Answers env (accept input) db =
      transaction-Answers _ db (accept_offer_command-IsDurable env input)
  execute-Answers env (sweep offer_id) db =
      transaction-Answers _ db (expire_due_offer-IsDurable env offer_id)
  execute-Answers env (advance_trip input) db =
      transaction-Answers _ db (transition_assigned_trip-IsDurable env input)
  execute-Answers env (create input) db = transaction-Answers _ db (create_trip-IsDurable env input)
  execute-Answers env (cancel input) db = transaction-Answers _ db (cancel_trip-IsDurable env input)
  execute-Answers env (change_state driver_id state) db =
      transaction-Answers _ db (set_work_state-IsDurable env driver_id state)

  run-Answers :
      (steps : List (Env × Request)) (db : Db)
      → Answers actor operation key fingerprint response db
      → Answers actor operation key fingerprint response (run steps db)
  unfolding run
  run-Answers [] db h = h
  run-Answers ((env, request) ∷ rest) db h =
      run-Answers rest (execute env request db) (execute-Answers env request db h)

-- A request for a match that has got its answer gets the same answer again after whatever
-- requests to the dispatch and the Trip repository have run in between, with whatever clocks,
-- locks and errors, and then changes nothing.
pub start_matching-replay :
    (env later : Env) (steps : List (Env × Request)) (input : StartMatchingInput) (db : Db)
    {response : ResponseBody} {db' : Db}
    → start_matching env input db ≡ ok (response, db')
    → start_matching later input (run steps db') ≡ ok (response, run steps db')
unfolding start_matching
start_matching-replay env later steps input db {response} {db'} h = bind_then _ _ (
    run-Answers input.customer_user_id Operation.start_matching input.idempotency_key
      input.request_fingerprint response steps db' (start_matching-Answered env input db _ db' h))

-- A rejection that succeeded gets the same answer when it is requested again after whatever
-- requests to the dispatch and the Trip repository have run in between, and then changes
-- nothing: no second Offer goes out.
pub reject_offer-replay :
    (env later : Env) (steps : List (Env × Request)) (input : OfferCommandInput) (db : Db)
    {response : ResponseBody} {db' : Db}
    → reject_offer env input db ≡ ok (succeeded response, db')
    → reject_offer later input (run steps db') ≡ ok (succeeded response, run steps db')
unfolding reject_offer
reject_offer-replay env later steps input db {response} {db'} h = bind_then _ _ (
    run-Answers input.driver_user_id Operation.reject_offer input.idempotency_key
      input.request_fingerprint response steps db' (reject_offer-Answered env input db _ db' h))

-- A transition that a Driver has made of an assigned Trip gets the same answer when it is
-- requested again after whatever requests to the dispatch and the Trip repository have run in
-- between, and then changes nothing.
pub transition_assigned_trip-replay :
    (env later : Env) (steps : List (Env × Request)) (input : TransitionAssignedTripInput) (db : Db)
    {response : ResponseBody} {db' : Db}
    → transition_assigned_trip env input db ≡ ok (response, db')
    → transition_assigned_trip later input (run steps db') ≡ ok (response, run steps db')
unfolding transition_assigned_trip
transition_assigned_trip-replay env later steps input db {response} {db'} h = bind_then _ _ (
    run-Answers input.driver_user_id (driver input.action) input.idempotency_key
      input.request_fingerprint response steps db'
      (transition_assigned_trip-Answered env input db _ db' h))

-- A request for a Trip that has got its answer gets the same answer again after whatever
-- requests to the dispatch and the Trip repository have run in between, and then changes
-- nothing: it makes no second Trip.
pub create_trip-replay :
    (env later : Env) (steps : List (Env × Request)) (input : CreateTripRecord) (db : Db)
    {response : ResponseBody} {db' : Db}
    → create_trip env input db ≡ ok (response, db')
    → create_trip later input (run steps db') ≡ ok (response, run steps db')
unfolding create_trip
create_trip-replay env later steps input db {response} {db'} h = bind_then _ _ (
    run-Answers input.customer_user_id Operation.create_trip input.idempotency_key
      input.request_fingerprint response steps db' (create_trip-Answered env input db _ db' h))

-- A cancellation that has got its answer gets the same answer again after whatever requests to
-- the dispatch and the Trip repository have run in between, and then changes nothing.
pub cancel_trip-replay :
    (env later : Env) (steps : List (Env × Request)) (input : CancelTripInput) (db : Db)
    {response : ResponseBody} {db' : Db}
    → cancel_trip env input db ≡ ok (response, db')
    → cancel_trip later input (run steps db') ≡ ok (response, run steps db')
unfolding cancel_trip
cancel_trip-replay env later steps input db {response} {db'} h = bind_then _ _ (
    run-Answers input.customer_user_id Operation.cancel_trip input.idempotency_key
      input.request_fingerprint response steps db' (cancel_trip-Answered env input db _ db' h))
