-- ===== src/Delivery/Repository/Promises.antt =====
-- Runs of apps/api/src/delivery/delivery.repository.ts and of the dispatch and Trip repositories
-- together: they share the work states of the Drivers.
use gove.Prelude.{List, [], ◌∷◌}
use gove.Database.{transaction}
use gove.Database.Laws.{Keeps, transaction-Ensures}
use gove.Dispatch.Tables.{Uuid, Env}
use gove.Dispatch.Repository.Promises.{Request, execute, execute-IsValid}
use gove.Delivery.Rows.{DeliveryDb, DeliveryWork}
use gove.Delivery.Repository.Create.{CreateDeliveryRecord, create_delivery}
use gove.Delivery.Repository.Matching.{StartDeliveryMatchingInput, start_delivery_matching}
use gove.Delivery.Repository.Offers.{
  AcceptDeliveryInput, accept_delivery_offer, expire_due_delivery,
}
use gove.Delivery.Repository.Assigned.{DeliveryTransitionInput, transition_assigned_delivery}
use gove.Delivery.Repository.Validity.{IsSound}
use gove.Delivery.Repository.Safety.{create_delivery-Keeps, start_delivery_matching-Keeps}
use gove.Delivery.Repository.Outcomes.{
  accept_delivery_offer-Keeps, expire_due_delivery-Keeps, transition_assigned_delivery-Keeps,
}

-- The calls that write, of rides and of deliveries.
pub data SharedRequest : Type 0 where
  ride : Request → SharedRequest
  create : CreateDeliveryRecord → SharedRequest
  start : StartDeliveryMatchingInput → SharedRequest
  accept : AcceptDeliveryInput → SharedRequest
  expire : Uuid → SharedRequest
  advance : DeliveryTransitionInput → SharedRequest

-- The database after the transaction of a request.
unfoldable pub execute_shared : Env → SharedRequest → DeliveryDb → DeliveryDb
unfolding execute transaction create_delivery start_delivery_matching accept_delivery_offer
    expire_due_delivery transition_assigned_delivery
execute_shared env (ride request) db = record db { shared = execute env request db.shared }
execute_shared env (create input) db = (transaction (create_delivery env input) db).1
execute_shared env (start input) db = (transaction (start_delivery_matching env input) db).1
execute_shared env (accept input) db = (transaction (accept_delivery_offer env input) db).1
execute_shared env (expire offer_id) db = (transaction (expire_due_delivery env offer_id) db).1
execute_shared env (advance input) db = (transaction (transition_assigned_delivery env input) db).1

unfoldable pub run_shared : List (Env × SharedRequest) → DeliveryDb → DeliveryDb
unfolding execute_shared
run_shared [] db = db
run_shared ((env, request) ∷ rest) db = run_shared rest (execute_shared env request db)

transaction-IsSound :
    {A : Type 0} (work : DeliveryWork A) (db : DeliveryDb)
    → Keeps IsSound work
    → IsSound db
    → IsSound (transaction work db).1
transaction-IsSound work db f =
    transaction-Ensures work (λ s s'. IsSound s → IsSound s') db (λ t v. v) f

execute_shared-IsSound :
    (env : Env) (request : SharedRequest) (db : DeliveryDb)
    → IsSound db
    → IsSound (execute_shared env request db)
unfolding execute_shared
execute_shared-IsSound env (ride request) db v = (execute-IsValid env request db.shared v.0, v.1)
execute_shared-IsSound env (create input) db v =
    transaction-IsSound _ db (create_delivery-Keeps env input) v
execute_shared-IsSound env (start input) db v =
    transaction-IsSound _ db (start_delivery_matching-Keeps env input) v
execute_shared-IsSound env (accept input) db v =
    transaction-IsSound _ db (accept_delivery_offer-Keeps env input) v
execute_shared-IsSound env (expire offer_id) db v =
    transaction-IsSound _ db (expire_due_delivery-Keeps env offer_id) v
execute_shared-IsSound env (advance input) db v =
    transaction-IsSound _ db (transition_assigned_delivery-Keeps env input) v

-- Whatever requests for rides and deliveries run, in whatever order, a Driver is never bound to a Trip
-- and a delivery at once, or bound while OFFLINE or AVAILABLE, and neither a Driver nor a delivery
-- ever has two ACTIVE reservations for deliveries: from a sound database every run ends in one.
pub run_shared-IsSound :
    (steps : List (Env × SharedRequest)) (db : DeliveryDb)
    → IsSound db
    → IsSound (run_shared steps db)
unfolding run_shared
run_shared-IsSound [] db v = v
run_shared-IsSound ((env, request) ∷ rest) db v =
    run_shared-IsSound rest (execute_shared env request db)
      (execute_shared-IsSound env request db v)
