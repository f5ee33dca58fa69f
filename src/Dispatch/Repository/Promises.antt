-- ===== src/Dispatch/Repository/Promises.antt =====
-- Runs of apps/api/src/dispatch/dispatch.repository.ts: commands in any order, each in its
-- transaction with the clock and the locks of its moment, and the policy of the way to the end.
use gove.Prelude.{◌≡◌, refl, sym, subst, some, List, [], ◌∷◌, Result-cases, inl, inr}
use gove.Trip.Repository.Create.{CreateTripRecord, create_trip}
use gove.Trip.Repository.Cancel.{CancelTripInput, cancel_trip}
use gove.Trip.Repository.Safety.{create_trip-Keeps, cancel_trip-Keeps}
use gove.Trip.Lifecycle.{TripCommand, transitions}
use gove.Database.{transaction, settle}
use gove.Database.Laws.{Keeps}
use gove.Dispatch.Tables.{Uuid, AssignedTripAction, Db, Env, Work, arrive_at_pickup}
use gove.Dispatch.Repository.Matching.{StartMatchingInput, start_matching}
use gove.Dispatch.Repository.Offers.{OfferCommandInput, reject_offer, accept_offer_command}
use gove.Dispatch.Repository.Expiry.{expire_due_offer}
use gove.Dispatch.Repository.Assigned.{
  TransitionAssignedTripInput, transition_assigned_trip, assigned_trip_transition_policy,
}
use gove.Dispatch.Repository.WorkStates.{RequestedWorkState, set_work_state}
use gove.Dispatch.Repository.Validity.{IsValid}
use gove.Dispatch.Repository.Safety.{start_matching-Keeps, reject_offer-Keeps}
use gove.Dispatch.Repository.Outcomes.{accept_offer_command-Keeps, expire_due_offer-Keeps}
use gove.Dispatch.Repository.Runs.{transition_assigned_trip-Keeps, set_work_state-Keeps}

-- The calls of the dispatch and the Trip repository that write.
pub data Request : Type 0 where
  match_trip : StartMatchingInput → Request
  reject : OfferCommandInput → Request
  accept : OfferCommandInput → Request
  sweep : Uuid → Request
  advance_trip : TransitionAssignedTripInput → Request
  create : CreateTripRecord → Request
  cancel : CancelTripInput → Request
  change_state : Uuid → RequestedWorkState → Request

-- The database after the transaction of a request.
unfoldable pub execute : Env → Request → Db → Db
unfolding transaction start_matching reject_offer accept_offer_command expire_due_offer
    transition_assigned_trip set_work_state create_trip cancel_trip
execute env (match_trip input) db = (transaction (start_matching env input) db).1
execute env (reject input) db = (transaction (reject_offer env input) db).1
execute env (accept input) db = (transaction (accept_offer_command env input) db).1
execute env (sweep offer_id) db = (transaction (expire_due_offer env offer_id) db).1
execute env (advance_trip input) db = (transaction (transition_assigned_trip env input) db).1
execute env (create input) db = (transaction (create_trip env input) db).1
execute env (cancel input) db = (transaction (cancel_trip env input) db).1
execute env (change_state driver_id state) db =
    (transaction (set_work_state env driver_id state) db).1

unfoldable pub run : List (Env × Request) → Db → Db
unfolding execute
run [] db = db
run ((env, request) ∷ rest) db = run rest (execute env request db)

transaction-IsValid :
    {A : Type 0} (work : Work A) (db : Db)
    → Keeps IsValid work
    → IsValid db
    → IsValid (transaction work db).1
unfolding transaction
transaction-IsValid work db f v = elim (Result-cases (work db)) [
  | inl ((a, s'), e) ↦ subst (λ r. IsValid (settle db r).1) (sym e) (f db a s' e v)
  | inr (x, e) ↦ subst (λ r. IsValid (settle db r).1) (sym e) v
]

pub execute-IsValid :
    (env : Env) (request : Request) (db : Db) → IsValid db → IsValid (execute env request db)
unfolding execute
execute-IsValid env (match_trip input) db =
    transaction-IsValid _ db (start_matching-Keeps env input)
execute-IsValid env (reject input) db = transaction-IsValid _ db (reject_offer-Keeps env input)
execute-IsValid env (accept input) db =
    transaction-IsValid _ db (accept_offer_command-Keeps env input)
execute-IsValid env (sweep offer_id) db =
    transaction-IsValid _ db (expire_due_offer-Keeps env offer_id)
execute-IsValid env (advance_trip input) db =
    transaction-IsValid _ db (transition_assigned_trip-Keeps env input)
execute-IsValid env (create input) db = transaction-IsValid _ db (create_trip-Keeps env input)
execute-IsValid env (cancel input) db = transaction-IsValid _ db (cancel_trip-Keeps env input)
execute-IsValid env (change_state driver_id state) db =
    transaction-IsValid _ db (set_work_state-Keeps env driver_id state)

-- Whatever requests run on a valid database, in whatever order and with whatever clocks, rows locked
-- by others and errors, it stays valid: a Trip never gets more than three Offers, neither a Trip nor a
-- Driver ever has two ACTIVE reservations, and every Driver is bound as the work state says: to nothing
-- when OFFLINE or AVAILABLE, and to one Trip or one delivery otherwise.
pub run-IsValid : (steps : List (Env × Request)) (db : Db) → IsValid db → IsValid (run steps db)
unfolding run
run-IsValid [] db v = v
run-IsValid ((env, request) ∷ rest) db v =
    run-IsValid rest (execute env request db) (execute-IsValid env request db v)

-- The command of the life cycle that an action stands for.
abbrev pub lifecycle_command : AssignedTripAction → TripCommand
lifecycle_command arrive_at_pickup = TripCommand.mark_at_pickup
lifecycle_command AssignedTripAction.start_trip = TripCommand.start_trip
lifecycle_command AssignedTripAction.complete_trip = TripCommand.complete_trip

-- The policy of every action is a transition of the Trip life cycle.
pub assigned_trip_transition_policy-transitions :
    (action : AssignedTripAction)
    → transitions (assigned_trip_transition_policy action).from_state (lifecycle_command action)
      ≡ some (assigned_trip_transition_policy action).to_state
unfolding assigned_trip_transition_policy transitions
assigned_trip_transition_policy-transitions arrive_at_pickup = refl
assigned_trip_transition_policy-transitions AssignedTripAction.start_trip = refl
assigned_trip_transition_policy-transitions AssignedTripAction.complete_trip = refl
