-- ===== src/Dispatch/Repository/Durable/Assigned.antt =====
-- transitionAssignedTrip and setWorkState of apps/api/src/dispatch/dispatch.repository.ts leave the
-- receipts that there are.
use gove.Prelude.{ℕ, Bool, Option, arith}
use gove.Prelude.Text.{Text}
use gove.Prelude.OrderedMap.{OrderedMap}
use gove.Contracts.{TripState, DriverWorkState}
use gove.Database.{◌>>=◌}
use gove.Dispatch.Tables.{
  Uuid, Trip, WorkState, Assignment, AssignedTripAction, Field, Snapshot, Env, object, not_object,
}
use gove.Dispatch.Repository.{update_work_states}
use gove.Dispatch.Repository.Assigned.{
  TransitionAssignedTripInput, AssignedTripRow, update_assignments, required_string,
  required_integer, to_fare_pricing_rule_snapshot, meter, final_fare, advance_assignment,
  safe_integer, optional_safe_integer, detail, advance, transition_assigned,
  transition_assigned_trip,
}
use gove.Dispatch.Repository.WorkStates.{RequestedWorkState, store_work_state, set_work_state}
use gove.Dispatch.Repository.Durable.{IsDurable, same-IsDurable, durable_rules}

pub update_assignments-IsDurable :
    (p : Assignment → Bool) (c : Assignment → Assignment) → IsDurable (update_assignments p c)
unfolding update_assignments
update_assignments-IsDurable p c = same-IsDurable _ λ s b s' h. ground arith

pub required_string-IsDurable : (m : OrderedMap Field) (k : Text) → IsDurable (required_string m k)
unfolding required_string
required_string-IsDurable m k = same-IsDurable _ λ s b s' h. ground arith

pub required_integer-IsDurable :
    (m : OrderedMap Field) (k : Text) → IsDurable (required_integer m k)
unfolding required_integer
required_integer-IsDurable m k = same-IsDurable _ λ s b s' h. ground arith

pub to_fare_pricing_rule_snapshot-IsDurable :
    (snapshot : Snapshot) → IsDurable (to_fare_pricing_rule_snapshot snapshot)
unfolding to_fare_pricing_rule_snapshot
to_fare_pricing_rule_snapshot-IsDurable not_object = same-IsDurable _ λ s b s' h. ground arith
to_fare_pricing_rule_snapshot-IsDurable (object m) =
    search (durable_rules, required_string-IsDurable, required_integer-IsDurable) depth 40 fits 5000

pub meter-IsDurable : (input : TransitionAssignedTripInput) (t : Trip) → IsDurable (meter input t)
unfolding meter
meter-IsDurable input t =
    search (durable_rules, to_fare_pricing_rule_snapshot-IsDurable) depth 40 fits 5000

pub final_fare-IsDurable :
    (input : TransitionAssignedTripInput) (t : Trip) → IsDurable (final_fare input t)
unfolding final_fare
final_fare-IsDurable input t = search (durable_rules, meter-IsDurable) depth 40 fits 5000

pub advance_assignment-IsDurable :
    (env : Env) (action : AssignedTripAction) (id : Uuid)
    → IsDurable (advance_assignment env action id)
unfolding advance_assignment
advance_assignment-IsDurable env action id =
    search (durable_rules, update_assignments-IsDurable) depth 40 fits 5000

pub safe_integer-IsDurable : (n : ℕ) → IsDurable (safe_integer n)
unfolding safe_integer
safe_integer-IsDurable n = same-IsDurable _ λ s b s' h. ground arith

pub optional_safe_integer-IsDurable : (o : Option ℕ) → IsDurable (optional_safe_integer o)
unfolding optional_safe_integer safe_integer ◌>>=◌
optional_safe_integer-IsDurable o = same-IsDurable _ λ s b s' h. ground arith

pub detail-IsDurable :
    (env : Env) (input : TransitionAssignedTripInput) (row : AssignedTripRow) (state : TripState)
    (version : ℕ) (fare : Option ℕ)
    → IsDurable (detail env input row state version fare)
unfolding detail
detail-IsDurable env input row state version fare =
    search (durable_rules, safe_integer-IsDurable, optional_safe_integer-IsDurable) depth 40 fits
      5000

pub advance-IsDurable :
    (env : Env) (input : TransitionAssignedTripInput) (row : AssignedTripRow)
    → IsDurable (advance env input row)
unfolding advance
advance-IsDurable env input row =
    search (durable_rules, final_fare-IsDurable, advance_assignment-IsDurable, detail-IsDurable)
      depth 40 fits 5000

pub transition_assigned-IsDurable :
    (env : Env) (input : TransitionAssignedTripInput) → IsDurable (transition_assigned env input)
unfolding transition_assigned
transition_assigned-IsDurable env input =
    search (durable_rules, advance-IsDurable) depth 40 fits 5000

pub transition_assigned_trip-IsDurable :
    (env : Env) (input : TransitionAssignedTripInput)
    → IsDurable (transition_assigned_trip env input)
unfolding transition_assigned_trip
transition_assigned_trip-IsDurable env input =
    search (durable_rules, transition_assigned-IsDurable) depth 40 fits 5000

pub store_work_state-IsDurable :
    (env : Env) (d : Uuid) (state : DriverWorkState) (row : Option WorkState)
    → IsDurable (store_work_state env d state row)
unfolding store_work_state update_work_states ◌>>=◌
store_work_state-IsDurable env d state row = same-IsDurable _ λ s b s' h. ground arith

pub set_work_state-IsDurable :
    (env : Env) (d : Uuid) (state : RequestedWorkState) → IsDurable (set_work_state env d state)
unfolding set_work_state
set_work_state-IsDurable env d state =
    search (durable_rules, store_work_state-IsDurable) depth 40 fits 5000
