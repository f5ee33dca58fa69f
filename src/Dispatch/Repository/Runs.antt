-- ===== src/Dispatch/Repository/Runs.antt =====
-- The runs of apps/api/src/dispatch/dispatch.repository.ts: any commands, in any order, each in its
-- transaction.
use gove.Dispatch.Repository.Bindings.{
  binds, rebinds, delivery_of_free, update_found-AreBound, cons-AreBound,
}
use gove.Prelude.{
  ◌&&◌, false, true, some, none, ok, Option, if◌then◌else◌, ◌≡◌, refl, ◌∙◌, subst, ℕ, Bool, not,
  ◌||◌, arith,
}
use gove.Prelude.Text.{Text}
use gove.Pricing.Fare.{calculate_final_fare}
use gove.Contracts.{offline, available, work_state_eq, DriverWorkState, TripState}
use gove.Database.{◌>>=◌, pure}
use gove.Database.Laws.{
  throw_when_end, read_ends, gets-Reads, throw_when-Reads, gets_end, bind_ends, ok_state, Keeps,
  bind-Keeps, if-Keeps,
}
use gove.Dispatch.Tables.{
  Db, arrive_at_pickup, Uuid, WorkState, Field, Snapshot, Trip, Assignment, AssignedTripAction, Env,
  object, not_object, detail_response, pricing_snapshot_invalid, command_error,
}
use gove.Dispatch.Repository.{with_work_state, update_work_states}
use gove.Dispatch.Repository.Assigned.{
  assigned_trip_transition_policy, update_assignments, required_string, required_integer,
  to_fare_pricing_rule_snapshot, meter, metered, final_fare, advance_assignment, is_start,
  is_complete, safe_integer, optional_safe_integer, detail, advance, transition_assigned,
  transition_assigned_trip, TransitionAssignedTripInput, AssignedTripRow,
}
use gove.Dispatch.Repository.WorkStates.{
  WorkStateResponse, find_work_state, requested_state, new_work_state, go_available, go_offline,
  store_work_state, set_work_state, RequestedWorkState,
}
use gove.Dispatch.Repository.Validity.{
  IsValid, Frames, Frames-Keeps, gets-Frames, throw_when-Frames, some_or_throw-Frames,
  update_trips-Frames, update_bound-Keeps, append_trip_transition-Frames, append_trip_outbox-Frames,
  persist_receipt-Frames,
}
use gove.Dispatch.Repository.Invariant.{or_throw-Frames}
use gove.Dispatch.Repository.Safety.{framed, ended, check_receipt-Frames, answer_or-Keeps}
use gove.Prelude.OrderedMap.{OrderedMap}

pub update_assignments-Frames :
    (p : Assignment → Bool) (c : Assignment → Assignment) → Frames (update_assignments p c)
unfolding update_assignments
update_assignments-Frames p c s a s' h = ground arith

required_string-Frames : (m : OrderedMap Field) (k : Text) → Frames (required_string m k)
unfolding required_string
required_string-Frames m k s a s' h = ground arith

required_integer-Frames : (m : OrderedMap Field) (k : Text) → Frames (required_integer m k)
unfolding required_integer
required_integer-Frames m k s a s' h = ground arith

to_fare_pricing_rule_snapshot-Keeps :
    (snapshot : Snapshot) → Keeps IsValid (to_fare_pricing_rule_snapshot snapshot)
unfolding to_fare_pricing_rule_snapshot
to_fare_pricing_rule_snapshot-Keeps not_object s a s' h v = cc
to_fare_pricing_rule_snapshot-Keeps (object m) s a s' h v =
    (framed _ _ (required_string-Frames m _) λ x. framed _ _ (required_string-Frames m _) λ x.
        framed _ _ (required_string-Frames m _) λ x. framed _ _ (required_integer-Frames m _) λ x.
          framed _ _ (required_integer-Frames m _) λ x.
            framed _ _ (required_integer-Frames m _) λ x.
              framed _ _ (required_integer-Frames m _) λ x.
                framed _ _ (required_integer-Frames m _)
                  λ x. framed _ _ (required_integer-Frames m _) λ x. ended _)
      s a s' h v

meter-Keeps : (input : TransitionAssignedTripInput) (t : Trip) → Keeps IsValid (meter input t)
unfolding meter
meter-Keeps input t = framed _ _ (throw_when-Frames _ _) λ u.
    bind-Keeps _ _ (to_fare_pricing_rule_snapshot-Keeps t.quote_snapshot) λ rules.
      framed _ _
        (or_throw-Frames (calculate_final_fare (metered input t) rules)
          (λ e. command_error pricing_snapshot_invalid))
        λ fare. ended fare.total_fare_minor

final_fare-Keeps :
    (input : TransitionAssignedTripInput) (t : Trip) → Keeps IsValid (final_fare input t)
unfolding final_fare
final_fare-Keeps input t =
    if-Keeps (not (is_complete input.action)) _ _ (ended none)
      (bind-Keeps _ _ (meter-Keeps input t) λ fare. ended (some fare))

advance_assignment-Keeps :
    (env : Env) (action : AssignedTripAction) (id : Uuid)
    → Keeps IsValid (advance_assignment env action id)
unfolding advance_assignment
advance_assignment-Keeps env action id =
    if-Keeps (not (is_start action || is_complete action)) _ _ (ended tt)
      (framed _ _ (update_assignments-Frames _ _) λ n. Frames-Keeps _ (throw_when-Frames _ _))

safe_integer-Frames : (n : ℕ) → Frames (safe_integer n)
unfolding safe_integer
safe_integer-Frames n s a s' h = ground arith

optional_safe_integer-Frames : (o : Option ℕ) → Frames (optional_safe_integer o)
unfolding optional_safe_integer safe_integer ◌>>=◌
optional_safe_integer-Frames o s a s' h = ground arith

detail-Keeps :
    (env : Env) (input : TransitionAssignedTripInput) (row : AssignedTripRow) (state : TripState)
    (version : ℕ) (fare : Option ℕ)
    → Keeps IsValid (detail env input row state version fare)
unfolding detail
detail-Keeps env input row state version fare = framed _ _ (safe_integer-Frames _) λ quoted.
    bind-Keeps _ _
      (if-Keeps (is_complete input.action) (pure fare)
        (optional_safe_integer row.trip.final_fare_minor) (ended fare)
        (Frames-Keeps _ (optional_safe_integer-Frames row.trip.final_fare_minor)))
      λ shown. ended _

policy_binds :
    (action : AssignedTripAction) (id : Uuid)
    → binds
        (assigned_trip_transition_policy action).work_state_to
        (if is_complete action then none else some id)
        none
      ≡ true
unfolding assigned_trip_transition_policy
policy_binds arrive_at_pickup id = refl
policy_binds AssignedTripAction.start_trip id = refl
policy_binds AssignedTripAction.complete_trip id = refl

advance-Keeps :
    (env : Env) (input : TransitionAssignedTripInput) (row : AssignedTripRow)
    → Keeps IsValid (advance env input row)
unfolding advance
advance-Keeps env input row = bind-Keeps _ _ (final_fare-Keeps input row.trip) λ fare.
    framed _ _ (update_trips-Frames _ _) λ n. framed _ _ (throw_when-Frames _ _) λ u.
      bind-Keeps _ _ (advance_assignment-Keeps env input.action row.assignment.id) λ u.
        bind-Keeps _ _
          (update_bound-Keeps _ env (assigned_trip_transition_policy input.action).work_state_to
            (if is_complete input.action then none else some row.trip.id) row.trip.id
            (λ w h. ground (arith, h)) (policy_binds input.action row.trip.id))
          λ n. framed _ _ (throw_when-Frames _ _) λ u.
            framed _ _ (append_trip_transition-Frames _) λ u.
              framed _ _ (append_trip_outbox-Frames _ _ _) λ u.
                bind-Keeps _ _ (detail-Keeps env input row _ _ fare)
                  λ r. framed _ _ (persist_receipt-Frames _ _ _ _ _) λ u. ended (detail_response r)

transition_assigned-Keeps :
    (env : Env) (input : TransitionAssignedTripInput)
    → Keeps IsValid (transition_assigned env input)
unfolding transition_assigned
transition_assigned-Keeps env input = framed _ _ (gets-Frames _) λ found.
    framed _ _ (gets-Frames _) λ trip. framed _ _ (some_or_throw-Frames _ _) λ row.
      framed _ _ (throw_when-Frames _ _)
        λ u. framed _ _ (throw_when-Frames _ _) λ u. advance-Keeps env input row

pub transition_assigned_trip-Keeps :
    (env : Env) (input : TransitionAssignedTripInput)
    → Keeps IsValid (transition_assigned_trip env input)
unfolding transition_assigned_trip
transition_assigned_trip-Keeps env input =
    framed _ _ (check_receipt-Frames _ _ _ _)
      λ receipt. answer_or-Keeps receipt _ _ (transition_assigned-Keeps env input)

requested_free : (state : RequestedWorkState) → binds (requested_state state) none none ≡ true
requested_free go_available = refl
requested_free go_offline = refl

was_free :
    (state : DriverWorkState)
    → not (work_state_eq state offline) && not (work_state_eq state available) ≡ false
    → work_state_eq state offline || work_state_eq state available ≡ true
was_free state h = ground (arith, h)

-- The UPDATE of the one row of the Driver, or the INSERT of a first one.
store_work_state-IsValid :
    (env : Env) (d : Uuid) (state : RequestedWorkState) (row : Option WorkState) (s : Db)
    (a : WorkStateResponse) (s' : Db)
    → find_work_state d s ≡ row
    → store_work_state env d (requested_state state) row s ≡ ok (a, s')
    → IsValid s
    → IsValid s'
unfolding store_work_state find_work_state update_work_states
store_work_state-IsValid env d state (some w) s a s' f h v =
    read_ends _ _ (throw_when-Reads _ _) h λ u c k. bind_ends _ _ k λ n t e e'.
      subst IsValid (ok_state e ∙ ok_state e') (
        v.0,
        (
          v.1.0,
          update_found-AreBound d (with_work_state env (requested_state state) none) s.work_states w
              f (λ w. refl)
              (λ b.
                rebinds env (requested_state state) none w
                  (delivery_of_free w.work_state w.current_trip_id w.current_delivery_id
                    (was_free w.work_state (throw_when_end _ _ s c).0) b)
                  (requested_free state))
              v.1.1,
        ),
      )
store_work_state-IsValid env d state none s a s' f h v = bind_ends _ _ h λ u t e e'.
    subst IsValid (ok_state e ∙ ok_state e') (
      v.0,
      (
        v.1.0,
        cons-AreBound (new_work_state env d (requested_state state)) s.work_states f
            (requested_free state) v.1.1,
      ),
    )

pub set_work_state-Keeps :
    (env : Env) (d : Uuid) (state : RequestedWorkState) → Keeps IsValid (set_work_state env d state)
unfolding set_work_state
set_work_state-Keeps env d state s a s' h v = read_ends _ _ (gets-Reads _) h λ eligible e h.
    read_ends _ _ (throw_when-Reads _ _) h λ u e h. read_ends _ _ (gets-Reads _) h λ existing e h.
      store_work_state-IsValid env d state existing s a s' (gets_end (find_work_state d) s e).0 h v
