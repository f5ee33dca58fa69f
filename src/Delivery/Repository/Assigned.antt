-- ===== src/Delivery/Repository/Assigned.antt =====
-- apps/api/src/delivery/delivery.repository.ts: transitionAssignedDelivery.
use gove.Prelude.{
  ◌+◌, Bool, ◌&&◌, ◌||◌, not, ◌∷◌, filter, map, any, Option, none, some, is_some, ◌==◌,
  if◌then◌else◌,
}
use gove.Prelude.Text.{Text, text_eq}
use gove.Contracts.{DriverWorkState, available, to_pickup, on_trip, work_state_eq}
use gove.Database.{◌>>=◌, ◌>>◌, pure, throw_when, gets, modify, flat_map, some_or_throw, update}
use gove.Dispatch.Tables.{
  Uuid, WorkState, DeliveryCommandErrorCode, Env, delivery_error, unique_violation,
  delivery_proofs_delivery_id_key, delivery_proofs_assignment_id_key,
}
use gove.Dispatch.Repository.{random_uuid, update_work_states, head, eq_uuid_option}
use gove.Delivery.Rows.{
  DeliveryState, Delivery, DeliveryAssignmentStatus, DeliveryAssignment, DeliveryAction,
  DeliveryCommand, DeliveryEventType, DeliveryBody, DeliveryOperation, DeliveryDb, DeliveryWork,
  in_transit, delivered, arrive_at_pickup, confirm_pickup_custody, complete_delivery,
  delivery_state_eq, delivery_driver_arrived_at_pickup, delivery_pickup_custody_confirmed,
  delivery_completed, delivery_response,
}
use gove.Delivery.Repository.{
  on_shared, check_delivery_receipt, replay_or, persist_delivery_receipt, append_transition,
  append_delivery_outbox_event, to_delivery_response, update_deliveries, with_delivery_state,
  with_delivery,
}
use gove.Delivery.Repository.Reads.{is_active_assignment}
use gove.Delivery.Repository.Matching.{is_delivery_at}

pub record DeliveryTransitionPolicy : Type 0 where
  pub from_state : DeliveryState
  pub to_state : DeliveryState
  pub work_state_from : DriverWorkState
  pub work_state_to : DriverWorkState
  pub event_type : DeliveryEventType

unfoldable pub delivery_transition_policy : DeliveryAction → DeliveryTransitionPolicy
delivery_transition_policy arrive_at_pickup = record {
  from_state = DeliveryState.driver_to_pickup;
  to_state = DeliveryState.at_pickup;
  work_state_from = to_pickup;
  work_state_to = to_pickup;
  event_type = delivery_driver_arrived_at_pickup;
}
delivery_transition_policy confirm_pickup_custody = record {
  from_state = DeliveryState.at_pickup;
  to_state = in_transit;
  work_state_from = to_pickup;
  work_state_to = on_trip;
  event_type = delivery_pickup_custody_confirmed;
}
delivery_transition_policy complete_delivery = record {
  from_state = in_transit;
  to_state = delivered;
  work_state_from = on_trip;
  work_state_to = available;
  event_type = delivery_completed;
}

pub record DeliveryTransitionInput : Type 0 where
  pub driver_user_id : Uuid
  pub delivery_id : Uuid
  pub action : DeliveryAction
  pub idempotency_key : Text
  pub request_fingerprint : Text
  pub correlation_id : Text
  pub confirmation : Option Text

-- An AssignedDeliveryRow.
pub record AssignedDelivery : Type 0 where
  pub delivery : Delivery
  pub assignment : DeliveryAssignment
  pub work_state : WorkState

unfoldable pub find_assigned_delivery : Uuid → Uuid → DeliveryDb → Option AssignedDelivery
find_assigned_delivery delivery_id driver_user_id db = head (
    flat_map
      (λ d.
        flat_map
          (λ a.
            map (λ ws. record { delivery = d; assignment = a; work_state = ws })
              (filter (λ ws. text_eq ws.driver_user_id a.driver_user_id) db.shared.work_states))
          (filter (λ a. text_eq a.delivery_id d.id && text_eq a.driver_user_id driver_user_id)
            db.assignments))
      (filter (λ d. text_eq d.id delivery_id) db.deliveries))

unfoldable pub update_delivery_assignments :
    (DeliveryAssignment → Bool)
    → (DeliveryAssignment → DeliveryAssignment)
    → DeliveryWork (Unit {0})
update_delivery_assignments p change =
    modify λ db. record db { assignments = update p change db.assignments }

abbrev pub confirmed_assignment :
    Env → DeliveryTransitionInput → DeliveryAssignment → DeliveryAssignment
confirmed_assignment env input a = record a {
  pickup_custody_confirmation = input.confirmation;
  pickup_confirmed_at = some env.now;
}

abbrev pub completed_assignment : Env → DeliveryAssignment → DeliveryAssignment
completed_assignment env a = record a {
  status = DeliveryAssignmentStatus.completed;
  completed_at = some env.now;
}

-- INSERT INTO delivery.delivery_proofs
unfoldable pub insert_proof : Env → DeliveryTransitionInput → Uuid → Uuid → DeliveryWork (Unit {0})
unfolding on_shared
insert_proof env input delivery_id assignment_id = do
  id ← on_shared (random_uuid env)
  proved ← gets λ db. any (λ p. text_eq p.delivery_id delivery_id) db.proofs
  throw_when proved (unique_violation delivery_proofs_delivery_id_key)
  used ← gets λ db. any (λ p. text_eq p.assignment_id assignment_id) db.proofs
  throw_when used (unique_violation delivery_proofs_assignment_id_key)
  modify λ db. record db {
    proofs =
        record {
          id = id;
          delivery_id = delivery_id;
          assignment_id = assignment_id;
          recorded_by_user_id = input.driver_user_id;
          confirmation_text = input.confirmation;
        }
        ∷ db.proofs;
  }

-- What an action records on the assignment.
unfoldable pub record_action :
    Env → DeliveryTransitionInput → Uuid → Uuid → DeliveryAction → DeliveryWork (Unit {0})
unfolding update_delivery_assignments insert_proof
record_action env input delivery_id assignment_id arrive_at_pickup = pure tt
record_action env input delivery_id assignment_id confirm_pickup_custody =
    update_delivery_assignments
      (λ a.
        text_eq a.id assignment_id
        && is_active_assignment a.status
        && not (is_some a.pickup_custody_confirmation))
      (confirmed_assignment env input)
record_action env input delivery_id assignment_id complete_delivery =
    insert_proof env input delivery_id assignment_id
    >> update_delivery_assignments
        (λ a. text_eq a.id assignment_id && is_active_assignment a.status)
        (completed_assignment env)

-- current_delivery_id after an action: null once the delivery is complete
abbrev pub kept_delivery : DeliveryAction → Uuid → Option Uuid
kept_delivery complete_delivery id = none
kept_delivery _ id = some id

abbrev pub is_on_delivery : Uuid → DriverWorkState → Uuid → WorkState → Bool
is_on_delivery driver_user_id state delivery_id w =
    text_eq w.driver_user_id driver_user_id
    && work_state_eq w.work_state state
    && eq_uuid_option w.current_delivery_id delivery_id
    && not (is_some w.current_trip_id)

-- The rows that an accepted transition changes, and its answer.
unfoldable pub advance_delivery :
    Env → DeliveryTransitionInput → AssignedDelivery → DeliveryWork DeliveryBody
unfolding delivery_transition_policy update_deliveries record_action on_shared update_work_states
    append_transition append_delivery_outbox_event to_delivery_response persist_delivery_receipt
advance_delivery env input row = do
  delivery_count ←
      update_deliveries
        (is_delivery_at row.delivery.id (delivery_transition_policy input.action).from_state
          row.delivery.version)
        (with_delivery_state (delivery_transition_policy input.action).to_state
          (row.delivery.version + 1))
  throw_when (not (delivery_count == 1))
      (delivery_error DeliveryCommandErrorCode.delivery_invalid_state)
  record_action env input row.delivery.id row.assignment.id input.action
  row_count ← on_shared (
      update_work_states
        (is_on_delivery input.driver_user_id
          (delivery_transition_policy input.action).work_state_from row.delivery.id)
        (with_delivery env (delivery_transition_policy input.action).work_state_to
          (kept_delivery input.action row.delivery.id)))
  throw_when (not (row_count == 1))
      (delivery_error DeliveryCommandErrorCode.driver_work_state_conflict)
  append_transition (record {
    delivery_id = row.delivery.id;
    actor_user_id = some input.driver_user_id;
    command = DeliveryCommand.act input.action;
    from_state = some (delivery_transition_policy input.action).from_state;
    to_state = (delivery_transition_policy input.action).to_state;
    from_version = some row.delivery.version;
    to_version = row.delivery.version + 1;
    correlation_id = input.correlation_id;
  })
  append_delivery_outbox_event row.delivery.id (row.delivery.version + 1)
      (delivery_transition_policy input.action).event_type
  response ← to_delivery_response (
      with_delivery_state (delivery_transition_policy input.action).to_state
        (row.delivery.version + 1) row.delivery)
  persist_delivery_receipt input.driver_user_id (DeliveryOperation.act input.action)
      input.idempotency_key input.request_fingerprint (delivery_response response)
  pure (delivery_response response)

-- transitionAssignedDelivery after its receipt block.
unfoldable pub transition_delivery : Env → DeliveryTransitionInput → DeliveryWork DeliveryBody
unfolding find_assigned_delivery delivery_transition_policy advance_delivery
transition_delivery env input = do
  found ← gets (find_assigned_delivery input.delivery_id input.driver_user_id)
  exists ← gets λ db. any (λ d. text_eq d.id input.delivery_id) db.deliveries
  row ← some_or_throw found (
      delivery_error (
        if exists
        then DeliveryCommandErrorCode.delivery_not_assigned_to_driver
        else DeliveryCommandErrorCode.delivery_not_found))
  throw_when
      (not (is_active_assignment row.assignment.status)
        || not (
            delivery_state_eq row.delivery.state
              (delivery_transition_policy input.action).from_state)
        || not (
            work_state_eq row.work_state.work_state
              (delivery_transition_policy input.action).work_state_from))
      (delivery_error DeliveryCommandErrorCode.delivery_invalid_state)
  advance_delivery env input row

unfoldable pub transition_assigned_delivery :
    Env → DeliveryTransitionInput → DeliveryWork DeliveryBody
unfolding check_delivery_receipt transition_delivery
transition_assigned_delivery env input = do
  receipt ←
      check_delivery_receipt input.driver_user_id (DeliveryOperation.act input.action)
        input.idempotency_key input.request_fingerprint
  replay_or receipt (transition_delivery env input)
