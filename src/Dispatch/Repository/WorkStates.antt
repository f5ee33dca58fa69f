-- ===== src/Dispatch/Repository/WorkStates.antt =====
-- apps/api/src/dispatch/dispatch.repository.ts: setWorkState and getWorkState.
use gove.Prelude.{ℕ, Bool, true, false, ◌&&◌, not, ◌∷◌, find?, any, Option, none, some, is_some}
use gove.Prelude.Text.{text_eq}
use gove.Database.{◌>>=◌, ◌>>◌, pure, throw_when, gets, modify}
use gove.Dispatch.Tables.{
  Uuid, WorkState, Db, Env, Work, driver_not_eligible, driver_work_state_conflict, command_error,
}
use gove.Dispatch.Repository.{update_work_states, with_work_state}
use gove.Contracts.{DriverWorkState, offline, available, work_state_eq}
use gove.Dispatch.Repository.Matching.{is_approved}

pub record WorkStateResponse : Type 0 where
  pub driver_id : Uuid
  pub state : DriverWorkState
  pub state_version : ℕ
  pub updated_at : ℕ

-- The states that a Driver may ask for.
pub data RequestedWorkState : Type 0 where
  go_available go_offline : RequestedWorkState

abbrev pub requested_state : RequestedWorkState → DriverWorkState
requested_state go_available = available
requested_state go_offline = offline

unfoldable pub to_work_state_response : WorkState → WorkStateResponse
to_work_state_response row = record {
  driver_id = row.driver_user_id;
  state = row.work_state;
  state_version = row.state_version;
  updated_at = row.updated_at;
}

unfoldable pub find_work_state : Uuid → Db → Option WorkState
find_work_state driver_user_id db =
    find? (λ w. text_eq w.driver_user_id driver_user_id) db.work_states

-- An approved, active profile with an approved and selected vehicle.
unfoldable pub is_eligible : Uuid → Db → Bool
is_eligible driver_user_id db =
    any
      (λ p.
        text_eq p.user_id driver_user_id
        && is_approved p.approval_status
        && not (is_some p.deactivated_at))
      db.profiles
    && any
        (λ v.
          text_eq v.driver_user_id driver_user_id && is_approved v.approval_status && v.is_selected)
        db.vehicles

abbrev pub is_available : RequestedWorkState → Bool
is_available go_available = true
is_available go_offline = false

abbrev pub new_work_state : Env → Uuid → DriverWorkState → WorkState
new_work_state env driver_user_id state = record {
  driver_user_id = driver_user_id;
  work_state = state;
  current_trip_id = none;
  current_delivery_id = none;
  state_version = 0;
  state_changed_at = env.now;
  updated_at = env.now;
}

-- The UPDATE or INSERT of setWorkState.
unfoldable pub store_work_state :
    Env → Uuid → DriverWorkState → Option WorkState → Work WorkStateResponse
unfolding update_work_states to_work_state_response
store_work_state env driver_user_id state (some existing) = do
  throw_when
      (not (work_state_eq existing.work_state offline)
        && not (work_state_eq existing.work_state available))
      (command_error driver_work_state_conflict)
  update_work_states (λ w. text_eq w.driver_user_id driver_user_id) (with_work_state env state none)
  pure (to_work_state_response (with_work_state env state none existing))
store_work_state env driver_user_id state none =
    (modify
      λ db. record db { work_states = new_work_state env driver_user_id state ∷ db.work_states })
    >> pure (to_work_state_response (new_work_state env driver_user_id state))

unfoldable pub set_work_state : Env → Uuid → RequestedWorkState → Work WorkStateResponse
unfolding is_eligible find_work_state store_work_state
set_work_state env driver_user_id state = do
  eligible ← gets (is_eligible driver_user_id)
  throw_when (is_available state && not eligible) (command_error driver_not_eligible)
  existing ← gets (find_work_state driver_user_id)
  store_work_state env driver_user_id (requested_state state) existing

unfoldable pub get_work_state : Uuid → Db → WorkStateResponse
unfolding find_work_state to_work_state_response
get_work_state driver_user_id db = elim (find_work_state driver_user_id db) [
  | some row ↦ to_work_state_response row
  | none ↦ record { driver_id = driver_user_id; state = offline; state_version = 0; updated_at = 0 }
]
