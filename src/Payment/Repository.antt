-- ===== src/Payment/Repository.antt =====
-- apps/api/src/payment/payment.repository.ts: capture and findForActor.
pub mod Attempts
pub mod Charges
pub mod Promises
pub mod Errors
pub mod Replay
pub mod Once
mod Tests
use gove.Prelude.{
  ℕ, suc, ◌+◌, Bool, true, false, ◌&&◌, ◌||◌, not, [], ◌∷◌, List, filter, find?, any, Option, none,
  some, is_some, if◌then◌else◌, ltb, leb, ◌==◌, map,
}
use gove.Prelude.Text.{Text, text_eq}
use gove.Contracts.{
  PaymentProvider, PaymentStatus, succeeded, failed, unknown, completed, trip_state_eq,
}
use gove.Database.{
  ◌>>=◌, ◌>>◌, pure, throw, throw_when, gets, modify, some_or_throw, order_by, flat_map,
}
use gove.Dispatch.Tables.{
  Uuid, Trip, Assignment, Db, Env, Work, payment_error, unique_violation, check_violation,
  payment_attempts_unique_number, payment_attempts_one_open_or_success,
  payment_attempts_provider_fields, payment_attempts_failure_fields, payment_attempts_resolution,
  payment_attempts_attempt_number, payment_outbox_events_unique_event,
  payment_command_receipts_pkey,
}
use gove.Payment.Rows.{
  PaymentAttempt, PaymentAttemptResponse, PaymentReceipt, PaymentEvent, PaymentCommandErrorCode,
}
use gove.Dispatch.Repository.{random_uuid, same_digest, find_trip, head}
use gove.Trip.Repository.{safe_integer}
use gove.Trip.Repository.Reads.{left_join, is_same_user, driver_of, attempts_of}

pub record CaptureInput : Type 0 where
  pub customer_user_id : Uuid
  pub trip_id : Uuid
  pub idempotency_key : Text
  pub request_fingerprint : Text
  pub correlation_id : Text
  pub provider : PaymentProvider
  pub status : PaymentStatus
  pub provider_reference : Option Text
  pub failure_code : Option Text

unfoldable pub find_payment_receipt : Uuid → Text → Db → Option PaymentReceipt
find_payment_receipt actor key db =
    find? (λ r. text_eq r.actor_user_id actor && text_eq r.idempotency_key key) db.payment_receipts

-- The answer of the receipt block of capture, if there is a receipt.
unfoldable pub check_payment_receipt : CaptureInput → Work (Option PaymentAttemptResponse)
unfolding find_payment_receipt
check_payment_receipt input = do
  receipt ← gets (find_payment_receipt input.customer_user_id input.idempotency_key)
  elim receipt [
    | none ↦ pure none
    | some r ↦
        if not (same_digest r.request_fingerprint input.request_fingerprint)
        then throw (payment_error PaymentCommandErrorCode.idempotency_key_reused)
        else pure (some r.response_body)
  ]

unfoldable pub to_payment_attempt_response : PaymentAttempt → Work PaymentAttemptResponse
unfolding safe_integer
to_payment_attempt_response row = do
  amount ← safe_integer row.amount_minor
  pure (record {
    id = row.id;
    trip_id = row.trip_id;
    attempt_number = row.attempt_number;
    amount_minor = amount;
    currency = row.currency;
    provider = row.provider;
    status = row.status;
    provider_reference = row.provider_reference;
    failure_code = row.failure_code;
    requested_at = row.requested_at;
    resolved_at = row.resolved_at;
  })

-- The Trip may be paid; its final fare.
unfoldable pub payable : CaptureInput → Trip → Work ℕ
payable input trip = do
  throw_when (not (text_eq trip.customer_user_id input.customer_user_id))
      (payment_error PaymentCommandErrorCode.payment_forbidden)
  throw_when (not (trip_state_eq trip.state completed))
      (payment_error PaymentCommandErrorCode.trip_not_completed)
  some_or_throw trip.final_fare_minor (payment_error PaymentCommandErrorCode.trip_not_completed)

-- What the status of the latest attempt, of the given number, says to a further one.
abbrev pub number_after : ℕ → PaymentStatus → Work ℕ
number_after n PaymentStatus.pending = throw (payment_error PaymentCommandErrorCode.payment_pending)
number_after n succeeded = throw (payment_error PaymentCommandErrorCode.payment_already_succeeded)
number_after n unknown =
    throw (payment_error PaymentCommandErrorCode.payment_reconciliation_required)
number_after n failed = pure (n + 1)

-- The tests of the latest attempt; the number of the next one.
unfoldable pub next_attempt_number : Option PaymentAttempt → Work ℕ
next_attempt_number none = pure 1
next_attempt_number (some latest) = number_after latest.attempt_number latest.status

abbrev pub payment_status_eq : PaymentStatus → PaymentStatus → Bool
payment_status_eq PaymentStatus.pending PaymentStatus.pending = true
payment_status_eq succeeded succeeded = true
payment_status_eq failed failed = true
payment_status_eq unknown unknown = true
payment_status_eq _ _ = false

abbrev pub is_pending_payment : PaymentStatus → Bool
is_pending_payment PaymentStatus.pending = true
is_pending_payment _ = false

-- status IN ('PENDING', 'SUCCEEDED', 'UNKNOWN')
abbrev pub is_open_or_success : PaymentStatus → Bool
is_open_or_success failed = false
is_open_or_success _ = true

-- The CHECK constraints of payment.payment_attempts on the reference and the failure.
abbrev pub has_provider_fields : PaymentStatus → Option Text → Option Text → Bool
has_provider_fields succeeded reference failure = is_some reference && not (is_some failure)
has_provider_fields _ reference failure = not (is_some reference)

abbrev pub has_failure_fields : PaymentStatus → Option Text → Bool
has_failure_fields failed failure = is_some failure
has_failure_fields unknown failure = is_some failure
has_failure_fields _ failure = not (is_some failure)

abbrev pub has_resolution : PaymentStatus → Option ℕ → Bool
has_resolution PaymentStatus.pending resolved_at = not (is_some resolved_at)
has_resolution _ resolved_at = is_some resolved_at

abbrev pub new_attempt : Env → CaptureInput → Trip → Uuid → ℕ → ℕ → PaymentAttempt
new_attempt env input trip id number fare = record {
  id = id;
  trip_id = input.trip_id;
  customer_user_id = input.customer_user_id;
  attempt_number = number;
  amount_minor = fare;
  currency = trip.currency;
  provider = input.provider;
  status = input.status;
  provider_reference = input.provider_reference;
  failure_code = input.failure_code;
  requested_at = env.now;
  resolved_at = if is_pending_payment input.status then none else some env.now;
}

-- INSERT INTO payment.payment_attempts, with the constraints of the table.
unfoldable pub insert_attempt : PaymentAttempt → Work (Unit {0})
insert_attempt attempt = do
  throw_when
      (not (has_provider_fields attempt.status attempt.provider_reference attempt.failure_code))
      (check_violation payment_attempts_provider_fields)
  throw_when (not (has_failure_fields attempt.status attempt.failure_code))
      (check_violation payment_attempts_failure_fields)
  throw_when (not (has_resolution attempt.status attempt.resolved_at))
      (check_violation payment_attempts_resolution)
  throw_when (attempt.attempt_number == 0) (check_violation payment_attempts_attempt_number)
  taken ← gets λ db.
      any (λ p. text_eq p.trip_id attempt.trip_id && p.attempt_number == attempt.attempt_number)
        db.payment_attempts
  throw_when taken (unique_violation payment_attempts_unique_number)
  is_open ← gets λ db.
      any (λ p. text_eq p.trip_id attempt.trip_id && is_open_or_success p.status)
        db.payment_attempts
  throw_when (is_open_or_success attempt.status && is_open)
      (unique_violation payment_attempts_one_open_or_success)
  modify λ db. record db { payment_attempts = attempt ∷ db.payment_attempts }

-- INSERT INTO payment.outbox_events; no two events of an attempt have one type.
unfoldable pub append_payment_event : CaptureInput → PaymentAttempt → Work (Unit {0})
append_payment_event input attempt = do
  taken ← gets λ db.
      any
        (λ e.
          text_eq e.payment_attempt_id attempt.id && payment_status_eq e.event_status input.status)
        db.payment_outbox
  throw_when taken (unique_violation payment_outbox_events_unique_event)
  modify λ db. record db {
    payment_outbox =
        record {
          payment_attempt_id = attempt.id;
          trip_id = input.trip_id;
          event_status = input.status;
        }
        ∷ db.payment_outbox;
  }

-- INSERT INTO payment.command_receipts, with its primary key
unfoldable pub persist_capture_receipt :
    CaptureInput → PaymentAttemptResponse → Uuid → Work (Unit {0})
unfolding find_payment_receipt
persist_capture_receipt input response attempt_id = do
  taken ← gets λ db. is_some (find_payment_receipt input.customer_user_id input.idempotency_key db)
  throw_when taken (unique_violation payment_command_receipts_pkey)
  modify λ db. record db {
    payment_receipts =
        record {
          actor_user_id = input.customer_user_id;
          idempotency_key = input.idempotency_key;
          request_fingerprint = input.request_fingerprint;
          response_body = response;
          payment_attempt_id = attempt_id;
          trip_id = input.trip_id;
        }
        ∷ db.payment_receipts;
  }

-- capture after its receipt block.
unfoldable pub charge : Env → CaptureInput → Work PaymentAttemptResponse
unfolding find_trip payable attempts_of next_attempt_number insert_attempt
    to_payment_attempt_response append_payment_event persist_capture_receipt
charge env input = do
  found ← gets (find_trip input.trip_id)
  trip ← some_or_throw found (payment_error PaymentCommandErrorCode.trip_not_found)
  fare ← payable input trip
  latest ← gets λ db. head (attempts_of input.trip_id db)
  number ← next_attempt_number latest
  id ← random_uuid env
  insert_attempt (new_attempt env input trip id number fare)
  response ← to_payment_attempt_response (new_attempt env input trip id number fare)
  append_payment_event input (new_attempt env input trip id number fare)
  persist_capture_receipt input response id
  pure response

-- `if (receipt) return receipt.response_body;`
abbrev pub paid_or :
    Option PaymentAttemptResponse → Work PaymentAttemptResponse → Work PaymentAttemptResponse
paid_or (some response) rest = pure response
paid_or none rest = rest

unfoldable pub capture : Env → CaptureInput → Work PaymentAttemptResponse
unfolding check_payment_receipt charge
capture env input = do receipt ← check_payment_receipt input; paid_or receipt (charge env input)

-- The attempts of the Trip that the actor may see, the last one first.
unfoldable pub visible_attempts : Uuid → Bool → Uuid → Db → List PaymentAttempt
visible_attempts actor_id is_operator trip_id db =
    order_by (λ a b. ltb b.attempt_number a.attempt_number)
      (flat_map
        (λ p.
          flat_map
            (λ t.
              map (λ a. p)
                (filter
                  (λ a.
                    text_eq t.customer_user_id actor_id
                    || is_same_user (driver_of a) actor_id
                    || is_operator)
                  (left_join (filter (λ a. text_eq a.trip_id p.trip_id) db.assignments))))
            (filter (λ t. text_eq t.id p.trip_id) db.trips))
        (filter (λ p. text_eq p.trip_id trip_id) db.payment_attempts))

-- findForActor; `is_operator` says whether the roles include OPERATOR.
unfoldable pub find_for_actor : Uuid → Bool → Uuid → Work PaymentAttemptResponse
unfolding visible_attempts to_payment_attempt_response
find_for_actor actor_id is_operator trip_id = do
  found ← gets λ db. head (visible_attempts actor_id is_operator trip_id db)
  attempt ← some_or_throw found (payment_error PaymentCommandErrorCode.payment_not_found)
  to_payment_attempt_response attempt
