-- ===== src/Payment/Rows.antt =====
-- The rows that apps/api/src/payment/payment.repository.ts reads and writes, and its answer, by the
-- names of the columns in infra/postgres/migrations.
use gove.Prelude.{ℕ, Option}
use gove.Prelude.Text.{Text}
use gove.Contracts.{PaymentProvider, PaymentStatus}
use gove.Trip.Rows.{Uuid}

-- payment.payment_attempts
pub record PaymentAttempt : Type 0 where
  pub id : Uuid
  pub trip_id : Uuid
  pub customer_user_id : Uuid
  pub attempt_number : ℕ
  pub amount_minor : ℕ
  pub currency : Text
  pub provider : PaymentProvider
  pub status : PaymentStatus
  pub provider_reference : Option Text
  pub failure_code : Option Text
  pub requested_at : ℕ
  pub resolved_at : Option ℕ

pub record PaymentAttemptResponse : Type 0 where
  pub id : Uuid
  pub trip_id : Uuid
  pub attempt_number : ℕ
  pub amount_minor : ℕ
  pub currency : Text
  pub provider : PaymentProvider
  pub status : PaymentStatus
  pub provider_reference : Option Text
  pub failure_code : Option Text
  pub requested_at : ℕ
  pub resolved_at : Option ℕ

-- payment.command_receipts, of the operation CAPTURE_PAYMENT.
pub record PaymentReceipt : Type 0 where
  pub actor_user_id : Uuid
  pub idempotency_key : Text
  pub request_fingerprint : Text
  pub response_body : PaymentAttemptResponse
  pub payment_attempt_id : Uuid
  pub trip_id : Uuid

-- payment.outbox_events; the type of the event is `payment.` and the status.
pub record PaymentEvent : Type 0 where
  pub payment_attempt_id : Uuid
  pub trip_id : Uuid
  pub event_status : PaymentStatus

pub data PaymentCommandErrorCode : Type 0 where
  trip_not_found payment_forbidden trip_not_completed payment_not_found payment_pending
        payment_already_succeeded payment_reconciliation_required idempotency_key_reused :
      PaymentCommandErrorCode
