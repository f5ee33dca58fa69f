-- ===== src/Payment/Service.antt =====
-- apps/api/src/payment/payment.service.ts: a capture by the plan of its provider. The SHA-256 digest
-- of the request is a parameter.
use gove.Prelude.{Option}
use gove.Prelude.Text.{Text}
use gove.Contracts.{PaymentProvider, PaymentStatus}
use gove.Trip.Rows.{Uuid}
use gove.Dispatch.Tables.{Env, Work}
use gove.Payment.Rows.{PaymentAttemptResponse}
use gove.Payment.Provider.{PaymentProviderPlan, plan_capture}
use gove.Payment.Repository.{CaptureInput, capture}

pub record CapturePaymentInput : Type 0 where
  pub customer_user_id : Uuid
  pub trip_id : Uuid
  pub idempotency_key : Text
  pub correlation_id : Text
  pub provider : PaymentProvider
  pub simulation_outcome : Option PaymentStatus

abbrev pub Digest : Type 0
Digest = Uuid → PaymentProvider → Option PaymentStatus → Text

abbrev pub to_capture_input : Digest → CapturePaymentInput → PaymentProviderPlan → CaptureInput
to_capture_input digest input plan = record {
  customer_user_id = input.customer_user_id;
  trip_id = input.trip_id;
  idempotency_key = input.idempotency_key;
  request_fingerprint = digest input.trip_id plan.provider input.simulation_outcome;
  correlation_id = input.correlation_id;
  provider = plan.provider;
  status = plan.status;
  provider_reference = plan.provider_reference;
  failure_code = plan.failure_code;
}

-- PaymentService.capture, `uuid` being what the provider reads from randomUUID.
unfoldable pub capture_payment :
    Digest → Env → Uuid → CapturePaymentInput → Work PaymentAttemptResponse
unfolding plan_capture capture
capture_payment digest env uuid input =
    capture env
      (to_capture_input digest input (plan_capture uuid input.provider input.simulation_outcome))
