-- ===== src/Payment/Repository/Tests.antt =====
-- The operations of apps/api/src/payment on one completed Trip.
use gove.Prelude.{◌≡◌, refl, true, false, none, some, List, [], ◌∷◌, ◌++◌, ok, err}
use gove.Contracts.{completed, PaymentStatus, failed, succeeded, simulator, momo}
use gove.Database.{◌>>=◌}
use gove.Dispatch.Tables.{Trip, Db, Env, payment_error}
use gove.Dispatch.Repository.Tests.{at_time, start_db, waiting_trip, state_of}
use gove.Payment.Rows.{PaymentAttemptResponse, PaymentCommandErrorCode}
use gove.Payment.Provider.{plan_capture, simulated_prefix}
use gove.Payment.Repository.{
  CaptureInput, capture, charge, find_payment_receipt, has_provider_fields, has_failure_fields,
}
use gove.Payment.Service.{CapturePaymentInput, Digest, to_capture_input, capture_payment}
use gove.Payment.Repository.Attempts.{IsSettled}
use gove.Payment.Repository.Promises.{capture-IsSettled, refusal}
use gove.Payment.Repository.Replay.{run_captures, capture-replay}
use gove.Payment.Repository.Once.{charge-once}
use gove.Payment.Repository.Errors.{is_violation, plan_capture-fields, capture_payment-error}

abbrev completed_trip : Trip
completed_trip = record waiting_trip {
  state = completed;
  version = 5;
  final_fare_minor = some 21000;
}

abbrev ridden_db : Db
ridden_db = record start_db { trips = completed_trip ∷ [] }

abbrev digest : Digest
digest trip_id provider outcome = trip_id

abbrev request : CapturePaymentInput
request = record {
  customer_user_id = 2 ∷ [];
  trip_id = 1 ∷ [];
  idempotency_key = 5 ∷ [];
  correlation_id = [];
  provider = simulator;
  simulation_outcome = none;
}

abbrev input : CaptureInput
input = to_capture_input digest request (record {
  provider = simulator;
  status = succeeded;
  provider_reference = some (simulated_prefix ++ (9 ∷ []));
  failure_code = none;
})

unfoldable paid : Db
unfolding capture ◌>>=◌ find_payment_receipt
paid = state_of ridden_db (capture (at_time 5000) input ridden_db)

abbrev paid_body : PaymentAttemptResponse
paid_body = record {
  id = 1000 ∷ [];
  trip_id = 1 ∷ [];
  attempt_number = 1;
  amount_minor = 21000;
  currency = 86 ∷ 78 ∷ 68 ∷ [];
  provider = simulator;
  status = succeeded;
  provider_reference = some (simulated_prefix ++ (9 ∷ []));
  failure_code = none;
  requested_at = 5000;
  resolved_at = some 5000;
}

capture-paid : capture (at_time 5000) input ridden_db ≡ ok (paid_body, paid)
unfolding paid capture ◌>>=◌ find_payment_receipt
capture-paid = refl

charge-paid : charge (at_time 5000) input ridden_db ≡ ok (paid_body, paid)
unfolding paid charge capture ◌>>=◌ find_payment_receipt
charge-paid = refl

ridden_db-IsSettled : IsSettled ridden_db.payment_attempts
ridden_db-IsSettled t = refl

capture-IsSettled_example : IsSettled paid.payment_attempts
capture-IsSettled_example =
    capture-IsSettled (at_time 5000) input ridden_db paid_body paid capture-paid ridden_db-IsSettled

-- A charge by another provider, which stays pending.
abbrev other_input : CaptureInput
other_input = record input {
  idempotency_key = 6 ∷ [];
  provider = momo;
  status = PaymentStatus.pending;
  provider_reference = none;
}

abbrev others : List (Env × CaptureInput)
others = (at_time 60000, other_input) ∷ (at_time 70000, record input { trip_id = 44 ∷ [] }) ∷ []

capture-replay_example :
    capture (at_time 90000) input (run_captures others paid)
    ≡ ok (paid_body, run_captures others paid)
capture-replay_example =
    capture-replay (at_time 5000) (at_time 90000) others input ridden_db capture-paid

charge-once_example :
    charge
      (at_time 90000)
      (record other_input { trip_id = input.trip_id; customer_user_id = input.customer_user_id })
      (run_captures others paid)
    ≡ err (payment_error (refusal succeeded))
charge-once_example =
    charge-once (at_time 5000) (at_time 90000) others input other_input ridden_db
      ridden_db-IsSettled charge-paid refl

plan_capture-fields_example :
    let plan = plan_capture (9 ∷ []) simulator (some failed) in
    (has_provider_fields plan.status plan.provider_reference plan.failure_code ≡ true)
    × (has_failure_fields plan.status plan.failure_code ≡ true)
plan_capture-fields_example = plan_capture-fields (9 ∷ []) simulator (some failed)

abbrev unknown_request : CapturePaymentInput
unknown_request = record request { trip_id = 44 ∷ [] }

capture_payment-unknown_trip :
    capture_payment digest (at_time 5000) (9 ∷ []) unknown_request ridden_db
    ≡ err (payment_error PaymentCommandErrorCode.trip_not_found)
unfolding capture_payment ◌>>=◌ find_payment_receipt
capture_payment-unknown_trip = refl

capture_payment-error_example :
    is_violation (payment_error PaymentCommandErrorCode.trip_not_found) ≡ false
capture_payment-error_example =
    capture_payment-error digest (at_time 5000) (9 ∷ []) unknown_request ridden_db
      ridden_db-IsSettled refl capture_payment-unknown_trip
