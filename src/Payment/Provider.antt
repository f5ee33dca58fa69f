-- ===== src/Payment/Provider.antt =====
-- apps/api/src/payment/payment-provider.ts: the plan of a capture.
use gove.Prelude.{[], ◌∷◌, ◌++◌, Option, none, some}
use gove.Prelude.Text.{Text}
use gove.Contracts.{
  PaymentProvider, PaymentStatus, simulator, momo, sepay, succeeded, failed, unknown,
}
use gove.Trip.Rows.{Uuid}

pub record PaymentProviderPlan : Type 0 where
  pub provider : PaymentProvider
  pub status : PaymentStatus
  pub provider_reference : Option Text
  pub failure_code : Option Text

-- 'sim-'
abbrev pub simulated_prefix : Text
simulated_prefix = 115 ∷ 105 ∷ 109 ∷ 45 ∷ []

-- 'SIMULATED_FAILURE'
abbrev pub simulated_failure : Text
simulated_failure =
    83 ∷ 73 ∷ 77 ∷ 85 ∷ 76 ∷ 65 ∷ 84 ∷ 69 ∷ 68 ∷ 95 ∷ 70 ∷ 65 ∷ 73 ∷ 76 ∷ 85 ∷ 82 ∷ 69 ∷ []

-- 'SIMULATED_TIMEOUT'
abbrev pub simulated_timeout : Text
simulated_timeout =
    83 ∷ 73 ∷ 77 ∷ 85 ∷ 76 ∷ 65 ∷ 84 ∷ 69 ∷ 68 ∷ 95 ∷ 84 ∷ 73 ∷ 77 ∷ 69 ∷ 79 ∷ 85 ∷ 84 ∷ []

-- `input.simulationOutcome ?? 'SUCCEEDED'`
abbrev pub outcome_of : Option PaymentStatus → PaymentStatus
outcome_of none = succeeded
outcome_of (some status) = status

abbrev pub reference_of : Uuid → PaymentStatus → Option Text
reference_of uuid succeeded = some (simulated_prefix ++ uuid)
reference_of uuid _ = none

abbrev pub failure_of : PaymentStatus → Option Text
failure_of failed = some simulated_failure
failure_of unknown = some simulated_timeout
failure_of _ = none

-- SimulatorPaymentProvider.planCapture, `uuid` being the reading of randomUUID.
unfoldable pub simulate_capture : Uuid → Option PaymentStatus → PaymentProviderPlan
simulate_capture uuid outcome = record {
  provider = simulator;
  status = outcome_of outcome;
  provider_reference = reference_of uuid (outcome_of outcome);
  failure_code = failure_of (outcome_of outcome);
}

-- PendingExternalPaymentProvider.planCapture
unfoldable pub pending_capture : PaymentProvider → PaymentProviderPlan
pending_capture provider = record {
  provider = provider;
  status = PaymentStatus.pending;
  provider_reference = none;
  failure_code = none;
}

-- PaymentProviderRegistry.planCapture: every provider of the contract is registered.
unfoldable pub plan_capture : Uuid → PaymentProvider → Option PaymentStatus → PaymentProviderPlan
unfolding simulate_capture pending_capture
plan_capture uuid simulator outcome = simulate_capture uuid outcome
plan_capture uuid momo outcome = pending_capture momo
plan_capture uuid sepay outcome = pending_capture sepay
