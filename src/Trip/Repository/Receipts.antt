-- ===== src/Trip/Repository/Receipts.antt =====
-- Repeated requests in apps/api/src/trip/trip.repository.ts: the receipts of createTrip and
-- cancelTrip.
use gove.Contracts.{TripCancellationRuleCode}
use gove.Database.Laws.{Ensures, bind_ends, bind-Ensures}
use gove.Dispatch.Tables.{
  Quote, Trip, ResponseBody, Operation, Db, Env, trip_response, cancel_response,
}
use gove.Dispatch.Repository.Receipts.{Answers, persist-Answers, answer_or-Answers}
use gove.Trip.Repository.Create.{
  CreateTripRecord, create_trip, create, store_trip, to_trip_response,
}
use gove.Trip.Repository.Cancel.{CancelTripInput, cancel_trip, cancel, cancel_rows}

-- What create_trip promises of its answer.
abbrev pub TripAnswered : CreateTripRecord → ResponseBody → Db → Type 0
TripAnswered input response db =
    Answers input.customer_user_id Operation.create_trip input.idempotency_key
      input.request_fingerprint response db

store_trip-Answered :
    (env : Env) (input : CreateTripRecord) (quote : Quote)
    → Ensures (store_trip env input quote) (λ s a s'. TripAnswered input a s')
unfolding store_trip
store_trip-Answered env input quote = bind-Ensures _ _ λ id. bind-Ensures _ _ λ trip.
    bind-Ensures _ _ λ used. bind-Ensures _ _ λ logged. bind-Ensures _ _ λ total.
      bind-Ensures _ _ λ sent.
        persist-Answers input.customer_user_id Operation.create_trip input.idempotency_key
          input.request_fingerprint (trip_response (to_trip_response trip total))

create-Answered :
    (env : Env) (input : CreateTripRecord)
    → Ensures (create env input) (λ s a s'. TripAnswered input a s')
unfolding create
create-Answered env input = bind-Ensures _ _ λ found. bind-Ensures _ _ λ quote.
    bind-Ensures _ _ λ owned. bind-Ensures _ _ λ checked.
      bind-Ensures _ _ λ current. bind-Ensures _ _ λ free. store_trip-Answered env input quote

pub create_trip-Answered :
    (env : Env) (input : CreateTripRecord)
    → Ensures (create_trip env input) (λ s a s'. TripAnswered input a s')
unfolding create_trip
create_trip-Answered env input s a s' h = bind_ends _ _ h λ receipt t e e'.
    answer_or-Answers input.customer_user_id Operation.create_trip input.idempotency_key
      input.request_fingerprint receipt _ s t (create-Answered env input) e e'

-- What cancel_trip promises of its answer.
abbrev pub CancelAnswered : CancelTripInput → ResponseBody → Db → Type 0
CancelAnswered input response db =
    Answers input.customer_user_id Operation.cancel_trip input.idempotency_key
      input.request_fingerprint response db

cancel_rows-Answered :
    (env : Env) (input : CancelTripInput) (trip : Trip) (rule_code : TripCancellationRuleCode)
    → Ensures (cancel_rows env input trip rule_code) (λ s a s'. CancelAnswered input a s')
unfolding cancel_rows
cancel_rows-Answered env input trip rule_code = bind-Ensures _ _ λ revoked.
    bind-Ensures _ _ λ driver. bind-Ensures _ _ λ count. bind-Ensures _ _ λ checked.
      bind-Ensures _ _ λ stored. bind-Ensures _ _ λ logged. bind-Ensures _ _ λ sent.
        bind-Ensures _ _ λ response.
          persist-Answers input.customer_user_id Operation.cancel_trip input.idempotency_key
            input.request_fingerprint (cancel_response response)

cancel-Answered :
    (env : Env) (input : CancelTripInput)
    → Ensures (cancel env input) (λ s a s'. CancelAnswered input a s')
unfolding cancel
cancel-Answered env input = bind-Ensures _ _ λ found.
    bind-Ensures _ _
      λ trip. bind-Ensures _ _ λ rule_code. cancel_rows-Answered env input trip rule_code

pub cancel_trip-Answered :
    (env : Env) (input : CancelTripInput)
    → Ensures (cancel_trip env input) (λ s a s'. CancelAnswered input a s')
unfolding cancel_trip
cancel_trip-Answered env input s a s' h = bind_ends _ _ h λ receipt t e e'.
    answer_or-Answers input.customer_user_id Operation.cancel_trip input.idempotency_key
      input.request_fingerprint receipt _ s t (cancel-Answered env input) e e'
