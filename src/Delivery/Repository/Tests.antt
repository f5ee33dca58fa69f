-- ===== src/Delivery/Repository/Tests.antt =====
-- The operations of apps/api/src/delivery/delivery.repository.ts on one parcel and one free Driver,
-- and together with a ride.
use gove.Prelude.{◌≡◌, refl, none, some, List, [], ◌∷◌, ok, err, arith}
use gove.Database.{◌>>=◌}
use gove.Dispatch.Tables.{Env, delivery_error, DeliveryCommandErrorCode}
use gove.Dispatch.Repository.Promises.{match_trip}
use gove.Dispatch.Repository.Tests.{
  at_time, origin, start_db, state_of, match_input, start_db-IsValid,
}
use gove.Trip.Rows.{RideLocation}
use gove.Delivery.Rows.{
  DeliveryState, DeliveryOfferState, DeliveryBody, DeliveryDb, arrive_at_pickup,
  confirm_pickup_custody, delivery_response, match_response,
}
use gove.Delivery.Repository.{find_delivery_receipt}
use gove.Delivery.Repository.Create.{CreateDeliveryRecord, create_delivery, created_response}
use gove.Delivery.Repository.Matching.{StartDeliveryMatchingInput, start_delivery_matching}
use gove.Delivery.Repository.Offers.{AcceptDeliveryInput, accept_delivery_offer}
use gove.Delivery.Repository.Assigned.{DeliveryTransitionInput, transition_assigned_delivery}
use gove.Delivery.Repository.Validity.{IsSound}
use gove.Delivery.Repository.Promises.{
  SharedRequest, ride, create, start, accept, advance, run_shared, run_shared-IsSound,
}
use gove.Delivery.Repository.Replay.{
  create_delivery-replay, start_delivery_matching-replay, transition_assigned_delivery-replay,
}

abbrev parcel_db : DeliveryDb
parcel_db = record {
  shared = start_db;
  deliveries = [];
  offers = [];
  reservations = [];
  assignments = [];
  proofs = [];
  state_transitions = [];
  outbox = [];
  receipts = [];
}

abbrev place : RideLocation
place = record { label = 65 ∷ []; latitude = origin.latitude; longitude = origin.longitude }

abbrev order : CreateDeliveryRecord
order = record {
  customer_user_id = 2 ∷ [];
  pickup = place;
  dropoff = place;
  recipient_display_name = 82 ∷ [];
  recipient_contact_phone = 48 ∷ [];
  parcel_description = 80 ∷ [];
  declared_weight_grams = 500;
  idempotency_key = 5 ∷ [];
  request_fingerprint = 7 ∷ [];
  correlation_id = [];
}

unfoldable ordered : DeliveryDb
unfolding create_delivery ◌>>=◌ find_delivery_receipt
ordered = state_of parcel_db (create_delivery (at_time 4000) order parcel_db)

create_delivery-ordered :
    create_delivery (at_time 4000) order parcel_db
    ≡ ok (delivery_response (created_response (at_time 4000) order (1000 ∷ [])), ordered)
unfolding ordered create_delivery ◌>>=◌ find_delivery_receipt
create_delivery-ordered = refl

abbrev search_input : StartDeliveryMatchingInput
search_input = record {
  customer_user_id = 2 ∷ [];
  delivery_id = 1000 ∷ [];
  idempotency_key = 6 ∷ [];
  request_fingerprint = 8 ∷ [];
  correlation_id = [];
}

-- The Customer looks for a Driver, for the parcel and for a ride, between the two orders.
abbrev searches : List (Env × SharedRequest)
searches =
    (at_time 5000, start search_input) ∷ (at_time 5500, ride (match_trip (match_input 5))) ∷ []

create_delivery-replay_example :
    create_delivery (at_time 90000) order (run_shared searches ordered)
    ≡ ok (
      delivery_response (created_response (at_time 4000) order (1000 ∷ [])),
      run_shared searches ordered,
    )
create_delivery-replay_example =
    create_delivery-replay (at_time 4000) (at_time 90000) searches order parcel_db
      create_delivery-ordered

unfoldable offered_db : DeliveryDb
unfolding ordered start_delivery_matching ◌>>=◌ find_delivery_receipt
offered_db = state_of ordered (start_delivery_matching (at_time 5000) search_input ordered)

abbrev offered_body : DeliveryBody
offered_body = match_response (record {
  delivery_id = 1000 ∷ [];
  delivery_state = DeliveryState.matching;
  delivery_version = 1;
  offer = some (record {
    id = 1002 ∷ [];
    delivery_id = 1000 ∷ [];
    driver_id = 68 ∷ [];
    attempt_number = 1;
    status = DeliveryOfferState.pending;
    expires_at = 25000;
    delivery_state = DeliveryState.matching;
    delivery_version = 1;
  });
})

start_delivery_matching-offered_db :
    start_delivery_matching (at_time 5000) search_input ordered ≡ ok (offered_body, offered_db)
unfolding ordered offered_db start_delivery_matching ◌>>=◌ find_delivery_receipt
start_delivery_matching-offered_db = refl

abbrev acceptance : AcceptDeliveryInput
acceptance = record {
  driver_user_id = 68 ∷ [];
  offer_id = 1002 ∷ [];
  idempotency_key = 5 ∷ [];
  correlation_id = [];
}

-- The Driver takes the parcel between the two requests for a match.
abbrev answers : List (Env × SharedRequest)
answers = (at_time 6000, accept acceptance) ∷ []

start_delivery_matching-replay_example :
    start_delivery_matching (at_time 90000) search_input (run_shared answers offered_db)
    ≡ ok (offered_body, run_shared answers offered_db)
start_delivery_matching-replay_example =
    start_delivery_matching-replay (at_time 5000) (at_time 90000) answers search_input ordered
      start_delivery_matching-offered_db

unfoldable accepted_db : DeliveryDb
unfolding offered_db accept_delivery_offer ◌>>=◌ find_delivery_receipt
accepted_db = state_of offered_db (accept_delivery_offer (at_time 6000) acceptance offered_db)

-- An answer after the expiry is an error.
accept_delivery_offer-late :
    accept_delivery_offer (at_time 25000) acceptance offered_db
    ≡ err (delivery_error DeliveryCommandErrorCode.offer_expired)
unfolding offered_db accept_delivery_offer ◌>>=◌ find_delivery_receipt
accept_delivery_offer-late = refl

abbrev arrival : DeliveryTransitionInput
arrival = record {
  driver_user_id = 68 ∷ [];
  delivery_id = 1000 ∷ [];
  action = arrive_at_pickup;
  idempotency_key = 9 ∷ [];
  request_fingerprint = 7 ∷ [];
  correlation_id = [];
  confirmation = none;
}

unfoldable arrived_db : DeliveryDb
unfolding accepted_db transition_assigned_delivery ◌>>=◌ find_delivery_receipt
arrived_db = state_of accepted_db (transition_assigned_delivery (at_time 7000) arrival accepted_db)

abbrev arrived_body : DeliveryBody
arrived_body = delivery_response (record (created_response (at_time 4000) order (1000 ∷ [])) {
  state = DeliveryState.at_pickup;
  version = 3;
})

transition_assigned_delivery-arrived_db :
    transition_assigned_delivery (at_time 7000) arrival accepted_db ≡ ok (arrived_body, arrived_db)
unfolding accepted_db arrived_db transition_assigned_delivery ◌>>=◌ find_delivery_receipt
transition_assigned_delivery-arrived_db = refl

-- The Driver takes the parcel over, and the Customer orders again, between the two requests.
abbrev next_steps : List (Env × SharedRequest)
next_steps =
    (
      at_time 8000,
      advance (record arrival {
        action = confirm_pickup_custody;
        idempotency_key = 10 ∷ [];
        confirmation = some (50 ∷ []);
      }),
    )
    ∷ (at_time 20000, create (record order { idempotency_key = 12 ∷ [] }))
    ∷ []

transition_assigned_delivery-replay_example :
    transition_assigned_delivery (at_time 90000) arrival (run_shared next_steps arrived_db)
    ≡ ok (arrived_body, run_shared next_steps arrived_db)
transition_assigned_delivery-replay_example =
    transition_assigned_delivery-replay (at_time 7000) (at_time 90000) next_steps arrival
      accepted_db transition_assigned_delivery-arrived_db

parcel_db-IsSound : IsSound parcel_db
parcel_db-IsSound = (start_db-IsValid, (λ k. ground arith, λ k. ground arith))

-- The only Driver takes the parcel while the ride looks for one.
abbrev requests : List (Env × SharedRequest)
requests =
    (at_time 4000, create order)
    ∷ (at_time 5000, start search_input)
    ∷ (at_time 5500, ride (match_trip (match_input 5)))
    ∷ (at_time 6000, accept acceptance)
    ∷ []

run_shared-IsSound_example : IsSound (run_shared requests parcel_db)
run_shared-IsSound_example = run_shared-IsSound requests parcel_db parcel_db-IsSound
