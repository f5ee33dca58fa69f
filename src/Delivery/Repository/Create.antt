-- ===== src/Delivery/Repository/Create.antt =====
-- apps/api/src/delivery/delivery.repository.ts: createDelivery.
use gove.Prelude.{ℕ, ◌∷◌, none, some}
use gove.Prelude.Text.{Text}
use gove.Database.{◌>>=◌, ◌>>◌, pure, modify}
use gove.Dispatch.Tables.{Uuid, Env}
use gove.Trip.Rows.{RideLocation}
use gove.Dispatch.Repository.{random_uuid}
use gove.Delivery.Rows.{
  DeliveryState, Delivery, DeliveryCommand, DeliveryResponse, DeliveryBody, DeliveryOperation,
  DeliveryWork, delivery_created, delivery_response,
}
use gove.Delivery.Repository.{
  on_shared, check_delivery_receipt, replay_or, persist_delivery_receipt, append_transition,
  append_delivery_outbox_event,
}

pub record CreateDeliveryRecord : Type 0 where
  pub customer_user_id : Uuid
  pub pickup : RideLocation
  pub dropoff : RideLocation
  pub recipient_display_name : Text
  pub recipient_contact_phone : Text
  pub parcel_description : Text
  pub declared_weight_grams : ℕ
  pub idempotency_key : Text
  pub request_fingerprint : Text
  pub correlation_id : Text

-- The row that the INSERT stores; the state and the version have the defaults of the table.
abbrev pub new_delivery : Env → CreateDeliveryRecord → Uuid → Delivery
new_delivery env input id = record {
  id = id;
  customer_user_id = input.customer_user_id;
  pickup_label = input.pickup.label;
  pickup_location = record { longitude = input.pickup.longitude; latitude = input.pickup.latitude };
  dropoff_label = input.dropoff.label;
  dropoff_location = record {
    longitude = input.dropoff.longitude;
    latitude = input.dropoff.latitude;
  };
  recipient_display_name = input.recipient_display_name;
  recipient_contact_phone = input.recipient_contact_phone;
  parcel_description = input.parcel_description;
  declared_weight_grams = input.declared_weight_grams;
  state = DeliveryState.requested;
  version = 0;
  created_at = env.now;
}

abbrev pub created_response : Env → CreateDeliveryRecord → Uuid → DeliveryResponse
created_response env input id = record {
  id = id;
  state = DeliveryState.requested;
  version = 0;
  pickup = input.pickup;
  dropoff = input.dropoff;
  recipient_display_name = input.recipient_display_name;
  parcel_description = input.parcel_description;
  declared_weight_grams = input.declared_weight_grams;
  created_at = env.now;
}

-- createDelivery after its receipt block.
unfoldable pub store_delivery : Env → CreateDeliveryRecord → DeliveryWork DeliveryBody
unfolding on_shared append_transition append_delivery_outbox_event persist_delivery_receipt
store_delivery env input = do
  id ← on_shared (random_uuid env)
  modify λ db. record db { deliveries = new_delivery env input id ∷ db.deliveries }
  append_transition (record {
    delivery_id = id;
    actor_user_id = some input.customer_user_id;
    command = DeliveryCommand.create_delivery;
    from_state = none;
    to_state = DeliveryState.requested;
    from_version = none;
    to_version = 0;
    correlation_id = input.correlation_id;
  })
  append_delivery_outbox_event id 0 delivery_created
  persist_delivery_receipt input.customer_user_id DeliveryOperation.create_delivery
      input.idempotency_key input.request_fingerprint
      (delivery_response (created_response env input id))
  pure (delivery_response (created_response env input id))

unfoldable pub create_delivery : Env → CreateDeliveryRecord → DeliveryWork DeliveryBody
unfolding check_delivery_receipt store_delivery
create_delivery env input = do
  receipt ←
      check_delivery_receipt input.customer_user_id DeliveryOperation.create_delivery
        input.idempotency_key input.request_fingerprint
  replay_or receipt (store_delivery env input)
