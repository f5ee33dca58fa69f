-- ===== src/Delivery/Repository/Receipts.antt =====
-- Repeated requests in apps/api/src/delivery/delivery.repository.ts.
use gove.Prelude.{◌∷◌, ◌∙◌, ◌+◌, ◌≡◌, refl, subst, ℕ, true, Option, none, some, ok, arith}
use gove.Prelude.Text.{Text, text_eq_refl}
use gove.Database.{◌>>=◌, pure}
use gove.Database.Laws.{
  Ensures, bind-Ensures, bind_ends, read_ends, ok_state, ok_value, gets-Reads, throw_when-Reads,
}
use gove.Dispatch.Tables.{Uuid, Env}
use gove.Delivery.Rows.{
  DeliveryBody, DeliveryOperation, DeliveryMatchResponse, DeliveryDb, DeliveryWork,
  delivery_operation_eq, arrive_at_pickup, confirm_pickup_custody, complete_delivery,
  match_response, delivery_response,
}
use gove.Delivery.Repository.{
  DeliveryOfferRow, find_delivery_receipt, check_delivery_receipt, persist_delivery_receipt,
  replay_or,
}
use gove.Delivery.Repository.Validity.{check_delivery_receipt-Reads}
use gove.Delivery.Repository.Create.{CreateDeliveryRecord, store_delivery, created_response}
use gove.Delivery.Repository.Matching.{
  StartDeliveryMatchingInput, match_delivery, answer_delivery_match, respond_delivery_match,
  matched_response, exhausted_response,
}
use gove.Delivery.Repository.Assigned.{
  DeliveryTransitionInput, AssignedDelivery, transition_delivery, advance_delivery,
}

-- The receipts of the database answer a request.
abbrev pub Answers : Uuid → DeliveryOperation → Text → Text → DeliveryBody → DeliveryDb → Type 0
Answers actor operation key fingerprint response db =
    check_delivery_receipt actor operation key fingerprint db ≡ ok (some response, db)

delivery_operation_eq_refl : (o : DeliveryOperation) → delivery_operation_eq o o ≡ true
delivery_operation_eq_refl DeliveryOperation.create_delivery = refl
delivery_operation_eq_refl DeliveryOperation.start_matching = refl
delivery_operation_eq_refl (DeliveryOperation.act arrive_at_pickup) = refl
delivery_operation_eq_refl (DeliveryOperation.act confirm_pickup_custody) = refl
delivery_operation_eq_refl (DeliveryOperation.act complete_delivery) = refl

added-Answers :
    (actor : Uuid) (o : DeliveryOperation) (key fp : Text) (r : DeliveryBody) (s : DeliveryDb)
    → Answers actor o key fp r (record s {
      receipts =
          record {
            actor_user_id = actor;
            operation = o;
            idempotency_key = key;
            request_fingerprint = fp;
            response_body = r;
          }
          ∷ s.receipts;
    })
unfolding check_delivery_receipt find_delivery_receipt ◌>>=◌
added-Answers actor o key fp r s =
    ground
      (arith, text_eq_refl actor, delivery_operation_eq_refl o, text_eq_refl key, text_eq_refl fp)

stored :
    (actor : Uuid) (o : DeliveryOperation) (key fp : Text) (r : DeliveryBody)
    → Ensures
        (persist_delivery_receipt actor o key fp r >>= λ done. pure r)
        (λ s a s'. Answers actor o key fp a s')
unfolding persist_delivery_receipt
stored actor o key fp r s a s' h = bind_ends _ _ h λ u t e e'.
    read_ends _ _ (gets-Reads _) e λ taken e1 e. read_ends _ _ (throw_when-Reads _ _) e λ v e2 e.
      subst (λ x. Answers actor o key fp x s') (ok_value e')
        (subst (Answers actor o key fp r) (ok_state e ∙ ok_state e')
          (added-Answers actor o key fp r s))

replayed :
    (actor : Uuid) (o : DeliveryOperation) (key fp : Text) (receipt : Option DeliveryBody)
    (rest : DeliveryWork DeliveryBody)
    → Ensures rest (λ s a s'. Answers actor o key fp a s')
    → (s : DeliveryDb) (a : DeliveryBody) (s' : DeliveryDb)
    → check_delivery_receipt actor o key fp s ≡ ok (receipt, s)
    → replay_or receipt rest s ≡ ok (a, s')
    → Answers actor o key fp a s'
replayed actor o key fp none rest f s a s' e h = f s a s' h
replayed actor o key fp (some r) rest f s a s' e h =
    subst (λ x. Answers actor o key fp a x) (ok_state h)
      (subst (λ x. Answers actor o key fp x s) (ok_value h) e)

-- A command that begins with its receipt block answers from the receipt, or as the rest of it.
pub receipted :
    (actor : Uuid) (o : DeliveryOperation) (key fp : Text) (rest : DeliveryWork DeliveryBody)
    → Ensures rest (λ s a s'. Answers actor o key fp a s')
    → Ensures
        (check_delivery_receipt actor o key fp >>= λ receipt. replay_or receipt rest)
        (λ s a s'. Answers actor o key fp a s')
receipted actor o key fp rest f s a s' h =
    read_ends _ _ (check_delivery_receipt-Reads actor o key fp) h
      λ receipt e h. replayed actor o key fp receipt rest f s a s' e h

pub store_delivery-Answers :
    (env : Env) (input : CreateDeliveryRecord)
    → Ensures (store_delivery env input) (λ s a s'.
      Answers input.customer_user_id DeliveryOperation.create_delivery input.idempotency_key
        input.request_fingerprint a s')
unfolding store_delivery
store_delivery-Answers env input = bind-Ensures _ _ λ id. bind-Ensures _ _ λ u.
    bind-Ensures _ _ λ u. bind-Ensures _ _ λ u.
      stored input.customer_user_id DeliveryOperation.create_delivery input.idempotency_key
        input.request_fingerprint (delivery_response (created_response env input id))

-- What start_delivery_matching promises of its answer.
abbrev pub MatchAnswered : StartDeliveryMatchingInput → DeliveryBody → DeliveryDb → Type 0
MatchAnswered input response db =
    Answers input.customer_user_id DeliveryOperation.start_matching input.idempotency_key
      input.request_fingerprint response db

respond_delivery_match-Answered :
    (input : StartDeliveryMatchingInput) (r : DeliveryMatchResponse)
    → Ensures (respond_delivery_match input r) (λ s a s'. MatchAnswered input a s')
unfolding respond_delivery_match
respond_delivery_match-Answered input r =
    stored input.customer_user_id DeliveryOperation.start_matching input.idempotency_key
      input.request_fingerprint (match_response r)

answer_delivery_match-Answered :
    (input : StartDeliveryMatchingInput) (version : ℕ) (offer : Option DeliveryOfferRow)
    → Ensures (answer_delivery_match input version offer) (λ s a s'. MatchAnswered input a s')
unfolding answer_delivery_match
answer_delivery_match-Answered input version (some row) =
    respond_delivery_match-Answered input (matched_response input.delivery_id version row)
answer_delivery_match-Answered input version none =
    bind-Ensures _ _
      λ u. respond_delivery_match-Answered input (exhausted_response input.delivery_id version)

pub match_delivery-Answered :
    (env : Env) (input : StartDeliveryMatchingInput)
    → Ensures (match_delivery env input) (λ s a s'. MatchAnswered input a s')
unfolding match_delivery
match_delivery-Answered env input = bind-Ensures _ _ λ found. bind-Ensures _ _ λ delivery.
    bind-Ensures _ _ λ u. bind-Ensures _ _ λ n. bind-Ensures _ _ λ u. bind-Ensures _ _ λ u.
      bind-Ensures _ _ λ offer. answer_delivery_match-Answered input (delivery.version + 1) offer

-- What transition_assigned_delivery promises of its answer.
abbrev pub ActionAnswered : DeliveryTransitionInput → DeliveryBody → DeliveryDb → Type 0
ActionAnswered input response db =
    Answers input.driver_user_id (DeliveryOperation.act input.action) input.idempotency_key
      input.request_fingerprint response db

advance_delivery-Answered :
    (env : Env) (input : DeliveryTransitionInput) (row : AssignedDelivery)
    → Ensures (advance_delivery env input row) (λ s a s'. ActionAnswered input a s')
unfolding advance_delivery
advance_delivery-Answered env input row = bind-Ensures _ _ λ n. bind-Ensures _ _ λ u.
    bind-Ensures _ _ λ u. bind-Ensures _ _ λ n. bind-Ensures _ _ λ u. bind-Ensures _ _ λ u.
      bind-Ensures _ _ λ u. bind-Ensures _ _ λ r.
        stored input.driver_user_id (DeliveryOperation.act input.action) input.idempotency_key
          input.request_fingerprint (delivery_response r)

pub transition_delivery-Answered :
    (env : Env) (input : DeliveryTransitionInput)
    → Ensures (transition_delivery env input) (λ s a s'. ActionAnswered input a s')
unfolding transition_delivery
transition_delivery-Answered env input = bind-Ensures _ _ λ found.
    bind-Ensures _ _ λ exists.
      bind-Ensures _ _ λ row. bind-Ensures _ _ λ u. advance_delivery-Answered env input row
