-- ===== src/Dispatch/Repository/Receipts.antt =====
-- Repeated requests in apps/api/src/dispatch/dispatch.repository.ts: the receipts of the commands.
use gove.Prelude.{◌≡◌, refl, sym, subst, true, Option, none, some, ok, arith, ℕ, ◌∷◌}
use gove.Prelude.Text.{Text, text_eq_refl}
use gove.Database.{◌>>=◌, pure}
use gove.Database.Laws.{
  Ensures, bind_ends, ok_state, ok_value, bind-Ensures, read_ends, gets-Reads, throw_when-Reads,
}
use gove.Dispatch.Tables.{
  Uuid, DispatchMatchResponse, ResponseBody, AssignedTripAction, Operation, Db, Env, Work,
  match_response, detail_response, arrive_at_pickup, accept_offer, driver,
}
use gove.Dispatch.Repository.{
  check_receipt, persist_receipt, find_receipt, eq_operation, OfferRow, answer_or,
}
use gove.Dispatch.Repository.Matching.{
  StartMatchingInput, start_matching, match_trip, answer_match, respond_match,
}
use gove.Dispatch.Repository.Assigned.{
  TransitionAssignedTripInput, AssignedTripRow, transition_assigned_trip, transition_assigned,
  advance,
}

-- The receipts of the database answer a request.
abbrev pub Answers : Uuid → Operation → Text → Text → ResponseBody → Db → Type 0
Answers actor operation key fingerprint response db =
    check_receipt actor operation key fingerprint db ≡ ok (some response, db)

eq_operation_refl : (o : Operation) → eq_operation o o ≡ true
eq_operation_refl Operation.create_trip = refl
eq_operation_refl Operation.cancel_trip = refl
eq_operation_refl Operation.start_matching = refl
eq_operation_refl Operation.reject_offer = refl
eq_operation_refl accept_offer = refl
eq_operation_refl (driver arrive_at_pickup) = refl
eq_operation_refl (driver AssignedTripAction.start_trip) = refl
eq_operation_refl (driver AssignedTripAction.complete_trip) = refl

-- The block reads only.
check_receipt_same :
    (actor : Uuid) (operation : Operation) (key fingerprint : Text) (s : Db)
    (o : Option ResponseBody) (s' : Db)
    → check_receipt actor operation key fingerprint s ≡ ok (o, s')
    → s' ≡ s
unfolding check_receipt ◌>>=◌
check_receipt_same actor operation key fingerprint s o s' h = ground (arith)

added-Answers :
    (actor : Uuid) (operation : Operation) (key fingerprint : Text) (response : ResponseBody)
    (s : Db)
    → Answers actor operation key fingerprint response (record s {
      receipts =
          record {
            actor_user_id = actor;
            operation = operation;
            idempotency_key = key;
            request_fingerprint = fingerprint;
            response_body = response;
          }
          ∷ s.receipts;
    })
unfolding check_receipt find_receipt ◌>>=◌
added-Answers actor operation key fingerprint response s = ground (
  arith,
  text_eq_refl actor,
  eq_operation_refl operation,
  text_eq_refl key,
  text_eq_refl fingerprint,
)

pub persist_receipt-Answers :
    (actor : Uuid) (operation : Operation) (key fingerprint : Text) (response : ResponseBody)
    (s : Db) (u : Unit {0}) (s' : Db)
    → persist_receipt actor operation key fingerprint response s ≡ ok (u, s')
    → Answers actor operation key fingerprint response s'
unfolding persist_receipt
persist_receipt-Answers actor operation key fingerprint response s u s' h =
    read_ends _ _ (gets-Reads _) h λ taken e h. read_ends _ _ (throw_when-Reads _ _) h λ v e2 h.
      subst (Answers actor operation key fingerprint response) (ok_state h)
        (added-Answers actor operation key fingerprint response s)

respond_match-Answers :
    (input : StartMatchingInput) (response : DispatchMatchResponse) (s : Db) (a : ResponseBody)
    (s' : Db)
    → respond_match input response s ≡ ok (a, s')
    → Answers input.customer_user_id Operation.start_matching input.idempotency_key
        input.request_fingerprint a s'
unfolding respond_match
respond_match-Answers input response s a s' h = bind_ends _ _ h λ u t e e'.
    subst
      (λ b.
        Answers input.customer_user_id Operation.start_matching input.idempotency_key
          input.request_fingerprint b s')
      (ok_value e')
      (subst
        (Answers input.customer_user_id Operation.start_matching input.idempotency_key
          input.request_fingerprint (match_response response))
        (ok_state e')
        (persist_receipt-Answers input.customer_user_id Operation.start_matching
          input.idempotency_key input.request_fingerprint (match_response response) s u t e))

-- What start_matching promises of its answer.
abbrev pub MatchAnswered : StartMatchingInput → ResponseBody → Db → Type 0
MatchAnswered input response db =
    Answers input.customer_user_id Operation.start_matching input.idempotency_key
      input.request_fingerprint response db

answer_match-Answered :
    (input : StartMatchingInput) (trip_id : Uuid) (version : ℕ) (offer : Option OfferRow)
    → Ensures (answer_match input trip_id version offer) (λ s a s'. MatchAnswered input a s')
unfolding answer_match
answer_match-Answered input trip_id version (some row) = respond_match-Answers input _
answer_match-Answered input trip_id version none =
    bind-Ensures _ _ λ exhausted. respond_match-Answers input _

match_trip-Answered :
    (env : Env) (input : StartMatchingInput)
    → Ensures (match_trip env input) (λ s a s'. MatchAnswered input a s')
unfolding match_trip
match_trip-Answered env input = bind-Ensures _ _ λ found. bind-Ensures _ _ λ trip.
    bind-Ensures _ _ λ checked. bind-Ensures _ _ λ version.
      bind-Ensures _ _
        λ pending. bind-Ensures _ _ λ offer. answer_match-Answered input trip.id version offer

-- A command that begins with its receipt block answers from the receipt it finds.
pub receipt-Answers :
    (actor : Uuid) (operation : Operation) (key fingerprint : Text) (s : Db) {r : ResponseBody}
    {t : Db}
    → check_receipt actor operation key fingerprint s ≡ ok (some r, t)
    → Answers actor operation key fingerprint r t
receipt-Answers actor operation key fingerprint s {r} {t} h =
    subst (λ x. check_receipt actor operation key fingerprint x ≡ ok (some r, t))
      (sym (check_receipt_same actor operation key fingerprint s (some r) t h)) h

pub answer_or-Answers :
    (actor : Uuid) (operation : Operation) (key fingerprint : Text) (receipt : Option ResponseBody)
    (rest : Work ResponseBody) (s : Db) {a : ResponseBody} (t : Db) {s' : Db}
    → Ensures rest (λ s a s'. Answers actor operation key fingerprint a s')
    → check_receipt actor operation key fingerprint s ≡ ok (receipt, t)
    → answer_or receipt (λ response. response) rest t ≡ ok (a, s')
    → Answers actor operation key fingerprint a s'
answer_or-Answers actor operation key fingerprint (some r) rest s {a} t {s'} f e e' =
    subst (λ x. Answers actor operation key fingerprint a x) (ok_state e')
      (subst (λ x. Answers actor operation key fingerprint x t) (ok_value e')
        (receipt-Answers actor operation key fingerprint s e))
answer_or-Answers actor operation key fingerprint none rest s t f e e' = f t _ _ e'

pub start_matching-Answered :
    (env : Env) (input : StartMatchingInput)
    → Ensures (start_matching env input) (λ s a s'. MatchAnswered input a s')
unfolding start_matching
start_matching-Answered env input s a s' h = bind_ends _ _ h λ receipt t e e'.
    answer_or-Answers input.customer_user_id Operation.start_matching input.idempotency_key
      input.request_fingerprint receipt _ s t (match_trip-Answered env input) e e'

-- What transition_assigned_trip promises of its answer.
abbrev pub DetailAnswered : TransitionAssignedTripInput → ResponseBody → Db → Type 0
DetailAnswered input response db =
    Answers input.driver_user_id (driver input.action) input.idempotency_key
      input.request_fingerprint response db

pub persist-Answers :
    (actor : Uuid) (operation : Operation) (key fingerprint : Text) (response : ResponseBody)
    → Ensures
        (persist_receipt actor operation key fingerprint response >>= λ done. pure response)
        (λ s a s'. Answers actor operation key fingerprint a s')
persist-Answers actor operation key fingerprint response s a s' h = bind_ends _ _ h λ u t e e'.
    subst (λ b. Answers actor operation key fingerprint b s') (ok_value e')
      (subst (Answers actor operation key fingerprint response) (ok_state e')
        (persist_receipt-Answers actor operation key fingerprint response s u t e))

advance-Answered :
    (env : Env) (input : TransitionAssignedTripInput) (row : AssignedTripRow)
    → Ensures (advance env input row) (λ s a s'. DetailAnswered input a s')
unfolding advance
advance-Answered env input row = bind-Ensures _ _ λ fare. bind-Ensures _ _ λ trip_count.
    bind-Ensures _ _ λ found. bind-Ensures _ _ λ assigned. bind-Ensures _ _ λ row_count.
      bind-Ensures _ _ λ changed. bind-Ensures _ _ λ logged. bind-Ensures _ _ λ sent.
        bind-Ensures _ _ λ response.
          persist-Answers input.driver_user_id (driver input.action) input.idempotency_key
            input.request_fingerprint (detail_response response)

transition_assigned-Answered :
    (env : Env) (input : TransitionAssignedTripInput)
    → Ensures (transition_assigned env input) (λ s a s'. DetailAnswered input a s')
unfolding transition_assigned
transition_assigned-Answered env input = bind-Ensures _ _ λ found. bind-Ensures _ _ λ trip.
    bind-Ensures _ _
      λ row. bind-Ensures _ _ λ active. bind-Ensures _ _ λ allowed. advance-Answered env input row

pub transition_assigned_trip-Answered :
    (env : Env) (input : TransitionAssignedTripInput)
    → Ensures (transition_assigned_trip env input) (λ s a s'. DetailAnswered input a s')
unfolding transition_assigned_trip
transition_assigned_trip-Answered env input s a s' h = bind_ends _ _ h λ receipt t e e'.
    answer_or-Answers input.driver_user_id (driver input.action) input.idempotency_key
      input.request_fingerprint receipt _ s t (transition_assigned-Answered env input) e e'
