-- ===== src/Payment/Repository/Replay.antt =====
-- Captures of apps/api/src/payment/payment.repository.ts that are made again, with others in between.
use gove.Prelude.{
  ◌≡◌, subst, ◌∙◌, Bool, true, false, ◌&&◌, List, [], ◌∷◌, find?, is_some, some, Option-cases,
  Bool-cases, inl, inr, ok, arith,
}
use gove.Prelude.Text.{Text, text_eq, text_eq→eq}
use gove.Database.{◌>>=◌, transaction}
use gove.Database.Laws.{
  Keeps, bind_then, bind-Keeps, transaction-Ensures, ok_state, read_ends, gets-Reads,
  throw_when-Reads, some_or_throw-Reads, gets_end, throw_when_end, Reads,
}
use gove.Dispatch.Tables.{Uuid, Db, Env, Work}
use gove.Dispatch.Repository.{same_digest, random_uuid}
use gove.Dispatch.Repository.Durable.{find-cons_kept}
use gove.Trip.Repository.{safe_integer}
use gove.Payment.Rows.{PaymentAttempt, PaymentAttemptResponse, PaymentReceipt}
use gove.Payment.Repository.{
  CaptureInput, find_payment_receipt, check_payment_receipt, persist_capture_receipt, new_attempt,
  insert_attempt, append_payment_event, to_payment_attempt_response, charge, capture,
}
use gove.Payment.Repository.Charges.{payable-Reads, next_attempt_number-Reads}
use gove.Payment.Repository.Promises.{
  Answered, capture-Answered, check_payment_receipt-Reads, paid_or-Ensures,
}

-- The captures of a list, each in its transaction.
unfoldable pub run_captures : List (Env × CaptureInput) → Db → Db
unfolding capture transaction
run_captures [] db = db
run_captures ((env, input) ∷ rest) db = run_captures rest (transaction (capture env input) db).1

-- What every capture keeps, any number of captures keep.
pub run_captures-Keeps :
    (R : Db → Type 0) (steps : List (Env × CaptureInput)) (db : Db)
    → ((env : Env) (input : CaptureInput) → Keeps R (capture env input))
    → R db
    → R (run_captures steps db)
unfolding run_captures
run_captures-Keeps R [] db f r = r
run_captures-Keeps R ((env, input) ∷ rest) db f r =
    run_captures-Keeps R rest (transaction (capture env input) db).1 f
      (transaction-Ensures (capture env input) (λ s s'. R s → R s') db (λ t x. x) (f env input) r)

module _ (actor : Uuid) (key : Text) (r : PaymentReceipt) where
  abbrev IsFound : Db → Type 0
  IsFound db = find_payment_receipt actor key db ≡ some r

  reads : {A : Type 0} (work : Work A) → Reads work → Keeps IsFound work
  reads work f s a s' h = subst IsFound (f s a s' h)

  -- The test of find_payment_receipt.
  abbrev is_under : Uuid → Text → PaymentReceipt → Bool
  is_under a k x = text_eq x.actor_user_id a && text_eq x.idempotency_key k

  new-IsFound :
      (new : PaymentReceipt) (rs : List PaymentReceipt)
      → is_some (find? (is_under new.actor_user_id new.idempotency_key) rs) ≡ false
      → find? (is_under actor key) rs ≡ some r
      → find? (is_under actor key) (new ∷ rs) ≡ some r
  new-IsFound new rs free e =
      find-cons_kept (is_under actor key) new rs r
        (λ same.
          subst (λ k. is_some (find? (is_under actor k) rs) ≡ false)
            (text_eq→eq new.idempotency_key key (ground (arith, same)))
            (subst (λ a. is_some (find? (is_under a new.idempotency_key) rs) ≡ false)
              (text_eq→eq new.actor_user_id actor (ground (arith, same))) free))
        e

  persist-IsFound :
      (input : CaptureInput) (response : PaymentAttemptResponse) (id : Uuid)
      → Keeps IsFound (persist_capture_receipt input response id)
  unfolding persist_capture_receipt find_payment_receipt
  persist-IsFound input response id s a s' h e = read_ends _ _ (gets-Reads _) h λ taken e1 h.
      read_ends _ _ (throw_when-Reads _ _) h λ u e2 h. subst IsFound (ok_state h) (
        new-IsFound _ s.payment_receipts
          ((gets_end
              (λ db. is_some (find_payment_receipt input.customer_user_id input.idempotency_key db))
              s e1).0
            ∙ (throw_when_end taken _ s e2).0)
          e)

  insert-IsFound : (attempt : PaymentAttempt) → Keeps IsFound (insert_attempt attempt)
  unfolding insert_attempt find_payment_receipt ◌>>=◌
  insert-IsFound attempt s a s' h e = ground (arith, e)

  event-IsFound :
      (input : CaptureInput) (attempt : PaymentAttempt)
      → Keeps IsFound (append_payment_event input attempt)
  unfolding append_payment_event find_payment_receipt ◌>>=◌
  event-IsFound input attempt s a s' h e = ground (arith, e)

  response-IsFound :
      (attempt : PaymentAttempt) → Keeps IsFound (to_payment_attempt_response attempt)
  unfolding to_payment_attempt_response safe_integer ◌>>=◌
  response-IsFound attempt s a s' h e = ground (arith, e)

  random-IsFound : (env : Env) → Keeps IsFound (random_uuid env)
  unfolding find_payment_receipt
  random-IsFound env s a s' h e = subst IsFound (ok_state h) e

  charge-IsFound : (env : Env) (input : CaptureInput) → Keeps IsFound (charge env input)
  unfolding charge
  charge-IsFound env input = bind-Keeps _ _ (reads _ (gets-Reads _)) λ found.
      bind-Keeps _ _ (reads _ (some_or_throw-Reads _ _)) λ trip.
        bind-Keeps _ _ (reads _ (payable-Reads input trip)) λ fare.
          bind-Keeps _ _ (reads _ (gets-Reads _)) λ latest.
            bind-Keeps _ _ (reads _ (next_attempt_number-Reads latest)) λ number.
              bind-Keeps _ _ (random-IsFound env) λ id.
                bind-Keeps _ _ (insert-IsFound (new_attempt env input trip id number fare)) λ u.
                  bind-Keeps _ _ (response-IsFound (new_attempt env input trip id number fare))
                    λ response.
                      bind-Keeps _ _
                        (event-IsFound input (new_attempt env input trip id number fare))
                        λ v.
                          bind-Keeps _ _ (persist-IsFound input response id)
                            λ w. reads _ λ s a s' h. ok_state h

  capture-IsFound : (env : Env) (input : CaptureInput) → Keeps IsFound (capture env input)
  unfolding capture
  capture-IsFound env input s a s' h e =
      read_ends _ _ (check_payment_receipt-Reads input) h λ receipt e1 h.
        paid_or-Ensures {Q = λ x b y. IsFound x → IsFound y} receipt _ (charge-IsFound env input)
          (λ x0 e2 x b y h. subst IsFound (ok_state h)) s a s' h e

Answered-found :
    (input : CaptureInput) (response : PaymentAttemptResponse) (db : Db)
    → Answered input response db
    → (r : PaymentReceipt) × (find_payment_receipt input.customer_user_id input.idempotency_key db
        ≡ some r)
      × (same_digest r.request_fingerprint input.request_fingerprint ≡ true)
      × (r.response_body ≡ response)
unfolding check_payment_receipt ◌>>=◌
Answered-found input response db h =
    elim (Option-cases (find_payment_receipt input.customer_user_id input.idempotency_key db)) [
      | inl e ↦ ground (arith, e, h)
      | inr (r, e) ↦
          elim (Bool-cases (same_digest r.request_fingerprint input.request_fingerprint)) [
            | inl same ↦ (r, e, same, ground (arith, e, same, h))
            | inr other ↦ ground (arith, e, other, h)
          ]
    ]

found-Answered :
    (input : CaptureInput) (response : PaymentAttemptResponse) (db : Db) (r : PaymentReceipt)
    → find_payment_receipt input.customer_user_id input.idempotency_key db ≡ some r
    → same_digest r.request_fingerprint input.request_fingerprint ≡ true
    → r.response_body ≡ response
    → Answered input response db
unfolding check_payment_receipt ◌>>=◌
found-Answered input response db r e same body = ground (arith, e, same, body)

-- A capture that has got its answer gets the same answer again after whatever captures, of this Trip
-- and others, have run in between, and then changes nothing: it charges nothing more.
pub capture-replay :
    (env later : Env) (steps : List (Env × CaptureInput)) (input : CaptureInput) (db : Db)
    {response : PaymentAttemptResponse} {db' : Db}
    → capture env input db ≡ ok (response, db')
    → capture later input (run_captures steps db') ≡ ok (response, run_captures steps db')
unfolding capture
capture-replay env later steps input db {response} {db'} h =
    let found = Answered-found input response db' (capture-Answered env input db response db' h) in
    bind_then _ _ (
      found-Answered input response (run_captures steps db') found.0
        (run_captures-Keeps (IsFound input.customer_user_id input.idempotency_key found.0) steps db'
          (capture-IsFound input.customer_user_id input.idempotency_key found.0) found.1)
        found.2 found.3)
