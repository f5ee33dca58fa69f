-- ===== src/Payment/Repository/Promises.antt =====
-- What apps/api/src/payment/payment.repository.ts and payment.service.ts promise: repeated requests,
-- one payment of a Trip, and no error but their own.
use gove.Prelude.{
  ◌≡◌, refl, sym, ap, ◌∙◌, subst, ℕ, Bool, true, false, not, List, ◌∷◌, filter, find?, Option, none,
  some, ok, err, arith,
}
use gove.Prelude.Text.{text_eq, text_eq_refl}
use gove.Contracts.{PaymentStatus, succeeded, failed, unknown, completed, trip_state_eq}
use gove.Database.{◌>>=◌, pure, throw_when, some_or_throw}
use gove.Database.Laws.{
  Ensures, Keeps, bind_then, bind_throws, bind-Ensures, read_ends, ok_state, ok_value, Reads,
  bind_ends, gets-Reads, throw_when-Reads,
}
use gove.Dispatch.Tables.{Uuid, Trip, Db, Env, Work, Thrown, payment_error}
use gove.Dispatch.Repository.{find_trip, head}
use gove.Trip.Repository.Reads.{attempts_of}
use gove.Payment.Rows.{PaymentAttempt, PaymentAttemptResponse, PaymentCommandErrorCode}
use gove.Payment.Repository.{
  CaptureInput, payable, number_after, next_attempt_number, charge, capture, paid_or,
  check_payment_receipt, persist_capture_receipt, find_payment_receipt, is_open_or_success,
}
use gove.Payment.Repository.Attempts.{IsSettled, is_of_trip}
use gove.Payment.Repository.Charges.{charge-Keeps}

pub check_payment_receipt-Reads : (input : CaptureInput) → Reads (check_payment_receipt input)
unfolding check_payment_receipt ◌>>=◌
check_payment_receipt-Reads input s r s' h = ground arith

pub paid_or-Ensures :
    {Q : Db → PaymentAttemptResponse → Db → Type 0} (receipt : Option PaymentAttemptResponse)
    (rest : Work PaymentAttemptResponse)
    → Ensures rest Q
    → ((r : PaymentAttemptResponse) → receipt ≡ some r → Ensures {E = Thrown} (pure r) Q)
    → Ensures (paid_or receipt rest) Q
paid_or-Ensures none rest f g = f
paid_or-Ensures (some r) rest f g = g r refl

-- Under captures in any order the attempts of every Trip are numbered 1, 2, 3, ..., and all but the
-- last of them failed.
pub capture-IsSettled :
    (env : Env) (input : CaptureInput)
    → Keeps (λ db. IsSettled db.payment_attempts) (capture env input)
unfolding capture
capture-IsSettled env input s r s' h =
    read_ends _ _ (check_payment_receipt-Reads input) h λ receipt e h.
      paid_or-Ensures receipt _ (charge-Keeps env input)
        (λ a e s b t h. subst (λ db. IsSettled db.payment_attempts) (ok_state h)) s r s' h

-- The receipts of the database answer the request.
abbrev pub Answered : CaptureInput → PaymentAttemptResponse → Db → Type 0
Answered input r db = check_payment_receipt input db ≡ ok (some r, db)

added-Answered :
    (input : CaptureInput) (r : PaymentAttemptResponse) (id : Uuid) (s : Db)
    → Answered input r (record s {
      payment_receipts =
          record {
            actor_user_id = input.customer_user_id;
            idempotency_key = input.idempotency_key;
            request_fingerprint = input.request_fingerprint;
            response_body = r;
            payment_attempt_id = id;
            trip_id = input.trip_id;
          }
          ∷ s.payment_receipts;
    })
unfolding check_payment_receipt find_payment_receipt ◌>>=◌
added-Answered input r id s = ground (
  arith,
  text_eq_refl input.customer_user_id,
  text_eq_refl input.idempotency_key,
  text_eq_refl input.request_fingerprint,
)

persist_capture_receipt-Answered :
    (input : CaptureInput) (r : PaymentAttemptResponse) (id : Uuid)
    → Ensures
        (persist_capture_receipt input r id >>= λ stored. pure r)
        (λ s a s'. Answered input a s')
unfolding persist_capture_receipt
persist_capture_receipt-Answered input r id s a s' h = bind_ends _ _ h λ u t e e'.
    read_ends _ _ (gets-Reads _) e λ taken e1 e. read_ends _ _ (throw_when-Reads _ _) e λ v e2 e.
      subst (λ x. Answered input x s') (ok_value e')
        (subst (Answered input r) (ok_state e ∙ ok_state e') (added-Answered input r id s))

charge-Answered :
    (env : Env) (input : CaptureInput) → Ensures (charge env input) (λ s a s'. Answered input a s')
unfolding charge
charge-Answered env input = bind-Ensures _ _ λ found. bind-Ensures _ _ λ trip.
    bind-Ensures _ _ λ fare. bind-Ensures _ _ λ latest. bind-Ensures _ _ λ number.
      bind-Ensures _ _ λ id. bind-Ensures _ _ λ inserted.
        bind-Ensures _ _
          λ response. bind-Ensures _ _ λ sent. persist_capture_receipt-Answered input response id

pub capture-Answered :
    (env : Env) (input : CaptureInput) → Ensures (capture env input) (λ s a s'. Answered input a s')
unfolding capture
capture-Answered env input s a s' h =
    read_ends _ _ (check_payment_receipt-Reads input) h λ receipt e h.
      paid_or-Ensures {Q = λ s0 b t. s0 ≡ s → Answered input b t} receipt _
        (λ s0 b t h same. charge-Answered env input s0 b t h)
        (λ r e2 s0 b t h2 same.
          subst (λ x. Answered input b x) (sym same ∙ ok_state h2)
            (subst (λ x. Answered input x s) (ok_value h2)
              (subst (λ o. check_payment_receipt input s ≡ ok (o, s)) e2 e)))
        s a s' h refl

-- How a further charge of a Trip is refused, by the status of the last attempt.
unfoldable pub refusal : PaymentStatus → PaymentCommandErrorCode
refusal PaymentStatus.pending = PaymentCommandErrorCode.payment_pending
refusal succeeded = PaymentCommandErrorCode.payment_already_succeeded
refusal _ = PaymentCommandErrorCode.payment_reconciliation_required

pub number_after-refusal :
    (n : ℕ) (status : PaymentStatus) (s : Db)
    → is_open_or_success status ≡ true
    → number_after n status s ≡ err (payment_error (refusal status))
unfolding refusal
number_after-refusal n PaymentStatus.pending s h = refl
number_after-refusal n succeeded s h = refl
number_after-refusal n unknown s h = refl
number_after-refusal n failed s h = ground arith

guarded_elsewhere :
    (c d : Bool) (o : Option ℕ) (x y z : Thrown) (before s : Db) {n : ℕ}
    → (throw_when c x >>= λ u. throw_when d y >>= λ v. some_or_throw o z) before ≡ ok (n, before)
    → (throw_when c x >>= λ u. throw_when d y >>= λ v. some_or_throw o z) s ≡ ok (n, s)
unfolding ◌>>=◌
guarded_elsewhere true d o x y z before s h = ground (arith, h)
guarded_elsewhere false true o x y z before s h = ground (arith, h)
guarded_elsewhere false false none x y z before s h = ground (arith, h)
guarded_elsewhere false false (some n) x y z before s h = ap (λ m. ok (m, s)) (ok_value h)

-- Whether a Trip may be paid does not depend on what else the database holds.
pub payable_elsewhere :
    (input : CaptureInput) (trip : Trip) (fare : ℕ) (before s : Db)
    → payable input trip before ≡ ok (fare, before)
    → payable input trip s ≡ ok (fare, s)
unfolding payable
payable_elsewhere input trip fare before s h =
    guarded_elsewhere (not (text_eq trip.customer_user_id input.customer_user_id))
      (not (trip_state_eq trip.state completed)) trip.final_fare_minor _ _ _ before s h

pub find_trip_same : (id : Uuid) (s t : Db) → t.trips ≡ s.trips → find_trip id t ≡ find_trip id s
unfolding find_trip
find_trip_same id s t h = ap (λ ts. find? (λ x. text_eq x.id id) ts) h

pub newest :
    (t : Uuid) (p : PaymentAttempt) (ps : List PaymentAttempt)
    → is_of_trip t p ≡ true
    → head (filter (is_of_trip t) (p ∷ ps)) ≡ some p
newest t p ps h = ground (arith, h)

pub charge-charged :
    (later : Env) (input : CaptureInput) (trip : Trip) (fare : ℕ) (last : PaymentAttempt) (s : Db)
    → find_trip input.trip_id s ≡ some trip
    → payable input trip s ≡ ok (fare, s)
    → head (attempts_of input.trip_id s) ≡ some last
    → is_open_or_success last.status ≡ true
    → charge later input s ≡ err (payment_error (refusal last.status))
unfolding charge next_attempt_number
charge-charged later input trip fare last s e1 e2 e3 e4 =
    bind_then _ _ (ap (λ o. ok (o, s)) e1)
    ∙ (bind_then _ _ refl
        ∙ (bind_then _ _ e2
            ∙ (bind_then _ _ (ap (λ o. ok (o, s)) e3)
                ∙ bind_throws _ _ (number_after-refusal last.attempt_number last.status s e4))))
