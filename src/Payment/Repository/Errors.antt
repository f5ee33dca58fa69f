-- ===== src/Payment/Repository/Errors.antt =====
-- The errors of apps/api/src/payment/payment.service.ts and payment.repository.ts: a capture by the
-- plan of a provider meets no constraint of the database.
use gove.Prelude.{
  ◌≡◌, refl, sym, ap, subst, ◌∙◌, List, [], ◌∷◌, find?, Option-cases, Bool-cases, inl, inr, ℕ, Bool,
  true, false, filter, Option, none, some, ok, err, arith, any, ◌&&◌, ◌==◌,
}
use gove.Prelude.Text.{text_eq}
use gove.Contracts.{
  PaymentProvider, PaymentStatus, succeeded, failed, unknown, simulator, momo, sepay,
}
use gove.Database.{◌>>=◌, pure, throw_when, some_or_throw}
use gove.Database.Laws.{
  bind_fails, read_fails, gets-Reads, some_or_throw-Reads, gets_end, ok_state, ok_value, Reads,
}
use gove.Dispatch.Tables.{Uuid, Trip, Db, Env, Work, Thrown, unique_violation, check_violation}
use gove.Dispatch.Repository.{head, random_uuid, same_digest}
use gove.Trip.Repository.{safe_integer}
use gove.Trip.Repository.Reads.{attempts_of}
use gove.Payment.Rows.{PaymentAttempt, PaymentAttemptResponse, PaymentEvent}
use gove.Payment.Provider.{plan_capture}
use gove.Payment.Repository.{
  CaptureInput, payable, next_attempt_number, new_attempt, insert_attempt, charge, capture, paid_or,
  check_payment_receipt, has_provider_fields, has_failure_fields, has_resolution, payment_status_eq,
  find_payment_receipt, is_open_or_success, to_payment_attempt_response, append_payment_event,
  persist_capture_receipt,
}
use gove.Payment.Service.{Digest, CapturePaymentInput, to_capture_input, capture_payment}
use gove.Payment.Repository.Attempts.{
  IsSettled, attempts_of-history, is_of_trip, next_attempt_number-history, next_attempt-free,
}
use gove.Payment.Repository.Charges.{payable-Reads, next_attempt_number-Reads}
use gove.Payment.Repository.Promises.{check_payment_receipt-Reads}

-- A constraint of the database.
abbrev pub is_violation : Thrown → Bool
is_violation (unique_violation c) = true
is_violation (check_violation c) = true
is_violation _ = false

-- The plan of every provider satisfies the CHECK constraints on the reference and the failure of a
-- payment attempt.
pub plan_capture-fields :
    (uuid : Uuid) (provider : PaymentProvider) (outcome : Option PaymentStatus)
    → let plan = plan_capture uuid provider outcome in
      (has_provider_fields plan.status plan.provider_reference plan.failure_code ≡ true)
      × (has_failure_fields plan.status plan.failure_code ≡ true)
unfolding plan_capture
plan_capture-fields uuid momo outcome = (refl, refl)
plan_capture-fields uuid sepay outcome = (refl, refl)
plan_capture-fields uuid simulator none = (refl, refl)
plan_capture-fields uuid simulator (some PaymentStatus.pending) = (refl, refl)
plan_capture-fields uuid simulator (some succeeded) = (refl, refl)
plan_capture-fields uuid simulator (some failed) = (refl, refl)
plan_capture-fields uuid simulator (some unknown) = (refl, refl)

some_or_throw_fails :
    {A : Type 0} (o : Option A) (e : Thrown) (s : Db) {x : Thrown}
    → is_violation e ≡ false
    → some_or_throw o e s ≡ err x
    → is_violation x ≡ false
some_or_throw_fails none e s k h = ground (arith, k, h)
some_or_throw_fails (some a) e s k h = ground (arith, h)

throw_when_fails :
    (c : Bool) (e : Thrown) (s : Db) {x : Thrown}
    → is_violation e ≡ false
    → throw_when c e s ≡ err x
    → is_violation x ≡ false
throw_when_fails true e s k h = ground (arith, k, h)
throw_when_fails false e s k h = ground (arith, h)

payable_fails :
    (input : CaptureInput) (trip : Trip) (s : Db) {x : Thrown}
    → payable input trip s ≡ err x
    → is_violation x ≡ false
unfolding payable
payable_fails input trip s h = bind_fails _ _ h (throw_when_fails _ _ s refl) λ u t e h.
    bind_fails _ _ h (throw_when_fails _ _ t refl) λ v t2 e h. some_or_throw_fails _ _ t2 refl h

next_attempt_number_fails :
    (latest : Option PaymentAttempt) (s : Db) {x : Thrown}
    → next_attempt_number latest s ≡ err x
    → is_violation x ≡ false
unfolding next_attempt_number
next_attempt_number_fails latest s h = ground arith

insert_attempt_fails :
    (attempt : PaymentAttempt) (s : Db) {x : Thrown}
    → has_provider_fields attempt.status attempt.provider_reference attempt.failure_code ≡ true
    → has_failure_fields attempt.status attempt.failure_code ≡ true
    → has_resolution attempt.status attempt.resolved_at ≡ true
    → attempt.attempt_number == 0 ≡ false
    → any
        (λ p. text_eq p.trip_id attempt.trip_id && p.attempt_number == attempt.attempt_number)
        s.payment_attempts
      ≡ false
    → any (λ p. text_eq p.trip_id attempt.trip_id && is_open_or_success p.status) s.payment_attempts
      ≡ false
    → insert_attempt attempt s ≡ err x
    → is_violation x ≡ false
unfolding insert_attempt ◌>>=◌
insert_attempt_fails attempt s a b r n c d h = ground arith

-- The attempt is resolved as its status says.
new_attempt-has_resolution :
    (env : Env) (input : CaptureInput) (trip : Trip) (id : Uuid) (number fare : ℕ)
    (status : PaymentStatus)
    → input.status ≡ status
    → has_resolution status (new_attempt env input trip id number fare).resolved_at ≡ true
new_attempt-has_resolution env input trip id number fare PaymentStatus.pending e = ground (arith, e)
new_attempt-has_resolution env input trip id number fare succeeded e = ground (arith, e)
new_attempt-has_resolution env input trip id number fare failed e = ground (arith, e)
new_attempt-has_resolution env input trip id number fare unknown e = ground (arith, e)

-- The id of an attempt has no events yet.
abbrev pub HasNoEvents : Uuid → Db → Type 0
HasNoEvents id db = any (λ e. text_eq e.payment_attempt_id id) db.payment_outbox ≡ false

no_event :
    (id : Uuid) (status : PaymentStatus) (es : List PaymentEvent)
    → any (λ e. text_eq e.payment_attempt_id id) es ≡ false
    → any (λ e. text_eq e.payment_attempt_id id && payment_status_eq e.event_status status) es
      ≡ false
no_event id status [] h = refl
no_event id status (e ∷ es) h = ground (arith, no_event id status es, h)

to_response_fails :
    (attempt : PaymentAttempt) (s : Db) {x : Thrown}
    → to_payment_attempt_response attempt s ≡ err x
    → is_violation x ≡ false
unfolding to_payment_attempt_response safe_integer ◌>>=◌
to_response_fails attempt s h = ground arith

to_response-Reads : (attempt : PaymentAttempt) → Reads (to_payment_attempt_response attempt)
unfolding to_payment_attempt_response safe_integer ◌>>=◌
to_response-Reads attempt s r s' h = ground arith

append_payment_event_fails :
    {P : Type 0} (input : CaptureInput) (attempt : PaymentAttempt) (s : Db) {x : Thrown}
    → HasNoEvents attempt.id s
    → append_payment_event input attempt s ≡ err x
    → P
unfolding append_payment_event ◌>>=◌
append_payment_event_fails input attempt s e h =
    ground (arith, no_event attempt.id input.status s.payment_outbox e, h)

-- No receipt of the Customer stands under the key.
abbrev IsUnused : CaptureInput → Db → Type 0
IsUnused input db = find_payment_receipt input.customer_user_id input.idempotency_key db ≡ none

append_payment_event-IsUnused :
    (input : CaptureInput) (attempt : PaymentAttempt) (s : Db) (u : Unit {0}) (s' : Db)
    → append_payment_event input attempt s ≡ ok (u, s')
    → IsUnused input s
    → IsUnused input s'
unfolding append_payment_event find_payment_receipt ◌>>=◌
append_payment_event-IsUnused input attempt s u s' h e = ground (arith, e)

persist_capture_receipt_fails :
    {P : Type 0} (input : CaptureInput) (r : PaymentAttemptResponse) (id : Uuid) (s : Db)
    {x : Thrown}
    → IsUnused input s
    → persist_capture_receipt input r id s ≡ err x
    → P
unfolding persist_capture_receipt ◌>>=◌
persist_capture_receipt_fails input r id s e h = ground (arith, e, h)

finish_fails :
    (input : CaptureInput) (attempt : PaymentAttempt) (id : Uuid) (s : Db) {x : Thrown}
    → HasNoEvents attempt.id s
    → IsUnused input s
    → (to_payment_attempt_response attempt >>= λ response.
          append_payment_event input attempt >>= λ sent.
          persist_capture_receipt input response id >>= λ stored. pure response)
        s
      ≡ err x
    → is_violation x ≡ false
finish_fails input attempt id s e f h =
    read_fails _ _ (to_response-Reads attempt) h (to_response_fails attempt s) λ r e1 h.
      bind_fails _ _ h (append_payment_event_fails input attempt s e) λ u t e2 h.
        bind_fails _ _ h
          (persist_capture_receipt_fails input r id t
            (append_payment_event-IsUnused input attempt s u t e2 f))
          λ v t2 e3 h. cc

insert_attempt-others :
    (attempt : PaymentAttempt) (s : Db) (u : Unit {0}) (s' : Db)
    → insert_attempt attempt s ≡ ok (u, s')
    → (s'.payment_outbox ≡ s.payment_outbox) × (s'.payment_receipts ≡ s.payment_receipts)
unfolding insert_attempt ◌>>=◌
insert_attempt-others attempt s u s' h = ground arith

IsUnused-same :
    (input : CaptureInput) (s t : Db)
    → t.payment_receipts ≡ s.payment_receipts
    → IsUnused input s
    → IsUnused input t
unfolding find_payment_receipt
IsUnused-same input s t h e =
    ap
      (find? (λ r.
        text_eq r.actor_user_id input.customer_user_id
        && text_eq r.idempotency_key input.idempotency_key))
      h
    ∙ e

check_payment_receipt_fails :
    (input : CaptureInput) (s : Db) {x : Thrown}
    → check_payment_receipt input s ≡ err x
    → is_violation x ≡ false
unfolding check_payment_receipt ◌>>=◌
check_payment_receipt_fails input s h = ground arith

random_uuid_fails : {P : Type 0} (env : Env) (s : Db) {x : Thrown} → random_uuid env s ≡ err x → P
random_uuid_fails env s h = cc

insert_next_fails :
    (env : Env) (input : CaptureInput) (trip : Trip) (fare number : ℕ) (id : Uuid) (s t : Db)
    (latest : Option PaymentAttempt) {x : Thrown}
    → has_provider_fields input.status input.provider_reference input.failure_code ≡ true
    → has_failure_fields input.status input.failure_code ≡ true
    → IsSettled s.payment_attempts
    → head (attempts_of input.trip_id s) ≡ latest
    → next_attempt_number latest s ≡ ok (number, s)
    → s.payment_attempts ≡ t.payment_attempts
    → insert_attempt (new_attempt env input trip id number fare) t ≡ err x
    → is_violation x ≡ false
insert_next_fails env input trip fare number id s t latest a b v l n same h =
    let last =
      next_attempt_number-history (filter (is_of_trip input.trip_id) s.payment_attempts) number s s
        (v input.trip_id)
        (subst (λ ps. next_attempt_number (head ps) s ≡ ok (number, s))
          (attempts_of-history input.trip_id s v)
          (subst (λ o. next_attempt_number o s ≡ ok (number, s)) (sym l) n)) in
    let free = next_attempt-free input.trip_id number s.payment_attempts v last.0 last.1 in
    insert_attempt_fails (new_attempt env input trip id number fare) t a b
      (new_attempt-has_resolution env input trip id number fare input.status refl)
      (ground (arith, last.0))
      (subst
        (λ ps. any (λ p. text_eq p.trip_id input.trip_id && p.attempt_number == number) ps ≡ false)
        same free.0)
      (subst
        (λ ps. any (λ p. text_eq p.trip_id input.trip_id && is_open_or_success p.status) ps ≡ false)
        same free.1)
      h

paid_or_fails :
    (receipt : Option PaymentAttemptResponse) (rest : Work PaymentAttemptResponse) (s : Db)
    {x : Thrown}
    → (receipt ≡ none → rest s ≡ err x → is_violation x ≡ false)
    → paid_or receipt rest s ≡ err x
    → is_violation x ≡ false
paid_or_fails none rest s f h = f refl h
paid_or_fails (some r) rest s f h = cc

charge_fails :
    (env : Env) (input : CaptureInput) (s : Db) {x : Thrown}
    → has_provider_fields input.status input.provider_reference input.failure_code ≡ true
    → has_failure_fields input.status input.failure_code ≡ true
    → IsSettled s.payment_attempts
    → HasNoEvents (env.random_uuid s.fresh) s
    → IsUnused input s
    → charge env input s ≡ err x
    → is_violation x ≡ false
unfolding charge
charge_fails env input s a b v f g h =
    read_fails _ _ (gets-Reads _) h (λ e. cc)
      λ found e h.
        read_fails _ _ (some_or_throw-Reads _ _) h (some_or_throw_fails _ _ s refl) λ trip e1 h.
          read_fails _ _ (payable-Reads input trip) h (payable_fails input trip s) λ fare e2 h.
            read_fails _ _ (gets-Reads _) h (λ e. cc)
              λ latest e3 h.
                read_fails _ _ (next_attempt_number-Reads latest) h
                  (next_attempt_number_fails latest s)
                  λ number e4 h. bind_fails _ _ h (random_uuid_fails env s) λ id t e5 h.
                    bind_fails _ _ h
                      (insert_next_fails env input trip fare number id s t latest a b v
                        (gets_end (λ x. head (attempts_of input.trip_id x)) s e3).0 e4
                        (ap (λ x. x.payment_attempts) (ok_state e5)))
                      λ u t2 e6 h.
                        let rows = insert_attempt-others _ t u t2 e6 in
                        finish_fails input (new_attempt env input trip id number fare) id t2
                          (subst (λ es. any (λ e. text_eq e.payment_attempt_id id) es ≡ false)
                            (ap (λ y. y.payment_outbox) (ok_state e5) ∙ sym rows.0)
                            (subst (λ i. HasNoEvents i s) (ok_value e5) f))
                          (IsUnused-same input s t2
                            (rows.1 ∙ ap (λ y. y.payment_receipts) (sym (ok_state e5))) g)
                          h

none-IsUnused :
    (input : CaptureInput) (s : Db) (receipt : Option PaymentAttemptResponse)
    → check_payment_receipt input s ≡ ok (receipt, s)
    → receipt ≡ none
    → IsUnused input s
unfolding check_payment_receipt ◌>>=◌
none-IsUnused input s receipt h e =
    elim (Option-cases (find_payment_receipt input.customer_user_id input.idempotency_key s)) [
      | inl unused ↦ unused
      | inr (r, found) ↦
          elim (Bool-cases (same_digest r.request_fingerprint input.request_fingerprint)) [
            | inl same ↦ ground (arith, found, same, h, e)
            | inr other ↦ ground (arith, found, other, h)
          ]
    ]

-- From a database whose attempts are histories, and where the id that randomUUID gives has no payment
-- events yet, a capture by the plan of its provider fails with none of these constraints, whatever it
-- fails with: those of payment.payment_attempts on numbers, open attempts, resolution, reference and
-- failure, the unique events of payment.outbox_events, and the primary key of
-- payment.command_receipts.
pub capture_payment-error :
    (digest : Digest) (env : Env) (uuid : Uuid) (input : CapturePaymentInput) (db : Db) {x : Thrown}
    → IsSettled db.payment_attempts
    → HasNoEvents (env.random_uuid db.fresh) db
    → capture_payment digest env uuid input db ≡ err x
    → is_violation x ≡ false
unfolding capture_payment capture
capture_payment-error digest env uuid input db v f h =
    let plan = plan_capture uuid input.provider input.simulation_outcome in
    let request = to_capture_input digest input plan in
    let fields = plan_capture-fields uuid input.provider input.simulation_outcome in
    read_fails _ _ (check_payment_receipt-Reads request) h (check_payment_receipt_fails request db)
      λ receipt e h.
        paid_or_fails receipt _ db
          (λ absent.
            charge_fails env request db fields.0 fields.1 v f
              (none-IsUnused request db receipt e absent))
          h
