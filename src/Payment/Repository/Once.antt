-- ===== src/Payment/Repository/Once.antt =====
-- One payment of a Trip under apps/api/src/payment/payment.repository.ts.
use gove.Prelude.{
  ◌≡◌, ap, subst, ◌∙◌, ℕ, true, false, List, ◌∷◌, filter, some, ok, err, Bool-cases, inl, inr,
  arith,
}
use gove.Prelude.Text.{text_eq, text_eq→eq, text_eq_refl}
use gove.Database.Laws.{Keeps, read_ends, ok_state}
use gove.Dispatch.Tables.{Uuid, Trip, Db, Env, payment_error}
use gove.Dispatch.Repository.{find_trip, head}
use gove.Trip.Repository.Reads.{attempts_of}
use gove.Payment.Rows.{PaymentAttempt, PaymentAttemptResponse}
use gove.Payment.Repository.{
  CaptureInput, payable, next_attempt_number, new_attempt, charge, capture, is_open_or_success,
}
use gove.Payment.Repository.Attempts.{IsSettled, attempts_of-history, is_of_trip}
use gove.Payment.Repository.Charges.{charge-Charged, charge-Keeps}
use gove.Payment.Repository.Promises.{
  check_payment_receipt-Reads, paid_or-Ensures, refusal, number_after-refusal, payable_elsewhere,
  find_trip_same, newest, charge-charged,
}
use gove.Payment.Repository.Replay.{run_captures, run_captures-Keeps}

module _ (t : Uuid) (trip : Trip) (last : PaymentAttempt) where
  -- The attempts are histories, and the latest one of the Trip is given.
  abbrev IsLatest : Db → Type 0
  IsLatest db =
      IsSettled db.payment_attempts
      × (find_trip t db ≡ some trip)
      × (head (filter (is_of_trip t) db.payment_attempts) ≡ some last)

  -- A Trip whose latest attempt is open or successful is not charged.
  refused_number :
      (i : Uuid) (s : Db) (n : ℕ) (s' : Db) {P : Type 0}
      → is_open_or_success last.status ≡ true
      → IsLatest s
      → text_eq i t ≡ true
      → next_attempt_number (head (attempts_of i s)) s ≡ ok (n, s')
      → P
  unfolding next_attempt_number
  refused_number i s n s' o v e h =
      let known : next_attempt_number (some last) s ≡ ok (n, s') =
        subst (λ l. next_attempt_number l s ≡ ok (n, s'))
          (ap head (attempts_of-history t s v.0) ∙ v.2)
          (subst (λ x. next_attempt_number (head (attempts_of x s)) s ≡ ok (n, s'))
            (text_eq→eq i t e) h) in
      ground (arith, number_after-refusal last.attempt_number last.status s o, known)

  passed :
      (p : PaymentAttempt) (ps : List PaymentAttempt)
      → is_of_trip t p ≡ false
      → head (filter (is_of_trip t) (p ∷ ps)) ≡ head (filter (is_of_trip t) ps)
  passed p ps other = ground (arith, other)

  charge-IsLatest :
      (env : Env) (input : CaptureInput)
      → is_open_or_success last.status ≡ true
      → Keeps IsLatest (charge env input)
  unfolding find_trip
  charge-IsLatest env input o s r s' h v =
      let c = charge-Charged env input s r s' h in
      elim (Bool-cases (text_eq input.trip_id t)) [
        | inl same ↦ refused_number input.trip_id s c.number s o v same c.counted
        | inr other ↦ (
          charge-Keeps env input s r s' h v.0,
          find_trip_same t s s' c.kept ∙ v.1,
          ap (λ ps. head (filter (is_of_trip t) ps)) c.inserted
              ∙ passed (new_attempt env input c.trip c.id c.number c.fare) s.payment_attempts other
              ∙ v.2,
        )
      ]

  capture-IsLatest :
      (env : Env) (input : CaptureInput)
      → is_open_or_success last.status ≡ true
      → Keeps IsLatest (capture env input)
  unfolding capture
  capture-IsLatest env input o s a s' h v =
      read_ends _ _ (check_payment_receipt-Reads input) h λ receipt e1 h.
        paid_or-Ensures {Q = λ x b y. IsLatest x → IsLatest y} receipt _
          (charge-IsLatest env input o) (λ x0 e2 x b y h. subst IsLatest (ok_state h)) s a s' h v

-- Once a charge of a Trip has left an attempt that is pending, succeeded or unknown, every further
-- charge of the Trip by its Customer, under whatever key, by whatever provider and with whatever
-- plan, is refused for this reason, also after whatever captures of this and other Trips have run in
-- between.
pub charge-once :
    (env later : Env) (steps : List (Env × CaptureInput)) (input second : CaptureInput) (db : Db)
    {r : PaymentAttemptResponse} {db' : Db}
    → IsSettled db.payment_attempts
    → charge env input db ≡ ok (r, db')
    → is_open_or_success input.status ≡ true
    → charge later
        (record second { trip_id = input.trip_id; customer_user_id = input.customer_user_id })
        (run_captures steps db')
      ≡ err (payment_error (refusal input.status))
unfolding payable
charge-once env later steps input second db {r} {db'} v h o =
    let c = charge-Charged env input db r db' h in
    let last = new_attempt env input c.trip c.id c.number c.fare in
    let kept =
      run_captures-Keeps (IsLatest input.trip_id c.trip last) steps db'
        (λ e i. capture-IsLatest input.trip_id c.trip last e i o)
        (
          charge-Keeps env input db r db' h v,
          find_trip_same input.trip_id db db' c.kept ∙ c.found,
          ap (λ ps. head (filter (is_of_trip input.trip_id) ps)) c.inserted
              ∙ newest input.trip_id last db.payment_attempts (text_eq_refl input.trip_id),
        ) in
    charge-charged later
      (record second { trip_id = input.trip_id; customer_user_id = input.customer_user_id }) c.trip
      c.fare last (run_captures steps db') kept.1
      (payable_elsewhere input c.trip c.fare db (run_captures steps db') c.paid)
      (ap head (attempts_of-history input.trip_id (run_captures steps db') kept.0) ∙ kept.2) o
