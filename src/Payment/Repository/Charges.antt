-- ===== src/Payment/Repository/Charges.antt =====
-- What a successful charge in apps/api/src/payment/payment.repository.ts has read and written.
use gove.Prelude.{◌≡◌, sym, ap, ◌∙◌, subst, ℕ, ◌∷◌, filter, Option, some, ok, arith}
use gove.Database.{◌>>=◌, pure}
use gove.Database.Laws.{
  Ensures, Keeps, Reads, bind-Reads, gets-Reads, throw_when-Reads, some_or_throw-Reads, read_ends,
  gets_end, bind_ends, ok_state, some_or_throw_end,
}
use gove.Dispatch.Tables.{Uuid, Trip, Db, Env, Work}
use gove.Dispatch.Repository.{find_trip, head}
use gove.Trip.Repository.{safe_integer}
use gove.Trip.Repository.Reads.{attempts_of}
use gove.Payment.Rows.{PaymentAttempt, PaymentAttemptResponse}
use gove.Payment.Repository.{
  CaptureInput, payable, next_attempt_number, new_attempt, insert_attempt, charge,
  to_payment_attempt_response, append_payment_event, persist_capture_receipt,
}
use gove.Payment.Repository.Attempts.{
  IsSettled, attempts_of-history, next_attempt_number-history, cons-IsSettled, is_of_trip,
}

pub record Charged (env : Env) (input : CaptureInput) (s : Db) (r : PaymentAttemptResponse)
    (s' : Db) : Type 0 where
  pub trip : Trip
  pub fare : ℕ
  pub number : ℕ
  pub id : Uuid
  pub found : find_trip input.trip_id s ≡ some trip
  pub paid : payable input trip s ≡ ok (fare, s)
  pub counted : next_attempt_number (head (attempts_of input.trip_id s)) s ≡ ok (number, s)
  pub inserted :
      s'.payment_attempts ≡ new_attempt env input trip id number fare ∷ s.payment_attempts
  pub kept : s'.trips ≡ s.trips

pub payable-Reads : (input : CaptureInput) (trip : Trip) → Reads (payable input trip)
unfolding payable
payable-Reads input trip =
    bind-Reads _ _ (throw_when-Reads _ _)
      λ u. bind-Reads _ _ (throw_when-Reads _ _) λ v. some_or_throw-Reads _ _

pub next_attempt_number-Reads :
    (latest : Option PaymentAttempt) → Reads (next_attempt_number latest)
unfolding next_attempt_number
next_attempt_number-Reads latest s n s' h = ground arith

insert_attempt_rows :
    (attempt : PaymentAttempt)
    → Ensures
        (insert_attempt attempt)
        (λ s u s'. (s'.payment_attempts ≡ attempt ∷ s.payment_attempts) × (s'.trips ≡ s.trips))
unfolding insert_attempt ◌>>=◌
insert_attempt_rows attempt s u s' h = ground arith

-- The rest of the charge adds neither attempts nor Trips.
abbrev Stays : {A : Type 0} → Work A → Type 0
Stays work =
    Ensures work (λ s a s'. (s'.payment_attempts ≡ s.payment_attempts) × (s'.trips ≡ s.trips))

finish-Stays :
    (input : CaptureInput) (attempt : PaymentAttempt) (id : Uuid)
    → Stays (
        to_payment_attempt_response attempt >>= λ response.
        append_payment_event input attempt >>= λ sent.
        persist_capture_receipt input response id >>= λ stored. pure response)
unfolding to_payment_attempt_response append_payment_event persist_capture_receipt safe_integer
    ◌>>=◌
finish-Stays input attempt id s a s' h = ground arith

pub charge-Charged :
    (env : Env) (input : CaptureInput) → Ensures (charge env input) (Charged env input)
unfolding charge find_trip
charge-Charged env input s r s' h = read_ends _ _ (gets-Reads _) h λ found e h.
    read_ends _ _ (some_or_throw-Reads _ _) h λ trip e1 h.
      read_ends _ _ (payable-Reads input trip) h λ fare e2 h.
        read_ends _ _ (gets-Reads _) h λ latest e3 h.
          read_ends _ _ (next_attempt_number-Reads latest) h λ number e4 h.
            bind_ends _ _ h λ id t e5 h. bind_ends _ _ h λ u t2 e6 h. record {
              trip = trip;
              fare = fare;
              number = number;
              id = id;
              found =
                  (gets_end (find_trip input.trip_id) s e).0 ∙ (some_or_throw_end found _ s e1).0;
              paid = e2;
              counted =
                  subst (λ l. next_attempt_number l s ≡ ok (number, s))
                    (sym (gets_end (λ x. head (attempts_of input.trip_id x)) s e3).0) e4;
              inserted =
                  ((finish-Stays input (new_attempt env input trip id number fare) id t2 r s' h).0
                    ∙ (insert_attempt_rows _ t u t2 e6).0)
                  ∙ ap (λ x. new_attempt env input trip id number fare ∷ x.payment_attempts)
                      (sym (ok_state e5));
              kept =
                  ((finish-Stays input (new_attempt env input trip id number fare) id t2 r s' h).1
                    ∙ (insert_attempt_rows _ t u t2 e6).1)
                  ∙ ap (λ x. x.trips) (sym (ok_state e5));
            }

-- The payments of the Trips stay histories.
pub charge-Keeps :
    (env : Env) (input : CaptureInput)
    → Keeps (λ db. IsSettled db.payment_attempts) (charge env input)
charge-Keeps env input s r s' h v =
    let c = charge-Charged env input s r s' h in
    let n =
      next_attempt_number-history (filter (is_of_trip input.trip_id) s.payment_attempts) c.number s
        s (v input.trip_id)
        (subst (λ ps. next_attempt_number (head ps) s ≡ ok (c.number, s))
          (attempts_of-history input.trip_id s v) c.counted) in
    subst IsSettled (sym c.inserted) (
      cons-IsSettled (new_attempt env input c.trip c.id c.number c.fare) s.payment_attempts n.0 n.1
        v)
