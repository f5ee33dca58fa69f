-- ===== src/Payment/Repository/Attempts.antt =====
-- The payment attempts of a Trip under apps/api/src/payment/payment.repository.ts: their numbers, and
-- what an open or successful attempt means for the next request.
use gove.Prelude.{
  ◌≡◌, refl, sym, ap, ◌∙◌, subst, ℕ, ◌+◌, ◌<◌, Bool, true, false, ◌&&◌, not, List, [], ◌∷◌, filter,
  all, any, length, ok, ltb, ◌==◌, Bool-cases, inl, inr, arith,
}
use gove.Prelude.Text.{text_eq, text_eq→eq, text_eq_refl}
use gove.Database.{order_by, order_by_insert}
use gove.Database.Laws.{Ensures, ok_value}
use gove.Contracts.{PaymentStatus, succeeded, failed, unknown}
use gove.Dispatch.Tables.{Uuid, Db, Work}
use gove.Dispatch.Repository.{head}
use gove.Trip.Repository.Reads.{attempts_of}
use gove.Payment.Rows.{PaymentAttempt}
use gove.Payment.Repository.{is_open_or_success, number_after, next_attempt_number}

abbrev pub is_of_trip : Uuid → PaymentAttempt → Bool
is_of_trip t p = text_eq p.trip_id t

-- The attempts of one Trip, the last one first: they count down to 1, and all but the last failed.
abbrev pub is_history : List PaymentAttempt → Bool
is_history [] = true
is_history (p ∷ ps) =
    p.attempt_number == length ps + 1
    && (all (λ q. not (is_open_or_success q.status)) ps && is_history ps)

abbrev pub IsSettled : List PaymentAttempt → Type 0
IsSettled ps = (t : Uuid) → is_history (filter (is_of_trip t) ps) ≡ true

abbrev is_after : PaymentAttempt → PaymentAttempt → Bool
is_after a b = ltb b.attempt_number a.attempt_number

insert-history :
    (p : PaymentAttempt) (ps : List PaymentAttempt)
    → is_history (p ∷ ps) ≡ true
    → order_by_insert is_after p ps ≡ p ∷ ps
insert-history p [] h = refl
insert-history p (q ∷ qs) h = ground (arith, h)

order_by-history : (ps : List PaymentAttempt) → is_history ps ≡ true → order_by is_after ps ≡ ps
order_by-history [] h = refl
order_by-history (p ∷ ps) h =
    ap (order_by_insert is_after p) (order_by-history ps (ground (arith, h)))
    ∙ insert-history p ps h

-- The statement that reads the last attempt reads the head of the history.
pub attempts_of-history :
    (t : Uuid) (db : Db)
    → IsSettled db.payment_attempts
    → attempts_of t db ≡ filter (is_of_trip t) db.payment_attempts
unfolding attempts_of
attempts_of-history t db v = order_by-history (filter (is_of_trip t) db.payment_attempts) (v t)

-- Only a failed attempt has a successor.
number_after-failed :
    (n : ℕ) (status : PaymentStatus) (m : ℕ) (s s' : Db)
    → number_after n status s ≡ ok (m, s')
    → (m ≡ n + 1) × (is_open_or_success status ≡ false)
number_after-failed n PaymentStatus.pending m s s' h = ground arith
number_after-failed n succeeded m s s' h = ground arith
number_after-failed n unknown m s s' h = ground arith
number_after-failed n failed m s s' h = (sym (ok_value h), refl)

-- A next number is only given where no attempt is open or successful.
pub next_attempt_number-history :
    (ps : List PaymentAttempt) (n : ℕ) (s s' : Db)
    → is_history ps ≡ true
    → next_attempt_number (head ps) s ≡ ok (n, s')
    → (n ≡ length ps + 1) × (all (λ q. not (is_open_or_success q.status)) ps ≡ true)
unfolding next_attempt_number
next_attempt_number-history [] n s s' v h = (sym (ok_value h), refl)
next_attempt_number-history (p ∷ ps) n s s' v h =
    let last = number_after-failed p.attempt_number p.status n s s' h in
    (ground (arith, last.0, v), ground (arith, last.1, v))

-- An attempt with the next number, where no other is open or successful.
pub cons-IsSettled :
    (p : PaymentAttempt) (ps : List PaymentAttempt)
    → p.attempt_number ≡ length (filter (is_of_trip p.trip_id) ps) + 1
    → all (λ q. not (is_open_or_success q.status)) (filter (is_of_trip p.trip_id) ps) ≡ true
    → IsSettled ps
    → IsSettled (p ∷ ps)
cons-IsSettled p ps n a v t = elim (Bool-cases (text_eq p.trip_id t)) [
  | inl e ↦
      subst (λ x. is_history (filter (is_of_trip x) (p ∷ ps)) ≡ true) (text_eq→eq p.trip_id t e)
        (ground (arith, text_eq_refl p.trip_id, v p.trip_id, n, a))
  | inr e ↦ ground (arith, e, v t)
]

-- The table is as it was.
abbrev pub LeavesAttempts : {A : Type 0} → Work A → Type 0
LeavesAttempts work = Ensures work (λ s a s'. s'.payment_attempts ≡ s.payment_attempts)

any-filter :
    (f g : PaymentAttempt → Bool) (ps : List PaymentAttempt)
    → any (λ p. f p && g p) ps ≡ any g (filter f ps)
any-filter f g [] = refl
any-filter f g (p ∷ ps) = ground (arith, any-filter f g ps)

-- No attempt of a history has a number beyond its length.
history_numbers :
    (ps : List PaymentAttempt) (n : ℕ)
    → is_history ps ≡ true
    → length ps < n
    → any (λ p. p.attempt_number == n) ps ≡ false
history_numbers [] n v h = refl
history_numbers (p ∷ ps) n v h =
    ground (arith, v, h, history_numbers ps n (ground (arith, v)) (ground (arith, h)))

any-all :
    (ps : List PaymentAttempt)
    → all (λ q. not (is_open_or_success q.status)) ps ≡ true
    → any (λ q. is_open_or_success q.status) ps ≡ false
any-all [] h = refl
any-all (p ∷ ps) h = ground (arith, h, any-all ps)

-- The INSERT of the next attempt meets no other of its number, and no open or successful one.
pub next_attempt-free :
    (t : Uuid) (n : ℕ) (ps : List PaymentAttempt)
    → IsSettled ps
    → n ≡ length (filter (is_of_trip t) ps) + 1
    → all (λ q. not (is_open_or_success q.status)) (filter (is_of_trip t) ps) ≡ true
    → (any (λ p. text_eq p.trip_id t && p.attempt_number == n) ps ≡ false)
      × (any (λ p. text_eq p.trip_id t && is_open_or_success p.status) ps ≡ false)
next_attempt-free t n ps v h a = (
  any-filter (is_of_trip t) (λ p. p.attempt_number == n) ps
      ∙ history_numbers (filter (is_of_trip t) ps) n (v t) (ground (arith, h)),
  any-filter (is_of_trip t) (λ p. is_open_or_success p.status) ps
      ∙ any-all (filter (is_of_trip t) ps) a,
)
