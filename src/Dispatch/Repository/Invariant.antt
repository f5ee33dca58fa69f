-- ===== src/Dispatch/Repository/Invariant.antt =====
-- The commands of apps/api/src/dispatch/dispatch.repository.ts keep the Offers bounded and the
-- reservations exclusive.
use gove.Contracts.{reserved}
use gove.Prelude.{
  ◌≡◌, refl, sym, ap, ◌∙◌, ℕ, ◌+◌, ◌≤◌, Bool, true, false, not, List, [], ◌∷◌, Option, none, some,
  Result, ok, err, if◌then◌else◌, ltb, ◌==◌, arith, map,
}
use gove.Database.{◌>>=◌, pure, gets, or_throw}
use gove.Database.Laws.{Ensures, Keeps, bind_ends, ok_state, ok_value, bind-Keeps}
use gove.Dispatch.Ranking.{DriverCandidate, rank_eligible_driver_candidates}
use gove.Dispatch.ExpiryPolicy.{released}
use gove.Dispatch.Tables.{Uuid, Reservation, Env, Thrown, Work, ranking_error}
use gove.Dispatch.Repository.{
  location_freshness_seconds, max_offer_attempts, OfferRow, update_reservations,
  release_reservation,
}
use gove.Dispatch.Repository.Matching.{
  ReserveInput, max_attempt, next_attempt, to_double, select_candidates, to_candidate,
  reserve_candidate, reserve_candidates, reserve_next_offer,
}
use gove.Dispatch.Repository.Validity.{
  IsValid, Frames, Frames-Keeps, pure-Frames, gets-Frames, update_free-Keeps,
  update_work_states-offers, append_trip_outbox-Frames, update_reservations-Keeps,
  insert_reservation-Keeps, insert_reservation-offers, insert_offer-Keeps,
}

-- The work keeps the invariant when `attempt` is the next attempt of the Trip.
abbrev Reserves : {A : Type 0} → Uuid → ℕ → Work A → Type 0
Reserves trip_id attempt work =
    Ensures work (λ s a s'. next_attempt trip_id s ≡ attempt → IsValid s → IsValid s')

bind-Reserves :
    {A B : Type 0} (trip_id : Uuid) (attempt : ℕ) (work : Work A) (next : A → Work B)
    → Keeps IsValid work
    → Ensures work (λ s a s'. s'.offers ≡ s.offers)
    → ((a : A) → Reserves trip_id attempt (next a))
    → Reserves trip_id attempt (work >>= next)
unfolding next_attempt
bind-Reserves trip_id attempt work next f o g s b s' h n v =
    bind_ends work next h λ a t e e'.
      g a t b s' e' (ap (λ os. max_attempt trip_id os + 1) (o s a t e) ∙ n) (f s a t e v)

framed-Reserves :
    {A B : Type 0} (trip_id : Uuid) (attempt : ℕ) (work : Work A) (next : A → Work B)
    → Frames work
    → ((a : A) → Reserves trip_id attempt (next a))
    → Reserves trip_id attempt (work >>= next)
framed-Reserves trip_id attempt work next f g =
    bind-Reserves trip_id attempt work next (Frames-Keeps work f) (λ s a s' h. (f s a s' h).0) g

if-Reserves :
    {A : Type 0} (trip_id : Uuid) (attempt : ℕ) (c : Bool) (x y : Work A)
    → (c ≡ true → Reserves trip_id attempt x)
    → (c ≡ false → Reserves trip_id attempt y)
    → Reserves trip_id attempt (if c then x else y)
if-Reserves trip_id attempt true x y f g = f refl
if-Reserves trip_id attempt false x y f g = g refl

-- What keeps the invariant anyway.
Keeps-Reserves :
    {A : Type 0} (trip_id : Uuid) (attempt : ℕ) (work : Work A)
    → Keeps IsValid work
    → Reserves trip_id attempt work
Keeps-Reserves trip_id attempt work f s a s' h n v = f s a s' h v

release_reservation-Keeps : (env : Env) (id : Uuid) → Keeps IsValid (release_reservation env id)
unfolding release_reservation
release_reservation-Keeps env id = update_reservations-Keeps _ env released refl

release_reservation-offers :
    (env : Env) (id : Uuid) → Ensures (release_reservation env id) (λ s a s'. s'.offers ≡ s.offers)
unfolding release_reservation update_reservations
release_reservation-offers env id s a s' h = ground arith

reserve_candidate-Reserves :
    (env : Env) (input : ReserveInput) (attempt : ℕ) (d : Uuid) (next : Work (Option OfferRow))
    (r : Option Reservation)
    → attempt ≤ max_offer_attempts
    → Reserves input.trip_id attempt next
    → Reserves input.trip_id attempt (reserve_candidate env input attempt d next r)
unfolding reserve_candidate
reserve_candidate-Reserves env input attempt d next none k f = f
reserve_candidate-Reserves env input attempt d next (some r) k f =
    bind-Reserves _ _ _ _
      (update_free-Keeps _ env reserved (some input.trip_id) (λ w h. ground (arith, h)) refl)
      (update_work_states-offers _ _)
      λ row_count.
        if-Reserves _ _ (not (row_count == 1)) _ _
          (λ lost.
            bind-Reserves _ _ _ _ (release_reservation-Keeps env r.id)
              (release_reservation-offers env r.id) λ done. f)
          (λ held s b s' h n v. bind_ends _ _ h λ row t e e'.
            bind-Keeps _ _ (Frames-Keeps _ (append_trip_outbox-Frames _ _ _))
              (λ sent. Frames-Keeps _ (pure-Frames (some row))) t b s' e'
              (insert_offer-Keeps env input attempt r d k s row t e n v))

reserve_candidates-Reserves :
    (env : Env) (input : ReserveInput) (attempt : ℕ) (cs : List DriverCandidate)
    → attempt ≤ max_offer_attempts
    → Reserves input.trip_id attempt (reserve_candidates env input attempt cs)
unfolding reserve_candidates
reserve_candidates-Reserves env input attempt [] k s a s' h n v =
    Frames-Keeps _ (pure-Frames none) s a s' h v
reserve_candidates-Reserves env input attempt (c ∷ cs) k s a s' h n v =
    bind-Reserves input.trip_id attempt _ _ (insert_reservation-Keeps env c.driver_id input.trip_id)
      (insert_reservation-offers env c.driver_id input.trip_id)
      (λ r.
        reserve_candidate-Reserves env input attempt c.driver_id _ r k
          (reserve_candidates-Reserves env input attempt cs k))
      s a s' h n v

pub or_throw-Frames : {A B : Type 0} (r : Result B A) (wrap : B → Thrown) → Frames (or_throw r wrap)
or_throw-Frames (ok a) wrap s b s' h = pure-Frames a s b s' h
or_throw-Frames (err e) wrap s b s' h = ground arith

-- The rest of reserveNextOffer once the attempt is within the bound.
reserve_ranked-Reserves :
    (env : Env) (input : ReserveInput) (attempt : ℕ)
    → Reserves input.trip_id attempt (
        if ltb max_offer_attempts attempt
        then pure none
        else gets (select_candidates env input.excluded_driver_user_id input.trip_id)
          >>= λ candidates.
              or_throw
                (rank_eligible_driver_candidates
                  (map to_candidate candidates)
                  (record { max_freshness_age_seconds = to_double location_freshness_seconds }))
                ranking_error
              >>= reserve_candidates env input attempt)
reserve_ranked-Reserves env input attempt =
    if-Reserves _ _ (ltb max_offer_attempts attempt) _ _
      (λ over. Keeps-Reserves _ _ _ (Frames-Keeps _ (pure-Frames none)))
      (λ within. framed-Reserves _ _ _ _ (gets-Frames _) λ candidates.
        framed-Reserves _ _ _ _ (or_throw-Frames _ _)
          λ ranked. reserve_candidates-Reserves env input attempt ranked (ground (arith, within)))

pub reserve_next_offer-Keeps :
    (env : Env) (input : ReserveInput) → Keeps IsValid (reserve_next_offer env input)
unfolding reserve_next_offer
reserve_next_offer-Keeps env input s b s' h v = bind_ends _ _ h λ attempt t e e'.
    reserve_ranked-Reserves env input attempt t b s' e'
      (ap (next_attempt input.trip_id) (sym (ok_state e)) ∙ ok_value e)
      (Frames-Keeps _ (gets-Frames (next_attempt input.trip_id)) s attempt t e v)
