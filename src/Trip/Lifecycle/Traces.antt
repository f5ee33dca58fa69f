-- ===== src/Trip/Lifecycle/Traces.antt =====
-- Sequences of commands on apps/api/src/trip/domain/trip-lifecycle.ts.
use gove.Prelude.{
  ℕ, suc, ◌+◌, ◌*◌, ◌≤◌, ◌≡◌, subst, ◌⊎◌, inl, inr, Bool, true, false, some, List, [], ◌∷◌, arith,
  length, Result, ok, ◌>>=◌, bind_ok, if◌then◌else◌,
}
use gove.Contracts.{
  TripState, requested, matching, driver_to_pickup, at_pickup, in_progress, completed, cancelled,
  no_driver_available,
}
use gove.Trip.Lifecycle.{
  TripSnapshot, TripCommand, start_matching, assign_driver, exhaust_matching, mark_at_pickup,
  retry_matching, start_trip, complete_trip, cancel, TripTransitionError, transitions, apply,
}

-- The commands in order, up to the first refusal.
unfoldable pub apply_all : TripSnapshot → List TripCommand → Result TripTransitionError TripSnapshot
apply_all s [] = ok s
apply_all s (c ∷ cs) = apply s c >>= λ t. apply_all t cs

abbrev pub is_retry : TripCommand → Bool
is_retry retry_matching = true
is_retry _ = false

abbrev pub retries : List TripCommand → ℕ
retries [] = 0
retries (c ∷ cs) = let rest = retries cs in if is_retry c then suc rest else rest

-- How far a Trip has come.
abbrev progress : TripState → ℕ
progress requested = 0
progress matching = 1
progress driver_to_pickup = 2
progress at_pickup = 3
progress in_progress = 4
progress _ = 5

apply-progress :
    (s : TripSnapshot) (c : TripCommand) {t : TripSnapshot}
    → apply s c ≡ ok t
    → (t.version ≡ s.version + 1)
      × (suc (progress s.state) ≤ progress t.state + (if is_retry c then 2 else 0))
unfolding apply
apply-progress s c h = ground arith

apply_all-progress :
    (s : TripSnapshot) (cs : List TripCommand) {t : TripSnapshot}
    → apply_all s cs ≡ ok t
    → (t.version ≡ s.version + length cs)
      × (length cs + progress s.state ≤ progress t.state + 2 * retries cs)
unfolding apply_all
apply_all-progress s [] h = ground arith
apply_all-progress s (c ∷ cs) h =
    bind_ok (apply s c) (λ u. apply_all u cs) h
      λ u p q. ground (arith, apply-progress s c p, apply_all-progress u cs q)

progress-le : (s : TripState) → progress s ≤ 5
progress-le requested = omega arith
progress-le _ = omega arith

-- A sequence of accepted commands raises the version by its length, and it has at most five
-- commands plus two for each RETRY_MATCHING among them: without retries every Trip ends.
pub apply_all_bounded :
    (s : TripSnapshot) (cs : List TripCommand) {t : TripSnapshot}
    → apply_all s cs ≡ ok t
    → (t.version ≡ s.version + length cs) × (length cs ≤ 5 + 2 * retries cs)
apply_all_bounded s cs {t} h = omega (arith, apply_all-progress s cs h, progress-le t.state)

-- The commands that have still to be given, in this order, before the Trip can be COMPLETED.
abbrev pub required : TripState → List TripCommand
required requested =
    start_matching ∷ assign_driver ∷ mark_at_pickup ∷ start_trip ∷ complete_trip ∷ []
required matching = assign_driver ∷ mark_at_pickup ∷ start_trip ∷ complete_trip ∷ []
required driver_to_pickup = mark_at_pickup ∷ start_trip ∷ complete_trip ∷ []
required at_pickup = start_trip ∷ complete_trip ∷ []
required in_progress = complete_trip ∷ []
required _ = []

-- The first list is found in the second in its order, other commands between.
pub data IsSubsequence : List TripCommand → List TripCommand → Type 0 where
  done : {cs : List TripCommand} → IsSubsequence [] cs
  keep :
      {c : TripCommand} {rs cs : List TripCommand}
      → IsSubsequence rs cs
      → IsSubsequence (c ∷ rs) (c ∷ cs)
  skip :
      {c : TripCommand} {rs cs : List TripCommand} → IsSubsequence rs cs → IsSubsequence rs (c ∷ cs)

IsSubsequence-tail :
    {r : TripCommand} {rs cs : List TripCommand} → IsSubsequence (r ∷ rs) cs → IsSubsequence rs cs
IsSubsequence-tail (keep h) = skip h
IsSubsequence-tail (skip h) = skip (IsSubsequence-tail h)

abbrev IsAbandoned : TripState → Type 0
IsAbandoned s = (s ≡ cancelled) ⊎ (s ≡ no_driver_available)

same_state : {u v : TripState} → some v ≡ some u → u ≡ v
same_state h = cc

required-transitions :
    (s : TripState) (c : TripCommand) (u : TripState) (cs : List TripCommand)
    → transitions s c ≡ some u
    → ¬ IsAbandoned u
    → IsSubsequence (required u) cs
    → IsSubsequence (required s) (c ∷ cs)
unfolding transitions
required-transitions requested start_matching u cs h live sub =
    keep (subst (λ v. IsSubsequence (required v) cs) (same_state h) sub)
required-transitions requested cancel u cs h live sub = absurd (live (inl (same_state h)))
required-transitions matching assign_driver u cs h live sub =
    keep (subst (λ v. IsSubsequence (required v) cs) (same_state h) sub)
required-transitions matching exhaust_matching u cs h live sub = absurd (live (inr (same_state h)))
required-transitions matching cancel u cs h live sub = absurd (live (inl (same_state h)))
required-transitions driver_to_pickup mark_at_pickup u cs h live sub =
    keep (subst (λ v. IsSubsequence (required v) cs) (same_state h) sub)
required-transitions driver_to_pickup retry_matching u cs h live sub =
    skip (IsSubsequence-tail (subst (λ v. IsSubsequence (required v) cs) (same_state h) sub))
required-transitions driver_to_pickup cancel u cs h live sub = absurd (live (inl (same_state h)))
required-transitions at_pickup start_trip u cs h live sub =
    keep (subst (λ v. IsSubsequence (required v) cs) (same_state h) sub)
required-transitions at_pickup cancel u cs h live sub = absurd (live (inl (same_state h)))
required-transitions in_progress complete_trip u cs h live sub = keep done
required-transitions in_progress cancel u cs h live sub = absurd (live (inl (same_state h)))
required-transitions _ _ u cs h live sub = cc

apply-transitions :
    (s : TripSnapshot) (c : TripCommand) {t : TripSnapshot}
    → apply s c ≡ ok t
    → transitions s.state c ≡ some t.state
unfolding apply
apply-transitions s c h = ground arith

apply_all-IsAbandoned :
    (s : TripSnapshot) (cs : List TripCommand) {t : TripSnapshot}
    → apply_all s cs ≡ ok t
    → IsAbandoned s.state
    → t.state ≡ s.state
unfolding apply_all apply
apply_all-IsAbandoned s [] h a = ground arith
apply_all-IsAbandoned s (c ∷ cs) h a = ground arith

-- A Trip becomes COMPLETED only by way of every stage that its state has still before it: from
-- REQUESTED, the accepted commands contain START_MATCHING, ASSIGN_DRIVER, MARK_AT_PICKUP,
-- START_TRIP and COMPLETE_TRIP in this order.
pub required-IsSubsequence :
    (s : TripSnapshot) (cs : List TripCommand) {t : TripSnapshot}
    → apply_all s cs ≡ ok t
    → t.state ≡ completed
    → IsSubsequence (required s.state) cs
unfolding apply_all
required-IsSubsequence s [] h e =
    let e' : completed ≡ s.state = ground arith in
    subst (λ v. IsSubsequence (required v) []) e' done
required-IsSubsequence s (c ∷ cs) {t} h e =
    bind_ok (apply s c) (λ u. apply_all u cs) h
      λ u p q.
        required-transitions s.state c u.state cs (apply-transitions s c p)
          (λ a. grind (arith, apply_all-IsAbandoned u cs q a)) (required-IsSubsequence u cs q e)
