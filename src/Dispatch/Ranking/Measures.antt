-- ===== src/Dispatch/Ranking/Measures.antt =====
-- The order of apps/api/src/dispatch/dispatch-ranking.ts in numbers: what the comparator means on
-- candidates that have passed validation.
use gove.Prelude.{
  ◌≡◌, refl, ℕ, ◌<◌, ◌⊎◌, Bool, false, ◌&&◌, List, [], ◌∷◌, arith, All, filter, ok, leb,
}
use gove.Prelude.Int.{pos, negsuc, Double, finite, not_finite}
use gove.Prelude.Text.{text_lt, text_eq→eq}
use gove.Dispatch.Ranking.{
  DriverCandidate, DispatchRankingOptions, DispatchRankingInputError,
  assert_non_negative_finite_number, validate_options, validate_candidate, validate_all,
  may_be_offered, difference, compare_driver_ids, compare_candidates, to_sorted,
}
use gove.Dispatch.Ranking.Order.{text_lt-flip, text_lt_irrefl}
use gove.Dispatch.Ranking.Sort.{Precedes, IsSorted, All-insert}

-- A measure that is finite and not negative, in units of 2^-1074.
abbrev pub units : Double → ℕ
units (finite (pos n)) = n
units _ = 0

-- Nearer; or as near and fresher; or as near and as fresh, and not later by Driver id.
abbrev pub Outranks : DriverCandidate → DriverCandidate → Type 0
Outranks c d =
    (units c.distance_meters < units d.distance_meters)
    ⊎ ((units c.distance_meters ≡ units d.distance_meters)
        × ((units c.freshness_age_seconds < units d.freshness_age_seconds)
            ⊎ ((units c.freshness_age_seconds ≡ units d.freshness_age_seconds)
                × (text_lt d.driver_id c.driver_id ≡ false))))

-- Each candidate outranks all that follow it.
abbrev pub IsRanked : List DriverCandidate → Type 0
IsRanked [] = Unit
IsRanked (c ∷ cs) = All (Outranks c) cs × IsRanked cs

-- The candidate is eligible, and its report is no older than the options allow.
abbrev pub is_recent : DispatchRankingOptions → DriverCandidate → Bool
is_recent options c =
    c.eligible && leb (units c.freshness_age_seconds) (units options.max_freshness_age_seconds)

-- Both measures are finite and not negative.
abbrev pub IsMeasured : DriverCandidate → Type 0
IsMeasured c =
    (c.distance_meters ≡ finite (pos (units c.distance_meters)))
    × (c.freshness_age_seconds ≡ finite (pos (units c.freshness_age_seconds)))

assert_measure :
    (x : Double) (e : DispatchRankingInputError) {u : Unit {0}}
    → assert_non_negative_finite_number x e ≡ ok u
    → x ≡ finite (pos (units x))
unfolding assert_non_negative_finite_number
assert_measure (finite (pos n)) e h = refl
assert_measure (finite (negsuc n)) e h = cc
assert_measure not_finite e h = cc

validate_candidate-IsMeasured :
    (c : DriverCandidate) {u : Unit {0}} → validate_candidate c ≡ ok u → IsMeasured c
unfolding validate_candidate
validate_candidate-IsMeasured c h = (
  ground (arith, assert_measure c.distance_meters DispatchRankingInputError.distance_invalid),
  ground (
    arith,
    assert_measure c.freshness_age_seconds DispatchRankingInputError.freshness_age_invalid,
  ),
)

pub validate_all-IsMeasured :
    (cs : List DriverCandidate) → validate_all cs ≡ ok tt → All IsMeasured cs
unfolding validate_all
validate_all-IsMeasured [] h = tt
validate_all-IsMeasured (c ∷ cs) h =
    (ground (arith, validate_candidate-IsMeasured c), validate_all-IsMeasured cs (ground arith))

Precedes-Outranks :
    (c d : DriverCandidate) → IsMeasured c → IsMeasured d → Precedes c d → Outranks c d
unfolding compare_candidates difference compare_driver_ids
Precedes-Outranks c d m n h = ground (
  arith,
  m,
  n,
  text_eq→eq c.driver_id d.driver_id,
  text_lt-flip c.driver_id d.driver_id,
  text_lt_irrefl c.driver_id,
)

All-Outranks :
    (c : DriverCandidate) (l : List DriverCandidate)
    → IsMeasured c
    → All IsMeasured l
    → All (Precedes c) l
    → All (Outranks c) l
All-Outranks c [] m n h = tt
All-Outranks c (d ∷ l) m n h = (Precedes-Outranks c d m n.0 h.0, All-Outranks c l m n.1 h.1)

IsSorted-IsRanked : (l : List DriverCandidate) → All IsMeasured l → IsSorted l → IsRanked l
IsSorted-IsRanked [] m s = tt
IsSorted-IsRanked (c ∷ l) m s = (All-Outranks c l m.0 m.1 s.0, IsSorted-IsRanked l m.1 s.1)

All-to_sorted : (l : List DriverCandidate) → All IsMeasured l → All IsMeasured (to_sorted l)
unfolding to_sorted
All-to_sorted [] m = tt
All-to_sorted (c ∷ l) m = All-insert IsMeasured c (to_sorted l) m.0 (All-to_sorted l m.1)

All-filter :
    (p : DriverCandidate → Bool) (l : List DriverCandidate)
    → All IsMeasured l
    → All IsMeasured (filter p l)
All-filter p [] m = tt
All-filter p (c ∷ l) m = ground (arith, m.0, All-filter p l m.1)

may_be_offered-is_recent :
    (options : DispatchRankingOptions) (c : DriverCandidate)
    → validate_options options ≡ ok tt
    → IsMeasured c
    → may_be_offered options c ≡ is_recent options c
unfolding may_be_offered validate_options difference
may_be_offered-is_recent options c h m = ground (
  arith,
  m.1,
  assert_measure options.max_freshness_age_seconds
      DispatchRankingInputError.max_freshness_age_invalid,
)

-- The filter keeps the recent candidates.
pub filter-is_recent :
    (options : DispatchRankingOptions) (l : List DriverCandidate)
    → validate_options options ≡ ok tt
    → All IsMeasured l
    → filter (may_be_offered options) l ≡ filter (is_recent options) l
filter-is_recent options [] h m = refl
filter-is_recent options (c ∷ l) h m =
    ground (arith, may_be_offered-is_recent options c h m.0, filter-is_recent options l h m.1)

-- The sorted candidates are ranked.
pub to_sorted-IsRanked :
    (p : DriverCandidate → Bool) (l : List DriverCandidate)
    → All IsMeasured l
    → IsSorted (to_sorted (filter p l))
    → IsRanked (to_sorted (filter p l))
to_sorted-IsRanked p l m =
    IsSorted-IsRanked (to_sorted (filter p l)) (All-to_sorted (filter p l) (All-filter p l m))
