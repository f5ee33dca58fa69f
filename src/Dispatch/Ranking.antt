-- ===== src/Dispatch/Ranking.antt =====
-- apps/api/src/dispatch/dispatch-ranking.ts: the order in which candidates get an offer.
-- `toSorted` is a stable sort; a stable sort is determined by its comparator, and here it is
-- insertion. `eligible` is a Boolean by its type, so the last test of validateCandidate cannot fail.
pub mod Order
pub mod Sort
pub mod Measures
pub mod Laws
mod Tests
use Prim.Native.Nat.{compare, Ordering}
use gove.Prelude.{
  ℕ, ◌+◌, Bool, true, false, ◌&&◌, ◌||◌, not, List, [], ◌∷◌, filter, Result, ok, err, ◌>>=◌, ◌>>◌,
  throw_if, if◌then◌else◌,
}
use gove.Prelude.Int.{ℤ, pos, negsuc, pos_part, neg_part, Double, finite, not_finite}
use gove.Prelude.Text.{Text, is_blank, text_eq, text_lt}

pub record DriverCandidate : Type 0 where
  pub driver_id : Text
  pub distance_meters : Double
  pub freshness_age_seconds : Double
  pub eligible : Bool

pub record DispatchRankingOptions : Type 0 where
  pub max_freshness_age_seconds : Double

-- DispatchRankingInputError, by its message.
pub data DispatchRankingInputError : Type 0 where
  driver_id_empty max_freshness_age_invalid distance_invalid freshness_age_invalid :
      DispatchRankingInputError

unfoldable pub assert_non_negative_finite_number :
    Double → DispatchRankingInputError → Result DispatchRankingInputError (Unit {0})
assert_non_negative_finite_number (finite (pos n)) name = ok tt
assert_non_negative_finite_number _ name = err name

unfoldable pub validate_options :
    DispatchRankingOptions → Result DispatchRankingInputError (Unit {0})
unfolding assert_non_negative_finite_number
validate_options options =
    assert_non_negative_finite_number options.max_freshness_age_seconds max_freshness_age_invalid

unfoldable pub validate_candidate : DriverCandidate → Result DispatchRankingInputError (Unit {0})
unfolding assert_non_negative_finite_number is_blank
validate_candidate candidate = do
  throw_if (is_blank candidate.driver_id) driver_id_empty
  assert_non_negative_finite_number candidate.distance_meters distance_invalid
  assert_non_negative_finite_number candidate.freshness_age_seconds freshness_age_invalid

-- `candidates.forEach(validateCandidate)`
unfoldable pub validate_all : List DriverCandidate → Result DispatchRankingInputError (Unit {0})
validate_all [] = ok tt
validate_all (c ∷ cs) = validate_candidate c >> validate_all cs

abbrev pub compare_ℤ : ℤ → ℤ → Ordering
compare_ℤ a b = compare (pos_part a + neg_part b) (pos_part b + neg_part a)

-- The sign of `left - right`, which doubles get right by gradual underflow. A value that is not
-- finite has failed validation before; it is placed last.
unfoldable pub difference : Double → Double → Ordering
difference (finite a) (finite b) = compare_ℤ a b
difference (finite a) not_finite = Ordering.lt
difference not_finite (finite b) = Ordering.gt
difference not_finite not_finite = Ordering.eq

unfoldable pub compare_driver_ids : Text → Text → Ordering
compare_driver_ids left right =
    if text_eq left right
    then Ordering.eq
    else if text_lt left right
    then Ordering.lt
    else Ordering.gt

-- `a || b` on comparison results
abbrev pub or_then : Ordering → Ordering → Ordering
or_then Ordering.eq other = other
or_then Ordering.lt other = Ordering.lt
or_then Ordering.gt other = Ordering.gt

unfoldable pub compare_candidates : DriverCandidate → DriverCandidate → Ordering
compare_candidates left right = or_then (difference left.distance_meters right.distance_meters) (
    or_then (difference left.freshness_age_seconds right.freshness_age_seconds)
      (compare_driver_ids left.driver_id right.driver_id))

abbrev pub is_gt : Ordering → Bool
is_gt Ordering.gt = true
is_gt _ = false

-- A candidate goes before the first one that it does not exceed.
unfoldable pub insert : DriverCandidate → List DriverCandidate → List DriverCandidate
insert c [] = c ∷ []
insert c (d ∷ ds) =
    let rest = insert c ds in if is_gt (compare_candidates c d) then d ∷ rest else c ∷ d ∷ ds

-- `toSorted(compareCandidates)`
unfoldable pub to_sorted : List DriverCandidate → List DriverCandidate
unfolding insert
to_sorted [] = []
to_sorted (c ∷ cs) = insert c (to_sorted cs)

-- The test of the filter.
unfoldable pub may_be_offered : DispatchRankingOptions → DriverCandidate → Bool
may_be_offered options candidate =
    candidate.eligible
    && not (is_gt (difference candidate.freshness_age_seconds options.max_freshness_age_seconds))

unfoldable pub rank_eligible_driver_candidates :
    List DriverCandidate
    → DispatchRankingOptions
    → Result DispatchRankingInputError (List DriverCandidate)
rank_eligible_driver_candidates candidates options = do
  validate_options options
  validate_all candidates
  ok (to_sorted (filter (may_be_offered options) candidates))
