-- ===== src/Dispatch/Ranking/Tests.antt =====
-- The ranking of apps/api/src/dispatch/dispatch-ranking.ts on three candidates.
use mathlib.Core.List.{Perm}
use mathlib.Core.List.Perm
use gove.Prelude.{◌≡◌, refl, true, [], ◌∷◌, ok}
use gove.Prelude.Int.{pos, finite}
use gove.Dispatch.Ranking.{
  DriverCandidate, DispatchRankingOptions, validate_options, validate_all, validate_candidate,
  may_be_offered, difference, compare_driver_ids, compare_candidates, to_sorted,
  rank_eligible_driver_candidates,
}
use gove.Dispatch.Ranking.Laws.{rank-perm}

abbrev options : DispatchRankingOptions
options = record { max_freshness_age_seconds = finite (pos 15) }

abbrev near : DriverCandidate
near = record {
  driver_id = 98 ∷ [];
  distance_meters = finite (pos 100);
  freshness_age_seconds = finite (pos 5);
  eligible = true;
}

abbrev twin : DriverCandidate
twin = record {
  driver_id = 97 ∷ [];
  distance_meters = finite (pos 100);
  freshness_age_seconds = finite (pos 5);
  eligible = true;
}

abbrev stale : DriverCandidate
stale = record {
  driver_id = 99 ∷ [];
  distance_meters = finite (pos 10);
  freshness_age_seconds = finite (pos 16);
  eligible = true;
}

rank-three :
    rank_eligible_driver_candidates (near ∷ twin ∷ stale ∷ []) options ≡ ok (twin ∷ near ∷ [])
unfolding rank_eligible_driver_candidates validate_options validate_all validate_candidate
    may_be_offered difference compare_driver_ids compare_candidates to_sorted
rank-three = refl

rank-perm_example :
    rank_eligible_driver_candidates (twin ∷ near ∷ stale ∷ []) options ≡ ok (twin ∷ near ∷ [])
rank-perm_example =
    rank-perm (near ∷ twin ∷ stale ∷ []) (twin ∷ near ∷ stale ∷ []) options
      (Perm.swap twin near (stale ∷ [])) rank-three
