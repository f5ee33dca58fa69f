-- ===== src/Dispatch/Ranking/Laws.antt =====
-- What rankEligibleDriverCandidates of apps/api/src/dispatch/dispatch-ranking.ts returns.
use mathlib.Core.List.{Permᴰ, Perm}
use mathlib.Core.Logic.{∥∥₁_elim}
use gove.Prelude.{◌≡◌, sym, ap, ◌∙◌, true, List, arith, Result, ok, bind_ok}
use gove.Dispatch.Ranking.{
  DriverCandidate, DispatchRankingOptions, DispatchRankingInputError, validate_options,
  validate_all, may_be_offered, rank_eligible_driver_candidates,
}
use gove.Dispatch.Ranking.Sort.{sort_filter-perm}

validate_all-perm :
    {cs ds : List DriverCandidate} → Permᴰ cs ds → validate_all cs ≡ ok tt → validate_all ds ≡ ok tt
unfolding validate_all
validate_all-perm Permᴰ.nil h = h
validate_all-perm (Permᴰ.cons {a} {b} e d) h = ground (arith, validate_all-perm d)
validate_all-perm (Permᴰ.swap {a} {b} {a'} {b'} {l} e f) h = ground arith
validate_all-perm (Permᴰ.trans d d') h = validate_all-perm d' (validate_all-perm d h)

may_be_offered-eligible :
    (options : DispatchRankingOptions) (c : DriverCandidate)
    → may_be_offered options c ≡ true
    → c.eligible ≡ true
unfolding may_be_offered
may_be_offered-eligible options c h = ground arith

rank-permᴰ :
    (cs ds : List DriverCandidate) (options : DispatchRankingOptions)
    {ranked : List DriverCandidate}
    → Permᴰ cs ds
    → rank_eligible_driver_candidates cs options ≡ ok ranked
    → rank_eligible_driver_candidates ds options ≡ ok ranked
unfolding rank_eligible_driver_candidates
rank-permᴰ cs ds options {ranked} d h = bind_ok (validate_options options) _ h λ _ ho h1.
    bind_ok (validate_all cs) _ h1 λ _ hc h2.
      rw (ho, validate_all-perm d hc)
        (ap ok (sym (sort_filter-perm (may_be_offered options) (may_be_offered-eligible options) d))
          ∙ h2)

Ranked-set : IsSet (Result DispatchRankingInputError (List DriverCandidate))
Ranked-set = hlevel

-- The ranking is deterministic: the order in which the database returned the candidates does not
-- show in the result, not even where two candidates agree in all that is compared.
pub rank-perm :
    (cs ds : List DriverCandidate) (options : DispatchRankingOptions)
    {ranked : List DriverCandidate}
    → Perm cs ds
    → rank_eligible_driver_candidates cs options ≡ ok ranked
    → rank_eligible_driver_candidates ds options ≡ ok ranked
rank-perm cs ds options p h = ∥∥₁_elim p (Ranked-set _ _) (λ d. rank-permᴰ cs ds options d h)
