-- ===== src/Dispatch/Ranking/Sort.antt =====
-- The stable sort of apps/api/src/dispatch/dispatch-ranking.ts: its result is sorted, and does not
-- depend on the order of its input.
use mathlib.Core.List.{Permᴰ, Perm}
use mathlib.Core.List.Perm
use gove.Prelude.{
  ◌≡◌, refl, sym, ap, ◌∙◌, Bool, true, false, List, [], ◌∷◌, arith, inl, inr, Bool-cases, All,
  filter,
}
use gove.Dispatch.Ranking.{DriverCandidate, compare_candidates, is_gt, insert, to_sorted}
use gove.Dispatch.Ranking.Order.{
  opposite, not_gt_trans, key, compare_keys-IsOrder, compare_candidates-keys,
  compare_candidates-same,
}

compare_candidates-flip :
    (c d : DriverCandidate) → compare_candidates d c ≡ opposite (compare_candidates c d)
compare_candidates-flip c d =
    compare_candidates-keys d c
    ∙ compare_keys-IsOrder.flip (key c) (key d)
    ∙ sym (ap opposite (compare_candidates-keys c d))

-- `c` does not come after `d`.
abbrev pub Precedes : DriverCandidate → DriverCandidate → Type 0
Precedes c d = is_gt (compare_candidates c d) ≡ false

pub Precedes-trans : (c d e : DriverCandidate) → Precedes c d → Precedes d e → Precedes c e
Precedes-trans c d e h k = rw (compare_candidates-keys c e) (
    not_gt_trans compare_keys-IsOrder (key c) (key d) (key e)
      (sym (ap is_gt (compare_candidates-keys c d)) ∙ h)
      (sym (ap is_gt (compare_candidates-keys d e)) ∙ k))

-- Each element precedes all that follow it.
abbrev pub IsSorted : List DriverCandidate → Type 0
IsSorted [] = Unit
IsSorted (c ∷ cs) = All (Precedes c) cs × IsSorted cs

insert_comm :
    (c d : DriverCandidate) (l : List DriverCandidate)
    → c.eligible ≡ d.eligible
    → insert c (insert d l) ≡ insert d (insert c l)
unfolding insert
insert_comm c d [] e = ground (arith, compare_candidates-flip c d, compare_candidates-same c d)
insert_comm c d (x ∷ l) e = ground (
  arith,
  compare_candidates-flip c d,
  compare_candidates-same c d,
  Precedes-trans c d x,
  Precedes-trans d c x,
  insert_comm c d l e,
)

pub sort_filter-perm :
    (p : DriverCandidate → Bool) {xs ys : List DriverCandidate}
    → ((c : DriverCandidate) → p c ≡ true → c.eligible ≡ true)
    → Permᴰ xs ys
    → to_sorted (filter p xs) ≡ to_sorted (filter p ys)
unfolding to_sorted
sort_filter-perm p e Permᴰ.nil = refl
sort_filter-perm p e (Permᴰ.cons {a} {b} h d) = ground (arith, sort_filter-perm p e d)
sort_filter-perm p e (Permᴰ.swap {a} {b} {a'} {b'} {l} h k) =
    ground (arith, e a, e b, insert_comm a b (to_sorted (filter p l)))
sort_filter-perm p e (Permᴰ.trans d d') = sort_filter-perm p e d ∙ sort_filter-perm p e d'

pub All-insert :
    (P : DriverCandidate → Type 0) (c : DriverCandidate) (l : List DriverCandidate)
    → P c
    → All P l
    → All P (insert c l)
unfolding insert
All-insert P c [] h hs = (h, tt)
All-insert P c (d ∷ l) h hs = ground (arith, All-insert P c l h hs.1)

Precedes-All :
    (c d : DriverCandidate) (l : List DriverCandidate)
    → Precedes c d
    → All (Precedes d) l
    → All (Precedes c) l
Precedes-All c d [] h hs = tt
Precedes-All c d (x ∷ l) h hs = (Precedes-trans c d x h hs.0, Precedes-All c d l h hs.1)

insert-IsSorted :
    (c : DriverCandidate) (l : List DriverCandidate) → IsSorted l → IsSorted (insert c l)
unfolding insert
insert-IsSorted c [] s = (tt, tt)
insert-IsSorted c (d ∷ l) s = elim (Bool-cases (is_gt (compare_candidates c d))) [
  | inl gt ↦ rw gt (
    All-insert (Precedes d) c l (ground (arith, compare_candidates-flip c d)) s.0,
    insert-IsSorted c l s.1,
  )
  | inr le ↦ rw le ((le, Precedes-All c d l le s.0), s)
]

pub to_sorted-IsSorted : (l : List DriverCandidate) → IsSorted (to_sorted l)
unfolding to_sorted
to_sorted-IsSorted [] = tt
to_sorted-IsSorted (c ∷ l) = insert-IsSorted c (to_sorted l) (to_sorted-IsSorted l)

insert-perm : (c : DriverCandidate) (l : List DriverCandidate) → Perm (insert c l) (c ∷ l)
unfolding insert
insert-perm c [] = Perm.refl (c ∷ [])
insert-perm c (d ∷ l) = elim (Bool-cases (is_gt (compare_candidates c d))) [
  | inl gt ↦ rw gt (Perm.trans (Perm.cons d (insert-perm c l)) (Perm.swap c d l))
  | inr le ↦ rw le (Perm.refl (c ∷ d ∷ l))
]

pub to_sorted-perm : (l : List DriverCandidate) → Perm (to_sorted l) l
unfolding to_sorted
to_sorted-perm [] = Perm.refl []
to_sorted-perm (c ∷ l) = Perm.trans (insert-perm c (to_sorted l)) (Perm.cons c (to_sorted-perm l))
