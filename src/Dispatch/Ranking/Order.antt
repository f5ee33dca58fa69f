-- ===== src/Dispatch/Ranking/Order.antt =====
-- The comparison of candidates in apps/api/src/dispatch/dispatch-ranking.ts is a total order on
-- distance, freshness and Driver id.
use Prim.Native.Nat.{Ordering}
use gove.Prelude.{◌≡◌, refl, sym, ◌∙◌, true, false, arith, [], ◌∷◌, if◌then◌else◌}
use gove.Prelude.Int.{pos, negsuc, Double, finite, not_finite}
use gove.Prelude.Text.{Text, text_eq, text_lt, text_eq→eq, text_eq-sym}
use gove.Dispatch.Ranking.{
  DriverCandidate, difference, compare_driver_ids, or_then, is_gt, compare_candidates,
}

abbrev pub opposite : Ordering → Ordering
opposite Ordering.lt = Ordering.gt
opposite Ordering.eq = Ordering.eq
opposite Ordering.gt = Ordering.lt

-- A comparison that is a strict total order with equality.
pub record IsOrder {A : Type 0} (cmp : A → A → Ordering) : Type 0 where
  pub flip : (x y : A) → cmp y x ≡ opposite (cmp x y)
  pub same : (x y : A) → cmp x y ≡ Ordering.eq → x ≡ y
  pub trans : (x y z : A) → cmp x y ≡ Ordering.lt → cmp y z ≡ Ordering.lt → cmp x z ≡ Ordering.lt

pub not_gt_trans :
    {A : Type 0} {cmp : A → A → Ordering} (o : IsOrder cmp) (x y z : A)
    → is_gt (cmp x y) ≡ false
    → is_gt (cmp y z) ≡ false
    → is_gt (cmp x z) ≡ false
not_gt_trans o x y z h k = ground (arith, o.same x y, o.same y z, o.trans x y z)

abbrev pub lexicographic :
    {A B : Type 0} → (A → A → Ordering) → (B → B → Ordering) → A × B → A × B → Ordering
lexicographic c d x y = or_then (c x.0 y.0) (d x.1 y.1)

lexicographic-IsOrder :
    {A B : Type 0} {c : A → A → Ordering} {d : B → B → Ordering}
    → IsOrder c
    → IsOrder d
    → IsOrder (lexicographic c d)
lexicographic-IsOrder o p = record {
  flip = λ x y. ground (arith, o.flip x.0 y.0, p.flip x.1 y.1);
  same = λ x y h. ground (arith, o.same x.0 y.0, p.same x.1 y.1);
  trans = λ x y z h k.
      ground (arith, o.same x.0 y.0, o.same y.0 z.0, o.trans x.0 y.0 z.0, p.trans x.1 y.1 z.1);
}

difference-IsOrder : IsOrder difference
unfolding difference
difference-IsOrder = record { flip = flip; same = same; trans = trans }
  where
    flip : (x y : Double) → difference y x ≡ opposite (difference x y)
    flip (finite a) (finite b) = ground arith
    flip (finite a) not_finite = refl
    flip not_finite (finite b) = refl
    flip not_finite not_finite = refl

    same : (x y : Double) → difference x y ≡ Ordering.eq → x ≡ y
    same (finite (pos a)) (finite (pos b)) h = ground arith
    same (finite (pos a)) (finite (negsuc b)) h = ground arith
    same (finite (negsuc a)) (finite (pos b)) h = ground arith
    same (finite (negsuc a)) (finite (negsuc b)) h = ground arith
    same (finite a) not_finite h = cc
    same not_finite (finite b) h = cc
    same not_finite not_finite h = refl

    trans :
        (x y z : Double)
        → difference x y ≡ Ordering.lt
        → difference y z ≡ Ordering.lt
        → difference x z ≡ Ordering.lt
    trans (finite a) (finite b) (finite c) h k = ground arith
    trans (finite a) (finite b) not_finite h k = refl
    trans x not_finite (finite c) h k = cc
    trans x not_finite not_finite h k = cc
    trans not_finite (finite b) z h k = cc

pub text_lt-flip :
    (s t : Text) → text_eq s t ≡ false → text_lt t s ≡ (if text_lt s t then false else true)
text_lt-flip [] [] h = cc
text_lt-flip [] (d ∷ t) h = refl
text_lt-flip (c ∷ s) [] h = refl
text_lt-flip (c ∷ s) (d ∷ t) h = ground (arith, text_lt-flip s t)

text_lt_trans : (s t u : Text) → text_lt s t ≡ true → text_lt t u ≡ true → text_lt s u ≡ true
text_lt_trans [] [] u h k = cc
text_lt_trans [] (d ∷ t) [] h k = cc
text_lt_trans [] (d ∷ t) (e ∷ u) h k = refl
text_lt_trans (c ∷ s) [] u h k = cc
text_lt_trans (c ∷ s) (d ∷ t) [] h k = cc
text_lt_trans (c ∷ s) (d ∷ t) (e ∷ u) h k = ground (arith, text_lt_trans s t u)

pub text_lt_irrefl : (s : Text) → text_lt s s ≡ false
text_lt_irrefl [] = refl
text_lt_irrefl (c ∷ s) = ground (arith, text_lt_irrefl s)

compare_driver_ids-IsOrder : IsOrder compare_driver_ids
unfolding compare_driver_ids
compare_driver_ids-IsOrder = record {
  flip = λ s t. ground (arith, text_eq-sym s t, text_lt-flip s t);
  same = λ s t h. ground (arith, text_eq→eq s t);
  trans = λ s t u h k.
      ground (arith, text_lt_trans s t u, text_eq→eq s u, text_lt-flip s t, text_eq-sym t s);
}

-- What the comparison looks at.
abbrev pub key : DriverCandidate → Double × (Double × Text)
key c = (c.distance_meters, (c.freshness_age_seconds, c.driver_id))

abbrev pub compare_keys : Double × (Double × Text) → Double × (Double × Text) → Ordering
compare_keys = lexicographic difference (lexicographic difference compare_driver_ids)

pub compare_keys-IsOrder : IsOrder compare_keys
compare_keys-IsOrder =
    lexicographic-IsOrder difference-IsOrder
      (lexicographic-IsOrder difference-IsOrder compare_driver_ids-IsOrder)

-- The comparator orders candidates by their keys, and only equal candidates of equal eligibility
-- compare as equal.
pub compare_candidates-keys :
    (c d : DriverCandidate) → compare_candidates c d ≡ compare_keys (key c) (key d)
unfolding compare_candidates
compare_candidates-keys c d = refl

pub compare_candidates-same :
    (c d : DriverCandidate) → c.eligible ≡ d.eligible → compare_candidates c d ≡ Ordering.eq → c ≡ d
compare_candidates-same c d e h =
    let k = compare_keys-IsOrder.same (key c) (key d) (sym (compare_candidates-keys c d) ∙ h) in
    ground arith
