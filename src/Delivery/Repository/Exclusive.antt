-- ===== src/Delivery/Repository/Exclusive.antt =====
-- Rows of which at most one is active for each key: the partial unique indexes of the migrations.
use gove.Prelude.{
  ◌≡◌, refl, subst, ◌≤◌, Bool, true, false, ◌&&◌, List, [], ◌∷◌, any, count, Bool-cases, inl, inr,
  arith,
}
use gove.Prelude.Text.{Text, text_eq, text_eq→eq}
use gove.Database.{update}

module _ {R : Type 0} (is_active : R → Bool) (key : R → Text) where
  abbrev pub is_active_for : Text → R → Bool
  is_active_for k r = is_active r && text_eq (key r) k

  abbrev pub OneActive : List R → Type 0
  OneActive rs = (k : Text) → count (is_active_for k) rs ≤ 1

  pub cons-OneActive :
      (r : R) (rs : List R)
      → count (is_active_for (key r)) rs ≡ 0
      → OneActive rs
      → OneActive (r ∷ rs)
  cons-OneActive r rs h v k = elim (Bool-cases (text_eq (key r) k)) [
    | inl e ↦
        ground (arith, subst (λ x. count (is_active_for x) rs ≡ 0) (text_eq→eq (key r) k e) h, e)
    | inr e ↦ ground (arith, v k, e)
  ]

  -- An UPDATE that leaves no row of its own active.
  update_count :
      (p : R → Bool) (c : R → R) (k : Text) (rs : List R)
      → ((r : R) → is_active (c r) ≡ false)
      → count (is_active_for k) (update p c rs) ≤ count (is_active_for k) rs
  update_count p c k [] f = ground arith
  update_count p c k (r ∷ rs) f = ground (arith, update_count p c k rs f, f r)

  pub update-OneActive :
      (p : R → Bool) (c : R → R) (rs : List R)
      → ((r : R) → is_active (c r) ≡ false)
      → OneActive rs
      → OneActive (update p c rs)
  update-OneActive p c rs f v k = ground (arith, update_count p c k rs f, v k)

  -- Where no active row has the key.
  pub count-any :
      (q : R → Bool) (k : Text) (rs : List R)
      → ((r : R) → is_active_for k r ≡ true → q r ≡ true)
      → any q rs ≡ false
      → count (is_active_for k) rs ≡ 0
  count-any q k [] f h = refl
  count-any q k (r ∷ rs) f h = ground (arith, h, count-any q k rs f, f r)
