-- ===== src/Database.antt =====
-- apps/api/src/database/database.service.ts: a transaction, and statements on tables. A table is the
-- list of its rows in the order of insertion.
pub mod Laws
use gove.Prelude.{
  ℕ, Bool, true, false, List, [], ◌∷◌, ◌++◌, filter, find?, count, map, Option, none, some, Result,
  ok, err, if◌then◌else◌,
}

-- Work of a transaction: it reads and writes the database, or throws.
abbrev pub M : Type 0 → Type 0 → Type 0 → Type 0
M S E A = S → Result E (A × S)

module _ {S E A : Type 0} where
  abbrev pub pure : A → M S E A
  pure a s = ok (a, s)

  abbrev pub throw : E → M S E A
  throw e s = err e

  abbrev pub gets : (S → A) → M S E A
  gets f s = ok (f s, s)

  -- COMMIT or ROLLBACK of a transaction that began in the given state.
  abbrev pub settle : S → Result E (A × S) → Result E A × S
  settle s (ok (a, s')) = (ok a, s')
  settle s (err e) = (err e, s)

  -- `await this.database.transaction(work)`: its outcome and state.
  unfoldable pub transaction : M S E A → S → Result E A × S
  transaction work s = settle s (work s)

  -- What a `catch` sees of a fallible computation without effects.
  abbrev pub or_throw : {B : Type 0} → Result B A → (B → E) → M S E A
  or_throw (ok a) wrap = pure a
  or_throw (err e) wrap = throw (wrap e)

  -- `if (!row) throw e;`
  abbrev pub some_or_throw : Option A → E → M S E A
  some_or_throw (some a) e = pure a
  some_or_throw none e = throw e

abbrev pub continue : {S E A B : Type 0} → Result E (A × S) → (A → M S E B) → Result E (B × S)
continue (ok (a, s')) next = next a s'
continue (err e) next = err e

infixl 5 ◌>>=◌ ◌>>◌
unfoldable pub ◌>>=◌ : {S E A B : Type 0} → M S E A → (A → M S E B) → M S E B
work >>= next = λ s. continue (work s) next

abbrev pub ◌>>◌ : {S E A B : Type 0} → M S E A → M S E B → M S E B
work >> next = work >>= λ done. next

abbrev pub modify : {S E : Type 0} → (S → S) → M S E (Unit {0})
modify f s = ok (tt, f s)

-- `if (c) throw e;`
abbrev pub throw_when : {S E : Type 0} → Bool → E → M S E (Unit {0})
throw_when c e = if c then throw e else pure tt

-- UPDATE ... SET change WHERE p
abbrev pub update {ℓ} : {A : Type ℓ} → (A → Bool) → (A → A) → List A → List A
update p change [] = []
update p change (x ∷ xs) = (if p x then change x else x) ∷ update p change xs

-- ORDER BY: insertion before the first row that is not less.
abbrev pub order_by_insert : {A : Type 0} → (A → A → Bool) → A → List A → List A
order_by_insert less x [] = x ∷ []
order_by_insert less x (y ∷ ys) =
    let rest = order_by_insert less x ys in if less y x then y ∷ rest else x ∷ y ∷ ys

abbrev pub order_by : {A : Type 0} → (A → A → Bool) → List A → List A
order_by less [] = []
order_by less (x ∷ xs) = order_by_insert less x (order_by less xs)

-- JOIN ... ON
abbrev pub flat_map : {A B : Type 0} → (A → List B) → List A → List B
flat_map f [] = []
flat_map f (x ∷ xs) = f x ++ flat_map f xs
