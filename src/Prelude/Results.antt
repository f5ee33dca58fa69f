-- ===== src/Prelude/Results.antt =====
-- What a call ends with: a value, or the error that it throws.
use mathlib.Core.Path.{◌≡◌, refl, sym, subst}
use mathlib.Core.Bool.{Bool, true, false}
use mathlib.Core.Logic.{◌⊎◌, inl, inr}

pub data Result {ℓ} (E : Type ℓ) (A : Type ℓ) : Type ℓ where
  ok : A → Result E A
  err : E → Result E A

infixl 5 ◌>>=◌ ◌>>◌
abbrev pub ◌>>=◌ {ℓ} : {E A B : Type ℓ} → Result E A → (A → Result E B) → Result E B
ok value >>= next = next value
err thrown >>= next = err thrown

abbrev pub ◌>>◌ : {E B : Type 0} → Result E (Unit {0}) → Result E B → Result E B
check >> rest = check >>= λ done. rest

-- `if (c) throw e;`
abbrev pub throw_if : {E : Type 0} → Bool → E → Result E (Unit {0})
throw_if true e = err e
throw_if false e = ok tt

pub Result-cases {ℓ} :
    {E A : Type ℓ} (r : Result E A) → ((a : A) × (r ≡ ok a)) ⊎ ((e : E) × (r ≡ err e))
Result-cases (ok a) = inl (a, refl)
Result-cases (err e) = inr (e, refl)

abbrev pub map_ok {ℓ} : {E A B : Type ℓ} → (A → B) → Result E A → Result E B
map_ok f (ok a) = ok (f a)
map_ok f (err e) = err e

pub map_ok->>= {ℓ} :
    {E A B C : Type ℓ} (g : B → C) (m : Result E A) (f : A → Result E B)
    → map_ok g (m >>= f) ≡ (m >>= λ a. map_ok g (f a))
map_ok->>= g (ok a) f = refl
map_ok->>= g (err e) f = refl

ok-injective {ℓ} : {E A : Type ℓ} {a b : A} → ◌≡◌ {A = Result E A} (ok a) (ok b) → a ≡ b
ok-injective h = cc

-- A chain that returns a value did so at each step. The continuation keeps the value a variable.
pub bind_ok {ℓ κ} :
    {E A B : Type ℓ} {P : Type κ} (m : Result E A) (f : A → Result E B) {b : B}
    → (m >>= f) ≡ ok b
    → ((a : A) → m ≡ ok a → f a ≡ ok b → P)
    → P
bind_ok (ok a) f h k = k a refl h
bind_ok (err e) f h k = cc

-- The call returns a value.
abbrev pub Returns {ℓ} : {E A : Type ℓ} → Result E A → Type ℓ
Returns {A} r = (a : A) × (r ≡ ok a)

pub >>=-Returns {ℓ} :
    {E A B : Type ℓ} (m : Result E A) (f : A → Result E B) {a : A}
    → m ≡ ok a
    → Returns (f a)
    → Returns (m >>= f)
>>=-Returns (ok a) f h r = subst (λ x. Returns (f x)) (sym (ok-injective h)) r
>>=-Returns (err e) f h r = cc
