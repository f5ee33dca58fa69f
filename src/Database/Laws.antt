-- ===== src/Database/Laws.antt =====
-- How the work of a transaction is composed: what holds of every successful outcome of its parts
-- holds of the whole.
use gove.Prelude.{
  ◌≡◌, refl, sym, ap, subst, ◌∙◌, Bool, true, false, Result, ok, err, Result-cases, Option, none,
  some, ◌⊎◌, inl, inr, if◌then◌else◌,
}
use gove.Database.{gets, some_or_throw, throw_when, M, continue, ◌>>=◌, transaction, settle}

-- Every value that the work returns is related to the states before and after it.
abbrev pub Ensures {ℓ} : {S E A : Type 0} → M S E A → (S → A → S → Type ℓ) → Type ℓ
Ensures {S} {E} {A} work R = (s : S) (a : A) (s' : S) → work s ≡ ok (a, s') → R s a s'

-- The work keeps a property of the state.
abbrev pub Keeps {ℓ} : {S E A : Type 0} → (S → Type ℓ) → M S E A → Type ℓ
Keeps R work = Ensures work (λ s a s'. R s → R s')

absurd_outcome {ℓ} :
    {E A : Type 0} {P : Type ℓ} {x : E} {a : A} → ◌≡◌ {A = Result E A} (err x) (ok a) → P
absurd_outcome h = cc

pub ok_state :
    {S E A : Type 0} {a b : A} {s t : S}
    → ◌≡◌ {A = Result E (A × S)} (ok (a, s)) (ok (b, t))
    → s ≡ t
ok_state h = cc

pub ok_value :
    {S E A : Type 0} {a b : A} {s t : S}
    → ◌≡◌ {A = Result E (A × S)} (ok (a, s)) (ok (b, t))
    → a ≡ b
ok_value h = cc

-- A chain that ends with a value has passed through a value and a state in between.
pub bind_ends {ℓ} :
    {S E A B : Type 0} {P : Type ℓ} (work : M S E A) (next : A → M S E B) {s : S} {b : B} {s' : S}
    → (work >>= next) s ≡ ok (b, s')
    → ((a : A) (t : S) → work s ≡ ok (a, t) → next a t ≡ ok (b, s') → P)
    → P
unfolding ◌>>=◌
bind_ends work next {s} h k = elim (Result-cases (work s)) [
  | inl ((a, t), e) ↦ k a t e (sym (ap (λ r. continue r next) e) ∙ h)
  | inr (x, e) ↦ absurd_outcome (sym (ap (λ r. continue r next) e) ∙ h)
]

-- A chain whose first step ends with a value goes on with it.
pub bind_then :
    {S E A B : Type 0} (work : M S E A) (next : A → M S E B) {s : S} {a : A} {t : S}
    → work s ≡ ok (a, t)
    → (work >>= next) s ≡ next a t
unfolding ◌>>=◌
bind_then work next h = ap (λ r. continue r next) h

-- A chain whose first step throws throws it.
pub bind_throws :
    {S E A B : Type 0} (work : M S E A) (next : A → M S E B) {s : S} {x : E}
    → work s ≡ err x
    → (work >>= next) s ≡ err x
unfolding ◌>>=◌
bind_throws work next h = ap (λ r. continue r next) h

module _ {ℓ} {S E : Type 0} {R : S → Type ℓ} where
  pub bind-Keeps :
      {A B : Type 0} (work : M S E A) (next : A → M S E B)
      → Keeps R work
      → ((a : A) → Keeps R (next a))
      → Keeps R (work >>= next)
  bind-Keeps work next f g s b s' h r =
      bind_ends work next h λ a t e e'. g a t b s' e' (f s a t e r)

  pub if-Keeps :
      {A : Type 0} (c : Bool) (x y : M S E A) → Keeps R x → Keeps R y → Keeps R (if c then x else y)
  if-Keeps true x y f g = f
  if-Keeps false x y f g = g

module _ {ℓ} {S E : Type 0} where
  -- Only what the last step ends with counts.
  pub bind-Ensures :
      {A B : Type 0} {Q : B → S → Type ℓ} (work : M S E A) (next : A → M S E B)
      → ((a : A) → Ensures (next a) (λ s b s'. Q b s'))
      → Ensures (work >>= next) (λ s b s'. Q b s')
  bind-Ensures work next g s b s' h = bind_ends work next h λ a t e e'. g a t b s' e'

  pub if-Ensures :
      {A : Type 0} {Q : A → S → Type ℓ} (c : Bool) (x y : M S E A)
      → Ensures x (λ s a s'. Q a s')
      → Ensures y (λ s a s'. Q a s')
      → Ensures (if c then x else y) (λ s a s'. Q a s')
  if-Ensures true x y f g = f
  if-Ensures false x y f g = g

  -- Each branch may use the test.
  pub if-Ensures_known :
      {A : Type 0} {Q : A → S → Type ℓ} (c : Bool) (x y : M S E A)
      → (c ≡ true → Ensures x (λ s a s'. Q a s'))
      → (c ≡ false → Ensures y (λ s a s'. Q a s'))
      → Ensures (if c then x else y) (λ s a s'. Q a s')
  if-Ensures_known true x y f g = f refl
  if-Ensures_known false x y f g = g refl

pub if_end :
    {S E A : Type 0} (c : Bool) (x y : M S E A) (s : S) {r : Result E (A × S)}
    → (if c then x else y) s ≡ r
    → ((c ≡ true) × (x s ≡ r)) ⊎ ((c ≡ false) × (y s ≡ r))
if_end true x y s h = inl (refl, h)
if_end false x y s h = inr (refl, h)

pub gets_end :
    {S E A : Type 0} (f : S → A) (s : S) {a : A} {t : S}
    → gets {E = E} f s ≡ ok (a, t)
    → (f s ≡ a) × (s ≡ t)
gets_end f s h = (ok_value h, ok_state h)

pub some_or_throw_end :
    {S E A : Type 0} (o : Option A) (e : E) (s : S) {a : A} {t : S}
    → some_or_throw o e s ≡ ok (a, t)
    → (o ≡ some a) × (s ≡ t)
some_or_throw_end (some b) e s h = (ap some (ok_value h), ok_state h)
some_or_throw_end none e s h = absurd_outcome h

pub throw_when_end :
    {S E : Type 0} (c : Bool) (e : E) (s : S) {u : Unit {0}} {t : S}
    → throw_when c e s ≡ ok (u, t)
    → (c ≡ false) × (s ≡ t)
throw_when_end true e s h = absurd_outcome h
throw_when_end false e s h = (refl, ok_state h)

pub err_error : {E A : Type 0} {x y : E} → ◌≡◌ {A = Result E A} (err x) (err y) → x ≡ y
err_error h = cc

-- A chain that fails has failed in its first step or after it.
pub bind_fails {ℓ} :
    {S E A B : Type 0} {P : Type ℓ} (work : M S E A) (next : A → M S E B) {s : S} {x : E}
    → (work >>= next) s ≡ err x
    → (work s ≡ err x → P)
    → ((a : A) (t : S) → work s ≡ ok (a, t) → next a t ≡ err x → P)
    → P
unfolding ◌>>=◌
bind_fails work next {s} h j k = elim (Result-cases (work s)) [
  | inl ((a, t), e) ↦ k a t e (sym (ap (λ r. continue r next) e) ∙ h)
  | inr (y, e) ↦ j (e ∙ ap err (err_error (sym (ap (λ r. continue r next) e) ∙ h)))
]

-- The work leaves the state as it is.
abbrev pub Reads : {S E A : Type 0} → M S E A → Type 0
Reads work = Ensures work (λ s a s'. s ≡ s')

pub gets-Reads : {S E A : Type 0} (f : S → A) → Reads {E = E} (gets f)
gets-Reads f s a s' h = ok_state h

pub throw_when-Reads : {S E : Type 0} (c : Bool) (e : E) → Reads {S = S} (throw_when c e)
throw_when-Reads c e s u s' h = (throw_when_end c e s h).1

pub some_or_throw-Reads :
    {S E A : Type 0} (o : Option A) (e : E) → Reads {S = S} (some_or_throw o e)
some_or_throw-Reads o e s a s' h = (some_or_throw_end o e s h).1

pub bind-Reads :
    {S E A B : Type 0} (work : M S E A) (next : A → M S E B)
    → Reads work
    → ((a : A) → Reads (next a))
    → Reads (work >>= next)
bind-Reads work next f g s b s' h = bind_ends work next h λ a t e e'. f s a t e ∙ g a t b s' e'

-- A chain that begins with a read goes on from the same state.
pub read_ends {ℓ} :
    {S E A B : Type 0} {P : Type ℓ} (work : M S E A) (next : A → M S E B) {s : S} {b : B} {s' : S}
    → Reads work
    → (work >>= next) s ≡ ok (b, s')
    → ((a : A) → work s ≡ ok (a, s) → next a s ≡ ok (b, s') → P)
    → P
read_ends work next {s} {b} {s'} f h k = bind_ends work next h λ a t e e'.
    let same = sym (f s a t e) in
    k a (subst (λ x. work s ≡ ok (a, x)) same e) (subst (λ x. next a x ≡ ok (b, s')) same e')

pub read_fails {ℓ} :
    {S E A B : Type 0} {P : Type ℓ} (work : M S E A) (next : A → M S E B) {s : S} {x : E}
    → Reads work
    → (work >>= next) s ≡ err x
    → (work s ≡ err x → P)
    → ((a : A) → work s ≡ ok (a, s) → next a s ≡ err x → P)
    → P
read_fails work next {s} {x} f h j k = bind_fails work next h j λ a t e e'.
    let same = sym (f s a t e) in
    k a (subst (λ y. work s ≡ ok (a, y)) same e) (subst (λ y. next a y ≡ err x) same e')

-- What every outcome keeps, and what a transaction that is rolled back leaves, holds of a transaction.
pub transaction-Ensures {ℓ} :
    {S E A : Type 0} (work : M S E A) (R : S → S → Type ℓ) (s : S)
    → ((t : S) → R t t)
    → Ensures work (λ s a s'. R s s')
    → R s (transaction work s).1
unfolding transaction
transaction-Ensures work R s r f = elim (Result-cases (work s)) [
  | inl ((a, s'), e) ↦ subst (λ x. R s (settle s x).1) (sym e) (f s a s' e)
  | inr (x, e) ↦ subst (λ x. R s (settle s x).1) (sym e) (r s)
]

-- A relation that holds of the steps of a chain, and is transitive, holds of the chain.
pub bind-Ensures_trans {ℓ} :
    {S E A B : Type 0} (R : S → S → Type ℓ) (work : M S E A) (next : A → M S E B)
    → ((x y z : S) → R x y → R y z → R x z)
    → Ensures work (λ s a s'. R s s')
    → ((a : A) → Ensures (next a) (λ s b s'. R s s'))
    → Ensures (work >>= next) (λ s b s'. R s s')
bind-Ensures_trans R work next k f g s b s' h =
    bind_ends work next h λ a t e e'. k s t s' (f s a t e) (g a t b s' e')
