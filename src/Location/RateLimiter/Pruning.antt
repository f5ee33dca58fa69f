-- ===== src/Location/RateLimiter/Pruning.antt =====
-- What a sequence of calls of apps/api/src/location/driver-location-rate-limiter.ts answers.
use gove.Prelude.{
  ℕ, ◌≤◌, ◌≡◌, refl, sym, ap, subst, ◌∙◌, Bool, true, false, ◌&&◌, ◌||◌, inl, inr, List, [], ◌∷◌,
  Option, none, some, arith, if◌then◌else◌, Bool-cases, Option-cases,
}
use gove.Prelude.Text.{Text, text_eq, text_eq→eq}
use gove.Prelude.OrderedMap.{
  OrderedMap, get, set, IsMap, get-set_self, get-set_ne, get-filter, get-filter-none,
  get-filter_dropped, set-IsMap, filter-IsMap,
}
use gove.Location.RateLimiter.{is_recent, is_blocked, prune_expired, try_accept}

-- The answers to a sequence of calls, each a time and a Driver.
unfoldable pub try_accept_all : OrderedMap ℕ → List (ℕ × Text) → List Bool
try_accept_all m [] = []
try_accept_all m ((now, driver) ∷ requests) =
    let (m', accepted) = try_accept m now driver in accepted ∷ try_accept_all m' requests

-- One of the reports accepted so far, each a time and a Driver, is of this Driver and recent.
abbrev pub reported : ℕ → Text → List (ℕ × Text) → Bool
reported now driver [] = false
reported now driver ((t, d) ∷ history) =
    (text_eq d driver && is_recent now t) || reported now driver history

-- The answers by the whole history of accepted reports, of which nothing is ever removed.
unfoldable pub accept_by_history : List (ℕ × Text) → List (ℕ × Text) → List Bool
accept_by_history history [] = []
accept_by_history history ((now, driver) ∷ requests) =
    let later = accept_by_history ((now, driver) ∷ history) requests in
    let same = accept_by_history history requests in
    if reported now driver history then false ∷ same else true ∷ later

-- The clock does not go back.
abbrev pub IsOrdered : ℕ → List (ℕ × Text) → Type 0
IsOrdered t [] = Unit
IsOrdered t ((now, driver) ∷ requests) = (t ≤ now) × IsOrdered now requests

-- From the time t on, the map tells what the history tells.
record Agrees (m : OrderedMap ℕ) (history : List (ℕ × Text)) (t : ℕ) : Type 0 where
  distinct : IsMap m
  same :
      (now : ℕ) (driver : Text)
      → t ≤ now
      → is_blocked now (get driver m) ≡ reported now driver history

prune-IsMap : (now : ℕ) (m : OrderedMap ℕ) → IsMap m → IsMap (prune_expired now m)
unfolding prune_expired
prune-IsMap now m h = ground (arith, filter-IsMap (λ entry. is_recent now entry.1) m h)

-- Removing the expired entries blocks nobody less, then or later.
is_blocked-prune :
    (t now : ℕ) (driver : Text) (m : OrderedMap ℕ)
    → IsMap m
    → t ≤ now
    → is_blocked now (get driver (prune_expired t m)) ≡ is_blocked now (get driver m)
unfolding prune_expired
is_blocked-prune t now driver m d le = elim (Option-cases (get driver m)) [
  | inl e ↦ ground (arith, e, get-filter-none (λ entry. is_recent t entry.1) driver m e)
  | inr (at, e) ↦ elim (Bool-cases (is_recent t at)) [
    | inl recent ↦ ground (arith, e, get-filter (λ entry. is_recent t entry.1) driver at m e recent)
    | inr old ↦
        ground (arith, e, get-filter_dropped (λ entry. is_recent t entry.1) driver at m d e old)
  ]
]

-- Who has expired once is not blocked later, by the old entry.
blocked_mono :
    (t now : ℕ) (entry : Option ℕ)
    → t ≤ now
    → is_blocked t entry ≡ false
    → is_recent now t ≡ (is_recent now t || is_blocked now entry)
blocked_mono t now none le h = ground arith
blocked_mono t now (some at) le h = ground arith

is_blocked-set :
    (t now : ℕ) (driver k : Text) (m : OrderedMap ℕ)
    → t ≤ now
    → is_blocked t (get k m) ≡ false
    → is_blocked now (get driver (set k t m))
      ≡ ((text_eq k driver && is_recent now t) || is_blocked now (get driver m))
is_blocked-set t now driver k m le h = elim (Bool-cases (text_eq k driver)) [
  | inl same ↦
      let here : get driver (set k t m) ≡ some t =
        subst (λ d. get d (set k t m) ≡ some t) (text_eq→eq k driver same) (get-set_self k t m) in
      let before : is_blocked t (get driver m) ≡ false =
        subst (λ d. is_blocked t (get d m) ≡ false) (text_eq→eq k driver same) h in
      rw (here, same) (blocked_mono t now (get driver m) le before)
  | inr other ↦ rw (get-set_ne driver k t m other, other) refl
]

-- The map keeps agreeing with the history, whose next report is accepted at the time t.
accepted-Agrees :
    (m : OrderedMap ℕ) (history : List (ℕ × Text)) (t now : ℕ) (driver : Text)
    → Agrees m history t
    → t ≤ now
    → is_blocked now (get driver m) ≡ false
    → Agrees (prune_expired now (set driver now m)) ((now, driver) ∷ history) now
accepted-Agrees m history t now driver a le free = record {
  distinct = prune-IsMap now _ (set-IsMap driver now m a.distinct);
  same = λ later k le'.
      is_blocked-prune now later k _ (set-IsMap driver now m a.distinct) le'
      ∙ is_blocked-set now later k driver m le' free
      ∙ ap (λ b. (text_eq driver k && is_recent later now) || b) (a.same later k (omega arith));
}

Agrees-later :
    (m : OrderedMap ℕ) (history : List (ℕ × Text)) (t now : ℕ)
    → Agrees m history t
    → t ≤ now
    → Agrees m history now
Agrees-later m history t now a le = record {
  distinct = a.distinct;
  same = λ later k le'. a.same later k (omega arith);
}

answers-history :
    (requests : List (ℕ × Text)) (m : OrderedMap ℕ) (history : List (ℕ × Text)) (t : ℕ)
    → Agrees m history t
    → IsOrdered t requests
    → try_accept_all m requests ≡ accept_by_history history requests
unfolding try_accept try_accept_all accept_by_history
answers-history [] m history t a o = refl
answers-history ((now, driver) ∷ requests) m history t a o =
    elim (Bool-cases (is_blocked now (get driver m))) [
      | inl blocked ↦
          rw (blocked, sym (a.same now driver o.0) ∙ blocked)
            (ap (λ rest. false ∷ rest)
              (answers-history requests m history now (Agrees-later m history t now a o.0) o.1))
      | inr free ↦
          rw (free, sym (a.same now driver o.0) ∙ free)
            (ap (λ rest. true ∷ rest)
              (answers-history requests (prune_expired now (set driver now m))
                ((now, driver) ∷ history) now (accepted-Agrees m history t now driver a o.0 free)
                o.1))
    ]

-- While the clock does not go back, the answers are those of the whole history: a report is
-- accepted when no report of the same Driver was accepted within the last three seconds, however
-- many Drivers there are and whatever entries have been removed.
pub try_accept_all-history :
    (requests : List (ℕ × Text))
    → IsOrdered 0 requests
    → try_accept_all [] requests ≡ accept_by_history [] requests
try_accept_all-history requests o =
    answers-history requests [] [] 0 (record { distinct = tt; same = λ now driver le. refl }) o
