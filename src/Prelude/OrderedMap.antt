-- ===== src/Prelude/OrderedMap.antt =====
-- A JavaScript `Map` keyed by strings: entries in insertion order, at most one for each key.
use mathlib.Core.Path.{◌≡◌, refl}
use mathlib.Core.Bool.{Bool, true, false}
use mathlib.Core.List.{List, [], ◌∷◌}
use mathlib.Core.Option.{Option, none, some}
use Prim.Native.Nat.{suc, ◌≤◌}
use native.Mathlib.Omega.{arith}
use gove.Prelude.Tests.{if◌then◌else◌}
use gove.Prelude.Lists.{length, filter}
use gove.Prelude.Text.{Text, text_eq, text_eq→eq, text_eq_refl}

abbrev pub OrderedMap : Type 0 → Type 0
OrderedMap V = List (Text × V)

module _ {V : Type 0} where
  abbrev pub get : Text → OrderedMap V → Option V
  get k [] = none
  get k ((j, v) ∷ m) = if text_eq j k then some v else get k m

  -- A new key goes to the end; a known one keeps its place.
  abbrev pub set : Text → V → OrderedMap V → OrderedMap V
  set k v [] = (k, v) ∷ []
  set k v ((j, w) ∷ m) = if text_eq j k then (j, v) ∷ m else (j, w) ∷ set k v m

  abbrev pub delete : Text → OrderedMap V → OrderedMap V
  delete k [] = []
  delete k ((j, w) ∷ m) = if text_eq j k then m else (j, w) ∷ delete k m

  -- No key has two entries.
  abbrev pub IsMap : OrderedMap V → Type 0
  IsMap [] = Unit
  IsMap ((k, v) ∷ m) = (get k m ≡ none) × IsMap m

  pub get-set_self : (k : Text) (v : V) (m : OrderedMap V) → get k (set k v m) ≡ some v
  get-set_self k v [] = ground (arith, text_eq_refl k)
  get-set_self k v ((j, w) ∷ m) = ground (arith, get-set_self k v m)

  pub get-set_ne :
      (j k : Text) (v : V) (m : OrderedMap V) → text_eq k j ≡ false → get j (set k v m) ≡ get j m
  get-set_ne j k v [] h = ground arith
  get-set_ne j k v ((i, w) ∷ m) h =
      ground (arith, get-set_ne j k v m h, text_eq→eq i k, text_eq→eq i j)

  pub length-set : (k : Text) (v : V) (m : OrderedMap V) → length (set k v m) ≤ suc (length m)
  length-set k v [] = omega arith
  length-set k v ((j, w) ∷ m) = ground (arith, length-set k v m)

  pub length-set_known :
      (k : Text) (v w : V) (m : OrderedMap V) → get k m ≡ some w → length (set k v m) ≡ length m
  length-set_known k v w [] h = cc
  length-set_known k v w ((j, u) ∷ m) h = ground (arith, length-set_known k v w m)

  pub get-filter :
      (p : Text × V → Bool) (k : Text) (v : V) (m : OrderedMap V)
      → get k m ≡ some v
      → p (k, v) ≡ true
      → get k (filter p m) ≡ some v
  get-filter p k v [] h q = cc
  get-filter p k v ((j, w) ∷ m) h q = ground (arith, text_eq→eq j k, get-filter p k v m)

  pub get-filter-none :
      (p : Text × V → Bool) (k : Text) (m : OrderedMap V)
      → get k m ≡ none
      → get k (filter p m) ≡ none
  get-filter-none p k [] h = refl
  get-filter-none p k ((j, w) ∷ m) h = ground (arith, get-filter-none p k m)

  -- A key of which the only entry is removed.
  pub get-filter_dropped :
      (p : Text × V → Bool) (k : Text) (v : V) (m : OrderedMap V)
      → IsMap m
      → get k m ≡ some v
      → p (k, v) ≡ false
      → get k (filter p m) ≡ none
  get-filter_dropped p k v [] d h q = refl
  get-filter_dropped p k v ((j, w) ∷ m) d h q =
      ground (
        arith,
        text_eq→eq j k,
        text_eq_refl k,
        get-filter_dropped p k v m d.1,
        get-filter-none p k m,
      )

  pub filter-IsMap : (p : Text × V → Bool) (m : OrderedMap V) → IsMap m → IsMap (filter p m)
  filter-IsMap p [] h = tt
  filter-IsMap p ((k, v) ∷ m) h = ground (arith, filter-IsMap p m h.1, get-filter-none p k m h.0)

  pub set-IsMap : (k : Text) (v : V) (m : OrderedMap V) → IsMap m → IsMap (set k v m)
  set-IsMap k v [] h = (refl, tt)
  set-IsMap k v ((j, w) ∷ m) h =
      ground (arith, set-IsMap k v m h.1, get-set_ne j k v m, text_eq→eq j k, text_eq→eq k j)
