-- ===== src/Http/RateLimiter/Window.antt =====
-- Sequences of requests to a limiter of apps/api/src/common/http/rate-limiter.ts.
use Prim.Native.Nat.{min}
use gove.Prelude.{
  ℕ, suc, ◌+◌, ◌-◌, ◌≤◌, ◌<◌, ◌≡◌, refl, sym, subst, ◌∙◌, true, false, inl, inr, List, [], ◌∷◌,
  Option, none, some, length, filter, length-filter-le, arith, All, leb, if◌then◌else◌, Bool-cases,
}
use gove.Prelude.Text.{Text, text_eq, text_eq→eq, text_eq-sym}
use gove.Prelude.OrderedMap.{
  OrderedMap, get, get-filter, get-set_self, get-set_ne, length-set, length-set_known,
}
use gove.Http.RateLimiter.{
  Bucket, InMemoryRateLimiter, is_live, reserve_bucket_capacity, make_room, check,
}

-- How many of the requests, each a time and a key, are allowed for one key.
unfoldable pub granted : Text → InMemoryRateLimiter → List (ℕ × Text) → ℕ
granted key l [] = 0
granted key l ((now, k) ∷ requests) =
    let (l', d) = check l now k in
    let later = granted key l' requests in
    if text_eq key k then (if d.allowed then suc later else later) else later

-- How many requests come from one key.
abbrev pub requested : Text → List (ℕ × Text) → ℕ
requested key [] = 0
requested key ((now, k) ∷ requests) =
    let later = requested key requests in if text_eq key k then suc later else later

-- One request of the key itself, inside its window.
check-get_self :
    (l : InMemoryRateLimiter) (now : ℕ) (key : Text) (b : Bucket)
    → get key l.buckets ≡ some b
    → now < b.started_at + l.window_ms
    → 0 < l.window_ms
    → (get key (check l now key).0.buckets ≡ some (record b { count = b.count + 1 }))
      × ((check l now key).1.allowed ≡ leb (b.count + 1) l.limit)
      × (length (check l now key).0.buckets ≤ length l.buckets)
unfolding check
check-get_self l now key b e inside pos =
    let live : is_live l.window_ms now (key, b) ≡ true = ground arith in
    let found : get key (filter (is_live l.window_ms now) l.buckets) ≡ some b =
      get-filter (is_live l.window_ms now) key b l.buckets e live in
    let within : leb l.window_ms (now - b.started_at) ≡ false = ground arith in
    rw (found, within)
      (
        get-set_self key _ _,
        refl,
        omega (
          arith,
          length-set_known key _ b (filter (is_live l.window_ms now) l.buckets) found,
          length-filter-le {0} (is_live l.window_ms now) l.buckets,
        ),
      )

check-get_same :
    (l : InMemoryRateLimiter) (now : ℕ) (key k : Text) (b : Bucket)
    → text_eq key k ≡ true
    → get key l.buckets ≡ some b
    → now < b.started_at + l.window_ms
    → 0 < l.window_ms
    → (get key (check l now k).0.buckets ≡ some (record b { count = b.count + 1 }))
      × ((check l now k).1.allowed ≡ leb (b.count + 1) l.limit)
      × (length (check l now k).0.buckets ≤ length l.buckets)
check-get_same l now key k b same e inside pos =
    rw (← text_eq→eq key k same) (check-get_self l now key b e inside pos)

reserve_with_room : (c : ℕ) (m : OrderedMap Bucket) → length m < c → reserve_bucket_capacity c m ≡ m
unfolding reserve_bucket_capacity
reserve_with_room c [] h = refl
reserve_with_room c (e ∷ m) h = ground arith

make_room_with_room :
    (c : ℕ) (o : Option Bucket) (m : OrderedMap Bucket) → length m < c → make_room c o m ≡ m
make_room_with_room c none m h = reserve_with_room c m h
make_room_with_room c (some b) m h = refl

-- A request of another key, while there is room.
check-get_ne :
    (l : InMemoryRateLimiter) (now : ℕ) (key k : Text) (b : Bucket)
    → text_eq k key ≡ false
    → get key l.buckets ≡ some b
    → now < b.started_at + l.window_ms
    → 0 < l.window_ms
    → length l.buckets < l.max_buckets
    → (get key (check l now k).0.buckets ≡ some b)
      × (length (check l now k).0.buckets ≤ suc (length l.buckets))
unfolding check
check-get_ne l now key k b ne e inside pos room =
    let live : is_live l.window_ms now (key, b) ≡ true = ground arith in
    let m = filter (is_live l.window_ms now) l.buckets in
    let found : get key m ≡ some b = get-filter (is_live l.window_ms now) key b l.buckets e live in
    let le : length m ≤ length l.buckets = length-filter-le (is_live l.window_ms now) l.buckets in
    rw (make_room_with_room l.max_buckets (get k m) m (omega arith))
      (get-set_ne key k _ m ne ∙ found, omega (arith, length-set k _ m))

check-settings :
    (l : InMemoryRateLimiter) (now : ℕ) (k : Text)
    → ((check l now k).0.window_ms ≡ l.window_ms)
      × ((check l now k).0.limit ≡ l.limit)
      × ((check l now k).0.max_buckets ≡ l.max_buckets)
unfolding check
check-settings l now k = (refl, refl, refl)

-- While the window of a key runs and the map does not fill up, whatever other keys ask in between,
-- exactly as many requests of the key are allowed as it made, up to what its bucket leaves of the
-- limit.
pub granted-eq-min :
    (key : Text) (l : InMemoryRateLimiter) (b : Bucket) (requests : List (ℕ × Text))
    → get key l.buckets ≡ some b
    → All (λ r. r.0 < b.started_at + l.window_ms) requests
    → 0 < l.window_ms
    → length l.buckets + length requests ≤ l.max_buckets
    → granted key l requests ≡ min (requested key requests) (l.limit - b.count)
unfolding granted
granted-eq-min key l b [] e inside pos room = omega arith
granted-eq-min key l b ((now, k) ∷ requests) e inside pos room =
    let l' = (check l now k).0 in
    let (same_window, same_limit, same_room) = check-settings l now k in
    let later : All (λ r. r.0 < b.started_at + l'.window_ms) requests =
      subst (λ w. All (λ r. r.0 < b.started_at + w) requests) (sym same_window) inside.1 in
    elim (Bool-cases (text_eq key k)) [
      | inl same ↦
          let (found, allowed, fewer) = check-get_same l now key k b same e inside.0 pos in
          rw (same, allowed)
            (ground (
              arith,
              granted-eq-min key l' (record b { count = b.count + 1 }) requests found later
                  (omega arith) (omega arith),
            ))
      | inr other ↦
          let (found, more) =
            check-get_ne l now key k b (text_eq-sym k key ∙ other) e inside.0 pos (omega arith) in
          rw other (
            omega (arith, granted-eq-min key l' b requests found later (omega arith) (omega arith)))
    ]
