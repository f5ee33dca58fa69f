-- ===== src/Http/RateLimiter/Invariant.antt =====
-- What holds of a limiter of apps/api/src/common/http/rate-limiter.ts between two calls.
use gove.Prelude.{
  ℕ, suc, ◌+◌, ◌-◌, ◌*◌, ◌≤◌, ◌<◌, ◌≡◌, refl, inl, inr, [], ◌∷◌, Option, none, some, length, filter,
  length-filter-le, ok, arith, ltb, Option-cases,
}
use gove.Prelude.Int.{Number, nat, max_safe_integer}
use gove.Prelude.Text.{Text}
use gove.Prelude.OrderedMap.{
  OrderedMap, get, set, IsMap, set-IsMap, filter-IsMap, length-set, length-set_known,
}
use gove.Http.RateLimiter.{
  Bucket, InMemoryRateLimiter, new_limiter, is_live, reclaim_expired_buckets,
  reserve_bucket_capacity, make_room, check,
}

-- The parameters are positive, no key has two buckets, and the map is within its capacity.
pub record IsValid (l : InMemoryRateLimiter) : Type 0 where
  pub limit_pos : 0 < l.limit
  pub window_pos : 0 < l.window_ms
  pub capacity_pos : 0 < l.max_buckets
  pub keys_distinct : IsMap l.buckets
  pub within_capacity : length l.buckets ≤ l.max_buckets

-- A limiter that the constructor returns has the limit, the window and the capacity of its
-- arguments, each a positive integer that a double holds exactly; it has no buckets, and it is valid.
pub new_limiter-IsValid :
    (limit window_ms max_buckets : Number) {l : InMemoryRateLimiter}
    → new_limiter limit window_ms max_buckets ≡ ok l
    → (limit ≡ nat l.limit)
      × (window_ms ≡ nat l.window_ms)
      × (max_buckets ≡ nat l.max_buckets)
      × (l.buckets ≡ [])
      × (l.limit ≤ max_safe_integer)
      × (l.window_ms ≤ max_safe_integer)
      × (l.max_buckets ≤ max_safe_integer)
      × IsValid l
unfolding new_limiter
new_limiter-IsValid limit window_ms max_buckets h = ground arith

reserve-IsMap : (c : ℕ) (m : OrderedMap Bucket) → IsMap m → IsMap (reserve_bucket_capacity c m)
unfolding reserve_bucket_capacity
reserve-IsMap c [] h = h
reserve-IsMap c (e ∷ m) h = ground arith

length-reserve :
    (c : ℕ) (m : OrderedMap Bucket)
    → 0 < c
    → length m ≤ c
    → suc (length (reserve_bucket_capacity c m)) ≤ c
unfolding reserve_bucket_capacity
length-reserve c [] h k = omega arith
length-reserve c (e ∷ m) h k = ground arith

store-IsMap :
    (c : ℕ) (k : Text) (b : Bucket) (m : OrderedMap Bucket) (existing : Option Bucket)
    → get k m ≡ existing
    → 0 < c
    → IsMap m
    → length m ≤ c
    → IsMap (set k b (make_room c existing m)) × (length (set k b (make_room c existing m)) ≤ c)
store-IsMap c k b m none e pos d le = (
  set-IsMap k b (reserve_bucket_capacity c m) (reserve-IsMap c m d),
  omega (arith, length-set k b (reserve_bucket_capacity c m), length-reserve c m pos le),
)
store-IsMap c k b m (some old) e pos d le =
    (set-IsMap k b m d, omega (arith, length-set_known k b old m e))

-- Every call keeps the limiter valid; in particular the number of buckets never exceeds the
-- capacity.
pub check-IsValid :
    (l : InMemoryRateLimiter) (now : ℕ) (key : Text) → IsValid l → IsValid (check l now key).0
unfolding check
check-IsValid l now key v =
    let live = reclaim_expired_buckets l.window_ms now l.buckets in
    let le : length live ≤ l.max_buckets =
      omega (arith, length-filter-le {0} (is_live l.window_ms now) l.buckets, v.within_capacity) in
    let (distinct, within) =
      store-IsMap l.max_buckets key _ live (get key live) refl v.capacity_pos
        (filter-IsMap (is_live l.window_ms now) l.buckets v.keys_distinct) le in
    record {
      limit_pos = v.limit_pos;
      window_pos = v.window_pos;
      capacity_pos = v.capacity_pos;
      keys_distinct = distinct;
      within_capacity = within;
    }

-- How often the key has been counted in its running window.
abbrev pub used : InMemoryRateLimiter → ℕ → Text → ℕ
used l now key = elim (get key (filter (is_live l.window_ms now) l.buckets)) [
  | none ↦ 0
  | some b ↦ b.count
]

get-live :
    (w now : ℕ) (k : Text) (b : Bucket) (m : OrderedMap Bucket)
    → get k (filter (is_live w now) m) ≡ some b
    → now < b.started_at + w
get-live w now k b [] h = cc
get-live w now k b ((j, c) ∷ m) h = ground (arith, get-live w now k b m)

-- The time left in the window that a request falls into, in milliseconds.
abbrev pub window_rest : InMemoryRateLimiter → ℕ → Text → ℕ
window_rest l now key = elim (get key (filter (is_live l.window_ms now) l.buckets)) [
  | none ↦ l.window_ms
  | some b ↦ b.started_at + l.window_ms - now
]

-- A request is allowed exactly when its key has been counted fewer than `limit` times in its
-- running window; `remaining` is what is left after it, and the time to wait is the rest of the
-- window in seconds, rounded up.
pub check_decision :
    (l : InMemoryRateLimiter) (now : ℕ) (key : Text)
    → IsValid l
    → let d = (check l now key).1 in
      (d.allowed ≡ ltb (used l now key) l.limit)
      × (d.remaining ≡ l.limit - (used l now key + 1))
      × (window_rest l now key ≤ d.retry_after_seconds * 1000)
      × (d.retry_after_seconds * 1000 < window_rest l now key + 1000)
unfolding check
check_decision l now key v =
    elim (Option-cases (get key (filter (is_live l.window_ms now) l.buckets))) [
      | inl e ↦ rw e (ground arith, ground arith, ground arith, ground (arith, v.window_pos))
      | inr (b, e) ↦
          let inside : now < b.started_at + l.window_ms =
            get-live l.window_ms now key b l.buckets e in
          rw e (ground arith, ground arith, ground arith, ground arith)
    ]
