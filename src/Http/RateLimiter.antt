-- ===== src/Http/RateLimiter.antt =====
-- apps/api/src/common/http/rate-limiter.ts. The clock is an argument of each call, in milliseconds
-- since the epoch. Where the clock has gone back, the source's negative difference and the
-- truncated one agree in every test, since the window is positive.
pub mod Invariant
pub mod Window
mod Tests
use Prim.Native.Nat.{max}
use gove.Prelude.{
  ℕ, ◌+◌, ◌-◌, ◌/◌, Bool, true, false, not, List, [], ◌∷◌, Option, none, some, length, filter,
  Result, ok, err, ◌>>=◌, leb, ltb, if◌then◌else◌,
}
use gove.Prelude.Int.{Number, int, pos, nat, not_integer, max_safe_integer}
use gove.Prelude.Text.{Text}
use gove.Prelude.OrderedMap.{OrderedMap, get, set, delete}

pub record RateLimitDecision : Type 0 where
  pub allowed : Bool
  pub limit : ℕ
  pub remaining : ℕ
  pub retry_after_seconds : ℕ

pub record Bucket : Type 0 where
  pub started_at : ℕ
  pub count : ℕ

pub record InMemoryRateLimiter : Type 0 where
  pub limit : ℕ
  pub window_ms : ℕ
  pub max_buckets : ℕ
  pub buckets : OrderedMap Bucket

-- The three errors of the constructor.
pub data ConfigurationError : Type 0 where
  limit_not_positive window_not_positive capacity_not_positive : ConfigurationError

abbrev pub positive_safe_integer : Number → ConfigurationError → Result ConfigurationError ℕ
positive_safe_integer (int (pos n)) e =
    if leb n max_safe_integer then (if leb n 0 then err e else ok n) else err e
positive_safe_integer _ e = err e

-- The constructor.
unfoldable pub new_limiter :
    Number → Number → Number → Result ConfigurationError InMemoryRateLimiter
new_limiter limit window_ms max_buckets = do
  l ← positive_safe_integer limit limit_not_positive
  w ← positive_safe_integer window_ms window_not_positive
  c ← positive_safe_integer max_buckets capacity_not_positive
  ok (record { limit = l; window_ms = w; max_buckets = c; buckets = [] })

-- `currentTime - bucket.startedAt < this.windowMs`
abbrev pub is_live : ℕ → ℕ → Text × Bucket → Bool
is_live window_ms current_time entry = ltb (current_time - entry.1.started_at) window_ms

unfoldable pub reclaim_expired_buckets : ℕ → ℕ → OrderedMap Bucket → OrderedMap Bucket
reclaim_expired_buckets window_ms current_time buckets =
    filter (is_live window_ms current_time) buckets

-- Removes the oldest entry when the map is full.
unfoldable pub reserve_bucket_capacity : ℕ → OrderedMap Bucket → OrderedMap Bucket
reserve_bucket_capacity max_buckets [] = []
reserve_bucket_capacity max_buckets (oldest ∷ younger) =
    if ltb (length (oldest ∷ younger)) max_buckets then oldest ∷ younger else younger

-- The bucket that a request counts in, before it is counted.
abbrev pub current_bucket : ℕ → ℕ → Option Bucket → Bucket
current_bucket window_ms current_time none = record { started_at = current_time; count = 0 }
current_bucket window_ms current_time (some existing) =
    if leb window_ms (current_time - existing.started_at)
    then record { started_at = current_time; count = 0 }
    else existing

abbrev pub make_room : ℕ → Option Bucket → OrderedMap Bucket → OrderedMap Bucket
make_room max_buckets none buckets = reserve_bucket_capacity max_buckets buckets
make_room max_buckets (some existing) buckets = buckets

-- Rounded up to whole seconds, at least one.
abbrev pub seconds_until : ℕ → ℕ
seconds_until ms = max 1 ((ms + 999) / 1000)

unfoldable pub check : InMemoryRateLimiter → ℕ → Text → InMemoryRateLimiter × RateLimitDecision
unfolding reclaim_expired_buckets reserve_bucket_capacity
check limiter current_time key =
    let reclaimed = reclaim_expired_buckets limiter.window_ms current_time limiter.buckets in
    let existing = get key reclaimed in
    let chosen = current_bucket limiter.window_ms current_time existing in
    let bucket : Bucket = record chosen { count = chosen.count + 1 } in
    let roomy = make_room limiter.max_buckets existing reclaimed in
    (
      record limiter { buckets = set key bucket roomy },
      record {
        allowed = leb bucket.count limiter.limit;
        limit = limiter.limit;
        remaining = max 0 (limiter.limit - bucket.count);
        retry_after_seconds = seconds_until (bucket.started_at + limiter.window_ms - current_time);
      },
    )
