-- ===== src/Http/RateLimiter/Tests.antt =====
-- A limiter of apps/api/src/common/http/rate-limiter.ts with a limit of two requests in five
-- seconds and room for three buckets.
use Prim.Native.Nat.{min}
use gove.Prelude.{ℕ, ◌+◌, ◌-◌, ◌*◌, ◌≤◌, ◌<◌, ◌≡◌, refl, List, [], ◌∷◌, ok, arith, ltb}
use gove.Prelude.Int.{nat, max_safe_integer}
use gove.Prelude.Text.{Text}
use gove.Http.RateLimiter.{Bucket, InMemoryRateLimiter, new_limiter, check}
use gove.Http.RateLimiter.Invariant.{
  IsValid, new_limiter-IsValid, check-IsValid, used, window_rest, check_decision,
}
use gove.Http.RateLimiter.Window.{granted, requested, granted-eq-min}

abbrev empty : InMemoryRateLimiter
empty = record { limit = 2; window_ms = 5000; max_buckets = 3; buckets = [] }

abbrev address : Text
address = 49 ∷ []

abbrev bucket : Bucket
bucket = record { started_at = 1000; count = 1 }

abbrev once : InMemoryRateLimiter
once = record empty { buckets = (address, bucket) ∷ [] }

new_limiter-empty : new_limiter (nat 2) (nat 5000) (nat 3) ≡ ok empty
unfolding new_limiter
new_limiter-empty = refl

check-empty : (check empty 1000 address).0 ≡ once
unfolding check
check-empty = refl

new_limiter-IsValid_example :
    (nat 2 ≡ nat empty.limit)
    × (nat 5000 ≡ nat empty.window_ms)
    × (nat 3 ≡ nat empty.max_buckets)
    × (empty.buckets ≡ [])
    × (empty.limit ≤ max_safe_integer)
    × (empty.window_ms ≤ max_safe_integer)
    × (empty.max_buckets ≤ max_safe_integer)
    × IsValid empty
new_limiter-IsValid_example = new_limiter-IsValid (nat 2) (nat 5000) (nat 3) new_limiter-empty

once-IsValid : IsValid once
once-IsValid = ground arith

check-IsValid_example : IsValid (check once 2000 address).0
check-IsValid_example = check-IsValid once 2000 address once-IsValid

check_decision_example :
    let d = (check once 2000 address).1 in
    (d.allowed ≡ ltb (used once 2000 address) 2)
    × (d.remaining ≡ 2 - (used once 2000 address + 1))
    × (window_rest once 2000 address ≤ d.retry_after_seconds * 1000)
    × (d.retry_after_seconds * 1000 < window_rest once 2000 address + 1000)
check_decision_example = check_decision once 2000 address once-IsValid

abbrev requests : List (ℕ × Text)
requests = (2000, address) ∷ (3000, address) ∷ []

granted-eq-min_example : granted address once requests ≡ min (requested address requests) 1
granted-eq-min_example =
    granted-eq-min address once bucket requests refl (omega arith) (omega arith) (omega arith)
