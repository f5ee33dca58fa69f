-- ===== src/Location/RateLimiter/Tests.antt =====
-- Runs of the limiter of apps/api/src/location/driver-location-rate-limiter.ts.
use gove.Prelude.{ℕ, ◌≡◌, refl, true, false, List, [], ◌∷◌, arith}
use gove.Prelude.Text.{Text}
use gove.Location.RateLimiter.{prune_expired, try_accept}
use gove.Location.RateLimiter.Pruning.{try_accept_all, accept_by_history, try_accept_all-history}

abbrev an : Text
an = 97 ∷ []

abbrev binh : Text
binh = 98 ∷ []

abbrev requests : List (ℕ × Text)
requests = (1000, an) ∷ (2000, binh) ∷ (3999, an) ∷ (4000, an) ∷ (4500, binh) ∷ []

try_accept_all-requests : try_accept_all [] requests ≡ true ∷ true ∷ false ∷ true ∷ false ∷ []
unfolding try_accept_all try_accept prune_expired
try_accept_all-requests = refl

try_accept_all-history_example : try_accept_all [] requests ≡ accept_by_history [] requests
try_accept_all-history_example =
    try_accept_all-history requests
      (omega arith, (omega arith, (omega arith, (omega arith, (omega arith, tt)))))
