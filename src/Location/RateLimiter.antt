-- ===== src/Location/RateLimiter.antt =====
-- apps/api/src/location/driver-location-rate-limiter.ts. The clock is an argument of each call, in
-- milliseconds since the epoch. Where the clock has gone back, the source's negative difference and
-- the truncated one agree in every test, since the window is positive.
pub mod Pruning
mod Tests
use gove.Prelude.{
  ℕ, ◌-◌, Bool, true, false, not, Option, none, some, length, filter, ltb, if◌then◌else◌,
}
use gove.Prelude.Text.{Text}
use gove.Prelude.OrderedMap.{OrderedMap, get, set}

abbrev pub accepted_location_window_milliseconds : ℕ
accepted_location_window_milliseconds = 3000

-- `now - acceptedAt < acceptedLocationWindowMilliseconds`
abbrev pub is_recent : ℕ → ℕ → Bool
is_recent now accepted_at = ltb (now - accepted_at) accepted_location_window_milliseconds

-- The guard of tryAccept on the entry of the Driver.
abbrev pub is_blocked : ℕ → Option ℕ → Bool
is_blocked now none = false
is_blocked now (some accepted_at) = is_recent now accepted_at

-- Entries are removed only from a map of at least 1000.
unfoldable pub prune_expired : ℕ → OrderedMap ℕ → OrderedMap ℕ
prune_expired now accepted_at_by_driver =
    if ltb (length accepted_at_by_driver) 1000
    then accepted_at_by_driver
    else filter (λ entry. is_recent now entry.1) accepted_at_by_driver

-- The map after the call, and whether the report is accepted.
unfoldable pub try_accept : OrderedMap ℕ → ℕ → Text → OrderedMap ℕ × Bool
unfolding prune_expired
try_accept accepted_at_by_driver now driver_user_id =
    if is_blocked now (get driver_user_id accepted_at_by_driver)
    then (accepted_at_by_driver, false)
    else (prune_expired now (set driver_user_id now accepted_at_by_driver), true)
