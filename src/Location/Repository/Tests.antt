-- ===== src/Location/Repository/Tests.antt =====
-- Reports of two Drivers to apps/api/src/location/location.repository.ts and location.service.ts.
use gove.Prelude.{ℕ, Bool, true, false, ◌≡◌, refl, List, [], ◌∷◌, some, err, leb}
use gove.Database.{◌>>=◌, transaction}
use gove.Dispatch.Tables.{Uuid, Env}
use gove.Dispatch.Repository.Tests.{at_time, origin, start_db}
use gove.Location.RateLimiter.{try_accept}
use gove.Location.Repository.{
  gps, simulator, LatestLocationInput, upsert_location, answer_upsert, upsert_latest, update_latest,
  driver_location_simulator_disabled, driver_location_rate_limited,
}
use gove.Location.Repository.Newest.{
  stored_version, latest_version, upsert_all, upsert_all-latest_version,
}

-- The measurement is the accuracy, in metres.
abbrev is_in_range : ℕ → Bool
is_in_range accuracy = leb accuracy 10000

abbrev report : ℕ → ℕ → LatestLocationInput ℕ
report sequence_number captured_at = record {
  location = origin;
  measurement = 5;
  captured_at = some captured_at;
  source = gps;
  sequence_number = sequence_number;
}

abbrev an : Uuid
an = 68 ∷ []

abbrev reports : List (Env × Uuid × LatestLocationInput ℕ)
reports =
    (at_time 6000, an, report 2 5000)
    ∷ (at_time 7000, an, report 1 6500)
    ∷ (at_time 8000, 69 ∷ [], report 9 8000)
    ∷ (at_time 9000, an, report 3 309001)
    ∷ (at_time 10000, an, report 2 5500)
    ∷ []

stored_version-reports :
    stored_version an (upsert_all is_in_range reports start_db).locations ≡ some (2, 5500)
unfolding upsert_all transaction upsert_latest upsert_location answer_upsert ◌>>=◌
stored_version-reports = refl

upsert_all-latest_version_example :
    stored_version an (upsert_all is_in_range reports start_db).locations
    ≡ latest_version is_in_range an reports (stored_version an start_db.locations)
upsert_all-latest_version_example = upsert_all-latest_version is_in_range an reports start_db

abbrev simulated : LatestLocationInput ℕ
simulated = record (report 1 5000) { source = simulator }

update_latest-simulator :
    (update_latest is_in_range true
      (at_time 5000)
      an
      simulated
      (record { limiter = []; db = start_db })).0
    ≡ err driver_location_simulator_disabled
unfolding update_latest
update_latest-simulator = refl

update_latest-limited :
    (update_latest is_in_range false
      (at_time 5000)
      an
      (report 1 5000)
      (record { limiter = (an, 3000) ∷ []; db = start_db })).0
    ≡ err driver_location_rate_limited
unfolding update_latest try_accept
update_latest-limited = refl
