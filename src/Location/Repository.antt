-- ===== src/Location/Repository.antt =====
-- apps/api/src/location: location.repository.ts, the schema of its input, and location.service.ts.
-- Accuracy, speed and heading are stored and read by nothing here: they are one value of a type of
-- the caller's, and a test of it stands for the CHECK constraints on what PostgreSQL rounds it to.
pub mod Newest
mod Tests
use gove.Prelude.{
  ℕ, ◌+◌, Bool, true, false, not, ◌&&◌, ◌||◌, ◌∷◌, Option, none, some, find?, Result, ok, err, ltb,
  leb, ◌==◌, if◌then◌else◌,
}
use gove.Prelude.Text.{Text, text_eq}
use gove.Prelude.OrderedMap.{OrderedMap}
use gove.Database.{pure, gets, modify, throw_when, transaction, update, ◌>>=◌, ◌>>◌}
use gove.Dispatch.Tables.{
  Uuid, Point, DriverLocation, Db, Env, Work, Thrown, check_violation,
  latest_driver_locations_ranges, latest_driver_locations_timestamp_skew,
}
use gove.Location.RateLimiter.{try_accept}

pub data LocationSource : Type 0 where
  gps network simulator : LocationSource

pub record LatestLocationInput (Measurement : Type 0) : Type 0 where
  pub location : Point
  pub measurement : Measurement
  pub captured_at : Option ℕ
  pub source : LocationSource
  pub sequence_number : ℕ

pub record LatestLocationRow : Type 0 where
  pub driver_user_id : Uuid
  pub captured_at : ℕ
  pub received_at : ℕ
  pub sequence_number : ℕ
  pub accepted : Bool

abbrev pub to_location_row : Bool → DriverLocation → LatestLocationRow
to_location_row accepted l = record {
  driver_user_id = l.driver_user_id;
  captured_at = l.captured_at;
  received_at = l.received_at;
  sequence_number = l.sequence_number;
  accepted = accepted;
}

-- `input.capturedAt ? new Date(input.capturedAt) : new Date()`
abbrev pub captured_or_now : Env → Option ℕ → ℕ
captured_or_now env none = env.date_now
captured_or_now env (some captured_at) = captured_at

-- The WHERE of ON CONFLICT DO UPDATE.
abbrev pub is_newer : DriverLocation → DriverLocation → Bool
is_newer excluded l =
    ltb l.sequence_number excluded.sequence_number
    || (excluded.sequence_number == l.sequence_number && ltb l.captured_at excluded.captured_at)

abbrev pub is_location_of : Uuid → DriverLocation → Bool
is_location_of driver_user_id l = text_eq l.driver_user_id driver_user_id

-- INSERT ... ON CONFLICT DO UPDATE, which returns a row when it writes one.
unfoldable pub upsert_location :
    DriverLocation → Option DriverLocation → Work (Option DriverLocation)
upsert_location excluded none =
    (modify λ db. record db { locations = excluded ∷ db.locations }) >> pure (some excluded)
upsert_location excluded (some current) =
    if is_newer excluded current
    then (modify λ db. record db {
      locations = update (is_location_of excluded.driver_user_id) (λ l. excluded) db.locations;
    })
      >> pure (some excluded)
    else pure none

abbrev pub current_row : Option DriverLocation → Option LatestLocationRow
current_row none = none
current_row (some l) = some (to_location_row false l)

-- Where the INSERT wrote nothing, the row that is there is read.
unfoldable pub answer_upsert : Uuid → Option DriverLocation → Work (Option LatestLocationRow)
answer_upsert driver_user_id (some written) = pure (some (to_location_row true written))
answer_upsert driver_user_id none =
    gets λ db. current_row (find? (is_location_of driver_user_id) db.locations)

module _ {Measurement : Type 0} where
  abbrev pub new_location : Env → Uuid → LatestLocationInput Measurement → DriverLocation
  new_location env driver_user_id input = record {
    driver_user_id = driver_user_id;
    location = input.location;
    captured_at = captured_or_now env input.captured_at;
    received_at = env.now;
    sequence_number = input.sequence_number;
  }

  -- At most five minutes ahead of the database's clock.
  abbrev pub is_plausible : Env → LatestLocationInput Measurement → Bool
  is_plausible env input = leb (captured_or_now env input.captured_at) (env.now + 300000)

  unfoldable pub upsert_latest :
      (Measurement → Bool)
      → Env
      → Uuid
      → LatestLocationInput Measurement
      → Work (Option LatestLocationRow)
  unfolding upsert_location answer_upsert
  upsert_latest is_in_range env driver_user_id input = do
    throw_when (not (is_in_range input.measurement))
        (check_violation latest_driver_locations_ranges)
    throw_when (not (is_plausible env input))
        (check_violation latest_driver_locations_timestamp_skew)
    stored ← gets λ db. find? (is_location_of driver_user_id) db.locations
    written ← upsert_location (new_location env driver_user_id input) stored
    answer_upsert driver_user_id written

-- What updateLatest throws.
pub data LocationError : Type 0 where
  driver_location_simulator_disabled driver_location_rate_limited : LocationError
  database_error : Thrown → LocationError

abbrev pub is_simulator : LocationSource → Bool
is_simulator simulator = true
is_simulator _ = false

abbrev pub wrap_error : {A : Type 0} → Result Thrown A → Result LocationError A
wrap_error (ok a) = ok a
wrap_error (err e) = err (database_error e)

-- The limiter and the tables, which a failed write leaves as they are.
pub record LocationState : Type 0 where
  pub limiter : OrderedMap ℕ
  pub db : Db

-- The repository's call, once the limiter has answered.
abbrev pub write_admitted :
    OrderedMap ℕ × Bool
    → Work (Option LatestLocationRow)
    → Db
    → Result LocationError (Option LatestLocationRow) × LocationState
write_admitted (limiter, false) work db =
    (err driver_location_rate_limited, record { limiter = limiter; db = db })
write_admitted (limiter, true) work db =
    let outcome = transaction work db in
    (wrap_error outcome.0, record { limiter = limiter; db = outcome.1 })

-- LocationService.updateLatest, `production` being NODE_ENV === 'production'.
unfoldable pub update_latest :
    {Measurement : Type 0}
    → (Measurement → Bool)
    → Bool
    → Env
    → Uuid
    → LatestLocationInput Measurement
    → LocationState
    → Result LocationError (Option LatestLocationRow) × LocationState
unfolding try_accept upsert_latest transaction
update_latest is_in_range production env driver_user_id input s =
    if production && is_simulator input.source
    then (err driver_location_simulator_disabled, s)
    else write_admitted (try_accept s.limiter env.date_now driver_user_id)
        (upsert_latest is_in_range env driver_user_id input) s.db
