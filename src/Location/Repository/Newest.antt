-- ===== src/Location/Repository/Newest.antt =====
-- Which report of a Driver apps/api/src/location/location.repository.ts keeps.
use gove.Prelude.{
  ℕ, ◌≡◌, refl, ap, ◌∙◌, subst, Bool, false, ◌&&◌, ◌||◌, inl, inr, List, [], ◌∷◌, Option, none,
  some, find?, arith, ltb, ◌==◌, if◌then◌else◌, Bool-cases,
}
use gove.Prelude.Text.{text_eq, text_eq→eq, text_eq_refl}
use gove.Database.{transaction, update, ◌>>=◌}
use gove.Dispatch.Tables.{Uuid, DriverLocation, Db, Env}
use gove.Location.Repository.{
  LatestLocationInput, captured_or_now, is_newer, is_location_of, upsert_location, answer_upsert,
  new_location, is_plausible, upsert_latest,
}

-- The sequence number and the time of a report, by which reports are compared.
abbrev pub Version : Type 0
Version = ℕ × ℕ

abbrev pub later_version : Version → Option Version → Version
later_version v none = v
later_version v (some w) = if ltb w.0 v.0 || (v.0 == w.0 && ltb w.1 v.1) then v else w

abbrev pub version : DriverLocation → Version
version l = (l.sequence_number, l.captured_at)

abbrev version_of_row : Option DriverLocation → Option Version
version_of_row none = none
version_of_row (some l) = some (version l)

-- The version that is stored for a Driver.
abbrev pub stored_version : Uuid → List DriverLocation → Option Version
stored_version driver ls = version_of_row (find? (is_location_of driver) ls)

find-update_other :
    (driver : Uuid) (new : DriverLocation) (ls : List DriverLocation)
    → text_eq new.driver_user_id driver ≡ false
    → find? (is_location_of driver) (update (is_location_of new.driver_user_id) (λ l. new) ls)
      ≡ find? (is_location_of driver) ls
find-update_other driver new [] other = refl
find-update_other driver new (l ∷ ls) other =
    ground
      (arith, find-update_other driver new ls other, text_eq→eq l.driver_user_id new.driver_user_id)

find-update_self :
    (new current : DriverLocation) (ls : List DriverLocation)
    → find? (is_location_of new.driver_user_id) ls ≡ some current
    → find?
        (is_location_of new.driver_user_id)
        (update (is_location_of new.driver_user_id) (λ l. new) ls)
      ≡ some new
find-update_self new current [] e = cc
find-update_self new current (l ∷ ls) e =
    ground (arith, find-update_self new current ls, text_eq_refl new.driver_user_id)

-- The write, where the Driver that is asked for is the one that reports.
upsert_location_self :
    (new : DriverLocation) (db : Db) (stored : Option DriverLocation)
    → find? (is_location_of new.driver_user_id) db.locations ≡ stored
    → stored_version new.driver_user_id
        (transaction
          (upsert_location new stored >>= answer_upsert new.driver_user_id)
          db).1.locations
      ≡ some (later_version (version new) (version_of_row stored))
unfolding transaction upsert_location answer_upsert ◌>>=◌
upsert_location_self new db none e = rw (text_eq_refl new.driver_user_id) refl
upsert_location_self new db (some current) e = elim (Bool-cases (is_newer new current)) [
  | inl newer ↦ rw (newer, find-update_self new current db.locations e) refl
  | inr older ↦ rw (older, e) refl
]

-- The write, where another Driver is asked for.
upsert_location_other :
    (driver : Uuid) (new : DriverLocation) (db : Db) (stored : Option DriverLocation)
    → text_eq new.driver_user_id driver ≡ false
    → stored_version driver
        (transaction
          (upsert_location new stored >>= answer_upsert new.driver_user_id)
          db).1.locations
      ≡ stored_version driver db.locations
unfolding transaction upsert_location answer_upsert ◌>>=◌
upsert_location_other driver new db none other = rw other refl
upsert_location_other driver new db (some current) other =
    elim (Bool-cases (is_newer new current)) [
      | inl newer ↦ rw (newer, find-update_other driver new db.locations other) refl
      | inr older ↦ rw older refl
    ]

module _ {Measurement : Type 0} (is_in_range : Measurement → Bool) where
  -- Reports that arrive one after the other, each with its readings and its Driver.
  unfoldable pub upsert_all : List (Env × Uuid × LatestLocationInput Measurement) → Db → Db
  upsert_all [] db = db
  upsert_all ((env, driver, input) ∷ reports) db =
      upsert_all reports (transaction (upsert_latest is_in_range env driver input) db).1

  -- The latest of a version and those of the Driver's reports that the CHECK constraints allow.
  abbrev pub latest_version :
      Uuid → List (Env × Uuid × LatestLocationInput Measurement) → Option Version → Option Version
  latest_version driver [] v = v
  latest_version driver ((env, d, input) ∷ reports) v = latest_version driver reports (
      if text_eq d driver && (is_in_range input.measurement && is_plausible env input)
      then some (later_version (input.sequence_number, captured_or_now env input.captured_at) v)
      else v)

  upsert_latest-stored :
      (env : Env) (driver d : Uuid) (input : LatestLocationInput Measurement) (db : Db)
      → stored_version driver (transaction (upsert_latest is_in_range env d input) db).1.locations
        ≡ (if text_eq d driver && (is_in_range input.measurement && is_plausible env input)
            then some (
                later_version
                  (input.sequence_number, captured_or_now env input.captured_at)
                  (stored_version driver db.locations))
            else stored_version driver db.locations)
  unfolding transaction upsert_latest upsert_location answer_upsert ◌>>=◌
  upsert_latest-stored env driver d input db = elim (Bool-cases (is_in_range input.measurement)) [
    | inl r ↦ elim (Bool-cases (is_plausible env input)) [
      | inl p ↦ elim (Bool-cases (text_eq d driver)) [
        | inl same ↦
            let stored : stored_version driver
                  (transaction
                    (upsert_location (new_location env d input)
                        (find? (is_location_of d) db.locations)
                      >>= answer_upsert d)
                    db).1.locations
                ≡ some (
                    later_version (version (new_location env d input))
                      (stored_version driver db.locations)) =
              subst
                (λ k.
                  stored_version k
                    (transaction
                      (upsert_location (new_location env d input)
                          (find? (is_location_of d) db.locations)
                        >>= answer_upsert d)
                      db).1.locations
                  ≡ some (
                      later_version (version (new_location env d input))
                        (stored_version k db.locations)))
                (text_eq→eq d driver same)
                (upsert_location_self (new_location env d input) db
                  (find? (is_location_of d) db.locations) refl) in
            rw (r, p, same) stored
        | inr other ↦
            rw (r, p, other)
              (upsert_location_other driver (new_location env d input) db
                (find? (is_location_of d) db.locations) other)
      ]
      | inr p ↦ ground (arith, r, p)
    ]
    | inr r ↦ ground (arith, r)
  ]

  -- After any reports, in whatever order they arrive, the version that is stored for a Driver is
  -- the latest of the one stored before and those of the Driver's reports that the CHECK
  -- constraints allow.
  pub upsert_all-latest_version :
      (driver : Uuid) (reports : List (Env × Uuid × LatestLocationInput Measurement)) (db : Db)
      → stored_version driver (upsert_all reports db).locations
        ≡ latest_version driver reports (stored_version driver db.locations)
  unfolding upsert_all
  upsert_all-latest_version driver [] db = refl
  upsert_all-latest_version driver ((env, d, input) ∷ reports) db =
      upsert_all-latest_version driver reports
        (transaction (upsert_latest is_in_range env d input) db).1
      ∙ ap (latest_version driver reports) (upsert_latest-stored env driver d input db)
