-- ===== src/Trip.antt =====
-- apps/api/src/trip: the life cycle of a Trip.
pub mod Lifecycle
pub mod Rows
pub mod Repository
