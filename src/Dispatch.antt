-- ===== src/Dispatch.antt =====
-- apps/api/src/dispatch: the matching of Trips with Drivers.
pub mod ExpiryPolicy
pub mod Ranking
pub mod Tables
pub mod Repository
