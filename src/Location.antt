-- ===== src/Location.antt =====
-- apps/api/src/location: the reports of where a Driver is.
pub mod RateLimiter
pub mod Repository
