-- ===== src/Http.antt =====
-- apps/api/src/common/http: request limits.
pub mod RateLimiter
