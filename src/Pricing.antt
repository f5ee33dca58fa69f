-- ===== src/Pricing.antt =====
-- apps/api/src/pricing: the calculation of fares.
pub mod Fare
