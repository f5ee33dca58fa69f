-- ===== src/Payment.antt =====
-- apps/api/src/payment: the payment of completed Trips.
pub mod Rows
pub mod Provider
pub mod Repository
pub mod Service
