-- ===== src/Delivery.antt =====
-- apps/api/src/delivery: the deliveries of parcels by the Drivers that also take Trips.
pub mod Rows
pub mod Repository
