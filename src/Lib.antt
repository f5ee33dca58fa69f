-- ===== src/Lib.antt =====
-- Verification library of the Gove ride-hailing API.
--
-- The API (apps/api) quotes a fare, records a Trip, offers it to nearby Drivers one at a time, and
-- leads the accepted Trip to its end and to its payment. The same Drivers carry parcels. The pure
-- parts are functions of their input; the commands of the repositories are transactions on PostgreSQL.
--
-- Files, and what they model:
--   Prelude          shared names: tests on numbers, lists, results, JavaScript numbers (Int),
--                    strings (Text) and maps (OrderedMap)
--   Contracts        packages/contracts/src/index.ts, the enumerations
--   Trip.Lifecycle   apps/api/src/trip/domain/trip-lifecycle.ts
--   Pricing.Fare     apps/api/src/pricing/fare-quote.ts
--   Dispatch.ExpiryPolicy   apps/api/src/dispatch/dispatch-expiry-policy.ts
--   Dispatch.Ranking        apps/api/src/dispatch/dispatch-ranking.ts
--   Database         apps/api/src/database/database.service.ts: work on a state that may throw, with
--                    COMMIT on a value and ROLLBACK on an error
--   Dispatch.Tables  the rows that apps/api/src/dispatch/dispatch.repository.ts reads and writes
--   Dispatch.Repository     that file: shared statements. Matching has startMatching (its children
--                    the query for candidates and reserveNextOffer), Offers has rejectOffer and
--                    acceptOffer (answer_reserved is the part that both share), Expiry has
--                    expireDueOffers, Assigned has transitionAssignedTrip (its child the checks of
--                    the metering), WorkStates has setWorkState and getWorkState, Reads the other reads
--   Trip.Rows        the rows of Trips, quotes and cancellations, and their answers
--   Trip.Repository  apps/api/src/trip/trip.repository.ts: Create has createTrip, Cancel has cancelTrip,
--                    Reads has listHistory and findCurrentForCustomer
--   Payment.Rows, Payment.Provider, Payment.Repository, Payment.Service   apps/api/src/payment:
--                    payment-provider.ts, payment.repository.ts and payment.service.ts, whose capture is
--                    capture_payment
--   Delivery.Rows    the tables of the schema delivery; DeliveryDb holds them beside those of the
--                    other schemas (shared)
--   Delivery.Repository     apps/api/src/delivery/delivery.repository.ts: Create has createDelivery,
--                    Matching has startMatching and reserveOffer, Offers has acceptOffer and
--                    expireDueOffers, Assigned has transitionAssignedDelivery, Reads the rest
--   Http.RateLimiter apps/api/src/common/http/rate-limiter.ts
--   Location.RateLimiter, Location.Repository     apps/api/src/location: driver-location-rate-limiter.ts,
--                    and location.repository.ts with location.service.ts, whose updateLatest is
--                    update_latest
--
-- Names are those of the source in snake case. A function of the source that is long is cut into
-- steps that call each other in its order; acceptOffer is accept_offer_command.
--
-- Representation. A `number` that is computed with is an integer or not one (Number); a `number`
-- that is only compared is a multiple of 2^-1074 or not finite (Double). A string is the list of
-- its UTF-16 units. Ids are texts of UUIDs, times are milliseconds. A table is the list of its
-- rows; an UPDATE maps over it and counts the rows that it meets. A command takes now() of its
-- transaction, the readings of Date.now(), the ids of randomUUID, the distances of PostGIS,
-- EXTRACT(EPOCH ...) and the rows that SKIP LOCKED passes over as a record Env, about which
-- nothing is assumed. The locks that a command takes on its Trip and its key make a command one
-- step of the database. These constraints are tests of the model: the unique ones on Trips by
-- quote, Offers by attempt and by pending Offer, ACTIVE reservations, ACTIVE assignments,
-- transitions, outbox events of rides, deliveries and payments, cancellations, payment attempts
-- and delivery proofs; the primary keys of the three tables of command receipts; the CHECK
-- constraints on the number, resolution, reference and failure of a payment attempt and on a
-- Driver's location. The other constraints are not, among them the one on the
-- acceptance key of a Driver, and ids of randomUUID are not compared with those in use.
-- The payload of an outbox event repeats values that are stored beside it and is left out, as are
-- resolution reasons and the columns that no command reads. Quotients of doubles are taken exactly.
--
-- Beside the operations of the repositories of dispatch, Trips and deliveries stand Durable (what
-- becomes of the receipts that are stored), Receipts (the receipt that an operation stores) and
-- Promises (runs of requests). Dispatch.Repository.Replay has the requests for rides and Trips that
-- are made again, Delivery.Repository.Replay and Payment.Repository.Replay the others, and
-- Payment.Repository.Once the further charges of a Trip.
--
-- Loops are structural recursion: over the candidates, over the due Offers of a sweep (100 for rides,
-- 50 for deliveries), over the pending Offers that a cancellation revokes.
-- No definition uses fuel.
--
-- Not modelled: the repositories of quotes, operators and identities, controllers and the
-- mapping of errors to HTTP, the realtime gateway, HTTP clients, the web application and the
-- operations scripts.
pub mod Prelude
pub mod Contracts
pub mod Trip
pub mod Payment
pub mod Delivery
pub mod Pricing
pub mod Dispatch
pub mod Database
pub mod Http
pub mod Location
