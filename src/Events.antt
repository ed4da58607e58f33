-- ===== src/Events.antt =====
-- The event contracts of the bus: libs/events and its packages location, trip, route, deadletter.
pub mod Subject
pub mod Validation
pub mod Payloads
pub mod Build
