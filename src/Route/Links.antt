-- ===== src/Route/Links.antt =====
-- What the route matching job keeps of `routes` and `route_trips`, whatever statements fail.
pub mod Rows
pub mod Good
pub mod Changes
pub mod Fetched
pub mod Offered
pub mod Statements
pub mod Writes
pub mod Cycle
