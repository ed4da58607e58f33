-- ===== src/Route.antt =====
-- The matching of trips to routes: services/tracking-worker/internal/usecase/route_matching.go.
pub mod Polyline
pub mod Match
pub mod Job
pub mod Repository
pub mod Links
pub mod Choice
