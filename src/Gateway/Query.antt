-- ===== src/Gateway/Query.antt =====
-- Queries of the tracking gateway: services/tracking-gateway/internal/usecase/tracking_query.go.
pub mod Points
pub mod Sorted
pub mod Cut
pub mod Pages
pub mod Fast
pub mod Ranking
pub mod Runs
pub mod Ranks
pub mod Fastest
pub mod Answered
