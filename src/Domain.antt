-- ===== src/Domain.antt =====
-- The data that the worker's parts share: services/tracking-worker/internal/domain.
pub mod Point
pub mod Trip
