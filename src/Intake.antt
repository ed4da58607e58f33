-- ===== src/Intake.antt =====
-- The worker's intake of location events: services/tracking-worker/internal/usecase/location_event_processor.go.
pub mod Process
pub mod Message
pub mod Settlement
pub mod Consume
