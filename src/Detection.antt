-- ===== src/Detection.antt =====
-- The trip detection state machine of the worker:
-- services/tracking-worker/internal/usecase/trip_detection.go.
pub mod Command
pub mod Machine
pub mod Protocol
pub mod Soundness
pub mod Opening
pub mod Invariant
pub mod Batch
pub mod Frame
pub mod Confirmation
