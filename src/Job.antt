-- ===== src/Job.antt =====
-- One detection cycle of the worker: services/tracking-worker/internal/usecase/trip_detection_job.go.
pub mod Batch
pub mod Publish
pub mod Cycle
pub mod Announce
pub mod Safety
pub mod Sorting
