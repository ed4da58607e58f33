-- ===== src/Noise.antt =====
-- The noise pipeline of the worker: services/tracking-worker/internal/usecase/noise/pipeline.go.
pub mod Checks
pub mod Window
pub mod Pipeline
pub mod Reasons
pub mod Verdict
pub mod Accounting
