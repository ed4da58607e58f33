-- ===== src/Detection/Machine.antt =====
-- `ProcessBatch`, one point at a time, with `startCandidate`, `resetCandidate` and `flushActive`:
-- services/tracking-worker/internal/usecase/trip_detection.go. A dereference of a nil pointer is the
-- panic `none`; `fresh n` is the answer of the n-th call of `uuid.New`.
mod Variables
mod Candidate
mod Active
mod Loop
unfoldable pub use Variables.*
unfoldable pub use Candidate.*
unfoldable pub use Active.*
unfoldable pub use Loop.*
