-- ===== src/Job/Cycle.antt =====
-- `RunOnce` and `processPair`: services/tracking-worker/internal/usecase/trip_detection_job.go, over
-- the interface `TripDetectionRepository`.
use wrany.Prelude.{
  ℕ, ◌+◌, ◌-◌, Option, none, some, ◌>>=◌, List, [], ◌∷◌, ◌++◌, Time, Uuid, seconds, length,
  option_map, read_or, ltb, if◌then◌else◌,
}
use wrany.Float64.{Float64}
use wrany.Domain.Point.{RawLocationPoint, ProcessedLocationPoint, NoiseConfig}
use wrany.Domain.Trip.{TripDetectionState, TripDetectionConfig, TripDetectionBatch}
use wrany.Detection.Command.{ProcessBatchResult}
use wrany.Detection.Machine
use wrany.Noise.Pipeline
use wrany.Job.Batch.{build_batch}
use wrany.Job.Publish.{Wiring, Message, publish_events}

-- `S` is the database. Reads may fail. `apply_batch` may panic, which is its outer `none`; it is one
-- transaction, so that its failure, the inner `none`, leaves the database as it was.
pub record TripDetectionRepository (W : Type 0) (S : Type 0) : Type 0 where
  pub load_pairs : Time → S → Option (List (Uuid × Uuid))
  pub load_state : Uuid → Uuid → S → Option (TripDetectionState W)
  pub fetch_unprocessed_points : Uuid → Uuid → Time → Time → S → Option (List (RawLocationPoint W))
  pub fetch_processed_history :
      Uuid → Uuid → Time → ℕ → S → Option (List (ProcessedLocationPoint W))
  pub apply_batch : TripDetectionBatch W → S → Option (Option S)

-- What a cycle changes: the database, the calls of `uuid.New`, and what was published.
pub record Work (S : Type 0) : Type 0 where
  pub store : S
  pub issued : ℕ
  pub published : List Message

-- 24 hours
abbrev pub max_lookback : ℕ
max_lookback = seconds 86_400

module _ {W : Type 0} {S : Type 0} ⦃f : Float64 W⦄ (repo : TripDetectionRepository W S)
    (w : Wiring W) (cfg : TripDetectionConfig W) (noise : NoiseConfig W) where
  open repo use {
    load_pairs, load_state, fetch_unprocessed_points, fetch_processed_history, apply_batch,
  }

  abbrev pub window_end : TripDetectionState W → Time → Time
  window_end s now = now - seconds s.late_arrival_window_sec

  abbrev pub window_begin : TripDetectionState W → Time → Time
  window_begin s now = elim s.last_processed_at [
    | none ↦ window_end s now - max_lookback
    | some last ↦ last - seconds s.late_arrival_window_sec
  ]

  -- The batch is written, and only then published.
  unfoldable pub commit :
      ProcessBatchResult W → TripDetectionBatch W → Time → Work S → Option (Work S)
  commit result batch now work = do
    answer ← apply_batch batch work.store
    read_or answer (some (record work { issued = result.issued })) λ stored.
        option_map
          (λ sent. record {
            store = stored;
            issued = result.issued + length result.commands;
            published = work.published ++ sent;
          })
          (publish_events w now result.issued result.commands)

  -- From the points of the window to the batch; the detection and the building of the batch may
  -- panic.
  unfoldable pub detect :
      TripDetectionState W
      → List (RawLocationPoint W)
      → List (ProcessedLocationPoint W)
      → Time
      → Work S
      → Option (Work S)
  detect s points history now work = do
    let noise_result = Pipeline.process_batch noise history points s.last_processed_at now
    result ← Machine.process_batch w.fresh cfg s work.issued noise_result.accepted now
    batch ← build_batch result
    commit result (record batch { processed_points = noise_result.processed }) now work

  -- The part of `processPair` behind the check of its window.
  unfoldable pub fetch_and_detect :
      Uuid → Uuid → TripDetectionState W → Time → Work S → Option (Work S)
  fetch_and_detect user device s now work =
      let begin = window_begin s now in
      let end = window_end s now in
      read_or (fetch_unprocessed_points user device begin end work.store) (some work) λ points.
        read_or (fetch_processed_history user device end 100 work.store) (some work)
          λ history. detect s points history now work

  -- An outer `none` is a panic. An error is logged by the caller, and leaves the work as it is.
  unfoldable pub process_pair : Uuid → Uuid → Time → Work S → Option (Work S)
  process_pair user device now work = read_or (load_state user device work.store) (some work) λ s.
      if ltb (window_begin s now) (window_end s now)
      then fetch_and_detect user device s now work
      else some work

  unfoldable pub process_pairs : List (Uuid × Uuid) → Time → Work S → Option (Work S)
  process_pairs [] now work = some work
  process_pairs ((user, device) ∷ rest) now work = do
    next ← process_pair user device now work
    process_pairs rest now next

  -- An error of the first query ends the cycle.
  unfoldable pub run_once : Time → Work S → Option (Work S)
  run_once now work =
      read_or (load_pairs (now - seconds cfg.late_arrival_window_sec) work.store) (some work)
        λ pairs. process_pairs pairs now work
