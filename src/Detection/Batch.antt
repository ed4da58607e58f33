-- ===== src/Detection/Batch.antt =====
-- `ProcessBatch` as a whole: panics, the state it returns, and its commands:
-- services/tracking-worker/internal/usecase/trip_detection.go.
use wrany.Prelude.{
  ℕ, ◌≡◌, refl, Option, none, some, List, [], ◌∷◌, Time, Uuid, All, Yields, Yields-bind,
  Yields-exists, Yields-map, Yields-some, inl, false, arith,
}
use wrany.Float64.{Float64}
use wrany.Domain.Point.{ProcessedLocationPoint}
use wrany.Domain.Trip.{TripState, TripDetectionState, TripDetectionConfig}
use wrany.Detection.Command.{ProcessBatchResult}
use wrany.Detection.Protocol.{replay, IsComplete}
use wrany.Detection.Machine.{
  Run, Sample, note_point, sample_of, step_sample, process_points, flush_active, flush_if_active,
  start_run, finish_run, process_batch,
}
use wrany.Detection.Soundness.{Pending, IsSound, RunOk}
use wrany.Detection.Opening.{flush_active-Ok}
use wrany.Detection.Invariant.{dispatch-Ok}

abbrev pub Promise : {W : Type 0} → TripDetectionState W → ProcessBatchResult W → Type 0
Promise s result =
    IsSound result.new_state
    × (replay s.active_trip_id result.commands ≡ some result.new_state.active_trip_id)
    × All IsComplete result.commands

start-Pending : (k : TripState) (o : Option Uuid) → Pending k o [] false
start-Pending TripState.trip_active none = refl
start-Pending TripState.trip_active (some id) = (tt, inl refl)
start-Pending TripState.idle o = refl
start-Pending _ o = refl

module _ {W : Type 0} ⦃f : Float64 W⦄ where
  note_point-Ok :
      (start : Option Uuid) (x : Sample W) (r : Run W)
      → RunOk start r
      → RunOk start (note_point x r)
  unfolding note_point
  note_point-Ok start x r h = record {
    fits = ground (arith, h.fits);
    pending = h.pending;
    replayed = h.replayed;
    complete = h.complete;
  }

  module _ (fresh : ℕ → Uuid) (cfg : TripDetectionConfig W) (now : Time) where
    step_sample-Ok :
        (start : Option Uuid) (o : Option (Sample W)) (r : Run W)
        → RunOk start r
        → Yields (RunOk start) (step_sample fresh cfg now o r)
    unfolding step_sample
    step_sample-Ok start none r h = h
    step_sample-Ok start (some x) r h =
        Yields-bind (RunOk start) (RunOk start) _ _ (dispatch-Ok start fresh cfg now _ x r refl h)
          λ q ok. note_point-Ok start x q ok

    process_points-Ok :
        (start : Option Uuid) (ps : List (ProcessedLocationPoint W)) (r : Run W)
        → RunOk start r
        → Yields (RunOk start) (process_points fresh cfg now ps r)
    unfolding process_points
    process_points-Ok start [] r h = h
    process_points-Ok start (p ∷ ps) r h =
        Yields-bind (RunOk start) (RunOk start) _ _ (step_sample-Ok start (sample_of cfg p) r h)
          λ q ok. process_points-Ok start ps q ok

    flush_if_active-Ok :
        (start : Option Uuid) (k : TripState) (r : Run W)
        → r.new_state.state ≡ k
        → RunOk start r
        → Yields (RunOk start) (flush_if_active k r)
    flush_if_active-Ok start TripState.trip_active r e h =
        Yields-map _ (RunOk start) (flush_active r) (flush_active-Ok start r e h) λ q ok. ok.0
    flush_if_active-Ok start TripState.idle r e h = h
    flush_if_active-Ok start _ r e h = h

    start_run-Ok :
        (s : TripDetectionState W) (issued : ℕ)
        → IsSound s
        → RunOk s.active_trip_id (start_run s issued)
    unfolding start_run replay
    start_run-Ok s issued h = record {
      fits = h;
      pending = start-Pending s.state s.active_trip_id;
      replayed = refl;
      complete = tt;
    }

    pub process_batch-Ok :
        (s : TripDetectionState W) (issued : ℕ) (ps : List (ProcessedLocationPoint W))
        → IsSound s
        → Yields (Promise s) (process_batch fresh cfg s issued ps now)
    unfolding process_batch finish_run
    process_batch-Ok s issued ps h =
        let start = s.active_trip_id in
        Yields-bind (RunOk start) _ _ _
          (process_points-Ok start ps (start_run s issued) (start_run-Ok s issued h))
          λ r ok.
            Yields-bind (RunOk start) _ _ _ (flush_if_active-Ok start _ r refl ok)
              λ q done. (ground (arith, done.fits), done.replayed, done.complete)

    -- From a sound state `ProcessBatch` does not panic, whatever the points are. The state that it
    -- returns is sound again, and its commands, replayed from the trip that was active before them,
    -- keep to the life of a trip (created only when none is active; updated and completed only while
    -- it is the active one) and end in the trip that the new state names as active.
    pub process_batch_lifecycle :
        (s : TripDetectionState W) (issued : ℕ) (ps : List (ProcessedLocationPoint W))
        → IsSound s
        → (result : ProcessBatchResult W) × (process_batch fresh cfg s issued ps now ≡ some result)
          × IsSound result.new_state
          × (replay s.active_trip_id result.commands ≡ some result.new_state.active_trip_id)
    process_batch_lifecycle s issued ps h =
        let (result, e, done) = Yields-exists (Promise s) _ (process_batch-Ok s issued ps h) in
        (result, e, done.0, done.1)

    -- Every command of a batch that began in a sound state carries what its readers dereference: a
    -- new trip under the command's id with its start and at least one point; an update with as many
    -- points as it counts, at least one, and the time of the last; a completion with its time and
    -- place. All its points are tagged with its trip.
    pub process_batch_commands :
        (s : TripDetectionState W) (issued : ℕ) (ps : List (ProcessedLocationPoint W))
        {result : ProcessBatchResult W}
        → IsSound s
        → process_batch fresh cfg s issued ps now ≡ some result
        → All IsComplete result.commands
    process_batch_commands s issued ps h e =
        (Yields-some (Promise s) _ (process_batch-Ok s issued ps h) e).2
