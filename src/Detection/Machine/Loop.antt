-- ===== src/Detection/Machine/Loop.antt =====
-- The loop of `ProcessBatch` and its end,
-- services/tracking-worker/internal/usecase/trip_detection.go.
use Prim.Native.Nat.{◌-◌}
use wrany.Prelude.{ℕ, Option, none, some, ◌>>=◌, List, [], ◌∷◌, Time, Uuid, seconds, if◌then◌else◌}
use wrany.Float64.{Float64, nought}
use wrany.Domain.Point.{ProcessedLocationPoint, coordinates, is_movement_evidence}
use wrany.Domain.Trip.{TripState, TripDetectionState, TripDetectionConfig}
use wrany.Detection.Command.{ProcessBatchResult}
use wrany.Detection.Machine.Variables.{Run, Sample, flush_active, open_candidate}
use wrany.Detection.Machine.Candidate.{on_candidate}
use wrany.Detection.Machine.Active.{on_active, on_stop}

module _ {W : Type 0} ⦃f : Float64 W⦄ where
  open f use {of_ℕ, add, lt, le}

  -- The `switch` on the state.
  unfoldable pub dispatch :
      (ℕ → Uuid) → TripDetectionConfig W → Time → TripState → Sample W → Run W → Option (Run W)
  dispatch fresh cfg now TripState.idle x r = some (open_candidate x r)
  dispatch fresh cfg now TripState.motion_candidate x r = on_candidate fresh cfg now x r
  dispatch fresh cfg now TripState.trip_active x r = on_active cfg x r
  dispatch fresh cfg now TripState.stop_candidate x r = on_stop cfg x r
  dispatch fresh cfg now (TripState.unknown text) x r = some r

  unfoldable pub note_point : Sample W → Run W → Run W
  note_point x r =
      let s = r.new_state in
      record r {
        new_state = record s {
          last_processed_at = some x.point.recorded_at;
          last_point_lat = some x.lat;
          last_point_lon = some x.lon;
        };
      }

  -- What the loop makes of a point; `none` is a point that it skips.
  unfoldable pub sample_of : TripDetectionConfig W → ProcessedLocationPoint W → Option (Sample W)
  sample_of cfg p =
      let seen = do
        (lat, lon) ← coordinates p
        some (record {
          point = p;
          lat = lat;
          lon = lon;
          tp = record {
            trip_id = 0;
            user_id = p.user_id;
            device_id = p.device_id;
            event_id = p.event_id;
            recorded_at = p.recorded_at;
          };
          moving =
              is_movement_evidence p cfg.movement_min_speed_mps cfg.movement_max_speed_mps
                cfg.activity_confidence;
        })
      in if p.is_accepted then seen else none

  unfoldable pub step_sample :
      (ℕ → Uuid) → TripDetectionConfig W → Time → Option (Sample W) → Run W → Option (Run W)
  step_sample fresh cfg now none r = some r
  step_sample fresh cfg now (some x) r = do
    next ← dispatch fresh cfg now r.new_state.state x r
    some (note_point x next)

  unfoldable pub process_points :
      (ℕ → Uuid)
      → TripDetectionConfig W
      → Time
      → List (ProcessedLocationPoint W)
      → Run W
      → Option (Run W)
  process_points fresh cfg now [] r = some r
  process_points fresh cfg now (p ∷ ps) r = do
    next ← step_sample fresh cfg now (sample_of cfg p) r
    process_points fresh cfg now ps next

  abbrev pub flush_if_active : TripState → Run W → Option (Run W)
  flush_if_active TripState.trip_active r = flush_active r
  flush_if_active _ r = some r

  unfoldable pub start_run : TripDetectionState W → ℕ → Run W
  start_run s issued = record {
    new_state = s;
    commands = [];
    candidate_window = [];
    candidate_points = [];
    active_points = [];
    active_distance = nought;
    last_active = none;
    issued = issued;
  }

  unfoldable pub finish_run : Time → Run W → ProcessBatchResult W
  finish_run now r =
      let s = r.new_state in
      record {
        new_state = record s {
          last_watermark_at = some (now - seconds s.late_arrival_window_sec);
          updated_at = now;
        };
        commands = r.commands;
        issued = r.issued;
      }

  unfoldable pub process_batch :
      (ℕ → Uuid)
      → TripDetectionConfig W
      → TripDetectionState W
      → ℕ
      → List (ProcessedLocationPoint W)
      → Time
      → Option (ProcessBatchResult W)
  process_batch fresh cfg s issued points now = do
    run ← process_points fresh cfg now points (start_run s issued)
    flushed ← flush_if_active run.new_state.state run
    some (finish_run now flushed)
