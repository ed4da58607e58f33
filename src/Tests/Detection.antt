-- ===== src/Tests/Detection.antt =====
-- Runs of trip detection, and its theorems at a walk.
use wrany.Prelude.{
  ◌≡◌, refl, Option, none, some, List, [], ◌∷◌, map, keep, option_map, All, seconds,
}
use wrany.Float64.{Milli, milli, haversine_m}
use wrany.Domain.Point.{coordinates, is_movement_evidence}
use wrany.Domain.Trip.{TripState}
use wrany.Noise.Window.{analyze_movement}
use wrany.Detection.Command.{CommandKind, TripCommand, ProcessBatchResult}
use wrany.Detection.Machine.{
  process_batch, process_points, step_sample, sample_of, dispatch, start_run, note_point,
  open_candidate, start_candidate, on_candidate, is_gap_exceeded, extend_candidate, is_confirmed,
  confirm_trip, reset_candidate, candidate_trip, clear_stop, complete_trip, drop_candidate,
  end_by_gap, end_by_stop, extend_active, finish_run, flush_active, flush_points, keep_moving,
  on_active, on_stop, open_stop, resume_trip, update_command,
}
use wrany.Detection.Soundness.{IsSound}
use wrany.Detection.Protocol.{replay, IsComplete}
use wrany.Detection.Batch.{process_batch_lifecycle, process_batch_commands}
use wrany.Detection.Frame.{is_usable, process_batch_watermark, process_batch_ignores_unusable}
use wrany.Detection.Confirmation.{Meets, process_batch_confirms}
use wrany.Tests.Data.{fresh, cfg, idle_state, walk, later}

abbrev kinds_of : Option (ProcessBatchResult Milli) → Option (List CommandKind × TripState)
kinds_of o =
    option_map
      (λ (r : ProcessBatchResult Milli).
        (map (λ (c : TripCommand Milli). c.kind) r.commands, r.new_state.state))
      o

-- The walk creates a trip and updates it.
walk_commands :
    kinds_of (process_batch fresh cfg idle_state 0 walk later)
    ≡ some (CommandKind.create_trip ∷ CommandKind.update_trip ∷ [], TripState.trip_active)
unfolding process_batch process_points step_sample sample_of dispatch start_run note_point
    open_candidate start_candidate on_candidate is_gap_exceeded extend_candidate is_confirmed
    confirm_trip reset_candidate candidate_trip clear_stop complete_trip drop_candidate end_by_gap
    end_by_stop extend_active finish_run flush_active flush_points keep_moving on_active on_stop
    open_stop resume_trip update_command coordinates is_movement_evidence analyze_movement
    haversine_m
walk_commands = refl

-- The result of the walk.
abbrev walk_result : ProcessBatchResult Milli
walk_result = (process_batch_lifecycle fresh cfg later idle_state 0 walk refl).0

walk_runs : process_batch fresh cfg idle_state 0 walk later ≡ some walk_result
walk_runs = (process_batch_lifecycle fresh cfg later idle_state 0 walk refl).1

process_batch_lifecycle_example :
    (result : ProcessBatchResult Milli) × (process_batch fresh cfg idle_state 0 walk later
      ≡ some result)
    × IsSound result.new_state
    × (replay none result.commands ≡ some result.new_state.active_trip_id)
process_batch_lifecycle_example = process_batch_lifecycle fresh cfg later idle_state 0 walk refl

process_batch_commands_example : All IsComplete walk_result.commands
process_batch_commands_example =
    process_batch_commands fresh cfg later idle_state 0 walk {result = walk_result} refl walk_runs

process_batch_confirms_example : All (Meets cfg) walk_result.commands
process_batch_confirms_example =
    process_batch_confirms cfg fresh later idle_state 0 walk {result = walk_result} walk_runs

process_batch_watermark_example :
    (walk_result.new_state.user_id ≡ 1)
    × (walk_result.new_state.device_id ≡ 2)
    × (walk_result.new_state.late_arrival_window_sec ≡ 45)
    × (walk_result.new_state.last_watermark_at ≡ some (seconds 1_155))
    × (walk_result.new_state.updated_at ≡ later)
process_batch_watermark_example =
    process_batch_watermark fresh cfg later idle_state 0 walk {result = walk_result} walk_runs

process_batch_ignores_unusable_example :
    process_batch fresh cfg idle_state 0 (keep is_usable walk) later
    ≡ process_batch fresh cfg idle_state 0 walk later
process_batch_ignores_unusable_example =
    process_batch_ignores_unusable fresh cfg later idle_state 0 walk
