-- ===== src/Detection/Machine/Variables.antt =====
-- The variables of `ProcessBatch` and the steps that several states share: `startCandidate`,
-- `resetCandidate`, `flushActive`,
-- services/tracking-worker/internal/usecase/trip_detection.go.
use wrany.Prelude.{
  ℕ, Bool, Option, none, some, ◌>>=◌, List, [], ◌∷◌, ◌++◌, Uuid, length, get_or_else, option_map,
  if◌then◌else◌,
}
use wrany.Float64.{Float64, nought}
use wrany.Domain.Point.{ProcessedLocationPoint, NoiseConfig, coordinates, default_noise_config}
use wrany.Domain.Trip.{TripState, TripPoint, TripDetectionState, TripDetectionConfig}
use wrany.Detection.Command.{CommandKind, TripCommand, bare_command}

abbrev pub with_trip : Uuid → TripPoint → TripPoint
with_trip id tp = record tp { trip_id = id }

abbrev pub without_candidate : TripState → TripState
without_candidate TripState.motion_candidate = TripState.idle
without_candidate other = other

-- The local variables of `ProcessBatch`. A nil `last_active` is `none`.
pub record Run (W : Type 0) : Type 0 where
  pub new_state : TripDetectionState W
  pub commands : List (TripCommand W)
  pub candidate_window : List (ProcessedLocationPoint W)
  pub candidate_points : List TripPoint
  pub active_points : List TripPoint
  pub active_distance : W
  pub last_active : Option (ProcessedLocationPoint W)
  pub issued : ℕ

-- A point with its coordinates, and the trip point and the verdict made of it.
pub record Sample (W : Type 0) : Type 0 where
  pub point : ProcessedLocationPoint W
  pub lat : W
  pub lon : W
  pub tp : TripPoint
  pub moving : Bool

module _ {W : Type 0} ⦃f : Float64 W⦄ where
  open f use {of_ℕ, add, lt, le}

  -- The settings that `NewTripDetectionUseCase` gives the movement analyzer.
  abbrev pub movement_config : TripDetectionConfig W → NoiseConfig W
  movement_config cfg =
      let base : NoiseConfig W = default_noise_config in
      record base {
        good_accuracy_m = of_ℕ 30;
        movement_min_speed_mps = cfg.movement_min_speed_mps;
        running_max_speed_mps = cfg.movement_max_speed_mps;
        movement_good_points = cfg.motion_min_good_points;
        activity_confidence = cfg.activity_confidence;
      }

  unfoldable pub start_candidate : TripDetectionState W → Sample W → TripDetectionState W
  start_candidate s x = record s {
    state = TripState.motion_candidate;
    candidate_started_at = some x.point.recorded_at;
    candidate_start_point_id = some x.point.event_id;
    candidate_start_lat = some x.lat;
    candidate_start_lon = some x.lon;
    candidate_distance_m = nought;
    candidate_good_points = 1;
  }

  unfoldable pub reset_candidate : TripDetectionState W → TripDetectionState W
  reset_candidate s = record s {
    candidate_started_at = none;
    candidate_start_point_id = none;
    candidate_distance_m = nought;
    candidate_start_lat = none;
    candidate_start_lon = none;
    candidate_good_points = 0;
    state = without_candidate s.state;
  }

  unfoldable pub clear_stop : TripDetectionState W → TripDetectionState W
  clear_stop s = record s { stop_started_at = none; stop_center_lat = none; stop_center_lon = none }

  -- The coordinates of `lastActive`, with its second and third result where it has none.
  abbrev pub last_coordinates : ProcessedLocationPoint W → W × W
  last_coordinates p = get_or_else (coordinates p) (nought, nought)

  unfoldable pub update_command : Uuid → Run W → TripCommand W
  update_command id r =
      let c = bare_command CommandKind.update_trip id in
      record c {
        delta_distance_m = r.active_distance;
        delta_points_count = length r.active_points;
        points = r.active_points;
        last_point_at = option_map (λ p. p.recorded_at) r.last_active;
        last_point_lat = option_map (λ p. (last_coordinates p).0) r.last_active;
        last_point_lon = option_map (λ p. (last_coordinates p).1) r.last_active;
      }

  unfoldable pub flush_points : List TripPoint → Run W → Option (Run W)
  flush_points [] r = some r
  flush_points (_ ∷ _) r = do
    id ← r.new_state.active_trip_id
    some (record r {
      commands = r.commands ++ update_command id r ∷ [];
      active_points = [];
      active_distance = nought;
      last_active = none;
    })

  unfoldable pub flush_active : Run W → Option (Run W)
  unfolding flush_points
  flush_active r = flush_points r.active_points r

  -- A point that is evidence of movement opens a candidate; the other leaves all as it is.
  unfoldable pub open_candidate : Sample W → Run W → Run W
  open_candidate x r =
      if x.moving
      then record r {
        new_state = start_candidate r.new_state x;
        candidate_window = r.candidate_window ++ x.point ∷ [];
        candidate_points = r.candidate_points ++ x.tp ∷ [];
      }
      else r
