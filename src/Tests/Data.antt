-- ===== src/Tests/Data.antt =====
-- The inputs of the runs: a walk of processed points, its settings and its state.
use wrany.Prelude.{ℕ, ◌+◌, true, false, none, some, String, List, [], ◌∷◌, Time, Uuid, seconds}
use wrany.Float64.{Milli, milli}
use wrany.Domain.Point.{NoiseReason, ProcessedLocationPoint, NoiseConfig, default_noise_config}
use wrany.Domain.Trip.{
  TripDetectionState, TripDetectionConfig, default_trip_detection_config, default_state,
}

abbrev pub fresh : ℕ → Uuid
fresh n = 100 + n

abbrev pub cfg : TripDetectionConfig Milli
cfg = default_trip_detection_config

abbrev pub noise : NoiseConfig Milli
noise = default_noise_config

abbrev pub idle_state : TripDetectionState Milli
idle_state = default_state 1 2

-- A clean point at `secs` seconds, `distance` thousandths of a metre on from the one before.
abbrev pub step_at : String → ℕ → ℕ → ProcessedLocationPoint Milli
step_at event_id secs distance = record {
  user_id = 1;
  device_id = 2;
  event_id = event_id;
  raw_lat = 10_000;
  raw_lon = 20_000;
  filtered_lat = some 10_000;
  filtered_lon = some 20_000;
  accuracy_m = 5_000;
  speed_mps = some 1_500;
  implied_speed_mps = 1_500;
  distance_delta_m = distance;
  activity_type = "walking";
  activity_confidence = none;
  is_accepted = true;
  is_outlier = false;
  is_stationary = false;
  noise_reason = NoiseReason.accepted_clean;
  stationary_since = none;
  algorithm_version = 4;
  recorded_at = seconds secs;
  received_at = seconds secs;
  processed_at = seconds secs;
}

abbrev pub rejected_step : ProcessedLocationPoint Milli
rejected_step = record (step_at "r" 1_015 0) {
  is_accepted = false;
  filtered_lat = none;
  filtered_lon = none;
}

-- Long and far enough for a trip.
abbrev pub walk : List (ProcessedLocationPoint Milli)
walk =
    step_at "a" 1_000 10_000
    ∷ rejected_step
    ∷ step_at "b" 1_020 30_000
    ∷ step_at "c" 1_040 30_000
    ∷ step_at "d" 1_060 30_000
    ∷ step_at "e" 1_080 30_000
    ∷ []

abbrev pub later : Time
later = seconds 1_200
