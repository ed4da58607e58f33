-- ===== src/Domain/Point.antt =====
-- Raw and processed location points and the settings of the noise pipeline:
-- services/tracking-worker/internal/domain/raw_location_point.go and processed_location_point.go.
use wrany.Prelude.{
  ℕ, Bool, false, not, ◌&&◌, ◌||◌, Option, none, some, String, Time, Uuid, str_eq, both,
  get_or_else, if◌then◌else◌,
}
use wrany.Float64.{Float64, nought}

pub data NoiseReason : Type 0 where
  accepted_clean : NoiseReason  -- NoiseNone, the empty text
  poor_accuracy garbage_accuracy invalid_point teleport : NoiseReason
  jitter stationary late_arrival segment_break : NoiseReason

abbrev pub current_algorithm_version : ℕ
current_algorithm_version = 4

pub record RawLocationPoint (W : Type 0) : Type 0 where
  pub user_id : Uuid
  pub device_id : Uuid
  pub event_id : String
  pub recorded_at : Time
  pub received_at : Time
  pub lat : W
  pub lon : W
  pub accuracy_m : W
  pub speed_mps : Option W
  pub bearing_deg : Option W
  pub activity_type : String
  pub activity_confidence : Option W
  pub battery_level : Option W
  pub source : String

pub record ProcessedLocationPoint (W : Type 0) : Type 0 where
  pub user_id : Uuid
  pub device_id : Uuid
  pub event_id : String
  pub raw_lat : W
  pub raw_lon : W
  pub filtered_lat : Option W
  pub filtered_lon : Option W
  pub accuracy_m : W
  pub speed_mps : Option W
  pub implied_speed_mps : W
  pub distance_delta_m : W
  pub activity_type : String
  pub activity_confidence : Option W
  pub is_accepted : Bool
  pub is_outlier : Bool
  pub is_stationary : Bool
  pub noise_reason : NoiseReason
  pub stationary_since : Option Time
  pub algorithm_version : ℕ
  pub recorded_at : Time
  pub received_at : Time
  pub processed_at : Time

pub record NoiseConfig (W : Type 0) : Type 0 where
  pub good_accuracy_m : W
  pub usable_accuracy_m : W
  pub garbage_accuracy_m : W
  pub walking_max_speed_mps : W
  pub running_max_speed_mps : W
  pub bike_max_speed_mps : W
  pub vehicle_max_speed_mps : W
  pub noise_min_radius_m : W
  pub noise_max_radius_m : W
  pub smoothing_points : ℕ
  pub stationary_window_sec : ℕ
  pub stationary_min_duration_sec : ℕ
  pub stationary_radius_m : W
  pub stationary_max_speed_mps : W
  pub stationary_min_points : ℕ
  pub movement_min_speed_mps : W
  pub movement_good_points : ℕ
  pub activity_confidence : W
  pub late_arrival_window_sec : ℕ
  pub segment_max_gap_sec : ℕ

abbrev pub is_on_foot : String → Bool
is_on_foot activity = str_eq activity "walking" || str_eq activity "running"

module _ {W : Type 0} ⦃f : Float64 W⦄ where
  open f use {decimal, of_ℕ, lt, le}

  -- `none` is the result whose third part is false.
  unfoldable pub coordinates : ProcessedLocationPoint W → Option (W × W)
  coordinates p = both p.filtered_lat p.filtered_lon

  -- The measured speed, or the implied one where none was measured.
  abbrev pub speed_of : ProcessedLocationPoint W → W
  speed_of p = get_or_else p.speed_mps p.implied_speed_mps

  unfoldable pub is_movement_evidence : ProcessedLocationPoint W → W → W → W → Bool
  is_movement_evidence p min_speed max_speed min_confidence =
      let speed_matches = le min_speed (speed_of p) && le (speed_of p) max_speed in
      let activity_matches : Bool = elim p.activity_confidence [
        | none ↦ is_on_foot p.activity_type
        | some c ↦ is_on_foot p.activity_type && le min_confidence c
      ] in
      if not p.is_accepted || p.is_stationary || le p.distance_delta_m nought
      then false
      else activity_matches || speed_matches

  abbrev pub default_noise_config : NoiseConfig W
  default_noise_config = record {
    good_accuracy_m = of_ℕ 30;
    usable_accuracy_m = of_ℕ 50;
    garbage_accuracy_m = of_ℕ 100;
    walking_max_speed_mps = decimal 35 1;
    running_max_speed_mps = of_ℕ 7;
    bike_max_speed_mps = of_ℕ 15;
    vehicle_max_speed_mps = of_ℕ 60;
    noise_min_radius_m = of_ℕ 8;
    noise_max_radius_m = of_ℕ 30;
    smoothing_points = 5;
    stationary_window_sec = 60;
    stationary_min_duration_sec = 45;
    stationary_radius_m = of_ℕ 35;
    stationary_max_speed_mps = decimal 5 1;
    stationary_min_points = 4;
    movement_min_speed_mps = decimal 6 1;
    movement_good_points = 3;
    activity_confidence = decimal 6 1;
    late_arrival_window_sec = 45;
    segment_max_gap_sec = 120;
  }
