-- ===== src/Domain/Trip.antt =====
-- Trips, the persisted detection state, its settings and the batch that the repository applies:
-- services/tracking-worker/internal/domain/trip.go.
use wrany.Prelude.{ℕ, Option, none, String, List, Time, Uuid}
use wrany.Float64.{Float64, nought}
use wrany.Domain.Point.{ProcessedLocationPoint}

pub data TripStatus : Type 0 where
  active completed : TripStatus

-- The state is stored as text; `unknown` is any text that is none of the four constants.
pub data TripState : Type 0 where
  idle motion_candidate trip_active stop_candidate : TripState
  unknown : String → TripState

pub record Trip (W : Type 0) : Type 0 where
  pub id : Uuid
  pub user_id : Uuid
  pub device_id : Uuid
  pub status : TripStatus
  pub started_at : Time
  pub ended_at : Option Time
  pub start_lat : W
  pub start_lon : W
  pub end_lat : Option W
  pub end_lon : Option W
  pub distance_m : W
  pub duration_sec : ℕ
  pub points_count : ℕ
  pub created_at : Time
  pub updated_at : Time

pub record TripPoint : Type 0 where
  pub trip_id : Uuid
  pub user_id : Uuid
  pub device_id : Uuid
  pub event_id : String
  pub recorded_at : Time

pub record TripDetectionState (W : Type 0) : Type 0 where
  pub user_id : Uuid
  pub device_id : Uuid
  pub state : TripState
  pub active_trip_id : Option Uuid
  pub candidate_started_at : Option Time
  pub candidate_start_point_id : Option String
  pub candidate_distance_m : W
  pub candidate_start_lat : Option W
  pub candidate_start_lon : Option W
  pub candidate_good_points : ℕ
  pub stop_started_at : Option Time
  pub stop_center_lat : Option W
  pub stop_center_lon : Option W
  pub last_point_lat : Option W
  pub last_point_lon : Option W
  pub last_processed_at : Option Time
  pub last_watermark_at : Option Time
  pub late_arrival_window_sec : ℕ
  pub updated_at : Time

pub record TripDetectionConfig (W : Type 0) : Type 0 where
  pub motion_min_duration_sec : ℕ
  pub motion_min_distance_m : W
  pub motion_min_good_points : ℕ
  pub movement_min_speed_mps : W
  pub movement_max_speed_mps : W
  pub activity_confidence : W
  pub stop_min_duration_sec : ℕ
  pub stop_radius_m : W
  pub late_arrival_window_sec : ℕ

pub record TripStatsDelta (W : Type 0) : Type 0 where
  pub trip_id : Uuid
  pub delta_dist_m : W
  pub delta_pts : ℕ
  pub last_pt_at : Option Time
  pub last_lat : Option W
  pub last_lon : Option W

pub record TripCompletion (W : Type 0) : Type 0 where
  pub trip_id : Uuid
  pub ended_at : Time
  pub end_lat : W
  pub end_lon : W

-- `backfill_since` is the map as its writes, in order; `new_trips` holds pointers.
pub record TripDetectionBatch (W : Type 0) : Type 0 where
  pub new_state : TripDetectionState W
  pub processed_points : List (ProcessedLocationPoint W)
  pub new_trips : List (Option (Trip W))
  pub backfill_since : List (Uuid × Time)
  pub updated_trips : List (TripStatsDelta W)
  pub completed_trips : List (TripCompletion W)
  pub new_points : List TripPoint

module _ {W : Type 0} ⦃f : Float64 W⦄ where
  open f use {decimal, of_ℕ}

  abbrev pub default_trip_detection_config : TripDetectionConfig W
  default_trip_detection_config = record {
    motion_min_duration_sec = 45;
    motion_min_distance_m = of_ℕ 60;
    motion_min_good_points = 3;
    movement_min_speed_mps = decimal 6 1;
    movement_max_speed_mps = of_ℕ 7;
    activity_confidence = decimal 6 1;
    stop_min_duration_sec = 180;
    stop_radius_m = of_ℕ 40;
    late_arrival_window_sec = 45;
  }

  -- What `LoadState` answers for a pair with no row.
  abbrev pub default_state : Uuid → Uuid → TripDetectionState W
  default_state user device = record {
    user_id = user;
    device_id = device;
    state = TripState.idle;
    active_trip_id = none;
    candidate_started_at = none;
    candidate_start_point_id = none;
    candidate_distance_m = nought;
    candidate_start_lat = none;
    candidate_start_lon = none;
    candidate_good_points = 0;
    stop_started_at = none;
    stop_center_lat = none;
    stop_center_lon = none;
    last_point_lat = none;
    last_point_lon = none;
    last_processed_at = none;
    last_watermark_at = none;
    late_arrival_window_sec = 45;
    updated_at = 0;
  }
