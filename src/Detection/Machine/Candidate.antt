-- ===== src/Detection/Machine/Candidate.antt =====
-- `ProcessBatch` in the state of a motion candidate,
-- services/tracking-worker/internal/usecase/trip_detection.go.
use Prim.Native.Nat.{◌+◌, ◌-◌, ◌/◌}
use wrany.Prelude.{
  ℕ, suc, Bool, false, ◌&&◌, ◌||◌, Option, none, some, ◌>>=◌, [], ◌∷◌, ◌++◌, map, Time, Uuid,
  seconds, ltb, leb, if◌then◌else◌,
}
use wrany.Float64.{Float64}
use wrany.Domain.Trip.{TripStatus, TripState, Trip, TripDetectionState, TripDetectionConfig}
use wrany.Detection.Command.{create_command}
use wrany.Noise.Window.{analyze_movement}
use wrany.Detection.Machine.Variables.{
  with_trip, Run, Sample, movement_config, reset_candidate, open_candidate,
}

module _ {W : Type 0} ⦃f : Float64 W⦄ where
  open f use {of_ℕ, add, lt, le}

  -- More than the stop duration has passed since the last point.
  unfoldable pub is_gap_exceeded : TripDetectionConfig W → TripDetectionState W → Time → Bool
  is_gap_exceeded cfg s recorded_at = elim s.last_processed_at [
    | none ↦ false
    | some last ↦ ltb (last + seconds cfg.stop_min_duration_sec) recorded_at
  ]

  unfoldable pub candidate_trip :
      Uuid → Time → Time → W → W → TripDetectionState W → Sample W → Trip W
  candidate_trip id now started_at lat lon s x = record {
    id = id;
    user_id = x.point.user_id;
    device_id = x.point.device_id;
    status = TripStatus.active;
    started_at = started_at;
    ended_at = none;
    start_lat = lat;
    start_lon = lon;
    end_lat = none;
    end_lon = none;
    distance_m = s.candidate_distance_m;
    duration_sec = (x.point.recorded_at - started_at) / 1_000_000_000;
    points_count = s.candidate_good_points;
    created_at = now;
    updated_at = now;
  }

  -- The candidate becomes a trip.
  unfoldable pub confirm_trip : Uuid → Time → Sample W → Run W → Option (Run W)
  confirm_trip id now x r = do
    started_at ← r.new_state.candidate_started_at
    lat ← r.new_state.candidate_start_lat
    lon ← r.new_state.candidate_start_lon
    let s = r.new_state
    let trip = candidate_trip id now started_at lat lon s x
    let points = map (with_trip id) r.candidate_points
    some (record r {
      commands = r.commands ++ create_command id trip started_at points ∷ [];
      new_state =
          reset_candidate (record s { state = TripState.trip_active; active_trip_id = some id });
      candidate_window = [];
      candidate_points = [];
      issued = suc r.issued;
    })

  -- The point joins the candidate, and its distance if it is evidence of movement.
  unfoldable pub extend_candidate : Sample W → Run W → Run W
  extend_candidate x r =
      let s = r.new_state in
      record r {
        candidate_window = r.candidate_window ++ x.point ∷ [];
        candidate_points = r.candidate_points ++ x.tp ∷ [];
        new_state =
            if x.moving
            then record s {
              candidate_distance_m = add s.candidate_distance_m x.point.distance_delta_m;
              candidate_good_points = suc s.candidate_good_points;
            }
            else s;
      }

  -- The three conditions under which a candidate is confirmed.
  unfoldable pub is_confirmed : TripDetectionConfig W → Time → Time → Run W → Bool
  is_confirmed cfg started_at recorded_at r =
      leb (started_at + seconds cfg.motion_min_duration_sec) recorded_at
      && le cfg.motion_min_distance_m r.new_state.candidate_distance_m
      && (analyze_movement (movement_config cfg) r.candidate_window
          || leb cfg.motion_min_good_points r.new_state.candidate_good_points)

  unfoldable pub drop_candidate : Run W → Run W
  drop_candidate r = record r {
    new_state = reset_candidate r.new_state;
    candidate_window = [];
    candidate_points = [];
  }

  -- A real stop or a long gap abandons the candidate; any other point is added to it.
  unfoldable pub on_candidate :
      (ℕ → Uuid) → TripDetectionConfig W → Time → Sample W → Run W → Option (Run W)
  on_candidate fresh cfg now x r =
      let longer = extend_candidate x r in
      let grown = do
        started_at ← longer.new_state.candidate_started_at
        if is_confirmed cfg started_at x.point.recorded_at longer
            then confirm_trip (fresh longer.issued) now x longer
            else some longer
      in if x.point.is_stationary || is_gap_exceeded cfg r.new_state x.point.recorded_at
        then some (open_candidate x (drop_candidate r))
        else grown
