-- ===== src/Detection/Machine/Active.antt =====
-- `ProcessBatch` in the states of an active trip and of a stop candidate,
-- services/tracking-worker/internal/usecase/trip_detection.go.
use Prim.Native.Nat.{◌+◌}
use wrany.Prelude.{
  not, ◌&&◌, Option, none, some, ◌>>=◌, [], ◌∷◌, ◌++◌, Time, Uuid, seconds, get_or_else, both, leb,
  if◌then◌else◌,
}
use wrany.Float64.{Float64, haversine_m}
use wrany.Domain.Trip.{TripState, TripDetectionConfig}
use wrany.Detection.Command.{complete_command}
use wrany.Detection.Machine.Variables.{
  with_trip, Run, Sample, clear_stop, flush_active, open_candidate,
}
use wrany.Detection.Machine.Candidate.{is_gap_exceeded}

module _ {W : Type 0} ⦃f : Float64 W⦄ where
  open f use {of_ℕ, add, lt, le}

  -- The point joins the trip.
  unfoldable pub extend_active : Uuid → Sample W → Run W → Run W
  extend_active id x r = record r {
    active_points = r.active_points ++ with_trip id x.tp ∷ [];
    active_distance = add r.active_distance x.point.distance_delta_m;
    last_active = some x.point;
  }

  unfoldable pub complete_trip : Uuid → Time → W → W → Run W → Run W
  complete_trip id ended_at lat lon r =
      let s = r.new_state in
      record r {
        commands = r.commands ++ complete_command id ended_at lat lon ∷ [];
        new_state = clear_stop (record s { state = TripState.idle; active_trip_id = none });
      }

  -- A long silence ends the trip at the last known point.
  unfoldable pub end_by_gap : Sample W → Run W → Option (Run W)
  end_by_gap x r = do
    flushed ← flush_active r
    let s = flushed.new_state
    ended_at ← s.last_processed_at
    id ← s.active_trip_id
    let (lat, lon) = get_or_else (both s.last_point_lat s.last_point_lon) (x.lat, x.lon)
    some (open_candidate x (complete_trip id ended_at lat lon flushed))

  -- The device halts: the trip's points so far are flushed and a stop opens.
  unfoldable pub open_stop : Sample W → Run W → Option (Run W)
  open_stop x r = do
    flushed ← flush_active r
    let s = flushed.new_state
    some (record flushed {
      new_state = record s {
        state = TripState.stop_candidate;
        stop_started_at = some (get_or_else x.point.stationary_since x.point.recorded_at);
        stop_center_lat = some x.lat;
        stop_center_lon = some x.lon;
      };
    })

  unfoldable pub keep_moving : Sample W → Run W → Option (Run W)
  keep_moving x r = do id ← r.new_state.active_trip_id; some (extend_active id x r)

  unfoldable pub on_active : TripDetectionConfig W → Sample W → Run W → Option (Run W)
  on_active cfg x r =
      if is_gap_exceeded cfg r.new_state x.point.recorded_at
      then end_by_gap x r
      else if x.point.is_stationary
      then open_stop x r
      else keep_moving x r

  -- The device leaves the stop zone: the trip goes on.
  unfoldable pub resume_trip : Sample W → Run W → Option (Run W)
  resume_trip x r = do
    let s = r.new_state
    id ← s.active_trip_id
    some (
        extend_active id x
          (record r { new_state = clear_stop (record s { state = TripState.trip_active }) }))

  -- The stop has lasted long enough: the trip ended where and when the stop began.
  unfoldable pub end_by_stop : TripDetectionConfig W → W → W → Sample W → Run W → Option (Run W)
  end_by_stop cfg center_lat center_lon x r = do
    started_at ← r.new_state.stop_started_at
    let finished = do
      id ← r.new_state.active_trip_id
      some (complete_trip id started_at center_lat center_lon r)
    if leb (started_at + seconds cfg.stop_min_duration_sec) x.point.recorded_at
        then finished
        else some r

  unfoldable pub on_stop : TripDetectionConfig W → Sample W → Run W → Option (Run W)
  on_stop cfg x r = do
    center_lat ← r.new_state.stop_center_lat
    center_lon ← r.new_state.stop_center_lon
    if not x.point.is_stationary
          && lt cfg.stop_radius_m (haversine_m center_lat center_lon x.lat x.lon)
        then resume_trip x r
        else end_by_stop cfg center_lat center_lon x r
