-- ===== src/Noise/Pipeline.antt =====
-- `Pipeline.ProcessBatch` and `processOne`:
-- services/tracking-worker/internal/usecase/noise/pipeline.go, with the smoother that
-- `NewPipeline(cfg, nil)` chooses.
use wrany.Prelude.{
  ◌+◌, Bool, true, false, not, ◌||◌, Option, none, some, List, [], ◌∷◌, ◌++◌, map, Time, seconds,
  head?, last?, get_or_else, ltb, leb, ◌==◌, str_lt, if◌then◌else◌,
}
use wrany.Float64.{Float64, nought, haversine_m}
use wrany.Domain.Point.{
  NoiseReason, RawLocationPoint, ProcessedLocationPoint, NoiseConfig, current_algorithm_version,
}
use wrany.Noise.Checks.{clamp, validate, detect_outlier, smooth}
use wrany.Noise.Window.{trim_window, accepted_only, last_anchor, detect_stationary}

pub record BatchResult (W : Type 0) : Type 0 where
  pub processed : List (ProcessedLocationPoint W)
  pub accepted : List (ProcessedLocationPoint W)

module _ {W : Type 0} where
  -- The `less` of `sort.SliceStable`.
  unfoldable pub is_earlier : RawLocationPoint W → RawLocationPoint W → Bool
  is_earlier a b =
      if a.recorded_at == b.recorded_at
      then str_lt a.event_id b.event_id
      else ltb a.recorded_at b.recorded_at

  unfoldable pub insert_point :
      RawLocationPoint W → List (RawLocationPoint W) → List (RawLocationPoint W)
  insert_point p [] = p ∷ []
  insert_point p (q ∷ qs) = if is_earlier q p then q ∷ insert_point p qs else p ∷ q ∷ qs

  -- A stable sort: a point is put in front of those behind it that are not earlier.
  unfoldable pub sort_points : List (RawLocationPoint W) → List (RawLocationPoint W)
  sort_points [] = []
  sort_points (p ∷ ps) = insert_point p (sort_points ps)

module _ {W : Type 0} ⦃f : Float64 W⦄ where
  open f use {of_ℕ, add, div, lt}

  unfoldable pub start_of : RawLocationPoint W → Time → ProcessedLocationPoint W
  start_of raw now = record {
    user_id = raw.user_id;
    device_id = raw.device_id;
    event_id = raw.event_id;
    raw_lat = raw.lat;
    raw_lon = raw.lon;
    filtered_lat = none;
    filtered_lon = none;
    accuracy_m = raw.accuracy_m;
    speed_mps = raw.speed_mps;
    implied_speed_mps = nought;
    distance_delta_m = nought;
    activity_type = raw.activity_type;
    activity_confidence = raw.activity_confidence;
    is_accepted = false;
    is_outlier = false;
    is_stationary = false;
    noise_reason = NoiseReason.accepted_clean;
    stationary_since = none;
    algorithm_version = current_algorithm_version;
    recorded_at = raw.recorded_at;
    received_at = raw.received_at;
    processed_at = now;
  }

  abbrev pub is_late : Option Time → RawLocationPoint W → Bool
  is_late none raw = false
  is_late (some through) raw = leb raw.recorded_at through

  -- A point that is in the same segment as the one before it, measured against the last anchor.
  unfoldable pub measure :
      NoiseConfig W
      → List (ProcessedLocationPoint W)
      → ProcessedLocationPoint W
      → RawLocationPoint W
      → ProcessedLocationPoint W
      → ProcessedLocationPoint W
  measure cfg history previous raw out =
      let anchor = get_or_else (last_anchor history) previous in
      let distance = haversine_m anchor.raw_lat anchor.raw_lon raw.lat raw.lon in
      let radius =
        clamp (div (add anchor.accuracy_m raw.accuracy_m) (of_ℕ 2)) cfg.noise_min_radius_m
          cfg.noise_max_radius_m in
      if lt distance radius
      then record out { noise_reason = NoiseReason.jitter }
      else record out { distance_delta_m = distance }

  unfoldable pub attribute_distance :
      NoiseConfig W
      → List (ProcessedLocationPoint W)
      → Option (ProcessedLocationPoint W)
      → RawLocationPoint W
      → ProcessedLocationPoint W
      → ProcessedLocationPoint W
  attribute_distance cfg history none raw out = out
  attribute_distance cfg history (some previous) raw out =
      if ltb (previous.recorded_at + seconds cfg.segment_max_gap_sec) raw.recorded_at
      then record out { noise_reason = NoiseReason.segment_break }
      else measure cfg history previous raw out

  unfoldable pub hold_still : Time → ProcessedLocationPoint W → ProcessedLocationPoint W
  hold_still since p = record p {
    is_stationary = true;
    distance_delta_m = nought;
    noise_reason = NoiseReason.stationary;
    stationary_since = some since;
  }

  -- `window[0].RecordedAt`; the default is not reached, by `trim_window-append_self`.
  abbrev pub window_start : List (ProcessedLocationPoint W) → Time → Time
  window_start [] now = now
  window_start (p ∷ ps) now = p.recorded_at

  unfoldable pub settle :
      NoiseConfig W
      → List (ProcessedLocationPoint W)
      → RawLocationPoint W
      → ProcessedLocationPoint W
      → ProcessedLocationPoint W
  settle cfg history raw out =
      let window = trim_window (history ++ out ∷ []) raw.recorded_at cfg.stationary_window_sec in
      if detect_stationary cfg window
      then hold_still (window_start window raw.recorded_at) out
      else out

  -- The part of `processOne` behind the checks: smoothing, distance, and standing still.
  unfoldable pub accept :
      NoiseConfig W
      → List (ProcessedLocationPoint W)
      → RawLocationPoint W
      → ProcessedLocationPoint W
      → ProcessedLocationPoint W
  accept cfg history raw out =
      let near = trim_window history raw.recorded_at cfg.segment_max_gap_sec in
      let (lat, lon) = smooth cfg.smoothing_points near raw in
      let placed = record out {
        filtered_lat = some lat;
        filtered_lon = some lon;
        is_accepted = true;
      } in
      settle cfg history raw (attribute_distance cfg history (last? history) raw placed)

  -- The part behind the validator: teleports.
  unfoldable pub screen_outlier :
      NoiseConfig W
      → List (ProcessedLocationPoint W)
      → RawLocationPoint W
      → Option (RawLocationPoint W)
      → ProcessedLocationPoint W
      → ProcessedLocationPoint W
  screen_outlier cfg history raw next out =
      let (implied, is_outlier) = detect_outlier cfg (last? history) raw next in
      let measured = record out { implied_speed_mps = implied } in
      if is_outlier
      then record measured { is_outlier = true; noise_reason = NoiseReason.teleport }
      else accept cfg history raw measured

  unfoldable pub screen :
      NoiseConfig W
      → List (ProcessedLocationPoint W)
      → RawLocationPoint W
      → Option (RawLocationPoint W)
      → NoiseReason
      → ProcessedLocationPoint W
      → ProcessedLocationPoint W
  screen cfg history raw next NoiseReason.accepted_clean out =
      screen_outlier cfg history raw next out
  screen cfg history raw next reason out = record out { noise_reason = reason }

  unfoldable pub process_one :
      NoiseConfig W
      → List (ProcessedLocationPoint W)
      → RawLocationPoint W
      → Option (RawLocationPoint W)
      → Option Time
      → Time
      → ProcessedLocationPoint W
  process_one cfg history raw next processed_through now =
      let out = start_of raw now in
      if is_late processed_through raw
      then record out { noise_reason = NoiseReason.late_arrival }
      else screen cfg history raw next (validate cfg raw) out

  -- `markStationaryWindow`, for one point of each list.
  unfoldable pub mark_since : Time → ProcessedLocationPoint W → ProcessedLocationPoint W
  mark_since since p = if ltb p.recorded_at since then p else hold_still since p

  unfoldable pub mark_accepted_since : Time → ProcessedLocationPoint W → ProcessedLocationPoint W
  mark_accepted_since since p =
      if ltb p.recorded_at since || not p.is_accepted then p else hold_still since p

  unfoldable pub mark_stationary_window : BatchResult W → Time → BatchResult W
  mark_stationary_window result since = record {
    processed = map (mark_accepted_since since) result.processed;
    accepted = map (mark_since since) result.accepted;
  }

  -- The body of the loop behind `processOne`: the window and the result.
  unfoldable pub collect :
      NoiseConfig W
      → List (ProcessedLocationPoint W)
      → BatchResult W
      → ProcessedLocationPoint W
      → List (ProcessedLocationPoint W) × BatchResult W
  collect cfg window result p =
      let window' = trim_window (window ++ p ∷ []) p.recorded_at cfg.stationary_window_sec in
      let noted = record result { processed = result.processed ++ p ∷ [] } in
      let kept = record noted { accepted = noted.accepted ++ p ∷ [] } in
      let marked = mark_stationary_window kept (window_start window' p.recorded_at) in
      if p.is_accepted then (window', if p.is_stationary then marked else kept) else (window, noted)

  unfoldable pub process_from :
      NoiseConfig W
      → Option Time
      → Time
      → List (ProcessedLocationPoint W)
      → BatchResult W
      → List (RawLocationPoint W)
      → BatchResult W
  process_from cfg through now window result [] = result
  process_from cfg through now window result (p ∷ ps) =
      let (window', result') =
        collect cfg window result (process_one cfg window p (head? ps) through now) in
      process_from cfg through now window' result' ps

  unfoldable pub process_batch :
      NoiseConfig W
      → List (ProcessedLocationPoint W)
      → List (RawLocationPoint W)
      → Option Time
      → Time
      → BatchResult W
  process_batch cfg history raw through now =
      process_from cfg through now (accepted_only history)
        (record { processed = []; accepted = [] }) (sort_points raw)
