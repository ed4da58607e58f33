-- ===== src/Gateway/Query/Fast.antt =====
-- `buildSpeedEdges` and `collectFastSegments`, from points to fast segments:
-- services/tracking-gateway/internal/usecase/tracking_query.go.
use wrany.Prelude.{
  ℕ, ◌-◌, Bool, true, not, ◌&&◌, ◌||◌, Option, none, some, String, List, [], ◌∷◌, ◌++◌, map, Time,
  last?, str_eq, ltb, ◌==◌, seconds, read_or, if◌then◌else◌,
}
use wrany.Float64.{Float64, nought}
use wrany.Noise.Checks.{duration_seconds}

pub record FastSegmentSourcePoint (W : Type 0) : Type 0 where
  pub device_id : String
  pub event_id : String
  pub recorded_at : Time
  pub lat : W
  pub lon : W
  pub segment_id : ℕ

pub record FastSegmentPoint (W : Type 0) : Type 0 where
  pub lat : W
  pub lon : W
  pub recorded_at : Time

pub record FastSegment (W : Type 0) : Type 0 where
  pub rank : ℕ
  pub device_id : String
  pub started_at : Time
  pub ended_at : Time
  pub duration_sec : ℕ
  pub distance_m : W
  pub avg_speed_mps : W
  pub baseline_speed_mps : W
  pub uplift_percent : W
  pub points : List (FastSegmentPoint W)

pub record FastSegmentConfig (W : Type 0) : Type 0 where
  pub percentile : W
  pub min_duration : ℕ

pub record SpeedEdge (W : Type 0) : Type 0 where
  pub source : FastSegmentSourcePoint W
  pub target : FastSegmentSourcePoint W
  pub distance_m : W
  pub duration : ℕ
  pub speed_mps : W

abbrev pub joins : {W : Type 0} → SpeedEdge W → SpeedEdge W → Bool
joins l e =
    str_eq l.target.event_id e.source.event_id
    && str_eq l.target.device_id e.source.device_id
    && l.target.segment_id == e.source.segment_id

module _ {W : Type 0} ⦃f : Float64 W⦄ where
  open f use {
    decimal, of_ℕ, add, sub, mul, div, lt, le, pi, sin, cos, sqrt, atan2, floor, ceil, round,
  }

  abbrev pub fast_segment_preset_config : String → Option (FastSegmentConfig W)
  fast_segment_preset_config preset =
      if str_eq preset "soft"
      then some (record { percentile = decimal 75 2; min_duration = seconds 15 })
      else if str_eq preset "normal"
      then some (record { percentile = decimal 85 2; min_duration = seconds 20 })
      else if str_eq preset "strict"
      then some (record { percentile = decimal 95 2; min_duration = seconds 30 })
      else none

  -- In the order in which Go evaluates it.
  unfoldable pub haversine_m : W → W → W → W → W
  haversine_m lat1 lon1 lat2 lon2 =
      let to_rad = div pi (of_ℕ 180) in
      let phi1 = mul lat1 to_rad in
      let phi2 = mul lat2 to_rad in
      let half_phi = div (mul (sub lat2 lat1) to_rad) (of_ℕ 2) in
      let half_lambda = div (mul (sub lon2 lon1) to_rad) (of_ℕ 2) in
      let a =
        add (mul (sin half_phi) (sin half_phi))
          (mul (mul (mul (cos phi1) (cos phi2)) (sin half_lambda)) (sin half_lambda)) in
      mul (mul (of_ℕ 6_371_000) (of_ℕ 2)) (atan2 (sqrt a) (sqrt (sub (of_ℕ 1) a)))

  abbrev pub edge_of : FastSegmentSourcePoint W → FastSegmentSourcePoint W → SpeedEdge W
  edge_of p q =
      let duration = q.recorded_at - p.recorded_at in
      let distance = haversine_m p.lat p.lon q.lat q.lon in
      record {
        source = p;
        target = q;
        distance_m = distance;
        duration = duration;
        speed_mps = div distance (duration_seconds duration);
      }

  -- Two points of one segment of a device, the second later.
  abbrev pub makes_edge : FastSegmentSourcePoint W → FastSegmentSourcePoint W → Bool
  makes_edge p q =
      str_eq p.device_id q.device_id
      && p.segment_id == q.segment_id
      && ltb p.recorded_at q.recorded_at

  unfoldable pub edges_from :
      FastSegmentSourcePoint W → List (FastSegmentSourcePoint W) → List (SpeedEdge W)
  edges_from p [] = []
  edges_from p (q ∷ qs) =
      let rest = edges_from q qs in if makes_edge p q then edge_of p q ∷ rest else rest

  abbrev pub build_speed_edges : List (FastSegmentSourcePoint W) → List (SpeedEdge W)
  build_speed_edges [] = []
  build_speed_edges (p ∷ ps) = edges_from p ps

  abbrev pub fast_segment_point : FastSegmentSourcePoint W → FastSegmentPoint W
  fast_segment_point p = record { lat = p.lat; lon = p.lon; recorded_at = p.recorded_at }

  abbrev pub final_of : SpeedEdge W → List (SpeedEdge W) → SpeedEdge W
  final_of e [] = e
  final_of e (e' ∷ es) = final_of e' es

  abbrev pub total : W → List (SpeedEdge W) → W
  total sum [] = sum
  total sum (e ∷ es) = total (add sum e.distance_m) es

  -- The segment of a run, before it is ranked.
  unfoldable pub segment_of : W → SpeedEdge W → List (SpeedEdge W) → FastSegment W
  segment_of baseline e es =
      let ended_at = (final_of e es).target.recorded_at in
      let duration = ended_at - e.source.recorded_at in
      let distance = total nought (e ∷ es) in
      let avg = div distance (duration_seconds duration) in
      record {
        rank = 0;
        device_id = e.source.device_id;
        started_at = e.source.recorded_at;
        ended_at = ended_at;
        duration_sec = round (duration_seconds duration);
        distance_m = distance;
        avg_speed_mps = avg;
        baseline_speed_mps = baseline;
        uplift_percent =
            if lt nought baseline then mul (sub (div avg baseline) (of_ℕ 1)) (of_ℕ 100) else nought;
        points =
            fast_segment_point e.source
            ∷ map (λ (x : SpeedEdge W). fast_segment_point x.target) (e ∷ es);
      }

  module _ (threshold baseline : W) (min_duration : ℕ) where
    unfoldable pub flush : List (SpeedEdge W) → List (FastSegment W)
    flush [] = []
    flush (e ∷ es) =
        if ltb ((final_of e es).target.recorded_at - e.source.recorded_at) min_duration
        then []
        else segment_of baseline e es ∷ []

    abbrev pub continues : List (SpeedEdge W) → SpeedEdge W → Bool
    continues run e = read_or (last? run) true (λ l. joins l e)

    abbrev pub breaks : List (SpeedEdge W) → SpeedEdge W → Bool
    breaks run e = lt e.speed_mps threshold || not (continues run e)

    abbrev pub extend : List (SpeedEdge W) → SpeedEdge W → List (SpeedEdge W)
    extend run e = if le threshold e.speed_mps then run ++ e ∷ [] else run

    -- The run behind the edge.
    abbrev pub next_run : List (SpeedEdge W) → SpeedEdge W → List (SpeedEdge W)
    next_run run e = extend (if breaks run e then [] else run) e

    -- `run` is the run so far.
    unfoldable pub collect_from : List (SpeedEdge W) → List (SpeedEdge W) → List (FastSegment W)
    collect_from run [] = flush run
    collect_from run (e ∷ es) =
        let rest = collect_from (next_run run e) es in
        (if breaks run e then flush run else []) ++ rest

    unfoldable pub collect_fast_segments : List (SpeedEdge W) → List (FastSegment W)
    collect_fast_segments edges = collect_from [] edges
