-- ===== src/Noise/Checks.antt =====
-- The checks on one raw point, and the smoother:
-- services/tracking-worker/internal/usecase/noise/pipeline.go, `Validator`, `SpeedOutlierDetector`,
-- `WeightedMovingAverage`, `clamp` and `HaversineM`.
use wrany.Prelude.{
  ℕ, ◌-◌, ◌/◌, ◌%◌, Bool, true, false, ◌||◌, Option, none, some, String, List, [], ◌∷◌, length,
  drop, str_eq, leb, ◌==◌, if◌then◌else◌,
}
use wrany.Float64.{Float64, nought, haversine_m}
use wrany.Domain.Point.{
  NoiseReason, RawLocationPoint, ProcessedLocationPoint, NoiseConfig, coordinates,
}

module _ {W : Type 0} ⦃f : Float64 W⦄ where
  open f use {of_ℕ, neg, add, mul, div, lt, le, fmax, fmin}

  -- `Duration.Seconds` of a duration that is not negative, in nanoseconds.
  abbrev pub duration_seconds : ℕ → W
  duration_seconds d =
      add (of_ℕ (d / 1_000_000_000)) (div (of_ℕ (d % 1_000_000_000)) (of_ℕ 1_000_000_000))

  unfoldable pub clamp : W → W → W → W
  clamp value min_value max_value = fmax min_value (fmin max_value value)

  unfoldable pub validate : NoiseConfig W → RawLocationPoint W → NoiseReason
  validate cfg p =
      if p.recorded_at == 0
        || lt p.lat (neg (of_ℕ 90))
        || lt (of_ℕ 90) p.lat
        || lt p.lon (neg (of_ℕ 180))
        || lt (of_ℕ 180) p.lon
        || lt p.accuracy_m nought
      then NoiseReason.invalid_point
      else if lt cfg.garbage_accuracy_m p.accuracy_m
      then NoiseReason.garbage_accuracy
      else if lt cfg.usable_accuracy_m p.accuracy_m
      then NoiseReason.poor_accuracy
      else NoiseReason.accepted_clean

  unfoldable pub max_speed : NoiseConfig W → String → W
  max_speed cfg activity =
      if str_eq activity "running"
      then cfg.running_max_speed_mps
      else if str_eq activity "bicycle" || str_eq activity "bike"
      then cfg.bike_max_speed_mps
      else if str_eq activity "vehicle" || str_eq activity "automotive"
      then cfg.vehicle_max_speed_mps
      else cfg.walking_max_speed_mps

  -- The tail of `Detect`: the next sample tells a ride from a spike.
  snaps_back : ProcessedLocationPoint W → Option (RawLocationPoint W) → W → Bool
  snaps_back previous none dist_pc = false
  snaps_back previous (some next) dist_pc =
      lt (haversine_m previous.raw_lat previous.raw_lon next.lat next.lon) dist_pc

  detect_from :
      NoiseConfig W
      → ProcessedLocationPoint W
      → RawLocationPoint W
      → Option (RawLocationPoint W)
      → W × Bool
  unfolding max_speed snaps_back
  detect_from cfg previous current next =
      let dist_pc = haversine_m previous.raw_lat previous.raw_lon current.lat current.lon in
      let speed = div dist_pc (duration_seconds (current.recorded_at - previous.recorded_at)) in
      if leb current.recorded_at previous.recorded_at
      then (nought, true)
      else if le speed (max_speed cfg current.activity_type)
      then (speed, false)
      else if lt cfg.vehicle_max_speed_mps speed
      then (speed, true)
      else (speed, snaps_back previous next dist_pc)

  unfoldable pub detect_outlier :
      NoiseConfig W
      → Option (ProcessedLocationPoint W)
      → RawLocationPoint W
      → Option (RawLocationPoint W)
      → W × Bool
  unfolding detect_from
  detect_outlier cfg none current next = (nought, false)
  detect_outlier cfg (some previous) current next = detect_from cfg previous current next

  -- One step of the loop of `Smooth`: the three running sums.
  add_weighted : W × W × W → ProcessedLocationPoint W → W × W × W
  add_weighted (lat_sum, lon_sum, weight_sum) p = elim (coordinates p) [
    | none ↦ (lat_sum, lon_sum, weight_sum)
    | some (lat, lon) ↦
        let w = div (of_ℕ 1) (fmax p.accuracy_m (of_ℕ 1)) in
        (add lat_sum (mul lat w), add lon_sum (mul lon w), add weight_sum w)
  ]

  add_all_weighted : W × W × W → List (ProcessedLocationPoint W) → W × W × W
  add_all_weighted sums [] = sums
  add_all_weighted sums (p ∷ ps) = add_all_weighted (add_weighted sums p) ps

  -- `Smooth`; the limit `Points - 1` is not below 0, and the last `limit` points are kept.
  unfoldable pub smooth : ℕ → List (ProcessedLocationPoint W) → RawLocationPoint W → W × W
  unfolding add_weighted add_all_weighted
  smooth points history current =
      let recent = drop (length history - (points - 1)) history in
      let weight = div (of_ℕ 1) (fmax current.accuracy_m (of_ℕ 1)) in
      let (lat_sum, lon_sum, weight_sum) =
        add_all_weighted (mul current.lat weight, mul current.lon weight, weight) recent in
      (div lat_sum weight_sum, div lon_sum weight_sum)
