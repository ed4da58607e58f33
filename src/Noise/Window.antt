-- ===== src/Noise/Window.antt =====
-- The windows of processed points and the tests on them:
-- services/tracking-worker/internal/usecase/noise/pipeline.go, `trimWindow`, `acceptedOnly`,
-- `lastAnchor`, `WindowStationaryDetector`, `WindowMovementAnalyzer`.
use wrany.Prelude.{
  ℕ, ◌+◌, ◌≢◌, Bool, true, false, not, ◌&&◌, Option, none, some, List, [], ◌∷◌, ◌++◌, Time, seconds,
  length, keep, last?, get_or_else, ltb, leb, if◌then◌else◌, arith,
}
use wrany.Float64.{Float64, haversine_m}
use wrany.Domain.Point.{
  NoiseReason, ProcessedLocationPoint, NoiseConfig, coordinates, speed_of, is_on_foot,
  is_movement_evidence,
}

abbrev pub is_position_noise : NoiseReason → Bool
is_position_noise NoiseReason.jitter = true
is_position_noise NoiseReason.stationary = true
is_position_noise _ = false

module _ {W : Type 0} where
  -- `cutoff` is `at - seconds`, so a point is before it if its time plus the seconds is before `at`.
  unfoldable pub trim_window :
      List (ProcessedLocationPoint W) → Time → ℕ → List (ProcessedLocationPoint W)
  trim_window [] now secs = []
  trim_window (p ∷ ps) now secs =
      if ltb (p.recorded_at + seconds secs) now then trim_window ps now secs else p ∷ ps

  unfoldable pub accepted_only : List (ProcessedLocationPoint W) → List (ProcessedLocationPoint W)
  accepted_only ps = keep (λ p. p.is_accepted) ps

  -- The loop runs from the last point to the first; `found` is what it finds after this point.
  unfoldable pub last_anchor : List (ProcessedLocationPoint W) → Option (ProcessedLocationPoint W)
  last_anchor [] = none
  last_anchor (p ∷ ps) = elim (last_anchor ps) [
    | some found ↦ some found
    | none ↦ if is_position_noise p.noise_reason then none else some p
  ]

module _ {W : Type 0} ⦃f : Float64 W⦄ where
  open f use {lt, le}

  -- A point that keeps the window stationary around a centre.
  stays : NoiseConfig W → W × W → ProcessedLocationPoint W → Bool
  stays cfg (center_lat, center_lon) p = elim (coordinates p) [
    | none ↦ false
    | some (lat, lon) ↦
        not (lt cfg.stationary_radius_m (haversine_m center_lat center_lon lat lon))
        && not (is_on_foot p.activity_type)
        && not (lt cfg.stationary_max_speed_mps (speed_of p))
  ]

  all_stay : NoiseConfig W → W × W → List (ProcessedLocationPoint W) → Bool
  all_stay cfg center [] = true
  all_stay cfg center (p ∷ ps) = stays cfg center p && all_stay cfg center ps

  -- `Detect`. The window always holds the point at hand, so its empty case is not reached.
  unfoldable pub detect_stationary : NoiseConfig W → List (ProcessedLocationPoint W) → Bool
  unfolding stays all_stay
  detect_stationary cfg [] = false
  detect_stationary cfg (first ∷ rest) =
      let newest = get_or_else (last? rest) first in
      if ltb (length (first ∷ rest)) cfg.stationary_min_points
      then false
      else if ltb newest.recorded_at (first.recorded_at + seconds cfg.stationary_min_duration_sec)
      then false
      else elim (coordinates first) [
        | none ↦ false
        | some center ↦ all_stay cfg center (first ∷ rest)
      ]

  is_good : NoiseConfig W → ProcessedLocationPoint W → Bool
  is_good cfg p =
      le p.accuracy_m cfg.good_accuracy_m
      && is_movement_evidence p cfg.movement_min_speed_mps cfg.running_max_speed_mps
          cfg.activity_confidence

  unfoldable pub analyze_movement : NoiseConfig W → List (ProcessedLocationPoint W) → Bool
  unfolding is_good
  analyze_movement cfg window = leb cfg.movement_good_points (length (keep (is_good cfg) window))

-- A window that ends in the point at whose time it is trimmed never becomes empty.
pub trim_window-append_self :
    {W : Type 0} (ps : List (ProcessedLocationPoint W)) (p : ProcessedLocationPoint W) (secs : ℕ)
    → trim_window (ps ++ p ∷ []) p.recorded_at secs ≢ []
unfolding trim_window
trim_window-append_self [] p secs = ground arith
trim_window-append_self (q ∷ qs) p secs = ground (arith, trim_window-append_self qs p secs)
