-- ===== src/Route/Polyline.antt =====
-- `normalizePolyline` and `avgPointDistance`:
-- services/tracking-worker/internal/usecase/route_matching.go. The index `j` of the source is the
-- part of the line that begins at it, each point with its `cum`.
use wrany.Prelude.{
  ℕ, zero, suc, ◌-◌, Bool, true, false, not, ◌||◌, List, [], ◌∷◌, length, is_empty, ltb, ◌==◌,
  if◌then◌else◌,
}
use wrany.Float64.{Float64, nought, haversine_m}

-- services/tracking-worker/internal/domain/route.go
pub record GeoPoint (W : Type 0) : Type 0 where
  pub lat : W
  pub lon : W

module _ {A : Type 0} where
  abbrev pub replicate : ℕ → A → List A
  replicate zero a = []
  replicate (suc n) a = a ∷ replicate n a

module _ {W : Type 0} ⦃f : Float64 W⦄ where
  open f use {of_ℕ, add, sub, mul, div, lt, le, max_float64}

  -- `a == b` of numbers that are not NaN.
  abbrev pub same_number : W → W → Bool
  same_number a b = elim (le a b) [ true ↦ le b a | false ↦ false ]

  abbrev pub distance : GeoPoint W → GeoPoint W → W
  distance p q = haversine_m p.lat p.lon q.lat q.lon

  -- The points behind `p`, which lies at `at_length`, with the length of the line up to each.
  unfoldable pub measure_from : W → GeoPoint W → List (GeoPoint W) → List (W × GeoPoint W)
  measure_from at_length p [] = []
  measure_from at_length p (q ∷ qs) =
      let next = add at_length (distance p q) in (next, q) ∷ measure_from next q qs

  -- `total`: the length at the last point.
  unfoldable pub total_length : W → List (W × GeoPoint W) → W
  total_length len [] = len
  total_length len ((next, q) ∷ rest) = total_length next rest

  -- `for j+1 < len(pts)-1 && cum[j+1] < target { j++ }`
  unfoldable pub advance :
      W → W × GeoPoint W → List (W × GeoPoint W) → (W × GeoPoint W) × List (W × GeoPoint W)
  advance target here [] = (here, [])
  advance target here (next ∷ []) = (here, next ∷ [])
  advance target here (next ∷ after ∷ rest) =
      let further = advance target next (after ∷ rest) in
      if lt next.0 target then further else (here, next ∷ after ∷ rest)

  -- The point of the line at `target`, on the segment at hand.
  unfoldable pub interpolate : W → (W × GeoPoint W) × List (W × GeoPoint W) → GeoPoint W
  interpolate target ((len, p), []) = p
  interpolate target ((len, p), (next, q) ∷ rest) =
      let seg_len = sub next len in
      let t = div (sub target len) seg_len in
      if same_number seg_len nought then p else record {
        lat = add p.lat (mul t (sub q.lat p.lat));
        lon = add p.lon (mul t (sub q.lon p.lon));
      }

  -- The samples `i`, …, of which `count` are to come; `last` is `n - 1`.
  unfoldable pub resample :
      W → ℕ → ℕ → ℕ → (W × GeoPoint W) × List (W × GeoPoint W) → List (GeoPoint W)
  unfolding advance interpolate
  resample total last zero i spot = []
  resample total last (suc count) i (here, rest) =
      let target = div (mul total (of_ℕ i)) (of_ℕ last) in
      let spot = advance target here rest in
      interpolate target spot ∷ resample total last count (suc i) spot

  -- A line of at least two points, of which at least two samples are taken.
  unfoldable pub normalize_line : GeoPoint W → List (GeoPoint W) → ℕ → List (GeoPoint W)
  normalize_line p qs n =
      let behind = measure_from nought p qs in
      let total = total_length nought behind in
      if same_number total nought
      then replicate n p
      else resample total (n - 1) n 0 ((nought, p), behind)

  unfoldable pub normalize_polyline : List (GeoPoint W) → ℕ → List (GeoPoint W)
  normalize_polyline [] n = []
  normalize_polyline (p ∷ []) n = replicate n p
  normalize_polyline (p ∷ q ∷ qs) n = if ltb n 2 then replicate n p else normalize_line p (q ∷ qs) n

  -- The loop over two lines, which its caller knows to have one length.
  unfoldable pub sum_distances : W → List (GeoPoint W) → List (GeoPoint W) → W
  sum_distances sum [] qs = sum
  sum_distances sum (p ∷ ps) [] = sum
  sum_distances sum (p ∷ ps) (q ∷ qs) = sum_distances (add sum (distance p q)) ps qs

  unfoldable pub avg_point_distance : List (GeoPoint W) → List (GeoPoint W) → W
  avg_point_distance ps qs =
      if not (length ps == length qs) || is_empty ps
      then max_float64
      else div (sum_distances nought ps qs) (of_ℕ (length ps))
