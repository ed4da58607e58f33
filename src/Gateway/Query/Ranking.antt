-- ===== src/Gateway/Query/Ranking.antt =====
-- `GetFastSegments`, `percentile` and the ranking of segments:
-- services/tracking-gateway/internal/usecase/tracking_query.go.
use wrany.Prelude.{
  ℕ, zero, suc, ◌+◌, Bool, true, false, not, ◌||◌, Option, none, some, String, List, [], ◌∷◌, ◌++◌,
  map, Time, Result, ok, err, length, take, sort_by, str_eq, ltb, ◌==◌, option_map, ◌>>=◌,
  if◌then◌else◌,
}
use wrany.Float64.{Float64, nought}
use wrany.Gateway.Query.Points.{QueryError, validate_range}
use wrany.Gateway.Query.Fast.{
  FastSegmentSourcePoint, FastSegment, FastSegmentConfig, SpeedEdge, fast_segment_preset_config,
  build_speed_edges, collect_fast_segments,
}

pub record FastSegmentFilter : Type 0 where
  pub user_id : String
  pub device_id : String
  pub from : Time
  pub until : Time

pub record GetFastSegmentsInput : Type 0 where
  pub user_id : String
  pub device_id : String
  pub from : Time
  pub until : Time
  pub preset : String
  pub limit : ℕ

pub data FastError : Type 0 where
  range_error : QueryError → FastError
  err_invalid_fast_segment_preset err_invalid_fast_segment_limit fetch_failed : FastError

abbrev pub get_elem? : {A : Type 0} → List A → ℕ → Option A
get_elem? [] i = none
get_elem? (x ∷ xs) zero = some x
get_elem? (x ∷ xs) (suc i) = get_elem? xs i

-- The edges of a device.
abbrev pub Group : Type 0 → Type 0
Group W = String × List (SpeedEdge W)

abbrev pub Ranked : Type 0 → Type 0
Ranked W = Result FastError (List (FastSegment W))

abbrev pub is_fast_limit : ℕ → Bool
is_fast_limit limit = limit == 5 || limit == 10 || limit == 20

abbrev pub in_range : {W : Type 0} → Option QueryError → Option (Ranked W) → Option (Ranked W)
in_range none r = r
in_range (some e) r = some (err (FastError.range_error e))

module _ {W : Type 0} ⦃f : Float64 W⦄ where
  open f use {decimal, of_ℕ, add, sub, mul, lt, floor, ceil}

  -- An index out of range panics.
  unfoldable pub percentile : List W → W → Option W
  percentile [] p = some nought
  percentile (x ∷ []) p = some x
  percentile (x ∷ y ∷ ys) p =
      let sorted = x ∷ y ∷ ys in
      let position = mul p (of_ℕ (length (y ∷ ys))) in
      let lower = floor position in
      let upper = ceil position in
      get_elem? sorted lower >>= λ a.
      if lower == upper
      then some a
      else option_map (λ b. add a (mul (sub b a) (sub position (of_ℕ lower))))
          (get_elem? sorted upper)

  unfoldable pub add_edge : SpeedEdge W → List (Group W) → List (Group W)
  add_edge e [] = (e.source.device_id, e ∷ []) ∷ []
  add_edge e ((device, es) ∷ groups) =
      let rest = add_edge e groups in
      if str_eq device e.source.device_id
      then (device, es ++ e ∷ []) ∷ groups
      else (device, es) ∷ rest

  unfoldable pub group_edges : List (SpeedEdge W) → List (Group W) → List (Group W)
  group_edges [] groups = groups
  group_edges (e ∷ es) groups = group_edges es (add_edge e groups)

  abbrev pub segments_of_group : FastSegmentConfig W → Group W → Option (List (FastSegment W))
  segments_of_group cfg (device, edges) =
      let speeds = sort_by lt (map (λ (e : SpeedEdge W). e.speed_mps) edges) in
      percentile speeds (decimal 5 1) >>= λ baseline.
      percentile speeds cfg.percentile >>= λ threshold.
      some (collect_fast_segments threshold baseline cfg.min_duration edges)

  unfoldable pub segments_of_groups :
      FastSegmentConfig W → List (Group W) → Option (List (FastSegment W))
  segments_of_groups cfg [] = some []
  segments_of_groups cfg (g ∷ gs) = segments_of_group cfg g >>= λ segments.
      option_map (λ rest. segments ++ rest) (segments_of_groups cfg gs)

  -- The test of `slices.SortFunc`: more uplift first, then more speed, then the earlier.
  abbrev pub ranks_before : FastSegment W → FastSegment W → Bool
  ranks_before a b =
      if lt b.uplift_percent a.uplift_percent
      then true
      else if lt a.uplift_percent b.uplift_percent
      then false
      else if lt b.avg_speed_mps a.avg_speed_mps
      then true
      else if lt a.avg_speed_mps b.avg_speed_mps
      then false
      else ltb a.started_at b.started_at

  unfoldable pub rank_from : ℕ → List (FastSegment W) → List (FastSegment W)
  rank_from n [] = []
  rank_from n (s ∷ ss) = record s { rank = n } ∷ rank_from (n + 1) ss

  -- `in_some_order` is the order in which Go passes over the entries of a map. Segments that rank
  -- alike stay in the order in which they were found; `slices.SortFunc` promises none for them.
  unfoldable pub rank_segments :
      (List (Group W) → List (Group W))
      → FastSegmentConfig W
      → ℕ
      → List (SpeedEdge W)
      → Option (List (FastSegment W))
  rank_segments in_some_order cfg limit edges =
      option_map (λ segments. rank_from 1 (take limit (sort_by ranks_before segments)))
        (segments_of_groups cfg (in_some_order (group_edges edges [])))

  abbrev pub rank_fetched :
      (List (Group W) → List (Group W))
      → FastSegmentConfig W
      → ℕ
      → Option (List (FastSegmentSourcePoint W))
      → Option (Ranked W)
  rank_fetched in_some_order cfg limit none = some (err FastError.fetch_failed)
  rank_fetched in_some_order cfg limit (some points) =
      option_map ok (rank_segments in_some_order cfg limit (build_speed_edges points))

  abbrev pub with_config :
      Option (FastSegmentConfig W) → (FastSegmentConfig W → Option (Ranked W)) → Option (Ranked W)
  with_config none k = some (err FastError.err_invalid_fast_segment_preset)
  with_config (some cfg) k = k cfg

  -- `fetch` is the query `GetFastSegmentPoints`.
  unfoldable pub get_fast_segments :
      (List (Group W) → List (Group W))
      → (FastSegmentFilter → Option (List (FastSegmentSourcePoint W)))
      → GetFastSegmentsInput
      → Option (Ranked W)
  get_fast_segments in_some_order fetch input = in_range (validate_range input.from input.until) (
      with_config (fast_segment_preset_config input.preset) λ cfg.
        if not (is_fast_limit input.limit)
        then some (err FastError.err_invalid_fast_segment_limit)
        else rank_fetched in_some_order cfg input.limit (
            fetch (record {
              user_id = input.user_id;
              device_id = input.device_id;
              from = input.from;
              until = input.until;
            })))
