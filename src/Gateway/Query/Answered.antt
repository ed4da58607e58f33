-- ===== src/Gateway/Query/Answered.antt =====
-- That `GetFastSegments` does not panic: the indices of `percentile`,
-- services/tracking-gateway/internal/usecase/tracking_query.go.
use wrany.Prelude.{
  ℕ, zero, suc, ◌<◌, ◌≤◌, ◌≡◌, refl, true, not, Option, none, some, is_some, List, [], ◌∷◌, map, ok,
  length, sort_by, option_map, ◌>>=◌, ◌==◌, if-elim, arith,
}
use wrany.Float64.{Float64}
use wrany.Gateway.Query.Points.{QueryError, validate_range}
use wrany.Gateway.Query.Fast.{
  FastSegmentSourcePoint, FastSegmentConfig, SpeedEdge, fast_segment_preset_config,
  build_speed_edges,
}
use wrany.Gateway.Query.Ranking.{
  FastSegmentFilter, GetFastSegmentsInput, Group, Ranked, get_elem?, is_fast_limit, in_range,
  percentile, group_edges, segments_of_group, segments_of_groups, rank_segments, rank_fetched,
  with_config, get_fast_segments,
}

module _ {A B : Type 0} where
  bind-some :
      (o : Option A) (k : A → Option B)
      → is_some o ≡ true
      → ((a : A) → is_some (k a) ≡ true)
      → is_some (o >>= k) ≡ true
  bind-some none k h step = cc
  bind-some (some a) k h step = step a

  option_map-some : (g : A → B) (o : Option A) → is_some o ≡ true → is_some (option_map g o) ≡ true
  option_map-some g none h = h
  option_map-some g (some a) h = refl

get_elem?-some :
    {A : Type 0} (xs : List A) (i : ℕ) → i < length xs → is_some (get_elem? xs i) ≡ true
get_elem?-some [] i h = ground arith
get_elem?-some (x ∷ xs) zero h = refl
get_elem?-some (x ∷ xs) (suc i) h = get_elem?-some xs i (omega (arith, h))

module _ {W : Type 0} ⦃f : Float64 W⦄ where
  open f use {decimal, of_ℕ, add, sub, mul, lt, floor, ceil}

  -- A share `p` of a whole number, rounded up or down, is not above the number.
  abbrev pub IsShare : W → Type 0
  IsShare p = (n : ℕ) → (floor (mul p (of_ℕ n)) ≤ n) × (ceil (mul p (of_ℕ n)) ≤ n)

  percentile-some : (xs : List W) (p : W) → IsShare p → is_some (percentile xs p) ≡ true
  unfolding percentile
  percentile-some [] p h = refl
  percentile-some (x ∷ []) p h = refl
  percentile-some (x ∷ y ∷ ys) p h =
      let position = mul p (of_ℕ (length (y ∷ ys))) in
      let (low, high) = h (length (y ∷ ys)) in
      bind-some (get_elem? (x ∷ y ∷ ys) (floor position)) _
        (get_elem?-some (x ∷ y ∷ ys) (floor position) (omega (arith, low)))
        λ a.
          if-elim (λ (o : Option W). is_some o ≡ true) (floor position == ceil position) _ _
            (λ _. refl)
            (λ _.
              option_map-some _ (get_elem? (x ∷ y ∷ ys) (ceil position))
                (get_elem?-some (x ∷ y ∷ ys) (ceil position) (omega (arith, high))))

  module _ (half : IsShare (decimal 5 1)) where
    segments_of_groups-some :
        (cfg : FastSegmentConfig W) (groups : List (Group W))
        → IsShare cfg.percentile
        → is_some (segments_of_groups cfg groups) ≡ true
    unfolding segments_of_groups
    segments_of_groups-some cfg [] upper = refl
    segments_of_groups-some cfg ((device, edges) ∷ groups) upper =
        let speeds = sort_by lt (map (λ (e : SpeedEdge W). e.speed_mps) edges) in
        bind-some (segments_of_group cfg (device, edges)) _
          (bind-some (percentile speeds (decimal 5 1)) _ (percentile-some speeds (decimal 5 1) half)
            λ b.
              bind-some (percentile speeds cfg.percentile) _
                (percentile-some speeds cfg.percentile upper) (λ t. refl))
          λ segments.
            option_map-some _ (segments_of_groups cfg groups)
              (segments_of_groups-some cfg groups upper)

    rank_fetched-some :
        (in_some_order : List (Group W) → List (Group W)) (cfg : FastSegmentConfig W) (limit : ℕ)
        (points : Option (List (FastSegmentSourcePoint W)))
        → IsShare cfg.percentile
        → is_some (rank_fetched in_some_order cfg limit points) ≡ true
    unfolding rank_segments
    rank_fetched-some in_some_order cfg limit none upper = refl
    rank_fetched-some in_some_order cfg limit (some points) upper = option_map-some ok _ (
        option_map-some _
          (segments_of_groups cfg (in_some_order (group_edges (build_speed_edges points) [])))
          (segments_of_groups-some cfg _ upper))

    in_range-some :
        (check : Option QueryError) (r : Option (Ranked W))
        → is_some r ≡ true
        → is_some (in_range check r) ≡ true
    in_range-some none r h = h
    in_range-some (some e) r h = refl

    with_config-some :
        (found : Option (FastSegmentConfig W)) (k : FastSegmentConfig W → Option (Ranked W))
        → ((cfg : FastSegmentConfig W) → found ≡ some cfg → is_some (k cfg) ≡ true)
        → is_some (with_config found k) ≡ true
    with_config-some none k step = refl
    with_config-some (some cfg) k step = step cfg refl

    -- `GetFastSegments` answers or gives an error, and never panics, whatever points are fetched, if
    -- the half and the percentile of the preset are shares of a whole number that are not above it.
    pub get_fast_segments_safe :
        (in_some_order : List (Group W) → List (Group W))
        (fetch : FastSegmentFilter → Option (List (FastSegmentSourcePoint W)))
        (input : GetFastSegmentsInput)
        → ((cfg : FastSegmentConfig W)
            → fast_segment_preset_config input.preset ≡ some cfg
            → IsShare cfg.percentile)
        → is_some (get_fast_segments in_some_order fetch input) ≡ true
    unfolding get_fast_segments
    get_fast_segments_safe in_some_order fetch input shares =
        in_range-some (validate_range input.from input.until) _ (
          with_config-some (fast_segment_preset_config input.preset) _ λ cfg e.
            if-elim (λ (r : Option (Ranked W)). is_some r ≡ true) (not (is_fast_limit input.limit))
              _ _ (λ _. refl)
              (λ _. rank_fetched-some in_some_order cfg input.limit _ (shares cfg e)))
