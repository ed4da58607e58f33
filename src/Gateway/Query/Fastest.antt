-- ===== src/Gateway/Query/Fastest.antt =====
-- That `GetFastSegments` answers a ranking: services/tracking-gateway/internal/usecase/tracking_query.go.
use mathlib.Core.Path.{subst}
use mathlib.Core.List.{Permᴰ}
use mathlib.Core.List.Permᴰ
use wrany.Prelude.{
  Bool, drop, ℕ, ◌+◌, ◌≡◌, refl, ap, true, false, not, Option, none, some, IfSome, List, [], ◌∷◌,
  map, All, All-take, ok, err, length, take, sort_by, insert_by, option_map, if-elim, arith,
}
use wrany.Float64.{Float64}
use wrany.Gateway.Query.Points.{QueryError, validate_range}
use wrany.Gateway.Query.Sorted.{sort_by-All}
use wrany.Gateway.Query.Fast.{
  FastSegmentSourcePoint, FastSegment, FastSegmentConfig, fast_segment_preset_config,
  build_speed_edges,
}
use wrany.Gateway.Query.Ranking.{
  FastSegmentFilter, GetFastSegmentsInput, Group, Ranked, is_fast_limit, in_range, group_edges,
  ranks_before, rank_from, segments_of_groups, rank_segments, rank_fetched, get_fast_segments,
}
use wrany.Gateway.Query.Ranks.{
  IsAsym, counted_from, take-drop, drop-take, length-take_le, LastsFor, IsInFront, IsRanked,
  unranked, IsRanking, segments_of_groups-LastsFor,
}

-- What the points are fetched by.
abbrev pub filter_of : GetFastSegmentsInput → FastSegmentFilter
filter_of input = record {
  user_id = input.user_id;
  device_id = input.device_id;
  from = input.from;
  until = input.until;
}

module _ {W : Type 0} ⦃f : Float64 W⦄ (asym : IsAsym f) where
  ranks_before-asym : (s t : FastSegment W) → ranks_before s t ≡ true → ranks_before t s ≡ false
  ranks_before-asym s t h = ground (
    arith,
    asym s.uplift_percent t.uplift_percent,
    asym t.uplift_percent s.uplift_percent,
    asym s.avg_speed_mps t.avg_speed_mps,
    asym t.avg_speed_mps s.avg_speed_mps,
  )

  -- What need not stand behind.
  IsInFront-ranks_before : (s t : FastSegment W) → ranks_before t s ≡ false → IsInFront s t
  IsInFront-ranks_before s t h = ground arith

  -- Behind a segment that ranks before, the insertion keeps the order.
  insert_by-IsRanked_behind :
      (b s : FastSegment W) (ss : List (FastSegment W))
      → IsInFront b s
      → IsRanked (b ∷ ss)
      → IsRanked (b ∷ insert_by ranks_before s ss)
  unfolding insert_by
  insert_by-IsRanked_behind b s [] h k = (h, tt)
  insert_by-IsRanked_behind b s (t ∷ ts) h (k, ks) =
      if-elim (λ ss. IsRanked (b ∷ ss)) (ranks_before t s) _ _
        (λ e. (
          k,
          insert_by-IsRanked_behind t s ts (IsInFront-ranks_before t s (ranks_before-asym t s e))
              ks,
        ))
        (λ e. (h, (IsInFront-ranks_before s t e, ks)))

  insert_by-IsRanked :
      (s : FastSegment W) (ss : List (FastSegment W))
      → IsRanked ss
      → IsRanked (insert_by ranks_before s ss)
  unfolding insert_by
  insert_by-IsRanked s [] h = tt
  insert_by-IsRanked s (t ∷ ts) h =
      if-elim IsRanked (ranks_before t s) _ _
        (λ e.
          insert_by-IsRanked_behind t s ts (IsInFront-ranks_before t s (ranks_before-asym t s e)) h)
        (λ e. (IsInFront-ranks_before s t e, h))

  sort_by-IsRanked : (ss : List (FastSegment W)) → IsRanked (sort_by ranks_before ss)
  unfolding sort_by
  sort_by-IsRanked [] = tt
  sort_by-IsRanked (s ∷ ss) = insert_by-IsRanked s (sort_by ranks_before ss) (sort_by-IsRanked ss)

module _ {A : Type 0} (before : A → A → Bool) where
  insert_by-Permᴰ : (x : A) (ys : List A) → Permᴰ (x ∷ ys) (insert_by before x ys)
  unfolding insert_by
  insert_by-Permᴰ x [] = Permᴰ.refl (x ∷ [])
  insert_by-Permᴰ x (y ∷ ys) =
      if-elim (Permᴰ (x ∷ y ∷ ys)) (before y x) _ _
        (λ _. Permᴰ.trans (Permᴰ.swap refl refl) (Permᴰ.cons refl (insert_by-Permᴰ x ys)))
        (λ _. Permᴰ.refl (x ∷ y ∷ ys))

  sort_by-Permᴰ : (xs : List A) → Permᴰ xs (sort_by before xs)
  unfolding sort_by
  sort_by-Permᴰ [] = Permᴰ.nil
  sort_by-Permᴰ (x ∷ xs) =
      Permᴰ.trans (Permᴰ.cons refl (sort_by-Permᴰ xs)) (insert_by-Permᴰ x (sort_by before xs))

module _ {W : Type 0} ⦃f : Float64 W⦄ where
  rank_from-ranks :
      (n : ℕ) (ss : List (FastSegment W))
      → map (λ (s : FastSegment W). s.rank) (rank_from n ss) ≡ counted_from n (rank_from n ss)
  unfolding rank_from
  rank_from-ranks n [] = refl
  rank_from-ranks n (s ∷ ss) = ap (λ r. n ∷ r) (rank_from-ranks (n + 1) ss)

  length-rank_from : (n : ℕ) (ss : List (FastSegment W)) → length (rank_from n ss) ≡ length ss
  unfolding rank_from
  length-rank_from n [] = refl
  length-rank_from n (s ∷ ss) = omega (arith, length-rank_from (n + 1) ss)

  unranked-rank_from : (n : ℕ) (ss : List (FastSegment W)) → unranked (rank_from n ss) ≡ unranked ss
  unfolding rank_from
  unranked-rank_from n [] = refl
  unranked-rank_from n (s ∷ ss) =
      ap (λ r. record s { rank = 0 } ∷ r) (unranked-rank_from (n + 1) ss)

  rank_from-LastsFor :
      (d n : ℕ) (ss : List (FastSegment W))
      → All (LastsFor d) ss
      → All (LastsFor d) (rank_from n ss)
  unfolding rank_from
  rank_from-LastsFor d n [] h = tt
  rank_from-LastsFor d n (s ∷ ss) (h, hs) = (h, rank_from-LastsFor d (n + 1) ss hs)

  ranked-IsRanking :
      IsAsym f
      → (limit d : ℕ) (ss : List (FastSegment W)) → All (LastsFor d) ss
      → IsRanking limit d ss (rank_from 1 (take limit (sort_by ranks_before ss)))
  ranked-IsRanking asym limit d ss h =
      let sorted = sort_by ranks_before ss in
      let best = take limit sorted in
      let whole = take-drop limit sorted in
      record {
        best = best;
        others = drop limit sorted;
        all_found = rw whole (sort_by-Permᴰ ranks_before ss);
        ranked = rw whole (sort_by-IsRanked asym ss);
        answered = unranked-rank_from 1 best;
        ranks = rank_from-ranks 1 best;
        few = omega (arith, length-rank_from 1 best, length-take_le limit sorted);
        enough = rw (length-rank_from 1 best) (drop-take limit sorted);
        long =
            rank_from-LastsFor d 1 best
              (All-take (LastsFor d) limit sorted (sort_by-All ranks_before (LastsFor d) ss h));
      }

  module _ (in_some_order : List (Group W) → List (Group W))
      (fetched : Option (List (FastSegmentSourcePoint W))) (cfg : FastSegmentConfig W)
      (limit : ℕ) where
    -- An answer that is a ranking of what was found in the points that were fetched.
    abbrev pub IsAnswer : List (FastSegment W) → Type 0
    IsAnswer segments =
        (points : List (FastSegmentSourcePoint W)) × (found : List (FastSegment W)) × (fetched
          ≡ some points)
        × (segments_of_groups cfg (in_some_order (group_edges (build_speed_edges points) []))
            ≡ some found)
        × IsRanking limit cfg.min_duration found segments

    -- Of an answer that is a list of segments.
    abbrev Answers : Option (Ranked W) → Type 0
    Answers none = Unit
    Answers (some (err e)) = Unit
    Answers (some (ok segments)) = IsAnswer segments

    answer-Answers :
        IsAsym f
        → (points : List (FastSegmentSourcePoint W)) (found : Option (List (FastSegment W)))
        → fetched ≡ some points
        → segments_of_groups cfg (in_some_order (group_edges (build_speed_edges points) [])) ≡ found
        → IfSome (All (LastsFor cfg.min_duration)) found
        → Answers (
            option_map ok
              (option_map (λ ss. rank_from 1 (take limit (sort_by ranks_before ss))) found))
    answer-Answers asym points none e k h = tt
    answer-Answers asym points (some ss) e k h =
        (points, ss, e, k, ranked-IsRanking asym limit cfg.min_duration ss h)

    rank_fetched-Answers :
        IsAsym f
        → (points : Option (List (FastSegmentSourcePoint W))) → fetched ≡ points
        → Answers (rank_fetched in_some_order cfg limit points)
    unfolding rank_segments
    rank_fetched-Answers asym none e = tt
    rank_fetched-Answers asym (some points) e =
        let groups = in_some_order (group_edges (build_speed_edges points) []) in
        answer-Answers asym points (segments_of_groups cfg groups) e refl
          (segments_of_groups-LastsFor cfg groups)

    in_range-Answers :
        (check : Option QueryError) (r : Option (Ranked W)) → Answers r → Answers (in_range check r)
    in_range-Answers none r h = h
    in_range-Answers (some e) r h = tt

    answered :
        (r : Option (Ranked W)) (segments : List (FastSegment W))
        → Answers r
        → r ≡ some (ok segments)
        → IsAnswer segments
    answered r segments h e = subst Answers e h

  -- If the order of float64 is asymmetric, then what `GetFastSegments` answers comes from the segments
  -- that it finds in the fetched points of the user, the device and the range, in whatever order the
  -- devices are passed over: brought into an order in which each has more uplift than the next, or
  -- not less and then more speed, or not less and then no later start, the first ones, as many as the
  -- limit or else all, are the answer, with the ranks 1, 2 and so on; and each of it lasts the
  -- shortest duration of the preset at least.
  pub get_fast_segments_ranks :
      IsAsym f
      → (in_some_order : List (Group W) → List (Group W))
        (fetch : FastSegmentFilter → Option (List (FastSegmentSourcePoint W)))
        (input : GetFastSegmentsInput) (cfg : FastSegmentConfig W) (segments : List (FastSegment W))
      → fast_segment_preset_config input.preset ≡ some cfg
      → get_fast_segments in_some_order fetch input ≡ some (ok segments)
      → IsAnswer in_some_order (fetch (filter_of input)) cfg input.limit segments
  unfolding get_fast_segments
  get_fast_segments_ranks asym in_some_order fetch input cfg segments preset e =
      let fetched = fetch (filter_of input) in
      let Fine : Option (Ranked W) → Type 0 = Answers in_some_order fetched cfg input.limit in
      answered in_some_order fetched cfg input.limit _ segments
        (in_range-Answers in_some_order fetched cfg input.limit
          (validate_range input.from input.until) _
          (rw preset (
            if-elim Fine (not (is_fast_limit input.limit)) _ _ (λ _. tt)
              (λ _. rank_fetched-Answers in_some_order fetched cfg input.limit asym fetched refl))))
        e
