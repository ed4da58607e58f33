-- ===== src/Gateway/Query/Ranks.antt =====
-- What `GetFastSegments` answers: services/tracking-gateway/internal/usecase/tracking_query.go.
use mathlib.Core.List.{Permᴰ}
use wrany.Prelude.{
  ℕ, zero, suc, ◌+◌, ◌-◌, ◌≤◌, ◌≡◌, true, false, Option, none, some, IfSome, List, [], ◌∷◌, ◌++◌,
  map, All, All-append, length, take, drop, ltb, refl, ap, ◌⊎◌, inl, inr, option_map, ◌>>=◌,
  if-elim, arith,
}
use wrany.Float64.{Float64}
use wrany.Gateway.Query.Fast.{
  FastSegment, FastSegmentConfig, SpeedEdge, final_of, segment_of, flush, breaks, next_run,
  collect_from, collect_fast_segments,
}
use wrany.Gateway.Query.Ranking.{Group, segments_of_group, segments_of_groups}

-- The order of float64 is asymmetric.
abbrev pub IsAsym : {W : Type 0} → Float64 W → Type 0
IsAsym {W = W} f = (x y : W) → Float64.lt f x y ≡ true → Float64.lt f y x ≡ false

-- `n`, `n + 1` and so on.
abbrev pub counted_from : {A : Type 0} → ℕ → List A → List ℕ
counted_from n [] = []
counted_from n (x ∷ xs) = n ∷ counted_from (n + 1) xs

module _ {A : Type 0} where
  pub take-drop : (n : ℕ) (xs : List A) → take n xs ++ drop n xs ≡ xs
  take-drop zero xs = refl
  take-drop (suc n) [] = refl
  take-drop (suc n) (x ∷ xs) = ap (λ r. x ∷ r) (take-drop n xs)

  -- What is taken is all, or it is as many as asked for.
  pub drop-take : (n : ℕ) (xs : List A) → (drop n xs ≡ []) ⊎ (length (take n xs) ≡ n)
  drop-take zero xs = inr refl
  drop-take (suc n) [] = inl refl
  drop-take (suc n) (x ∷ xs) = elim (drop-take n xs) [
    | inl h ↦ inl h
    | inr h ↦ inr (omega (arith, h))
  ]

pub length-take_le : {A : Type 0} (n : ℕ) (xs : List A) → length (take n xs) ≤ n
length-take_le zero xs = omega arith
length-take_le (suc n) [] = omega arith
length-take_le (suc n) (x ∷ xs) = omega (arith, length-take_le n xs)

module _ {W : Type 0} ⦃f : Float64 W⦄ where
  open f use {lt}

  abbrev pub LastsFor : ℕ → FastSegment W → Type 0
  LastsFor min_duration s = min_duration ≤ s.ended_at - s.started_at

  -- `s` may stand in front of `t`: it has more uplift, or not less and then more speed, or not less
  -- and then no later start.
  abbrev pub IsInFront : FastSegment W → FastSegment W → Type 0
  IsInFront s t =
      (lt t.uplift_percent s.uplift_percent ≡ true)
      ⊎ ((lt s.uplift_percent t.uplift_percent ≡ false)
          × ((lt t.avg_speed_mps s.avg_speed_mps ≡ true)
              ⊎ ((lt s.avg_speed_mps t.avg_speed_mps ≡ false) × (s.started_at ≤ t.started_at))))

  -- Each segment may stand in front of the next.
  abbrev pub IsRanked : List (FastSegment W) → Type 0
  IsRanked [] = Unit
  IsRanked (s ∷ []) = Unit
  IsRanked (s ∷ t ∷ ts) = IsInFront s t × IsRanked (t ∷ ts)

  abbrev pub unranked : List (FastSegment W) → List (FastSegment W)
  unranked ss = map (λ (s : FastSegment W). record s { rank = 0 }) ss

  -- An answer from the segments that were found: the found ones are brought into an order in which
  -- each may stand in front of the next, and the answer is the first `limit` of them, or all, with
  -- the ranks 1, 2 and so on; and each lasts long enough.
  pub record IsRanking (limit min_duration : ℕ) (found segments : List (FastSegment W))
      : Type 0 where
    pub best : List (FastSegment W)
    pub others : List (FastSegment W)
    pub all_found : Permᴰ found (best ++ others)
    pub ranked : IsRanked (best ++ others)
    pub answered : unranked segments ≡ unranked best
    pub ranks : map (λ (s : FastSegment W). s.rank) segments ≡ counted_from 1 segments
    pub few : length segments ≤ limit
    pub enough : (others ≡ []) ⊎ (length segments ≡ limit)
    pub long : All (LastsFor min_duration) segments

  module _ (threshold baseline : W) (min_duration : ℕ) where
    flush-LastsFor :
        (run : List (SpeedEdge W))
        → All (LastsFor min_duration) (flush threshold baseline min_duration run)
    unfolding flush segment_of
    flush-LastsFor [] = tt
    flush-LastsFor (e ∷ es) =
        if-elim (All (LastsFor min_duration))
          (ltb ((final_of e es).target.recorded_at - e.source.recorded_at) min_duration) _ _
          (λ _. tt) (λ h. (ground arith, tt))

    collect_from-LastsFor :
        (run left : List (SpeedEdge W))
        → All (LastsFor min_duration) (collect_from threshold baseline min_duration run left)
    unfolding collect_from
    collect_from-LastsFor run [] = flush-LastsFor run
    collect_from-LastsFor run (e ∷ left) =
        All-append (LastsFor min_duration) _ _
          (if-elim (All (LastsFor min_duration)) (breaks threshold baseline min_duration run e) _ _
            (λ _. flush-LastsFor run) (λ _. tt))
          (collect_from-LastsFor (next_run threshold baseline min_duration run e) left)

  module _ (cfg : FastSegmentConfig W) where
    appended :
        (segments : List (FastSegment W)) (rest : Option (List (FastSegment W)))
        → All (LastsFor cfg.min_duration) segments
        → IfSome (All (LastsFor cfg.min_duration)) rest
        → IfSome (All (LastsFor cfg.min_duration)) (option_map (λ ss. segments ++ ss) rest)
    appended segments none h k = tt
    appended segments (some rest) h k = All-append (LastsFor cfg.min_duration) segments rest h k

    with_group :
        (found rest : Option (List (FastSegment W)))
        → IfSome (All (LastsFor cfg.min_duration)) found
        → IfSome (All (LastsFor cfg.min_duration)) rest
        → IfSome
            (All (LastsFor cfg.min_duration))
            (found >>= λ segments. option_map (λ ss. segments ++ ss) rest)
    with_group none rest h k = tt
    with_group (some segments) rest h k = appended segments rest h k

    collected :
        (edges : List (SpeedEdge W)) (baseline threshold : Option W)
        → IfSome (All (LastsFor cfg.min_duration)) (
            baseline >>= λ b.
            threshold >>= λ t. some (collect_fast_segments t b cfg.min_duration edges))
    unfolding collect_fast_segments
    collected edges none threshold = tt
    collected edges (some b) none = tt
    collected edges (some b) (some t) = collect_from-LastsFor t b cfg.min_duration [] edges

    pub segments_of_groups-LastsFor :
        (groups : List (Group W))
        → IfSome (All (LastsFor cfg.min_duration)) (segments_of_groups cfg groups)
    unfolding segments_of_groups
    segments_of_groups-LastsFor [] = tt
    segments_of_groups-LastsFor ((device, edges) ∷ groups) =
        with_group (segments_of_group cfg (device, edges)) (segments_of_groups cfg groups)
          (collected edges _ _) (segments_of_groups-LastsFor groups)
