-- ===== src/Gateway/Query/Runs.antt =====
-- That each fast segment is a run of fast edges: `collectFastSegments`,
-- services/tracking-gateway/internal/usecase/tracking_query.go.
use wrany.Prelude.{
  ℕ, ◌-◌, ◌≤◌, ◌≡◌, refl, sym, ap, ◌∙◌, true, false, List, [], ◌∷◌, ◌++◌, append_assoc, All,
  All-append, last?, ltb, read_or, if-elim, arith,
}
use wrany.Float64.{Float64}
use wrany.Gateway.Query.Fast.{
  FastSegment, SpeedEdge, final_of, segment_of, joins, flush, breaks, extend, next_run,
  collect_from, collect_fast_segments,
}

module _ {W : Type 0} where
  -- Each edge begins at the point in which the one before it ends.
  abbrev pub IsChained : List (SpeedEdge W) → Type 0
  IsChained [] = Unit
  IsChained (e ∷ []) = Unit
  IsChained (e ∷ e' ∷ es) = (joins e e' ≡ true) × IsChained (e' ∷ es)

  joined_behind :
      (e : SpeedEdge W) (run : List (SpeedEdge W)) (next : SpeedEdge W)
      → IsChained (e ∷ run)
      → read_or (last? (e ∷ run)) true (λ l. joins l next) ≡ true
      → IsChained ((e ∷ run) ++ next ∷ [])
  joined_behind e [] next h k = (k, tt)
  joined_behind e (e' ∷ run) next (h, hs) k = (h, joined_behind e' run next hs k)

  pub IsChained-extend :
      (run : List (SpeedEdge W)) (next : SpeedEdge W)
      → IsChained run
      → read_or (last? run) true (λ l. joins l next) ≡ true
      → IsChained (run ++ next ∷ [])
  IsChained-extend [] next h k = tt
  IsChained-extend (e ∷ run) next h k = joined_behind e run next h k

-- Of two numbers, the one that is not less is at least the other.
abbrev pub IsTotal : {W : Type 0} → Float64 W → Type 0
IsTotal {W = W} f =
    (x y : W)
    → Float64.le f x x ≡ true
    → Float64.le f y y ≡ true
    → Float64.lt f x y ≡ false
    → Float64.le f y x ≡ true

module _ {W : Type 0} ⦃f : Float64 W⦄ where
  open f use {le}

  -- A number, not NaN, is at most itself.
  abbrev pub IsNumber : W → Type 0
  IsNumber x = le x x ≡ true

  -- The speeds of edges are numbers.
  abbrev pub HaveSpeeds : List (SpeedEdge W) → Type 0
  HaveSpeeds es = All (λ e. IsNumber e.speed_mps) es

module _ {W : Type 0} ⦃f : Float64 W⦄ (threshold baseline : W) (min_duration : ℕ)
    (edges : List (SpeedEdge W)) where
  open f use {lt, le}

  abbrev pub IsFast : SpeedEdge W → Type 0
  IsFast e = le threshold e.speed_mps ≡ true

  -- The segment is that of a run of edges that follow each other in the list, each fast and joined to
  -- the next, and it lasts long enough.
  pub record IsRun (segment : FastSegment W) : Type 0 where
    pub front : List (SpeedEdge W)
    pub first : SpeedEdge W
    pub others : List (SpeedEdge W)
    pub back : List (SpeedEdge W)
    pub whole : edges ≡ front ++ ((first ∷ others) ++ back)
    pub fast : All IsFast (first ∷ others)
    pub chained : IsChained (first ∷ others)
    pub long : min_duration ≤ (final_of first others).target.recorded_at - first.source.recorded_at
    pub made : segment ≡ segment_of baseline first others

  -- A run that may still grow, before the edges that are left.
  record IsGrowing (run left : List (SpeedEdge W)) : Type 0 where
    front : List (SpeedEdge W)
    whole : edges ≡ front ++ (run ++ left)
    fast : All IsFast run
    chained : IsChained run

  flush-IsRun :
      (run left : List (SpeedEdge W))
      → IsGrowing run left
      → All IsRun (flush threshold baseline min_duration run)
  unfolding flush
  flush-IsRun [] left g = tt
  flush-IsRun (e ∷ es) left g =
      if-elim (All IsRun)
        (ltb ((final_of e es).target.recorded_at - e.source.recorded_at) min_duration) _ _ (λ _. tt)
        λ h. (
          record {
            front = g.front;
            first = e;
            others = es;
            back = left;
            whole = g.whole;
            fast = g.fast;
            chained = g.chained;
            long = ground arith;
            made = refl;
          },
          tt,
        )

  module _ (total : IsTotal f) (number : IsNumber threshold) where
    -- The edge goes to the run if it is fast; behind a run that ended it begins a new one.
    restart :
        (run left : List (SpeedEdge W)) (e : SpeedEdge W)
        → IsGrowing run (e ∷ left)
        → IsGrowing (extend threshold baseline min_duration [] e) left
    restart run left e g =
        if-elim (λ run'. IsGrowing run' left) (le threshold e.speed_mps) (e ∷ []) []
          (λ h. record {
            front = g.front ++ run;
            whole = g.whole ∙ sym (append_assoc g.front run (e ∷ left));
            fast = (h, tt);
            chained = tt;
          })
          (λ _. record {
            front = g.front ++ (run ++ e ∷ []);
            whole =
                g.whole
                ∙ ap (λ xs. g.front ++ xs) (sym (append_assoc run (e ∷ []) left))
                ∙ sym (append_assoc g.front (run ++ e ∷ []) left);
            fast = tt;
            chained = tt;
          })

    grow :
        (run left : List (SpeedEdge W)) (e : SpeedEdge W)
        → IsNumber e.speed_mps
        → breaks threshold baseline min_duration run e ≡ false
        → IsGrowing run (e ∷ left)
        → IsGrowing (extend threshold baseline min_duration run e) left
    grow run left e speed h g =
        let slow : lt e.speed_mps threshold ≡ false = ground arith in
        let goes : read_or (last? run) true (λ l. joins l e) ≡ true = ground arith in
        let fast = total e.speed_mps threshold speed number slow in
        let grown : IsGrowing (run ++ e ∷ []) left = record {
          front = g.front;
          whole = g.whole ∙ ap (λ xs. g.front ++ xs) (sym (append_assoc run (e ∷ []) left));
          fast = All-append IsFast run (e ∷ []) g.fast (fast, tt);
          chained = IsChained-extend run e g.chained goes;
        } in
        rw fast grown

    next_run-IsGrowing :
        (run left : List (SpeedEdge W)) (e : SpeedEdge W)
        → IsNumber e.speed_mps
        → IsGrowing run (e ∷ left)
        → IsGrowing (next_run threshold baseline min_duration run e) left
    next_run-IsGrowing run left e speed g =
        if-elim (λ kept. IsGrowing (extend threshold baseline min_duration kept e) left)
          (breaks threshold baseline min_duration run e) [] run (λ _. restart run left e g)
          (λ h. grow run left e speed h g)

    collect_from-IsRun :
        (run left : List (SpeedEdge W))
        → HaveSpeeds left
        → IsGrowing run left
        → All IsRun (collect_from threshold baseline min_duration run left)
    unfolding collect_from
    collect_from-IsRun run [] speeds g = flush-IsRun run [] g
    collect_from-IsRun run (e ∷ left) (speed, speeds) g =
        All-append IsRun _ _
          (if-elim (All IsRun) (breaks threshold baseline min_duration run e) _ _
            (λ _. flush-IsRun run (e ∷ left) g) (λ _. tt))
          (collect_from-IsRun (next_run threshold baseline min_duration run e) left speeds
            (next_run-IsGrowing run left e speed g))

    -- If the threshold and the speeds of the edges are numbers, not NaN, and numbers are ordered as
    -- IEEE 754 orders them, then each fast segment is made of a run of edges that follow each other in
    -- the list, each at the threshold or above it and beginning where the one before it ends, that
    -- lasts the shortest duration at least.
    pub collect_fast_segments_runs :
        HaveSpeeds edges → All IsRun (collect_fast_segments threshold baseline min_duration edges)
    unfolding collect_fast_segments
    collect_fast_segments_runs speeds =
        collect_from-IsRun [] edges speeds
          (record { front = []; whole = refl; fast = tt; chained = tt })
