-- ===== src/Noise/Accounting.antt =====
-- What `ProcessBatch` answers for a whole batch:
-- services/tracking-worker/internal/usecase/noise/pipeline.go.
use wrany.Prelude.{
  append_nil, ◌<◌, ◌⊎◌, ◌≡◌, refl, sym, ap, ◌∙◌, Bool, true, false, not, ◌||◌, Option, none, some,
  List, [], ◌∷◌, ◌++◌, map, Time, All, All-append, Bool-cases, inl, inr, if-elim, if◌then◌else◌,
  keep, head?, ltb, arith,
}
use wrany.Float64.{Float64}
use wrany.Domain.Point.{RawLocationPoint, ProcessedLocationPoint, NoiseConfig}
use wrany.Noise.Window.{trim_window, accepted_only}
use wrany.Noise.Reasons.{Origin, origin, raw_origin, Verdict, hold_still-Verdict}
use wrany.Noise.Verdict.{process_one-Judges}
use wrany.Noise.Pipeline.{
  BatchResult, start_of, hold_still, window_start, sort_points, is_late, process_one, mark_since,
  mark_accepted_since, mark_stationary_window, collect, process_from, process_batch,
}

module _ {A B : Type 0} where
  map-snoc : (g : A → B) (xs : List A) (y : A) → map g (xs ++ y ∷ []) ≡ map g xs ++ g y ∷ []
  map-snoc g [] y = refl
  map-snoc g (x ∷ xs) y = ap (λ r. g x ∷ r) (map-snoc g xs y)

module _ {A : Type 0} where
  append-snoc : (xs : List A) (y : A) (ys : List A) → (xs ++ y ∷ []) ++ ys ≡ xs ++ y ∷ ys
  append-snoc [] y ys = refl
  append-snoc (x ∷ xs) y ys = ap (λ r. x ∷ r) (append-snoc xs y ys)

  keep-snoc_in :
      (p : A → Bool) (xs : List A) (y : A)
      → p y ≡ true
      → keep p (xs ++ y ∷ []) ≡ keep p xs ++ y ∷ []
  keep-snoc_in p [] y h = ground arith
  keep-snoc_in p (x ∷ xs) y h = ground (arith, keep-snoc_in p xs y h)

  keep-snoc_out :
      (p : A → Bool) (xs : List A) (y : A) → p y ≡ false → keep p (xs ++ y ∷ []) ≡ keep p xs
  keep-snoc_out p [] y h = ground arith
  keep-snoc_out p (x ∷ xs) y h = ground (arith, keep-snoc_out p xs y h)

module _ {A : Type 0} where
  keep-map :
      (q : A → Bool) (g h : A → A)
      → ((x : A) → q (g x) ≡ q x)
      → ((x : A) → q x ≡ true → g x ≡ h x)
      → (xs : List A) → keep q (map g xs) ≡ map h (keep q xs)
  keep-map q g h same e [] = refl
  keep-map q g h same e (x ∷ xs) = elim (Bool-cases (q x)) [
    | inl a ↦ rw (same x, a, e x a, keep-map q g h same e xs) refl
    | inr a ↦ rw (same x, a) (keep-map q g h same e xs)
  ]

-- The time is behind what earlier batches processed.
abbrev pub IsAfter : Option Time → Time → Type 0
IsAfter none at_time = Unit
IsAfter (some through) at_time = through < at_time

process_one-timely :
    {W : Type 0} ⦃f : Float64 W⦄ (through : Option Time) (cfg : NoiseConfig W)
    (history : List (ProcessedLocationPoint W)) (raw : RawLocationPoint W)
    (next : Option (RawLocationPoint W)) (now : Time)
    → ((process_one cfg history raw next through now).is_accepted ≡ false)
      ⊎ IsAfter through raw.recorded_at
unfolding process_one start_of
process_one-timely none cfg history raw next now = inr tt
process_one-timely (some last) cfg history raw next now =
    elim (Bool-cases (is_late (some last) raw)) [
      | inr e ↦ inr (ground arith)
      | inl e ↦ inl (ground arith)
    ]

module _ {W : Type 0} ⦃f : Float64 W⦄ (through : Option Time) where
  -- A verdict, and no point is kept that an earlier batch may have processed.
  pub record Counts (p : ProcessedLocationPoint W) : Type 0 where
    pub verdict : Verdict p
    pub timely : (p.is_accepted ≡ false) ⊎ IsAfter through p.recorded_at

  hold_still-Counts :
      (since : Time) (p : ProcessedLocationPoint W)
      → p.is_accepted ≡ true
      → Counts p
      → Counts (hold_still since p)
  unfolding hold_still
  hold_still-Counts since p a c = record {
    verdict = hold_still-Verdict since p a c.verdict;
    timely = c.timely;
  }

  mark_accepted_since-Counts :
      (since : Time) (p : ProcessedLocationPoint W)
      → Counts p
      → Counts (mark_accepted_since since p)
  unfolding mark_accepted_since
  mark_accepted_since-Counts since p c =
      if-elim Counts (ltb p.recorded_at since || not p.is_accepted) p (hold_still since p) (λ _. c)
        λ e. hold_still-Counts since p (ground arith) c

  mark_accepted_since-All :
      (since : Time) (ps : List (ProcessedLocationPoint W))
      → All Counts ps
      → All Counts (map (mark_accepted_since since) ps)
  mark_accepted_since-All since [] h = tt
  mark_accepted_since-All since (p ∷ ps) (h, hs) =
      (mark_accepted_since-Counts since p h, mark_accepted_since-All since ps hs)

  mark_accepted_since-origin :
      (since : Time) (p : ProcessedLocationPoint W)
      → origin (mark_accepted_since since p) ≡ origin p
  unfolding mark_accepted_since hold_still
  mark_accepted_since-origin since p =
      if-elim (λ q. origin q ≡ origin p) (ltb p.recorded_at since || not p.is_accepted) p _
        (λ _. refl) (λ _. refl)

  map-origin :
      (since : Time) (ps : List (ProcessedLocationPoint W))
      → map origin (map (mark_accepted_since since) ps) ≡ map origin ps
  map-origin since [] = refl
  map-origin since (p ∷ ps) = rw (mark_accepted_since-origin since p, map-origin since ps) refl

  mark_accepted_since-kept :
      (since : Time) (p : ProcessedLocationPoint W)
      → (mark_accepted_since since p).is_accepted ≡ p.is_accepted
  unfolding mark_accepted_since hold_still
  mark_accepted_since-kept since p =
      if-elim (λ q. q.is_accepted ≡ p.is_accepted) (ltb p.recorded_at since || not p.is_accepted) p
        _ (λ _. refl) (λ _. refl)

  mark_accepted_since-accepted :
      (since : Time) (p : ProcessedLocationPoint W)
      → p.is_accepted ≡ true
      → mark_accepted_since since p ≡ mark_since since p
  unfolding mark_accepted_since mark_since
  mark_accepted_since-accepted since p a = ground arith

  keep-mark :
      (since : Time) (ps : List (ProcessedLocationPoint W))
      → keep (λ p. p.is_accepted) (map (mark_accepted_since since) ps)
        ≡ map (mark_since since) (keep (λ p. p.is_accepted) ps)
  keep-mark since ps =
      keep-map (λ p. p.is_accepted) (mark_accepted_since since) (mark_since since)
        (mark_accepted_since-kept since) (mark_accepted_since-accepted since) ps

  -- What holds of the result once the points of these origins are processed.
  pub record Tally (done : List (Origin W)) (result : BatchResult W) : Type 0 where
    pub origins : map origin result.processed ≡ done
    pub accepted : result.accepted ≡ keep (λ p. p.is_accepted) result.processed
    pub counts : All Counts result.processed

  mark_stationary_window-Tally :
      (done : List (Origin W)) (result : BatchResult W) (since : Time)
      → Tally done result
      → Tally done (mark_stationary_window result since)
  unfolding mark_stationary_window
  mark_stationary_window-Tally done result since t = record {
    origins = map-origin since result.processed ∙ t.origins;
    accepted = ap (map (mark_since since)) t.accepted ∙ sym (keep-mark since result.processed);
    counts = mark_accepted_since-All since result.processed t.counts;
  }

  collect-Tally :
      (cfg : NoiseConfig W) (window : List (ProcessedLocationPoint W)) (done : List (Origin W))
      (result : BatchResult W) (p : ProcessedLocationPoint W)
      → Counts p
      → Tally done result
      → Tally (done ++ origin p ∷ []) (collect cfg window result p).1
  unfolding collect
  collect-Tally cfg window done result p c t =
      let noted : BatchResult W = record result { processed = result.processed ++ p ∷ [] } in
      let kept : BatchResult W = record noted { accepted = result.accepted ++ p ∷ [] } in
      let window' = trim_window (window ++ p ∷ []) p.recorded_at cfg.stationary_window_sec in
      let since = window_start window' p.recorded_at in
      let done' = done ++ origin p ∷ [] in
      let names = map-snoc origin result.processed p ∙ ap (λ os. os ++ origin p ∷ []) t.origins in
      let counts = All-append Counts result.processed (p ∷ []) t.counts (c, tt) in
      let kept-Tally : p.is_accepted ≡ true → Tally done' kept = λ a. record {
        origins = names;
        accepted =
            ap (λ ps. ps ++ p ∷ []) t.accepted
            ∙ sym (keep-snoc_in (λ q. q.is_accepted) result.processed p a);
        counts = counts;
      } in
      if-elim (λ (r : List (ProcessedLocationPoint W) × BatchResult W). Tally done' r.1)
        p.is_accepted (window', if p.is_stationary then mark_stationary_window kept since else kept)
        (window, noted)
        (λ a.
          if-elim (Tally done') p.is_stationary (mark_stationary_window kept since) kept
            (λ _. mark_stationary_window-Tally done' kept since (kept-Tally a)) (λ _. kept-Tally a))
        λ a. record {
          origins = names;
          accepted = t.accepted ∙ sym (keep-snoc_out (λ q. q.is_accepted) result.processed p a);
          counts = counts;
        }

  process_one-Counts :
      (cfg : NoiseConfig W) (history : List (ProcessedLocationPoint W)) (raw : RawLocationPoint W)
      (next : Option (RawLocationPoint W)) (now : Time)
      → Counts (process_one cfg history raw next through now)
  process_one-Counts cfg history raw next now =
      let j = process_one-Judges cfg history raw next through now in
      record {
        verdict = j.verdict;
        timely =
            rw (ap (λ (o : Origin W). o.recorded_at) j.from)
              (process_one-timely through cfg history raw next now);
      }

  process_from-Tally :
      (cfg : NoiseConfig W) (now : Time) (window : List (ProcessedLocationPoint W))
      (done : List (Origin W)) (result : BatchResult W) (ps : List (RawLocationPoint W))
      → Tally done result
      → Tally (done ++ map raw_origin ps) (process_from cfg through now window result ps)
  unfolding process_from
  process_from-Tally cfg now window done result [] t = rw (append_nil done) t
  process_from-Tally cfg now window done result (p ∷ ps) t =
      let q = process_one cfg window p (head? ps) through now in
      let (window', result') = collect cfg window result q in
      let t' : Tally (done ++ raw_origin p ∷ []) result' =
        rw (sym (process_one-Judges cfg window p (head? ps) through now).from) (
          collect-Tally cfg window done result q (process_one-Counts cfg window p (head? ps) now)
            t) in
      rw (sym (append-snoc done (raw_origin p) (map raw_origin ps)))
        (process_from-Tally cfg now window' (done ++ raw_origin p ∷ []) result' ps t')

  -- A batch answers one processed point for each raw point, in the order of time, with its owner,
  -- event and position; the accepted list is the accepted ones of these, as they were marked in the
  -- end; each has a verdict whose reason tells its flags; and no point is accepted that is not behind
  -- the time up to which earlier batches were processed.
  pub process_batch_accounts :
      (cfg : NoiseConfig W) (history : List (ProcessedLocationPoint W))
      (raw : List (RawLocationPoint W)) (now : Time)
      → Tally (map raw_origin (sort_points raw)) (process_batch cfg history raw through now)
  unfolding process_batch
  process_batch_accounts cfg history raw now =
      process_from-Tally cfg now (accepted_only history) [] _ (sort_points raw)
        (record { origins = refl; accepted = refl; counts = tt })
