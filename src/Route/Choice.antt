-- ===== src/Route/Choice.antt =====
-- Which route `FindBestMatch` chooses: services/tracking-worker/internal/usecase/route_matching.go.
use wrany.Prelude.{
  contradiction, ◌≡◌, refl, ap, ◌∙◌, ◌⊎◌, inl, inr, true, false, Option, none, some, List, [], ◌∷◌,
  Uuid, All, Bool-cases, length, ltb, if-elim, arith,
}
use wrany.Float64.{Float64, nought}
use wrany.Domain.Trip.{Trip}
use wrany.Route.Polyline.{GeoPoint, normalize_polyline}
use wrany.Route.Match.{
  Route, RouteMatchConfig, MatchResult, score_route, better, best_of, find_best_match,
}

module _ {A : Type 0} where
  -- One of the elements has the property.
  abbrev pub Some : (A → Type 0) → List A → Type 0
  Some P [] = ⊥
  Some P (x ∷ xs) = P x ⊎ Some P xs

-- `<` of float64 is irreflexive and transitive, as IEEE 754 has it.
pub record IsStrict {W : Type 0} (f : Float64 W) : Type 0 where
  pub irreflexive : (a : W) → f.lt a a ≡ false
  pub transitive : (a b c : W) → f.lt a b ≡ true → f.lt b c ≡ true → f.lt a c ≡ true

module _ {W : Type 0} ⦃f : Float64 W⦄ where
  open f use {lt, neg, of_ℕ}

  -- The score, if there is one, is not above the bound.
  abbrev pub IsNotAbove : W → Option W → Type 0
  IsNotAbove bound none = Unit
  IsNotAbove bound (some score) = lt bound score ≡ false

  module _ (strict : IsStrict f) where
    IsNotAbove-trans :
        (low high : W) (o : Option W) → lt low high ≡ true → IsNotAbove low o → IsNotAbove high o
    IsNotAbove-trans low high none h k = tt
    IsNotAbove-trans low high (some score) h k = elim (Bool-cases (lt high score)) [
      | inr e ↦ e
      | inl e ↦ let t = strict.transitive low high score h e in ground arith
    ]

    module _ (cfg : RouteMatchConfig W) (trip : Trip W) (norm : List (GeoPoint W))
        (templates : List (Uuid × List (GeoPoint W))) where
      abbrev score : Route W → Option W
      score r = score_route cfg trip norm templates r

      -- The result is that of one of the routes.
      abbrev Picked : MatchResult W → List (Route W) → Type 0
      Picked m rs = Some (λ r. (m.route_id ≡ some r.id) × (score r ≡ some m.score)) rs

      -- The score of the result is that before it, or above it.
      abbrev Grows : MatchResult W → MatchResult W → Type 0
      Grows b m = (m ≡ b) ⊎ (lt b.score m.score ≡ true)

      Grows-IsNotAbove :
          (b m : MatchResult W) (o : Option W)
          → Grows b m
          → IsNotAbove b.score o
          → IsNotAbove m.score o
      Grows-IsNotAbove b m o (inl e) k = rw e k
      Grows-IsNotAbove b m o (inr h) k = IsNotAbove-trans b.score m.score o h k

      Grows-trans : (a b c : MatchResult W) → Grows a b → Grows b c → Grows a c
      Grows-trans a b c (inl e) k = rw⁻¹ e k
      Grows-trans a b c (inr h) (inl e) = rw e (inr h)
      Grows-trans a b c (inr h) (inr k) = inr (strict.transitive a.score b.score c.score h k)

      -- What one route makes of the best result so far.
      record Step (b : MatchResult W) (r : Route W) (m : MatchResult W) : Type 0 where
        grows : Grows b m
        above : IsNotAbove m.score (score r)
        kept : (m ≡ b) ⊎ ((m.route_id ≡ some r.id) × (score r ≡ some m.score))

      better-Step :
          (b : MatchResult W) (r : Route W) (o : Option W) → score r ≡ o → Step b r (better b r o)
      unfolding better
      better-Step b r none e = record { grows = inl refl; above = rw e tt; kept = inl refl }
      better-Step b r (some s) e =
          if-elim (Step b r) (lt b.score s) (record { route_id = some r.id; score = s }) b
            (λ h. record {
              grows = inr h;
              above = rw e (strict.irreflexive s);
              kept = inr (refl, e);
            })
            (λ h. record { grows = inl refl; above = rw e h; kept = inl refl })

      -- What the loop makes of the best result so far.
      record Loop (b : MatchResult W) (rs : List (Route W)) (m : MatchResult W) : Type 0 where
        grows : Grows b m
        above : All (λ r. IsNotAbove m.score (score r)) rs
        kept : (m ≡ b) ⊎ Picked m rs

      join :
          (b next m : MatchResult W) (r : Route W) (rs : List (Route W))
          → (next ≡ b) ⊎ ((next.route_id ≡ some r.id) × (score r ≡ some next.score))
          → (m ≡ next) ⊎ Picked m rs
          → (m ≡ b) ⊎ Picked m (r ∷ rs)
      join b next m r rs k (inr p) = inr (inr p)
      join b next m r rs (inl e) (inl d) = inl (d ∙ e)
      join b next m r rs (inr p) (inl d) = inr (inl (rw d p))

      best_of-Loop :
          (b : MatchResult W) (rs : List (Route W))
          → Loop b rs (best_of cfg trip norm templates b rs)
      unfolding best_of
      best_of-Loop b [] = record { grows = inl refl; above = tt; kept = inl refl }
      best_of-Loop b (r ∷ rs) =
          let next = better b r (score r) in
          let m = best_of cfg trip norm templates next rs in
          let step = better-Step b r (score r) refl in
          let rest = best_of-Loop next rs in
          record {
            grows = Grows-trans b next m step.grows rest.grows;
            above = (Grows-IsNotAbove next m (score r) rest.grows step.above, rest.above);
            kept = join b next m r rs step.kept rest.kept;
          }

  -- A route of the candidates with its score, or none; and no candidate scores above it.
  abbrev pub IsBest : (Route W → Option W) → List (Route W) → MatchResult W → Type 0
  IsBest score candidates m =
      ((m.route_id ≡ none)
        ⊎ Some (λ r. (m.route_id ≡ some r.id) × (score r ≡ some m.score)) candidates)
      × All (λ r. IsNotAbove m.score (score r)) candidates

  -- With enough points, and an order of float64 that is irreflexive and transitive, a trip is matched
  -- to a route of the candidates with its score, or to none; and no candidate that passes the filters
  -- has a score above that of the answer.
  pub find_best_match_chooses :
      (strict : IsStrict f) (cfg : RouteMatchConfig W) (trip : Trip W) (points : List (GeoPoint W))
      (candidates : List (Route W)) (templates : List (Uuid × List (GeoPoint W)))
      → ltb (length points) cfg.min_trip_points ≡ false
      → IsBest
          (score_route cfg trip (normalize_polyline points cfg.normalize_points_n) templates)
          candidates
          (find_best_match cfg trip points candidates templates)
  unfolding find_best_match
  find_best_match_chooses strict cfg trip points candidates templates h =
      let norm = normalize_polyline points cfg.normalize_points_n in
      let start : MatchResult W = record { route_id = none; score = neg (of_ℕ 1) } in
      let loop = best_of-Loop strict cfg trip norm templates start candidates in
      if-elim (IsBest (score_route cfg trip norm templates) candidates)
        (ltb (length points) cfg.min_trip_points) (record { route_id = none; score = nought })
        (best_of cfg trip norm templates start candidates)
        (λ e. contradiction (ltb (length points) cfg.min_trip_points) e h)
        (λ _. (
          elim loop.kept [
            | inl same ↦ inl (ap (λ (m : MatchResult W). m.route_id) same)
            | inr picked ↦ inr picked
          ],
          loop.above,
        ))
