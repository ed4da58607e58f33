-- ===== src/Route/Links/Offered.antt =====
-- The match is none or one of the candidates: services/tracking-worker/internal/usecase/route_matching.go.
use wrany.Prelude.{Option, none, some, List, [], ◌∷◌, Uuid, All, length, ltb, if-elim, arith}
use wrany.Float64.{Float64}
use wrany.Domain.Trip.{Trip}
use wrany.Route.Polyline.{GeoPoint}
use wrany.Route.Match.{
  Route, RouteMatchConfig, MatchResult, find_best_match, best_of, better, score_route,
}
use wrany.Route.Links.Good.{HasRoute}
use wrany.Route.Links.Rows.{All-imp}
use wrany.Route.Links.Changes.{same_refl}

module _ {W : Type 0} where
  -- The best route is one of those that are offered.
  module _ ⦃f : Float64 W⦄ (cfg : RouteMatchConfig W) (trip : Trip W)
      (templates : List (Uuid × List (GeoPoint W))) (K : Option Uuid → Type 0)
      (nothing : K none) where
    better-offered :
        (best : MatchResult W) (r : Route W) (score : Option W)
        → K best.route_id
        → K (some r.id)
        → K (better best r score).route_id
    unfolding better
    better-offered best r none h k = h
    better-offered best r (some score) h k =
        if-elim (λ (m : MatchResult W). K m.route_id) (f.lt best.score score)
          (record { route_id = some r.id; score = score }) best (λ _. k) (λ _. h)

    best_of-offered :
        (norm : List (GeoPoint W)) (best : MatchResult W) (rs : List (Route W))
        → K best.route_id
        → All (λ (r : Route W). K (some r.id)) rs
        → K (best_of cfg trip norm templates best rs).route_id
    unfolding best_of
    best_of-offered norm best [] h _ = h
    best_of-offered norm best (r ∷ rs) h (k, ks) =
        best_of-offered norm (better best r (score_route cfg trip norm templates r)) rs
          (better-offered best r (score_route cfg trip norm templates r) h k) ks

    pub find_best_match-offered :
        (points : List (GeoPoint W)) (rs : List (Route W))
        → All (λ (r : Route W). K (some r.id)) rs
        → K (find_best_match cfg trip points rs templates).route_id
    unfolding find_best_match
    find_best_match-offered points rs h =
        if-elim (λ (m : MatchResult W). K m.route_id) (ltb (length points) cfg.min_trip_points) _ _
          (λ _. nothing) (λ _. best_of-offered _ _ rs nothing h)

  pub has_itself : (rs : List (Route W)) → All (λ (r : Route W). HasRoute rs r.id) rs
  has_itself [] = tt
  has_itself (r ∷ rs) =
      (ground (arith, same_refl r.id), All-imp _ _ rs (λ q h. ground (arith, h)) (has_itself rs))
