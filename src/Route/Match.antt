-- ===== src/Route/Match.antt =====
-- `FindBestMatch`: services/tracking-worker/internal/usecase/route_matching.go, with the routes of
-- services/tracking-worker/internal/domain/route.go. A route's id is used as its text.
use wrany.Prelude.{
  ℕ, Bool, true, not, ◌&&◌, Option, none, some, String, List, [], ◌∷◌, Time, Uuid, length, is_empty,
  get_or_else, read_or, ltb, ◌==◌, if◌then◌else◌,
}
use wrany.Float64.{Float64, nought, haversine_m}
use wrany.Domain.Trip.{Trip}
use wrany.Route.Polyline.{GeoPoint, normalize_polyline, avg_point_distance}

pub record Route (W : Type 0) : Type 0 where
  pub id : Uuid
  pub user_id : Uuid
  pub device_id : Option Uuid
  pub name : Option String
  pub status : String
  pub start_lat : W
  pub start_lon : W
  pub end_lat : W
  pub end_lon : W
  pub distance_m : W
  pub trips_count : ℕ
  pub template : List (GeoPoint W)
  pub first_trip_id : Uuid
  pub last_trip_id : Uuid
  pub created_at : Time
  pub updated_at : Time

pub record RouteMatchConfig (W : Type 0) : Type 0 where
  pub start_radius_m : W
  pub end_radius_m : W
  pub distance_tolerance_ratio : W
  pub path_similarity_threshold_m : W
  pub min_trip_points : ℕ
  pub normalize_points_n : ℕ

-- `none` is the empty `RouteID`.
pub record MatchResult (W : Type 0) : Type 0 where
  pub route_id : Option Uuid
  pub score : W

module _ {W : Type 0} where
  -- `templateByRouteID[id]`: a map as its writes, of which the last holds.
  abbrev pub lookup_template : Uuid → List (Uuid × List (GeoPoint W)) → Option (List (GeoPoint W))
  lookup_template id [] = none
  lookup_template id ((key, template) ∷ m) =
      read_or (lookup_template id m) (if key == id then some template else none) λ later. some later

module _ {W : Type 0} ⦃f : Float64 W⦄ where
  open f use {decimal, of_ℕ, neg, sub, div, lt, abs, fmax}

  abbrev pub default_route_match_config : RouteMatchConfig W
  default_route_match_config = record {
    start_radius_m = of_ℕ 75;
    end_radius_m = of_ℕ 75;
    distance_tolerance_ratio = decimal 25 2;
    path_similarity_threshold_m = of_ℕ 50;
    min_trip_points = 5;
    normalize_points_n = 50;
  }

  -- The two filters of the loop that need no template.
  unfoldable pub is_near_end : RouteMatchConfig W → Trip W → Route W → Bool
  is_near_end cfg trip r = not (
      lt cfg.end_radius_m (
        haversine_m (get_or_else trip.end_lat nought) (get_or_else trip.end_lon nought) r.end_lat
          r.end_lon))

  unfoldable pub has_like_distance : RouteMatchConfig W → Trip W → Route W → Bool
  has_like_distance cfg trip r =
      if lt nought r.distance_m
      then not (
          lt cfg.distance_tolerance_ratio
            (div (abs (sub trip.distance_m r.distance_m)) r.distance_m))
      else true

  -- The score of a route whose template is near enough.
  unfoldable pub score_template :
      RouteMatchConfig W → List (GeoPoint W) → List (GeoPoint W) → Option W
  score_template cfg trip_norm template =
      let avg_dist =
        avg_point_distance trip_norm (normalize_polyline template cfg.normalize_points_n) in
      if is_empty template
      then none
      else if lt cfg.path_similarity_threshold_m avg_dist
      then none
      else some (fmax nought (sub (of_ℕ 1) (div avg_dist cfg.path_similarity_threshold_m)))

  -- `continue` is `none`.
  unfoldable pub score_route :
      RouteMatchConfig W
      → Trip W
      → List (GeoPoint W)
      → List (Uuid × List (GeoPoint W))
      → Route W
      → Option W
  score_route cfg trip trip_norm templates r =
      if is_near_end cfg trip r && has_like_distance cfg trip r
      then read_or (lookup_template r.id templates) none (score_template cfg trip_norm)
      else none

  unfoldable pub better : MatchResult W → Route W → Option W → MatchResult W
  better best r none = best
  better best r (some score) =
      if lt best.score score then record { route_id = some r.id; score = score } else best

  unfoldable pub best_of :
      RouteMatchConfig W
      → Trip W
      → List (GeoPoint W)
      → List (Uuid × List (GeoPoint W))
      → MatchResult W
      → List (Route W)
      → MatchResult W
  best_of cfg trip trip_norm templates best [] = best
  best_of cfg trip trip_norm templates best (r ∷ rs) =
      best_of cfg trip trip_norm templates
        (better best r (score_route cfg trip trip_norm templates r)) rs

  unfoldable pub find_best_match :
      RouteMatchConfig W
      → Trip W
      → List (GeoPoint W)
      → List (Route W)
      → List (Uuid × List (GeoPoint W))
      → MatchResult W
  find_best_match cfg trip trip_points candidates templates =
      if ltb (length trip_points) cfg.min_trip_points
      then record { route_id = none; score = nought }
      else best_of cfg trip (normalize_polyline trip_points cfg.normalize_points_n) templates
          (record { route_id = none; score = neg (of_ℕ 1) }) candidates
