-- ===== src/Tests/Route.antt =====
-- Runs of the matching of trips to routes, and the theorem at them.
use wrany.Prelude.{ℕ, ◌≡◌, refl, none, some, List, [], ◌∷◌, Uuid, seconds, arith}
use wrany.Float64.{Milli, milli, haversine_m}
use wrany.Route.Polyline.{
  GeoPoint, normalize_polyline, normalize_line, measure_from, total_length, resample, advance,
  interpolate, sum_distances, avg_point_distance,
}
use wrany.Route.Match.{
  Route, RouteMatchConfig, default_route_match_config, find_best_match, best_of, better,
  score_route, score_template, is_near_end, has_like_distance,
}
use wrany.Route.Choice.{IsStrict, IsBest, find_best_match_chooses}
use wrany.Tests.Cycle.{trip}

abbrev at_lat : ℕ → GeoPoint Milli
at_lat n = record { lat = n; lon = 20_000 }

abbrev pub line : List (GeoPoint Milli)
line = at_lat 10_000 ∷ at_lat 10_010 ∷ at_lat 10_020 ∷ at_lat 10_030 ∷ at_lat 10_040 ∷ []

abbrev pub route_cfg : RouteMatchConfig Milli
route_cfg = record default_route_match_config { normalize_points_n = 4 }

abbrev route : Uuid → Route Milli
route id = record {
  id = id;
  user_id = 1;
  device_id = some 2;
  name = none;
  status = "active";
  start_lat = 10_000;
  start_lon = 20_000;
  end_lat = 0;
  end_lon = 0;
  distance_m = 90_000;
  trips_count = 1;
  template = line;
  first_trip_id = 7;
  last_trip_id = 7;
  created_at = seconds 900;
  updated_at = seconds 900;
}

abbrev candidates : List (Route Milli)
candidates = route 50 ∷ route 51 ∷ []

abbrev templates : List (Uuid × List (GeoPoint Milli))
templates = (50, []) ∷ (51, line) ∷ []

milli-IsStrict : IsStrict milli
milli-IsStrict = record { irreflexive = λ a. ground arith; transitive = λ a b c h k. ground arith }

-- The route without a template is passed over.
chooses_second :
    find_best_match route_cfg trip line candidates templates
    ≡ record { route_id = some 51; score = 1_000 }
unfolding find_best_match best_of better score_route score_template is_near_end has_like_distance
    normalize_polyline normalize_line measure_from total_length resample advance interpolate
    sum_distances avg_point_distance haversine_m
chooses_second = refl

find_best_match_chooses_example :
    IsBest
      (score_route route_cfg trip (normalize_polyline line 4) templates)
      candidates
      (find_best_match route_cfg trip line candidates templates)
find_best_match_chooses_example =
    find_best_match_chooses milli-IsStrict route_cfg trip line candidates templates refl
