-- ===== src/Tests/Links.antt =====
-- Cycles of the route matching job, and their theorems at them.
use wrany.Prelude.{
  ℕ, ◌≡◌, refl, true, false, none, some, String, [], ◌∷◌, seconds, arith, length, map, sort_by,
}
use wrany.Float64.{Milli, milli, haversine_m}
use wrany.Domain.Trip.{TripStatus, Trip, TripPoint}
use wrany.Store.Tables.{Db, update_where, insert_new}
use wrany.Action.{attempt_each}
use wrany.Route.Polyline.{
  normalize_polyline, normalize_line, measure_from, total_length, resample, advance, interpolate,
  sum_distances, avg_point_distance,
}
use wrany.Route.Match.{
  Route, find_best_match, best_of, better, score_route, score_template, is_near_end,
  has_like_distance,
}
use wrany.Route.Job.{
  Setup, Work, run_once, process_trip, match_trip, settle_match, assign, load_templates,
  publish_matched,
}
use wrany.Route.Repository.{
  PostGis, RouteDb, route_repo, find_unmatched_trips, find_trip_points_with_coords,
  find_candidate_routes, find_route_template, insert_route, insert_route_trip, incr_route_stats,
  statement, query, change,
}
use wrany.Events.Build.{new_matched_event}
use wrany.Route.Links.Good.{Mode, Good, IsInjective}
use wrany.Route.Links.Cycle.{run_once_covers, run_once_counts}
use wrany.Tests.Data.{fresh, step_at, later}
use wrany.Tests.Cycle.{wiring, trip}
use wrany.Tests.Route.{line, route_cfg}

abbrev done_trip : Trip Milli
done_trip = record trip {
  status = TripStatus.completed;
  end_lat = some 10_000;
  end_lon = some 20_000;
  points_count = 5;
}

abbrev trip_point : String → ℕ → TripPoint
trip_point event_id secs = record {
  trip_id = 100;
  user_id = 1;
  device_id = 2;
  event_id = event_id;
  recorded_at = seconds secs;
}

abbrev worker : Db Milli
worker = record {
  up = true;
  raw_location_points = [];
  processed_location_points =
      step_at "a" 1_000 0
      ∷ step_at "b" 1_020 0
      ∷ step_at "c" 1_040 0
      ∷ step_at "d" 1_060 0
      ∷ step_at "e" 1_080 0
      ∷ [];
  trips = done_trip ∷ [];
  trip_points =
      trip_point "a" 1_000
      ∷ trip_point "b" 1_020
      ∷ trip_point "c" 1_040
      ∷ trip_point "d" 1_060
      ∷ trip_point "e" 1_080
      ∷ [];
  trip_detection_state = [];
}

abbrev db : RouteDb Milli
db = record { worker = worker; routes = []; route_trips = []; failures = [] }

-- The fifth statement from here fails: the insert of the link.
abbrev failing_db : RouteDb Milli
failing_db = record db { failures = false ∷ false ∷ false ∷ false ∷ true ∷ [] }

abbrev gis : PostGis Milli
gis = record {
  format_f = λ a. "0";
  line_of_text = λ text. some line;
  within = λ a b c d radius. true;
}

abbrev setup : Setup Milli
setup = record {
  cfg = route_cfg;
  json = wiring.json;
  producer = "worker";
  text = wiring.text;
  fresh = fresh;
  clock = λ n. later;
}

abbrev start : RouteDb Milli → Work (RouteDb Milli)
start db = record { store = db; issued = 1; readings = 0; published = [] }

fresh-IsInjective : IsInjective fresh
fresh-IsInjective m n e = omega arith

run_once_covers_example :
    Good fresh Mode.lax [] none
      (run_once (route_repo gis later) setup (start failing_db)).1.store
      (run_once (route_repo gis later) setup (start failing_db)).1.issued
run_once_covers_example =
    run_once_covers gis later setup (start failing_db) fresh-IsInjective (record {
      counted = tt;
      once = tt;
      placed = tt;
      old_routes = tt;
      old_links = tt;
      orderly = tt;
      known = tt;
    })

run_once_counts_example :
    Good fresh Mode.strict [] none
      (run_once (route_repo gis later) setup (start db)).1.store
      (run_once (route_repo gis later) setup (start db)).1.issued
run_once_counts_example =
    run_once_counts gis later setup (start db) fresh-IsInjective (tt, tt)
      (record {
        counted = tt;
        once = tt;
        placed = tt;
        old_routes = tt;
        old_links = tt;
        orderly = ((refl, refl), tt, tt);
        known = tt;
      })

abbrev cycle : Work (RouteDb Milli) → Work (RouteDb Milli)
cycle work = (run_once (route_repo gis later) setup work).1

-- The link of a first cycle fails; the second matches the trip to the route that it made.
counted_twice :
    (map (λ (r : Route Milli). r.trips_count) (cycle (cycle (start failing_db))).store.routes
      ≡ 2 ∷ [])
    × (length (cycle (cycle (start failing_db))).store.route_trips ≡ 1)
unfolding run_once process_trip match_trip settle_match assign load_templates publish_matched
    attempt_each find_unmatched_trips find_trip_points_with_coords find_candidate_routes
    find_route_template insert_route insert_route_trip incr_route_stats update_where insert_new
    sort_by find_best_match best_of better score_route score_template is_near_end has_like_distance
    normalize_polyline normalize_line measure_from total_length resample advance interpolate
    sum_distances avg_point_distance haversine_m new_matched_event statement query change
counted_twice = (refl, refl)
