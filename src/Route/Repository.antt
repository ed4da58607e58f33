-- ===== src/Route/Repository.antt =====
-- `RouteRepo`: services/tracking-worker/internal/storage/postgres/route_repo.go, over the tables of
-- the migrations 0006 and 0007. Each statement may fail by itself.
use wrany.Prelude.{
  ℕ, ◌+◌, Result, ok, err, Bool, true, false, not, ◌&&◌, ◌||◌, Option, some, ◌>>=◌, String, List,
  [], ◌∷◌, map, Time, Uuid, keep, take, sort_by, str_lt, str_eq, concat, leb, ltb, ◌==◌, read_or,
  if◌then◌else◌,
}
use wrany.Action.{first_of, behind_first, Action, Failure, or_failure}
use wrany.Domain.Trip.{TripStatus, Trip, TripPoint}
use wrany.Store.Tables.{
  Db, same_key, processed_key, trip_point_key, any, find?, insert_new, update_where,
}
use wrany.Route.Polyline.{GeoPoint}
use wrany.Route.Match.{Route}
use wrany.Route.Job.{RouteTrip, RouteMatchingRepository}

-- `failures` says of the next statements whether each fails; those behind its end do not.
pub record RouteDb (W : Type 0) : Type 0 where
  pub worker : Db W
  pub routes : List (Route W)
  pub route_trips : List (RouteTrip W)
  pub failures : List Bool

-- The verb %f of `fmt`, and PostGIS: `ST_GeomFromText`, with `none` for a text that it refuses, and
-- `ST_DWithin` of two points on the earth, each by its latitude and longitude.
pub record PostGis (W : Type 0) : Type 0 where
  pub format_f : W → String
  pub line_of_text : String → Option (List (GeoPoint W))
  pub within : W → W → W → W → W → Bool

-- `strings.Join(…, ",")`
abbrev pub join_comma : List String → String
join_comma [] = ""
join_comma (s ∷ []) = s
join_comma (s ∷ t ∷ ts) = concat s (concat "," (join_comma (t ∷ ts)))

abbrev pub is_completed : TripStatus → Bool
is_completed TripStatus.active = false
is_completed TripStatus.completed = true

abbrev pub is_before : TripPoint → TripPoint → Bool
is_before a b =
    if a.recorded_at == b.recorded_at
    then str_lt a.event_id b.event_id
    else ltb a.recorded_at b.recorded_at

module _ {W : Type 0} where
  abbrev pub next_statement : RouteDb W → RouteDb W
  next_statement db = record db { failures = behind_first db.failures }

  unfoldable pub statement :
      {A : Type 0} → (RouteDb W → Result Failure A × RouteDb W) → Action Failure (RouteDb W) A
  statement run db =
      if not db.worker.up || first_of db.failures
      then (err tt, next_statement db)
      else run (next_statement db)

  unfoldable pub query : {A : Type 0} → (RouteDb W → Option A) → Action Failure (RouteDb W) A
  unfolding statement
  query answer = statement λ db. (or_failure (answer db), db)

  unfoldable pub change : (RouteDb W → RouteDb W) → Action Failure (RouteDb W) (Unit {0})
  unfolding statement
  change run = statement λ db. (ok tt, run db)

  abbrev pub is_linked : List (RouteTrip W) → Trip W → Bool
  is_linked links t = any (λ (l : RouteTrip W). l.trip_id == t.id) links

  abbrev pub unmatched : ℕ → RouteDb W → List (Trip W)
  unmatched min_points db =
      keep
        (λ (t : Trip W).
          is_completed t.status
          && not (is_linked db.route_trips t)
          && leb min_points t.points_count)
        db.worker.trips

  unfoldable pub find_unmatched_trips : ℕ → ℕ → Action Failure (RouteDb W) (List (Trip W))
  unfolding query
  find_unmatched_trips min_points limit = query λ db. some (
      take limit
        (sort_by (λ (a b : Trip W). ltb a.created_at b.created_at) (unmatched min_points db)))

  -- The JOIN; a NULL coordinate cannot be scanned, which is `none`.
  unfoldable pub join_points : Db W → List TripPoint → Option (List (GeoPoint W))
  join_points db [] = some []
  join_points db (t ∷ ts) =
      let rest = join_points db ts in
      read_or
        (find? (λ p. same_key (processed_key p) (trip_point_key t)) db.processed_location_points)
        rest
        λ p. do
          lat ← p.filtered_lat
          lon ← p.filtered_lon
          points ← rest
          some (record { lat = lat; lon = lon } ∷ points)

  abbrev pub points_of : Uuid → RouteDb W → Option (List (GeoPoint W))
  points_of trip_id db =
      join_points db.worker
        (sort_by is_before (keep (λ t. t.trip_id == trip_id) db.worker.trip_points))

  unfoldable pub find_trip_points_with_coords :
      Uuid → Action Failure (RouteDb W) (List (GeoPoint W))
  unfolding query join_points
  find_trip_points_with_coords trip_id = query (points_of trip_id)

  -- The columns that are selected do not hold the template.
  abbrev pub candidates_of : PostGis W → Uuid → W → W → W → RouteDb W → List (Route W)
  candidates_of gis user_id start_lat start_lon radius_m db =
      map (λ (r : Route W). record r { template = [] })
        (keep
          (λ (r : Route W).
            r.user_id == user_id
            && str_eq r.status "active"
            && gis.within r.start_lat r.start_lon start_lat start_lon radius_m)
          db.routes)

  unfoldable pub find_candidate_routes :
      PostGis W → Uuid → W → W → W → Action Failure (RouteDb W) (List (Route W))
  unfolding query
  find_candidate_routes gis user_id start_lat start_lon radius_m =
      query λ db. some (candidates_of gis user_id start_lat start_lon radius_m db)

  abbrev pub template_of : Uuid → RouteDb W → List (GeoPoint W)
  template_of route_id db =
      read_or (find? (λ (r : Route W). r.id == route_id) db.routes) [] λ r. r.template

  unfoldable pub find_route_template : Uuid → Action Failure (RouteDb W) (List (GeoPoint W))
  unfolding query
  find_route_template route_id = query λ db. some (template_of route_id db)

  unfoldable pub build_line_string_wkt : PostGis W → List (GeoPoint W) → String
  build_line_string_wkt gis points = concat "LINESTRING(" (
      concat
        (join_comma (
          map (λ (p : GeoPoint W). concat (gis.format_f p.lon) (concat " " (gis.format_f p.lat)))
            points))
        ")")

  abbrev pub same_route : Route W → Route W → Bool
  same_route a b = a.id == b.id

  abbrev pub same_trip : RouteTrip W → RouteTrip W → Bool
  same_trip a b = a.trip_id == b.trip_id

  abbrev pub add_route : Route W → List (GeoPoint W) → RouteDb W → RouteDb W
  add_route r line db = record db {
    routes = insert_new same_route (record r { template = line }) db.routes;
  }

  -- A line that PostGIS refuses is an error.
  abbrev pub try_add : PostGis W → Route W → RouteDb W → Result Failure (Unit {0}) × RouteDb W
  try_add gis r db =
      read_or (gis.line_of_text (build_line_string_wkt gis r.template)) (err tt, db)
        λ line. (ok tt, add_route r line db)

  unfoldable pub insert_route : PostGis W → Route W → Action Failure (RouteDb W) (Unit {0})
  unfolding statement build_line_string_wkt insert_new
  insert_route gis r = statement (try_add gis r)

  abbrev pub add_link : RouteTrip W → RouteDb W → RouteDb W
  add_link l db = record db { route_trips = insert_new same_trip l db.route_trips }

  -- `ON CONFLICT (trip_id) DO NOTHING`
  unfoldable pub insert_route_trip : RouteTrip W → Action Failure (RouteDb W) (Unit {0})
  unfolding change insert_new
  insert_route_trip l = change (add_link l)

  abbrev pub count_trip : Time → Uuid → Route W → Route W
  count_trip now last_trip_id r = record r {
    trips_count = r.trips_count + 1;
    last_trip_id = last_trip_id;
    updated_at = now;
  }

  abbrev pub count_up : Time → Uuid → Uuid → RouteDb W → RouteDb W
  count_up now route_id last_trip_id db = record db {
    routes =
        update_where (λ (r : Route W). r.id == route_id) (count_trip now last_trip_id) db.routes;
  }

  -- `now` is the time of the database.
  unfoldable pub incr_route_stats : Time → Uuid → Uuid → Action Failure (RouteDb W) (Unit {0})
  unfolding change update_where
  incr_route_stats now route_id last_trip_id = change (count_up now route_id last_trip_id)

  abbrev pub route_repo : PostGis W → Time → RouteMatchingRepository W (RouteDb W)
  route_repo gis now = record {
    find_unmatched_trips = find_unmatched_trips;
    find_trip_points_with_coords = find_trip_points_with_coords;
    find_candidate_routes = find_candidate_routes gis;
    find_route_template = find_route_template;
    insert_route = insert_route gis;
    insert_route_trip = insert_route_trip;
    incr_route_stats = incr_route_stats now;
  }
