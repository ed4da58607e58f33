-- ===== src/Route/Links/Cycle.antt =====
-- A run of the route matching job over the tables, whatever statements fail:
-- services/tracking-worker/internal/usecase/route_matching_job.go over storage/postgres/route_repo.go.
use wrany.Prelude.{
  ℕ, ◌+◌, Option, none, some, List, [], ◌∷◌, map, Time, Uuid, All, IfSome-always, All-keep, length,
  take, sort_by, ltb, if-elim,
}
use wrany.Float64.{Float64}
use wrany.Action.{
  Failure, read_ok, Action, pure, Outcome, Ensures, Ensures-bind, Ensures-weaken, attempt, ◌>>=◌,
  Ensures-attempt, ◌>>=◌, Ensures-attempt_each, Outcome-either,
}
use wrany.Domain.Trip.{Trip}
use wrany.Route.Polyline.{GeoPoint}
use wrany.Route.Match.{Route, find_best_match}
use wrany.Route.Job.{
  Setup, Work, on_store, process_trip, match_trip, load_templates, run_once, route_match_batch_size,
}
use wrany.Route.Repository.{
  RouteDb, PostGis, next_statement, route_repo, find_unmatched_trips, find_trip_points_with_coords,
  points_of, candidates_of, template_of, unmatched, find_candidate_routes, find_route_template,
}
use wrany.Route.Links.Good.{
  Mode, IsInjective, IsKnown, IsOrderly, DistinctTrips, Good, Good-next, Good-tail,
}
use wrany.Route.Links.Rows.{All-zip}
use wrany.Route.Links.Fetched.{fetched}
use wrany.Route.Links.Statements.{Holds, query-Ensures}
use wrany.Route.Links.Offered.{find_best_match-offered, has_itself}
use wrany.Route.Links.Writes.{settle_match-Ensures}

module _ {W : Type 0} where
  abbrev fetched_from : ℕ → RouteDb W → List (Trip W)
  fetched_from min_points db =
      take route_match_batch_size
        (sort_by (λ (a b : Trip W). ltb a.created_at b.created_at) (unmatched min_points db))

  abbrev pub HasTripIds : Mode → List (Trip W) → Type 0
  HasTripIds Mode.lax trips = Unit
  HasTripIds Mode.strict trips = DistinctTrips trips

  fetched-IsOrderly :
      (mode : Mode) (db : RouteDb W) (min_points : ℕ)
      → IsOrderly mode [] db
      → HasTripIds mode db.worker.trips
      → IsOrderly mode (fetched_from min_points db) db
  fetched-IsOrderly Mode.lax db min_points h ids = tt
  fetched-IsOrderly Mode.strict db min_points h ids =
      let k = fetched _ min_points route_match_batch_size db ids in (h.0, k.0, k.1)

  module _ ⦃f : Float64 W⦄ (gis : PostGis W) (at_time : Time) (set : Setup W)
      (injective : IsInjective set.fresh) (mode : Mode) where
    open set use {fresh, cfg}

    abbrev GoodFor : List (Trip W) → Option Uuid → RouteDb W → ℕ → Type 0
    GoodFor ts owing db n = Good fresh mode ts owing db n

    module _ (t : Trip W) (ts : List (Trip W)) where
      -- While the trip is looked at, and after it.
      abbrev Before : RouteDb W → ℕ → Type 0
      Before = GoodFor (t ∷ ts) none

      abbrev After : RouteDb W → ℕ → Type 0
      After = GoodFor ts none

      leave : (db : RouteDb W) (n : ℕ) → Before db n → After (next_statement db) n
      leave db n g =
          Good-tail fresh mode t ts (next_statement db) n
            (Good-next fresh mode (t ∷ ts) none db n g)

      -- The candidates are routes of the table.
      abbrev Offered : List (Route W) → RouteDb W → ℕ → Type 0
      Offered cs db n = Before db n × All (λ (c : Route W). IsKnown fresh n db (some c.id)) cs

      Offered-next :
          (offered : List (Route W)) (db : RouteDb W) (n : ℕ)
          → Offered offered db n
          → Offered offered (next_statement db) n
      Offered-next offered db n h = (Good-next fresh mode (t ∷ ts) none db n h.0, h.1)

      load_templates-Ensures :
          (offered cs : List (Route W))
          → Ensures
              (Holds (Offered offered))
              (Holds (Offered offered))
              (λ _. Holds (Offered offered))
              (load_templates (route_repo gis at_time) set cs)
      unfolding load_templates find_route_template
      load_templates-Ensures offered [] work h = h
      load_templates-Ensures offered (c ∷ cs) work g =
          let P = Holds (Offered offered) in
          Ensures-bind P P (λ _. P) (λ _. P) (attempt (on_store (find_route_template c.id)))
            (λ answer.
              load_templates (route_repo gis at_time) set cs
              >>= (λ rest. pure (read_ok answer rest λ template. (c.id, template) ∷ rest)))
            (Ensures-attempt P P (λ _. P) (on_store (find_route_template c.id))
              (query-Ensures (Offered offered) (Offered offered) (λ _. Offered offered)
                (λ db. some (template_of c.id db)) (Offered-next offered) (Offered-next offered))
              (λ _ _ h. h))
            (λ answer.
              Ensures-bind P P (λ _. P) (λ _. P) (load_templates (route_repo gis at_time) set cs)
                (λ rest. pure (read_ok answer rest λ template. (c.id, template) ∷ rest))
                (load_templates-Ensures offered cs) (λ _ _ h. h))
            work g

      without_templates :
          (db : RouteDb W) (n : ℕ) (rs : List (Route W))
          → All (λ (r : Route W). IsKnown fresh n db (some r.id)) rs
          → All
              (λ (r : Route W). IsKnown fresh n db (some r.id))
              (map (λ (r : Route W). record r { template = [] }) rs)
      without_templates db n [] h = tt
      without_templates db n (r ∷ rs) (h, hs) = (h, without_templates db n rs hs)

      routes-IsKnown :
          (db : RouteDb W) (n : ℕ)
          → Before db n
          → All (λ (r : Route W). IsKnown fresh n db (some r.id)) db.routes
      routes-IsKnown db n g = All-zip _ _ db.routes g.old_routes (has_itself db.routes)

      match_trip-Ensures :
          (points : List (GeoPoint W))
          → Ensures
              (Holds Before)
              (Holds After)
              (λ _. Holds After)
              (match_trip (route_repo gis at_time) set t points)
      unfolding match_trip find_candidate_routes
      match_trip-Ensures points =
          Ensures-bind (Holds Before) (Holds After) (λ cs. Holds (Offered cs)) (λ _. Holds After)
            (on_store
              (find_candidate_routes gis t.user_id t.start_lat t.start_lon cfg.start_radius_m))
            _
            (query-Ensures Before After Offered
              (λ db.
                some (candidates_of gis t.user_id t.start_lat t.start_lon cfg.start_radius_m db))
              leave
              λ db n g. (
                Good-next fresh mode (t ∷ ts) none db n g,
                without_templates (next_statement db) n _ (
                    All-keep _ _ db.routes (
                      routes-IsKnown (next_statement db) n
                        (Good-next fresh mode (t ∷ ts) none db n g))),
              ))
            λ cs.
              Ensures-bind (Holds (Offered cs)) (Holds After) (λ _. Holds (Offered cs))
                (λ _. Holds After) (load_templates (route_repo gis at_time) set cs) _
                (Ensures-weaken (Holds (Offered cs)) (Holds (Offered cs)) (Holds After)
                  (λ _. Holds (Offered cs)) (load_templates (route_repo gis at_time) set cs)
                  (λ work h. Good-tail fresh mode t ts work.store work.issued h.0)
                  (load_templates-Ensures cs cs))
                λ templates work h.
                  settle_match-Ensures gis at_time set injective mode t ts points
                    (set.clock work.readings) (find_best_match cfg t points cs templates)
                    (record work { readings = work.readings + 1 })
                    (
                      h.0,
                      find_best_match-offered cfg t templates (IsKnown fresh work.issued work.store)
                          tt points cs h.1,
                    )

      process_trip-Ensures :
          Ensures
            (Holds Before)
            (Holds After)
            (λ _. Holds After)
            (process_trip (route_repo gis at_time) set t)
      unfolding process_trip find_trip_points_with_coords
      process_trip-Ensures =
          Ensures-bind (Holds Before) (Holds After) (λ _. Holds Before) (λ _. Holds After)
            (on_store (find_trip_points_with_coords t.id)) _
            (query-Ensures Before After (λ _. Before) (points_of t.id) leave
              λ db n g.
                IfSome-always (points_of t.id (next_statement db))
                  (Good-next fresh mode (t ∷ ts) none db n g))
            λ points work g.
              if-elim
                (λ (m : Action Failure (Work (RouteDb W)) (Unit {0})).
                  Outcome (Holds After) (λ _. Holds After) (m work))
                (ltb (length points) cfg.min_trip_points) _ _
                (λ _. Good-tail fresh mode t ts work.store work.issued g)
                (λ _. match_trip-Ensures points work g)

    -- Before a cycle; in the strict mode, also, the ids of the trips are unique.
    abbrev pub IsReady : RouteDb W → ℕ → Type 0
    IsReady db n = GoodFor [] none db n × HasTripIds mode db.worker.trips

    start :
        (trips : List (Trip W)) (db : RouteDb W) (n : ℕ)
        → GoodFor [] none db n
        → IsOrderly mode trips db
        → GoodFor trips none db n
    start trips db n g orderly = record {
      counted = g.counted;
      once = g.once;
      placed = g.placed;
      old_routes = g.old_routes;
      old_links = g.old_links;
      orderly = orderly;
      known = tt;
    }

    run_once-Ensures :
        Ensures
          (Holds IsReady)
          (Holds (GoodFor [] none))
          (λ _. Holds (GoodFor [] none))
          (run_once (route_repo gis at_time) set)
    unfolding run_once find_unmatched_trips
    run_once-Ensures =
        Ensures-bind (Holds IsReady) (Holds (GoodFor [] none)) (λ trips. Holds (GoodFor trips none))
          (λ _. Holds (GoodFor [] none))
          (on_store (find_unmatched_trips cfg.min_trip_points route_match_batch_size)) _
          (query-Ensures IsReady (GoodFor [] none) (λ trips. GoodFor trips none)
            (λ db. some (fetched_from cfg.min_trip_points db))
            (λ db n h. Good-next fresh mode [] none db n h.0)
            λ db n h. start _ (next_statement db) n (Good-next fresh mode [] none db n h.0) (
              fetched-IsOrderly mode (next_statement db) cfg.min_trip_points
                (Good-next fresh mode [] none db n h.0).orderly h.1))
          (Ensures-attempt_each (λ trips. Holds (GoodFor trips none))
            (process_trip (route_repo gis at_time) set) process_trip-Ensures)

module _ {W : Type 0} ⦃f : Float64 W⦄ (gis : PostGis W) (at_time : Time) (set : Setup W) where
  abbrev ran : Work (RouteDb W) → Work (RouteDb W)
  ran work = (run_once (route_repo gis at_time) set work).1

  -- Whatever statements fail during a cycle, afterwards each route counts at least the trips that
  -- are linked to it, no trip is linked twice, and each link leads to a route of the table, if all
  -- that was so before, no uuid is given twice, and the routes have no uuid that is still to be given.
  pub run_once_covers :
      (work : Work (RouteDb W))
      → IsInjective set.fresh
      → Good set.fresh Mode.lax [] none work.store work.issued
      → Good set.fresh Mode.lax [] none (ran work).store (ran work).issued
  run_once_covers work injective g =
      Outcome-either (Holds (Good set.fresh Mode.lax [] none))
        (run_once (route_repo gis at_time) set work)
        (run_once-Ensures gis at_time set injective Mode.lax work (g, tt))

  -- If no statement fails and the ids of the trips are unique, then a cycle keeps that each route
  -- counts just the trips that are linked to it, beside what `run_once_covers` says.
  pub run_once_counts :
      (work : Work (RouteDb W))
      → IsInjective set.fresh
      → DistinctTrips work.store.worker.trips
      → Good set.fresh Mode.strict [] none work.store work.issued
      → Good set.fresh Mode.strict [] none (ran work).store (ran work).issued
  run_once_counts work injective ids g =
      Outcome-either (Holds (Good set.fresh Mode.strict [] none))
        (run_once (route_repo gis at_time) set work)
        (run_once-Ensures gis at_time set injective Mode.strict work (g, ids))
