-- ===== src/Route/Links/Writes.antt =====
-- From the match of a trip to its link, whatever statements fail: the second half of `processTrip`,
-- services/tracking-worker/internal/usecase/route_matching_job.go.
use wrany.Prelude.{
  ok, err, ℕ, ◌+◌, ◌≡◌, refl, Option, none, some, List, ◌∷◌, Time, Uuid, read_or, arith,
}
use wrany.Float64.{Float64}
use wrany.Action.{Outcome, Ensures, Ensures-bind}
use wrany.Domain.Trip.{Trip}
use wrany.Route.Polyline.{GeoPoint}
use wrany.Route.Match.{MatchResult}
use wrany.Route.Job.{
  RouteTrip, Setup, on_store, settle_match, assign, publish_matched, link_of, route_of,
}
use wrany.Route.Repository.{
  RouteDb, PostGis, next_statement, route_repo, insert_route, insert_route_trip, incr_route_stats,
  add_link, count_up, add_route, try_add, build_line_string_wkt,
}
use wrany.Route.Links.Good.{
  Mode, IsInjective, IsKnown, Good, Good-next, Good-later, Good-tail, Good-Fails,
}
use wrany.Route.Links.Changes.{Good-add, Good-incr, Good-link}
use wrany.Route.Links.Statements.{Holds, statement-Ensures, change-Ensures}

module _ {W : Type 0} where
  module _ ⦃f : Float64 W⦄ (gis : PostGis W) (at_time : Time) (set : Setup W)
      (injective : IsInjective set.fresh) (mode : Mode) where
    open set use {fresh, cfg}

    abbrev GoodFor : List (Trip W) → Option Uuid → RouteDb W → ℕ → Type 0
    GoodFor ts owing db n = Good fresh mode ts owing db n

    module _ (t : Trip W) (ts : List (Trip W)) where
      -- While the trip is looked at, and after it.
      abbrev Before : RouteDb W → ℕ → Type 0
      Before = GoodFor (t ∷ ts) none

      abbrev After : RouteDb W → ℕ → Type 0
      After = GoodFor ts none

      leave : (db : RouteDb W) (n : ℕ) → Before db n → After (next_statement db) n
      leave db n g =
          Good-tail fresh mode t ts (next_statement db) n
            (Good-next fresh mode (t ∷ ts) none db n g)

      incr-Ensures :
          (id trip_id : Uuid)
          → Ensures
              (Holds (λ db n. Before db n × IsKnown fresh n db (some id)))
              (Holds After)
              (λ _. Holds (GoodFor (t ∷ ts) (some id)))
              (on_store (incr_route_stats at_time id trip_id))
      unfolding incr_route_stats
      incr-Ensures id trip_id =
          change-Ensures (λ db n. Before db n × IsKnown fresh n db (some id)) After
            (GoodFor (t ∷ ts) (some id)) (count_up at_time id trip_id)
            (λ db n h e. Good-Fails fresh mode t ts none db n h.0 e)
            λ db n (g, known).
              Good-incr fresh mode (t ∷ ts) (next_statement db) n id trip_id at_time
                (Good-next fresh mode (t ∷ ts) none db n g) known.0 known.1

      link-Ensures :
          (id : Uuid) (l : RouteTrip W)
          → l.route_id ≡ id
          → l.trip_id ≡ t.id
          → Ensures
              (Holds (GoodFor (t ∷ ts) (some id)))
              (Holds After)
              (λ _. Holds After)
              (on_store (insert_route_trip l))
      unfolding insert_route_trip
      link-Ensures id l route_is trip_is =
          change-Ensures (GoodFor (t ∷ ts) (some id)) After After (add_link l)
            (λ db n g e. Good-Fails fresh mode t ts (some id) db n g e)
            λ db n g.
              Good-link fresh mode t ts (next_statement db) n id l route_is trip_is
                (Good-next fresh mode (t ∷ ts) (some id) db n g)

      -- `uuid.New` has just answered.
      abbrev Minted : Uuid → RouteDb W → ℕ → Type 0
      Minted id db m = (n : ℕ) × (m ≡ n + 1) × (id ≡ fresh n) × Before db n

      inserted :
          (id : Uuid) (points : List (GeoPoint W)) (now : Time) (db : RouteDb W) (m : ℕ)
          (line : Option (List (GeoPoint W)))
          → Minted id db m
          → Outcome
              (λ d. After d m)
              (λ (_ : Unit {0}) d. GoodFor (t ∷ ts) (some id) d m)
              (read_or line
                (err tt, next_statement db)
                λ line. (ok tt, add_route (route_of id t points now) line (next_statement db)))
      inserted id points now db m none (n, m_is, id_is, g) =
          rw m_is (
            Good-later fresh mode ts none (next_statement db) n (n + 1) (omega arith)
              (leave db n g))
      inserted id points now db m (some line) (n, m_is, id_is, g) =
          rw (m_is, id_is)
            (Good-add fresh mode (t ∷ ts) (next_statement db) n
              (record (route_of (fresh n) t points now) { template = line }) injective refl refl
              (Good-next fresh mode (t ∷ ts) none db n g))

      insert-Ensures :
          (id : Uuid) (points : List (GeoPoint W)) (now : Time)
          → Ensures
              (Holds (Minted id))
              (Holds After)
              (λ _. Holds (GoodFor (t ∷ ts) (some id)))
              (on_store (insert_route gis (route_of id t points now)))
      unfolding insert_route
      insert-Ensures id points now =
          statement-Ensures (Minted id) After (λ _. GoodFor (t ∷ ts) (some id))
            (try_add gis (route_of id t points now))
            (λ db m (n, m_is, _, g) e. rw m_is (
              Good-later fresh mode ts none (next_statement db) n (n + 1) (omega arith)
                (Good-Fails fresh mode t ts none db n g e)))
            λ db m h.
              inserted id points now db m (gis.line_of_text (build_line_string_wkt gis points)) h

      -- A match leads to a route of the table.
      abbrev Matched : Option Uuid → RouteDb W → ℕ → Type 0
      Matched found db n = Before db n × IsKnown fresh n db found

      assign-Ensures :
          (points : List (GeoPoint W)) (now : Time) (score : W) (found : Option Uuid)
          → Ensures
              (Holds (Matched found))
              (Holds After)
              (λ (assigned : Uuid × W). Holds (GoodFor (t ∷ ts) (some assigned.0)))
              (assign (route_repo gis at_time) set t points now score found)
      unfolding assign
      assign-Ensures points now score none work (g, _) =
          Ensures-bind (Holds (Minted (fresh work.issued))) (Holds After)
            (λ _. Holds (GoodFor (t ∷ ts) (some (fresh work.issued))))
            (λ (assigned : Uuid × W). Holds (GoodFor (t ∷ ts) (some assigned.0)))
            (on_store (insert_route gis (route_of (fresh work.issued) t points now))) _
            (insert-Ensures (fresh work.issued) points now) (λ _ after h. h)
            (record work { issued = work.issued + 1 }) (work.issued, refl, refl, g)
      assign-Ensures points now score (some id) work h =
          Ensures-bind (Holds (Matched (some id))) (Holds After)
            (λ _. Holds (GoodFor (t ∷ ts) (some id)))
            (λ (assigned : Uuid × W). Holds (GoodFor (t ∷ ts) (some assigned.0)))
            (on_store (incr_route_stats at_time id t.id)) _ (incr-Ensures id t.id) (λ _ after k. k)
            work h

      pub settle_match-Ensures :
          (points : List (GeoPoint W)) (now : Time) (m : MatchResult W)
          → Ensures
              (Holds (Matched m.route_id))
              (Holds After)
              (λ _. Holds After)
              (settle_match (route_repo gis at_time) set t points now m)
      unfolding settle_match publish_matched
      settle_match-Ensures points now m =
          Ensures-bind _ (Holds After)
            (λ (assigned : Uuid × W). Holds (GoodFor (t ∷ ts) (some assigned.0))) (λ _. Holds After)
            (assign (route_repo gis at_time) set t points now m.score m.route_id) _
            (assign-Ensures points now m.score m.route_id)
            λ assigned.
              Ensures-bind _ (Holds After) (λ _. Holds After) (λ _. Holds After)
                (on_store (insert_route_trip (link_of t now assigned))) _
                (link-Ensures assigned.0 (link_of t now assigned) refl refl)
                λ _ after h. Good-later fresh mode ts none after.store _ _ (omega arith) h
