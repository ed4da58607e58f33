-- ===== src/Route/Links/Changes.antt =====
-- The three writes of the route matching job keep its invariant:
-- services/tracking-worker/internal/storage/postgres/route_repo.go.
use wrany.Prelude.{
  ℕ, ◌+◌, ◌≡◌, refl, ◌∙◌, ap, Bool, true, false, none, some, List, [], ◌∷◌, ◌++◌, Time, Uuid, All,
  All-append, ◌==◌, contradiction, arith,
}
use wrany.Domain.Trip.{Trip}
use wrany.Store.Tables.{any, insert_new, update_where}
use wrany.Store.Keys.{any-append-left, any-append-right}
use wrany.Route.Match.{Route}
use wrany.Route.Job.{RouteTrip}
use wrany.Route.Repository.{RouteDb, same_route, same_trip, count_trip}
use wrany.Route.Links.Rows.{
  bit, same_sym, any-append_one, any-ne, any-All, All-imp, insert_new-elim, any-update_where,
  All-update_where, links_of, links_of-append_one, links_of-none, append_one-IsLinkedOnce, All-zip,
}
use wrany.Route.Links.Good.{
  Mode, Covers, IsInjective, IsOld, IsOld-later, HasRoute, IsOrderly, Good, Good-tail, Good-forgive,
}

pub same_refl : (n : ℕ) → (n == n) ≡ true
same_refl n = ground arith

fresh-IsOld : (fresh : ℕ → Uuid) (n : ℕ) → IsInjective fresh → IsOld fresh (n + 1) (fresh n)
fresh-IsOld fresh n injective m h = ground (arith, injective m n)

Covers-same : (mode : Mode) (a b c : ℕ) → a ≡ b → Covers mode b c → Covers mode a c
Covers-same Mode.lax a b c e h = omega arith
Covers-same Mode.strict a b c e h = e ∙ h

Covers-one_more : (mode : Mode) (a c : ℕ) → Covers mode a c → Covers mode (a + 1) (c + 1)
Covers-one_more Mode.lax a c h = omega arith
Covers-one_more Mode.strict a c h = omega arith

Covers-first : (mode : Mode) → Covers mode 1 1
Covers-first Mode.lax = omega arith
Covers-first Mode.strict = refl

-- The count of a route that another route's debt leaves alone.
Covers-unrelated :
    (mode : Mode) (links count : ℕ) (b : Bool)
    → b ≡ false
    → Covers mode (links + 0) count
    → Covers mode (links + bit b) count
Covers-unrelated mode links count b e h =
    Covers-same mode (links + bit b) (links + 0) count (ap (λ b. links + bit b) e) h

Covers-new :
    (mode : Mode) (links count : ℕ) (b : Bool)
    → links ≡ 0
    → b ≡ true
    → count ≡ 1
    → Covers mode (links + bit b) count
Covers-new Mode.lax links count b e h k = ground arith
Covers-new Mode.strict links count b e h k = ground arith

module _ {W : Type 0} (fresh : ℕ → Uuid) where
  HasRoute-append :
      (routes : List (Route W)) (r : Route W) (id : Uuid)
      → HasRoute routes id
      → HasRoute (routes ++ r ∷ []) id
  HasRoute-append routes r id h = any-append-left (λ (q : Route W). q.id == id) routes (r ∷ []) h

  IsOrderly-routes :
      (mode : Mode) (ts : List (Trip W)) (db : RouteDb W) (routes : List (Route W))
      → IsOrderly mode ts db
      → IsOrderly mode ts (record db { routes = routes })
  IsOrderly-routes Mode.lax ts db routes h = tt
  IsOrderly-routes Mode.strict ts db routes h = h

  module _ (mode : Mode) (ts : List (Trip W)) (db : RouteDb W) (n : ℕ) (r : Route W)
      (injective : IsInjective fresh) (id_is : r.id ≡ fresh n) (one : r.trips_count ≡ 1)
      (g : Good fresh mode ts none db n) where
    add-counted :
        All
          (λ (q : Route W).
            Covers mode (links_of q.id db.route_trips + bit (fresh n == q.id)) q.trips_count)
          (db.routes ++ r ∷ [])
    add-counted =
        All-append _ db.routes (r ∷ [])
          (All-imp _ _ db.routes
            (λ q (h, old).
              Covers-unrelated mode (links_of q.id db.route_trips) q.trips_count (fresh n == q.id)
                (old n (omega arith)) h)
            (All-zip _ _ db.routes g.counted g.old_routes))
          (
            Covers-new mode (links_of r.id db.route_trips) r.trips_count (fresh n == r.id)
                (links_of-none r.id db.route_trips (
                  All-imp _ _ db.route_trips (λ l old. rw id_is (old n (omega arith))) g.old_links))
                (rw id_is (same_refl (fresh n))) one,
            tt,
          )

    add-Good :
        Good fresh mode ts (some (fresh n)) (record db { routes = db.routes ++ r ∷ [] }) (n + 1)
    add-Good = record {
      counted = add-counted;
      once = g.once;
      placed = All-imp _ _ db.route_trips (λ l. HasRoute-append db.routes r l.route_id) g.placed;
      old_routes =
          All-append _ db.routes (r ∷ [])
            (All-imp _ _ db.routes (λ q. IsOld-later fresh n (n + 1) q.id (omega arith))
              g.old_routes)
            (rw id_is (fresh-IsOld fresh n injective), tt);
      old_links =
          All-imp _ _ db.route_trips (λ l. IsOld-later fresh n (n + 1) l.route_id (omega arith))
            g.old_links;
      orderly = IsOrderly-routes mode ts db _ g.orderly;
      known = (
        fresh-IsOld fresh n injective,
        any-append-right (λ (q : Route W). q.id == fresh n) db.routes r
            (rw id_is (same_refl (fresh n))),
      );
    }

    is_new : any (same_route r) db.routes ≡ false
    is_new =
        any-All (same_route r) db.routes
          (All-imp _ _ db.routes (λ q old. rw id_is (old n (omega arith))) g.old_routes)

    -- A row with a fresh id and a count of one owes the link of its trip.
    pub Good-add :
        Good fresh mode ts
          (some (fresh n))
          (record db { routes = insert_new same_route r db.routes })
          (n + 1)
    Good-add =
        insert_new-elim
          (λ rows. Good fresh mode ts (some (fresh n)) (record db { routes = rows }) (n + 1))
          same_route r db.routes (λ e. contradiction (any (same_route r) db.routes) e is_new)
          (λ _. add-Good)

  module _ (mode : Mode) (ts : List (Trip W)) (db : RouteDb W) (n : ℕ) (id trip_id : Uuid)
      (now : Time) (g : Good fresh mode ts none db n) where
    counted_up : List (Route W)
    counted_up = update_where (λ (r : Route W). r.id == id) (count_trip now trip_id) db.routes

    incr-counted :
        All
          (λ (r : Route W).
            Covers mode (links_of r.id db.route_trips + bit (id == r.id)) r.trips_count)
          counted_up
    unfolding counted_up
    incr-counted =
        All-update_where _ _ _ (count_trip now trip_id) db.routes
          (λ r e h.
            Covers-same mode _ (links_of r.id db.route_trips + 0 + 1) _ (ground arith)
              (Covers-one_more mode (links_of r.id db.route_trips + 0) r.trips_count h))
          (λ r e h.
            Covers-unrelated mode (links_of r.id db.route_trips) r.trips_count (id == r.id)
              (same_sym r.id id e) h)
          g.counted

    has_route : (k : Uuid) → HasRoute db.routes k → HasRoute counted_up k
    unfolding counted_up
    has_route k h =
        any-update_where (λ (r : Route W). r.id == k) _ (count_trip now trip_id) db.routes
          (λ r. refl)
        ∙ h

    -- The route that is counted up owes the link of the trip.
    pub Good-incr :
        IsOld fresh n id
        → HasRoute db.routes id
        → Good fresh mode ts
            (some id)
            (record db {
              routes =
                  update_where (λ (r : Route W). r.id == id) (count_trip now trip_id) db.routes;
            })
            n
    unfolding counted_up
    Good-incr old here = record {
      counted = incr-counted;
      once = g.once;
      placed = All-imp _ _ db.route_trips (λ l. has_route l.route_id) g.placed;
      old_routes =
          All-update_where _ _ _ (count_trip now trip_id) db.routes (λ r e h. h) (λ r e h. h)
            g.old_routes;
      old_links = g.old_links;
      orderly = IsOrderly-routes mode ts db _ g.orderly;
      known = (old, has_route id here);
    }

  module _ (mode : Mode) (t : Trip W) (ts : List (Trip W)) (db : RouteDb W) (n : ℕ) (id : Uuid)
      (l : RouteTrip W) (route_is : l.route_id ≡ id) (trip_is : l.trip_id ≡ t.id)
      (g : Good fresh mode (t ∷ ts) (some id) db n) where
    link-IsOrderly :
        (mode : Mode)
        → IsOrderly mode (t ∷ ts) db
        → IsOrderly mode ts (record db { route_trips = db.route_trips ++ l ∷ [] })
    link-IsOrderly Mode.lax h = tt
    link-IsOrderly Mode.strict h = (
      h.0,
      All-imp _ _ ts
          (λ u (free, other).
            rw
              (
                any-append_one (λ (x : RouteTrip W). x.trip_id == u.id) db.route_trips l,
                free,
                trip_is,
              )
              other)
          (All-zip _ _ ts h.1.1 h.2.0),
      h.2.1,
    )

    links-linked :
        (k : Uuid)
        → links_of k (db.route_trips ++ l ∷ []) + 0 ≡ links_of k db.route_trips + bit (id == k)
    links-linked k = rw (links_of-append_one k db.route_trips l, route_is) (omega arith)

    link-Good :
        any (same_trip l) db.route_trips ≡ false
        → Good fresh mode ts none (record db { route_trips = db.route_trips ++ l ∷ [] }) n
    link-Good new = record {
      counted =
          All-imp _ _ db.routes
            (λ r h.
              Covers-same mode (links_of r.id (db.route_trips ++ l ∷ []) + 0)
                (links_of r.id db.route_trips + bit (id == r.id)) r.trips_count (links-linked r.id)
                h)
            g.counted;
      once = append_one-IsLinkedOnce db.route_trips l g.once new;
      placed = All-append _ db.route_trips (l ∷ []) g.placed (rw route_is g.known.1, tt);
      old_routes = g.old_routes;
      old_links = All-append _ db.route_trips (l ∷ []) g.old_links (rw route_is g.known.0, tt);
      orderly = link-IsOrderly mode g.orderly;
      known = tt;
    }

    -- A trip that is linked already is not linked again; that does not come in the strict mode.
    link_kept :
        (mode : Mode)
        → Good fresh mode (t ∷ ts) (some id) db n
        → any (same_trip l) db.route_trips ≡ true
        → Good fresh mode ts none db n
    link_kept Mode.lax k old =
        Good-tail fresh Mode.lax t ts db n (Good-forgive fresh (t ∷ ts) (some id) db n k)
    link_kept Mode.strict k old = contradiction (any (same_trip l) db.route_trips) old (
        any-ne _ (same_trip l) db.route_trips (λ x e. rw trip_is (same_sym x.trip_id t.id e))
          k.orderly.1.0)

    -- The link that was owing is written.
    pub Good-link :
        Good fresh mode ts none
          (record db { route_trips = insert_new same_trip l db.route_trips })
          n
    Good-link =
        insert_new-elim (λ links. Good fresh mode ts none (record db { route_trips = links }) n)
          same_trip l db.route_trips (link_kept mode g) link-Good
