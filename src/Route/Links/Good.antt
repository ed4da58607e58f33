-- ===== src/Route/Links/Good.antt =====
-- The invariant of the route matching job over its tables, and how each change of a row keeps it.
-- Two modes: whatever fails, a route counts at least its trips; where nothing fails, just its trips.
use wrany.Prelude.{
  ℕ, ◌+◌, ◌≤◌, ◌≡◌, true, false, not, ◌||◌, Option, none, some, List, [], ◌∷◌, Uuid, All, ◌==◌,
  contradiction, arith,
}
use wrany.Domain.Trip.{Trip}
use wrany.Store.Tables.{any}
use wrany.Route.Match.{Route}
use wrany.Route.Job.{RouteTrip}
use wrany.Action.{first_of}
use wrany.Route.Repository.{RouteDb, next_statement, is_linked}
use wrany.Route.Links.Rows.{bit, All-imp, links_of, IsLinkedOnce}

pub data Mode : Type 0 where
  lax strict : Mode

-- What a route's count is to the number of its links.
abbrev pub Covers : Mode → ℕ → ℕ → Type 0
Covers Mode.lax links count = links ≤ count
Covers Mode.strict links count = links ≡ count

-- A link that is counted and not written yet.
abbrev pub owed : Option Uuid → Uuid → ℕ
owed none id = 0
owed (some owing) id = bit (owing == id)

abbrev pub IsInjective : (ℕ → Uuid) → Type 0
IsInjective fresh = (m n : ℕ) → fresh m ≡ fresh n → m ≡ n

module _ (fresh : ℕ → Uuid) where
  -- The supply has given the id before its n-th answer, or never gives it.
  abbrev pub IsOld : ℕ → Uuid → Type 0
  IsOld n id = (m : ℕ) → n ≤ m → (fresh m == id) ≡ false

  pub IsOld-later : (n m : ℕ) (id : Uuid) → n ≤ m → IsOld n id → IsOld m id
  IsOld-later n m id h old k hk = old k (omega arith)

module _ {W : Type 0} where
  abbrev pub HasRoute : List (Route W) → Uuid → Type 0
  HasRoute routes id = any (λ (r : Route W). r.id == id) routes ≡ true

  -- No statement fails from here on.
  abbrev pub IsCalm : RouteDb W → Type 0
  IsCalm db = (db.worker.up ≡ true) × (db.failures ≡ [])

  abbrev pub DistinctTrips : List (Trip W) → Type 0
  DistinctTrips [] = Unit
  DistinctTrips (t ∷ ts) = All (λ (u : Trip W). (t.id == u.id) ≡ false) ts × DistinctTrips ts

  -- Without failures: the trips that are still to do are different ones, and none has a route.
  abbrev pub IsOrderly : Mode → List (Trip W) → RouteDb W → Type 0
  IsOrderly Mode.lax ts db = Unit
  IsOrderly Mode.strict ts db =
      IsCalm db × All (λ t. is_linked db.route_trips t ≡ false) ts × DistinctTrips ts

  -- A statement fails now.
  abbrev pub Fails : RouteDb W → Type 0
  Fails db = (not db.worker.up || first_of db.failures) ≡ true

  module _ (fresh : ℕ → Uuid) where
    abbrev pub IsKnown : ℕ → RouteDb W → Option Uuid → Type 0
    IsKnown n db none = Unit
    IsKnown n db (some id) = IsOld fresh n id × HasRoute db.routes id

    -- `ts` are the trips still to do, `owing` is the route whose link is still to be written.
    pub record Good (mode : Mode) (ts : List (Trip W)) (owing : Option Uuid) (db : RouteDb W)
        (n : ℕ) : Type 0 where
      pub counted :
          All
            (λ (r : Route W).
              Covers mode (links_of r.id db.route_trips + owed owing r.id) r.trips_count)
            db.routes
      pub once : IsLinkedOnce db.route_trips
      pub placed : All (λ (l : RouteTrip W). HasRoute db.routes l.route_id) db.route_trips
      pub old_routes : All (λ (r : Route W). IsOld fresh n r.id) db.routes
      pub old_links : All (λ (l : RouteTrip W). IsOld fresh n l.route_id) db.route_trips
      pub orderly : IsOrderly mode ts db
      pub known : IsKnown n db owing

    IsOrderly-next :
        (mode : Mode) (ts : List (Trip W)) (db : RouteDb W)
        → IsOrderly mode ts db
        → IsOrderly mode ts (next_statement db)
    IsOrderly-next Mode.lax ts db h = tt
    IsOrderly-next Mode.strict ts db h = ((h.0.0, rw h.0.1), h.1, h.2)

    IsOrderly-tail :
        (mode : Mode) (t : Trip W) (ts : List (Trip W)) (db : RouteDb W)
        → IsOrderly mode (t ∷ ts) db
        → IsOrderly mode ts db
    IsOrderly-tail Mode.lax t ts db h = tt
    IsOrderly-tail Mode.strict t ts db h = (h.0, h.1.1, h.2.1)

    pub Good-next :
        (mode : Mode) (ts : List (Trip W)) (owing : Option Uuid) (db : RouteDb W) (n : ℕ)
        → Good mode ts owing db n
        → Good mode ts owing (next_statement db) n
    Good-next mode ts owing db n g = record {
      counted = g.counted;
      once = g.once;
      placed = g.placed;
      old_routes = g.old_routes;
      old_links = g.old_links;
      orderly = IsOrderly-next mode ts db g.orderly;
      known = g.known;
    }

    IsKnown-later :
        (n m : ℕ) (db : RouteDb W) (owing : Option Uuid)
        → n ≤ m
        → IsKnown n db owing
        → IsKnown m db owing
    IsKnown-later n m db none h k = tt
    IsKnown-later n m db (some id) h k = (IsOld-later fresh n m id h k.0, k.1)

    -- More uuids have been given.
    pub Good-later :
        (mode : Mode) (ts : List (Trip W)) (owing : Option Uuid) (db : RouteDb W) (n m : ℕ)
        → n ≤ m
        → Good mode ts owing db n
        → Good mode ts owing db m
    Good-later mode ts owing db n m h g = record {
      counted = g.counted;
      once = g.once;
      placed = g.placed;
      old_routes = All-imp _ _ db.routes (λ r. IsOld-later fresh n m r.id h) g.old_routes;
      old_links = All-imp _ _ db.route_trips (λ l. IsOld-later fresh n m l.route_id h) g.old_links;
      orderly = g.orderly;
      known = IsKnown-later n m db owing h g.known;
    }

    -- The trip is given up without a link owing.
    pub Good-tail :
        (mode : Mode) (t : Trip W) (ts : List (Trip W)) (db : RouteDb W) (n : ℕ)
        → Good mode (t ∷ ts) none db n
        → Good mode ts none db n
    Good-tail mode t ts db n g = record {
      counted = g.counted;
      once = g.once;
      placed = g.placed;
      old_routes = g.old_routes;
      old_links = g.old_links;
      orderly = IsOrderly-tail mode t ts db g.orderly;
      known = tt;
    }

    -- A link that is owing and never written is a count too many, which the lax mode bears.
    pub Good-forgive :
        (ts : List (Trip W)) (owing : Option Uuid) (db : RouteDb W) (n : ℕ)
        → Good Mode.lax ts owing db n
        → Good Mode.lax ts none db n
    Good-forgive ts owing db n g = record {
      counted = All-imp _ _ db.routes (λ r h. omega arith) g.counted;
      once = g.once;
      placed = g.placed;
      old_routes = g.old_routes;
      old_links = g.old_links;
      orderly = tt;
      known = tt;
    }

    -- A statement that fails ends the trip; in the strict mode none does.
    pub Good-Fails :
        (mode : Mode) (t : Trip W) (ts : List (Trip W)) (owing : Option Uuid) (db : RouteDb W)
        (n : ℕ)
        → Good mode (t ∷ ts) owing db n
        → Fails db
        → Good mode ts none (next_statement db) n
    Good-Fails Mode.lax t ts owing db n g fails =
        Good-tail Mode.lax t ts _ n
          (Good-next Mode.lax (t ∷ ts) none db n (Good-forgive (t ∷ ts) owing db n g))
    Good-Fails Mode.strict t ts owing db n g fails =
        let up = g.orderly.0.0 in
        let calm = g.orderly.0.1 in
        contradiction (not db.worker.up || first_of db.failures) fails (rw (up, calm))
