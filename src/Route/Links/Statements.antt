-- ===== src/Route/Links/Statements.antt =====
-- What a statement of services/tracking-worker/internal/storage/postgres/route_repo.go ensures, if it
-- fails and if it does not.
use wrany.Prelude.{Result, ok, err, ℕ, not, ◌||◌, Option, none, some, IfSome, if-elim}
use wrany.Action.{first_of, Failure, or_failure, Outcome, Ensures}
use wrany.Route.Job.{Work, on_store}
use wrany.Route.Repository.{RouteDb, next_statement, statement, query, change}
use wrany.Route.Links.Good.{Fails}

module _ {W : Type 0} where
  -- A condition on the tables and on the number of uuids given, as one on the work.
  abbrev pub Holds : (RouteDb W → ℕ → Type 0) → Work (RouteDb W) → Type 0
  Holds P work = P work.store work.issued

  lift-Outcome :
      {A : Type 0} (E : RouteDb W → ℕ → Type 0) (Q : A → RouteDb W → ℕ → Type 0)
      (work : Work (RouteDb W)) (r : Result Failure A × RouteDb W)
      → Outcome (λ db. E db work.issued) (λ a db. Q a db work.issued) r
      → Outcome (Holds E) (λ a. Holds (Q a)) (r.0, record work { store = r.1 })
  lift-Outcome E Q work (err e, db) h = h
  lift-Outcome E Q work (ok a, db) h = h

  pub statement-Ensures :
      {A : Type 0} (P E : RouteDb W → ℕ → Type 0) (Q : A → RouteDb W → ℕ → Type 0)
      (run : RouteDb W → Result Failure A × RouteDb W)
      → ((db : RouteDb W) (n : ℕ) → P db n → Fails db → E (next_statement db) n)
      → ((db : RouteDb W) (n : ℕ)
          → P db n
          → Outcome (λ d. E d n) (λ a d. Q a d n) (run (next_statement db)))
      → Ensures (Holds P) (Holds E) (λ a. Holds (Q a)) (on_store (statement run))
  unfolding statement
  statement-Ensures P E Q run fails runs work h = lift-Outcome E Q work (statement run work.store) (
      if-elim (Outcome (λ d. E d work.issued) (λ a d. Q a d work.issued))
        (not work.store.worker.up || first_of work.store.failures)
        (err tt, next_statement work.store) (run (next_statement work.store))
        (λ e. fails work.store work.issued h e) (λ _. runs work.store work.issued h))

  answered :
      {A : Type 0} (db : RouteDb W) (E : RouteDb W → Type 0) (Q : A → RouteDb W → Type 0)
      (o : Option A)
      → E db
      → IfSome (λ a. Q a db) o
      → Outcome E Q (or_failure o, db)
  answered db E Q none e k = e
  answered db E Q (some a) e k = k

  -- A query leaves the tables as they are.
  pub query-Ensures :
      {A : Type 0} (P E : RouteDb W → ℕ → Type 0) (Q : A → RouteDb W → ℕ → Type 0)
      (answer : RouteDb W → Option A)
      → ((db : RouteDb W) (n : ℕ) → P db n → E (next_statement db) n)
      → ((db : RouteDb W) (n : ℕ)
          → P db n
          → IfSome (λ a. Q a (next_statement db) n) (answer (next_statement db)))
      → Ensures (Holds P) (Holds E) (λ a. Holds (Q a)) (on_store (query answer))
  unfolding query
  query-Ensures P E Q answer fails answers =
      statement-Ensures P E Q (λ db. (or_failure (answer db), db)) (λ db n h _. fails db n h)
        λ db n h.
          answered (next_statement db) (λ d. E d n) (λ a d. Q a d n) (answer (next_statement db))
            (fails db n h) (answers db n h)

  pub change-Ensures :
      (P E R : RouteDb W → ℕ → Type 0) (run : RouteDb W → RouteDb W)
      → ((db : RouteDb W) (n : ℕ) → P db n → Fails db → E (next_statement db) n)
      → ((db : RouteDb W) (n : ℕ) → P db n → R (run (next_statement db)) n)
      → Ensures (Holds P) (Holds E) (λ (_ : Unit {0}). Holds R) (on_store (change run))
  unfolding change
  change-Ensures P E R run fails runs =
      statement-Ensures P E (λ _. R) (λ db. (ok tt, run db)) fails runs
