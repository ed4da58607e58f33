-- ===== src/Route/Links/Fetched.antt =====
-- The trips that `FindUnmatchedTrips` answers are different ones, and none has a route:
-- services/tracking-worker/internal/storage/postgres/route_repo.go.
use wrany.Prelude.{
  ℕ, zero, suc, ◌≡◌, Bool, true, false, List, [], ◌∷◌, All, All-keep, All-take, keep, take,
  insert_by, sort_by, ◌==◌, if-elim, arith,
}
use wrany.Domain.Trip.{Trip}
use wrany.Route.Repository.{RouteDb, is_linked, unmatched}
use wrany.Route.Links.Rows.{same_sym, All-imp}
use wrany.Route.Links.Good.{DistinctTrips}

module _ {A : Type 0} where
  insert_by-All :
      (P : A → Type 0) (before : A → A → Bool) (x : A) (xs : List A)
      → P x
      → All P xs
      → All P (insert_by before x xs)
  unfolding insert_by
  insert_by-All P before x [] h _ = (h, tt)
  insert_by-All P before x (y ∷ ys) h (k, ks) =
      if-elim (All P) (before y x) _ _ (λ _. (k, insert_by-All P before x ys h ks))
        (λ _. (h, (k, ks)))

  pub sort_by-All :
      (P : A → Type 0) (before : A → A → Bool) (xs : List A) → All P xs → All P (sort_by before xs)
  unfolding sort_by
  sort_by-All P before [] h = tt
  sort_by-All P before (x ∷ xs) (h, hs) =
      insert_by-All P before x (sort_by before xs) h (sort_by-All P before xs hs)

  keep-passes : (p : A → Bool) (xs : List A) → All (λ x. p x ≡ true) (keep p xs)
  keep-passes p [] = tt
  keep-passes p (x ∷ xs) =
      if-elim (All (λ y. p y ≡ true)) (p x) _ _ (λ e. (e, keep-passes p xs)) (λ _. keep-passes p xs)

module _ {W : Type 0} where
  keep-Distinct :
      (p : Trip W → Bool) (ts : List (Trip W)) → DistinctTrips ts → DistinctTrips (keep p ts)
  keep-Distinct p [] h = tt
  keep-Distinct p (t ∷ ts) (h, hs) =
      if-elim DistinctTrips (p t) _ _ (λ _. (All-keep _ p ts h, keep-Distinct p ts hs))
        (λ _. keep-Distinct p ts hs)

  take-Distinct : (n : ℕ) (ts : List (Trip W)) → DistinctTrips ts → DistinctTrips (take n ts)
  take-Distinct zero ts h = tt
  take-Distinct (suc n) [] h = tt
  take-Distinct (suc n) (t ∷ ts) (h, hs) = (All-take _ n ts h, take-Distinct n ts hs)

  insert_by-Distinct :
      (before : Trip W → Trip W → Bool) (t : Trip W) (ts : List (Trip W))
      → All (λ (u : Trip W). (t.id == u.id) ≡ false) ts
      → DistinctTrips ts
      → DistinctTrips (insert_by before t ts)
  unfolding insert_by
  insert_by-Distinct before t [] h k = (tt, tt)
  insert_by-Distinct before t (u ∷ us) (h, hs) (k, ks) =
      if-elim DistinctTrips (before u t) _ _
        (λ _. (
          insert_by-All _ before t us (same_sym t.id u.id h) k,
          insert_by-Distinct before t us hs ks,
        ))
        (λ _. ((h, hs), (k, ks)))

  sort_by-Distinct :
      (before : Trip W → Trip W → Bool) (ts : List (Trip W))
      → DistinctTrips ts
      → DistinctTrips (sort_by before ts)
  unfolding sort_by
  sort_by-Distinct before [] h = tt
  sort_by-Distinct before (t ∷ ts) (h, hs) =
      insert_by-Distinct before t (sort_by before ts) (sort_by-All _ before ts h)
        (sort_by-Distinct before ts hs)

  -- Whatever the order and the limit.
  pub fetched :
      (before : Trip W → Trip W → Bool) (min_points limit : ℕ) (db : RouteDb W)
      → DistinctTrips db.worker.trips
      → All
          (λ t. is_linked db.route_trips t ≡ false)
          (take limit (sort_by before (unmatched min_points db)))
        × DistinctTrips (take limit (sort_by before (unmatched min_points db)))
  fetched before min_points limit db h = (
    All-take _ limit _ (
        sort_by-All _ before _ (
          All-imp _ _ (unmatched min_points db) (λ t e. ground arith)
            (keep-passes _ db.worker.trips))),
    take-Distinct limit _ (sort_by-Distinct before _ (keep-Distinct _ db.worker.trips h)),
  )
