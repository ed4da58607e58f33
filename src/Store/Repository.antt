-- ===== src/Store/Repository.antt =====
-- `TripRepo` as the repository of the detection job:
-- services/tracking-worker/internal/storage/postgres/trip_repo.go, with what its statements keep.
use wrany.Prelude.{
  ◌≡◌, refl, Bool, some, List, [], ◌∷◌, Time, All, IfSome, IfSome-some, Yields, Yields-map,
  Yields-option_map, read_or-elim, if-elim,
}
use wrany.Float64.{Float64}
use wrany.Domain.Point.{NoiseConfig}
use wrany.Domain.Trip.{TripDetectionConfig}
use wrany.Detection.Soundness.{IsSound}
use wrany.Job.Publish.{Wiring}
use wrany.Job.Cycle.{TripDetectionRepository, Work, run_once}
use wrany.Job.Safety.{KeepsSound, run_once_safe}
use wrany.Store.Tables.{Db, find?, upsert}
use wrany.Store.Read.{
  load_distinct_user_device_pairs, load_state, state_of, fetch_unprocessed_points,
  fetch_processed_history,
}
use wrany.Store.Effects.{Follows, apply_statements-Follows}
use wrany.Store.Apply.{apply_batch, same_state}

-- The interface of the job, with the `now()` of the transaction.
module _ {W : Type 0} ⦃f : Float64 W⦄ where
  abbrev pub trip_repo : Time → TripDetectionRepository W (Db W)
  trip_repo now = record {
    load_pairs = load_distinct_user_device_pairs;
    load_state = load_state;
    fetch_unprocessed_points = fetch_unprocessed_points;
    fetch_processed_history = fetch_processed_history;
    apply_batch = apply_batch now;
  }

module _ {A : Type 0} (P : A → Type 0) where
  find?-All : (p : A → Bool) (xs : List A) → All P xs → IfSome P (find? p xs)
  find?-All p [] h = tt
  find?-All p (x ∷ xs) (h, hs) = if-elim (IfSome P) (p x) _ _ (λ _. h) (λ _. find?-All p xs hs)

  upsert-All :
      (same : A → A → Bool) (row : A) (xs : List A) → P row → All P xs → All P (upsert same row xs)
  unfolding upsert
  upsert-All same row [] k _ = (k, tt)
  upsert-All same row (x ∷ xs) k (h, hs) =
      if-elim (All P) (same row x) _ _ (λ _. (k, hs)) (λ _. (h, upsert-All same row xs k hs))

module _ {W : Type 0} where
  abbrev pub IsSoundDb : Db W → Type 0
  IsSoundDb db = All IsSound db.trip_detection_state

module _ {W : Type 0} ⦃f : Float64 W⦄ (now : Time) where
  trip_repo-KeepsSound : KeepsSound (trip_repo {W = W} now) IsSoundDb
  unfolding load_state apply_batch
  trip_repo-KeepsSound = record {
    loads = λ user device db s h e.
        IfSome-some IsSound _
          (if-elim (IfSome IsSound) db.up _ _
            (λ _.
              read_or-elim IsSound (state_of db user device) _ _ (λ _. refl)
                λ found e'. IfSome-some IsSound _ (find?-All IsSound _ _ h) e')
            (λ _. tt))
          e;
    applies = λ batch db h good set.
        if-elim (Yields (IfSome IsSoundDb)) db.up _ _
          (λ _. Yields-option_map (IfSome IsSoundDb) some _ (
            Yields-map (Follows batch db) IsSoundDb _ (apply_statements-Follows now batch db set)
              λ db' k. rw k.states (upsert-All IsSound same_state batch.new_state _ good h)))
          (λ _. tt);
  }

  -- A cycle over the tables of the worker never panics, whatever their rows and whether or not the
  -- database is up, if each stored detection state has the pointers set that its state reads; and
  -- that is so again after the cycle.
  pub run_once_of_trip_repo_safe :
      (w : Wiring W) (cfg : TripDetectionConfig W) (noise : NoiseConfig W) (at_time : Time)
      (work : Work (Db W))
      → IsSoundDb work.store
      → (after : Work (Db W)) × (run_once (trip_repo {W = W} now) w cfg noise at_time work
          ≡ some after)
        × IsSoundDb after.store
  run_once_of_trip_repo_safe w cfg noise at_time work h =
      run_once_safe (trip_repo {W = W} now) w cfg noise IsSoundDb trip_repo-KeepsSound at_time work
        h
