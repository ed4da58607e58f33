-- ===== src/Store/Effects.antt =====
-- What the statements of `ApplyBatch` leave as they were, and what they change:
-- services/tracking-worker/internal/storage/postgres/trip_repo.go.
use wrany.Prelude.{
  ◌≡◌, refl, ap, ◌∙◌, Option, List, [], ◌∷◌, Time, All, Yields, Yields-from, Yields-bind,
  Yields-map, read_or-elim,
}
use wrany.Float64.{Float64}
use wrany.Domain.Trip.{Trip, TripDetectionBatch}
use wrany.Job.Safety.{IsPresent}
use wrany.Store.Tables.{Db, upsert}
use wrany.Store.Apply.{
  insert_processed_points, insert_trips, backfill, apply_statements, same_state,
}

module _ {W : Type 0} where
  pub insert_trips-total :
      (ts : List (Option (Trip W))) (rows : List (Trip W))
      → All IsPresent ts
      → Yields (λ rows'. Unit) (insert_trips ts rows)
  unfolding insert_trips
  insert_trips-total [] rows h = tt
  insert_trips-total (t ∷ ts) rows (h, hs) =
      Yields-from (λ rows'. Unit) t _ h λ trip _. insert_trips-total ts _ hs

  -- What the tables below share with the tables that a batch was applied to.
  pub record Follows (batch : TripDetectionBatch W) (db db' : Db W) : Type 0 where
    pub up : db'.up ≡ db.up
    pub states :
        db'.trip_detection_state ≡ upsert same_state batch.new_state db.trip_detection_state
    pub processed :
        db'.processed_location_points
        ≡ insert_processed_points batch.processed_points db.processed_location_points

  pub record Untouched (db db' : Db W) : Type 0 where
    pub up : db'.up ≡ db.up
    pub states : db'.trip_detection_state ≡ db.trip_detection_state
    pub processed : db'.processed_location_points ≡ db.processed_location_points

  Untouched-refl : (db : Db W) → Untouched db db
  Untouched-refl db = record { up = refl; states = refl; processed = refl }

  Untouched-trans : (a b c : Db W) → Untouched a b → Untouched b c → Untouched a c
  Untouched-trans a b c h k = record {
    up = k.up ∙ h.up;
    states = k.states ∙ h.states;
    processed = k.processed ∙ h.processed;
  }

  backfill-Untouched :
      (batch : TripDetectionBatch W) (ts : List (Option (Trip W))) (db : Db W)
      → All IsPresent ts
      → Yields (Untouched db) (backfill batch ts db)
  unfolding backfill
  backfill-Untouched batch [] db h = Untouched-refl db
  backfill-Untouched batch (t ∷ ts) db (h, hs) = Yields-from (Untouched db) t _ h λ trip _.
      Yields-map (Untouched _) (Untouched db) _ (backfill-Untouched batch ts _ hs) λ db' k.
        Untouched-trans db _ db'
          (read_or-elim (Untouched db) _ _ _ (λ _. Untouched-refl db)
            λ since _. record { up = refl; states = refl; processed = refl })
          k

module _ {W : Type 0} ⦃f : Float64 W⦄ (now : Time) (batch : TripDetectionBatch W) where
  pub apply_statements-Follows :
      (db : Db W)
      → All IsPresent batch.new_trips
      → Yields (Follows batch db) (apply_statements now batch db)
  unfolding apply_statements
  apply_statements-Follows db set =
      Yields-bind (λ rows. Unit) (Follows batch db) _ _
        (insert_trips-total batch.new_trips db.trips set)
        λ trips _.
          Yields-bind (Untouched _) (Follows batch db) _ _
            (backfill-Untouched batch batch.new_trips _ set)
            λ filled k. record {
              up = k.up;
              states = ap (upsert same_state batch.new_state) k.states;
              processed = k.processed;
            }
