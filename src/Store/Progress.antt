-- ===== src/Store/Progress.antt =====
-- What a written batch means for the next cycle: `ApplyBatch` against `LoadState` and
-- `FetchUnprocessedPoints`, services/tracking-worker/internal/storage/postgres/trip_repo.go.
use wrany.Prelude.{
  ◌≡◌, ◌∙◌, Bool, true, false, not, ◌&&◌, some, List, [], ◌∷◌, Time, Uuid, All, Yields,
  Yields-exists, Bool-cases, inl, inr, keep, if-elim, ◌==◌, arith,
}
use wrany.Float64.{Float64}
use wrany.Domain.Point.{RawLocationPoint, ProcessedLocationPoint}
use wrany.Domain.Trip.{TripDetectionState, TripDetectionBatch}
use wrany.Job.Safety.{IsPresent}
use wrany.Noise.Pipeline.{is_earlier, insert_point, sort_points}
use wrany.Store.Tables.{
  Db, EventKey, same_key, raw_key, processed_key, any, find?, insert_new, upsert,
}
use wrany.Store.Read.{load_state, state_of, fetch_unprocessed_points, is_processed}
use wrany.Store.Apply.{
  store_activity, insert_processed_points, apply_statements, apply_batch, same_state,
}
use wrany.Store.Keys.{same_key_trans, same_key_comm, any-append-right, any-append-left, any-implies}
use wrany.Store.Effects.{Follows, apply_statements-Follows}

module _ {A : Type 0} where
  keep-All : (p : A → Bool) (xs : List A) → All (λ x. p x ≡ true) (keep p xs)
  keep-All p [] = tt
  keep-All p (x ∷ xs) =
      if-elim (All (λ y. p y ≡ true)) (p x) _ _ (λ e. (e, keep-All p xs)) (λ _. keep-All p xs)

  All-weaken : (P Q : A → Type 0) → ((x : A) → P x → Q x) → (xs : List A) → All P xs → All Q xs
  All-weaken P Q f [] h = tt
  All-weaken P Q f (x ∷ xs) (h, hs) = (f x h, All-weaken P Q f xs hs)

module _ {W : Type 0} where
  insert_point-All :
      (P : RawLocationPoint W → Type 0) (p : RawLocationPoint W) (ps : List (RawLocationPoint W))
      → P p
      → All P ps
      → All P (insert_point p ps)
  unfolding insert_point
  insert_point-All P p [] h _ = (h, tt)
  insert_point-All P p (q ∷ qs) h (k, ks) =
      if-elim (All P) (is_earlier q p) (q ∷ insert_point p qs) (p ∷ q ∷ qs)
        (λ _. (k, insert_point-All P p qs h ks)) (λ _. (h, (k, ks)))

  sort_points-All :
      (P : RawLocationPoint W → Type 0) (ps : List (RawLocationPoint W))
      → All P ps
      → All P (sort_points ps)
  unfolding sort_points
  sort_points-All P [] h = tt
  sort_points-All P (p ∷ ps) (h, hs) = insert_point-All P p _ h (sort_points-All P ps hs)

  abbrev has_key : EventKey → ProcessedLocationPoint W → Bool
  has_key key p = same_key (processed_key p) key

  insert_new-keeps :
      (key : EventKey) (p : ProcessedLocationPoint W) (rows : List (ProcessedLocationPoint W))
      → any (has_key key) rows ≡ true
      → any (has_key key) (insert_new (λ a b. same_key (processed_key a) (processed_key b)) p rows)
        ≡ true
  unfolding insert_new
  insert_new-keeps key p rows h =
      if-elim (λ r. any (has_key key) r ≡ true) _ _ _ (λ _. h)
        (λ _. any-append-left (has_key key) rows (p ∷ []) h)

  insert_new-has :
      (key : EventKey) (p : ProcessedLocationPoint W) (rows : List (ProcessedLocationPoint W))
      → has_key key p ≡ true
      → any (has_key key) (insert_new (λ a b. same_key (processed_key a) (processed_key b)) p rows)
        ≡ true
  unfolding insert_new
  insert_new-has key p rows h =
      if-elim (λ r. any (has_key key) r ≡ true) _ _ _
        (any-implies _ (has_key key) rows λ q e.
          same_key_trans (processed_key q) (processed_key p) key
            (same_key_comm (processed_key p) (processed_key q) e) h)
        (λ _. any-append-right (has_key key) rows p h)

  insert_processed_points-keeps :
      (key : EventKey) (ps rows : List (ProcessedLocationPoint W))
      → any (has_key key) rows ≡ true
      → any (has_key key) (insert_processed_points ps rows) ≡ true
  unfolding insert_processed_points
  insert_processed_points-keeps key [] rows h = h
  insert_processed_points-keeps key (p ∷ ps) rows h =
      insert_processed_points-keeps key ps _ (insert_new-keeps key (store_activity p) rows h)

  insert_processed_points-has :
      (key : EventKey) (ps rows : List (ProcessedLocationPoint W))
      → any (has_key key) ps ≡ true
      → any (has_key key) (insert_processed_points ps rows) ≡ true
  unfolding insert_processed_points
  insert_processed_points-has key [] rows h = ground arith
  insert_processed_points-has key (p ∷ ps) rows h = elim (Bool-cases (has_key key p)) [
    | inl e ↦ insert_processed_points-keeps key ps _ (insert_new-has key (store_activity p) rows e)
    | inr e ↦ insert_processed_points-has key ps _ (ground arith)
  ]

module _ {W : Type 0} ⦃f : Float64 W⦄ (now : Time) (batch : TripDetectionBatch W) where
  find?-upsert :
      (rows : List (TripDetectionState W))
      → find?
          (λ s. s.user_id == batch.new_state.user_id && s.device_id == batch.new_state.device_id)
          (upsert same_state batch.new_state rows)
        ≡ some batch.new_state
  unfolding upsert
  find?-upsert [] = ground arith
  find?-upsert (s ∷ rows) = ground (arith, find?-upsert rows)

  no_unprocessed_left :
      (db db' : Db W)
      → Follows batch db db'
      → (r : RawLocationPoint W) → not (is_processed db' r) ≡ true
      → any (has_key (raw_key r)) batch.processed_points ≡ false
  no_unprocessed_left db db' k r h =
      elim (Bool-cases (any (has_key (raw_key r)) batch.processed_points)) [
        | inr e ↦ e
        | inl e ↦
            let gone : is_processed db' r ≡ true = rw k.processed (
              insert_processed_points-has (raw_key r) batch.processed_points
                db.processed_location_points e) in
            ground arith
      ]

  fetch-leaves_out :
      (db db' : Db W) (user device : Uuid) (begin end : Time)
      → db'.up ≡ true
      → Follows batch db db'
      → Yields
          (All (λ r. any (has_key (raw_key r)) batch.processed_points ≡ false))
          (fetch_unprocessed_points user device begin end db')
  unfolding fetch_unprocessed_points
  fetch-leaves_out db db' user device begin end up k =
      let Left =
        λ (r : RawLocationPoint W). any (has_key (raw_key r)) batch.processed_points ≡ false in
      if-elim (Yields (All Left)) db'.up _ _
        (λ _. sort_points-All Left _ (
          All-weaken _ Left (λ r h. no_unprocessed_left db db' k r (ground arith)) _
            (keep-All _ db'.raw_location_points)))
        (λ e. ground arith)

  apply_batch-up :
      (db db' : Db W)
      → db.up ≡ true
      → apply_statements now batch db ≡ some db'
      → apply_batch now batch db ≡ some (some db')
  unfolding apply_batch
  apply_batch-up db db' up e = ground arith

  load_state-found :
      (db' : Db W) (rows : List (TripDetectionState W))
      → db'.up ≡ true
      → db'.trip_detection_state ≡ upsert same_state batch.new_state rows
      → load_state batch.new_state.user_id batch.new_state.device_id db' ≡ some batch.new_state
  unfolding load_state
  load_state-found db' rows up e =
      let found : state_of db' batch.new_state.user_id batch.new_state.device_id
          ≡ some batch.new_state =
        rw e (find?-upsert rows) in
      ground arith

  -- On a database that is up, a batch without a nil trip is applied; then the pair's state is loaded
  -- as the batch's new state, and no query for unprocessed points, of any pair and window, answers a
  -- point that the batch holds as processed. So each point is processed once.
  pub apply_batch_advances :
      (db : Db W)
      → db.up ≡ true
      → All IsPresent batch.new_trips
      → (db' : Db W) × (apply_batch now batch db ≡ some (some db'))
        × (load_state batch.new_state.user_id batch.new_state.device_id db' ≡ some batch.new_state)
        × ((user device : Uuid) (begin end : Time)
            → Yields
                (All λ r.
                  any (λ p. same_key (processed_key p) (raw_key r)) batch.processed_points ≡ false)
                (fetch_unprocessed_points user device begin end db'))
  apply_batch_advances db up set =
      let (db', e, k) =
        Yields-exists (Follows batch db) _ (apply_statements-Follows now batch db set) in
      (
        db',
        apply_batch-up db db' up e,
        load_state-found db' db.trip_detection_state (k.up ∙ up) k.states,
        λ user device begin end. fetch-leaves_out db db' user device begin end (k.up ∙ up) k,
      )
