-- ===== src/Store/Read.antt =====
-- The queries of `TripRepo`: services/tracking-worker/internal/storage/postgres/trip_repo.go.
use wrany.Prelude.{
  ℕ, ◌+◌, Bool, true, not, ◌&&◌, Option, none, some, List, [], ◌∷◌, map, Time, Uuid, seconds, keep,
  take, str_lt, ltb, leb, ◌==◌, read_or, if◌then◌else◌,
}
use mathlib.Core.List.{reverse}
use wrany.Float64.{Float64}
use wrany.Domain.Point.{RawLocationPoint, ProcessedLocationPoint}
use wrany.Domain.Trip.{TripDetectionState, default_state}
use wrany.Noise.Pipeline.{sort_points}
use wrany.Store.Tables.{Db, same_key, raw_key, processed_key, any, find?}

abbrev pub same_pair : Uuid × Uuid → Uuid × Uuid → Bool
same_pair (u, d) (v, e) = u == v && d == e

unfoldable pub distinct : List (Uuid × Uuid) → List (Uuid × Uuid)
distinct [] = []
distinct (p ∷ ps) = p ∷ keep (λ q. not (same_pair p q)) (distinct ps)

module _ {W : Type 0} where
  abbrev pub is_processed : Db W → RawLocationPoint W → Bool
  is_processed db r = any (λ p. same_key (processed_key p) (raw_key r)) db.processed_location_points

  abbrev pub state_of : Db W → Uuid → Uuid → Option (TripDetectionState W)
  state_of db user device =
      find? (λ s. s.user_id == user && s.device_id == device) db.trip_detection_state

  -- `recorded_at >= COALESCE(last_processed_recorded_at - make_interval(…), '-infinity')`
  abbrev pub is_recent : Option (TripDetectionState W) → RawLocationPoint W → Bool
  is_recent none r = true
  is_recent (some s) r =
      read_or s.last_processed_at true
        λ last. leb last (r.recorded_at + seconds s.late_arrival_window_sec)

  unfoldable pub load_distinct_user_device_pairs : Time → Db W → Option (List (Uuid × Uuid))
  unfolding distinct
  load_distinct_user_device_pairs before db =
      let waits = λ (r : RawLocationPoint W).
        ltb r.recorded_at before
        && not (is_processed db r)
        && is_recent (state_of db r.user_id r.device_id) r in
      if db.up
      then some (distinct (map (λ r. (r.user_id, r.device_id)) (keep waits db.raw_location_points)))
      else none

  unfoldable pub fetch_unprocessed_points :
      Uuid → Uuid → Time → Time → Db W → Option (List (RawLocationPoint W))
  fetch_unprocessed_points user device begin end db =
      let waits = λ (r : RawLocationPoint W).
        r.user_id == user
        && r.device_id == device
        && leb begin r.recorded_at
        && ltb r.recorded_at end
        && not (is_processed db r) in
      if db.up then some (sort_points (keep waits db.raw_location_points)) else none

  -- `ORDER BY recorded_at, event_id`
  abbrev pub is_before : ProcessedLocationPoint W → ProcessedLocationPoint W → Bool
  is_before a b =
      if a.recorded_at == b.recorded_at
      then str_lt a.event_id b.event_id
      else ltb a.recorded_at b.recorded_at

  unfoldable pub insert_row :
      ProcessedLocationPoint W → List (ProcessedLocationPoint W) → List (ProcessedLocationPoint W)
  insert_row p [] = p ∷ []
  insert_row p (q ∷ qs) = if is_before p q then q ∷ insert_row p qs else p ∷ q ∷ qs

  -- Newest first.
  unfoldable pub sort_rows : List (ProcessedLocationPoint W) → List (ProcessedLocationPoint W)
  unfolding insert_row
  sort_rows [] = []
  sort_rows (p ∷ ps) = insert_row p (sort_rows ps)

  -- The JOIN takes the activity from the raw row; a row without one is left out.
  unfoldable pub with_activity :
      Db W → List (ProcessedLocationPoint W) → List (ProcessedLocationPoint W)
  with_activity db [] = []
  with_activity db (p ∷ ps) =
      let rest = with_activity db ps in
      read_or (find? (λ r. same_key (raw_key r) (processed_key p)) db.raw_location_points) rest λ r.
        record p {
          activity_type = r.activity_type;
          activity_confidence = r.activity_confidence;
          algorithm_version = 0;
        }
        ∷ rest

  -- The newest `limit` accepted rows, in the order of time.
  unfoldable pub fetch_processed_history :
      Uuid → Uuid → Time → ℕ → Db W → Option (List (ProcessedLocationPoint W))
  unfolding sort_rows with_activity
  fetch_processed_history user device before limit db =
      let fits = λ (p : ProcessedLocationPoint W).
        p.user_id == user && p.device_id == device && ltb p.recorded_at before && p.is_accepted in
      if db.up
      then some (
          reverse
            (take limit (sort_rows (with_activity db (keep fits db.processed_location_points)))))
      else none

module _ {W : Type 0} ⦃f : Float64 W⦄ where
  unfoldable pub load_state : Uuid → Uuid → Db W → Option (TripDetectionState W)
  load_state user device db =
      if db.up
      then some (read_or (state_of db user device) (default_state user device) λ s. s)
      else none
