-- ===== src/Store/Apply.antt =====
-- `ApplyBatch` and the statements of its transaction:
-- services/tracking-worker/internal/storage/postgres/trip_repo.go. A nil trip is the panic, the outer
-- `none`; a database that is down fails the transaction, which changes nothing.
use wrany.Prelude.{
  ℕ, ◌+◌, ◌-◌, ◌/◌, Bool, true, ◌&&◌, Option, none, some, ◌>>=◌, String, List, [], ◌∷◌, Time, Uuid,
  str_eq, ltb, leb, ◌==◌, option_map, read_or, if◌then◌else◌,
}
use wrany.Float64.{Float64}
use wrany.Domain.Point.{ProcessedLocationPoint}
use wrany.Domain.Trip.{
  TripStatus, Trip, TripPoint, TripDetectionState, TripStatsDelta, TripCompletion,
  TripDetectionBatch,
}
use wrany.Store.Tables.{
  Db, same_key, processed_key, trip_point_key, insert_new, update_where, upsert,
}

abbrev pub activity_type_or_unknown : String → String
activity_type_or_unknown at = if str_eq at "" then "unknown" else at

-- A trip has a point once, and a point belongs to one trip.
abbrev pub clashes : TripPoint → TripPoint → Bool
clashes a b =
    if same_key (trip_point_key a) (trip_point_key b)
    then true
    else a.trip_id == b.trip_id && str_eq a.event_id b.event_id

unfoldable pub insert_trip_points : List TripPoint → List TripPoint → List TripPoint
unfolding insert_new
insert_trip_points [] rows = rows
insert_trip_points (tp ∷ tps) rows = insert_trip_points tps (insert_new clashes tp rows)

-- `firstBatchPt`: the earliest time among the trip's points of the batch, or the zero time.
unfoldable pub first_batch_point : Uuid → Time → List TripPoint → Time
first_batch_point id first [] = first
first_batch_point id first (tp ∷ tps) =
    first_batch_point id
      (if tp.trip_id == id && (if first == 0 then true else ltb tp.recorded_at first)
        then tp.recorded_at
        else first)
      tps

-- `batch.BackfillSince[id]`: the last write to the map holds.
abbrev pub lookup_since : Uuid → List (Uuid × Time) → Option Time
lookup_since id [] = none
lookup_since id ((key, since) ∷ m) =
    read_or (lookup_since id m) (if key == id then some since else none) λ later. some later

-- `EXTRACT(EPOCH FROM at - started_at)::bigint` of a time not before the start, to the nearest
-- second.
abbrev pub elapsed_sec : Time → Time → ℕ
elapsed_sec at_time started_at = (at_time - started_at + 500_000_000) / 1_000_000_000

module _ {W : Type 0} where
  abbrev pub store_activity : ProcessedLocationPoint W → ProcessedLocationPoint W
  store_activity p = record p { activity_type = activity_type_or_unknown p.activity_type }

  unfoldable pub insert_processed_points :
      List (ProcessedLocationPoint W)
      → List (ProcessedLocationPoint W)
      → List (ProcessedLocationPoint W)
  unfolding insert_new
  insert_processed_points [] rows = rows
  insert_processed_points (p ∷ ps) rows =
      insert_processed_points ps
        (insert_new (λ a b. same_key (processed_key a) (processed_key b)) (store_activity p) rows)

  unfoldable pub insert_trips : List (Option (Trip W)) → List (Trip W) → Option (List (Trip W))
  unfolding insert_new
  insert_trips [] rows = some rows
  insert_trips (t ∷ ts) rows = do
    trip ← t
    insert_trips ts (insert_new (λ a b. a.id == b.id) trip rows)

  -- The accepted points of the trip's pair from `since` up to `before`, as points of the trip.
  unfoldable pub backfilled :
      Trip W → Time → Time → List (ProcessedLocationPoint W) → List TripPoint
  backfilled trip since before [] = []
  backfilled trip since before (p ∷ ps) =
      let rest = backfilled trip since before ps in
      let tp : TripPoint = record {
        trip_id = trip.id;
        user_id = p.user_id;
        device_id = p.device_id;
        event_id = p.event_id;
        recorded_at = p.recorded_at;
      } in
      if p.user_id == trip.user_id
        && p.device_id == trip.device_id
        && leb since p.recorded_at
        && ltb p.recorded_at before
        && p.is_accepted
      then tp ∷ rest
      else rest

  unfoldable pub backfill : TripDetectionBatch W → List (Option (Trip W)) → Db W → Option (Db W)
  unfolding backfilled first_batch_point
  backfill batch [] db = some db
  backfill batch (t ∷ ts) db = do
    trip ← t
    backfill batch ts (
        read_or (lookup_since trip.id batch.backfill_since) db λ since.
          let first = first_batch_point trip.id 0 batch.new_points in
          let found = backfilled trip since first db.processed_location_points in
          record db { trip_points = insert_trip_points found db.trip_points })

  abbrev pub coalesce : Option W → Option W → Option W
  coalesce none old = old
  coalesce (some v) old = some v

  unfoldable pub complete_row : Time → TripCompletion W → Trip W → Trip W
  complete_row now c t = record t {
    status = TripStatus.completed;
    ended_at = some c.ended_at;
    end_lat = some c.end_lat;
    end_lon = some c.end_lon;
    duration_sec = elapsed_sec c.ended_at t.started_at;
    updated_at = now;
  }

  unfoldable pub complete_trips : Time → List (TripCompletion W) → List (Trip W) → List (Trip W)
  unfolding update_where complete_row
  complete_trips now [] rows = rows
  complete_trips now (c ∷ cs) rows =
      complete_trips now cs (update_where (λ t. t.id == c.trip_id) (complete_row now c) rows)

  abbrev pub same_state : TripDetectionState W → TripDetectionState W → Bool
  same_state a b = a.user_id == b.user_id && a.device_id == b.device_id

module _ {W : Type 0} ⦃f : Float64 W⦄ where
  open f use {add}

  unfoldable pub update_row : Time → TripStatsDelta W → Trip W → Trip W
  update_row now u t = record t {
    distance_m = add t.distance_m u.delta_dist_m;
    points_count = t.points_count + u.delta_pts;
    duration_sec = read_or u.last_pt_at t.duration_sec λ last. elapsed_sec last t.started_at;
    end_lat = coalesce u.last_lat t.end_lat;
    end_lon = coalesce u.last_lon t.end_lon;
    updated_at = now;
  }

  unfoldable pub update_trips : Time → List (TripStatsDelta W) → List (Trip W) → List (Trip W)
  unfolding update_where update_row
  update_trips now [] rows = rows
  update_trips now (u ∷ us) rows =
      update_trips now us (update_where (λ t. t.id == u.trip_id) (update_row now u) rows)

  -- The statements in order; `now` is the `now()` of the transaction.
  unfoldable pub apply_statements : Time → TripDetectionBatch W → Db W → Option (Db W)
  apply_statements now batch db = do
    let processed = insert_processed_points batch.processed_points db.processed_location_points
    trips ← insert_trips batch.new_trips db.trips
    filled ←
        backfill batch batch.new_trips
          (record db { processed_location_points = processed; trips = trips })
    some (record filled {
      trip_points = insert_trip_points batch.new_points filled.trip_points;
      trips =
          complete_trips now batch.completed_trips
            (update_trips now batch.updated_trips filled.trips);
      trip_detection_state = upsert same_state batch.new_state filled.trip_detection_state;
    })

  unfoldable pub apply_batch : Time → TripDetectionBatch W → Db W → Option (Option (Db W))
  apply_batch now batch db =
      if db.up then option_map some (apply_statements now batch db) else some none
