-- ===== src/Job/Batch.antt =====
-- `buildBatch`: services/tracking-worker/internal/usecase/trip_detection_job.go. A nil field
-- of a completion is the panic `none`.
use wrany.Prelude.{Option, none, some, ◌>>=◌, List, [], ◌∷◌, ◌++◌, Time, Uuid}
use wrany.Domain.Trip.{TripStatsDelta, TripCompletion, TripDetectionBatch}
use wrany.Detection.Command.{CommandKind, TripCommand, ProcessBatchResult}

-- `batch.BackfillSince[cmd.TripID] = *cmd.BackfillSince`, if it is not nil.
abbrev pub note_backfill : Option Time → Uuid → List (Uuid × Time) → List (Uuid × Time)
note_backfill none id m = m
note_backfill (some since) id m = m ++ (id, since) ∷ []

module _ {W : Type 0} where
  abbrev pub delta_of : TripCommand W → TripStatsDelta W
  delta_of c = record {
    trip_id = c.trip_id;
    delta_dist_m = c.delta_distance_m;
    delta_pts = c.delta_points_count;
    last_pt_at = c.last_point_at;
    last_lat = c.last_point_lat;
    last_lon = c.last_point_lon;
  }

  unfoldable pub add_kind :
      CommandKind → TripCommand W → TripDetectionBatch W → Option (TripDetectionBatch W)
  add_kind CommandKind.create_trip c b = some (record b {
    new_trips = b.new_trips ++ c.trip ∷ [];
    backfill_since = note_backfill c.backfill_since c.trip_id b.backfill_since;
    new_points = b.new_points ++ c.points;
  })
  add_kind CommandKind.update_trip c b = some (record b {
    updated_trips = b.updated_trips ++ delta_of c ∷ [];
    new_points = b.new_points ++ c.points;
  })
  add_kind CommandKind.complete_trip c b = do
    ended_at ← c.ended_at
    lat ← c.end_lat
    lon ← c.end_lon
    let done : TripCompletion W = record {
      trip_id = c.trip_id;
      ended_at = ended_at;
      end_lat = lat;
      end_lon = lon;
    }
    some (record b { completed_trips = b.completed_trips ++ done ∷ [] })

  unfoldable pub add_commands :
      List (TripCommand W) → TripDetectionBatch W → Option (TripDetectionBatch W)
  add_commands [] b = some b
  add_commands (c ∷ cs) b = do next ← add_kind c.kind c b; add_commands cs next

  unfoldable pub build_batch : ProcessBatchResult W → Option (TripDetectionBatch W)
  build_batch result = add_commands result.commands (record {
    new_state = result.new_state;
    processed_points = [];
    new_trips = [];
    backfill_since = [];
    updated_trips = [];
    completed_trips = [];
    new_points = [];
  })
