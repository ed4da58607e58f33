-- ===== src/Job/Sorting.antt =====
-- What `buildBatch` makes of the commands:
-- services/tracking-worker/internal/usecase/trip_detection_job.go.
use wrany.Prelude.{
  ◌≡◌, refl, sym, ap, ◌∙◌, Option, none, some, List, [], ◌∷◌, ◌++◌, Uuid, All, Yields, Yields-from,
  Yields-bind, Yields-map, Yields-exists, append_assoc, append_nil, map, Time,
}
use wrany.Domain.Trip.{Trip, TripPoint, TripStatsDelta, TripCompletion, TripDetectionBatch}
use wrany.Detection.Command.{CommandKind, TripCommand, ProcessBatchResult}
use wrany.Detection.Protocol.{Carries, IsComplete}
use wrany.Job.Batch.{add_kind, add_commands, build_batch, note_backfill}

joined : {A : Type 0} (l m n xs ys : List A) → m ≡ l ++ xs → n ≡ m ++ ys → n ≡ l ++ (xs ++ ys)
joined l m n xs ys h k = k ∙ ap (λ r. r ++ ys) h ∙ append_assoc l xs ys

append-map_one :
    {A B : Type 0} (g : A → B) (ds : List A) (d : A) → map g (ds ++ d ∷ []) ≡ map g ds ++ g d ∷ []
append-map_one g [] d = refl
append-map_one g (e ∷ ds) d = ap (λ r. g e ∷ r) (append-map_one g ds d)

note_backfill-since :
    (since : Option Time) (id : Uuid) (m : List (Uuid × Time))
    → note_backfill since id m ≡ m ++ elim since [ none ↦ [] | some since ↦ (id, since) ∷ [] ]
note_backfill-since none id m = sym (append_nil m)
note_backfill-since (some since) id m = refl

-- The id of a completed trip, and the time and place of its end.
abbrev pub TripEnd : Type 0 → Type 0
TripEnd W = Uuid × Option Time × Option W × Option W

module _ {W : Type 0} where
  -- What a command of the kind gives to each list of the batch.
  abbrev pub trips_of : CommandKind → TripCommand W → List (Option (Trip W))
  trips_of CommandKind.create_trip c = c.trip ∷ []
  trips_of _ c = []

  abbrev pub updates_of : CommandKind → TripCommand W → List (TripStatsDelta W)
  updates_of CommandKind.update_trip c =
      record {
        trip_id = c.trip_id;
        delta_dist_m = c.delta_distance_m;
        delta_pts = c.delta_points_count;
        last_pt_at = c.last_point_at;
        last_lat = c.last_point_lat;
        last_lon = c.last_point_lon;
      }
      ∷ []
  updates_of _ c = []

  abbrev pub trip_ends_of : CommandKind → TripCommand W → List (TripEnd W)
  trip_ends_of CommandKind.complete_trip c = (c.trip_id, c.ended_at, c.end_lat, c.end_lon) ∷ []
  trip_ends_of _ c = []

  abbrev pub backfill_of : CommandKind → TripCommand W → List (Uuid × Time)
  backfill_of CommandKind.create_trip c = elim (c.backfill_since) [
    | none ↦ []
    | some since ↦ (c.trip_id, since) ∷ []
  ]
  backfill_of _ c = []

  abbrev pub points_of : CommandKind → TripCommand W → List TripPoint
  points_of CommandKind.complete_trip c = []
  points_of _ c = c.points

  abbrev pub gather :
      {A : Type 0} → (CommandKind → TripCommand W → List A) → List (TripCommand W) → List A
  gather of [] = []
  gather of (c ∷ cs) = of c.kind c ++ gather of cs

  abbrev pub trip_ends : TripDetectionBatch W → List (TripEnd W)
  trip_ends b =
      map (λ (d : TripCompletion W). (d.trip_id, some d.ended_at, some d.end_lat, some d.end_lon))
        b.completed_trips

  -- The lists of the batch are longer by what `cs` gives to each.
  record Adds (cs : List (TripCommand W)) (b next : TripDetectionBatch W) : Type 0 where
    state : next.new_state ≡ b.new_state
    processed : next.processed_points ≡ b.processed_points
    new_trips : next.new_trips ≡ b.new_trips ++ gather trips_of cs
    backfill : next.backfill_since ≡ b.backfill_since ++ gather backfill_of cs
    updated : next.updated_trips ≡ b.updated_trips ++ gather updates_of cs
    done : trip_ends next ≡ trip_ends b ++ gather trip_ends_of cs
    new_points : next.new_points ≡ b.new_points ++ gather points_of cs

  -- The same for one command of the kind.
  record AddsKind (k : CommandKind) (c : TripCommand W) (b next : TripDetectionBatch W)
      : Type 0 where
    state : next.new_state ≡ b.new_state
    processed : next.processed_points ≡ b.processed_points
    new_trips : next.new_trips ≡ b.new_trips ++ trips_of k c
    backfill : next.backfill_since ≡ b.backfill_since ++ backfill_of k c
    updated : next.updated_trips ≡ b.updated_trips ++ updates_of k c
    done : trip_ends next ≡ trip_ends b ++ trip_ends_of k c
    new_points : next.new_points ≡ b.new_points ++ points_of k c

  add_kind-AddsKind :
      (k : CommandKind) (c : TripCommand W) (b : TripDetectionBatch W)
      → Carries k c
      → Yields (AddsKind k c b) (add_kind k c b)
  unfolding add_kind
  add_kind-AddsKind CommandKind.create_trip c b h = record {
    state = refl;
    processed = refl;
    new_trips = refl;
    backfill = note_backfill-since c.backfill_since c.trip_id b.backfill_since;
    updated = sym (append_nil b.updated_trips);
    done = sym (append_nil (trip_ends b));
    new_points = refl;
  }
  add_kind-AddsKind CommandKind.update_trip c b h = record {
    state = refl;
    processed = refl;
    new_trips = sym (append_nil b.new_trips);
    backfill = sym (append_nil b.backfill_since);
    updated = refl;
    done = sym (append_nil (trip_ends b));
    new_points = refl;
  }
  add_kind-AddsKind CommandKind.complete_trip c b h =
      let P = AddsKind CommandKind.complete_trip c b in
      Yields-from P c.ended_at _ h.0 λ t et. Yields-from P c.end_lat _ h.1 λ lat elat.
        Yields-from P c.end_lon _ h.2 λ lon elon. record {
          state = refl;
          processed = refl;
          new_trips = sym (append_nil b.new_trips);
          backfill = sym (append_nil b.backfill_since);
          updated = sym (append_nil b.updated_trips);
          done = rw (et, elat, elon) (append-map_one _ b.completed_trips _);
          new_points = sym (append_nil b.new_points);
        }

  add_commands-Adds :
      (cs : List (TripCommand W)) (b : TripDetectionBatch W)
      → All IsComplete cs
      → Yields (Adds cs b) (add_commands cs b)
  unfolding add_commands
  add_commands-Adds [] b h = record {
    state = refl;
    processed = refl;
    new_trips = sym (append_nil b.new_trips);
    backfill = sym (append_nil b.backfill_since);
    updated = sym (append_nil b.updated_trips);
    done = sym (append_nil (trip_ends b));
    new_points = sym (append_nil b.new_points);
  }
  add_commands-Adds (c ∷ cs) b (h, hs) =
      Yields-bind (AddsKind c.kind c b) (Adds (c ∷ cs) b) _ _ (add_kind-AddsKind c.kind c b h.0)
        λ next a.
          Yields-map (Adds cs next) (Adds (c ∷ cs) b) _ (add_commands-Adds cs next hs) λ end k.
            record {
              state = k.state ∙ a.state;
              processed = k.processed ∙ a.processed;
              new_trips = joined _ _ _ (trips_of c.kind c) _ a.new_trips k.new_trips;
              backfill = joined _ _ _ (backfill_of c.kind c) _ a.backfill k.backfill;
              updated = joined _ _ _ (updates_of c.kind c) _ a.updated k.updated;
              done = joined _ _ _ (trip_ends_of c.kind c) _ a.done k.done;
              new_points = joined _ _ _ (points_of c.kind c) _ a.new_points k.new_points;
            }

  -- From complete commands `buildBatch` does not panic. The batch has the new state, no processed
  -- points yet, the trips that are created, the times from which trips are backfilled, the deltas of
  -- the updates with their trip, distance, count and last point, the completions with their trip,
  -- time and place, and the points of the new trips and of the updates, each in the order of the
  -- commands, and nothing else.
  pub build_batch_sorts :
      (result : ProcessBatchResult W)
      → All IsComplete result.commands
      → (batch : TripDetectionBatch W) × (build_batch result ≡ some batch)
        × (batch.new_state ≡ result.new_state)
        × (batch.processed_points ≡ [])
        × (batch.new_trips ≡ gather trips_of result.commands)
        × (batch.backfill_since ≡ gather backfill_of result.commands)
        × (batch.updated_trips ≡ gather updates_of result.commands)
        × (trip_ends batch ≡ gather trip_ends_of result.commands)
        × (batch.new_points ≡ gather points_of result.commands)
  unfolding build_batch
  build_batch_sorts result h =
      let (batch, e, a) =
        Yields-exists (Adds result.commands _) _ (add_commands-Adds result.commands _ h) in
      (batch, e, a.state, a.processed, a.new_trips, a.backfill, a.updated, a.done, a.new_points)
