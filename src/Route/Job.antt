-- ===== src/Route/Job.antt =====
-- `RunOnce`, `processTrip` and `publishMatched`:
-- services/tracking-worker/internal/usecase/route_matching_job.go, over the interface
-- `RouteMatchingRepository`, with `RouteTrip` of services/tracking-worker/internal/domain/route.go.
use wrany.Prelude.{
  ℕ, ◌+◌, ok, Option, none, some, String, List, [], ◌∷◌, ◌++◌, Time, Uuid, length, get_or_else, ltb,
  if◌then◌else◌,
}
use wrany.Float64.{Float64, nought}
use wrany.Action.{Action, Failure, read_ok, pure, ◌>>=◌, ◌>>◌, attempt, attempt_each}
use wrany.Domain.Trip.{Trip}
use wrany.Events.Subject
use wrany.Events.Payloads.{MatchedPayload}
use wrany.Events.Build.{Marshaller, new_matched_event}
use wrany.Job.Publish.{Message, handed}
use wrany.Route.Polyline.{GeoPoint}
use wrany.Route.Match.{Route, RouteMatchConfig, MatchResult, find_best_match}

pub record RouteTrip (W : Type 0) : Type 0 where
  pub route_id : Uuid
  pub trip_id : Uuid
  pub user_id : Uuid
  pub device_id : Uuid
  pub match_score : W
  pub matched_at : Time
  pub duration_sec : ℕ
  pub distance_m : W

-- `S` is the database; each call may fail, and each is a statement of its own.
pub record RouteMatchingRepository (W : Type 0) (S : Type 0) : Type 0 where
  pub find_unmatched_trips : ℕ → ℕ → Action Failure S (List (Trip W))
  pub find_trip_points_with_coords : Uuid → Action Failure S (List (GeoPoint W))
  pub find_candidate_routes : Uuid → W → W → W → Action Failure S (List (Route W))
  pub find_route_template : Uuid → Action Failure S (List (GeoPoint W))
  pub insert_route : Route W → Action Failure S (Unit {0})
  pub insert_route_trip : RouteTrip W → Action Failure S (Unit {0})
  pub incr_route_stats : Uuid → Uuid → Action Failure S (Unit {0})

-- What the job is built with and calls. `clock n` is the answer of the n-th call of `time.Now`,
-- `fresh n` that of the n-th of `uuid.New`.
pub record Setup (W : Type 0) : Type 0 where
  pub cfg : RouteMatchConfig W
  pub json : Marshaller W
  pub producer : String
  pub text : Uuid → String
  pub fresh : ℕ → Uuid
  pub clock : ℕ → Time

-- What a run changes: the database, the calls of `uuid.New` and of `time.Now`, and what was handed
-- to the publisher, whose answer is only logged.
pub record Work (S : Type 0) : Type 0 where
  pub store : S
  pub issued : ℕ
  pub readings : ℕ
  pub published : List Message

abbrev pub route_match_batch_size : ℕ
route_match_batch_size = 50

module _ {S : Type 0} where
  -- A statement: it changes the database only.
  abbrev pub on_store : {A : Type 0} → Action Failure S A → Action Failure (Work S) A
  on_store m work = let r = m work.store in (r.0, record work { store = r.1 })

module _ {W : Type 0} ⦃f : Float64 W⦄ where
  -- The route that is made of a trip without a match.
  abbrev pub route_of : Uuid → Trip W → List (GeoPoint W) → Time → Route W
  route_of id trip points now = record {
    id = id;
    user_id = trip.user_id;
    device_id = some trip.device_id;
    name = none;
    status = "active";
    start_lat = trip.start_lat;
    start_lon = trip.start_lon;
    end_lat = get_or_else trip.end_lat nought;
    end_lon = get_or_else trip.end_lon nought;
    distance_m = trip.distance_m;
    trips_count = 1;
    template = points;
    first_trip_id = trip.id;
    last_trip_id = trip.id;
    created_at = now;
    updated_at = now;
  }

module _ {W : Type 0} where
  abbrev pub link_of : Trip W → Time → Uuid × W → RouteTrip W
  link_of trip now (route_id, score) = record {
    route_id = route_id;
    trip_id = trip.id;
    user_id = trip.user_id;
    device_id = trip.device_id;
    match_score = score;
    matched_at = now;
    duration_sec = trip.duration_sec;
    distance_m = trip.distance_m;
  }

module _ {W : Type 0} {S : Type 0} ⦃f : Float64 W⦄ (repo : RouteMatchingRepository W S)
    (set : Setup W) where
  open f use {of_ℕ, fmax, fmin}
  open set use {cfg, text, fresh, clock}

  abbrev pub new_uuid : Action Failure (Work S) Uuid
  new_uuid work = (ok (fresh work.issued), record work { issued = work.issued + 1 })

  abbrev pub time_now : Action Failure (Work S) Time
  time_now work = (ok (clock work.readings), record work { readings = work.readings + 1 })

  abbrev pub matched_payload : Uuid → Uuid → Uuid → W → Time → MatchedPayload W
  matched_payload trip_id route_id user_id score now = record {
    trip_id = text trip_id;
    route_id = text route_id;
    user_id = text user_id;
    matched_at = now;
    match_score = fmax nought (fmin (of_ℕ 1) score);
  }

  unfoldable pub publish_matched :
      Uuid → Uuid → Uuid → W → Time → Action Failure (Work S) (Unit {0})
  publish_matched trip_id route_id user_id score now work = (
    ok tt,
    record work {
      issued = work.issued + 1;
      published =
          work.published
          ++ handed Subject.route_matched (
              new_matched_event set.json
                (record {
                  event_id = text (fresh work.issued);
                  produced_at = now;
                  producer = set.producer;
                  correlation_id = text trip_id;
                })
                (matched_payload trip_id route_id user_id score now));
    },
  )

  -- The two branches on `match.RouteID`: the route and the score of the trip.
  unfoldable pub assign :
      Trip W → List (GeoPoint W) → Time → W → Option Uuid → Action Failure (Work S) (Uuid × W)
  assign trip points now score none = do
    route_id ← new_uuid
    on_store (repo.insert_route (route_of route_id trip points now))
    pure (route_id, of_ℕ 1)
  assign trip points now score (some route_id) = do
    on_store (repo.incr_route_stats route_id trip.id)
    pure (route_id, score)

  -- From the match on.
  unfoldable pub settle_match :
      Trip W → List (GeoPoint W) → Time → MatchResult W → Action Failure (Work S) (Unit {0})
  settle_match trip points now found = do
    assigned ← assign trip points now found.score found.route_id
    on_store (repo.insert_route_trip (link_of trip now assigned))
    publish_matched trip.id assigned.0 trip.user_id assigned.1 now

  -- `templateByID`: a template that cannot be loaded is passed over.
  unfoldable pub load_templates :
      List (Route W) → Action Failure (Work S) (List (Uuid × List (GeoPoint W)))
  load_templates [] = pure []
  load_templates (c ∷ cs) = do
    answer ← attempt (on_store (repo.find_route_template c.id))
    rest ← load_templates cs
    pure (read_ok answer rest λ template. (c.id, template) ∷ rest)

  unfoldable pub match_trip : Trip W → List (GeoPoint W) → Action Failure (Work S) (Unit {0})
  match_trip trip points = do
    candidates ←
        on_store
          (repo.find_candidate_routes trip.user_id trip.start_lat trip.start_lon cfg.start_radius_m)
    templates ← load_templates candidates
    now ← time_now
    settle_match trip points now (find_best_match cfg trip points candidates templates)

  unfoldable pub process_trip : Trip W → Action Failure (Work S) (Unit {0})
  process_trip trip = do
    points ← on_store (repo.find_trip_points_with_coords trip.id)
    if ltb (length points) cfg.min_trip_points then pure tt else match_trip trip points

  -- The error of a trip is logged, and the loop goes on.
  unfoldable pub run_once : Action Failure (Work S) (Unit {0})
  run_once = do
    trips ← on_store (repo.find_unmatched_trips cfg.min_trip_points route_match_batch_size)
    attempt_each process_trip trips
