-- ===== src/Tests/Cycle.antt =====
-- Runs of the noise pipeline, of the tables and of a cycle, and their theorems at them.
use wrany.Prelude.{
  ℕ, ◌≡◌, refl, true, false, none, some, String, List, [], ◌∷◌, map, Time, Uuid, All, Yields,
  seconds, arith,
}
use wrany.Float64.{Milli, milli}
use wrany.Domain.Point.{RawLocationPoint}
use wrany.Domain.Trip.{TripStatus, TripState, Trip, TripPoint, TripDetectionBatch}
use wrany.Detection.Command.{
  ProcessBatchResult, CommandKind, TripCommand, create_command, complete_command, bare_command,
}
use wrany.Noise.Pipeline.{sort_points, process_batch}
use wrany.Noise.Reasons.{raw_origin}
use wrany.Noise.Accounting.{Tally, process_batch_accounts}
use wrany.Job.Publish.{Wiring, Message, publish_events}
use wrany.Job.Cycle.{Work, run_once}
use wrany.Job.Announce.{
  IsStart, IsDated, IsWired, created, publish_events_only_starts, publish_events_announces,
}
use wrany.Job.Batch.{build_batch}
use wrany.Job.Sorting.{gather, updates_of, backfill_of, trip_ends, trip_ends_of, build_batch_sorts}
use wrany.Store.Tables.{Db, same_key, raw_key, processed_key, any}
use wrany.Store.Read.{load_state, fetch_unprocessed_points}
use wrany.Store.Apply.{apply_batch}
use wrany.Store.Repository.{trip_repo, IsSoundDb, run_once_of_trip_repo_safe}
use wrany.Store.Progress.{apply_batch_advances}
use wrany.Tests.Data.{fresh, cfg, noise, idle_state, step_at, later}

abbrev pub raw_at : String → ℕ → ℕ → RawLocationPoint Milli
raw_at event_id secs lat = record {
  user_id = 1;
  device_id = 2;
  event_id = event_id;
  recorded_at = seconds secs;
  received_at = seconds secs;
  lat = lat;
  lon = 20_000;
  accuracy_m = 5_000;
  speed_mps = some 1_500;
  bearing_deg = none;
  activity_type = "walking";
  activity_confidence = none;
  battery_level = none;
  source = "android_tracker";
}

-- Out of order.
abbrev pub raw_walk : List (RawLocationPoint Milli)
raw_walk = raw_at "b" 1_020 10_010 ∷ raw_at "a" 1_000 10_000 ∷ raw_at "c" 1_040 10_020 ∷ []

process_batch_accounts_example :
    Tally
      (some (seconds 1_000))
      (map raw_origin (sort_points raw_walk))
      (process_batch noise [] raw_walk (some (seconds 1_000)) later)
process_batch_accounts_example =
    process_batch_accounts (some (seconds 1_000)) noise [] raw_walk later

abbrev pub wiring : Wiring Milli
wiring = record {
  text = λ u. "id";
  fresh = fresh;
  json = record {
    location = λ p. some (1 ∷ []);
    started = λ p. some (1 ∷ []);
    updated = λ p. some (1 ∷ []);
    completed = λ p. some (1 ∷ []);
    matched = λ p. some (1 ∷ []);
    dead_letter = λ p. some (1 ∷ []);
  };
  producer = "worker";
}

abbrev pub trip : Trip Milli
trip = record {
  id = 100;
  user_id = 1;
  device_id = 2;
  status = TripStatus.active;
  started_at = seconds 1_000;
  ended_at = none;
  start_lat = 10_000;
  start_lon = 20_000;
  end_lat = none;
  end_lon = none;
  distance_m = 90_000;
  duration_sec = 60;
  points_count = 4;
  created_at = later;
  updated_at = later;
}

abbrev trip_point : TripPoint
trip_point = record {
  trip_id = 100;
  user_id = 1;
  device_id = 2;
  event_id = "a";
  recorded_at = seconds 1_000;
}

abbrev update : TripCommand Milli
update =
    let c = bare_command CommandKind.update_trip 100 in
    record c {
      delta_distance_m = 5_000;
      delta_points_count = 1;
      last_point_at = some (seconds 1_000);
      points = trip_point ∷ [];
    }

abbrev commands : List (TripCommand Milli)
commands =
    create_command 100 trip (seconds 1_000) (trip_point ∷ [])
    ∷ update
    ∷ complete_command 100 (seconds 1_100) 10_000 20_000
    ∷ []

wiring-IsWired : IsWired wiring later
wiring-IsWired = record {
  texts = λ u. refl;
  named = refl;
  clocked = omega arith;
  marshals = λ p h. (1, [], refl);
}

commands-IsDated : All IsDated commands
commands-IsDated = ((omega arith, omega arith), (tt, (refl, tt)))

abbrev announced : List Message
announced = (publish_events_announces wiring later wiring-IsWired 0 commands commands-IsDated).0

announced_runs : publish_events wiring later 0 commands ≡ some announced
announced_runs =
    (publish_events_announces wiring later wiring-IsWired 0 commands commands-IsDated).1

publish_events_announces_example :
    (sent : List Message) × (publish_events wiring later 0 commands ≡ some sent)
    × (map (λ m. m.1.correlation_id) sent ≡ map wiring.text (created commands))
publish_events_announces_example =
    publish_events_announces wiring later wiring-IsWired 0 commands commands-IsDated

publish_events_only_starts_example : All (IsStart wiring later) announced
publish_events_only_starts_example =
    publish_events_only_starts wiring later 0 commands {sent = announced} announced_runs

-- A database with the raw points of a walk and the state of its pair.
abbrev db : Db Milli
db = record {
  up = true;
  raw_location_points = raw_walk;
  processed_location_points = [];
  trips = [];
  trip_points = [];
  trip_detection_state = idle_state ∷ [];
}

abbrev work : Work (Db Milli)
work = record { store = db; issued = 0; published = [] }

run_once_of_trip_repo_safe_example :
    (after : Work (Db Milli)) × (run_once
        (trip_repo {W = Milli} later)
        wiring
        cfg
        noise
        (seconds 1_500)
        work
      ≡ some after)
    × IsSoundDb after.store
run_once_of_trip_repo_safe_example =
    run_once_of_trip_repo_safe later wiring cfg noise (seconds 1_500) work (refl, tt)

abbrev batch : TripDetectionBatch Milli
batch = record {
  new_state = record idle_state { state = TripState.trip_active; active_trip_id = some 100 };
  processed_points = step_at "a" 1_000 0 ∷ step_at "b" 1_020 30_000 ∷ [];
  new_trips = some trip ∷ [];
  backfill_since = (100, seconds 1_000) ∷ [];
  updated_trips = [];
  completed_trips = [];
  new_points = trip_point ∷ [];
}

apply_batch_advances_example :
    (db' : Db Milli) × (apply_batch later batch db ≡ some (some db'))
    × (load_state 1 2 db' ≡ some batch.new_state)
    × ((user device : Uuid) (begin end : Time)
        → Yields
            (All
              λ r. any (λ p. same_key (processed_key p) (raw_key r)) batch.processed_points ≡ false)
            (fetch_unprocessed_points user device begin end db'))
apply_batch_advances_example = apply_batch_advances later batch db refl (refl, tt)

abbrev result : ProcessBatchResult Milli
result = record { new_state = idle_state; commands = commands; issued = 0 }

build_batch_sorts_example :
    (built : TripDetectionBatch Milli) × (build_batch result ≡ some built)
    × (built.new_state ≡ idle_state)
    × (built.processed_points ≡ [])
    × (built.new_trips ≡ some trip ∷ [])
    × (built.backfill_since ≡ gather backfill_of commands)
    × (built.updated_trips ≡ gather updates_of commands)
    × (trip_ends built ≡ gather trip_ends_of commands)
    × (built.new_points ≡ trip_point ∷ trip_point ∷ [])
build_batch_sorts_example = build_batch_sorts result (
  ((refl, refl, refl, omega arith), (refl, tt)),
  (((refl, omega arith, refl), (refl, tt)), (((refl, refl, refl, refl), tt), tt)),
)
