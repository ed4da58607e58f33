-- ===== src/Tests/Gateway.antt =====
-- Runs of the ingestion of batches, and its theorems at them.
use wrany.Prelude.{
  ℕ, ◌+◌, ◌≤◌, ◌≡◌, refl, true, false, none, some, String, List, [], ◌∷◌, ◌++◌, map, ok, All,
  seconds,
}
use wrany.Float64.{Milli, milli}
use wrany.Events.Validation.{
  Envelope, new_validation_error, require_non_empty, require_non_zero_time, require_range,
  require_non_negative, validate_envelope, new_envelope, envelope_issues,
}
use wrany.Events.Payloads.{validate_location}
use wrany.Events.Build.{new_location_event}
use wrany.Store.Tables.{insert_new}
use wrany.Gateway.Event.{TrackerSession, LocationEvent, validate_location_event}
use wrany.Gateway.Ingest.{
  PublishAnswer, BatchResult, Settings, ingest_batch, ingest_all, ingest_one, deduplicate, send,
  settle, payload_of,
}
use wrany.Gateway.Accounting.{occurrences, id_of_rejected, ingest_batch_answers_each}
use wrany.Gateway.Ledger.{Net, key_of, net_services, is_duplicate, mark_published, publish}
use wrany.Gateway.Seen.{seen, sent_ids}
use wrany.Gateway.Once.{ingest_batch_publishes_once, retry_publishes_nothing_twice}

abbrev pub settings : Settings Milli
settings = record {
  text = λ u. "id";
  digits = λ n. "number";
  error_text = λ e. "invalid";
  json = record {
    location = λ p. some (1 ∷ []);
    started = λ p. some (1 ∷ []);
    updated = λ p. some (1 ∷ []);
    completed = λ p. some (1 ∷ []);
    matched = λ p. some (1 ∷ []);
    dead_letter = λ p. some (1 ∷ []);
  };
  producer = "gateway";
  max_batch = 5;
}

abbrev pub session : TrackerSession
session = record { id = "s"; user_id = 1; device_id = 2; started_at = seconds 900 }

abbrev pub event : String → ℕ → LocationEvent Milli
event event_id secs = record {
  event_id = event_id;
  recorded_at = seconds secs;
  lat = 0;
  lon = 0;
  accuracy_m = 5_000;
  speed_mps = none;
  bearing_deg = none;
  activity_type = some "walking";
  activity_confidence = none;
  battery_level = none;
}

-- A new event, one that repeats it, one without a time and one that is in the ledger.
abbrev pub events : List (LocationEvent Milli)
events = event "a" 1_000 ∷ event "a" 1_000 ∷ event "b" 0 ∷ event "c" 1_020 ∷ []

abbrev pub before : Net
before = record {
  up = true;
  writable = true;
  devices = (1, 2) ∷ [];
  ledger = key_of 1 2 "c" ∷ [];
  broker = λ e. PublishAnswer.acked;
  sent = [];
}

abbrev pub envelope_of : String → ℕ → Envelope
envelope_of event_id secs = record {
  event_id = event_id;
  event_type = "location.events.v1";
  event_version = 1;
  occurred_at = seconds secs;
  produced_at = seconds 1_100;
  producer = "gateway";
  correlation_id = "s";
  payload = 1 ∷ [];
}

abbrev pub between : Net
between = record before {
  ledger = key_of 1 2 "c" ∷ key_of 1 2 "a" ∷ [];
  sent = ("location.events.v1", envelope_of "a" 1_000) ∷ [];
}

abbrev pub first : BatchResult
first = record {
  accepted = "a" ∷ [];
  duplicated = "a" ∷ "c" ∷ [];
  rejected = record { event_id = "b"; reason = "recorded_at is required" } ∷ [];
}

pub first_run :
    ingest_batch net_services settings session (seconds 1_100) events before ≡ ok (first, between)
unfolding ingest_batch ingest_all ingest_one deduplicate send settle payload_of is_duplicate
    mark_published publish insert_new validate_location_event new_location_event validate_location
    new_validation_error require_non_empty require_non_zero_time require_range require_non_negative
    validate_envelope new_envelope envelope_issues
first_run = refl

abbrev again : List (LocationEvent Milli)
again = event "a" 1_000 ∷ event "d" 1_040 ∷ []

abbrev after : Net
after = record between {
  ledger = key_of 1 2 "c" ∷ key_of 1 2 "a" ∷ key_of 1 2 "d" ∷ [];
  sent =
      ("location.events.v1", envelope_of "a" 1_000)
      ∷ ("location.events.v1", envelope_of "d" 1_040)
      ∷ [];
}

abbrev second : BatchResult
second = record { accepted = "d" ∷ []; duplicated = "a" ∷ []; rejected = [] }

second_run :
    ingest_batch net_services settings session (seconds 1_100) again between ≡ ok (second, after)
unfolding ingest_batch ingest_all ingest_one deduplicate send settle payload_of is_duplicate
    mark_published publish insert_new validate_location_event new_location_event validate_location
    new_validation_error require_non_empty require_non_zero_time require_range require_non_negative
    validate_envelope new_envelope envelope_issues
second_run = refl

ingest_batch_answers_each_example :
    occurrences "a" first.accepted
      + occurrences "a" first.duplicated
      + occurrences "a" (map id_of_rejected first.rejected)
    ≡ occurrences "a" (map (λ (ev : LocationEvent Milli). ev.event_id) events)
ingest_batch_answers_each_example =
    ingest_batch_answers_each net_services settings "a" session (seconds 1_100) events before
      between first first_run

ingest_batch_publishes_once_example :
    (sent_ids between ≡ sent_ids before ++ first.accepted)
    × All (λ id. seen session before id ≡ false) first.accepted
    × All (λ id. seen session between id ≡ true) first.accepted
    × ((id : String) → occurrences id first.accepted ≤ 1)
ingest_batch_publishes_once_example =
    ingest_batch_publishes_once settings session before refl (seconds 1_100) events first between
      first_run

retry_publishes_nothing_twice_example :
    All (λ id. occurrences id first.accepted ≡ 0) second.accepted
retry_publishes_nothing_twice_example =
    retry_publishes_nothing_twice settings session before between after (seconds 1_100)
      (seconds 1_100) events again first second refl first_run second_run
