-- ===== src/Gateway/Ingest.antt =====
-- `StartSession` and `IngestBatch`:
-- services/tracking-gateway/internal/usecase/tracker_ingestion.go, over its device, ledger and
-- publisher interfaces. `S` is the state behind them.
use wrany.Prelude.{
  ℕ, Bool, true, false, String, List, [], ◌∷◌, ◌++◌, Time, Uuid, Result, ok, err, length,
  get_or_else, str_eq, concat, ltb, if◌then◌else◌,
}
use wrany.Float64.{Float64, nought}
use wrany.Events.Subject
use wrany.Events.Validation.{Envelope, EventError}
use wrany.Events.Payloads.{LocationPayload}
use wrany.Events.Build.{Marshaller, EventHead, new_location_event}
use wrany.Gateway.Event.{
  IngestionErrorCode, code_text, TrackerSession, LocationEvent, RejectedEvent,
  validate_location_event,
}

-- What `FindByUserAndDeviceID` answers.
pub data DeviceAnswer : Type 0 where
  device_found device_not_found : DeviceAnswer
  device_error : String → DeviceAnswer

-- What `Publish` answers: nil, an error that is `ErrPublish`, or another error.
pub data PublishAnswer : Type 0 where
  acked publish_failed : PublishAnswer
  other_error : String → PublishAnswer

-- The interfaces that the use case is built with. `mark_published` answers the state only: its error
-- is logged.
pub record Services (S : Type 0) : Type 0 where
  pub find_device : Uuid → Uuid → S → DeviceAnswer
  pub is_duplicate : Uuid → Uuid → String → S → Result String Bool
  pub publish : String → Envelope → S → PublishAnswer × S
  pub mark_published : Uuid → Uuid → String → S → S

pub record BatchResult : Type 0 where
  pub accepted : List String
  pub duplicated : List String
  pub rejected : List RejectedEvent

pub data IngestError : Type 0 where
  coded : IngestionErrorCode → String → IngestError
  dedup_check : String → IngestError

pub data SessionError : Type 0 where
  err_device_not_found : SessionError
  find_device_failed : String → SessionError

abbrev pub empty_result : BatchResult
empty_result = record { accepted = []; duplicated = []; rejected = [] }

abbrev pub reject : String → String → BatchResult → BatchResult
reject event_id reason r = record r {
  rejected = r.rejected ++ record { event_id = event_id; reason = reason } ∷ [];
}

-- What the use case is built with beside its interfaces: the texts of uuids, of numbers and of event
-- errors, JSON, the name of the producer and the limit of a batch.
pub record Settings (W : Type 0) : Type 0 where
  pub text : Uuid → String
  pub digits : ℕ → String
  pub error_text : EventError → String
  pub json : Marshaller W
  pub producer : String
  pub max_batch : ℕ

-- `StartSession` behind the lookup of the device.
abbrev pub session_for :
    {W : Type 0}
    → Settings W
    → Uuid
    → Uuid
    → Uuid
    → Time
    → DeviceAnswer
    → Result SessionError TrackerSession
session_for set id user_id device_id now DeviceAnswer.device_not_found =
    err SessionError.err_device_not_found
session_for set id user_id device_id now (DeviceAnswer.device_error e) =
    err (SessionError.find_device_failed e)
session_for set id user_id device_id now DeviceAnswer.device_found =
    ok (record { id = set.text id; user_id = user_id; device_id = device_id; started_at = now })

module _ {W : Type 0} {S : Type 0} ⦃f : Float64 W⦄ (services : Services S) (set : Settings W) where
  open services use {find_device, is_duplicate, publish, mark_published}

  -- `id` is the uuid that `uuid.New` gives.
  unfoldable pub start_session : Uuid → Uuid → Uuid → Time → S → Result SessionError TrackerSession
  start_session id user_id device_id now s =
      session_for set id user_id device_id now (find_device user_id device_id s)

  unfoldable pub payload_of : TrackerSession → Time → LocationEvent W → LocationPayload W
  payload_of session now ev = record {
    user_id = set.text session.user_id;
    device_id = set.text session.device_id;
    recorded_at = ev.recorded_at;
    received_at = now;
    lat = ev.lat;
    lon = ev.lon;
    accuracy_m = ev.accuracy_m;
    speed_mps = get_or_else ev.speed_mps nought;
    bearing_deg = get_or_else ev.bearing_deg nought;
    activity_type = get_or_else ev.activity_type "";
    activity_confidence = get_or_else ev.activity_confidence nought;
    battery_level = get_or_else ev.battery_level nought;
    source = "android_tracker";
  }

  abbrev pub head_of : TrackerSession → Time → String → EventHead
  head_of session now event_id = record {
    event_id = event_id;
    produced_at = now;
    producer = set.producer;
    correlation_id = session.id;
  }

  -- What the loop holds: the result so far and the state of the services.
  abbrev pub Progress : Type 0
  Progress = BatchResult × S

  -- Behind `Publish`: the ledger is marked only when the broker has acknowledged.
  unfoldable pub settle :
      TrackerSession → String → BatchResult → PublishAnswer × S → Result (IngestError × S) Progress
  settle session event_id r (PublishAnswer.publish_failed, s) =
      ok (reject event_id (code_text IngestionErrorCode.event_bus_unavailable) r, s)
  settle session event_id r (PublishAnswer.other_error e, s) =
      err (IngestError.coded IngestionErrorCode.event_bus_unavailable e, s)
  settle session event_id r (PublishAnswer.acked, s) = ok (
    record r { accepted = r.accepted ++ event_id ∷ [] },
    mark_published session.user_id session.device_id event_id s,
  )

  unfoldable pub send :
      TrackerSession
      → String
      → BatchResult
      → Result EventError Envelope
      → S
      → Result (IngestError × S) Progress
  unfolding settle
  send session event_id r (err e) s = ok (reject event_id (set.error_text e) r, s)
  send session event_id r (ok envelope) s =
      settle session event_id r (publish Subject.location_events envelope s)

  -- The body of the loop behind the validation.
  unfoldable pub deduplicate :
      TrackerSession
      → Time
      → LocationEvent W
      → BatchResult
      → Result String Bool
      → S
      → Result (IngestError × S) Progress
  unfolding send
  deduplicate session now ev r (err e) s = err (IngestError.dedup_check e, s)
  deduplicate session now ev r (ok true) s =
      ok (record r { duplicated = r.duplicated ++ ev.event_id ∷ [] }, s)
  deduplicate session now ev r (ok false) s =
      send session ev.event_id r
        (new_location_event set.json (head_of session now ev.event_id) (payload_of session now ev))
        s

  unfoldable pub ingest_one :
      TrackerSession → Time → LocationEvent W → BatchResult → S → Result (IngestError × S) Progress
  unfolding deduplicate
  ingest_one session now ev r s =
      let reason = validate_location_event ev in
      if str_eq reason ""
      then deduplicate session now ev r
          (is_duplicate session.user_id session.device_id ev.event_id s) s
      else ok (reject ev.event_id reason r, s)

  -- An error ends the loop; what was published before it stays published.
  unfoldable pub ingest_all :
      TrackerSession
      → Time
      → List (LocationEvent W)
      → BatchResult
      → S
      → Result (IngestError × S) Progress
  ingest_all session now [] r s = ok (r, s)
  ingest_all session now (ev ∷ evs) r s = elim (ingest_one session now ev r s) [
    | err e ↦ err e
    | ok (r', s') ↦ ingest_all session now evs r' s'
  ]

  unfoldable pub ingest_batch :
      TrackerSession → Time → List (LocationEvent W) → S → Result (IngestError × S) Progress
  ingest_batch session now events s =
      if ltb set.max_batch (length events)
      then err (
        IngestError.coded IngestionErrorCode.batch_too_large (
            concat "batch size " (
              concat (set.digits (length events))
                (concat " exceeds limit " (set.digits set.max_batch)))),
        s,
      )
      else ingest_all session now events empty_result s
