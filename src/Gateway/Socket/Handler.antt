-- ===== src/Gateway/Socket/Handler.antt =====
-- `handleSessionStart`, `handleLocationBatch` and `parseLocationEvents`:
-- services/tracking-gateway/internal/transport/http/websocket_handler.go, and `IngestionErrCode` and
-- `Error` of usecase/tracker_ingestion.go. The deadlines and the pings of the connection are left out.
use wrany.Prelude.{
  ℕ, ◌+◌, Bool, true, false, Option, none, some, String, List, [], ◌∷◌, ◌++◌, map, Time, Uuid,
  Result, ok, err, is_empty, str_eq, concat, if◌then◌else◌,
}
use wrany.Float64.{Float64}
use wrany.Action.{Failure}
use wrany.Gateway.Event.{
  IngestionErrorCode, code_text, TrackerSession, LocationEvent, RejectedEvent,
}
use wrany.Gateway.Ingest.{
  Services, Settings, BatchResult, IngestError, SessionError, start_session, ingest_batch,
}
use wrany.Gateway.Socket.Protocol.{
  WsMessage, SessionStartPayload, LocationEventMsg, LocationBatchPayload, RejectedMsg,
  LocationBatchAckPayload, Wire, session_accepted, location_batch_ack,
}
use wrany.Gateway.Socket.Connection.{Socket, send_ws_message, send_ws_error}

abbrev pub ingestion_err_code : IngestError → Option IngestionErrorCode
ingestion_err_code (IngestError.coded code message) = some code
ingestion_err_code (IngestError.dedup_check message) = none

abbrev pub error_message : IngestError → String
error_message (IngestError.coded code message) = concat (code_text code) (concat ": " message)
error_message (IngestError.dedup_check message) = concat "tracker ingestion: dedup check: " message

abbrev pub error_code : IngestError → IngestionErrorCode
error_code (IngestError.coded code message) = code
error_code (IngestError.dedup_check message) = IngestionErrorCode.internal_error

-- What the endpoint is built with: the services and settings of the ingestion, the encoders, the
-- clock, the supply of uuids, and `WSMaxBatchSize`.
pub record Endpoint (W S : Type 0) : Type 0 where
  pub services : Services S
  pub settings : Settings W
  pub wire : Wire W
  pub clock : ℕ → Time
  pub fresh : ℕ → Uuid
  pub max_batch_size : ℕ

module _ {W : Type 0} (wire : Wire W) where
  abbrev pub event_of_msg : LocationEventMsg W → Time → LocationEvent W
  event_of_msg m t = record {
    event_id = m.event_id;
    recorded_at = t;
    lat = m.lat;
    lon = m.lon;
    accuracy_m = m.accuracy_m;
    speed_mps = m.speed_mps;
    bearing_deg = m.bearing_deg;
    activity_type = m.activity_type;
    activity_confidence = m.activity_confidence;
    battery_level = m.battery_level;
  }

  -- What the parser puts out: the events and the rejects.
  abbrev pub Parsed : Type 0
  Parsed = List (LocationEvent W) × List RejectedEvent

  abbrev pub parse_event : LocationEventMsg W → Option Time → Parsed → Parsed
  parse_event m none (events, rejects) =
      (events, record { event_id = m.event_id; reason = "recorded_at must be RFC3339" } ∷ rejects)
  parse_event m (some t) (events, rejects) = (event_of_msg m t ∷ events, rejects)

  unfoldable pub parse_location_events : List (LocationEventMsg W) → Parsed
  parse_location_events [] = ([], [])
  parse_location_events (m ∷ ms) =
      let rest = parse_location_events ms in
      if str_eq m.event_id ""
      then (rest.0, record { event_id = "(unknown)"; reason = "event_id is required" } ∷ rest.1)
      else parse_event m (wire.parse_time m.recorded_at) rest

abbrev pub rejected_msg : RejectedEvent → RejectedMsg
rejected_msg r = record { event_id = r.event_id; reason = r.reason }

abbrev pub ack_of : List RejectedEvent → BatchResult → LocationBatchAckPayload
ack_of parse_rejects r = record {
  accepted = r.accepted;
  duplicated = r.duplicated;
  rejected = map rejected_msg parse_rejects ++ map rejected_msg r.rejected;
}

module _ {W : Type 0} {S : Type 0} ⦃f : Float64 W⦄ (endpoint : Endpoint W S) (user_id : Uuid) where
  open endpoint use {services, settings, wire, clock, fresh, max_batch_size}

  abbrev pub refuse :
      String → IngestionErrorCode → String → Socket S → Option TrackerSession × Socket S
  refuse request_id code message s = (none, send_ws_error wire request_id code message s)

  -- A session that cannot be answered is not kept.
  abbrev pub if_sent :
      TrackerSession → Result Failure (Unit {0}) × Socket S → Option TrackerSession × Socket S
  if_sent session (err e, s) = (none, s)
  if_sent session (ok u, s) = (some session, s)

  -- `StartSession` has read the clock and drawn a uuid when it answers a session.
  abbrev pub accept_session :
      String → Result SessionError TrackerSession → Socket S → Option TrackerSession × Socket S
  accept_session request_id (err SessionError.err_device_not_found) s =
      refuse request_id IngestionErrorCode.device_not_registered
        "device not registered for this user" s
  accept_session request_id (err (SessionError.find_device_failed e)) s =
      refuse request_id IngestionErrorCode.internal_error "internal error" s
  accept_session request_id (ok session) s = if_sent session (
      send_ws_message wire session_accepted request_id
        (wire.write_session_accepted (record {
          session_id = session.id;
          server_time = clock (s.readings + 1);
          config = record { max_batch_size = max_batch_size; recommended_flush_interval_sec = 10 };
        }))
        (record s { readings = s.readings + 2; issued = s.issued + 1 }))

  abbrev pub start_for : String → Option Uuid → Socket S → Option TrackerSession × Socket S
  start_for request_id none s =
      refuse request_id IngestionErrorCode.validation_error "device_id must be a valid UUID" s
  start_for request_id (some device_id) s =
      accept_session request_id
        (start_session services settings (fresh s.issued) user_id device_id (clock s.readings)
          s.store)
        s

  abbrev pub start_with :
      String → Option SessionStartPayload → Socket S → Option TrackerSession × Socket S
  start_with request_id none s =
      refuse request_id IngestionErrorCode.validation_error "invalid session.start payload" s
  start_with request_id (some payload) s =
      start_for request_id (wire.parse_uuid payload.device_id) s

  unfoldable pub handle_session_start : WsMessage → Socket S → Option TrackerSession × Socket S
  handle_session_start msg s = start_with msg.request_id (wire.read_session_start msg.payload) s

  -- The flag tells whether the connection closes.
  abbrev pub stop_unless_sent : Result Failure (Unit {0}) × Socket S → Bool × Socket S
  stop_unless_sent (err e, s) = (true, s)
  stop_unless_sent (ok u, s) = (false, s)

  abbrev pub answer_batch :
      String
      → List RejectedEvent
      → Result (IngestError × S) (BatchResult × S)
      → Socket S
      → Bool × Socket S
  answer_batch request_id parse_rejects (err (e, store)) s = (
    false,
    send_ws_error wire request_id (error_code e) (error_message e)
        (record s { store = store; readings = s.readings + 1 }),
  )
  answer_batch request_id parse_rejects (ok (r, store)) s = stop_unless_sent (
      send_ws_message wire location_batch_ack request_id (wire.write_ack (ack_of parse_rejects r))
        (record s { store = store; readings = s.readings + 1 }))

  abbrev pub ingest_events :
      String → TrackerSession → List (LocationEventMsg W) → Socket S → Bool × Socket S
  ingest_events request_id session msgs s =
      let parsed = parse_location_events wire msgs in
      answer_batch request_id parsed.1
        (ingest_batch services settings session (clock s.readings) parsed.0 s.store) s

  abbrev pub ingest_payload :
      String → TrackerSession → Option (LocationBatchPayload W) → Socket S → Bool × Socket S
  ingest_payload request_id session none s = (
    false,
    send_ws_error wire request_id IngestionErrorCode.validation_error
        "invalid location.batch payload" s,
  )
  ingest_payload request_id session (some payload) s =
      if is_empty payload.events
      then (
        false,
        send_ws_error wire request_id IngestionErrorCode.validation_error "events array is empty" s,
      )
      else ingest_events request_id session payload.events s

  unfoldable pub handle_location_batch : WsMessage → TrackerSession → Socket S → Bool × Socket S
  handle_location_batch msg session s =
      ingest_payload msg.request_id session (wire.read_location_batch msg.payload) s
