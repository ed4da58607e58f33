-- ===== src/Gateway/Socket/Protocol.antt =====
-- The messages of the WebSocket protocol and the encoders and decoders that the endpoint calls:
-- services/tracking-gateway/internal/transport/http/websocket_protocol.go.
use wrany.Prelude.{ℕ, Option, String, List, Time, Uuid}
use wrany.Events.Validation.{Bytes}

abbrev pub session_start : String
session_start = "session.start"

abbrev pub session_accepted : String
session_accepted = "session.accepted"

abbrev pub location_batch : String
location_batch = "location.batch"

abbrev pub location_batch_ack : String
location_batch_ack = "location.batch.ack"

abbrev pub error_type : String
error_type = "error"

abbrev pub ping : String
ping = "ping"

abbrev pub pong : String
pong = "pong"

-- A payload that is not there is the empty list of bytes.
pub record WsMessage : Type 0 where
  pub msg_type : String
  pub request_id : String
  pub payload : Bytes

pub record SessionStartPayload : Type 0 where
  pub device_id : String
  pub app_version : String
  pub platform : String

pub record SessionCfgMsg : Type 0 where
  pub max_batch_size : ℕ
  pub recommended_flush_interval_sec : ℕ

pub record SessionAcceptedPayload : Type 0 where
  pub session_id : String
  pub server_time : Time
  pub config : SessionCfgMsg

pub record LocationEventMsg (W : Type 0) : Type 0 where
  pub event_id : String
  pub recorded_at : String
  pub lat : W
  pub lon : W
  pub accuracy_m : W
  pub speed_mps : Option W
  pub bearing_deg : Option W
  pub activity_type : Option String
  pub activity_confidence : Option W
  pub battery_level : Option W

pub record LocationBatchPayload (W : Type 0) : Type 0 where
  pub device_id : String
  pub events : List (LocationEventMsg W)

pub record RejectedMsg : Type 0 where
  pub event_id : String
  pub reason : String

pub record LocationBatchAckPayload : Type 0 where
  pub accepted : List String
  pub duplicated : List String
  pub rejected : List RejectedMsg

pub record ErrorPayload : Type 0 where
  pub code : String
  pub message : String

-- `json.Unmarshal` and `json.Marshal` at the types of the protocol, where `none` is an error,
-- `uuid.Parse`, `time.Parse` with RFC 3339, and the `%q` of a text.
pub record Wire (W : Type 0) : Type 0 where
  pub read_message : Bytes → Option WsMessage
  pub read_session_start : Bytes → Option SessionStartPayload
  pub read_location_batch : Bytes → Option (LocationBatchPayload W)
  pub write_message : WsMessage → Option Bytes
  pub write_session_accepted : SessionAcceptedPayload → Option Bytes
  pub write_ack : LocationBatchAckPayload → Option Bytes
  pub write_error : ErrorPayload → Option Bytes
  pub parse_uuid : String → Option Uuid
  pub parse_time : String → Option Time
  pub quoted : String → String
