-- ===== src/Tests/Socket.antt =====
-- Runs of a WebSocket connection over the ledger, and the theorems at them.
use wrany.Prelude.{
  ℕ, zero, suc, ◌≡◌, refl, true, Option, none, some, String, List, [], ◌∷◌, map, str_eq,
  if◌then◌else◌, seconds,
}
use wrany.Float64.{Milli, milli}
use wrany.Events.Validation.{Bytes}
use wrany.Events.Validation.{
  new_validation_error, require_non_empty, require_non_zero_time, require_range,
  require_non_negative, validate_envelope, new_envelope, envelope_issues,
}
use wrany.Events.Payloads.{validate_location}
use wrany.Events.Build.{new_location_event}
use wrany.Store.Tables.{insert_new}
use wrany.Gateway.Event.{validate_location_event}
use wrany.Gateway.Ingest.{
  start_session, ingest_batch, ingest_all, ingest_one, deduplicate, send, settle, payload_of,
}
use wrany.Gateway.Accounting.{occurrences}
use wrany.Gateway.Ledger.{
  Net, key_of, net_services, find_device, is_duplicate, mark_published, publish,
}
use wrany.Gateway.Socket.Protocol.{
  WsMessage, LocationEventMsg, Wire, session_start, location_batch, ping, pong,
}
use wrany.Gateway.Socket.Connection.{Socket, write_text, send_ws_message, send_ws_error}
use wrany.Gateway.Socket.Handler.{
  Endpoint, parse_location_events, ack_of, handle_session_start, handle_location_batch,
}
use wrany.Gateway.Socket.Loop.{Peer, dispatch, read_loop, serve_http}
use wrany.Gateway.Socket.Owned.{GrowsFor, on_net, serve_http_enters_own}
use wrany.Gateway.Socket.Answers.{Encodes}
use wrany.Gateway.Socket.Live.{AnsweredFrom, read_loop_answers_each}
use wrany.Gateway.Socket.Ack.{named, ack_names_each}
use wrany.Tests.Gateway.{settings, session, before, between, first, first_run}

abbrev event_msg : String → String → LocationEventMsg Milli
event_msg event_id recorded_at = record {
  event_id = event_id;
  recorded_at = recorded_at;
  lat = 0;
  lon = 0;
  accuracy_m = 5_000;
  speed_mps = none;
  bearing_deg = none;
  activity_type = some "walking";
  activity_confidence = none;
  battery_level = none;
}

-- The events of the ingestion's run, one without an id and one with a time that is none.
abbrev msgs : List (LocationEventMsg Milli)
msgs =
    event_msg "a" "1000"
    ∷ event_msg "" "1000"
    ∷ event_msg "a" "1000"
    ∷ event_msg "b" "zero"
    ∷ event_msg "c" "1020"
    ∷ event_msg "a" "late"
    ∷ []

abbrev time_of : String → Option ℕ
time_of t =
    if str_eq t "1000"
    then some (seconds 1_000)
    else if str_eq t "1020"
    then some (seconds 1_020)
    else if str_eq t "zero"
    then some 0
    else none

-- A frame is the number of a message.
abbrev message_of : Bytes → Option WsMessage
message_of [] = none
message_of (zero ∷ raw) =
    some (record { msg_type = session_start; request_id = "r0"; payload = 1 ∷ [] })
message_of (suc zero ∷ raw) =
    some (record { msg_type = location_batch; request_id = "r1"; payload = 2 ∷ [] })
message_of (suc (suc n) ∷ raw) = some (record { msg_type = ping; request_id = "r2"; payload = [] })

-- What is written is the type and the id of a message, as numbers.
abbrev number_of : String → ℕ
number_of t =
    if str_eq t pong
    then 1
    else if str_eq t "session.accepted"
    then 2
    else if str_eq t "location.batch.ack"
    then 3
    else 4

abbrev wire : Wire Milli
wire = record {
  read_message = message_of;
  read_session_start = λ raw. some (record { device_id = "2"; app_version = ""; platform = "" });
  read_location_batch = λ raw. some (record { device_id = "2"; events = msgs });
  write_message = λ m. some (number_of m.msg_type ∷ m.payload);
  write_session_accepted = λ p. some (10 ∷ []);
  write_ack = λ p. some (11 ∷ []);
  write_error = λ p. some (12 ∷ []);
  parse_uuid = λ u. if str_eq u "2" then some 2 else none;
  parse_time = time_of;
  quoted = λ t. t;
}

abbrev endpoint : Endpoint Milli Net
endpoint = record {
  services = net_services;
  settings = settings;
  wire = wire;
  clock = λ n. seconds 1_100;
  fresh = λ n. 7;
  max_batch_size = 5;
}

abbrev socket : Socket Net
socket = record { store = before; readings = 0; issued = 0; refusals = []; written = [] }

-- A batch too early, a session, a batch, a ping and no JSON.
abbrev frames : List Bytes
frames = (1 ∷ []) ∷ (0 ∷ []) ∷ (1 ∷ []) ∷ (2 ∷ []) ∷ [] ∷ []

abbrev peer : Peer
peer = record { upgrades = true; takes_deadline = true; frames = frames }

wire-Encodes : Encodes wire
wire-Encodes = record {
  messages = λ m. refl;
  accepted = λ p. refl;
  acks = λ p. refl;
  errors = λ p. refl;
}

-- Each frame is answered, and the event of the batch is entered.
answers_run :
    (serve_http endpoint (some 1) peer socket).1.written
    ≡ (4 ∷ 12 ∷ []) ∷ (2 ∷ 10 ∷ []) ∷ (3 ∷ 11 ∷ []) ∷ (1 ∷ []) ∷ (4 ∷ 12 ∷ []) ∷ []
unfolding serve_http read_loop dispatch handle_session_start handle_location_batch write_text
    send_ws_message send_ws_error parse_location_events start_session find_device ingest_batch
    ingest_all ingest_one deduplicate send settle payload_of is_duplicate mark_published publish
    insert_new validate_location_event new_location_event validate_location new_validation_error
    require_non_empty require_non_zero_time require_range require_non_negative validate_envelope
    new_envelope envelope_issues
answers_run = refl

ledger_run :
    (serve_http endpoint (some 1) peer socket).1.store.ledger ≡ key_of 1 2 "c" ∷ key_of 1 2 "a" ∷ []
unfolding serve_http read_loop dispatch handle_session_start handle_location_batch write_text
    send_ws_message send_ws_error parse_location_events start_session find_device ingest_batch
    ingest_all ingest_one deduplicate send settle payload_of is_duplicate mark_published publish
    insert_new validate_location_event new_location_event validate_location new_validation_error
    require_non_empty require_non_zero_time require_range require_non_negative validate_envelope
    new_envelope envelope_issues
ledger_run = refl

serve_http_enters_own_example :
    GrowsFor 1 before (serve_http (on_net endpoint) (some 1) peer socket).1.store
serve_http_enters_own_example = serve_http_enters_own endpoint 1 peer socket

read_loop_answers_each_example :
    AnsweredFrom wire [] frames (read_loop endpoint 1 frames none socket)
read_loop_answers_each_example =
    read_loop_answers_each endpoint 1 wire-Encodes frames none socket refl

ack_names_each_example :
    named "a" (ack_of (parse_location_events wire msgs).1 first)
    ≡ occurrences "a" (map (λ (m : LocationEventMsg Milli). m.event_id) msgs)
unfolding parse_location_events
ack_names_each_example =
    ack_names_each net_services settings wire "a" session (seconds 1_100) msgs before between first
      refl refl first_run
