-- ===== src/Gateway/Socket/Answered.antt =====
-- That each frame of a connection is answered: `readLoop` and the handlers,
-- services/tracking-gateway/internal/transport/http/websocket_handler.go.
use wrany.Prelude.{
  ◌+◌, ◌≡◌, Bool, true, false, Option, none, some, is_some, String, List, [], Uuid, Result, ok, err,
  is_empty, if-elim,
}
use wrany.Float64.{Float64}
use wrany.Action.{Failure}
use wrany.Events.Validation.{Bytes}
use wrany.Gateway.Event.{TrackerSession, RejectedEvent}
use wrany.Gateway.Ingest.{BatchResult, IngestError, SessionError}
use wrany.Gateway.Socket.Protocol.{
  WsMessage, SessionStartPayload, LocationBatchPayload, session_accepted, location_batch_ack,
  error_type,
}
use wrany.Gateway.Socket.Connection.{Socket}
use wrany.Gateway.Socket.Handler.{
  Endpoint, if_sent, accept_session, start_for, start_with, stop_unless_sent, answer_batch,
  ingest_payload,
}
use wrany.Gateway.Socket.Loop.{Next, after_session_start, after_batch, after_pong, answer_ping}
use wrany.Gateway.Socket.Answers.{
  Encodes, Adds, Sent, write_text-Sent, send_ws_message-Sent, send_ws_error-Adds,
}

module _ {W : Type 0} {S : Type 0} ⦃f : Float64 W⦄ (endpoint : Endpoint W S) (user_id : Uuid)
    (encodes : Encodes endpoint.wire) where
  open endpoint use {wire, clock, services, settings}

  module _ (Fits : WsMessage → Type 0) (request_id : String)
      (fits_error : (raw : Bytes)
        → Fits (record { msg_type = error_type; request_id = request_id; payload = raw })) where
    module _
        (fits_accepted : (raw : Bytes)
          → Fits (record {
            msg_type = session_accepted;
            request_id = request_id;
            payload = raw;
          })) where
      if_sent-Adds :
          (session : TrackerSession) (before : List Bytes)
          (r : Result Failure (Unit {0}) × Socket S)
          → Sent wire Fits before r
          → Adds wire Fits before (if_sent endpoint user_id session r).1
      if_sent-Adds session before (err e, s) h = absurd h
      if_sent-Adds session before (ok u, s) h = h

      accept_session-Adds :
          (answer : Result SessionError TrackerSession) (s : Socket S)
          → s.refusals ≡ []
          → Adds wire Fits s.written (accept_session endpoint user_id request_id answer s).1
      accept_session-Adds (err SessionError.err_device_not_found) s calm =
          send_ws_error-Adds wire Fits encodes request_id _ _ s calm fits_error
      accept_session-Adds (err (SessionError.find_device_failed e)) s calm =
          send_ws_error-Adds wire Fits encodes request_id _ _ s calm fits_error
      accept_session-Adds (ok session) s calm = if_sent-Adds session s.written _ (
          send_ws_message-Sent wire Fits encodes session_accepted request_id _
            (record s { readings = s.readings + 2; issued = s.issued + 1 }) calm
            (encodes.accepted _) fits_accepted)

      start_for-Adds :
          (device : Option Uuid) (s : Socket S)
          → s.refusals ≡ []
          → Adds wire Fits s.written (start_for endpoint user_id request_id device s).1
      start_for-Adds none s calm =
          send_ws_error-Adds wire Fits encodes request_id _ _ s calm fits_error
      start_for-Adds (some device_id) s calm = accept_session-Adds _ s calm

      pub start_with-Adds :
          (payload : Option SessionStartPayload) (s : Socket S)
          → s.refusals ≡ []
          → Adds wire Fits s.written (start_with endpoint user_id request_id payload s).1
      start_with-Adds none s calm =
          send_ws_error-Adds wire Fits encodes request_id _ _ s calm fits_error
      start_with-Adds (some payload) s calm =
          start_for-Adds (wire.parse_uuid payload.device_id) s calm

    module _
        (fits_ack : (raw : Bytes)
          → Fits (record {
            msg_type = location_batch_ack;
            request_id = request_id;
            payload = raw;
          })) where
      -- One message was written, and the connection stays.
      abbrev pub Stays : List Bytes → Bool × Socket S → Type 0
      Stays before (true, s) = ⊥
      Stays before (false, s) = Adds wire Fits before s

      stop_unless_sent-Stays :
          (before : List Bytes) (r : Result Failure (Unit {0}) × Socket S)
          → Sent wire Fits before r
          → Stays before (stop_unless_sent endpoint user_id r)
      stop_unless_sent-Stays before (err e, s) h = absurd h
      stop_unless_sent-Stays before (ok u, s) h = h

      answer_batch-Stays :
          (rejects : List RejectedEvent) (answer : Result (IngestError × S) (BatchResult × S))
          (s : Socket S)
          → s.refusals ≡ []
          → Stays s.written (answer_batch endpoint user_id request_id rejects answer s)
      answer_batch-Stays rejects (err (e, store)) s calm =
          send_ws_error-Adds wire Fits encodes request_id _ _
            (record s { store = store; readings = s.readings + 1 }) calm fits_error
      answer_batch-Stays rejects (ok (r, store)) s calm = stop_unless_sent-Stays s.written _ (
          send_ws_message-Sent wire Fits encodes location_batch_ack request_id _
            (record s { store = store; readings = s.readings + 1 }) calm (encodes.acks _) fits_ack)

      pub ingest_payload-Stays :
          (session : TrackerSession) (payload : Option (LocationBatchPayload W)) (s : Socket S)
          → s.refusals ≡ []
          → Stays s.written (ingest_payload endpoint user_id request_id session payload s)
      ingest_payload-Stays session none s calm =
          send_ws_error-Adds wire Fits encodes request_id _ _ s calm fits_error
      ingest_payload-Stays session (some payload) s calm =
          if-elim (Stays s.written) (is_empty payload.events) _ _
            (λ _. send_ws_error-Adds wire Fits encodes request_id _ _ s calm fits_error)
            (λ _. answer_batch-Stays _ _ s calm)

  -- The same of what the loop does next: it reads on.
  abbrev pub Goes : (WsMessage → Type 0) → List Bytes → Next × Socket S → Type 0
  Goes Fits before (Next.reads_on session, s) = Adds wire Fits before s
  Goes Fits before (Next.closes, s) = ⊥
  Goes Fits before (Next.panics, s) = ⊥

  module _ (Fits : WsMessage → Type 0) where
    pub after_session_start-Goes :
        (before : List Bytes) (r : Option TrackerSession × Socket S)
        → Adds wire Fits before r.1
        → Goes Fits before (after_session_start endpoint user_id r)
    after_session_start-Goes before (session, s) h = h

    pub after_batch-Goes :
        (session : TrackerSession) (before : List Bytes) (request_id : String)
        (fits_error : (raw : Bytes)
          → Fits (record { msg_type = error_type; request_id = request_id; payload = raw }))
        (fits_ack : (raw : Bytes)
          → Fits (record { msg_type = location_batch_ack; request_id = request_id; payload = raw }))
        (r : Bool × Socket S)
        → Stays Fits request_id fits_error fits_ack before r
        → Goes Fits before (after_batch endpoint user_id session r)
    after_batch-Goes session before request_id fits_error fits_ack (true, s) h = absurd h
    after_batch-Goes session before request_id fits_error fits_ack (false, s) h = h

    after_pong-Goes :
        (session : Option TrackerSession) (before : List Bytes)
        (r : Result Failure (Unit {0}) × Socket S)
        → Sent wire Fits before r
        → Goes Fits before (after_pong endpoint user_id session r)
    after_pong-Goes session before (err e, s) h = absurd h
    after_pong-Goes session before (ok u, s) h = h

    pub answer_ping-Goes :
        (session : Option TrackerSession) (m : WsMessage) (text : Option Bytes) (s : Socket S)
        → s.refusals ≡ []
        → Fits m
        → wire.write_message m ≡ text
        → is_some text ≡ true
        → Goes Fits s.written (answer_ping endpoint user_id session text s)
    answer_ping-Goes session m none s calm fits e h = cc
    answer_ping-Goes session m (some text) s calm fits e h =
        after_pong-Goes session s.written _ (write_text-Sent wire Fits m text s calm fits e)
