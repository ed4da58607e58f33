-- ===== src/Gateway/Socket/Invariant.antt =====
-- Conditions on the services that a connection keeps: `readLoop`,
-- services/tracking-gateway/internal/transport/http/websocket_handler.go.
use wrany.Prelude.{
  Bool, true, false, Option, none, some, IfSome, String, List, [], ◌∷◌, Time, Uuid, Result, ok, err,
  IfOk, is_empty, str_eq, if-elim,
}
use wrany.Float64.{Float64}
use wrany.Action.{Failure, first_of}
use wrany.Events.Validation.{Bytes}
use wrany.Gateway.Event.{IngestionErrorCode, TrackerSession, LocationEvent, RejectedEvent}
use wrany.Gateway.Ingest.{BatchResult, IngestError, SessionError, start_session, ingest_batch}
use wrany.Gateway.Leaves.{Leaves}
use wrany.Gateway.Socket.Protocol.{
  WsMessage, SessionStartPayload, LocationBatchPayload, Wire, ping, session_start, location_batch,
}
use wrany.Gateway.Socket.Connection.{
  Socket, write_text, write_encoded, send_ws_message, send_ws_error,
}
use wrany.Gateway.Socket.Handler.{
  Endpoint, refuse, if_sent, accept_session, start_for, start_with, handle_session_start,
  stop_unless_sent, answer_batch, ingest_payload, handle_location_batch,
}
use wrany.Gateway.Socket.Loop.{
  Next, Peer, Served, after_session_start, after_batch, after_pong, answer_ping, take_batch,
  dispatch, take_message, go_on, read_loop, serve_http,
}

module _ {S : Type 0} (P : S → Type 0) where
  -- Writing leaves the services alone.
  pub write_text-keeps : (text : Bytes) (s : Socket S) → P s.store → P (write_text text s).1.store
  unfolding write_text
  write_text-keeps text s h =
      if-elim (λ (r : Result Failure (Unit {0}) × Socket S). P r.1.store) (first_of s.refusals) _ _
        (λ _. h) (λ _. h)

  pub write_encoded-keeps :
      (text : Option Bytes) (s : Socket S) → P s.store → P (write_encoded text s).1.store
  write_encoded-keeps none s h = h
  write_encoded-keeps (some text) s h = write_text-keeps text s h

module _ {W : Type 0} {S : Type 0} (wire : Wire W) (P : S → Type 0) where
  pub send_ws_message-keeps :
      (msg_type request_id : String) (payload : Option Bytes) (s : Socket S)
      → P s.store
      → P (send_ws_message wire msg_type request_id payload s).1.store
  unfolding send_ws_message
  send_ws_message-keeps msg_type request_id payload s h = write_encoded-keeps P _ s h

  pub send_ws_error-keeps :
      (request_id : String) (code : IngestionErrorCode) (message : String) (s : Socket S)
      → P s.store
      → P (send_ws_error wire request_id code message s).store
  unfolding send_ws_error
  send_ws_error-keeps request_id code message s h = write_encoded-keeps P _ s h

module _ {W : Type 0} {S : Type 0} ⦃f : Float64 W⦄ (endpoint : Endpoint W S) (user_id : Uuid)
    (P : S → Type 0) (R : TrackerSession → Type 0)
    (starts : (id device_id : Uuid) (now : Time) (s : S)
      → P s
      → IfOk R (start_session endpoint.services endpoint.settings id user_id device_id now s))
    (ingests : (session : TrackerSession) (now : Time) (events : List (LocationEvent W)) (s : S)
      → R session
      → P s
      → Leaves P (ingest_batch endpoint.services endpoint.settings session now events s)) where
  open endpoint use {wire, clock, services, settings}

  -- Of the session that is kept, and of the services.
  abbrev Held : Option TrackerSession × Socket S → Type 0
  Held (session, s) = IfSome R session × P s.store

  refuse-Held :
      (request_id : String) (code : IngestionErrorCode) (message : String) (s : Socket S)
      → P s.store
      → Held (refuse endpoint user_id request_id code message s)
  refuse-Held request_id code message s h =
      (tt, send_ws_error-keeps wire P request_id code message s h)

  if_sent-Held :
      (session : TrackerSession) (r : Result Failure (Unit {0}) × Socket S)
      → R session
      → P r.1.store
      → Held (if_sent endpoint user_id session r)
  if_sent-Held session (err e, s) k h = (tt, h)
  if_sent-Held session (ok u, s) k h = (k, h)

  accept_session-Held :
      (request_id : String) (answer : Result SessionError TrackerSession) (s : Socket S)
      → IfOk R answer
      → P s.store
      → Held (accept_session endpoint user_id request_id answer s)
  accept_session-Held request_id (err SessionError.err_device_not_found) s k h =
      refuse-Held request_id _ _ s h
  accept_session-Held request_id (err (SessionError.find_device_failed e)) s k h =
      refuse-Held request_id _ _ s h
  accept_session-Held request_id (ok session) s k h =
      if_sent-Held session _ k (send_ws_message-keeps wire P _ request_id _ _ h)

  start_for-Held :
      (request_id : String) (device : Option Uuid) (s : Socket S)
      → P s.store
      → Held (start_for endpoint user_id request_id device s)
  start_for-Held request_id none s h = refuse-Held request_id _ _ s h
  start_for-Held request_id (some device_id) s h =
      accept_session-Held request_id _ s
        (starts (endpoint.fresh s.issued) device_id (clock s.readings) s.store h) h

  start_with-Held :
      (request_id : String) (payload : Option SessionStartPayload) (s : Socket S)
      → P s.store
      → Held (start_with endpoint user_id request_id payload s)
  start_with-Held request_id none s h = refuse-Held request_id _ _ s h
  start_with-Held request_id (some payload) s h =
      start_for-Held request_id (wire.parse_uuid payload.device_id) s h

  handle_session_start-Held :
      (msg : WsMessage) (s : Socket S)
      → P s.store
      → Held (handle_session_start endpoint user_id msg s)
  unfolding handle_session_start
  handle_session_start-Held msg s h =
      start_with-Held msg.request_id (wire.read_session_start msg.payload) s h

  stop_unless_sent-keeps :
      (r : Result Failure (Unit {0}) × Socket S)
      → P r.1.store
      → P (stop_unless_sent endpoint user_id r).1.store
  stop_unless_sent-keeps (err e, s) h = h
  stop_unless_sent-keeps (ok u, s) h = h

  answer_batch-keeps :
      (request_id : String) (rejects : List RejectedEvent)
      (answer : Result (IngestError × S) (BatchResult × S)) (s : Socket S)
      → Leaves P answer
      → P (answer_batch endpoint user_id request_id rejects answer s).1.store
  answer_batch-keeps request_id rejects (err (e, store)) s h =
      send_ws_error-keeps wire P request_id _ _ _ h
  answer_batch-keeps request_id rejects (ok (r, store)) s h =
      stop_unless_sent-keeps _ (send_ws_message-keeps wire P _ request_id _ _ h)

  ingest_payload-keeps :
      (request_id : String) (session : TrackerSession) (payload : Option (LocationBatchPayload W))
      (s : Socket S)
      → R session
      → P s.store
      → P (ingest_payload endpoint user_id request_id session payload s).1.store
  ingest_payload-keeps request_id session none s k h = send_ws_error-keeps wire P request_id _ _ s h
  ingest_payload-keeps request_id session (some payload) s k h =
      if-elim (λ (r : Bool × Socket S). P r.1.store) (is_empty payload.events) _ _
        (λ _. send_ws_error-keeps wire P request_id _ _ s h)
        (λ _.
          answer_batch-keeps request_id _ _ s (ingests session (clock s.readings) _ s.store k h))

  handle_location_batch-keeps :
      (msg : WsMessage) (session : TrackerSession) (s : Socket S)
      → R session
      → P s.store
      → P (handle_location_batch endpoint user_id msg session s).1.store
  unfolding handle_location_batch
  handle_location_batch-keeps msg session s k h =
      ingest_payload-keeps msg.request_id session _ s k h

  -- The same of what the loop does next.
  abbrev HeldNext : Next × Socket S → Type 0
  HeldNext (Next.reads_on session, s) = Held (session, s)
  HeldNext (Next.closes, s) = P s.store
  HeldNext (Next.panics, s) = P s.store

  after_session_start-HeldNext :
      (r : Option TrackerSession × Socket S)
      → Held r
      → HeldNext (after_session_start endpoint user_id r)
  after_session_start-HeldNext (session, s) h = h

  after_batch-HeldNext :
      (session : TrackerSession) (r : Bool × Socket S)
      → R session
      → P r.1.store
      → HeldNext (after_batch endpoint user_id session r)
  after_batch-HeldNext session (true, s) k h = h
  after_batch-HeldNext session (false, s) k h = (k, h)

  after_pong-HeldNext :
      (session : Option TrackerSession) (r : Result Failure (Unit {0}) × Socket S)
      → IfSome R session
      → P r.1.store
      → HeldNext (after_pong endpoint user_id session r)
  after_pong-HeldNext session (err e, s) k h = h
  after_pong-HeldNext session (ok u, s) k h = (k, h)

  answer_ping-HeldNext :
      (session : Option TrackerSession) (text : Option Bytes) (s : Socket S)
      → IfSome R session
      → P s.store
      → HeldNext (answer_ping endpoint user_id session text s)
  answer_ping-HeldNext session none s k h = h
  answer_ping-HeldNext session (some text) s k h =
      after_pong-HeldNext session _ k (write_text-keeps P text s h)

  take_batch-HeldNext :
      (msg : WsMessage) (session : Option TrackerSession) (s : Socket S)
      → IfSome R session
      → P s.store
      → HeldNext (take_batch endpoint user_id msg session s)
  take_batch-HeldNext msg none s k h = (tt, send_ws_error-keeps wire P msg.request_id _ _ s h)
  take_batch-HeldNext msg (some session) s k h =
      after_batch-HeldNext session _ k (handle_location_batch-keeps msg session s k h)

  dispatch-HeldNext :
      (msg : WsMessage) (session : Option TrackerSession) (s : Socket S)
      → IfSome R session
      → P s.store
      → HeldNext (dispatch endpoint user_id msg session s)
  unfolding dispatch
  dispatch-HeldNext msg session s k h =
      if-elim HeldNext (str_eq msg.msg_type ping) _ _ (λ _. answer_ping-HeldNext session _ s k h)
        λ _.
          if-elim HeldNext (str_eq msg.msg_type session_start) _ _
            (λ _.
              after_session_start-HeldNext (handle_session_start endpoint user_id msg s)
                (handle_session_start-Held msg s h))
            λ _.
              if-elim HeldNext (str_eq msg.msg_type location_batch) _ _
                (λ _. take_batch-HeldNext msg session s k h)
                (λ _. (k, send_ws_error-keeps wire P msg.request_id _ _ s h))

  take_message-HeldNext :
      (msg : Option WsMessage) (session : Option TrackerSession) (s : Socket S)
      → IfSome R session
      → P s.store
      → HeldNext (take_message endpoint user_id msg session s)
  take_message-HeldNext none session s k h = (k, send_ws_error-keeps wire P "" _ _ s h)
  take_message-HeldNext (some msg) session s k h = dispatch-HeldNext msg session s k h

  go_on-keeps :
      (rest : Option TrackerSession → Socket S → Socket S) (r : Next × Socket S)
      → HeldNext r
      → ((session : Option TrackerSession) (s : Socket S)
          → IfSome R session
          → P s.store
          → P (rest session s).store)
      → P (go_on endpoint user_id rest r).store
  go_on-keeps rest (Next.reads_on session, s) (k, h) step = step session s k h
  go_on-keeps rest (Next.closes, s) h step = h
  go_on-keeps rest (Next.panics, s) h step = h

  read_loop-keeps :
      (frames : List Bytes) (session : Option TrackerSession) (s : Socket S)
      → IfSome R session
      → P s.store
      → P (read_loop endpoint user_id frames session s).store
  unfolding read_loop
  read_loop-keeps [] session s k h = h
  read_loop-keeps (raw ∷ frames) session s k h =
      go_on-keeps (read_loop endpoint user_id frames) _
        (take_message-HeldNext (wire.read_message raw) session s k h) (read_loop-keeps frames)

  -- If a session that starts has `R`, and a batch of a session with `R` keeps `P`, also where it ends
  -- in an error, then a connection keeps `P`.
  pub serve_http-keeps :
      (peer : Peer) (s : Socket S)
      → P s.store
      → P (serve_http endpoint (some user_id) peer s).1.store
  unfolding serve_http
  serve_http-keeps peer s h =
      if-elim (λ (r : Served × Socket S). P r.1.store) peer.upgrades _ _
        (λ _.
          if-elim (λ (t : Socket S). P t.store) peer.takes_deadline _ _
            (λ _. read_loop-keeps peer.frames none s tt h) (λ _. h))
        (λ _. h)
