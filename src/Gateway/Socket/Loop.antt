-- ===== src/Gateway/Socket/Loop.antt =====
-- `readLoop` and `ServeHTTP`:
-- services/tracking-gateway/internal/transport/http/websocket_handler.go. The deadlines and the pings
-- of the connection are left out.
use wrany.Prelude.{
  Bool, true, false, Option, none, some, List, [], ◌∷◌, Uuid, Result, ok, err, str_eq, concat,
  if◌then◌else◌,
}
use wrany.Float64.{Float64}
use wrany.Action.{Failure}
use wrany.Events.Validation.{Bytes}
use wrany.Gateway.Event.{IngestionErrorCode, TrackerSession}
use wrany.Gateway.Socket.Protocol.{WsMessage, session_start, location_batch, ping, pong}
use wrany.Gateway.Socket.Connection.{Socket, write_text, send_ws_error}
use wrany.Gateway.Socket.Handler.{Endpoint, handle_session_start, handle_location_batch}

-- What the loop does next: it reads on with a session or without one, or it ends.
pub data Next : Type 0 where
  reads_on : Option TrackerSession → Next
  closes panics : Next

module _ {W : Type 0} {S : Type 0} ⦃f : Float64 W⦄ (endpoint : Endpoint W S) (user_id : Uuid) where
  open endpoint use {wire}

  abbrev pub after_session_start : Option TrackerSession × Socket S → Next × Socket S
  after_session_start (session, s) = (Next.reads_on session, s)

  abbrev pub after_batch : TrackerSession → Bool × Socket S → Next × Socket S
  after_batch session (true, s) = (Next.closes, s)
  after_batch session (false, s) = (Next.reads_on (some session), s)

  abbrev pub after_pong :
      Option TrackerSession → Result Failure (Unit {0}) × Socket S → Next × Socket S
  after_pong session (err e, s) = (Next.closes, s)
  after_pong session (ok u, s) = (Next.reads_on session, s)

  -- `mustMarshal` panics.
  abbrev pub answer_ping : Option TrackerSession → Option Bytes → Socket S → Next × Socket S
  answer_ping session none s = (Next.panics, s)
  answer_ping session (some text) s = after_pong session (write_text text s)

  abbrev pub take_batch : WsMessage → Option TrackerSession → Socket S → Next × Socket S
  take_batch msg none s = (
    Next.reads_on none,
    send_ws_error wire msg.request_id IngestionErrorCode.session_not_accepted
        "send session.start first" s,
  )
  take_batch msg (some session) s =
      after_batch session (handle_location_batch endpoint user_id msg session s)

  -- The switch on the type of a message.
  unfoldable pub dispatch : WsMessage → Option TrackerSession → Socket S → Next × Socket S
  dispatch msg session s =
      if str_eq msg.msg_type ping
      then answer_ping session
          (wire.write_message
            (record { msg_type = pong; request_id = msg.request_id; payload = [] }))
          s
      else if str_eq msg.msg_type session_start
      then after_session_start (handle_session_start endpoint user_id msg s)
      else if str_eq msg.msg_type location_batch
      then take_batch msg session s
      else (
        Next.reads_on session,
        send_ws_error wire msg.request_id IngestionErrorCode.validation_error
            (concat "unknown message type: " (wire.quoted msg.msg_type)) s,
      )

  abbrev pub take_message : Option WsMessage → Option TrackerSession → Socket S → Next × Socket S
  take_message none session s = (
    Next.reads_on session,
    send_ws_error wire "" IngestionErrorCode.validation_error "invalid JSON" s,
  )
  take_message (some msg) session s = dispatch msg session s

  abbrev pub go_on : (Option TrackerSession → Socket S → Socket S) → Next × Socket S → Socket S
  go_on rest (Next.reads_on session, s) = rest session s
  go_on rest (Next.closes, s) = s
  go_on rest (Next.panics, s) = s

  -- The frames end where `ReadMessage` fails.
  unfoldable pub read_loop : List Bytes → Option TrackerSession → Socket S → Socket S
  read_loop [] session s = s
  read_loop (raw ∷ frames) session s =
      go_on (read_loop frames) (take_message (wire.read_message raw) session s)

-- What the peer and the network do: whether the upgrade succeeds and the read deadline can be set, and
-- the frames that come.
pub record Peer : Type 0 where
  pub upgrades : Bool
  pub takes_deadline : Bool
  pub frames : List Bytes

pub data Served : Type 0 where
  unauthorized upgrade_failed closed : Served

module _ {W : Type 0} {S : Type 0} ⦃f : Float64 W⦄ (endpoint : Endpoint W S) where
  -- The user is the one of the request's context.
  unfoldable pub serve_http : Option Uuid → Peer → Socket S → Served × Socket S
  serve_http none peer s = (Served.unauthorized, s)
  serve_http (some user_id) peer s =
      if peer.upgrades
      then (
        Served.closed,
        if peer.takes_deadline then read_loop endpoint user_id peer.frames none s else s,
      )
      else (Served.upgrade_failed, s)
