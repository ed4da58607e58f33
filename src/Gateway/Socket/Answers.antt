-- ===== src/Gateway/Socket/Answers.antt =====
-- That each frame of a connection is answered: `readLoop`,
-- services/tracking-gateway/internal/transport/http/websocket_handler.go.
use wrany.Prelude.{
  ◌≡◌, refl, ◌⊎◌, true, Option, none, some, is_some, String, List, [], ◌∷◌, ◌++◌, Result, ok, err,
  str_eq, if◌then◌else◌, if-elim,
}
use wrany.Action.{Failure, first_of}
use wrany.Events.Validation.{Bytes}
use wrany.Gateway.Event.{IngestionErrorCode, code_text}
use wrany.Gateway.Socket.Protocol.{
  WsMessage, SessionAcceptedPayload, LocationBatchAckPayload, ErrorPayload, Wire, ping, pong,
  session_start, session_accepted, location_batch_ack, error_type,
}
use wrany.Gateway.Socket.Connection.{
  Socket, write_text, write_encoded, encode_message, send_ws_message, send_ws_error,
}

-- `json.Marshal` succeeds on the messages of the protocol.
pub record Encodes {W : Type 0} (wire : Wire W) : Type 0 where
  pub messages : (m : WsMessage) → is_some (wire.write_message m) ≡ true
  pub accepted : (p : SessionAcceptedPayload) → is_some (wire.write_session_accepted p) ≡ true
  pub acks : (p : LocationBatchAckPayload) → is_some (wire.write_ack p) ≡ true
  pub errors : (p : ErrorPayload) → is_some (wire.write_error p) ≡ true

abbrev pub reply_type : String → String
reply_type asked =
    if str_eq asked ping
    then pong
    else if str_eq asked session_start
    then session_accepted
    else location_batch_ack

-- A reply has the request's id, and the type that belongs to the request, or that of an error.
abbrev pub IsReplyTo : WsMessage → WsMessage → Type 0
IsReplyTo asked m =
    (m.request_id ≡ asked.request_id)
    × ((m.msg_type ≡ error_type) ⊎ (m.msg_type ≡ reply_type asked.msg_type))

-- The reply to a frame; one that is no JSON is answered by an error without an id.
abbrev pub Replies : Option WsMessage → WsMessage → Type 0
Replies none m = (m.request_id ≡ "") × (m.msg_type ≡ error_type)
Replies (some asked) m = IsReplyTo asked m

module _ {W : Type 0} {S : Type 0} (wire : Wire W) (Fits : WsMessage → Type 0) where
  -- One message was written behind those before, and the next writes do not fail either.
  pub record Adds (before : List Bytes) (s : Socket S) : Type 0 where
    pub calm : s.refusals ≡ []
    pub reply : WsMessage
    pub text : Bytes
    pub encoded : wire.write_message reply ≡ some text
    pub fits : Fits reply
    pub grown : s.written ≡ before ++ text ∷ []

  abbrev pub Sent : List Bytes → Result Failure (Unit {0}) × Socket S → Type 0
  Sent before (err e, s) = ⊥
  Sent before (ok u, s) = Adds before s

  pub write_text-Sent :
      (m : WsMessage) (text : Bytes) (s : Socket S)
      → s.refusals ≡ []
      → Fits m
      → wire.write_message m ≡ some text
      → Sent s.written (write_text text s)
  unfolding write_text
  write_text-Sent m text s calm fits e =
      if-elim (Sent s.written) (first_of s.refusals) _ _ (λ h. cc)
        (λ _. record {
          calm = rw calm;
          reply = m;
          text = text;
          encoded = e;
          fits = fits;
          grown = refl;
        })

  pub write_encoded-Sent :
      (m : WsMessage) (text : Option Bytes) (s : Socket S)
      → s.refusals ≡ []
      → Fits m
      → wire.write_message m ≡ text
      → is_some text ≡ true
      → Sent s.written (write_encoded text s)
  write_encoded-Sent m none s calm fits e h = cc
  write_encoded-Sent m (some text) s calm fits e h = write_text-Sent m text s calm fits e

  encoded-Sent :
      (encodes : Encodes wire) (msg_type request_id : String) (payload : Option Bytes)
      (s : Socket S)
      → s.refusals ≡ []
      → is_some payload ≡ true
      → ((raw : Bytes)
          → Fits (record { msg_type = msg_type; request_id = request_id; payload = raw }))
      → Sent s.written (write_encoded (encode_message wire msg_type request_id payload) s)
  encoded-Sent encodes msg_type request_id none s calm h fits = cc
  encoded-Sent encodes msg_type request_id (some raw) s calm h fits =
      let m : WsMessage = record { msg_type = msg_type; request_id = request_id; payload = raw } in
      write_encoded-Sent m (wire.write_message m) s calm (fits raw) refl (encodes.messages m)

  pub send_ws_message-Sent :
      (encodes : Encodes wire) (msg_type request_id : String) (payload : Option Bytes)
      (s : Socket S)
      → s.refusals ≡ []
      → is_some payload ≡ true
      → ((raw : Bytes)
          → Fits (record { msg_type = msg_type; request_id = request_id; payload = raw }))
      → Sent s.written (send_ws_message wire msg_type request_id payload s)
  unfolding send_ws_message
  send_ws_message-Sent encodes msg_type request_id payload s calm h fits =
      encoded-Sent encodes msg_type request_id payload s calm h fits

  Sent-Adds :
      (before : List Bytes) (r : Result Failure (Unit {0}) × Socket S)
      → Sent before r
      → Adds before r.1
  Sent-Adds before (err e, s) h = absurd h
  Sent-Adds before (ok u, s) h = h

  pub send_ws_error-Adds :
      (encodes : Encodes wire) (request_id : String) (code : IngestionErrorCode) (message : String)
      (s : Socket S)
      → s.refusals ≡ []
      → ((raw : Bytes)
          → Fits (record { msg_type = error_type; request_id = request_id; payload = raw }))
      → Adds s.written (send_ws_error wire request_id code message s)
  unfolding send_ws_error
  send_ws_error-Adds encodes request_id code message s calm fits = Sent-Adds s.written _ (
      encoded-Sent encodes error_type request_id _ s calm
        (encodes.errors (record { code = code_text code; message = message })) fits)
