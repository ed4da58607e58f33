-- ===== src/Gateway/Socket/Connection.antt =====
-- Writing to a connection, `sendWSError` and `sendWSMessage`:
-- services/tracking-gateway/internal/transport/http/websocket_errors.go.
use wrany.Prelude.{
  ℕ, Bool, Option, none, some, String, List, [], ◌∷◌, ◌++◌, ok, err, if◌then◌else◌, ◌>>=◌,
}
use wrany.Action.{Action, Failure, first_of, behind_first}
use wrany.Events.Validation.{Bytes}
use wrany.Gateway.Event.{IngestionErrorCode, code_text}
use wrany.Gateway.Socket.Protocol.{Wire, error_type}

-- A connection beside the services: the readings of the clock and the uuids so far, which of the next
-- writes fail, and the text messages that were written.
pub record Socket (S : Type 0) : Type 0 where
  pub store : S
  pub readings : ℕ
  pub issued : ℕ
  pub refusals : List Bool
  pub written : List Bytes

module _ {W : Type 0} (wire : Wire W) where
  abbrev pub encode_message : String → String → Option Bytes → Option Bytes
  encode_message msg_type request_id payload = payload >>= λ raw.
      wire.write_message (record { msg_type = msg_type; request_id = request_id; payload = raw })

module _ {S : Type 0} where
  -- `WriteMessage` with a text message.
  unfoldable pub write_text : Bytes → Action Failure (Socket S) (Unit {0})
  write_text text s =
      if first_of s.refusals then (err tt, record s { refusals = behind_first s.refusals }) else (
        ok tt,
        record s { refusals = behind_first s.refusals; written = s.written ++ text ∷ [] },
      )

  -- `if err != nil { return err }` behind `json.Marshal`.
  abbrev pub write_encoded : Option Bytes → Action Failure (Socket S) (Unit {0})
  write_encoded none s = (err tt, s)
  write_encoded (some text) s = write_text text s

module _ {W : Type 0} {S : Type 0} (wire : Wire W) where
  unfoldable pub send_ws_message :
      String → String → Option Bytes → Action Failure (Socket S) (Unit {0})
  send_ws_message msg_type request_id payload =
      write_encoded (encode_message wire msg_type request_id payload)

  -- Every error is logged only.
  unfoldable pub send_ws_error : String → IngestionErrorCode → String → Socket S → Socket S
  send_ws_error request_id code message s =
      (write_encoded
        (encode_message wire error_type request_id
          (wire.write_error (record { code = code_text code; message = message })))
        s).1
