-- ===== src/Account/Http.antt =====
-- The authentication of requests and the handlers of accounts and devices:
-- services/tracking-gateway/internal/transport/http/middleware.go, auth_handler.go, me_handler.go,
-- device_handler.go and response.go. Logs are left out.
use Prim.Native.Char.{code}
use wrany.Prelude.{
  Option, none, some, String, List, Time, Uuid, Result, ok, err, ℕ, str_eq, ◌==◌, if◌then◌else◌,
}
use wrany.Account.Tables.{User, Device, AccountError, Call}
use wrany.Account.Auth.{
  UserRepository, RefreshTokenRepository, Claims, TokenPair, AuthSetup, AuthWork, register, login,
  refresh, get_me,
}
use wrany.Account.Registration.{DeviceRepository, register_device, list_devices}

-- `strings.CutPrefix`
abbrev pub cut_prefix : String → String → Option String
cut_prefix s String.[] = some s
cut_prefix String.[] (String.◌∷◌ c prefix) = none
cut_prefix (String.◌∷◌ d s) (String.◌∷◌ c prefix) =
    let rest = cut_prefix s prefix in if code d == code c then rest else none

-- The headers and the query that the middleware reads; an absent one is the empty text.
pub record Request : Type 0 where
  pub authorization : String
  pub query_access_token : String

-- What a handler writes: the status, and the value or the message of the envelope.
pub data Body : Type 0 where
  pair_body : TokenPair → Body
  me_body : Uuid → String → Time → Body
  device_body : Device → Body
  devices_body : List Device → Body
  message : String → Body

pub record Response : Type 0 where
  pub status : ℕ
  pub body : Body

abbrev pub write_json : ℕ → Body → Response
write_json status body = record { status = status; body = body }

abbrev pub write_error : ℕ → String → Response
write_error status text = record { status = status; body = Body.message text }

-- `jwt.Parse` with the secret, an HMAC method and an expiration that is required and is not over at
-- the time, and `uuid.Parse`.
pub record Verifier : Type 0 where
  pub verified : Time → String → Option Claims
  pub parse_uuid : String → Option Uuid

abbrev pub token_or_empty : Option String → String
token_or_empty none = ""
token_or_empty (some raw) = raw

abbrev pub bearer_token : Request → String
bearer_token r = token_or_empty (cut_prefix r.authorization "Bearer ")

module _ (verifier : Verifier) where
  abbrev pub subject_of : Option Claims → Option Uuid
  subject_of none = none
  subject_of (some claims) = verifier.parse_uuid claims.sub

  unfoldable pub parse_jwt : Time → String → Option Uuid
  parse_jwt now raw = subject_of (verifier.verified now raw)

  -- The user of the request, or none, which is answered by 401.
  unfoldable pub authenticate : Time → String → Option Uuid
  authenticate now raw = if str_eq raw "" then none else parse_jwt now raw

  abbrev pub auth_middleware : Time → Request → Option Uuid
  auth_middleware now r = authenticate now (bearer_token r)

  -- The header goes before the query.
  abbrev pub ws_auth_middleware : Time → Request → Option Uuid
  ws_auth_middleware now r =
      authenticate now (if str_eq (bearer_token r) "" then r.query_access_token else bearer_token r)

abbrev pub unauthorized : Response
unauthorized = write_error 401 "unauthorized"

abbrev pub guarded : {S : Type 0} → Option Uuid → (Uuid → S → Response × S) → S → Response × S
guarded none handler s = (unauthorized, s)
guarded (some user_id) handler s = handler user_id s

abbrev pub register_answer : Result AccountError TokenPair → Response
register_answer (ok pair) = write_json 201 (Body.pair_body pair)
register_answer (err AccountError.err_email_taken) =
    write_error 409 "unable to register with provided credentials"
register_answer (err AccountError.err_validation) = write_error 422 "invalid email or password"
register_answer (err e) = write_error 500 "internal error"

abbrev pub pair_or : String → Result AccountError TokenPair → Response
pair_or text (ok pair) = write_json 200 (Body.pair_body pair)
pair_or text (err e) = write_error 401 text

abbrev pub me_answer : Result AccountError User → Response
me_answer (ok user) = write_json 200 (Body.me_body user.id user.email user.created_at)
me_answer (err e) = write_error 500 "internal error"

abbrev pub device_answer : Result AccountError Device → Response
device_answer (ok device) = write_json 201 (Body.device_body device)
device_answer (err e) = write_error 500 "internal error"

abbrev pub devices_answer : Result AccountError (List Device) → Response
devices_answer (ok devices) = write_json 200 (Body.devices_body devices)
devices_answer (err e) = write_error 500 "internal error"

-- The response is made of the answer of the use case.
abbrev pub respond :
    {S A : Type 0} → (Result AccountError A → Response) → Call S A → S → Response × S
respond answer call s = let r = call s in (answer r.0, r.1)

abbrev pub bad_request : Response
bad_request = write_error 400 "invalid request body"

pub record Credentials : Type 0 where
  pub email : String
  pub password : String

pub record RegisterDeviceReq : Type 0 where
  pub device_id : String
  pub name : Option String
  pub platform : Option String

-- The body of a request is none where it does not decode.
module _ {S : Type 0} (users : UserRepository S) (tokens : RefreshTokenRepository S)
    (set : AuthSetup) where
  unfoldable pub handle_register : Option Credentials → AuthWork S → Response × AuthWork S
  handle_register none work = (bad_request, work)
  handle_register (some body) work =
      respond register_answer (register users tokens set body.email body.password) work

  unfoldable pub handle_login : Option Credentials → AuthWork S → Response × AuthWork S
  handle_login none work = (bad_request, work)
  handle_login (some body) work =
      respond (pair_or "invalid credentials") (login users tokens set body.email body.password) work

  unfoldable pub handle_refresh : Option String → AuthWork S → Response × AuthWork S
  handle_refresh none work = (bad_request, work)
  handle_refresh (some refresh_token) work =
      respond (pair_or "invalid or expired token") (refresh users tokens set refresh_token) work

  unfoldable pub handle_get_me : Option Uuid → AuthWork S → Response × AuthWork S
  handle_get_me user = guarded user λ user_id. respond me_answer (get_me users tokens set user_id)

module _ {S : Type 0} (devices : DeviceRepository S) (set : AuthSetup) (verifier : Verifier) where
  abbrev pub register_for :
      Uuid → RegisterDeviceReq → Option Uuid → AuthWork S → Response × AuthWork S
  register_for user_id body none work = (write_error 422 "device_id must be a valid UUID", work)
  register_for user_id body (some device_id) work =
      respond device_answer
        (register_device devices set (record {
          user_id = user_id;
          device_id = device_id;
          name = body.name;
          platform = body.platform;
        }))
        work

  abbrev pub register_body : Uuid → Option RegisterDeviceReq → AuthWork S → Response × AuthWork S
  register_body user_id none work = (bad_request, work)
  register_body user_id (some body) work =
      register_for user_id body (verifier.parse_uuid body.device_id) work

  unfoldable pub handle_register_device :
      Option Uuid → Option RegisterDeviceReq → AuthWork S → Response × AuthWork S
  handle_register_device user body = guarded user λ user_id. register_body user_id body

  unfoldable pub handle_list_devices : Option Uuid → AuthWork S → Response × AuthWork S
  handle_list_devices user =
      guarded user λ user_id. respond devices_answer (list_devices devices set user_id)
