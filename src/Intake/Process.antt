-- ===== src/Intake/Process.antt =====
-- `Process`, `deadLetter` and `mapPayloadToPoint`:
-- services/tracking-worker/internal/usecase/location_event_processor.go, with `Insert` of
-- services/tracking-worker/internal/storage/postgres/raw_location_repo.go. The decoders of JSON and
-- of uuids are parameters.
use wrany.Prelude.{
  Bool, true, ◌&&◌, read_or, Option, none, some, String, List, [], ◌∷◌, ◌++◌, Time, Uuid, Result,
  ok, err, str_eq, concat, if◌then◌else◌,
}
use wrany.Float64.{Float64}
use wrany.Domain.Point.{RawLocationPoint}
use wrany.Events.Subject
use wrany.Events.Validation.{Bytes, Envelope, EventError, validate_envelope}
use wrany.Events.Payloads.{LocationPayload, DeadLetterPayload, validate_location}
use wrany.Events.Build.{Marshaller, EventHead, new_dead_letter_event}
use wrany.Store.Tables.{same_key, raw_key, insert_new}

-- What the transport does with the message.
pub data Action : Type 0 where
  ack nak : Action

-- What the processor is built with and calls: `json.Unmarshal`, `DecodePayload`, `json.Valid`, the
-- JSON string of some bytes, `uuid.Parse`, the texts of errors and of a quoted text, and its names.
pub record Codec (W : Type 0) : Type 0 where
  pub decode_envelope : Bytes → Result String Envelope
  pub decode_payload : Envelope → Result String (LocationPayload W)
  pub is_valid_json : Bytes → Bool
  pub as_json_string : Bytes → Bytes
  pub parse_uuid : String → Result String Uuid
  pub error_text : EventError → String
  pub quoted : String → String
  pub json : Marshaller W
  pub producer : String
  pub consumer_name : String

-- The table of raw points, whether it can be written, and the broker: which events it takes, and the
-- messages that it has.
pub record Site (W : Type 0) : Type 0 where
  pub up : Bool
  pub raw_location_points : List (RawLocationPoint W)
  pub takes : Envelope → Bool
  pub sent : List (String × Envelope)

abbrev pub same_point : {W : Type 0} → RawLocationPoint W → RawLocationPoint W → Bool
same_point p q = same_key (raw_key p) (raw_key q)

module _ {W : Type 0} ⦃f : Float64 W⦄ where
  open f use {of_ℕ, neg, le}

  abbrev pub is_between : W → W → W → Bool
  is_between low high x = le low x && le x high

  -- The CHECK constraints of the table; a column that is NULL passes.
  abbrev pub passes_checks : RawLocationPoint W → Bool
  passes_checks p =
      is_between (neg (of_ℕ 90)) (of_ℕ 90) p.lat
      && is_between (neg (of_ℕ 180)) (of_ℕ 180) p.lon
      && le (of_ℕ 0) p.accuracy_m
      && read_or p.speed_mps true (λ x. le (of_ℕ 0) x)
      && read_or p.bearing_deg true (λ x. is_between (of_ℕ 0) (of_ℕ 360) x)
      && read_or p.activity_confidence true (λ x. is_between (of_ℕ 0) (of_ℕ 1) x)
      && read_or p.battery_level true (λ x. is_between (of_ℕ 0) (of_ℕ 1) x)

  -- `none` is an error; the checks come before the conflict with a row.
  unfoldable pub insert : RawLocationPoint W → Site W → Option (Site W)
  insert p site =
      if site.up && passes_checks p
      then some
          (record site { raw_location_points = insert_new same_point p site.raw_location_points })
      else none

module _ {W : Type 0} where
  unfoldable pub publish : String → Envelope → Site W → Option (Site W)
  publish subject e site =
      if site.takes e then some (record site { sent = site.sent ++ (subject, e) ∷ [] }) else none

  -- Both calls end in ACK, or in NAK with nothing changed.
  abbrev pub answer : Site W → Option (Site W) → Action × Site W
  answer site none = (Action.nak, site)
  answer site (some next) = (Action.ack, next)

  unfoldable pub point_of : Envelope → LocationPayload W → Uuid → Uuid → RawLocationPoint W
  point_of env p user device = record {
    user_id = user;
    device_id = device;
    event_id = env.event_id;
    recorded_at = p.recorded_at;
    received_at = p.received_at;
    lat = p.lat;
    lon = p.lon;
    accuracy_m = p.accuracy_m;
    speed_mps = some p.speed_mps;
    bearing_deg = some p.bearing_deg;
    activity_type = p.activity_type;
    activity_confidence = some p.activity_confidence;
    battery_level = some p.battery_level;
    source = p.source;
  }

module _ {W : Type 0} (codec : Codec W) where
  open codec use {parse_uuid, quoted}

  abbrev pub invalid_field : String → String → String → String
  invalid_field field value e =
      concat "invalid " (concat field (concat " " (concat (quoted value) (concat ": " e))))

  unfoldable pub map_payload_to_point :
      Envelope → LocationPayload W → Result String (RawLocationPoint W)
  map_payload_to_point env p = elim (parse_uuid p.user_id) [
    | err e ↦ err (invalid_field "user_id" p.user_id e)
    | ok user ↦ elim (parse_uuid p.device_id) [
      | err e ↦ err (invalid_field "device_id" p.device_id e)
      | ok device ↦ ok (point_of env p user device)
    ]
  ]

module _ {W : Type 0} ⦃f : Float64 W⦄ (codec : Codec W) where
  open codec use {
    decode_envelope, decode_payload, is_valid_json, as_json_string, error_text, quoted, json,
    producer, consumer_name,
  }

  abbrev pub dead_letter_payload : Time → Bytes → String → DeadLetterPayload
  dead_letter_payload now bytes reason = record {
    original_subject = Subject.location_events;
    original_event = if is_valid_json bytes then bytes else as_json_string bytes;
    error = reason;
    failed_at = now;
    consumer = consumer_name;
  }

  -- `id` is the text of the fresh uuid.
  unfoldable pub dead_letter : String → Time → Bytes → String → String → Site W → Action × Site W
  dead_letter id now bytes correlation_id reason site =
      let head : EventHead = record {
        event_id = id;
        produced_at = now;
        producer = producer;
        correlation_id = correlation_id;
      } in
      elim (new_dead_letter_event json head (dead_letter_payload now bytes reason)) [
        | err e ↦ (Action.nak, site)
        | ok event ↦ answer site (publish Subject.dead_letter event site)
      ]

  -- The five checks, in order: either the point or the reason of the dead letter.
  unfoldable pub check_payload : Envelope → LocationPayload W → Result String (RawLocationPoint W)
  unfolding map_payload_to_point
  check_payload env p = elim (validate_location p) [
    | some e ↦ err (concat "invalid location payload: " (error_text e))
    | none ↦ elim (map_payload_to_point codec env p) [
      | err e ↦ err (concat "map payload: " e)
      | ok point ↦ ok point
    ]
  ]

  unfoldable pub check_envelope : Envelope → Result String (RawLocationPoint W)
  check_envelope env = elim (validate_envelope env) [
    | some e ↦ err (concat "invalid envelope: " (error_text e))
    | none ↦
        if str_eq env.event_type Subject.location_events
        then elim (decode_payload env) [
          | err e ↦ err (concat "cannot decode location payload: " e)
          | ok p ↦ check_payload env p
        ]
        else err (concat "unsupported event_type: " (quoted env.event_type))
  ]

  unfoldable pub settle_checked :
      String → Time → Bytes → String → Result String (RawLocationPoint W) → Site W → Action × Site W
  settle_checked id now bytes correlation_id (err reason) site =
      dead_letter id now bytes correlation_id reason site
  settle_checked id now bytes correlation_id (ok point) site = answer site (insert point site)

  unfoldable pub process : String → Time → Bytes → Site W → Action × Site W
  process id now bytes site = elim (decode_envelope bytes) [
    | err e ↦ dead_letter id now bytes "" (concat "invalid JSON: " e) site
    | ok env ↦ settle_checked id now bytes env.correlation_id (check_envelope env) site
  ]
