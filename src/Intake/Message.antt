-- ===== src/Intake/Message.antt =====
-- The point that a message carries: the checks of `Process` and `mapPayloadToPoint`,
-- services/tracking-worker/internal/usecase/location_event_processor.go.
use wrany.Prelude.{
  ◌≡◌, refl, true, Option, none, some, String, Result, ok, err, str_eq, IfOk, IfOk-ok, if-elim,
}
use wrany.Float64.{Float64}
use wrany.Domain.Point.{RawLocationPoint}
use wrany.Events.Subject
use wrany.Events.Validation.{Bytes, Envelope, validate_envelope}
use wrany.Events.Payloads.{LocationPayload, validate_location}
use wrany.Intake.Process.{Codec, point_of, map_payload_to_point, check_payload, check_envelope}

-- The bytes are the JSON of a valid envelope of a location event whose payload is valid and reads as
-- the point, column by column.
pub record IsPointOf {W : Type 0} ⦃f : Float64 W⦄ (codec : Codec W) (bytes : Bytes)
    (p : RawLocationPoint W) : Type 0 where
  pub env : Envelope
  pub payload : LocationPayload W
  pub decoded : codec.decode_envelope bytes ≡ ok env
  pub valid_envelope : validate_envelope env ≡ none
  pub typed : str_eq env.event_type "location.events.v1" ≡ true
  pub read : codec.decode_payload env ≡ ok payload
  pub valid_payload : validate_location payload ≡ none
  pub user : codec.parse_uuid payload.user_id ≡ ok p.user_id
  pub device : codec.parse_uuid payload.device_id ≡ ok p.device_id
  pub event_id : p.event_id ≡ env.event_id
  pub recorded_at : p.recorded_at ≡ payload.recorded_at
  pub received_at : p.received_at ≡ payload.received_at
  pub lat : p.lat ≡ payload.lat
  pub lon : p.lon ≡ payload.lon
  pub accuracy_m : p.accuracy_m ≡ payload.accuracy_m
  pub speed_mps : p.speed_mps ≡ some payload.speed_mps
  pub bearing_deg : p.bearing_deg ≡ some payload.bearing_deg
  pub activity_type : p.activity_type ≡ payload.activity_type
  pub activity_confidence : p.activity_confidence ≡ some payload.activity_confidence
  pub battery_level : p.battery_level ≡ some payload.battery_level
  pub source : p.source ≡ payload.source

module _ {A : Type 0} (P : A → Type 0) where
  -- A check that may give a reason, and a decoder that may fail.
  after_check :
      {E : Type 0} (check : Option E) (reason : E → String) (m : Result String A)
      → (check ≡ none → IfOk P m)
      → IfOk P (elim check [ some e ↦ err (reason e) | none ↦ m ])
  after_check none reason m h = h refl
  after_check (some e) reason m h = tt

  after_decode :
      {B : Type 0} (r : Result String B) (reason : String → String) (k : B → Result String A)
      → ((b : B) → r ≡ ok b → IfOk P (k b))
      → IfOk P (elim r [ err e ↦ err (reason e) | ok b ↦ k b ])
  after_decode (ok b) reason k h = h b refl
  after_decode (err e) reason k h = tt

module _ {W : Type 0} ⦃f : Float64 W⦄ (codec : Codec W) (bytes : Bytes) where
  mapped :
      (env : Envelope) (payload : LocationPayload W)
      → codec.decode_envelope bytes ≡ ok env
      → validate_envelope env ≡ none
      → str_eq env.event_type Subject.location_events ≡ true
      → codec.decode_payload env ≡ ok payload
      → validate_location payload ≡ none
      → IfOk (IsPointOf codec bytes) (map_payload_to_point codec env payload)
  unfolding map_payload_to_point point_of
  mapped env payload decoded valid_envelope typed read valid_payload =
      let P = IsPointOf codec bytes in
      after_decode P (codec.parse_uuid payload.user_id) _ _ λ user_id user.
        after_decode P (codec.parse_uuid payload.device_id) _ _ λ device_id device. record {
          env = env;
          payload = payload;
          decoded = decoded;
          valid_envelope = valid_envelope;
          typed = typed;
          read = read;
          valid_payload = valid_payload;
          user = user;
          device = device;
          event_id = refl;
          recorded_at = refl;
          received_at = refl;
          lat = refl;
          lon = refl;
          accuracy_m = refl;
          speed_mps = refl;
          bearing_deg = refl;
          activity_type = refl;
          activity_confidence = refl;
          battery_level = refl;
          source = refl;
        }

  -- What is accepted is the point of the message.
  pub check_envelope-IsPointOf :
      (env : Envelope)
      → codec.decode_envelope bytes ≡ ok env
      → IfOk (IsPointOf codec bytes) (check_envelope codec env)
  unfolding check_envelope check_payload
  check_envelope-IsPointOf env decoded =
      let P = IsPointOf codec bytes in
      after_check P (validate_envelope env) _ _ λ valid_envelope.
        if-elim (IfOk P) (str_eq env.event_type Subject.location_events) _ _
          (λ typed. after_decode P (codec.decode_payload env) _ _ λ payload read.
            after_check P (validate_location payload) _ _ λ valid_payload.
              after_decode P (map_payload_to_point codec env payload) _ _ λ p e.
                IfOk-ok P (map_payload_to_point codec env payload) p
                  (mapped env payload decoded valid_envelope typed read valid_payload) e)
          (λ _. tt)

  -- The point of a message is accepted.
  pub check_envelope-ok :
      (p : RawLocationPoint W) (point : IsPointOf codec bytes p)
      → check_envelope codec point.env ≡ ok p
  unfolding check_envelope check_payload map_payload_to_point point_of
  check_envelope-ok p point =
      let last : ok (point_of point.env point.payload p.user_id p.device_id) ≡ ok p =
        rw⁻¹
          (
            point.event_id, point.recorded_at, point.received_at, point.lat, point.lon,
            point.accuracy_m, point.speed_mps, point.bearing_deg, point.activity_type,
            point.activity_confidence, point.battery_level, point.source,
          )
          refl in
      rw
        (
          point.valid_envelope, point.typed, point.read, point.valid_payload, point.user,
          point.device, check_envelope, check_payload, map_payload_to_point,
        )
        last
