-- ===== src/Events/Validation.antt =====
-- Field checks and the envelope: libs/events/validation.go, libs/events/envelope.go.

use wrany.Prelude.{
  ℕ, Option, none, some, String, List, [], ◌∷◌, ◌++◌, Time, str_eq, concat, ltb, ◌==◌, is_empty,
  Result, ok, err, ◌||◌, if◌then◌else◌,
}
use wrany.Float64.{Float64, nought}

-- The bytes of a `json.RawMessage`.
abbrev pub Bytes : Type 0
Bytes = List ℕ

pub data EventError : Type 0 where
  validation : List String → EventError
  marshal : String → EventError

-- `none` is the nil error.
unfoldable pub new_validation_error : List String → Option EventError
new_validation_error [] = none
new_validation_error (i ∷ is) = some (EventError.validation (i ∷ is))

unfoldable pub require_non_empty : List String → String → String → List String
require_non_empty issues field value =
    if str_eq value "" then issues ++ concat field " is required" ∷ [] else issues

unfoldable pub require_non_zero_time : List String → String → Time → List String
require_non_zero_time issues field t =
    if t == 0 then issues ++ concat field " is required" ∷ [] else issues

module _ {W : Type 0} ⦃f : Float64 W⦄ where
  open f use {lt, show}

  unfoldable pub require_range : List String → String → W → W → W → List String
  require_range issues field value min max =
      if lt value min || lt max value
      then issues
        ++ concat field (
            concat " must be within ["
              (concat (show min) (concat ", " (concat (show max) (concat "], got " (show value))))))
          ∷ []
      else issues

  unfoldable pub require_non_negative : List String → String → W → List String
  require_non_negative issues field value =
      if lt value nought
      then issues ++ concat field (concat " must be >= 0, got " (show value)) ∷ []
      else issues

pub record Envelope : Type 0 where
  pub event_id : String
  pub event_type : String
  pub event_version : ℕ
  pub occurred_at : Time
  pub produced_at : Time
  pub producer : String
  pub correlation_id : String
  pub payload : Bytes

pub record EnvelopeParams : Type 0 where
  pub event_id : String
  pub event_type : String
  pub event_version : ℕ
  pub occurred_at : Time
  pub produced_at : Time
  pub producer : String
  pub correlation_id : String

-- The issues that `Envelope.Validate` collects, in order.
unfoldable pub envelope_issues : Envelope → List String
envelope_issues e =
    (if str_eq e.event_id "" then "event_id is required" ∷ [] else [])
    ++ (if str_eq e.event_type "" then "event_type is required" ∷ [] else [])
    ++ (if ltb e.event_version 1 then "event_version must be >= 1" ∷ [] else [])
    ++ (if e.occurred_at == 0 then "occurred_at is required" ∷ [] else [])
    ++ (if e.produced_at == 0 then "produced_at is required" ∷ [] else [])
    ++ (if str_eq e.producer "" then "producer is required" ∷ [] else [])
    ++ (if is_empty e.payload then "payload is required" ∷ [] else [])

unfoldable pub validate_envelope : Envelope → Option EventError
unfolding envelope_issues new_validation_error
validate_envelope e = new_validation_error (envelope_issues e)

-- `marshalled` is what `json.Marshal` answers for the payload; `none` is its error.
unfoldable pub new_envelope : EnvelopeParams → Option Bytes → Result EventError Envelope
unfolding validate_envelope
new_envelope params none = err (EventError.marshal params.event_type)
new_envelope params (some raw) =
    let env : Envelope = record {
      event_id = params.event_id;
      event_type = params.event_type;
      event_version = params.event_version;
      occurred_at = params.occurred_at;
      produced_at = params.produced_at;
      producer = params.producer;
      correlation_id = params.correlation_id;
      payload = raw;
    } in
    elim (validate_envelope env) [ none ↦ ok env | some e ↦ err e ]
