-- ===== src/Events/Build.antt =====
-- The constructors of the six events: `NewEvent`, `NewStartedEvent`, `NewUpdatedEvent`,
-- `NewCompletedEvent`, `NewMatchedEvent` and the `NewEvent` of the dead letters, in the packages of
-- libs/events. The texts of `json.Marshal` are a parameter.
use wrany.Prelude.{Option, none, some, String, [], ◌∷◌, Time, str_eq, Result, err, if◌then◌else◌}
use wrany.Float64.{Float64}
use wrany.Events.Subject
use wrany.Events.Validation.{Bytes, EventError, Envelope, EnvelopeParams, new_envelope}
use wrany.Events.Payloads.{
  LocationPayload, StartedPayload, UpdatedPayload, CompletedPayload, MatchedPayload,
  DeadLetterPayload, validate_location, validate_started, validate_updated, validate_completed,
  validate_matched, validate_dead_letter,
}

-- What `json.Marshal` answers for each payload; `none` is its error.
pub record Marshaller (W : Type 0) : Type 0 where
  pub location : LocationPayload W → Option Bytes
  pub started : StartedPayload → Option Bytes
  pub updated : UpdatedPayload W → Option Bytes
  pub completed : CompletedPayload W → Option Bytes
  pub matched : MatchedPayload W → Option Bytes
  pub dead_letter : DeadLetterPayload → Option Bytes

-- The arguments that all constructors take.
pub record EventHead : Type 0 where
  pub event_id : String
  pub produced_at : Time
  pub producer : String
  pub correlation_id : String

abbrev pub params_of : EventHead → String → Time → EnvelopeParams
params_of h event_type occurred_at = record {
  event_id = h.event_id;
  event_type = event_type;
  event_version = 1;
  occurred_at = occurred_at;
  produced_at = h.produced_at;
  producer = h.producer;
  correlation_id = h.correlation_id;
}

-- `if err := p.Validate(); err != nil` before the envelope is built.
abbrev pub checked : Option EventError → Result EventError Envelope → Result EventError Envelope
checked none built = built
checked (some e) built = err e

module _ {W : Type 0} ⦃f : Float64 W⦄ (json : Marshaller W) where
  unfoldable pub new_location_event : EventHead → LocationPayload W → Result EventError Envelope
  new_location_event h p = checked (validate_location p) (
      if str_eq h.correlation_id ""
      then err (EventError.validation ("correlation_id is required for location events" ∷ []))
      else new_envelope (params_of h Subject.location_events p.recorded_at) (json.location p))

  unfoldable pub new_started_event : EventHead → StartedPayload → Result EventError Envelope
  new_started_event h p =
      checked (validate_started p)
        (new_envelope (params_of h Subject.trip_started p.started_at) (json.started p))

  unfoldable pub new_updated_event : EventHead → UpdatedPayload W → Result EventError Envelope
  new_updated_event h p =
      checked (validate_updated p)
        (new_envelope (params_of h Subject.trip_updated p.updated_at) (json.updated p))

  unfoldable pub new_completed_event : EventHead → CompletedPayload W → Result EventError Envelope
  new_completed_event h p =
      checked (validate_completed p)
        (new_envelope (params_of h Subject.trip_completed p.completed_at) (json.completed p))

  unfoldable pub new_matched_event : EventHead → MatchedPayload W → Result EventError Envelope
  new_matched_event h p =
      checked (validate_matched p)
        (new_envelope (params_of h Subject.route_matched p.matched_at) (json.matched p))

  unfoldable pub new_dead_letter_event : EventHead → DeadLetterPayload → Result EventError Envelope
  new_dead_letter_event h p =
      checked (validate_dead_letter p)
        (new_envelope (params_of h Subject.dead_letter p.failed_at) (json.dead_letter p))
