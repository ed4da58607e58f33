-- ===== src/Gateway/Event.antt =====
-- A location event of the tracker and its validation:
-- services/tracking-gateway/internal/domain/location_event.go, domain/ingestion_errors.go,
-- domain/tracker_session.go, and `validateLocationEvent` of usecase/tracker_ingestion.go.
use wrany.Prelude.{
  Bool, false, not, ◌||◌, Option, String, Time, Uuid, str_eq, ◌==◌, read_or, if◌then◌else◌,
}
use wrany.Float64.{Float64, nought}

-- The closed set of activities.
abbrev pub is_valid_activity : String → Bool
is_valid_activity a =
    str_eq a "walking"
    || str_eq a "running"
    || str_eq a "bicycle"
    || str_eq a "vehicle"
    || str_eq a "stationary"
    || str_eq a "unknown"

pub data IngestionErrorCode : Type 0 where
  unauthorized device_not_registered session_not_accepted validation_error : IngestionErrorCode
  batch_too_large message_too_large event_bus_unavailable internal_error : IngestionErrorCode

abbrev pub code_text : IngestionErrorCode → String
code_text IngestionErrorCode.unauthorized = "UNAUTHORIZED"
code_text IngestionErrorCode.device_not_registered = "DEVICE_NOT_REGISTERED"
code_text IngestionErrorCode.session_not_accepted = "SESSION_NOT_ACCEPTED"
code_text IngestionErrorCode.validation_error = "VALIDATION_ERROR"
code_text IngestionErrorCode.batch_too_large = "BATCH_TOO_LARGE"
code_text IngestionErrorCode.message_too_large = "MESSAGE_TOO_LARGE"
code_text IngestionErrorCode.event_bus_unavailable = "EVENT_BUS_UNAVAILABLE"
code_text IngestionErrorCode.internal_error = "INTERNAL_ERROR"

pub record TrackerSession : Type 0 where
  pub id : String
  pub user_id : Uuid
  pub device_id : Uuid
  pub started_at : Time

pub record LocationEvent (W : Type 0) : Type 0 where
  pub event_id : String
  pub recorded_at : Time
  pub lat : W
  pub lon : W
  pub accuracy_m : W
  pub speed_mps : Option W
  pub bearing_deg : Option W
  pub activity_type : Option String
  pub activity_confidence : Option W
  pub battery_level : Option W

pub record RejectedEvent : Type 0 where
  pub event_id : String
  pub reason : String

module _ {W : Type 0} ⦃f : Float64 W⦄ where
  open f use {of_ℕ, neg, lt}

  abbrev pub is_outside : W → W → W → Bool
  is_outside low high v = lt v low || lt high v

  -- The empty text is no objection.
  unfoldable pub validate_location_event : LocationEvent W → String
  validate_location_event ev =
      if str_eq ev.event_id ""
      then "event_id is required"
      else if ev.recorded_at == 0
      then "recorded_at is required"
      else if is_outside (neg (of_ℕ 90)) (of_ℕ 90) ev.lat
      then "invalid_latitude"
      else if is_outside (neg (of_ℕ 180)) (of_ℕ 180) ev.lon
      then "invalid_longitude"
      else if lt ev.accuracy_m nought
      then "invalid_accuracy"
      else if read_or ev.speed_mps false (λ v. lt v nought)
      then "invalid_speed"
      else if read_or ev.bearing_deg false (is_outside nought (of_ℕ 360))
      then "invalid_bearing"
      else if read_or ev.activity_type false (λ a. not (is_valid_activity a))
      then "invalid_activity_type"
      else if read_or ev.activity_confidence false (is_outside nought (of_ℕ 1))
      then "invalid_activity_confidence"
      else if read_or ev.battery_level false (is_outside nought (of_ℕ 1))
      then "invalid_battery_level"
      else ""
