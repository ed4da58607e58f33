-- ===== src/Events/Payloads.antt =====
-- The payloads of the six events and their checks: libs/events/location/event.go,
-- libs/events/trip/started.go, updated.go and completed.go, libs/events/route/matched.go,
-- libs/events/deadletter/event.go.
use wrany.Prelude.{
  ℕ, Bool, not, ◌&&◌, Option, String, [], ◌∷◌, ◌++◌, Time, ltb, ◌==◌, is_empty, if◌then◌else◌,
}
use wrany.Float64.{Float64}
use wrany.Events.Validation.{
  Bytes, EventError, new_validation_error, require_non_empty, require_non_zero_time, require_range,
  require_non_negative,
}

pub record LocationPayload (W : Type 0) : Type 0 where
  pub user_id : String
  pub device_id : String
  pub recorded_at : Time
  pub received_at : Time
  pub lat : W
  pub lon : W
  pub accuracy_m : W
  pub speed_mps : W
  pub bearing_deg : W
  pub activity_type : String
  pub activity_confidence : W
  pub battery_level : W
  pub source : String

pub record StartedPayload : Type 0 where
  pub trip_id : String
  pub user_id : String
  pub device_id : String
  pub started_at : Time

pub record UpdatedPayload (W : Type 0) : Type 0 where
  pub trip_id : String
  pub user_id : String
  pub device_id : String
  pub updated_at : Time
  pub distance_m : W
  pub duration_s : W
  pub point_count : ℕ

pub record CompletedPayload (W : Type 0) : Type 0 where
  pub trip_id : String
  pub user_id : String
  pub device_id : String
  pub started_at : Time
  pub completed_at : Time
  pub distance_m : W
  pub duration_s : W
  pub point_count : ℕ

pub record MatchedPayload (W : Type 0) : Type 0 where
  pub trip_id : String
  pub route_id : String
  pub user_id : String
  pub matched_at : Time
  pub match_score : W

pub record DeadLetterPayload : Type 0 where
  pub original_subject : String
  pub original_event : Bytes
  pub error : String
  pub failed_at : Time
  pub consumer : String

unfoldable pub validate_started : StartedPayload → Option EventError
validate_started p = do
  let i1 = require_non_empty [] "trip_id" p.trip_id
  let i2 = require_non_empty i1 "user_id" p.user_id
  let i3 = require_non_empty i2 "device_id" p.device_id
  new_validation_error (require_non_zero_time i3 "started_at" p.started_at)

unfoldable pub validate_dead_letter : DeadLetterPayload → Option EventError
validate_dead_letter p = do
  let i1 = require_non_empty [] "original_subject" p.original_subject
  let i2 = if is_empty p.original_event then i1 ++ "original_event is required" ∷ [] else i1
  let i3 = require_non_empty i2 "error" p.error
  let i4 = require_non_zero_time i3 "failed_at" p.failed_at
  new_validation_error (require_non_empty i4 "consumer" p.consumer)

module _ {W : Type 0} ⦃f : Float64 W⦄ where
  open f use {of_ℕ, neg}

  unfoldable pub validate_location : LocationPayload W → Option EventError
  validate_location p = do
    let i1 = require_non_empty [] "user_id" p.user_id
    let i2 = require_non_empty i1 "device_id" p.device_id
    let i3 = require_non_zero_time i2 "recorded_at" p.recorded_at
    let i4 = require_non_zero_time i3 "received_at" p.received_at
    let i5 = require_range i4 "lat" p.lat (neg (of_ℕ 90)) (of_ℕ 90)
    let i6 = require_range i5 "lon" p.lon (neg (of_ℕ 180)) (of_ℕ 180)
    let i7 = require_non_negative i6 "accuracy_m" p.accuracy_m
    let i8 = require_range i7 "activity_confidence" p.activity_confidence (of_ℕ 0) (of_ℕ 1)
    let i9 = require_range i8 "battery_level" p.battery_level (of_ℕ 0) (of_ℕ 1)
    new_validation_error (require_non_empty i9 "source" p.source)

  unfoldable pub validate_updated : UpdatedPayload W → Option EventError
  validate_updated p = do
    let i1 = require_non_empty [] "trip_id" p.trip_id
    let i2 = require_non_empty i1 "user_id" p.user_id
    let i3 = require_non_empty i2 "device_id" p.device_id
    let i4 = require_non_zero_time i3 "updated_at" p.updated_at
    let i5 = require_non_negative i4 "distance_m" p.distance_m
    let i6 = require_non_negative i5 "duration_s" p.duration_s
    new_validation_error (require_non_negative i6 "point_count" (of_ℕ p.point_count))

  -- Both times are set, and the completion stands before the start.
  abbrev pub is_backwards : CompletedPayload W → Bool
  is_backwards p =
      not (p.started_at == 0) && not (p.completed_at == 0) && ltb p.completed_at p.started_at

  unfoldable pub validate_completed : CompletedPayload W → Option EventError
  validate_completed p = do
    let i1 = require_non_empty [] "trip_id" p.trip_id
    let i2 = require_non_empty i1 "user_id" p.user_id
    let i3 = require_non_empty i2 "device_id" p.device_id
    let i4 = require_non_zero_time i3 "started_at" p.started_at
    let i5 = require_non_zero_time i4 "completed_at" p.completed_at
    let i6 = if is_backwards p then i5 ++ "completed_at must not be before started_at" ∷ [] else i5
    let i7 = require_non_negative i6 "distance_m" p.distance_m
    let i8 = require_non_negative i7 "duration_s" p.duration_s
    new_validation_error (require_non_negative i8 "point_count" (of_ℕ p.point_count))

  unfoldable pub validate_matched : MatchedPayload W → Option EventError
  validate_matched p = do
    let i1 = require_non_empty [] "trip_id" p.trip_id
    let i2 = require_non_empty i1 "route_id" p.route_id
    let i3 = require_non_empty i2 "user_id" p.user_id
    let i4 = require_non_zero_time i3 "matched_at" p.matched_at
    new_validation_error (require_range i4 "match_score" p.match_score (of_ℕ 0) (of_ℕ 1))
