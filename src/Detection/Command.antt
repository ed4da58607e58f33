-- ===== src/Detection/Command.antt =====
-- The commands that trip detection issues:
-- services/tracking-worker/internal/usecase/trip_detection.go, `CommandKind`, `TripCommand`.
use wrany.Prelude.{ℕ, Option, none, some, List, [], Time, Uuid}
use wrany.Float64.{Float64, nought}
use wrany.Domain.Trip.{Trip, TripPoint, TripDetectionState}

pub data CommandKind : Type 0 where
  create_trip update_trip complete_trip : CommandKind

pub record TripCommand (W : Type 0) : Type 0 where
  pub kind : CommandKind
  pub trip_id : Uuid
  pub trip : Option (Trip W)
  pub backfill_since : Option Time
  pub delta_distance_m : W
  pub delta_points_count : ℕ
  pub last_point_at : Option Time
  pub last_point_lat : Option W
  pub last_point_lon : Option W
  pub ended_at : Option Time
  pub end_lat : Option W
  pub end_lon : Option W
  pub points : List TripPoint

-- `issued` counts the calls of `uuid.New` made so far; it is not part of the source's record.
pub record ProcessBatchResult (W : Type 0) : Type 0 where
  pub new_state : TripDetectionState W
  pub commands : List (TripCommand W)
  pub issued : ℕ

module _ {W : Type 0} ⦃f : Float64 W⦄ where
  -- A literal with no other field given.
  abbrev pub bare_command : CommandKind → Uuid → TripCommand W
  bare_command kind id = record {
    kind = kind;
    trip_id = id;
    trip = none;
    backfill_since = none;
    delta_distance_m = nought;
    delta_points_count = 0;
    last_point_at = none;
    last_point_lat = none;
    last_point_lon = none;
    ended_at = none;
    end_lat = none;
    end_lon = none;
    points = [];
  }

  abbrev pub create_command : Uuid → Trip W → Time → List TripPoint → TripCommand W
  create_command id trip since points =
      let c = bare_command CommandKind.create_trip id in
      record c { trip = some trip; backfill_since = some since; points = points }

  abbrev pub complete_command : Uuid → Time → W → W → TripCommand W
  complete_command id ended_at lat lon =
      let c = bare_command CommandKind.complete_trip id in
      record c { ended_at = some ended_at; end_lat = some lat; end_lon = some lon }
