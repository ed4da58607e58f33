-- ===== src/Noise/Reasons.antt =====
-- Where a processed point comes from, and what its reason tells of it:
-- services/tracking-worker/internal/domain/processed_location_point.go.
use wrany.Prelude.{
  ◌≡◌, refl, sym, ◌∙◌, ◌⊎◌, Bool, true, false, String, Time, Uuid, inr, is_some, arith,
}
use wrany.Float64.{Float64, nought}
use wrany.Domain.Point.{NoiseReason, RawLocationPoint, ProcessedLocationPoint}
use wrany.Noise.Pipeline.{hold_still}

-- What tells a point from the others, and where it was taken.
pub record Origin (W : Type 0) : Type 0 where
  pub user_id : Uuid
  pub device_id : Uuid
  pub event_id : String
  pub lat : W
  pub lon : W
  pub recorded_at : Time

module _ {W : Type 0} where
  abbrev pub origin : ProcessedLocationPoint W → Origin W
  origin p = record {
    user_id = p.user_id;
    device_id = p.device_id;
    event_id = p.event_id;
    lat = p.raw_lat;
    lon = p.raw_lon;
    recorded_at = p.recorded_at;
  }

  abbrev pub raw_origin : RawLocationPoint W → Origin W
  raw_origin p = record {
    user_id = p.user_id;
    device_id = p.device_id;
    event_id = p.event_id;
    lat = p.lat;
    lon = p.lon;
    recorded_at = p.recorded_at;
  }

-- The reasons of the points that are kept.
abbrev pub keeps_point : NoiseReason → Bool
keeps_point NoiseReason.accepted_clean = true
keeps_point NoiseReason.jitter = true
keeps_point NoiseReason.stationary = true
keeps_point NoiseReason.segment_break = true
keeps_point _ = false

abbrev pub is_clean : NoiseReason → Bool
is_clean NoiseReason.accepted_clean = true
is_clean _ = false

abbrev pub is_standing : NoiseReason → Bool
is_standing NoiseReason.stationary = true
is_standing _ = false

abbrev pub is_teleport : NoiseReason → Bool
is_teleport NoiseReason.teleport = true
is_teleport _ = false

pub kept_no_teleport : (r : NoiseReason) → keeps_point r ≡ true → is_teleport r ≡ false
kept_no_teleport NoiseReason.teleport h = ground arith
kept_no_teleport NoiseReason.accepted_clean h = refl
kept_no_teleport NoiseReason.jitter h = refl
kept_no_teleport NoiseReason.stationary h = refl
kept_no_teleport NoiseReason.segment_break h = refl
kept_no_teleport NoiseReason.poor_accuracy h = refl
kept_no_teleport NoiseReason.garbage_accuracy h = refl
kept_no_teleport NoiseReason.invalid_point h = refl
kept_no_teleport NoiseReason.late_arrival h = refl

-- The reasons that the checks give before any coordinates are filtered.
abbrev pub is_rejection : NoiseReason → Bool
is_rejection NoiseReason.poor_accuracy = true
is_rejection NoiseReason.garbage_accuracy = true
is_rejection NoiseReason.invalid_point = true
is_rejection NoiseReason.late_arrival = true
is_rejection _ = false

module _ {W : Type 0} ⦃f : Float64 W⦄ where
  -- The reason of a point tells its flags, whether it has filtered coordinates, and that it adds no
  -- distance unless it is clean.
  pub record Verdict (p : ProcessedLocationPoint W) : Type 0 where
    pub kept : p.is_accepted ≡ keeps_point p.noise_reason
    pub lat_set : is_some p.filtered_lat ≡ p.is_accepted
    pub lon_set : is_some p.filtered_lon ≡ p.is_accepted
    pub standing : p.is_stationary ≡ is_standing p.noise_reason
    pub since_set : is_some p.stationary_since ≡ p.is_stationary
    pub teleported : p.is_outlier ≡ is_teleport p.noise_reason
    pub no_distance : (is_clean p.noise_reason ≡ true) ⊎ (p.distance_delta_m ≡ nought)

  -- The verdict on a point with its origin.
  pub record Judges (raw : RawLocationPoint W) (p : ProcessedLocationPoint W) : Type 0 where
    pub from : origin p ≡ raw_origin raw
    pub verdict : Verdict p

  pub hold_still-Verdict :
      (since : Time) (p : ProcessedLocationPoint W)
      → p.is_accepted ≡ true
      → Verdict p
      → Verdict (hold_still since p)
  unfolding hold_still
  hold_still-Verdict since p a v = record {
    kept = a;
    lat_set = v.lat_set;
    lon_set = v.lon_set;
    standing = refl;
    since_set = refl;
    teleported = v.teleported ∙ kept_no_teleport p.noise_reason (sym v.kept ∙ a);
    no_distance = inr refl;
  }
