-- ===== src/Noise/Verdict.antt =====
-- What the pipeline says of one point: services/tracking-worker/internal/usecase/noise/pipeline.go,
-- `processOne`.
use wrany.Prelude.{
  ◌≡◌, refl, sym, ap, ◌∙◌, Bool, true, false, ◌||◌, Option, none, some, List, [], ◌∷◌, ◌++◌, Time,
  inl, inr, is_some, if-elim, last?, arith,
}
use wrany.Float64.{Float64, nought}
use wrany.Domain.Point.{NoiseReason, RawLocationPoint, ProcessedLocationPoint, NoiseConfig}
use wrany.Noise.Checks.{validate, detect_outlier}
use wrany.Noise.Window.{trim_window, detect_stationary}
use wrany.Noise.Pipeline.{
  start_of, measure, attribute_distance, hold_still, window_start, settle, accept, screen_outlier,
  screen, is_late, process_one,
}
use wrany.Noise.Reasons.{
  origin, raw_origin, keeps_point, is_clean, is_standing, is_teleport, is_rejection, Judges,
  hold_still-Verdict,
}

module _ {W : Type 0} ⦃f : Float64 W⦄ where
  -- A point as `processOne` starts it, `placed` once it is smoothed.
  record Open (raw : RawLocationPoint W) (placed : Bool) (p : ProcessedLocationPoint W)
      : Type 0 where
    from : origin p ≡ raw_origin raw
    accepted : p.is_accepted ≡ placed
    lat_set : is_some p.filtered_lat ≡ placed
    lon_set : is_some p.filtered_lon ≡ placed
    standing : p.is_stationary ≡ false
    since_set : is_some p.stationary_since ≡ false
    teleported : p.is_outlier ≡ false
    reason : p.noise_reason ≡ NoiseReason.accepted_clean
    distance : p.distance_delta_m ≡ nought

  -- An open point is judged by giving it a reason that keeps it where it is.
  close :
      (raw : RawLocationPoint W) (placed : Bool) (p : ProcessedLocationPoint W) (r : NoiseReason)
      → keeps_point r ≡ placed
      → is_standing r ≡ false
      → is_teleport r ≡ false
      → Open raw placed p
      → Judges raw (record p { noise_reason = r })
  close raw placed p r k st te o = record {
    from = o.from;
    verdict = record {
      kept = o.accepted ∙ sym k;
      lat_set = o.lat_set ∙ sym o.accepted;
      lon_set = o.lon_set ∙ sym o.accepted;
      standing = o.standing ∙ sym st;
      since_set = o.since_set ∙ sym o.standing;
      teleported = o.teleported ∙ sym te;
      no_distance = inr o.distance;
    };
  }

  -- A placed point that moved keeps its reason and takes the distance.
  close_moved :
      (raw : RawLocationPoint W) (p : ProcessedLocationPoint W) (d : W)
      → Open raw true p
      → Judges raw (record p { distance_delta_m = d })
  close_moved raw p d o = record {
    from = o.from;
    verdict = record {
      kept = o.accepted ∙ ap keeps_point (sym o.reason);
      lat_set = o.lat_set ∙ sym o.accepted;
      lon_set = o.lon_set ∙ sym o.accepted;
      standing = o.standing ∙ ap is_standing (sym o.reason);
      since_set = o.since_set ∙ sym o.standing;
      teleported = o.teleported ∙ ap is_teleport (sym o.reason);
      no_distance = inl (ap is_clean o.reason);
    };
  }

  -- Judged and kept.
  abbrev Kept : RawLocationPoint W → ProcessedLocationPoint W → Type 0
  Kept raw p = Judges raw p × (p.is_accepted ≡ true)

  measure-Kept :
      (cfg : NoiseConfig W) (history : List (ProcessedLocationPoint W))
      (previous : ProcessedLocationPoint W) (raw : RawLocationPoint W)
      (p : ProcessedLocationPoint W)
      → Open raw true p
      → Kept raw (measure cfg history previous raw p)
  unfolding measure
  measure-Kept cfg history previous raw p o =
      if-elim (Kept raw) _ _ _
        (λ _. (close raw true p NoiseReason.jitter refl refl refl o, o.accepted))
        (λ _. (close_moved raw p _ o, o.accepted))

  attribute_distance-Kept :
      (cfg : NoiseConfig W) (history : List (ProcessedLocationPoint W))
      (previous : Option (ProcessedLocationPoint W)) (raw : RawLocationPoint W)
      (p : ProcessedLocationPoint W)
      → Open raw true p
      → Kept raw (attribute_distance cfg history previous raw p)
  unfolding attribute_distance
  attribute_distance-Kept cfg history none raw p o =
      (close_moved raw p p.distance_delta_m o, o.accepted)
  attribute_distance-Kept cfg history (some previous) raw p o =
      if-elim (Kept raw) _ _ _
        (λ _. (close raw true p NoiseReason.segment_break refl refl refl o, o.accepted))
        (λ _. measure-Kept cfg history previous raw p o)

  hold_still-Kept :
      (since : Time) (raw : RawLocationPoint W) (p : ProcessedLocationPoint W)
      → Kept raw p
      → Kept raw (hold_still since p)
  unfolding hold_still
  hold_still-Kept since raw p (j, a) =
      (record { from = j.from; verdict = hold_still-Verdict since p a j.verdict }, a)

  settle-Kept :
      (cfg : NoiseConfig W) (history : List (ProcessedLocationPoint W)) (raw : RawLocationPoint W)
      (p : ProcessedLocationPoint W)
      → Kept raw p
      → Kept raw (settle cfg history raw p)
  unfolding settle
  settle-Kept cfg history raw p k =
      let window = trim_window (history ++ p ∷ []) raw.recorded_at cfg.stationary_window_sec in
      let since = window_start window raw.recorded_at in
      if-elim (Kept raw) (detect_stationary cfg window) (hold_still since p) p
        (λ _. hold_still-Kept since raw p k) (λ _. k)

  accept-Kept :
      (cfg : NoiseConfig W) (history : List (ProcessedLocationPoint W)) (raw : RawLocationPoint W)
      (p : ProcessedLocationPoint W)
      → Open raw false p
      → Kept raw (accept cfg history raw p)
  unfolding accept
  accept-Kept cfg history raw p o = settle-Kept cfg history raw _ (
      attribute_distance-Kept cfg history (last? history) raw _ (record {
        from = o.from;
        accepted = refl;
        lat_set = refl;
        lon_set = refl;
        standing = o.standing;
        since_set = o.since_set;
        teleported = o.teleported;
        reason = o.reason;
        distance = o.distance;
      }))

  -- A point that jumps is judged as an outlier.
  jump-Judges :
      (raw : RawLocationPoint W) (p : ProcessedLocationPoint W)
      → Open raw false p
      → Judges raw (record p { is_outlier = true; noise_reason = NoiseReason.teleport })
  jump-Judges raw p o = record {
    from = o.from;
    verdict = record {
      kept = o.accepted;
      lat_set = o.lat_set ∙ sym o.accepted;
      lon_set = o.lon_set ∙ sym o.accepted;
      standing = o.standing;
      since_set = o.since_set ∙ sym o.standing;
      teleported = refl;
      no_distance = inr o.distance;
    };
  }

  screen_outlier-Judges :
      (cfg : NoiseConfig W) (history : List (ProcessedLocationPoint W)) (raw : RawLocationPoint W)
      (next : Option (RawLocationPoint W)) (p : ProcessedLocationPoint W)
      → Open raw false p
      → Judges raw (screen_outlier cfg history raw next p)
  unfolding screen_outlier
  screen_outlier-Judges cfg history raw next p o =
      let implied : W = (detect_outlier cfg (last? history) raw next).0 in
      let m : ProcessedLocationPoint W = record p { implied_speed_mps = implied } in
      let open_m : Open raw false m = record {
        from = o.from;
        accepted = o.accepted;
        lat_set = o.lat_set;
        lon_set = o.lon_set;
        standing = o.standing;
        since_set = o.since_set;
        teleported = o.teleported;
        reason = o.reason;
        distance = o.distance;
      } in
      if-elim (Judges raw) (detect_outlier cfg (last? history) raw next).1 _ _
        (λ _. jump-Judges raw m open_m) (λ _. (accept-Kept cfg history raw m open_m).0)

  screen-Judges :
      (cfg : NoiseConfig W) (history : List (ProcessedLocationPoint W)) (raw : RawLocationPoint W)
      (next : Option (RawLocationPoint W)) (reason : NoiseReason) (p : ProcessedLocationPoint W)
      → is_clean reason || is_rejection reason ≡ true
      → Open raw false p
      → Judges raw (screen cfg history raw next reason p)
  unfolding screen
  screen-Judges cfg history raw next NoiseReason.accepted_clean p c o =
      screen_outlier-Judges cfg history raw next p o
  screen-Judges cfg history raw next NoiseReason.poor_accuracy p c o =
      close raw false p NoiseReason.poor_accuracy refl refl refl o
  screen-Judges cfg history raw next NoiseReason.garbage_accuracy p c o =
      close raw false p NoiseReason.garbage_accuracy refl refl refl o
  screen-Judges cfg history raw next NoiseReason.invalid_point p c o =
      close raw false p NoiseReason.invalid_point refl refl refl o
  screen-Judges cfg history raw next NoiseReason.late_arrival p c o =
      close raw false p NoiseReason.late_arrival refl refl refl o
  screen-Judges cfg history raw next NoiseReason.teleport p c o = ground arith
  screen-Judges cfg history raw next NoiseReason.jitter p c o = ground arith
  screen-Judges cfg history raw next NoiseReason.stationary p c o = ground arith
  screen-Judges cfg history raw next NoiseReason.segment_break p c o = ground arith

  validate-checks :
      (cfg : NoiseConfig W) (raw : RawLocationPoint W)
      → is_clean (validate cfg raw) || is_rejection (validate cfg raw) ≡ true
  unfolding validate
  validate-checks cfg raw = ground arith

  start_of-Open : (raw : RawLocationPoint W) (now : Time) → Open raw false (start_of raw now)
  unfolding start_of
  start_of-Open raw now = record {
    from = refl;
    accepted = refl;
    lat_set = refl;
    lon_set = refl;
    standing = refl;
    since_set = refl;
    teleported = refl;
    reason = refl;
    distance = refl;
  }

  pub process_one-Judges :
      (cfg : NoiseConfig W) (history : List (ProcessedLocationPoint W)) (raw : RawLocationPoint W)
      (next : Option (RawLocationPoint W)) (through : Option Time) (now : Time)
      → Judges raw (process_one cfg history raw next through now)
  unfolding process_one
  process_one-Judges cfg history raw next through now =
      let o = start_of-Open raw now in
      if-elim (Judges raw) (is_late through raw) _ _
        (λ _. close raw false _ NoiseReason.late_arrival refl refl refl o)
        (λ _. screen-Judges cfg history raw next (validate cfg raw) _ (validate-checks cfg raw) o)
