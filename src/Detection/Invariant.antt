-- ===== src/Detection/Invariant.antt =====
-- The other steps of `ProcessBatch`, and its variables:
-- services/tracking-worker/internal/usecase/trip_detection.go.
use wrany.Prelude.{
  ℕ, ◌+◌, ◌≡◌, refl, true, not, ◌&&◌, ◌||◌, leb, Option, some, [], Time, Uuid, is_some, Yields,
  Yields-bind, Yields-from, arith, seconds,
}
use wrany.Float64.{Float64, haversine_m}
use wrany.Domain.Trip.{TripState, TripDetectionState, TripDetectionConfig}
use wrany.Detection.Protocol.{replay-snoc}
use wrany.Detection.Machine.{
  Run, Sample, reset_candidate, drop_candidate, clear_stop, flush_active, is_gap_exceeded,
  extend_candidate, is_confirmed, on_candidate, extend_active, complete_trip, end_by_gap, open_stop,
  keep_moving, on_active, resume_trip, end_by_stop, on_stop, dispatch,
}
use wrany.Detection.Soundness.{Pending-of_nil, Pending-snoc, complete-replays, RunOk, All-snoc}
use wrany.Detection.Opening.{
  open_candidate-Ok, flush_active-Ok, candidate_empty, stop_empty, active_set, branch,
  confirm_trip-Ok, extend_candidate-Ok,
}

module _ {W : Type 0} ⦃f : Float64 W⦄ (start : Option Uuid) where
  open f use {lt}

  extend_active-Ok :
      (id : Uuid) (x : Sample W) (r : Run W)
      → r.new_state.state ≡ TripState.trip_active
      → r.new_state.active_trip_id ≡ some id
      → RunOk start r
      → RunOk start (extend_active id x r)
  unfolding extend_active
  extend_active-Ok id x r e a h = record {
    fits = h.fits;
    pending = Pending-snoc id r.active_points x.tp _ e a h.pending;
    replayed = h.replayed;
    complete = h.complete;
  }

  complete_trip-Ok :
      (id : Uuid) (ended_at : Time) (lat lon : W) (r : Run W)
      → r.new_state.active_trip_id ≡ some id
      → r.active_points ≡ []
      → RunOk start r
      → RunOk start (complete_trip id ended_at lat lon r)
        × ((complete_trip id ended_at lat lon r).new_state.state ≡ TripState.idle)
  unfolding complete_trip clear_stop
  complete_trip-Ok id ended_at lat lon r a n h = (
    record {
      fits = refl;
      pending = n;
      replayed = replay-snoc start r.commands _ h.replayed (complete-replays id _ a);
      complete = All-snoc r.commands _ h.complete ((refl, refl, refl, refl), tt);
    },
    refl,
  )

  drop_candidate-Ok :
      (r : Run W)
      → r.new_state.state ≡ TripState.motion_candidate
      → RunOk start r
      → RunOk start (drop_candidate r) × ((drop_candidate r).new_state.state ≡ TripState.idle)
  unfolding drop_candidate reset_candidate
  drop_candidate-Ok r e h = (
    record {
      fits = ground (arith, h.fits);
      pending = ground (arith, candidate_empty start r e h);
      replayed = h.replayed;
      complete = h.complete;
    },
    ground arith,
  )

  on_candidate-Ok :
      (fresh : ℕ → Uuid) (cfg : TripDetectionConfig W) (now : Time) (x : Sample W) (r : Run W)
      → r.new_state.state ≡ TripState.motion_candidate
      → RunOk start r
      → Yields (RunOk start) (on_candidate fresh cfg now x r)
  unfolding on_candidate
  on_candidate-Ok fresh cfg now x r e h =
      let longer = extend_candidate x r in
      let (dropped, idle) = drop_candidate-Ok r e h in
      let (ok, still, many) = extend_candidate-Ok start x r e h in
      branch start (x.point.is_stationary || is_gap_exceeded cfg r.new_state x.point.recorded_at) _
        _ (λ _. open_candidate-Ok start x (drop_candidate r) idle dropped)
        (λ _.
          Yields-from _ longer.new_state.candidate_started_at _ (ground (arith, ok.fits)) λ t te.
            branch start (is_confirmed cfg t x.point.recorded_at longer) _ _
              (λ _. confirm_trip-Ok start _ now x longer still many ok) (λ _. ok))

  end_by_gap-Ok :
      (x : Sample W) (r : Run W)
      → r.new_state.state ≡ TripState.trip_active
      → is_some r.new_state.last_processed_at ≡ true
      → RunOk start r
      → Yields (RunOk start) (end_by_gap x r)
  unfolding end_by_gap
  end_by_gap-Ok x r e l h =
      Yields-bind _ _ (flush_active r) _ (flush_active-Ok start r e h) λ q (ok, same, none_left).
        Yields-from _ q.new_state.last_processed_at _ (rw same l) λ ended_at _.
          Yields-from _ q.new_state.active_trip_id _ (rw same (active_set start r e h)) λ id a.
            let (done, idle) = complete_trip-Ok id ended_at _ _ q a none_left ok in
            open_candidate-Ok start x _ idle done

  open_stop-Ok :
      (x : Sample W) (r : Run W)
      → r.new_state.state ≡ TripState.trip_active
      → RunOk start r
      → Yields (RunOk start) (open_stop x r)
  unfolding open_stop
  open_stop-Ok x r e h =
      Yields-bind _ _ (flush_active r) _ (flush_active-Ok start r e h) λ q (ok, same, none_left).
        record {
          fits = (rw same (active_set start r e h), refl, refl, refl);
          pending = none_left;
          replayed = ok.replayed;
          complete = ok.complete;
        }

  keep_moving-Ok :
      (x : Sample W) (r : Run W)
      → r.new_state.state ≡ TripState.trip_active
      → RunOk start r
      → Yields (RunOk start) (keep_moving x r)
  unfolding keep_moving
  keep_moving-Ok x r e h =
      Yields-from _ r.new_state.active_trip_id _ (ground (arith, h.fits))
        λ id a. extend_active-Ok id x r e a h

  gap_exceeded-is_some :
      (cfg : TripDetectionConfig W) (s : TripDetectionState W) (recorded_at : Time)
      → is_gap_exceeded cfg s recorded_at ≡ true
      → is_some s.last_processed_at ≡ true
  unfolding is_gap_exceeded
  gap_exceeded-is_some cfg s recorded_at g = ground arith

  on_active-Ok :
      (cfg : TripDetectionConfig W) (x : Sample W) (r : Run W)
      → r.new_state.state ≡ TripState.trip_active
      → RunOk start r
      → Yields (RunOk start) (on_active cfg x r)
  unfolding on_active
  on_active-Ok cfg x r e h =
      branch start (is_gap_exceeded cfg r.new_state x.point.recorded_at) _ _
        (λ g. end_by_gap-Ok x r e (gap_exceeded-is_some cfg r.new_state _ g) h)
        (λ _.
          branch start x.point.is_stationary _ _ (λ _. open_stop-Ok x r e h)
            (λ _. keep_moving-Ok x r e h))

  resume_trip-Ok :
      (x : Sample W) (r : Run W)
      → r.new_state.state ≡ TripState.stop_candidate
      → RunOk start r
      → Yields (RunOk start) (resume_trip x r)
  unfolding resume_trip clear_stop
  resume_trip-Ok x r e h =
      Yields-from _ r.new_state.active_trip_id _ (ground (arith, h.fits)) λ id a.
        extend_active-Ok id x _ refl a (record {
          fits = ground (arith, h.fits);
          pending = Pending-of_nil _ _ _ (stop_empty start r e h);
          replayed = h.replayed;
          complete = h.complete;
        })

  end_by_stop-Ok :
      (cfg : TripDetectionConfig W) (lat lon : W) (x : Sample W) (r : Run W)
      → r.new_state.state ≡ TripState.stop_candidate
      → RunOk start r
      → Yields (RunOk start) (end_by_stop cfg lat lon x r)
  unfolding end_by_stop
  end_by_stop-Ok cfg lat lon x r e h =
      Yields-from _ r.new_state.stop_started_at _ (ground (arith, h.fits)) λ t te.
        branch start (leb (t + seconds cfg.stop_min_duration_sec) x.point.recorded_at) _ _
          (λ _.
            Yields-from _ r.new_state.active_trip_id _ (ground (arith, h.fits))
              λ id a. (complete_trip-Ok id t lat lon r a (stop_empty start r e h) h).0)
          (λ _. h)

  on_stop-Ok :
      (cfg : TripDetectionConfig W) (x : Sample W) (r : Run W)
      → r.new_state.state ≡ TripState.stop_candidate
      → RunOk start r
      → Yields (RunOk start) (on_stop cfg x r)
  unfolding on_stop
  on_stop-Ok cfg x r e h =
      Yields-from _ r.new_state.stop_center_lat _ (ground (arith, h.fits)) λ lat _.
        Yields-from _ r.new_state.stop_center_lon _ (ground (arith, h.fits)) λ lon _.
          branch start
            (not x.point.is_stationary && lt cfg.stop_radius_m (haversine_m lat lon x.lat x.lon)) _
            _ (λ _. resume_trip-Ok x r e h) (λ _. end_by_stop-Ok cfg lat lon x r e h)

  pub dispatch-Ok :
      (fresh : ℕ → Uuid) (cfg : TripDetectionConfig W) (now : Time) (k : TripState) (x : Sample W)
      (r : Run W)
      → r.new_state.state ≡ k
      → RunOk start r
      → Yields (RunOk start) (dispatch fresh cfg now k x r)
  unfolding dispatch
  dispatch-Ok fresh cfg now TripState.idle x r e h = open_candidate-Ok start x r e h
  dispatch-Ok fresh cfg now TripState.motion_candidate x r e h =
      on_candidate-Ok fresh cfg now x r e h
  dispatch-Ok fresh cfg now TripState.trip_active x r e h = on_active-Ok cfg x r e h
  dispatch-Ok fresh cfg now TripState.stop_candidate x r e h = on_stop-Ok cfg x r e h
  dispatch-Ok fresh cfg now (TripState.unknown text) x r e h = h
