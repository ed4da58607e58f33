-- ===== src/Detection/Opening.antt =====
-- The steps of `ProcessBatch` that open, confirm and extend a candidate, and its variables:
-- services/tracking-worker/internal/usecase/trip_detection.go.
use wrany.Prelude.{
  ◌<◌, ◌≡◌, refl, length-map, Bool, true, false, Option, some, List, [], ◌∷◌, Time, Uuid, is_some,
  length, length-append, Yields, Yields-from, if-elim, ap, if◌then◌else◌, arith,
}
use wrany.Float64.{Float64}
use wrany.Domain.Trip.{TripState, TripPoint}
use wrany.Detection.Protocol.{replay-snoc, IsComplete}
use wrany.Detection.Machine.{
  Run, Sample, with_trip, start_candidate, reset_candidate, update_command, flush_points,
  flush_active, open_candidate, candidate_trip, confirm_trip, extend_candidate,
}
use wrany.Detection.Soundness.{
  Pending, Pending-active, Pending-nil, Pending-of_nil, Tagged-map, update-replays, RunOk, All-snoc,
}

module _ {W : Type 0} ⦃f : Float64 W⦄ (start : Option Uuid) where
  open f use {lt}

  pub open_candidate-Ok :
      (x : Sample W) (r : Run W)
      → r.new_state.state ≡ TripState.idle
      → RunOk start r
      → RunOk start (open_candidate x r)
  unfolding open_candidate start_candidate
  open_candidate-Ok x r e h =
      if-elim (RunOk start) x.moving _ r
        (λ _. record {
          fits = ground (arith, h.fits);
          pending = ground (arith, h.pending);
          replayed = h.replayed;
          complete = h.complete;
        })
        (λ _. h)

  pub update_command-IsComplete :
      (r : Run W) (id : Uuid) (tp : TripPoint) (tps : List TripPoint)
      → r.active_points ≡ tp ∷ tps
      → Pending TripState.trip_active (some id) r.active_points (is_some r.last_active)
      → IsComplete (update_command id r)
  unfolding update_command
  update_command-IsComplete r id tp tps e p =
      ((refl, ground (arith, ap length e), ground arith), p.0)

  pub flush_points-Ok :
      (r : Run W)
      → r.new_state.state ≡ TripState.trip_active
      → RunOk start r
      → (ps : List TripPoint) → r.active_points ≡ ps
      → Yields
          (λ q. RunOk start q × (q.new_state ≡ r.new_state) × (q.active_points ≡ []))
          (flush_points ps r)
  unfolding flush_points update_command
  flush_points-Ok r e h [] pe = (h, refl, pe)
  flush_points-Ok r e h (p ∷ ps) pe =
      Yields-from _ r.new_state.active_trip_id _ (ground (arith, h.fits)) λ id a.
        let c = update_command id r in
        (
          record {
            fits = h.fits;
            pending = ground arith;
            replayed = replay-snoc start r.commands c h.replayed (update-replays id _ a);
            complete =
                All-snoc r.commands c h.complete
                  (update_command-IsComplete r id p ps pe (Pending-active e a h.pending));
          },
          refl,
          refl,
        )

  pub flush_active-Ok :
      (r : Run W)
      → r.new_state.state ≡ TripState.trip_active
      → RunOk start r
      → Yields
          (λ q. RunOk start q × (q.new_state ≡ r.new_state) × (q.active_points ≡ []))
          (flush_active r)
  unfolding flush_active
  flush_active-Ok r e h = flush_points-Ok r e h r.active_points refl

  pub candidate_empty :
      (r : Run W)
      → r.new_state.state ≡ TripState.motion_candidate
      → RunOk start r
      → r.active_points ≡ []
  candidate_empty r e h = Pending-nil TripState.motion_candidate _ _ _ e (ground arith) h.pending

  pub stop_empty :
      (r : Run W)
      → r.new_state.state ≡ TripState.stop_candidate
      → RunOk start r
      → r.active_points ≡ []
  stop_empty r e h = Pending-nil TripState.stop_candidate _ _ _ e (ground arith) h.pending

  pub active_set :
      (r : Run W)
      → r.new_state.state ≡ TripState.trip_active
      → RunOk start r
      → is_some r.new_state.active_trip_id ≡ true
  active_set r e h = ground (arith, h.fits)

  pub branch :
      (b : Bool) (m n : Option (Run W))
      → (b ≡ true → Yields (RunOk start) m)
      → (b ≡ false → Yields (RunOk start) n)
      → Yields (RunOk start) (if b then m else n)
  branch = if-elim (Yields (RunOk start))

  pub confirm_trip-Ok :
      (id : Uuid) (now : Time) (x : Sample W) (r : Run W)
      → r.new_state.state ≡ TripState.motion_candidate
      → 0 < length r.candidate_points
      → RunOk start r
      → Yields (RunOk start) (confirm_trip id now x r)
  unfolding confirm_trip candidate_trip reset_candidate
  confirm_trip-Ok id now x r e n h =
      Yields-from _ r.new_state.candidate_started_at _ (ground (arith, h.fits)) λ t te.
        Yields-from _ r.new_state.candidate_start_lat _ (ground (arith, h.fits)) λ lat late.
          Yields-from _ r.new_state.candidate_start_lon _ (ground (arith, h.fits)) λ lon lone.
            record {
              fits = refl;
              pending = Pending-of_nil (some id) _ _ (candidate_empty r e h);
              replayed = replay-snoc start r.commands _ h.replayed (ground (arith, h.fits));
              complete = All-snoc r.commands _ h.complete (
                (refl, refl, refl, rw (length-map (with_trip id) r.candidate_points) n),
                Tagged-map id r.candidate_points,
              );
            }

  pub extend_candidate-Ok :
      (x : Sample W) (r : Run W)
      → r.new_state.state ≡ TripState.motion_candidate
      → RunOk start r
      → RunOk start (extend_candidate x r)
        × ((extend_candidate x r).new_state.state ≡ TripState.motion_candidate)
        × (0 < length (extend_candidate x r).candidate_points)
  unfolding extend_candidate
  extend_candidate-Ok x r e h = (
    record {
      fits = ground (arith, h.fits);
      pending = ground (arith, h.pending);
      replayed = ground (arith, h.replayed);
      complete = h.complete;
    },
    ground arith,
    ground (arith, length-append r.candidate_points (x.tp ∷ [])),
  )
