-- ===== src/Detection/Frame.antt =====
-- The fields that `ProcessBatch` does not compute from its points, and the points it passes over:
-- services/tracking-worker/internal/usecase/trip_detection.go.
use wrany.Prelude.{
  ℕ, ◌-◌, ◌≡◌, refl, ap, Bool, false, ◌&&◌, Option, none, some, ◌>>=◌, List, [], ◌∷◌, Time, Uuid,
  keep, is_some, seconds, arith, Bool-cases, Option-cases, inl, inr,
}
use mathlib.Core.Path.{fun_ext}
use wrany.Float64.{Float64}
use wrany.Domain.Point.{ProcessedLocationPoint, coordinates}
use wrany.Domain.Trip.{TripState, TripDetectionState, TripDetectionConfig}
use wrany.Detection.Command.{ProcessBatchResult}
use wrany.Detection.Machine.{
  Run, Sample, note_point, sample_of, step_sample, process_points, flush_active, flush_if_active,
  start_run, finish_run, process_batch, dispatch, open_candidate, on_candidate, on_active, on_stop,
  start_candidate, drop_candidate, reset_candidate, extend_candidate, confirm_trip, end_by_gap,
  open_stop, keep_moving, complete_trip, clear_stop, extend_active, resume_trip, end_by_stop,
}

module _ {W : Type 0} ⦃f : Float64 W⦄ where
  -- The fields that name the pair and its window.
  abbrev Same : TripDetectionState W → Run W → Type 0
  Same s r =
      (r.new_state.user_id ≡ s.user_id)
      × (r.new_state.device_id ≡ s.device_id)
      × (r.new_state.late_arrival_window_sec ≡ s.late_arrival_window_sec)

  flush_active-Same :
      (s : TripDetectionState W) (r q : Run W) → Same s r → flush_active r ≡ some q → Same s q
  unfolding flush_active
  flush_active-Same s r q h e = ground arith

  open_candidate-Same :
      (s : TripDetectionState W) (x : Sample W) (r : Run W) → Same s r → Same s (open_candidate x r)
  unfolding open_candidate start_candidate
  open_candidate-Same s x r h = ground arith

  on_candidate-Same :
      (s : TripDetectionState W) (fresh : ℕ → Uuid) (cfg : TripDetectionConfig W) (now : Time)
      (x : Sample W) (r q : Run W)
      → Same s r
      → on_candidate fresh cfg now x r ≡ some q
      → Same s q
  unfolding on_candidate start_candidate open_candidate drop_candidate reset_candidate
      extend_candidate confirm_trip
  on_candidate-Same s fresh cfg now x r q h e = ground arith

  on_active-Same :
      (s : TripDetectionState W) (cfg : TripDetectionConfig W) (x : Sample W) (r q : Run W)
      → Same s r
      → on_active cfg x r ≡ some q
      → Same s q
  unfolding on_active end_by_gap open_stop keep_moving complete_trip clear_stop extend_active
      open_candidate start_candidate flush_active
  on_active-Same s cfg x r q h e = ground arith

  on_stop-Same :
      (s : TripDetectionState W) (cfg : TripDetectionConfig W) (x : Sample W) (r q : Run W)
      → Same s r
      → on_stop cfg x r ≡ some q
      → Same s q
  unfolding on_stop resume_trip end_by_stop complete_trip clear_stop extend_active
  on_stop-Same s cfg x r q h e = ground arith

  -- A point takes part if it is accepted and has coordinates.
  abbrev pub is_usable : ProcessedLocationPoint W → Bool
  is_usable p = p.is_accepted && is_some (coordinates p)

  module _ (fresh : ℕ → Uuid) (cfg : TripDetectionConfig W) (now : Time) where
    dispatch-Same :
        (s : TripDetectionState W) (k : TripState) (x : Sample W) (r q : Run W)
        → Same s r
        → dispatch fresh cfg now k x r ≡ some q
        → Same s q
    unfolding dispatch
    dispatch-Same s TripState.idle x r q h e = ground (arith, open_candidate-Same s x r h)
    dispatch-Same s TripState.motion_candidate x r q h e =
        on_candidate-Same s fresh cfg now x r q h e
    dispatch-Same s TripState.trip_active x r q h e = on_active-Same s cfg x r q h e
    dispatch-Same s TripState.stop_candidate x r q h e = on_stop-Same s cfg x r q h e
    dispatch-Same s (TripState.unknown text) x r q h e = ground arith

    step_sample-Same :
        (s : TripDetectionState W) (o : Option (Sample W)) (r q : Run W)
        → Same s r
        → step_sample fresh cfg now o r ≡ some q
        → Same s q
    unfolding step_sample note_point
    step_sample-Same s none r q h e = ground arith
    step_sample-Same s (some x) r q h e =
        elim (Option-cases (dispatch fresh cfg now r.new_state.state x r)) [
          | inl d ↦ ground arith
          | inr (t, d) ↦ ground (arith, dispatch-Same s r.new_state.state x r t h d)
        ]

    process_points-Same :
        (s : TripDetectionState W) (ps : List (ProcessedLocationPoint W)) (r q : Run W)
        → Same s r
        → process_points fresh cfg now ps r ≡ some q
        → Same s q
    unfolding process_points
    process_points-Same s [] r q h e = ground arith
    process_points-Same s (p ∷ ps) r q h e =
        elim (Option-cases (step_sample fresh cfg now (sample_of cfg p) r)) [
          | inl d ↦ ground arith
          | inr (t, d) ↦
              process_points-Same s ps t q (step_sample-Same s (sample_of cfg p) r t h d)
                (rw d at e)
        ]

    flush_if_active-Same :
        (s : TripDetectionState W) (k : TripState) (r q : Run W)
        → Same s r
        → flush_if_active k r ≡ some q
        → Same s q
    flush_if_active-Same s TripState.trip_active r q h e = flush_active-Same s r q h e
    flush_if_active-Same s TripState.idle r q h e = ground arith
    flush_if_active-Same s _ r q h e = ground arith

    -- A batch keeps the pair and the width of its window for late points, moves the watermark to that
    -- width before `now` (stopping at the zero time), and stamps the state with `now`, whatever the
    -- points and the earlier watermark are.
    pub process_batch_watermark :
        (s : TripDetectionState W) (issued : ℕ) (ps : List (ProcessedLocationPoint W))
        {result : ProcessBatchResult W}
        → process_batch fresh cfg s issued ps now ≡ some result
        → (result.new_state.user_id ≡ s.user_id)
          × (result.new_state.device_id ≡ s.device_id)
          × (result.new_state.late_arrival_window_sec ≡ s.late_arrival_window_sec)
          × (result.new_state.last_watermark_at ≡ some (now - seconds s.late_arrival_window_sec))
          × (result.new_state.updated_at ≡ now)
    unfolding process_batch finish_run start_run
    process_batch_watermark s issued ps {result} e =
        elim (Option-cases (process_points fresh cfg now ps (start_run s issued))) [
          | inl d ↦ ground arith
          | inr (r, d) ↦ elim (Option-cases (flush_if_active r.new_state.state r)) [
            | inl g ↦ ground arith
            | inr (q, g) ↦
                let same =
                  flush_if_active-Same s _ r q
                    (process_points-Same s ps (start_run s issued) r (refl, refl, refl) d) g in
                ground arith
          ]
        ]

    sample_of_unusable :
        (p : ProcessedLocationPoint W) → is_usable p ≡ false → sample_of cfg p ≡ none
    unfolding sample_of
    sample_of_unusable p e = ground arith

    process_points-keep :
        (ps : List (ProcessedLocationPoint W)) (r : Run W)
        → process_points fresh cfg now (keep is_usable ps) r ≡ process_points fresh cfg now ps r
    unfolding process_points step_sample
    process_points-keep [] r = refl
    process_points-keep (p ∷ ps) r = elim (Bool-cases (is_usable p)) [
      | inl e ↦ rw e (
          ap (λ k. step_sample fresh cfg now (sample_of cfg p) r >>= k)
            (fun_ext λ q. process_points-keep ps q))
      | inr e ↦ rw (e, sample_of_unusable p e) (process_points-keep ps r)
    ]

    -- A batch gives the same result, commands and state, as the batch of its usable points alone: a
    -- point that was rejected, or that has no filtered coordinates, leaves no trace.
    pub process_batch_ignores_unusable :
        (s : TripDetectionState W) (issued : ℕ) (ps : List (ProcessedLocationPoint W))
        → process_batch fresh cfg s issued (keep is_usable ps) now
          ≡ process_batch fresh cfg s issued ps now
    unfolding process_batch
    process_batch_ignores_unusable s issued ps = rw (process_points-keep ps (start_run s issued))
