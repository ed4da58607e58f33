-- ===== src/Detection/Confirmation.antt =====
-- The distance and the duration of the trips that `ProcessBatch` creates:
-- services/tracking-worker/internal/usecase/trip_detection.go.
use wrany.Prelude.{
  ℕ, ◌+◌, ◌-◌, ◌/◌, ◌≤◌, ◌≡◌, Bool, true, false, not, ◌&&◌, ◌||◌, Option, none, some, List, [], ◌∷◌,
  ◌++◌, Time, Uuid, All, All-append, IfSome, IfSome-bind, IfSome-read, IfSome-some, seconds, leb,
  if◌then◌else◌, if-elim, arith,
}
use wrany.Float64.{Float64, haversine_m}
use wrany.Domain.Point.{ProcessedLocationPoint}
use wrany.Domain.Trip.{TripState, Trip, TripPoint, TripDetectionState, TripDetectionConfig}
use wrany.Detection.Command.{CommandKind, TripCommand, ProcessBatchResult}
use wrany.Detection.Machine.{
  Run, Sample, update_command, flush_points, flush_active, open_candidate, drop_candidate,
  is_gap_exceeded, candidate_trip, confirm_trip, extend_candidate, is_confirmed, on_candidate,
  extend_active, complete_trip, end_by_gap, open_stop, keep_moving, on_active, resume_trip,
  end_by_stop, on_stop, dispatch, note_point, sample_of, step_sample, process_points,
  flush_if_active, start_run, finish_run, process_batch,
}

module _ {W : Type 0} ⦃f : Float64 W⦄ (cfg : TripDetectionConfig W) where
  open f use {lt, le}

  -- The trip has the distance and the duration that the settings ask for.
  abbrev pub IsFar : Option (Trip W) → Type 0
  IsFar none = ⊥
  IsFar (some trip) =
      (le cfg.motion_min_distance_m trip.distance_m ≡ true)
      × (cfg.motion_min_duration_sec ≤ trip.duration_sec)

  abbrev pub MeetsKind : CommandKind → Option (Trip W) → Type 0
  MeetsKind CommandKind.create_trip trip = IsFar trip
  MeetsKind CommandKind.update_trip trip = Unit
  MeetsKind CommandKind.complete_trip trip = Unit

  abbrev pub Meets : TripCommand W → Type 0
  Meets c = MeetsKind c.kind c.trip

  abbrev AllMeet : Run W → Type 0
  AllMeet r = All Meets r.commands

  snoc :
      (cs : List (TripCommand W)) (c : TripCommand W)
      → All Meets cs
      → Meets c
      → All Meets (cs ++ c ∷ [])
  snoc cs c h k = All-append Meets cs (c ∷ []) h (k, tt)

  branch :
      (b : Bool) (m n : Option (Run W))
      → (b ≡ true → IfSome AllMeet m)
      → (b ≡ false → IfSome AllMeet n)
      → IfSome AllMeet (if b then m else n)
  branch = if-elim (IfSome AllMeet)

  flush_points-Meets :
      (ps : List TripPoint) (r : Run W) → AllMeet r → IfSome AllMeet (flush_points ps r)
  unfolding flush_points update_command
  flush_points-Meets [] r h = h
  flush_points-Meets (p ∷ ps) r h =
      IfSome-read AllMeet r.new_state.active_trip_id _
        λ id _. snoc r.commands (update_command id r) h tt

  flush_active-Meets : (r : Run W) → AllMeet r → IfSome AllMeet (flush_active r)
  unfolding flush_active
  flush_active-Meets r h = flush_points-Meets r.active_points r h

  open_candidate-Meets : (x : Sample W) (r : Run W) → AllMeet r → AllMeet (open_candidate x r)
  unfolding open_candidate
  open_candidate-Meets x r h = if-elim AllMeet x.moving _ r (λ _. h) (λ _. h)

  far_enough :
      (started_at recorded_at : Time) (r : Run W)
      → is_confirmed cfg started_at recorded_at r ≡ true
      → (le cfg.motion_min_distance_m r.new_state.candidate_distance_m ≡ true)
        × (cfg.motion_min_duration_sec ≤ (recorded_at - started_at) / 1_000_000_000)
  unfolding is_confirmed
  far_enough started_at recorded_at r e = ground arith

  confirm_trip-Meets :
      (id : Uuid) (now started_at : Time) (x : Sample W) (r : Run W)
      → r.new_state.candidate_started_at ≡ some started_at
      → is_confirmed cfg started_at x.point.recorded_at r ≡ true
      → AllMeet r
      → IfSome AllMeet (confirm_trip id now x r)
  unfolding confirm_trip candidate_trip
  confirm_trip-Meets id now started_at x r s e h =
      IfSome-read AllMeet r.new_state.candidate_started_at _ λ t te.
        IfSome-read AllMeet r.new_state.candidate_start_lat _ λ lat _.
          IfSome-read AllMeet r.new_state.candidate_start_lon _ λ lon _.
            snoc r.commands _ h (ground (arith, far_enough started_at x.point.recorded_at r e))

  on_candidate-Meets :
      (fresh : ℕ → Uuid) (now : Time) (x : Sample W) (r : Run W)
      → AllMeet r
      → IfSome AllMeet (on_candidate fresh cfg now x r)
  unfolding on_candidate drop_candidate extend_candidate
  on_candidate-Meets fresh now x r h =
      let longer = extend_candidate x r in
      branch (x.point.is_stationary || is_gap_exceeded cfg r.new_state x.point.recorded_at) _ _
        (λ _. open_candidate-Meets x (drop_candidate r) h)
        (λ _. IfSome-read AllMeet longer.new_state.candidate_started_at _ λ t te.
          branch (is_confirmed cfg t x.point.recorded_at longer) _ _
            (λ e. confirm_trip-Meets _ now t x longer te e h) (λ _. h))

  end_by_gap-Meets : (x : Sample W) (r : Run W) → AllMeet r → IfSome AllMeet (end_by_gap x r)
  unfolding end_by_gap complete_trip
  end_by_gap-Meets x r h =
      IfSome-bind AllMeet AllMeet (flush_active r) _ (flush_active-Meets r h) λ q k.
        IfSome-read AllMeet q.new_state.last_processed_at _ λ t _.
          IfSome-read AllMeet q.new_state.active_trip_id _
            λ id _. open_candidate-Meets x _ (snoc q.commands _ k tt)

  open_stop-Meets : (x : Sample W) (r : Run W) → AllMeet r → IfSome AllMeet (open_stop x r)
  unfolding open_stop
  open_stop-Meets x r h =
      IfSome-bind AllMeet AllMeet (flush_active r) _ (flush_active-Meets r h) λ q k. k

  on_active-Meets : (x : Sample W) (r : Run W) → AllMeet r → IfSome AllMeet (on_active cfg x r)
  unfolding on_active keep_moving extend_active
  on_active-Meets x r h =
      branch (is_gap_exceeded cfg r.new_state x.point.recorded_at) _ _ (λ _. end_by_gap-Meets x r h)
        (λ _.
          branch x.point.is_stationary _ _ (λ _. open_stop-Meets x r h)
            (λ _. IfSome-read AllMeet r.new_state.active_trip_id _ λ id _. h))

  end_by_stop-Meets :
      (lat lon : W) (x : Sample W) (r : Run W)
      → AllMeet r
      → IfSome AllMeet (end_by_stop cfg lat lon x r)
  unfolding end_by_stop complete_trip
  end_by_stop-Meets lat lon x r h = IfSome-read AllMeet r.new_state.stop_started_at _ λ t _.
      branch (leb (t + seconds cfg.stop_min_duration_sec) x.point.recorded_at) _ _
        (λ _. IfSome-read AllMeet r.new_state.active_trip_id _ λ id _. snoc r.commands _ h tt)
        (λ _. h)

  on_stop-Meets : (x : Sample W) (r : Run W) → AllMeet r → IfSome AllMeet (on_stop cfg x r)
  unfolding on_stop resume_trip extend_active
  on_stop-Meets x r h = IfSome-read AllMeet r.new_state.stop_center_lat _ λ lat _.
      IfSome-read AllMeet r.new_state.stop_center_lon _ λ lon _.
        branch (not x.point.is_stationary && lt cfg.stop_radius_m (haversine_m lat lon x.lat x.lon))
          _ _ (λ _. IfSome-read AllMeet r.new_state.active_trip_id _ λ id _. h)
          (λ _. end_by_stop-Meets lat lon x r h)

  module _ (fresh : ℕ → Uuid) (now : Time) where
    dispatch-Meets :
        (k : TripState) (x : Sample W) (r : Run W)
        → AllMeet r
        → IfSome AllMeet (dispatch fresh cfg now k x r)
    unfolding dispatch
    dispatch-Meets TripState.idle x r h = open_candidate-Meets x r h
    dispatch-Meets TripState.motion_candidate x r h = on_candidate-Meets fresh now x r h
    dispatch-Meets TripState.trip_active x r h = on_active-Meets x r h
    dispatch-Meets TripState.stop_candidate x r h = on_stop-Meets x r h
    dispatch-Meets (TripState.unknown text) x r h = h

    step_sample-Meets :
        (o : Option (Sample W)) (r : Run W)
        → AllMeet r
        → IfSome AllMeet (step_sample fresh cfg now o r)
    unfolding step_sample note_point
    step_sample-Meets none r h = h
    step_sample-Meets (some x) r h =
        IfSome-bind AllMeet AllMeet _ _ (dispatch-Meets r.new_state.state x r h) λ q k. k

    process_points-Meets :
        (ps : List (ProcessedLocationPoint W)) (r : Run W)
        → AllMeet r
        → IfSome AllMeet (process_points fresh cfg now ps r)
    unfolding process_points
    process_points-Meets [] r h = h
    process_points-Meets (p ∷ ps) r h =
        IfSome-bind AllMeet AllMeet _ _ (step_sample-Meets (sample_of cfg p) r h)
          λ q k. process_points-Meets ps q k

    flush_if_active-Meets :
        (k : TripState) (r : Run W) → AllMeet r → IfSome AllMeet (flush_if_active k r)
    flush_if_active-Meets TripState.trip_active r h = flush_active-Meets r h
    flush_if_active-Meets TripState.idle r h = h
    flush_if_active-Meets _ r h = h

    -- Every trip that a batch creates has at least the configured distance, and has lasted at least
    -- the configured number of whole seconds when it is created.
    pub process_batch_confirms :
        (s : TripDetectionState W) (issued : ℕ) (ps : List (ProcessedLocationPoint W))
        {result : ProcessBatchResult W}
        → process_batch fresh cfg s issued ps now ≡ some result
        → All Meets result.commands
    unfolding process_batch finish_run start_run
    process_batch_confirms s issued ps e =
        IfSome-some (λ result. All Meets result.commands) _
          (IfSome-bind AllMeet _ _ _ (process_points-Meets ps (start_run s issued) tt)
            λ r h. IfSome-bind AllMeet _ _ _ (flush_if_active-Meets r.new_state.state r h) λ q k. k)
          e
