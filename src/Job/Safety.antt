-- ===== src/Job/Safety.antt =====
-- Panics of a detection cycle over a repository: `RunOnce`,
-- services/tracking-worker/internal/usecase/trip_detection_job.go.
use wrany.Prelude.{
  ℕ, suc, ◌-◌, ◌≡◌, refl, true, Option, none, some, List, [], ◌∷◌, Time, Uuid, All, All-append,
  IfSome, IfSome-some, Yields, Yields-from, Yields-bind, Yields-map, Yields-option_map,
  Yields-exists, is_some, read_or-elim, if-elim, ltb, seconds,
}
use wrany.Float64.{Float64}
use wrany.Domain.Point.{RawLocationPoint, ProcessedLocationPoint, NoiseConfig}
use wrany.Domain.Trip.{Trip, TripDetectionState, TripDetectionConfig, TripDetectionBatch}
use wrany.Detection.Command.{CommandKind, TripCommand, ProcessBatchResult}
use wrany.Detection.Protocol.{Carries, CreatesTrip, IsComplete}
use wrany.Detection.Soundness.{IsSound}
use wrany.Detection.Batch.{Promise, process_batch-Ok}
use wrany.Noise.Pipeline
use wrany.Job.Batch.{add_kind, add_commands, build_batch}
use wrany.Job.Publish.{Wiring, publish_kind, publish_events}
use wrany.Job.Cycle.{
  TripDetectionRepository, Work, window_begin, window_end, commit, detect, fetch_and_detect,
  process_pair, process_pairs, run_once,
}

abbrev pub IsPresent : {W : Type 0} → Option (Trip W) → Type 0
IsPresent o = is_some o ≡ true

module _ {W : Type 0} where
  -- The batch holds the state, and no nil trip.
  abbrev Keeps : TripDetectionState W → TripDetectionBatch W → Type 0
  Keeps s b = (b.new_state ≡ s) × All IsPresent b.new_trips

  CreatesTrip-is_some :
      (c : TripCommand W) (o : Option (Trip W)) → CreatesTrip c o → is_some o ≡ true
  CreatesTrip-is_some c none h = absurd h
  CreatesTrip-is_some c (some t) h = refl

  add_kind-Keeps :
      (s : TripDetectionState W) (k : CommandKind) (c : TripCommand W) (b : TripDetectionBatch W)
      → Carries k c
      → Keeps s b
      → Yields (Keeps s) (add_kind k c b)
  unfolding add_kind
  add_kind-Keeps s CommandKind.create_trip c b h k =
      (k.0, All-append IsPresent b.new_trips (c.trip ∷ []) k.1 (CreatesTrip-is_some c c.trip h, tt))
  add_kind-Keeps s CommandKind.update_trip c b h k = k
  add_kind-Keeps s CommandKind.complete_trip c b h k = Yields-from (Keeps s) c.ended_at _ h.0 λ t _.
      Yields-from (Keeps s) c.end_lat _ h.1
        λ lat _. Yields-from (Keeps s) c.end_lon _ h.2 λ lon _. k

  add_commands-Keeps :
      (s : TripDetectionState W) (cs : List (TripCommand W)) (b : TripDetectionBatch W)
      → All IsComplete cs
      → Keeps s b
      → Yields (Keeps s) (add_commands cs b)
  unfolding add_commands
  add_commands-Keeps s [] b h k = k
  add_commands-Keeps s (c ∷ cs) b (h, hs) k =
      Yields-bind (Keeps s) (Keeps s) _ _ (add_kind-Keeps s c.kind c b h.0 k)
        λ next k'. add_commands-Keeps s cs next hs k'

  build_batch-Keeps :
      (result : ProcessBatchResult W)
      → All IsComplete result.commands
      → Yields (Keeps result.new_state) (build_batch result)
  unfolding build_batch
  build_batch-Keeps result h = add_commands-Keeps result.new_state result.commands _ h (refl, tt)

-- What a cycle relies on: the states that it may load are sound, and stay so when it writes one.
pub record KeepsSound {W : Type 0} {S : Type 0} (repo : TripDetectionRepository W S)
    (Sound : S → Type 0) : Type 0 where
  pub loads :
      (user device : Uuid) (store : S) (s : TripDetectionState W)
      → Sound store
      → repo.load_state user device store ≡ some s
      → IsSound s
  pub applies :
      (batch : TripDetectionBatch W) (store : S)
      → Sound store
      → IsSound batch.new_state
      → All IsPresent batch.new_trips
      → Yields (IfSome Sound) (repo.apply_batch batch store)

module _ {W : Type 0} ⦃f : Float64 W⦄ (w : Wiring W) (now : Time) where
  publish_kind-total :
      (k : CommandKind) (issued : ℕ) (c : TripCommand W)
      → Carries k c
      → Yields (λ sent. Unit) (publish_kind w now k issued c)
  unfolding publish_kind
  publish_kind-total CommandKind.create_trip issued c h =
      Yields-from (λ sent. Unit) c.trip _ (CreatesTrip-is_some c c.trip h) λ t _. tt
  publish_kind-total CommandKind.update_trip issued c h = tt
  publish_kind-total CommandKind.complete_trip issued c h =
      Yields-from (λ sent. Unit) c.ended_at _ h.0 λ t _. tt

  publish_events-total :
      (issued : ℕ) (cs : List (TripCommand W))
      → All IsComplete cs
      → Yields (λ sent. Unit) (publish_events w now issued cs)
  unfolding publish_events
  publish_events-total issued [] h = tt
  publish_events-total issued (c ∷ cs) (h, hs) =
      Yields-bind (λ sent. Unit) (λ sent. Unit) _ _ (publish_kind-total c.kind issued c h.0)
        λ first _.
          Yields-bind (λ sent. Unit) (λ sent. Unit) _ _ (publish_events-total (suc issued) cs hs)
            λ rest _. tt

module _ {W : Type 0} {S : Type 0} ⦃f : Float64 W⦄ (repo : TripDetectionRepository W S)
    (w : Wiring W) (cfg : TripDetectionConfig W) (noise : NoiseConfig W) (Sound : S → Type 0)
    (keeps : KeepsSound repo Sound) where
  abbrev SoundWork : Work S → Type 0
  SoundWork work = Sound work.store

  commit-Sound :
      (result : ProcessBatchResult W) (batch : TripDetectionBatch W) (now : Time) (work : Work S)
      → IsSound batch.new_state
      → All IsPresent batch.new_trips
      → All IsComplete result.commands
      → SoundWork work
      → Yields SoundWork (commit repo w cfg noise result batch now work)
  unfolding commit
  commit-Sound result batch now work sound set complete h =
      Yields-bind (IfSome Sound) SoundWork _ _ (keeps.applies batch work.store h sound set)
        λ answer stays.
          read_or-elim (Yields SoundWork) answer _ _ (λ _. h)
            λ stored e. Yields-option_map SoundWork _ _ (
              Yields-map (λ sent. Unit) _ _
                (publish_events-total w now result.issued result.commands complete)
                λ sent _. IfSome-some Sound answer stays e)

  detect-Sound :
      (s : TripDetectionState W) (points : List (RawLocationPoint W))
      (history : List (ProcessedLocationPoint W)) (now : Time) (work : Work S)
      → IsSound s
      → SoundWork work
      → Yields SoundWork (detect repo w cfg noise s points history now work)
  unfolding detect
  detect-Sound s points history now work sound h =
      Yields-bind (Promise s) SoundWork _ _
        (process_batch-Ok w.fresh cfg now s work.issued
          (Pipeline.process_batch noise history points s.last_processed_at now).accepted sound)
        λ result (good, _, complete).
          Yields-bind (Keeps result.new_state) SoundWork _ _ (build_batch-Keeps result complete)
            λ batch (same, set). commit-Sound result _ now work (rw same good) set complete h

  fetch_and_detect-Sound :
      (user device : Uuid) (s : TripDetectionState W) (now : Time) (work : Work S)
      → IsSound s
      → SoundWork work
      → Yields SoundWork (fetch_and_detect repo w cfg noise user device s now work)
  unfolding fetch_and_detect
  fetch_and_detect-Sound user device s now work sound h =
      let begin = window_begin repo w cfg noise s now in
      let end = window_end repo w cfg noise s now in
      read_or-elim (Yields SoundWork)
        (repo.fetch_unprocessed_points user device begin end work.store) _ _ (λ _. h)
        λ points _.
          read_or-elim (Yields SoundWork)
            (repo.fetch_processed_history user device end 100 work.store) _ _ (λ _. h)
            λ history _. detect-Sound s points history now work sound h

  process_pair-Sound :
      (user device : Uuid) (now : Time) (work : Work S)
      → SoundWork work
      → Yields SoundWork (process_pair repo w cfg noise user device now work)
  unfolding process_pair
  process_pair-Sound user device now work h =
      read_or-elim (Yields SoundWork) (repo.load_state user device work.store) _ _ (λ _. h)
        λ s e.
          let begin = window_begin repo w cfg noise s now in
          let end = window_end repo w cfg noise s now in
          if-elim (Yields SoundWork) (ltb begin end) _ _
            (λ _.
              fetch_and_detect-Sound user device s now work
                (keeps.loads user device work.store s h e) h)
            (λ _. h)

  process_pairs-Sound :
      (pairs : List (Uuid × Uuid)) (now : Time) (work : Work S)
      → SoundWork work
      → Yields SoundWork (process_pairs repo w cfg noise pairs now work)
  unfolding process_pairs
  process_pairs-Sound [] now work h = h
  process_pairs-Sound ((user, device) ∷ rest) now work h =
      Yields-bind SoundWork SoundWork _ _ (process_pair-Sound user device now work h)
        λ next k. process_pairs-Sound rest now next k

  -- Over a repository that loads sound states and keeps them sound, a cycle of the detection job
  -- never panics, whatever the stored points and the failures of the database are, and leaves the
  -- database sound again.
  pub run_once_safe :
      (now : Time) (work : Work S)
      → Sound work.store
      → (after : Work S) × (run_once repo w cfg noise now work ≡ some after) × Sound after.store
  unfolding run_once
  run_once_safe now work h = Yields-exists SoundWork _ (
      read_or-elim (Yields SoundWork)
        (repo.load_pairs (now - seconds cfg.late_arrival_window_sec) work.store) _ _ (λ _. h)
        λ pairs _. process_pairs-Sound pairs now work h)
