-- ===== src/Job/Announce.antt =====
-- Which events of a batch reach the publisher: `publishEvents`,
-- services/tracking-worker/internal/usecase/trip_detection_job.go.
use wrany.Prelude.{
  ℕ, suc, ◌<◌, ◌≡◌, refl, Bool, true, false, Option, none, some, ◌>>=◌, String, List, [], ◌∷◌, ◌++◌,
  map, Time, Uuid, All, All-append, str_eq, Result, ok, err, arith, is_some, seconds, IfSome,
  IfSome-read, IfSome-bind, IfSome-some, Yields, Yields-from, Yields-bind, Yields-exists,
}
use mathlib.Core.List.{map-append}
use wrany.Float64.{Float64}
use wrany.Domain.Trip.{Trip}
use wrany.Detection.Command.{CommandKind, TripCommand}
use wrany.Events.Subject
use wrany.Events.Validation.{
  Bytes, EventError, Envelope, new_validation_error, require_non_empty, require_non_zero_time,
  require_non_negative, new_envelope, validate_envelope,
}
use wrany.Events.Payloads.{StartedPayload, validate_started, validate_updated, validate_completed}
use wrany.Events.Build.{
  EventHead, params_of, new_started_event, new_updated_event, new_completed_event,
}
use wrany.Job.Publish.{
  Wiring, Message, handed, head_of, started_payload, updated_payload, completed_payload,
  publish_kind, publish_events,
}

-- 9999 years of 365.2425 days, in nanoseconds: the end of what `json.Marshal` takes for a time.
abbrev pub year_10000 : Time
year_10000 = seconds 315_537_897_600

module _ {W : Type 0} where
  abbrev pub created_by : CommandKind → Option (Trip W) → List Uuid
  created_by CommandKind.create_trip (some t) = t.id ∷ []
  created_by CommandKind.create_trip none = []
  created_by CommandKind.update_trip t = []
  created_by CommandKind.complete_trip t = []

  -- The trips that the commands create.
  unfoldable pub created : List (TripCommand W) → List Uuid
  created [] = []
  created (c ∷ cs) = created_by c.kind c.trip ++ created cs

  abbrev pub DatedTrip : Option (Trip W) → Type 0
  DatedTrip none = ⊥
  DatedTrip (some t) = (0 < t.started_at) × (t.started_at < year_10000)

  abbrev pub DatedKind : CommandKind → Option (Trip W) → Bool → Type 0
  DatedKind CommandKind.create_trip t ended = DatedTrip t
  DatedKind CommandKind.update_trip t ended = Unit
  DatedKind CommandKind.complete_trip t ended = ended ≡ true

  -- A new trip is there, with a start that is set and can be written; a completion has its time.
  abbrev pub IsDated : TripCommand W → Type 0
  IsDated c = DatedKind c.kind c.trip (is_some c.ended_at)

module _ {W : Type 0} ⦃f : Float64 W⦄ (w : Wiring W) (now : Time) where
  updated_refused :
      (h : EventHead) (id : Uuid)
      → handed Subject.trip_updated (new_updated_event w.json h (updated_payload w now id)) ≡ []
  unfolding new_updated_event validate_updated new_validation_error require_non_empty
      require_non_zero_time require_non_negative
  updated_refused h id = ground arith

  completed_refused :
      (h : EventHead) (id : Uuid) (ended_at : Time)
      → handed Subject.trip_completed
          (new_completed_event w.json h (completed_payload w now id ended_at))
        ≡ []
  unfolding new_completed_event validate_completed new_validation_error require_non_empty
      require_non_zero_time require_non_negative
  completed_refused h id ended_at = ground arith

  abbrev pub IsStart : Message → Type 0
  IsStart m = (m.0 ≡ Subject.trip_started) × (m.1.event_type ≡ Subject.trip_started)

  new_envelope_type :
      (h : EventHead) (t : String) (o : Time) (raw : Option Bytes) (e : Envelope)
      → new_envelope (params_of h t o) raw ≡ ok e
      → e.event_type ≡ t
  unfolding new_envelope
  new_envelope_type h t o raw e p = ground arith

  handed_starts :
      (h : EventHead) (p : StartedPayload)
      → All IsStart (handed Subject.trip_started (new_started_event w.json h p))
  unfolding new_started_event
  handed_starts h p = go (new_started_event w.json h p) refl
    where
      go :
          (r : Result EventError Envelope)
          → new_started_event w.json h p ≡ r
          → All IsStart (handed Subject.trip_started r)
      go (err e) q = tt
      go (ok e) q = (
        (
          refl,
          ground
              (arith, new_envelope_type h Subject.trip_started p.started_at (w.json.started p) e),
        ),
        tt,
      )

  publish_kind_starts :
      (k : CommandKind) (issued : ℕ) (c : TripCommand W)
      → IfSome (All IsStart) (publish_kind w now k issued c)
  unfolding publish_kind
  publish_kind_starts CommandKind.create_trip issued c =
      IfSome-read (All IsStart) c.trip _
        λ t _. handed_starts (head_of w now issued t.id) (started_payload w now t)
  publish_kind_starts CommandKind.update_trip issued c =
      rw (updated_refused (head_of w now issued c.trip_id) c.trip_id) tt
  publish_kind_starts CommandKind.complete_trip issued c =
      IfSome-read (All IsStart) c.ended_at _
        λ t _. rw (completed_refused (head_of w now issued c.trip_id) c.trip_id t) tt

  publish_events_starts :
      (issued : ℕ) (cs : List (TripCommand W))
      → IfSome (All IsStart) (publish_events w now issued cs)
  unfolding publish_events
  publish_events_starts issued [] = tt
  publish_events_starts issued (c ∷ cs) =
      IfSome-bind (All IsStart) (All IsStart) _ _ (publish_kind_starts c.kind issued c) λ first h.
        IfSome-bind (All IsStart) (All IsStart) _ _ (publish_events_starts (suc issued) cs)
          λ rest k. All-append IsStart first rest h k

  -- Whatever the commands of a batch are, every event handed to the publisher is a trip.started.v1
  -- event: the payloads of trip.updated.v1 and trip.completed.v1 are built with no user, no device
  -- and, for the latter, no start, so that their own validation refuses them all.
  pub publish_events_only_starts :
      (issued : ℕ) (cs : List (TripCommand W)) {sent : List Message}
      → publish_events w now issued cs ≡ some sent
      → All IsStart sent
  publish_events_only_starts issued cs e =
      IfSome-some (All IsStart) _ (publish_events_starts issued cs) e

  -- What is relied on for a start to be announced: the texts of uuids are not empty, the job has a
  -- name and a clock, and JSON is made of a payload dated before the year 10000.
  pub record IsWired : Type 0 where
    pub texts : (u : Uuid) → str_eq (w.text u) "" ≡ false
    pub named : str_eq w.producer "" ≡ false
    pub clocked : 0 < now
    pub marshals :
        (p : StartedPayload)
        → p.started_at < year_10000
        → (b : ℕ) × (bs : Bytes) × (w.json.started p ≡ some (b ∷ bs))

  abbrev Announces : List Uuid → List Message → Type 0
  Announces ids sent = map (λ m. m.1.correlation_id) sent ≡ map w.text ids

  handed_started :
      IsWired
      → (issued : ℕ) (t : Trip W) → 0 < t.started_at
      → t.started_at < year_10000
      → Announces (t.id ∷ []) (
          handed Subject.trip_started
            (new_started_event w.json (head_of w now issued t.id) (started_payload w now t)))
  unfolding new_started_event validate_started new_validation_error require_non_empty
      require_non_zero_time new_envelope validate_envelope
  handed_started wired issued t early late =
      let (b, bs, e) = wired.marshals (started_payload w now t) late in
      ground (
        arith,
        wired.texts t.id,
        wired.texts t.user_id,
        wired.texts t.device_id,
        wired.texts (w.fresh issued),
        wired.named,
        wired.clocked,
        e,
      )

  Announces-append :
      (ids more : List Uuid) (sent rest : List Message)
      → Announces ids sent
      → Announces more rest
      → Announces (ids ++ more) (sent ++ rest)
  Announces-append ids more sent rest h k = simp (map-append, h, k)

  publish_kind-Announces :
      IsWired
      → (k : CommandKind) (issued : ℕ) (c : TripCommand W) → DatedKind k c.trip (is_some c.ended_at)
      → Yields (Announces (created_by k c.trip)) (publish_kind w now k issued c)
  unfolding publish_kind
  publish_kind-Announces wired CommandKind.create_trip issued c d = go c.trip d
    where
      go :
          (o : Option (Trip W))
          → DatedTrip o
          → Yields (Announces (created_by CommandKind.create_trip o)) (
              o >>= λ t. some (
                handed Subject.trip_started
                  (new_started_event w.json (head_of w now issued t.id) (started_payload w now t))))
      go none d = absurd d
      go (some t) d = handed_started wired issued t d.0 d.1
  publish_kind-Announces wired CommandKind.update_trip issued c d =
      rw (updated_refused (head_of w now issued c.trip_id) c.trip_id) refl
  publish_kind-Announces wired CommandKind.complete_trip issued c d =
      Yields-from (Announces []) c.ended_at _ d
        λ t _. rw (completed_refused (head_of w now issued c.trip_id) c.trip_id t) refl

  publish_events-Announces :
      IsWired
      → (issued : ℕ) (cs : List (TripCommand W)) → All IsDated cs
      → Yields (Announces (created cs)) (publish_events w now issued cs)
  unfolding publish_events created
  publish_events-Announces wired issued [] d = refl
  publish_events-Announces wired issued (c ∷ cs) (d, ds) =
      Yields-bind (Announces (created_by c.kind c.trip)) _ _ _
        (publish_kind-Announces wired c.kind issued c d)
        λ first h.
          Yields-bind (Announces (created cs)) _ _ _
            (publish_events-Announces wired (suc issued) cs ds)
            λ rest k. Announces-append (created_by c.kind c.trip) (created cs) first rest h k

  -- With texts for uuids, a name, a clock and JSON for payloads dated before the year 10000, a batch
  -- whose new trips have a start that is set and can be written, and whose completions have a time,
  -- announces each new trip, in order and once: the correlation ids of what is published are the texts
  -- of the created trips' ids.
  pub publish_events_announces :
      IsWired
      → (issued : ℕ) (cs : List (TripCommand W)) → All IsDated cs
      → (sent : List Message) × (publish_events w now issued cs ≡ some sent)
        × (map (λ m. m.1.correlation_id) sent ≡ map w.text (created cs))
  publish_events_announces wired issued cs d =
      Yields-exists (Announces (created cs)) _ (publish_events-Announces wired issued cs d)
