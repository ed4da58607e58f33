-- ===== src/Job/Publish.antt =====
-- `publishEvents`: services/tracking-worker/internal/usecase/trip_detection_job.go. The result is
-- what is handed to the publisher, in order; its answers are only logged. `uuid.New().String()` is
-- `text (fresh n)`.
use wrany.Prelude.{
  ℕ, suc, Option, some, ◌>>=◌, String, List, [], ◌∷◌, ◌++◌, Time, Uuid, Result, ok, err,
}
use wrany.Float64.{Float64, nought}
use wrany.Domain.Trip.{Trip}
use wrany.Detection.Command.{CommandKind, TripCommand}
use wrany.Events.Subject
use wrany.Events.Validation.{EventError, Envelope}
use wrany.Events.Payloads.{StartedPayload, UpdatedPayload, CompletedPayload}
use wrany.Events.Build.{
  Marshaller, EventHead, new_started_event, new_updated_event, new_completed_event,
}

-- What the job is built with and calls: the text of a uuid, fresh uuids, JSON, its own name.
pub record Wiring (W : Type 0) : Type 0 where
  pub text : Uuid → String
  pub fresh : ℕ → Uuid
  pub json : Marshaller W
  pub producer : String

-- A subject with the event that is published to it.
abbrev pub Message : Type 0
Message = String × Envelope

-- `continue` on a build error, `Publish` otherwise.
abbrev pub handed : String → Result EventError Envelope → List Message
handed subject (ok event) = (subject, event) ∷ []
handed subject (err e) = []

module _ {W : Type 0} ⦃f : Float64 W⦄ (w : Wiring W) (now : Time) where
  abbrev pub head_of : ℕ → Uuid → EventHead
  head_of issued trip_id = record {
    event_id = w.text (w.fresh issued);
    produced_at = now;
    producer = w.producer;
    correlation_id = w.text trip_id;
  }

  abbrev pub started_payload : Trip W → StartedPayload
  started_payload t = record {
    trip_id = w.text t.id;
    user_id = w.text t.user_id;
    device_id = w.text t.device_id;
    started_at = t.started_at;
  }

  -- The literal in the source gives two fields of the seven.
  abbrev pub updated_payload : Uuid → UpdatedPayload W
  updated_payload id = record {
    trip_id = w.text id;
    user_id = "";
    device_id = "";
    updated_at = now;
    distance_m = nought;
    duration_s = nought;
    point_count = 0;
  }

  -- The literal in the source gives two fields of the eight.
  abbrev pub completed_payload : Uuid → Time → CompletedPayload W
  completed_payload id ended_at = record {
    trip_id = w.text id;
    user_id = "";
    device_id = "";
    started_at = 0;
    completed_at = ended_at;
    distance_m = nought;
    duration_s = nought;
    point_count = 0;
  }

  unfoldable pub publish_kind : CommandKind → ℕ → TripCommand W → Option (List Message)
  publish_kind CommandKind.create_trip issued c = do
    t ← c.trip
    some (
        handed Subject.trip_started
          (new_started_event w.json (head_of issued t.id) (started_payload t)))
  publish_kind CommandKind.update_trip issued c = some (
      handed Subject.trip_updated
        (new_updated_event w.json (head_of issued c.trip_id) (updated_payload c.trip_id)))
  publish_kind CommandKind.complete_trip issued c = do
    ended_at ← c.ended_at
    some (
        handed Subject.trip_completed (
          new_completed_event w.json (head_of issued c.trip_id)
            (completed_payload c.trip_id ended_at)))

  unfoldable pub publish_events : ℕ → List (TripCommand W) → Option (List Message)
  publish_events issued [] = some []
  publish_events issued (c ∷ cs) = do
    first ← publish_kind c.kind issued c
    rest ← publish_events (suc issued) cs
    some (first ++ rest)
