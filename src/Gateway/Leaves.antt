-- ===== src/Gateway/Leaves.antt =====
-- What a batch leaves behind whether or not it is answered: `IngestBatch`,
-- services/tracking-gateway/internal/usecase/tracker_ingestion.go.
use wrany.Prelude.{
  Bool, true, false, String, List, [], ◌∷◌, Time, Result, ok, err, length, str_eq, if-elim, ltb,
}
use wrany.Float64.{Float64}
use wrany.Events.Subject
use wrany.Events.Validation.{Envelope, EventError}
use wrany.Gateway.Event.{TrackerSession, LocationEvent, validate_location_event}
use wrany.Gateway.Ingest.{
  PublishAnswer, Services, BatchResult, IngestError, Settings, empty_result, settle, send,
  deduplicate, ingest_one, ingest_all, ingest_batch,
}

-- The services are left in a state of which `P` holds.
abbrev pub Leaves : {S A : Type 0} → (S → Type 0) → Result (IngestError × S) (A × S) → Type 0
Leaves P (err (e, s)) = P s
Leaves P (ok (a, s)) = P s

module _ {W : Type 0} {S : Type 0} ⦃f : Float64 W⦄ (services : Services S) (set : Settings W)
    (session : TrackerSession) (P : S → Type 0)
    (published : (subject : String) (e : Envelope) (s : S)
      → P s
      → P (services.publish subject e s).1)
    (marked : (id : String) (s : S)
      → P s
      → P (services.mark_published session.user_id session.device_id id s)) where
  settle-Leaves :
      (id : String) (r : BatchResult) (answer : PublishAnswer × S)
      → P answer.1
      → Leaves P (settle services set session id r answer)
  unfolding settle
  settle-Leaves id r (PublishAnswer.publish_failed, s) h = h
  settle-Leaves id r (PublishAnswer.other_error e, s) h = h
  settle-Leaves id r (PublishAnswer.acked, s) h = marked id s h

  send-Leaves :
      (id : String) (r : BatchResult) (built : Result EventError Envelope) (s : S)
      → P s
      → Leaves P (send services set session id r built s)
  unfolding send
  send-Leaves id r (err e) s h = h
  send-Leaves id r (ok envelope) s h =
      settle-Leaves id r _ (published Subject.location_events envelope s h)

  deduplicate-Leaves :
      (now : Time) (ev : LocationEvent W) (r : BatchResult) (answer : Result String Bool) (s : S)
      → P s
      → Leaves P (deduplicate services set session now ev r answer s)
  unfolding deduplicate
  deduplicate-Leaves now ev r (err e) s h = h
  deduplicate-Leaves now ev r (ok true) s h = h
  deduplicate-Leaves now ev r (ok false) s h = send-Leaves ev.event_id r _ s h

  ingest_one-Leaves :
      (now : Time) (ev : LocationEvent W) (r : BatchResult) (s : S)
      → P s
      → Leaves P (ingest_one services set session now ev r s)
  unfolding ingest_one
  ingest_one-Leaves now ev r s h =
      if-elim (Leaves P) (str_eq (validate_location_event ev) "") _ _
        (λ _. deduplicate-Leaves now ev r _ s h) (λ _. h)

  continue-Leaves :
      (now : Time) (evs : List (LocationEvent W))
      (step : Result (IngestError × S) (BatchResult × S))
      → Leaves P step
      → ((r : BatchResult) (s : S) → P s → Leaves P (ingest_all services set session now evs r s))
      → Leaves P
          (elim step [ err e ↦ err e | ok (r, s) ↦ ingest_all services set session now evs r s ])
  continue-Leaves now evs (err (e, s)) h rest = h
  continue-Leaves now evs (ok (r, s)) h rest = rest r s h

  ingest_all-Leaves :
      (now : Time) (evs : List (LocationEvent W)) (r : BatchResult) (s : S)
      → P s
      → Leaves P (ingest_all services set session now evs r s)
  unfolding ingest_all
  ingest_all-Leaves now [] r s h = h
  ingest_all-Leaves now (ev ∷ evs) r s h =
      continue-Leaves now evs _ (ingest_one-Leaves now ev r s h) (ingest_all-Leaves now evs)

  -- A condition that each publication and each mark of the session keep is kept by its batches, also
  -- by one that ends in an error.
  pub ingest_batch-Leaves :
      (now : Time) (events : List (LocationEvent W)) (s : S)
      → P s
      → Leaves P (ingest_batch services set session now events s)
  unfolding ingest_batch
  ingest_batch-Leaves now events s h =
      if-elim (Leaves P) (ltb set.max_batch (length events)) _ _ (λ _. h)
        (λ _. ingest_all-Leaves now events empty_result s h)
