-- ===== src/Gateway/Accounting.antt =====
-- How often an event stands in an answer: `IngestBatch`,
-- services/tracking-gateway/internal/usecase/tracker_ingestion.go.
use wrany.Prelude.{
  ℕ, ◌+◌, ◌≡◌, Bool, true, false, String, List, [], ◌∷◌, ◌++◌, map, Time, Result, ok, err, IfOk,
  IfOk-map, IfOk-ok, length, str_eq, if◌then◌else◌, if-elim, arith, ltb,
}
use wrany.Float64.{Float64}
use wrany.Events.Subject
use wrany.Events.Validation.{Envelope, EventError}
use wrany.Gateway.Event.{TrackerSession, LocationEvent, RejectedEvent, validate_location_event}
use wrany.Gateway.Ingest.{
  PublishAnswer, Services, BatchResult, IngestError, Settings, empty_result, settle, send,
  deduplicate, ingest_one, ingest_all, ingest_batch,
}

-- How often a text is in a list.
abbrev pub occurrences : String → List String → ℕ
occurrences t [] = 0
occurrences t (u ∷ us) = (if str_eq t u then 1 else 0) + occurrences t us

pub occurrences-append :
    (t : String) (us vs : List String)
    → occurrences t (us ++ vs) ≡ occurrences t us + occurrences t vs
occurrences-append t [] vs = omega arith
occurrences-append t (u ∷ us) vs = omega (arith, occurrences-append t us vs)

abbrev pub id_of_rejected : RejectedEvent → String
id_of_rejected e = e.event_id

-- How often an event is in the answer.
abbrev pub answers : String → BatchResult → ℕ
answers t r =
    occurrences t r.accepted
    + occurrences t r.duplicated
    + occurrences t (map id_of_rejected r.rejected)

occurrences-map :
    (t : String) (es : List RejectedEvent) (e : RejectedEvent)
    → occurrences t (map id_of_rejected (es ++ e ∷ []))
      ≡ occurrences t (map id_of_rejected es) + occurrences t (e.event_id ∷ [])
occurrences-map t [] e = omega arith
occurrences-map t (e' ∷ es) e = omega (arith, occurrences-map t es e)

-- One more answer for the event.
abbrev Adds : {S : Type 0} → String → String → BatchResult → BatchResult × S → Type 0
Adds t event_id r (r', s) = answers t r' ≡ answers t r + occurrences t (event_id ∷ [])

module _ {W : Type 0} {S : Type 0} ⦃f : Float64 W⦄ (services : Services S) (set : Settings W)
    (t : String) where
  settle-Adds :
      (session : TrackerSession) (event_id : String) (r : BatchResult) (answer : PublishAnswer × S)
      → IfOk (Adds t event_id r) (settle services set session event_id r answer)
  unfolding settle
  settle-Adds session event_id r (PublishAnswer.publish_failed, s) = omega (
    arith,
    occurrences-map t r.rejected (record { event_id = event_id; reason = "EVENT_BUS_UNAVAILABLE" }),
  )
  settle-Adds session event_id r (PublishAnswer.other_error e, s) = tt
  settle-Adds session event_id r (PublishAnswer.acked, s) =
      omega (arith, occurrences-append t r.accepted (event_id ∷ []))

  send-Adds :
      (session : TrackerSession) (event_id : String) (r : BatchResult)
      (built : Result EventError Envelope) (s : S)
      → IfOk (Adds t event_id r) (send services set session event_id r built s)
  unfolding send
  send-Adds session event_id r (err e) s = omega (
    arith,
    occurrences-map t r.rejected (record { event_id = event_id; reason = set.error_text e }),
  )
  send-Adds session event_id r (ok envelope) s =
      settle-Adds session event_id r (services.publish Subject.location_events envelope s)

  deduplicate-Adds :
      (session : TrackerSession) (now : Time) (ev : LocationEvent W) (r : BatchResult)
      (seen : Result String Bool) (s : S)
      → IfOk (Adds t ev.event_id r) (deduplicate services set session now ev r seen s)
  unfolding deduplicate
  deduplicate-Adds session now ev r (err e) s = tt
  deduplicate-Adds session now ev r (ok true) s =
      omega (arith, occurrences-append t r.duplicated (ev.event_id ∷ []))
  deduplicate-Adds session now ev r (ok false) s = send-Adds session ev.event_id r _ s

  ingest_one-Adds :
      (session : TrackerSession) (now : Time) (ev : LocationEvent W) (r : BatchResult) (s : S)
      → IfOk (Adds t ev.event_id r) (ingest_one services set session now ev r s)
  unfolding ingest_one
  ingest_one-Adds session now ev r s =
      let reason = validate_location_event ev in
      if-elim (IfOk (Adds t ev.event_id r)) (str_eq reason "") _ _
        (λ _. deduplicate-Adds session now ev r _ s)
        λ _.
          omega (
            arith,
            occurrences-map t r.rejected (record { event_id = ev.event_id; reason = reason }),
          )

  -- The answers after the loop are those before it and one for each event.
  abbrev AddsAll : List (LocationEvent W) → BatchResult → BatchResult × S → Type 0
  AddsAll evs r (r', s) =
      answers t r' ≡ answers t r + occurrences t (map (λ (ev : LocationEvent W). ev.event_id) evs)

  continue-AddsAll :
      (session : TrackerSession) (now : Time) (ev : LocationEvent W) (evs : List (LocationEvent W))
      (r : BatchResult) (step : Result (IngestError × S) (BatchResult × S))
      → IfOk (Adds t ev.event_id r) step
      → ((r' : BatchResult) (s' : S)
          → IfOk (AddsAll evs r') (ingest_all services set session now evs r' s'))
      → IfOk (AddsAll (ev ∷ evs) r) (elim step [
        | err e ↦ err e
        | ok (r', s') ↦ ingest_all services set session now evs r' s'
      ])
  continue-AddsAll session now ev evs r (err e) h rest = tt
  continue-AddsAll session now ev evs r (ok (r', s')) h rest =
      IfOk-map (AddsAll evs r') (AddsAll (ev ∷ evs) r) _ (rest r' s') λ p k. omega (arith, h, k)

  ingest_all-AddsAll :
      (session : TrackerSession) (now : Time) (evs : List (LocationEvent W)) (r : BatchResult)
      (s : S)
      → IfOk (AddsAll evs r) (ingest_all services set session now evs r s)
  unfolding ingest_all
  ingest_all-AddsAll session now [] r s = omega arith
  ingest_all-AddsAll session now (ev ∷ evs) r s =
      continue-AddsAll session now ev evs r _ (ingest_one-Adds session now ev r s)
        (ingest_all-AddsAll session now evs)

  -- When a batch is answered, each event of it is answered once: an event id is accepted, duplicated
  -- and rejected together as often as it stands in the batch.
  pub ingest_batch_answers_each :
      (session : TrackerSession) (now : Time) (events : List (LocationEvent W)) (s s' : S)
      (r : BatchResult)
      → ingest_batch services set session now events s ≡ ok (r, s')
      → occurrences t r.accepted
          + occurrences t r.duplicated
          + occurrences t (map id_of_rejected r.rejected)
        ≡ occurrences t (map (λ (ev : LocationEvent W). ev.event_id) events)
  unfolding ingest_batch
  ingest_batch_answers_each session now events s s' r e =
      let all =
        IfOk-ok (AddsAll events empty_result) _ (r, s')
          (if-elim (IfOk (AddsAll events empty_result)) (ltb set.max_batch (length events)) _ _
            (λ _. tt) (λ _. ingest_all-AddsAll session now events empty_result s))
          e in
      omega (arith, all)
