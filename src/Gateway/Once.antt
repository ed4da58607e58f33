-- ===== src/Gateway/Once.antt =====
-- What a batch publishes, and what its retry publishes: `IngestBatch` over the ledger,
-- services/tracking-gateway/internal/usecase/tracker_ingestion.go and
-- services/tracking-gateway/internal/storage/postgres/ingestion_dedup_repo.go.
use wrany.Prelude.{
  ◌≤◌, ◌≡◌, refl, ◌∙◌, Bool, true, false, String, List, [], ◌∷◌, ◌++◌, Time, Result, ok, err, IfOk,
  IfOk-ok, All, length, str_eq, if-elim, ltb,
}
use wrany.Float64.{Float64}
use wrany.Events.Subject
use wrany.Events.Validation.{Envelope, EventError}
use wrany.Gateway.Event.{TrackerSession, LocationEvent, validate_location_event}
use wrany.Gateway.Ingest.{
  PublishAnswer, BatchResult, IngestError, Settings, empty_result, payload_of, head_of, settle,
  send, deduplicate, ingest_one, ingest_all, ingest_batch,
}
use wrany.Gateway.Ledger.{Net, is_duplicate, publish, deliver, net_services}
use wrany.Gateway.Accounting.{occurrences}
use wrany.Gateway.Seen.{seen, sent_ids, absent}
use wrany.Gateway.Since.{new_location_event-id, Since, Holds, Since-start, Since-same, Since-accept}

module _ {W : Type 0} ⦃f : Float64 W⦄ (set : Settings W) (session : TrackerSession) (before : Net)
    (can_write : before.writable ≡ true) where
  settle-Since :
      (id : String) (r : BatchResult) (envelope : Envelope) (subject : String) (net : Net)
      (answer : PublishAnswer)
      → envelope.event_id ≡ id
      → net.up ≡ true
      → seen session net id ≡ false
      → Since session before r net
      → IfOk
          (Holds session before)
          (settle net_services set session id r (deliver subject envelope net answer))
  unfolding settle
  settle-Since id r envelope subject net PublishAnswer.acked e up new k =
      Since-accept session before id r net envelope subject e up (k.writable ∙ can_write) new k
  settle-Since id r envelope subject net PublishAnswer.publish_failed e up new k =
      Since-same session before r _ net refl k
  settle-Since id r envelope subject net (PublishAnswer.other_error text) e up new k = tt

  send-Since :
      (id : String) (r : BatchResult) (built : Result EventError Envelope) (net : Net)
      → IfOk (λ (e : Envelope). e.event_id ≡ id) built
      → net.up ≡ true
      → seen session net id ≡ false
      → Since session before r net
      → IfOk (Holds session before) (send net_services set session id r built net)
  unfolding send publish
  send-Since id r (err e) net h up new k = Since-same session before r _ net refl k
  send-Since id r (ok envelope) net h up new k =
      settle-Since id r envelope Subject.location_events net (net.broker envelope) h up new k

  deduplicate-Since :
      (now : Time) (ev : LocationEvent W) (r : BatchResult) (answer : Result String Bool)
      (net : Net)
      → IfOk (λ b. (net.up ≡ true) × (seen session net ev.event_id ≡ b)) answer
      → Since session before r net
      → IfOk (Holds session before) (deduplicate net_services set session now ev r answer net)
  unfolding deduplicate
  deduplicate-Since now ev r (err e) net h k = tt
  deduplicate-Since now ev r (ok true) net h k = Since-same session before r _ net refl k
  deduplicate-Since now ev r (ok false) net (up, new) k =
      send-Since ev.event_id r _ net
        (new_location_event-id set.json (head_of net_services set session now ev.event_id)
          (payload_of net_services set session now ev))
        up new k

  is_duplicate-answers :
      (id : String) (net : Net)
      → IfOk
          (λ b. (net.up ≡ true) × (seen session net id ≡ b))
          (is_duplicate session.user_id session.device_id id net)
  unfolding is_duplicate
  is_duplicate-answers id net =
      if-elim (IfOk (λ b. (net.up ≡ true) × (seen session net id ≡ b))) net.up _ _
        (λ up. (up, refl)) (λ _. tt)

  ingest_one-Since :
      (now : Time) (ev : LocationEvent W) (r : BatchResult) (net : Net)
      → Since session before r net
      → IfOk (Holds session before) (ingest_one net_services set session now ev r net)
  unfolding ingest_one
  ingest_one-Since now ev r net k =
      if-elim (IfOk (Holds session before)) (str_eq (validate_location_event ev) "") _ _
        (λ _. deduplicate-Since now ev r _ net (is_duplicate-answers ev.event_id net) k)
        (λ _. Since-same session before r _ net refl k)

  continue-Since :
      (now : Time) (evs : List (LocationEvent W))
      (step : Result (IngestError × Net) (BatchResult × Net))
      → IfOk (Holds session before) step
      → ((r : BatchResult) (net : Net)
          → Since session before r net
          → IfOk (Holds session before) (ingest_all net_services set session now evs r net))
      → IfOk (Holds session before) (elim step [
        | err e ↦ err e
        | ok (r, net) ↦ ingest_all net_services set session now evs r net
      ])
  continue-Since now evs (err e) h rest = tt
  continue-Since now evs (ok (r, net)) h rest = rest r net h

  ingest_all-Since :
      (now : Time) (evs : List (LocationEvent W)) (r : BatchResult) (net : Net)
      → Since session before r net
      → IfOk (Holds session before) (ingest_all net_services set session now evs r net)
  unfolding ingest_all
  ingest_all-Since now [] r net k = k
  ingest_all-Since now (ev ∷ evs) r net k =
      continue-Since now evs _ (ingest_one-Since now ev r net k) (ingest_all-Since now evs)

  ingest_batch-Since :
      (now : Time) (events : List (LocationEvent W)) (r : BatchResult) (after : Net)
      → ingest_batch net_services set session now events before ≡ ok (r, after)
      → Since session before r after
  unfolding ingest_batch
  ingest_batch-Since now events r after e =
      IfOk-ok (Holds session before) _ (r, after)
        (if-elim (IfOk (Holds session before)) (ltb set.max_batch (length events)) _ _ (λ _. tt)
          (λ _. ingest_all-Since now events empty_result before (Since-start session before)))
        e

  -- Over a ledger that takes writes, a batch that is answered has published, behind what was
  -- published before, one message for each accepted event, in order; no accepted event was in the
  -- ledger, each is in it now, and none is accepted twice.
  pub ingest_batch_publishes_once :
      (now : Time) (events : List (LocationEvent W)) (r : BatchResult) (after : Net)
      → ingest_batch net_services set session now events before ≡ ok (r, after)
      → (sent_ids after ≡ sent_ids before ++ r.accepted)
        × All (λ id. seen session before id ≡ false) r.accepted
        × All (λ id. seen session after id ≡ true) r.accepted
        × ((id : String) → occurrences id r.accepted ≤ 1)
  ingest_batch_publishes_once now events r after e =
      let k = ingest_batch-Since now events r after e in (k.sends, k.fresh, k.marked, k.once)

-- No event of `again` is one of `first`.
none_again :
    (session : TrackerSession) (net : Net) (first again : List String)
    → All (λ id. seen session net id ≡ true) first
    → All (λ id. seen session net id ≡ false) again
    → All (λ id. occurrences id first ≡ 0) again
none_again session net first [] h k = tt
none_again session net first (id ∷ again) h (k, ks) =
    (absent session net id first h k, none_again session net first again h ks)

-- Over a ledger that takes writes, a client that sends again, after an answer, any batch of the same
-- session has none of its accepted events accepted, and so published, a second time.
pub retry_publishes_nothing_twice :
    {W : Type 0} ⦃f : Float64 W⦄ (set : Settings W) (session : TrackerSession)
    (before between after : Net) (now later : Time) (events again : List (LocationEvent W))
    (first second : BatchResult)
    → before.writable ≡ true
    → ingest_batch net_services set session now events before ≡ ok (first, between)
    → ingest_batch net_services set session later again between ≡ ok (second, after)
    → All (λ id. occurrences id first.accepted ≡ 0) second.accepted
retry_publishes_nothing_twice set session before between after now later events again first second w
      e e' =
    let k = ingest_batch-Since set session before w now events first between e in
    let k' = ingest_batch-Since set session between (k.writable ∙ w) later again second after e' in
    none_again session between first.accepted second.accepted k.marked k'.fresh
