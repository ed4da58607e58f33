-- ===== src/Gateway/Since.antt =====
-- What a batch that is under way has done: `IngestBatch`,
-- services/tracking-gateway/internal/usecase/tracker_ingestion.go.
use wrany.Prelude.{
  append_assoc, append_nil, ◌≤◌, ◌≡◌, refl, sym, ap, ◌∙◌, true, false, Option, none, some, String,
  [], ◌∷◌, ◌++◌, map, Result, ok, err, IfOk, All, All-append, Bool-cases, inl, inr, str_eq, if-elim,
  arith, eq_iff,
}
use wrany.Float64.{Float64}
use wrany.Events.Validation.{Envelope, EventError, EnvelopeParams, Bytes, new_envelope}
use wrany.Events.Build.{Marshaller, EventHead, checked, new_location_event}
use wrany.Events.Payloads.{LocationPayload, validate_location}
use wrany.Gateway.Event.{TrackerSession}
use wrany.Gateway.Ingest.{BatchResult, empty_result}
use wrany.Gateway.Ledger.{Net, mark_published}
use wrany.Gateway.Accounting.{occurrences, occurrences-append}
use wrany.Gateway.Seen.{
  seen, id_of_message, sent_ids, map-append_one, mark_published-grows, mark_published-rest,
  mark_published-seen, absent, All-grows,
}

IfOk-checked :
    (P : Envelope → Type 0) (m : Option EventError) (built : Result EventError Envelope)
    → IfOk P built
    → IfOk P (checked m built)
IfOk-checked P none built h = h
IfOk-checked P (some e) built h = tt

IfOk-validated :
    (P : Envelope → Type 0) (m : Option EventError) (env : Envelope)
    → P env
    → IfOk P (elim m [ none ↦ ok env | some e ↦ err e ])
IfOk-validated P none env h = h
IfOk-validated P (some e) env h = tt

-- An event that is built has the id that it is built with.
new_envelope-id :
    (params : EnvelopeParams) (raw : Option Bytes)
    → IfOk (λ (e : Envelope). e.event_id ≡ params.event_id) (new_envelope params raw)
unfolding new_envelope
new_envelope-id params none = tt
new_envelope-id params (some raw) =
    IfOk-validated (λ (e : Envelope). e.event_id ≡ params.event_id) _ _ refl

pub new_location_event-id :
    {W : Type 0} ⦃f : Float64 W⦄ (json : Marshaller W) (h : EventHead) (p : LocationPayload W)
    → IfOk (λ (e : Envelope). e.event_id ≡ h.event_id) (new_location_event json h p)
unfolding new_location_event
new_location_event-id json h p =
    let P = λ (e : Envelope). e.event_id ≡ h.event_id in
    IfOk-checked P (validate_location p) _ (
      if-elim (IfOk P) (str_eq h.correlation_id "") _ _ (λ _. tt)
        (λ _. new_envelope-id _ (json.location p)))

module _ (session : TrackerSession) (before : Net) where
  -- What the loop has done so far, begun in `before`.
  pub record Since (r : BatchResult) (net : Net) : Type 0 where
    pub up : net.up ≡ before.up
    pub writable : net.writable ≡ before.writable
    pub sends : sent_ids net ≡ sent_ids before ++ r.accepted
    pub fresh : All (λ id. seen session before id ≡ false) r.accepted
    pub marked : All (λ id. seen session net id ≡ true) r.accepted
    pub grows : (id : String) → seen session before id ≡ true → seen session net id ≡ true
    pub once : (id : String) → occurrences id r.accepted ≤ 1

  abbrev pub Holds : BatchResult × Net → Type 0
  Holds (r, net) = Since r net

  pub Since-start : Since empty_result before
  Since-start = record {
    up = refl;
    writable = refl;
    sends = sym (append_nil (sent_ids before));
    fresh = tt;
    marked = tt;
    grows = λ id h. h;
    once = λ id. omega arith;
  }

  -- The answers that add nothing to the accepted ones keep it.
  pub Since-same :
      (r r' : BatchResult) (net : Net) → r'.accepted ≡ r.accepted → Since r net → Since r' net
  Since-same r r' net e k = record {
    up = k.up;
    writable = k.writable;
    sends = k.sends ∙ ap (λ ids. sent_ids before ++ ids) (sym e);
    fresh = rw e k.fresh;
    marked = rw e k.marked;
    grows = k.grows;
    once = λ id. rw e (k.once id);
  }

  module _ (id : String) (r : BatchResult) (net : Net) where
    not_before : seen session net id ≡ false → Since r net → seen session before id ≡ false
    not_before new k = elim (Bool-cases (seen session before id)) [
      | inr e ↦ e
      | inl e ↦ let later = k.grows id e in ground arith
    ]

    accepted_once :
        (i : String)
        → seen session net id ≡ false
        → Since r net
        → occurrences i (r.accepted ++ id ∷ []) ≤ 1
    accepted_once i new k =
        let sum = occurrences-append i r.accepted (id ∷ []) in
        elim (Bool-cases (str_eq i id)) [
          | inr e ↦ let old = k.once i in ground arith
          | inl e ↦
              let none_yet : occurrences i r.accepted ≡ 0 =
                rw ((eq_iff i id).0 e) (absent session net id r.accepted k.marked new) in
              ground arith
        ]

    added :
        (envelope : Envelope)
        → envelope.event_id ≡ id
        → Since r net
        → sent_ids net ++ envelope.event_id ∷ [] ≡ sent_ids before ++ (r.accepted ++ id ∷ [])
    added envelope e k = rw (e, k.sends) (append_assoc (sent_ids before) r.accepted (id ∷ []))

    -- Behind the acknowledgement of a new event.
    pub Since-accept :
        (envelope : Envelope) (subject : String)
        → envelope.event_id ≡ id
        → net.up ≡ true
        → net.writable ≡ true
        → seen session net id ≡ false
        → Since r net
        → Since
            (record r { accepted = r.accepted ++ id ∷ [] })
            (mark_published session.user_id session.device_id id
              (record net { sent = net.sent ++ (subject, envelope) ∷ [] }))
    Since-accept envelope subject e up w new k =
        let net₁ : Net = record net { sent = net.sent ++ (subject, envelope) ∷ [] } in
        let sends₁ = map-append_one net.sent (subject, envelope) ∙ added envelope e k in
        let net₂ = mark_published session.user_id session.device_id id net₁ in
        record {
          up = (mark_published-rest session id net₁).0 ∙ k.up;
          writable = (mark_published-rest session id net₁).1 ∙ k.writable;
          sends = ap (map id_of_message) (mark_published-rest session id net₁).2 ∙ sends₁;
          fresh =
              All-append (λ i. seen session before i ≡ false) r.accepted (id ∷ []) k.fresh
                (not_before new k, tt);
          marked =
              All-append (λ i. seen session net₂ i ≡ true) r.accepted (id ∷ [])
                (All-grows session net net₂ r.accepted
                  (λ i h. mark_published-grows session id i net₁ h) k.marked)
                (mark_published-seen session id net₁ up w, tt);
          grows = λ i h. mark_published-grows session id i net₁ (k.grows i h);
          once = λ i. accepted_once i new k;
        }
