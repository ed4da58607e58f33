-- ===== src/Gateway/Socket/Ack.antt =====
-- What the answer to a batch says of its events: `handleLocationBatch` and `parseLocationEvents`,
-- services/tracking-gateway/internal/transport/http/websocket_handler.go, over `IngestBatch`.
use wrany.Prelude.{
  ℕ, ◌+◌, ◌≡◌, true, false, Option, none, some, String, List, [], ◌∷◌, ◌++◌, map, Time, ok, str_eq,
  if◌then◌else◌, if-elim, arith, eq_iff,
}
use wrany.Float64.{Float64}
use wrany.Gateway.Event.{TrackerSession, LocationEvent, RejectedEvent}
use wrany.Gateway.Ingest.{Services, Settings, BatchResult, ingest_batch}
use wrany.Gateway.Accounting.{occurrences, id_of_rejected, ingest_batch_answers_each}
use wrany.Gateway.Socket.Protocol.{LocationEventMsg, RejectedMsg, LocationBatchAckPayload, Wire}
use wrany.Gateway.Socket.Handler.{Parsed, parse_event, parse_location_events, rejected_msg, ack_of}

abbrev pub id_of_msg : RejectedMsg → String
id_of_msg m = m.event_id

-- How often an event is in an answer.
abbrev pub named : String → LocationBatchAckPayload → ℕ
named t ack =
    occurrences t ack.accepted
    + occurrences t ack.duplicated
    + occurrences t (map id_of_msg ack.rejected)

rejected_msgs :
    (t : String) (xs ys : List RejectedEvent)
    → occurrences t (map id_of_msg (map rejected_msg xs ++ map rejected_msg ys))
      ≡ occurrences t (map id_of_rejected xs) + occurrences t (map id_of_rejected ys)
rejected_msgs t [] [] = omega arith
rejected_msgs t [] (y ∷ ys) = omega (arith, rejected_msgs t [] ys)
rejected_msgs t (x ∷ xs) ys = omega (arith, rejected_msgs t xs ys)

not_empty : (t u : String) → str_eq u "" ≡ true → str_eq t "" ≡ false → str_eq t u ≡ false
not_empty t u e h = let e' : u ≡ "" = (eq_iff u "").0 e in cc

module _ {W : Type 0} (wire : Wire W) (t : String) where
  abbrev ids_of : Parsed {W = W} wire → ℕ
  ids_of (events, rejects) =
      occurrences t (map (λ (ev : LocationEvent W). ev.event_id) events)
      + occurrences t (map id_of_rejected rejects)

  unknown-ids :
      (rest : Parsed {W = W} wire)
      → str_eq t "(unknown)" ≡ false
      → ids_of (rest.0, record { event_id = "(unknown)"; reason = "event_id is required" } ∷ rest.1)
        ≡ ids_of rest
  unknown-ids (events, rejects) known = rw known (omega arith)

  parse_event-ids :
      (m : LocationEventMsg W) (time : Option Time) (rest : Parsed {W = W} wire)
      → ids_of (parse_event wire m time rest) ≡ (if str_eq t m.event_id then 1 else 0) + ids_of rest
  parse_event-ids m none (events, rejects) = omega arith
  parse_event-ids m (some time) (events, rejects) = omega arith

  parse_location_events-ids :
      str_eq t "" ≡ false
      → str_eq t "(unknown)" ≡ false
      → (msgs : List (LocationEventMsg W))
      → ids_of (parse_location_events wire msgs)
        ≡ occurrences t (map (λ (m : LocationEventMsg W). m.event_id) msgs)
  unfolding parse_location_events
  parse_location_events-ids named known [] = omega arith
  parse_location_events-ids named known (m ∷ msgs) =
      let rest = parse_location_events-ids named known msgs in
      if-elim
        (λ (p : Parsed {W = W} wire).
          ids_of p
          ≡ (if str_eq t m.event_id then 1 else 0)
            + occurrences t (map (λ (m : LocationEventMsg W). m.event_id) msgs))
        (str_eq m.event_id "") _ _
        (λ h. rw (not_empty t m.event_id h named) (omega (arith, rest, unknown-ids _ known)))
        (λ _. omega (
          arith,
          rest,
          parse_event-ids m (wire.parse_time m.recorded_at) (parse_location_events wire msgs),
        ))

module _ {W : Type 0} {S : Type 0} ⦃f : Float64 W⦄ (services : Services S) (set : Settings W)
    (wire : Wire W) where
  -- When a batch is answered, an event id, other than the empty text and the name of an unknown
  -- event, is accepted, duplicated and rejected together, by the parser or by the ingestion, as often
  -- as it stands in the message.
  pub ack_names_each :
      (t : String) (session : TrackerSession) (now : Time) (msgs : List (LocationEventMsg W))
      (s s' : S) (r : BatchResult)
      → str_eq t "" ≡ false
      → str_eq t "(unknown)" ≡ false
      → ingest_batch services set session now (parse_location_events wire msgs).0 s ≡ ok (r, s')
      → named t (ack_of (parse_location_events wire msgs).1 r)
        ≡ occurrences t (map (λ (m : LocationEventMsg W). m.event_id) msgs)
  ack_names_each t session now msgs s s' r h h' e =
      let parsed = parse_location_events wire msgs in
      omega (
        arith,
        rejected_msgs t parsed.1 r.rejected,
        parse_location_events-ids wire t h h' msgs,
        ingest_batch_answers_each services set t session now parsed.0 s s' r e,
      )
