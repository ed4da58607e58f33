-- ===== src/Gateway/Ledger.antt =====
-- The ledger of published events, services/tracking-gateway/internal/storage/postgres/ingestion_dedup_repo.go
-- and storage/postgres/device_repo.go `FindByUserAndDeviceID`, as the services of `IngestBatch`.
use wrany.Prelude.{
  Bool, String, List, [], ◌∷◌, ◌++◌, Uuid, Result, ok, err, ◌&&◌, ◌==◌, if◌then◌else◌,
}
use wrany.Events.Validation.{Envelope}
use wrany.Store.Tables.{EventKey, same_key, any, insert_new}
use wrany.Gateway.Ingest.{DeviceAnswer, PublishAnswer, Services}

-- The tables `devices` and `ingested_location_events`, by their keys (the time of receipt is never
-- read), and the messages that the broker has. A database that is down fails every statement; one that
-- is read only fails the writes. What the broker answers to an event is a parameter of the state.
pub record Net : Type 0 where
  pub up : Bool
  pub writable : Bool
  pub devices : List (Uuid × Uuid)
  pub ledger : List EventKey
  pub broker : Envelope → PublishAnswer
  pub sent : List (String × Envelope)

abbrev pub key_of : Uuid → Uuid → String → EventKey
key_of user device event_id = record { user_id = user; device_id = device; event_id = event_id }

unfoldable pub find_device : Uuid → Uuid → Net → DeviceAnswer
find_device user device net =
    if net.up
    then if any (λ (p : Uuid × Uuid). p.0 == user && p.1 == device) net.devices
      then DeviceAnswer.device_found
      else DeviceAnswer.device_not_found
    else DeviceAnswer.device_error "database is down"

unfoldable pub is_duplicate : Uuid → Uuid → String → Net → Result String Bool
is_duplicate user device event_id net =
    if net.up
    then ok (any (same_key (key_of user device event_id)) net.ledger)
    else err "database is down"

unfoldable pub mark_published : Uuid → Uuid → String → Net → Net
unfolding insert_new
mark_published user device event_id net =
    if net.up && net.writable
    then record net { ledger = insert_new same_key (key_of user device event_id) net.ledger }
    else net

-- A message that the broker acknowledges is there.
abbrev pub deliver : String → Envelope → Net → PublishAnswer → PublishAnswer × Net
deliver subject e net PublishAnswer.acked =
    (PublishAnswer.acked, record net { sent = net.sent ++ (subject, e) ∷ [] })
deliver subject e net PublishAnswer.publish_failed = (PublishAnswer.publish_failed, net)
deliver subject e net (PublishAnswer.other_error text) = (PublishAnswer.other_error text, net)

unfoldable pub publish : String → Envelope → Net → PublishAnswer × Net
publish subject e net = deliver subject e net (net.broker e)

abbrev pub net_services : Services Net
net_services = record {
  find_device = find_device;
  is_duplicate = is_duplicate;
  publish = publish;
  mark_published = mark_published;
}
