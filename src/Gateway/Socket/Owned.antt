-- ===== src/Gateway/Socket/Owned.antt =====
-- Whose events a connection can enter into the ledger: `ServeHTTP`,
-- services/tracking-gateway/internal/transport/http/websocket_handler.go, over
-- storage/postgres/ingestion_dedup_repo.go and device_repo.go.
use wrany.Prelude.{
  ◌≡◌, refl, sym, ap, ◌∙◌, Bool, true, false, some, String, List, [], ◌∷◌, ◌++◌, All, All-append,
  append_assoc, append_nil, Time, Uuid, IfOk, ◌&&◌, ◌==◌, if◌then◌else◌, if-elim,
}
use wrany.Float64.{Float64}
use wrany.Events.Validation.{Envelope}
use wrany.Store.Tables.{EventKey, same_key, any, insert_new}
use wrany.Gateway.Event.{TrackerSession}
use wrany.Gateway.Ingest.{DeviceAnswer, PublishAnswer, Settings, session_for, start_session}
use wrany.Gateway.Ledger.{Net, key_of, find_device, mark_published, deliver, publish, net_services}
use wrany.Gateway.Leaves.{ingest_batch-Leaves}
use wrany.Gateway.Socket.Connection.{Socket}
use wrany.Gateway.Socket.Handler.{Endpoint}
use wrany.Gateway.Socket.Loop.{Peer, serve_http}
use wrany.Gateway.Socket.Invariant.{serve_http-keeps}

-- The device is one that the user has registered.
abbrev pub has_device : List (Uuid × Uuid) → Uuid → Uuid → Bool
has_device devices user device = any (λ (p : Uuid × Uuid). p.0 == user && p.1 == device) devices

abbrev pub IsOwn : Uuid → Net → EventKey → Type 0
IsOwn user before k = (k.user_id ≡ user) × (has_device before.devices user k.device_id ≡ true)

-- The devices and the state of the database are those before, and the entries of the ledger behind
-- the ones before are the user's.
pub record GrowsFor (user : Uuid) (before net : Net) : Type 0 where
  pub devices_same : net.devices ≡ before.devices
  pub added : List EventKey
  pub grown : net.ledger ≡ before.ledger ++ added
  pub owned : All (IsOwn user before) added

module _ (user : Uuid) (before : Net) where
  GrowsFor-start : GrowsFor user before before
  GrowsFor-start = record {
    devices_same = refl;
    added = [];
    grown = rw (append_nil before.ledger);
    owned = tt;
  }

  -- A session of the user with a device of theirs.
  abbrev IsOwnSession : TrackerSession → Type 0
  IsOwnSession session =
      (session.user_id ≡ user) × (has_device before.devices user session.device_id ≡ true)

  deliver-GrowsFor :
      (subject : String) (e : Envelope) (net : Net) (answer : PublishAnswer)
      → GrowsFor user before net
      → GrowsFor user before (deliver subject e net answer).1
  deliver-GrowsFor subject e net PublishAnswer.acked h = record {
    devices_same = h.devices_same;
    added = h.added;
    grown = h.grown;
    owned = h.owned;
  }
  deliver-GrowsFor subject e net PublishAnswer.publish_failed h = h
  deliver-GrowsFor subject e net (PublishAnswer.other_error text) h = h

  publish-GrowsFor :
      (subject : String) (e : Envelope) (net : Net)
      → GrowsFor user before net
      → GrowsFor user before (publish subject e net).1
  unfolding publish
  publish-GrowsFor subject e net h = deliver-GrowsFor subject e net (net.broker e) h

  added-GrowsFor :
      (k : EventKey) (net : Net)
      → IsOwn user before k
      → GrowsFor user before net
      → GrowsFor user before (record net { ledger = net.ledger ++ k ∷ [] })
  added-GrowsFor k net own h = record {
    devices_same = h.devices_same;
    added = h.added ++ k ∷ [];
    grown = ap (λ xs. xs ++ k ∷ []) h.grown ∙ append_assoc before.ledger h.added (k ∷ []);
    owned = All-append (IsOwn user before) h.added (k ∷ []) h.owned (own, tt);
  }

  inserted-GrowsFor :
      (k : EventKey) (net : Net)
      → IsOwn user before k
      → GrowsFor user before net
      → GrowsFor user before (record net { ledger = insert_new same_key k net.ledger })
  unfolding insert_new
  inserted-GrowsFor k net own h =
      if-elim (λ rows. GrowsFor user before (record net { ledger = rows }))
        (any (same_key k) net.ledger) _ _
        (λ _. record {
          devices_same = h.devices_same;
          added = h.added;
          grown = h.grown;
          owned = h.owned;
        })
        (λ _. added-GrowsFor k net own h)

  mark_published-GrowsFor :
      (session : TrackerSession) (id : String) (net : Net)
      → IsOwnSession session
      → GrowsFor user before net
      → GrowsFor user before (mark_published session.user_id session.device_id id net)
  unfolding mark_published
  mark_published-GrowsFor session id net own h =
      if-elim (GrowsFor user before) (net.up && net.writable) _ _
        (λ _. inserted-GrowsFor (key_of session.user_id session.device_id id) net own h) (λ _. h)

module _ {W : Type 0} (set : Settings W) (user : Uuid) (before : Net) where
  session_for-IsOwn :
      (id device : Uuid) (now : Time) (known : Bool)
      → known ≡ has_device before.devices user device
      → IfOk (IsOwnSession user before) (
          session_for set id user device now
            (if known then DeviceAnswer.device_found else DeviceAnswer.device_not_found))
  session_for-IsOwn id device now true e = (refl, sym e)
  session_for-IsOwn id device now false e = tt

abbrev pub on_net : {W : Type 0} → Endpoint W Net → Endpoint W Net
on_net endpoint = record endpoint { services = net_services }

module _ {W : Type 0} ⦃f : Float64 W⦄ (endpoint : Endpoint W Net) (user : Uuid) (before : Net) where
  open endpoint use {settings}

  start_session-IsOwn :
      (id device : Uuid) (now : Time) (net : Net)
      → GrowsFor user before net
      → IfOk (IsOwnSession user before) (start_session net_services settings id user device now net)
  unfolding start_session find_device
  start_session-IsOwn id device now net h =
      if-elim
        (λ answer. IfOk (IsOwnSession user before) (session_for settings id user device now answer))
        net.up _ _
        (λ _.
          session_for-IsOwn settings user before id device now (has_device net.devices user device)
            (ap (λ ds. has_device ds user device) h.devices_same))
        (λ _. tt)

module _ {W : Type 0} ⦃f : Float64 W⦄ (endpoint : Endpoint W Net) (user : Uuid) where
  open endpoint use {settings}

  -- What a connection of a user adds to the ledger of published events, whatever frames come, are
  -- answered, and fail, has the user's id and a device that the user has registered; what was in the
  -- ledger stays, and so do the devices.
  pub serve_http_enters_own :
      (peer : Peer) (s : Socket Net)
      → GrowsFor user s.store (serve_http (on_net endpoint) (some user) peer s).1.store
  serve_http_enters_own peer s =
      serve_http-keeps (on_net endpoint) user (GrowsFor user s.store) (IsOwnSession user s.store)
        (start_session-IsOwn endpoint user s.store)
        (λ session now events net own h.
          ingest_batch-Leaves net_services settings session (GrowsFor user s.store)
            (publish-GrowsFor user s.store)
            (λ id net'. mark_published-GrowsFor user s.store session id net' own) now events net h)
        peer s (GrowsFor-start user s.store)
