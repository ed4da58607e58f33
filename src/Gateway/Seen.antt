-- ===== src/Gateway/Seen.antt =====
-- The ledger of published events as a set that grows: `IsDuplicate` and `MarkPublished`,
-- services/tracking-gateway/internal/storage/postgres/ingestion_dedup_repo.go.
use wrany.Prelude.{
  ◌≡◌, refl, ap, Bool, true, false, ◌&&◌, String, List, [], ◌∷◌, ◌++◌, map, All, Bool-cases, inl,
  inr, str_eq, if-elim, arith, eq_iff,
}
use wrany.Events.Validation.{Envelope}
use wrany.Store.Tables.{same_key, any}
use wrany.Store.Keys.{insert_new-keeps, insert_new-has, same_key_refl}
use wrany.Gateway.Event.{TrackerSession}
use wrany.Gateway.Ledger.{Net, key_of, mark_published}
use wrany.Gateway.Accounting.{occurrences}

-- The event's key is in the ledger.
abbrev pub seen : TrackerSession → Net → String → Bool
seen session net id = any (same_key (key_of session.user_id session.device_id id)) net.ledger

abbrev pub id_of_message : String × Envelope → String
id_of_message m = m.1.event_id

abbrev pub sent_ids : Net → List String
sent_ids net = map id_of_message net.sent

pub map-append_one :
    (ms : List (String × Envelope)) (m : String × Envelope)
    → map id_of_message (ms ++ m ∷ []) ≡ map id_of_message ms ++ id_of_message m ∷ []
map-append_one [] m = refl
map-append_one (m' ∷ ms) m = ap (λ r. id_of_message m' ∷ r) (map-append_one ms m)

module _ (session : TrackerSession) where
  pub mark_published-grows :
      (id other : String) (net : Net)
      → seen session net other ≡ true
      → seen session (mark_published session.user_id session.device_id id net) other ≡ true
  unfolding mark_published
  mark_published-grows id other net h =
      if-elim (λ (n : Net). seen session n other ≡ true) (net.up && net.writable) _ net
        (λ _. insert_new-keeps same_key _ _ net.ledger h) (λ _. h)

  -- Marking changes the ledger alone.
  pub mark_published-rest :
      (id : String) (net : Net)
      → let marked = mark_published session.user_id session.device_id id net in
        (marked.up ≡ net.up) × (marked.writable ≡ net.writable) × (marked.sent ≡ net.sent)
  unfolding mark_published
  mark_published-rest id net =
      if-elim (λ (n : Net). (n.up ≡ net.up) × (n.writable ≡ net.writable) × (n.sent ≡ net.sent))
        (net.up && net.writable) _ net (λ _. (refl, refl, refl)) (λ _. (refl, refl, refl))

  pub mark_published-seen :
      (id : String) (net : Net)
      → net.up ≡ true
      → net.writable ≡ true
      → seen session (mark_published session.user_id session.device_id id net) id ≡ true
  unfolding mark_published
  mark_published-seen id net up w =
      if-elim (λ (n : Net). seen session n id ≡ true) (net.up && net.writable) _ net
        (λ _.
          insert_new-has same_key _ net.ledger
            (same_key_refl (key_of session.user_id session.device_id id)))
        (λ e. ground arith)

  -- A text that is not in the ledger is none of those that are.
  pub absent :
      (net : Net) (id : String) (ids : List String)
      → All (λ i. seen session net i ≡ true) ids
      → seen session net id ≡ false
      → occurrences id ids ≡ 0
  absent net id [] h n = refl
  absent net id (i ∷ ids) (h, hs) n = elim (Bool-cases (str_eq id i)) [
    | inr e ↦ let rest = absent net id ids hs n in ground arith
    | inl e ↦ let same = ap (seen session net) ((eq_iff id i).0 e) in ground arith
  ]

  pub All-grows :
      (net net' : Net) (ids : List String)
      → ((i : String) → seen session net i ≡ true → seen session net' i ≡ true)
      → All (λ i. seen session net i ≡ true) ids
      → All (λ i. seen session net' i ≡ true) ids
  All-grows net net' [] g h = tt
  All-grows net net' (i ∷ ids) g (h, hs) = (g i h, All-grows net net' ids g hs)
