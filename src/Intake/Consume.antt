-- ===== src/Intake/Consume.antt =====
-- A message and its deliveries: `handle` of
-- services/tracking-worker/internal/transport/nats/location_consumer.go, around `Process`. The
-- spans of tracing and the logs are left out.
use wrany.Prelude.{
  ◌≡◌, refl, Bool, true, false, List, [], ◌∷◌, String, Time, Result, ok, err, if◌then◌else◌,
  if-elim, Bool-cases, inl, inr, ◌∙◌,
}
use wrany.Float64.{Float64}
use wrany.Action.{Failure}
use wrany.Domain.Point.{RawLocationPoint}
use wrany.Events.Validation.{Bytes, Envelope}
use wrany.Store.Tables.{any, insert_new, raw_key}
use wrany.Store.Keys.{insert_new_there, insert_new-has, same_key_refl}
use wrany.Intake.Process.{
  Action, Codec, Site, same_point, passes_checks, insert, answer, settle_checked, process,
}
use wrany.Intake.Message.{IsPointOf, check_envelope-ok}
use wrany.Intake.Settlement.{IsAdded, is_stored, insert_new-IsAdded}

-- A delivery: the uuid and the time that a dead letter of it has, whether the database is up and
-- which events the broker takes while it lasts, and whether the broker takes the answer.
pub record Delivery : Type 0 where
  pub id : String
  pub now : Time
  pub is_up : Bool
  pub takes : Envelope → Bool
  pub is_answered : Bool

abbrev pub met_by : {W : Type 0} → Delivery → Site W → Site W
met_by d site = record site { up = d.is_up; takes = d.takes }

-- `msg.Ack` or `msg.Nak`, whose error is handed on.
abbrev pub answer_broker : Bool → Action → Result Failure Action
answer_broker taken action = if taken then ok action else err tt

-- The broker gives a message again unless an ACK has come.
abbrev pub is_done : Result Failure Action → Bool
is_done (ok Action.ack) = true
is_done (ok Action.nak) = false
is_done (err e) = false

module _ {W : Type 0} ⦃f : Float64 W⦄ (codec : Codec W) (bytes : Bytes) where
  unfoldable pub handle : Delivery → Site W → Result Failure Action × Site W
  handle d site =
      let r = process codec d.id d.now bytes site in (answer_broker d.is_answered r.0, r.1)

  -- The broker delivers until it is done, or until the listed deliveries are over; each delivery
  -- finds the database and the broker as they are then.
  unfoldable pub deliver : List Delivery → Site W → Site W
  deliver [] site = site
  deliver (d ∷ ds) site =
      let r = handle d (met_by d site) in
      let after = deliver ds r.1 in if is_done r.0 then r.1 else after

module _ {W : Type 0} where
  -- The rows have the point if a delivery could store it, and else are as they were.
  abbrev pub StoredIf :
      Bool → RawLocationPoint W → List (RawLocationPoint W) → List (RawLocationPoint W) → Type 0
  StoredIf true p rows after = IsAdded p rows after
  StoredIf false p rows after = after ≡ rows

nak-is_done : (taken : Bool) → is_done (answer_broker taken Action.nak) ≡ false
nak-is_done true = refl
nak-is_done false = refl

module _ {W : Type 0} ⦃f : Float64 W⦄ (codec : Codec W) (bytes : Bytes) (p : RawLocationPoint W)
    (point : IsPointOf codec bytes p) (fits : passes_checks p ≡ true) where
  handle-point :
      (d : Delivery) (site : Site W)
      → let r = answer site (insert p site) in
        handle codec bytes d site ≡ (answer_broker d.is_answered r.0, r.1)
  unfolding handle process settle_checked
  handle-point d site =
      let accepted = check_envelope-ok codec bytes p point in
      rw (point.decoded, accepted, handle, process, settle_checked) refl

  handle-up :
      (d : Delivery) (site : Site W)
      → d.is_up ≡ true
      → (handle codec bytes d (met_by d site)).1.raw_location_points
        ≡ insert_new same_point p site.raw_location_points
  unfolding insert
  handle-up d site up = rw (handle-point d (met_by d site), up, fits, insert) refl

  handle-down :
      (d : Delivery) (site : Site W)
      → d.is_up ≡ false
      → handle codec bytes d (met_by d site)
        ≡ (answer_broker d.is_answered Action.nak, met_by d site)
  unfolding insert
  handle-down d site down = rw (handle-point d (met_by d site), down, insert) refl

  handle-kept :
      (d : Delivery) (site : Site W)
      → is_stored p site.raw_location_points ≡ true
      → (handle codec bytes d (met_by d site)).1.raw_location_points ≡ site.raw_location_points
  handle-kept d site h = elim (Bool-cases d.is_up) [
    | inl up ↦ handle-up d site up ∙ insert_new_there same_point p site.raw_location_points h
    | inr down ↦ rw (handle-down d site down) refl
  ]

  deliver-kept :
      (ds : List Delivery) (site : Site W)
      → is_stored p site.raw_location_points ≡ true
      → (deliver codec bytes ds site).raw_location_points ≡ site.raw_location_points
  unfolding deliver
  deliver-kept [] site h = refl
  deliver-kept (d ∷ ds) site h =
      let r = handle codec bytes d (met_by d site) in
      let kept = handle-kept d site h in
      if-elim (λ (s : Site W). s.raw_location_points ≡ site.raw_location_points) (is_done r.0) _ _
        (λ _. kept) (λ _. deliver-kept ds r.1 (rw kept h) ∙ kept)

  delivered_up :
      (d : Delivery) (ds : List Delivery) (site : Site W)
      → d.is_up ≡ true
      → (deliver codec bytes (d ∷ ds) site).raw_location_points
        ≡ insert_new same_point p site.raw_location_points
  unfolding deliver
  delivered_up d ds site up =
      let r = handle codec bytes d (met_by d site) in
      let new = handle-up d site up in
      let has = insert_new-has same_point p site.raw_location_points (same_key_refl (raw_key p)) in
      if-elim
        (λ (s : Site W). s.raw_location_points ≡ insert_new same_point p site.raw_location_points)
        (is_done r.0) _ _ (λ _. new) (λ _. deliver-kept ds r.1 (rw new has) ∙ new)

  delivered_down :
      (d : Delivery) (ds : List Delivery) (site : Site W)
      → d.is_up ≡ false
      → deliver codec bytes (d ∷ ds) site ≡ deliver codec bytes ds (met_by d site)
  unfolding deliver
  delivered_down d ds site down =
      rw (handle-down d site down, nak-is_done d.is_answered, deliver) refl

  -- A message with a point that the CHECK constraints of the table accept, delivered until an ACK
  -- comes through or the deliveries are over, with a database and a broker that are up in some
  -- deliveries and not in others, and with answers that are lost or not: its point is stored just once
  -- if the database was up in any of them, and the raw points are unchanged if it was not.
  pub deliver_stores_once :
      (ds : List Delivery) (site : Site W)
      → StoredIf
          (any (λ (d : Delivery). d.is_up) ds)
          p
          site.raw_location_points
          (deliver codec bytes ds site).raw_location_points
  unfolding deliver
  deliver_stores_once [] site = refl
  deliver_stores_once (d ∷ ds) site = elim (Bool-cases d.is_up) [
    | inl up ↦ rw (delivered_up d ds site up, up) (insert_new-IsAdded p site.raw_location_points)
    | inr down ↦
        let rest : any (λ (x : Delivery). x.is_up) (d ∷ ds) ≡ any (λ (x : Delivery). x.is_up) ds =
          rw down refl in
        rw (delivered_down d ds site down, rest) (deliver_stores_once ds (met_by d site))
  ]
