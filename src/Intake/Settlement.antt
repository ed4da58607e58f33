-- ===== src/Intake/Settlement.antt =====
-- What ACK and NAK stand for: `Process`,
-- services/tracking-worker/internal/usecase/location_event_processor.go.
use wrany.Prelude.{
  ◌≡◌, refl, ◌⊎◌, inl, inr, Bool, true, false, ◌&&◌, String, List, [], ◌∷◌, ◌++◌, Time, Result, ok,
  err, str_eq, ◌==◌, if◌then◌else◌, if-elim,
}
use wrany.Float64.{Float64}
use wrany.Domain.Point.{RawLocationPoint}
use wrany.Events.Validation.{Bytes, Envelope, EventError}
use wrany.Events.Build.{new_dead_letter_event}
use wrany.Store.Tables.{any, insert_new}
use wrany.Intake.Process.{Action, Codec, Site, same_point, passes_checks}
use wrany.Intake.Message.{IsPointOf}

abbrev pub correlation_of : Result String Envelope → String
correlation_of (err e) = ""
correlation_of (ok env) = env.correlation_id

module _ {W : Type 0} where
  -- A row of the user and the device of the point has its event id.
  abbrev pub is_stored : RawLocationPoint W → List (RawLocationPoint W) → Bool
  is_stored p rows =
      any
        (λ (q : RawLocationPoint W).
          p.user_id == q.user_id && p.device_id == q.device_id && str_eq p.event_id q.event_id)
        rows

  -- The rows have the point: they are as they were if it was stored, or else have it as a new row.
  abbrev pub IsAdded :
      RawLocationPoint W → List (RawLocationPoint W) → List (RawLocationPoint W) → Type 0
  IsAdded p rows after =
      ((is_stored p rows ≡ true) × (after ≡ rows))
      ⊎ ((is_stored p rows ≡ false) × (after ≡ rows ++ p ∷ []))

  pub insert_new-IsAdded :
      (p : RawLocationPoint W) (rows : List (RawLocationPoint W))
      → IsAdded p rows (insert_new same_point p rows)
  unfolding insert_new
  insert_new-IsAdded p rows =
      if-elim (IsAdded p rows) (any (same_point p) rows) _ _ (λ h. inl (h, refl))
        (λ h. inr (h, refl))

  -- The answer to a dead letter that was built, or could not be.
  abbrev pub Buried : Result EventError Envelope → Site W → Action × Site W → Type 0
  Buried (err e) site (action, next) = (action ≡ Action.nak) × (next ≡ site)
  Buried (ok e) site (Action.nak, next) = (site.takes e ≡ false) × (next ≡ site)
  Buried (ok e) site (Action.ack, next) =
      (site.takes e ≡ true)
      × (next ≡ record site { sent = site.sent ++ ("dead-letter.v1", e) ∷ [] })

module _ {W : Type 0} ⦃f : Float64 W⦄ where
  -- The answer to a point: a NAK if the database is down or a constraint of the table refuses it.
  abbrev pub Kept : RawLocationPoint W → Site W → Action × Site W → Type 0
  Kept p site (Action.nak, next) = (site.up && passes_checks p ≡ false) × (next ≡ site)
  Kept p site (Action.ack, next) =
      (site.up && passes_checks p ≡ true)
      × (rows : List (RawLocationPoint W)) × IsAdded p site.raw_location_points rows
      × (next ≡ record site { raw_location_points = rows })

module _ {W : Type 0} ⦃f : Float64 W⦄ (codec : Codec W) (id : String) (now : Time)
    (bytes : Bytes) where
  open codec use {is_valid_json, as_json_string, json, producer, consumer_name}

  -- The dead letter of the message for a reason.
  abbrev pub letter : String → String → Result EventError Envelope
  letter correlation_id reason =
      new_dead_letter_event json
        (record {
          event_id = id;
          produced_at = now;
          producer = producer;
          correlation_id = correlation_id;
        })
        (record {
          original_subject = "location.events.v1";
          original_event = if is_valid_json bytes then bytes else as_json_string bytes;
          error = reason;
          failed_at = now;
          consumer = consumer_name;
        })

  -- The message carries a point.
  abbrev pub HasPoint : Type 0
  HasPoint = (p : RawLocationPoint W) × IsPointOf codec bytes p

  -- What an answer to the broker stands for: a message with a point is about the table of raw points,
  -- one without a point is about its dead letter.
  abbrev pub Settled : String → Site W → Action × Site W → Type 0
  Settled correlation_id site r =
      ((p : RawLocationPoint W) × IsPointOf codec bytes p × Kept p site r)
      ⊎ ((¬ HasPoint) × (reason : String) × Buried (letter correlation_id reason) site r)
