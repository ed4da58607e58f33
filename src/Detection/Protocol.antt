-- ===== src/Detection/Protocol.antt =====
-- What the commands of trip detection promise, independently of the state machine: the life of a
-- trip, and the parts that a command of each kind carries.
use wrany.Prelude.{
  ◌<◌, ◌≡◌, true, Option, none, some, ◌>>=◌, List, [], ◌∷◌, ◌++◌, Uuid, ◌==◌, inl, inr,
  Option-cases, is_some, length, All, if◌then◌else◌,
}
use wrany.Domain.Trip.{TripStatus, Trip, TripPoint}
use wrany.Detection.Command.{CommandKind, TripCommand}

-- The life of a trip: at most one is active; only that one is updated, and completed once.
abbrev pub replay_kind : CommandKind → Uuid → Option Uuid → Option (Option Uuid)
replay_kind CommandKind.create_trip id none = some (some id)
replay_kind CommandKind.create_trip id (some _) = none
replay_kind CommandKind.update_trip id none = none
replay_kind CommandKind.update_trip id (some current) =
    if current == id then some (some current) else none
replay_kind CommandKind.complete_trip id none = none
replay_kind CommandKind.complete_trip id (some current) = if current == id then some none else none

abbrev pub Tagged : Uuid → List TripPoint → Type 0
Tagged id = All λ tp. tp.trip_id ≡ id

module _ {W : Type 0} where
  -- The active trip after the commands, from the one before them; `none` if they break the rules.
  unfoldable pub replay : Option Uuid → List (TripCommand W) → Option (Option Uuid)
  replay active [] = some active
  replay active (c ∷ cs) = do next ← replay_kind c.kind c.trip_id active; replay next cs

  abbrev pub CreatesTrip : TripCommand W → Option (Trip W) → Type 0
  CreatesTrip c none = ⊥
  CreatesTrip c (some trip) =
      (trip.id ≡ c.trip_id)
      × (trip.status ≡ TripStatus.active)
      × (c.backfill_since ≡ some trip.started_at)
      × (0 < length c.points)

  -- The parts that the readers of a command of this kind dereference, and how they agree.
  abbrev pub Carries : CommandKind → TripCommand W → Type 0
  Carries CommandKind.create_trip c = CreatesTrip c c.trip
  Carries CommandKind.update_trip c =
      (c.delta_points_count ≡ length c.points)
      × (0 < c.delta_points_count)
      × (is_some c.last_point_at ≡ true)
  Carries CommandKind.complete_trip c =
      (is_some c.ended_at ≡ true)
      × (is_some c.end_lat ≡ true)
      × (is_some c.end_lon ≡ true)
      × (c.points ≡ [])

  abbrev pub IsComplete : TripCommand W → Type 0
  IsComplete c = Carries c.kind c × Tagged c.trip_id c.points

  pub replay-append :
      (active : Option Uuid) (cs : List (TripCommand W)) (c : TripCommand W)
      → replay active (cs ++ c ∷ []) ≡ (replay active cs >>= replay_kind c.kind c.trip_id)
  unfolding replay
  replay-append active [] c = elim (Option-cases (replay_kind c.kind c.trip_id active)) [
    | inl e ↦ rw e
    | inr (next, e) ↦ rw e
  ]
  replay-append active (d ∷ ds) c = elim (Option-cases (replay_kind d.kind d.trip_id active)) [
    | inl e ↦ rw e
    | inr (next, e) ↦ rw e (replay-append next ds c)
  ]

  pub replay-snoc :
      (active : Option Uuid) (cs : List (TripCommand W)) (c : TripCommand W)
      {now next : Option Uuid}
      → replay active cs ≡ some now
      → replay_kind c.kind c.trip_id now ≡ some next
      → replay active (cs ++ c ∷ []) ≡ some next
  replay-snoc active cs c h k = rw (replay-append active cs c, h) k
