-- ===== src/Store/Tables.antt =====
-- The tables of the worker's migrations (services/tracking-worker/infra/migrations) that the
-- detection cycle reads and writes. A table is the list of its rows; a database that is down fails
-- every statement. Times are taken to be whole microseconds, which is what a column keeps of them.
use wrany.Prelude.{
  Bool, true, false, ◌&&◌, Option, none, some, String, List, [], ◌∷◌, ◌++◌, Uuid, str_eq, ◌==◌,
  if◌then◌else◌,
}
use wrany.Domain.Point.{RawLocationPoint, ProcessedLocationPoint}
use wrany.Domain.Trip.{Trip, TripPoint, TripDetectionState}

pub record Db (W : Type 0) : Type 0 where
  pub up : Bool
  pub raw_location_points : List (RawLocationPoint W)
  pub processed_location_points : List (ProcessedLocationPoint W)
  pub trips : List (Trip W)
  pub trip_points : List TripPoint
  pub trip_detection_state : List (TripDetectionState W)

-- The key (user_id, device_id, event_id) that most tables share.
pub record EventKey : Type 0 where
  pub user_id : Uuid
  pub device_id : Uuid
  pub event_id : String

abbrev pub same_key : EventKey → EventKey → Bool
same_key a b = a.user_id == b.user_id && a.device_id == b.device_id && str_eq a.event_id b.event_id

module _ {W : Type 0} where
  abbrev pub raw_key : RawLocationPoint W → EventKey
  raw_key p = record { user_id = p.user_id; device_id = p.device_id; event_id = p.event_id }

  abbrev pub processed_key : ProcessedLocationPoint W → EventKey
  processed_key p = record { user_id = p.user_id; device_id = p.device_id; event_id = p.event_id }

abbrev pub trip_point_key : TripPoint → EventKey
trip_point_key p = record { user_id = p.user_id; device_id = p.device_id; event_id = p.event_id }

module _ {A : Type 0} where
  abbrev pub any : (A → Bool) → List A → Bool
  any p [] = false
  any p (x ∷ xs) = if p x then true else any p xs

  abbrev pub find? : (A → Bool) → List A → Option A
  find? p [] = none
  find? p (x ∷ xs) = if p x then some x else find? p xs

  -- INSERT … ON CONFLICT DO NOTHING
  unfoldable pub insert_new : (A → A → Bool) → A → List A → List A
  insert_new same row rows = if any (same row) rows then rows else rows ++ row ∷ []

  -- UPDATE … WHERE
  unfoldable pub update_where : (A → Bool) → (A → A) → List A → List A
  update_where p change [] = []
  update_where p change (x ∷ xs) = (if p x then change x else x) ∷ update_where p change xs

  -- INSERT … ON CONFLICT DO UPDATE with every column set.
  unfoldable pub upsert : (A → A → Bool) → A → List A → List A
  upsert same row [] = row ∷ []
  upsert same row (x ∷ xs) = if same row x then row ∷ xs else x ∷ upsert same row xs
