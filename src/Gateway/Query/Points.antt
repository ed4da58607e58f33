-- ===== src/Gateway/Query/Points.antt =====
-- Pages of raw points, `GetPoints` and `DeletePoint` with `validateRange`:
-- services/tracking-gateway/internal/usecase/tracking_query.go, and their statements in
-- services/tracking-gateway/internal/storage/postgres/tracking_query_repo.go. Base64 and the texts of
-- times are parameters.
use wrany.Prelude.{
  ℕ, ◌+◌, ◌-◌, ◌*◌, Bool, true, not, ◌&&◌, ◌||◌, Option, none, some, String, List, map, Time, Uuid,
  Result, ok, err, length, keep, take, last?, sort_by, str_eq, str_lt, concat, ltb, leb, ◌==◌,
  seconds, read_or, ◌>>=◌, if◌then◌else◌,
}
use wrany.Domain.Point.{RawLocationPoint}

abbrev pub default_points_limit : ℕ
default_points_limit = 1000

abbrev pub max_points_limit : ℕ
max_points_limit = 5000

abbrev pub max_range_days : ℕ
max_range_days = 31

pub data QueryError : Type 0 where
  err_from_required err_to_required err_invalid_range err_range_too_large : QueryError
  err_no_rows err_database : QueryError

pub record TrackingPoint (W : Type 0) : Type 0 where
  pub event_id : String
  pub device_id : Uuid
  pub recorded_at : Time
  pub lat : W
  pub lon : W
  pub accuracy_m : W
  pub speed_mps : Option W
  pub bearing_deg : Option W
  pub activity_type : String

-- The ids are the uuids of their texts; a device that is the empty text is none. A limit below zero
-- is 0.
pub record GetPointsInput : Type 0 where
  pub user_id : Uuid
  pub device_id : Option Uuid
  pub from : Time
  pub until : Time
  pub limit : ℕ
  pub cursor : String

pub record TrackingPointFilter : Type 0 where
  pub user_id : Uuid
  pub device_id : Option Uuid
  pub from : Time
  pub until : Time
  pub limit : ℕ
  pub cursor : String

-- `base64.StdEncoding`, the layout `time.RFC3339Nano`, and a text cut at its first bar.
pub record CursorCodec : Type 0 where
  pub encode_base64 : String → String
  pub decode_base64 : String → Option String
  pub format_time : Time → String
  pub parse_time : String → Option Time
  pub cut_at_bar : String → Option (String × String)

-- The table of raw points; a database that is down fails every statement.
pub record PointDb (W : Type 0) : Type 0 where
  pub up : Bool
  pub raw_location_points : List (RawLocationPoint W)

unfoldable pub validate_range : Time → Time → Option QueryError
validate_range from until =
    if from == 0
    then some QueryError.err_from_required
    else if until == 0
    then some QueryError.err_to_required
    else if not (ltb from until)
    then some QueryError.err_invalid_range
    else if ltb (seconds (max_range_days * 24 * 3_600)) (until - from)
    then some QueryError.err_range_too_large
    else none

-- A cursor is the time and the event id of the last point before it.
abbrev pub Position : Type 0
Position = Time × String

module _ (codec : CursorCodec) where
  open codec use {encode_base64, decode_base64, format_time, parse_time, cut_at_bar}

  unfoldable pub encode_cursor : Time → String → String
  encode_cursor at event_id = encode_base64 (concat (format_time at) (concat "|" event_id))

  -- What cannot be read, and the zero time, are no cursor.
  unfoldable pub decode_cursor : String → Option Position
  decode_cursor cursor =
      if str_eq cursor ""
      then none
      else decode_base64 cursor >>= λ decoded. cut_at_bar decoded >>= λ parts.
          parse_time parts.0 >>= λ at. if at == 0 then none else some (at, parts.1)

abbrev pub limit_of : ℕ → ℕ
limit_of limit =
    let limit = if limit == 0 then default_points_limit else limit in
    if ltb max_points_limit limit then max_points_limit else limit

abbrev pub filter_of : GetPointsInput → TrackingPointFilter
filter_of input = record {
  user_id = input.user_id;
  device_id = input.device_id;
  from = input.from;
  until = input.until;
  limit = limit_of input.limit;
  cursor = input.cursor;
}

module _ {W : Type 0} where
  -- `user_id = $1 AND recorded_at >= $2 AND recorded_at <= $3`, and the device if it is given
  abbrev pub matches : TrackingPointFilter → RawLocationPoint W → Bool
  matches f p =
      p.user_id == f.user_id
      && leb f.from p.recorded_at
      && leb p.recorded_at f.until
      && read_or f.device_id true (λ d. p.device_id == d)

  abbrev pub tracking_point : RawLocationPoint W → TrackingPoint W
  tracking_point p = record {
    event_id = p.event_id;
    device_id = p.device_id;
    recorded_at = p.recorded_at;
    lat = p.lat;
    lon = p.lon;
    accuracy_m = p.accuracy_m;
    speed_mps = p.speed_mps;
    bearing_deg = p.bearing_deg;
    activity_type = p.activity_type;
  }

  -- `recorded_at > $t OR (recorded_at = $t AND event_id > $id)`
  abbrev pub is_behind : Position → TrackingPoint W → Bool
  is_behind (at, id) p = ltb at p.recorded_at || at == p.recorded_at && str_lt id p.event_id

  abbrev pub is_behind_cursor : Option Position → TrackingPoint W → Bool
  is_behind_cursor none p = true
  is_behind_cursor (some c) p = is_behind c p

  -- `ORDER BY recorded_at ASC, event_id ASC`
  abbrev pub comes_before : TrackingPoint W → TrackingPoint W → Bool
  comes_before p q = is_behind (p.recorded_at, p.event_id) q

  -- The rows without the limit.
  abbrev pub select_points :
      TrackingPointFilter → Option Position → PointDb W → List (TrackingPoint W)
  select_points f cursor db = sort_by comes_before (
      map tracking_point (
        keep (λ p. matches f p && is_behind_cursor cursor (tracking_point p))
          db.raw_location_points))

  abbrev pub next_cursor : CursorCodec → Option (TrackingPoint W) → String
  next_cursor codec none = ""
  next_cursor codec (some last) = encode_cursor codec last.recorded_at last.event_id

  -- One row more than the limit is fetched, to see whether there is a next page.
  abbrev pub cut_page : CursorCodec → ℕ → List (TrackingPoint W) → List (TrackingPoint W) × String
  cut_page codec limit points =
      if ltb limit (length points)
      then (take limit points, next_cursor codec (last? (take limit points)))
      else (points, "")

  unfoldable pub get_points_page :
      CursorCodec
      → TrackingPointFilter
      → PointDb W
      → Result QueryError (List (TrackingPoint W) × String)
  get_points_page codec f db =
      if db.up
      then ok (
          cut_page codec f.limit
            (take (f.limit + 1) (select_points f (decode_cursor codec f.cursor) db)))
      else err QueryError.err_database

  abbrev pub unless :
      Option QueryError
      → Result QueryError (List (TrackingPoint W) × String)
      → Result QueryError (List (TrackingPoint W) × String)
  unless none r = r
  unless (some e) r = err e

  unfoldable pub get_points :
      CursorCodec → GetPointsInput → PointDb W → Result QueryError (List (TrackingPoint W) × String)
  get_points codec input db =
      unless (validate_range input.from input.until) (get_points_page codec (filter_of input) db)

  -- `WHERE event_id = $1 AND user_id = $2`
  unfoldable pub delete_point : Uuid → String → PointDb W → Result QueryError (PointDb W)
  delete_point user_id event_id db =
      let is_it = λ (p : RawLocationPoint W). str_eq p.event_id event_id && p.user_id == user_id in
      let left = keep (λ p. not (is_it p)) db.raw_location_points in
      if not db.up
      then err QueryError.err_database
      else if length left == length db.raw_location_points
      then err QueryError.err_no_rows
      else ok (record db { raw_location_points = left })
