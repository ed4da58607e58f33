-- ===== src/Tests/Query.antt =====
-- Pages of raw points, and the theorem at them.
use Prim.Native.Char.{Char}
use Prim.Native.String.append
use wrany.Prelude.{
  ℕ, zero, suc, ◌≡◌, refl, ap, ◌∙◌, eq_iff, Bool-cases, inl, inr, true, false, Option, none, some,
  String, List, [], ◌∷◌, map, Time, Uuid, ok, length, concat, str_eq, if◌then◌else◌, insert_by,
  sort_by, option_map,
}
use wrany.Float64.{Milli, milli}
use wrany.Domain.Point.{RawLocationPoint}
use wrany.Gateway.Query.Points.{
  GetPointsInput, CursorCodec, PointDb, TrackingPoint, validate_range, encode_cursor, decode_cursor,
  get_points_page, get_points, delete_point,
}
use wrany.Gateway.Query.Pages.{ReadsBack, read_pages, all_points, read_pages_reads_all}

abbrev pub tally : ℕ → String
tally zero = ""
tally (suc n) = String.◌∷◌ "a" (tally n)

abbrev pub count : String → ℕ
count String.[] = 0
count (String.◌∷◌ c s) = suc (count s)

-- The first text is given back with one character more.
abbrev with_front : Option (String × String) → Option (String × String)
with_front none = none
with_front (some (s, t)) = some (String.◌∷◌ "a" s, t)

abbrev cut : String → Option (String × String)
cut String.[] = none
cut (String.◌∷◌ c s) =
    let rest = cut s in if str_eq (String.◌∷◌ c "") "|" then some ("", s) else with_front rest

abbrev unwrap : String → Option String
unwrap String.[] = none
unwrap (String.◌∷◌ c s) = some s

abbrev codec : CursorCodec
codec = record {
  encode_base64 = λ s. String.◌∷◌ "x" s;
  decode_base64 = unwrap;
  format_time = tally;
  parse_time = λ s. some (count s);
  cut_at_bar = cut;
}

cut-tally : (n : ℕ) (id : String) → cut (concat (tally n) (concat "|" id)) ≡ some (tally n, id)
cut-tally zero id = ap cut (
    append.nil (concat "|" id) ∙ append.cons "|" "" id ∙ ap (λ s. String.◌∷◌ "|" s) (append.nil id))
cut-tally (suc n) id =
    ap cut (append.cons "a" (tally n) (concat "|" id)) ∙ ap with_front (cut-tally n id)

pub count-tally : (n : ℕ) → count (tally n) ≡ n
count-tally zero = refl
count-tally (suc n) = ap suc (count-tally n)

not_empty : (c : Char) (s : String) → str_eq (String.◌∷◌ c s) "" ≡ false
not_empty c s = elim (Bool-cases (str_eq (String.◌∷◌ c s) "")) [
  | inr h ↦ h
  | inl h ↦ let e : String.◌∷◌ c s ≡ "" = (eq_iff (String.◌∷◌ c s) "").0 h in cc
]

codec-ReadsBack : ReadsBack codec
codec-ReadsBack = record {
  base64 = λ s. refl;
  full = λ at id. not_empty "x" _;
  cut = cut-tally;
  time = λ at. ap some (count-tally at);
}

abbrev row : Uuid → String → Time → RawLocationPoint Milli
row device_id event_id at = record {
  user_id = 1;
  device_id = device_id;
  event_id = event_id;
  recorded_at = at;
  received_at = at;
  lat = 0;
  lon = 0;
  accuracy_m = 5_000;
  speed_mps = none;
  bearing_deg = none;
  activity_type = "walking";
  activity_confidence = none;
  battery_level = none;
  source = "android_tracker";
}

abbrev input : GetPointsInput
input = record { user_id = 1; device_id = none; from = 1; until = 9; limit = 1; cursor = "" }

abbrev db : PointDb Milli
db = record {
  up = true;
  raw_location_points = row 2 "c" 3 ∷ row 2 "a" 2 ∷ row 3 "b" 3 ∷ row 2 "z" 10 ∷ [];
}

abbrev event_ids : Option (List (TrackingPoint Milli)) → Option (List String)
event_ids points = option_map (map (λ (p : TrackingPoint Milli). p.event_id)) points

pages_run : event_ids (read_pages codec 4 input db) ≡ some ("a" ∷ "b" ∷ "c" ∷ [])
unfolding read_pages get_points get_points_page validate_range sort_by insert_by encode_cursor
    decode_cursor
pages_run = refl

-- Two devices that give one id to points of one time: behind a page that ends at the first of them,
-- the other is passed over.
passed_over :
    event_ids (
      read_pages codec 4 input
        (record db { raw_location_points = row 2 "a" 2 ∷ row 3 "a" 2 ∷ row 2 "b" 3 ∷ [] }))
    ≡ some ("a" ∷ "b" ∷ [])
unfolding read_pages get_points get_points_page validate_range sort_by insert_by encode_cursor
    decode_cursor
passed_over = refl

deleted :
    delete_point 1 "a" db
    ≡ ok (record db { raw_location_points = row 2 "c" 3 ∷ row 3 "b" 3 ∷ row 2 "z" 10 ∷ [] })
unfolding delete_point
deleted = refl

validated : validate_range 1 9 ≡ none
unfolding validate_range
validated = refl

read_pages_reads_all_example :
    read_pages codec (suc (length (all_points codec input db refl validated))) input db
    ≡ some (all_points codec input db refl validated)
read_pages_reads_all_example =
    read_pages_reads_all codec input db refl validated codec-ReadsBack
      ((refl, (refl, tt)), ((refl, tt), (tt, tt)))
