-- ===== src/Tests/Intake.antt =====
-- Runs of the intake of location events, and its theorems at them.
use wrany.Prelude.{
  ◌≡◌, refl, true, false, some, String, [], ◌∷◌, Result, ok, err, seconds, ◌==◌, if◌then◌else◌,
}
use wrany.Float64.{Milli, milli}
use wrany.Domain.Point.{RawLocationPoint}
use wrany.Events.Validation.{
  Bytes, Envelope, new_validation_error, require_non_empty, require_non_zero_time, require_range,
  require_non_negative, validate_envelope, envelope_issues,
}
use wrany.Events.Payloads.{LocationPayload, validate_location}
use wrany.Store.Tables.{insert_new}
use wrany.Intake.Process.{
  Action, Codec, Site, point_of, insert, map_payload_to_point, check_payload, check_envelope,
  settle_checked, process,
}
use wrany.Intake.Message.{IsPointOf}
use wrany.Intake.Consume.{Delivery, StoredIf, deliver, deliver_stores_once}

abbrev payload : LocationPayload Milli
payload = record {
  user_id = "1";
  device_id = "2";
  recorded_at = seconds 1_000;
  received_at = seconds 1_001;
  lat = 0;
  lon = 0;
  accuracy_m = 5_000;
  speed_mps = 0;
  bearing_deg = 0;
  activity_type = "";
  activity_confidence = 0;
  battery_level = 0;
  source = "android_tracker";
}

abbrev envelope : Envelope
envelope = record {
  event_id = "a";
  event_type = "location.events.v1";
  event_version = 1;
  occurred_at = seconds 1_000;
  produced_at = seconds 1_001;
  producer = "gateway";
  correlation_id = "s";
  payload = 1 ∷ [];
}

-- Bytes that begin with 1 stand for the envelope, all others for no JSON.
abbrev decode : Bytes → Result String Envelope
decode [] = err "no JSON"
decode (b ∷ bs) = if b == 1 then ok envelope else err "no JSON"

abbrev codec : Codec Milli
codec = record {
  decode_envelope = decode;
  decode_payload = λ e. ok payload;
  is_valid_json = λ bytes. true;
  as_json_string = λ bytes. bytes;
  parse_uuid = λ t. ok 1;
  error_text = λ e. "invalid";
  quoted = λ t. t;
  json = record {
    location = λ p. some (1 ∷ []);
    started = λ p. some (1 ∷ []);
    updated = λ p. some (1 ∷ []);
    completed = λ p. some (1 ∷ []);
    matched = λ p. some (1 ∷ []);
    dead_letter = λ p. some (1 ∷ []);
  };
  producer = "worker";
  consumer_name = "location";
}

abbrev site : Site Milli
site = record { up = true; raw_location_points = []; takes = λ e. true; sent = [] }

-- A good message is stored.
stores_point :
    process codec "x" (seconds 1_002) (1 ∷ []) site
    ≡ (Action.ack, record site { raw_location_points = point_of envelope payload 1 1 ∷ [] })
unfolding process settle_checked check_envelope check_payload map_payload_to_point point_of insert
    insert_new validate_envelope envelope_issues validate_location new_validation_error
    require_non_empty require_non_zero_time require_range require_non_negative
stores_point = refl

-- The point of the good message.
abbrev point_of_message : RawLocationPoint Milli
point_of_message = record {
  user_id = 1;
  device_id = 1;
  event_id = "a";
  recorded_at = seconds 1_000;
  received_at = seconds 1_001;
  lat = 0;
  lon = 0;
  accuracy_m = 5_000;
  speed_mps = some 0;
  bearing_deg = some 0;
  activity_type = "";
  activity_confidence = some 0;
  battery_level = some 0;
  source = "android_tracker";
}

carried : IsPointOf codec (1 ∷ []) point_of_message
unfolding validate_envelope envelope_issues validate_location new_validation_error require_non_empty
    require_non_zero_time require_range require_non_negative
carried = record {
  env = envelope;
  payload = payload;
  decoded = refl;
  valid_envelope = refl;
  typed = refl;
  read = refl;
  valid_payload = refl;
  user = refl;
  device = refl;
  event_id = refl;
  recorded_at = refl;
  received_at = refl;
  lat = refl;
  lon = refl;
  accuracy_m = refl;
  speed_mps = refl;
  bearing_deg = refl;
  activity_type = refl;
  activity_confidence = refl;
  battery_level = refl;
  source = refl;
}

-- The database is down; then the point is stored, but the answer is lost.
abbrev down : Delivery
down = record {
  id = "w";
  now = seconds 1_001;
  is_up = false;
  takes = λ e. true;
  is_answered = true;
}

abbrev lost : Delivery
lost = record {
  id = "x";
  now = seconds 1_002;
  is_up = true;
  takes = λ e. true;
  is_answered = false;
}

abbrev taken : Delivery
taken = record {
  id = "y";
  now = seconds 1_003;
  is_up = true;
  takes = λ e. true;
  is_answered = true;
}

deliver_stores_once_example :
    StoredIf true point_of_message []
      (deliver codec (1 ∷ []) (down ∷ lost ∷ taken ∷ []) site).raw_location_points
deliver_stores_once_example =
    deliver_stores_once codec (1 ∷ []) point_of_message carried refl (down ∷ lost ∷ taken ∷ []) site
