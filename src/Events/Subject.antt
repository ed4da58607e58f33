-- ===== src/Events/Subject.antt =====
-- The subjects of the concrete event types: libs/events/topics.go.
use wrany.Prelude.{String}

abbrev pub location_events : String
location_events = "location.events.v1"

abbrev pub trip_started : String
trip_started = "trip.started.v1"

abbrev pub trip_updated : String
trip_updated = "trip.updated.v1"

abbrev pub trip_completed : String
trip_completed = "trip.completed.v1"

abbrev pub route_matched : String
route_matched = "route.matched.v1"

abbrev pub dead_letter : String
dead_letter = "dead-letter.v1"
