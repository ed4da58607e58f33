-- ===== src/Tests/Fast.antt =====
-- Runs of the ranking of fast segments, and its theorems at them.
use mathlib.Core.Path.{subst}
use wrany.Prelude.{
  ℕ, ◌-◌, ◌*◌, ◌≡◌, refl, true, Option, none, some, is_some, IfSome, String, List, [], ◌∷◌, map,
  All, ok, err, insert_by, sort_by, seconds, arith,
}
use wrany.Float64.{Milli, milli}
use wrany.Gateway.Query.Points.{validate_range}
use wrany.Gateway.Query.Fast.{
  FastSegmentSourcePoint, FastSegment, FastSegmentConfig, SpeedEdge, edges_from, segment_of, flush,
  collect_from, collect_fast_segments, haversine_m,
}
use wrany.Gateway.Query.Ranking.{
  FastSegmentFilter, GetFastSegmentsInput, Group, Ranked, percentile, add_edge, group_edges,
  segments_of_groups, rank_from, rank_segments, get_fast_segments,
}
use wrany.Gateway.Query.Runs.{IsTotal, IsRun, collect_fast_segments_runs}
use wrany.Gateway.Query.Ranks.{IsAsym}
use wrany.Gateway.Query.Fastest.{IsAnswer, get_fast_segments_ranks}
use wrany.Gateway.Query.Answered.{IsShare, get_fast_segments_safe}

abbrev point : String → ℕ → FastSegmentSourcePoint Milli
point event_id secs = record {
  device_id = "d";
  event_id = event_id;
  recorded_at = seconds secs;
  lat = 0;
  lon = 0;
  segment_id = 1;
}

abbrev edge : String → ℕ → String → ℕ → ℕ → SpeedEdge Milli
edge p begin q end speed = record {
  source = point p begin;
  target = point q end;
  distance_m = speed * 20;
  duration = seconds (end - begin);
  speed_mps = speed;
}

-- Two fast edges, a slow one and a fast one that is too short.
abbrev edges : List (SpeedEdge Milli)
edges =
    edge "a" 1_000 "b" 1_020 9_000
    ∷ edge "b" 1_020 "c" 1_040 8_000
    ∷ edge "c" 1_040 "d" 1_060 1_000
    ∷ edge "d" 1_060 "e" 1_065 9_000
    ∷ []

milli-IsTotal : IsTotal milli
milli-IsTotal x y h k e = ground arith

one_run :
    map
      (λ (s : FastSegment Milli). s.ended_at)
      (collect_fast_segments 5_000 2_000 (seconds 20) edges)
    ≡ seconds 1_040 ∷ []
unfolding collect_fast_segments collect_from flush segment_of
one_run = refl

collect_fast_segments_runs_example :
    All
      (IsRun 5_000 2_000 (seconds 20) edges)
      (collect_fast_segments 5_000 2_000 (seconds 20) edges)
collect_fast_segments_runs_example =
    collect_fast_segments_runs 5_000 2_000 (seconds 20) edges milli-IsTotal refl
      (refl, (refl, (refl, (refl, tt))))

abbrev points : List (FastSegmentSourcePoint Milli)
points =
    point "a" 1_000
    ∷ (record (point "b" 1_020) { lat = 90_000 })
    ∷ point "c" 1_040
    ∷ point "d" 1_060
    ∷ []

abbrev input : GetFastSegmentsInput
input = record {
  user_id = "u";
  device_id = "";
  from = seconds 900;
  until = seconds 2_000;
  preset = "normal";
  limit = 5;
}

abbrev in_order : List (Group Milli) → List (Group Milli)
in_order groups = groups

abbrev fetch : FastSegmentFilter → Option (List (FastSegmentSourcePoint Milli))
fetch filter = some points

milli-IsAsym : IsAsym milli
milli-IsAsym x y h = ground arith

half-IsShare : IsShare {W = Milli} 500
half-IsShare n = (omega arith, omega arith)

normal-IsShare : IsShare {W = Milli} 850
normal-IsShare n = (omega arith, omega arith)

abbrev segments_in : Option (Ranked Milli) → List (FastSegment Milli)
segments_in none = []
segments_in (some (err e)) = []
segments_in (some (ok segments)) = segments

abbrev found : List (FastSegment Milli)
found = segments_in (get_fast_segments in_order fetch input)

ranked_run : get_fast_segments in_order fetch input ≡ some (ok found)
unfolding get_fast_segments validate_range rank_segments segments_of_groups group_edges add_edge
    percentile collect_fast_segments collect_from flush segment_of edges_from haversine_m rank_from
    sort_by insert_by
ranked_run = refl

one_found : map (λ (s : FastSegment Milli). s.ended_at) found ≡ seconds 1_020 ∷ []
unfolding get_fast_segments validate_range rank_segments segments_of_groups group_edges add_edge
    percentile collect_fast_segments collect_from flush segment_of edges_from haversine_m rank_from
    sort_by insert_by
one_found = refl

get_fast_segments_ranks_example :
    IsAnswer in_order (some points) (record { percentile = 850; min_duration = seconds 20 }) 5 found
get_fast_segments_ranks_example =
    get_fast_segments_ranks milli-IsAsym in_order fetch input
      (record { percentile = 850; min_duration = seconds 20 }) found refl ranked_run

get_fast_segments_safe_example : is_some (get_fast_segments in_order fetch input) ≡ true
get_fast_segments_safe_example = get_fast_segments_safe half-IsShare in_order fetch input λ cfg e.
    subst (λ o. IfSome (λ (c : FastSegmentConfig Milli). IsShare c.percentile) o) e normal-IsShare
