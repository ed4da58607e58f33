-- ===== src/Detection/Soundness.antt =====
-- What holds of a detection state and of the variables of `ProcessBatch`:
-- services/tracking-worker/internal/usecase/trip_detection.go.
use wrany.Prelude.{
  ◌≡◌, ◌≢◌, sym, refl, ◌⊎◌, inl, inr, Bool, true, Option, none, some, List, [], ◌∷◌, ◌++◌, map,
  Uuid, is_some, All, All-append, arith,
}
use mathlib.Core.Path.{subst, subst₂}
use wrany.Domain.Trip.{TripState, TripPoint, TripDetectionState}
use wrany.Detection.Command.{CommandKind, TripCommand}
use wrany.Detection.Protocol.{replay, replay_kind, IsComplete, Tagged}
use wrany.Detection.Machine.{Run, with_trip}

-- The points that wait for a flush, in each state.
abbrev pub Pending : TripState → Option Uuid → List TripPoint → Bool → Type 0
Pending TripState.trip_active (some id) points seen =
    Tagged id points × ((points ≡ []) ⊎ (seen ≡ true))
Pending TripState.trip_active none points seen = points ≡ []
Pending _ _ points seen = points ≡ []

pub Pending-active :
    {s : TripState} {o : Option Uuid} {id : Uuid} {ps : List TripPoint} {seen : Bool}
    → s ≡ TripState.trip_active
    → o ≡ some id
    → Pending s o ps seen
    → Pending TripState.trip_active (some id) ps seen
Pending-active {ps = ps} {seen = seen} e a h = subst₂ (λ s o. Pending s o ps seen) e a h

-- With no active trip, or in a stop, nothing waits.
pub Pending-nil :
    {s : TripState} (k : TripState) (o : Option Uuid) (ps : List TripPoint) (seen : Bool)
    → s ≡ k
    → k ≢ TripState.trip_active
    → Pending s o ps seen
    → ps ≡ []
Pending-nil TripState.idle o ps seen e n h = subst (λ s. Pending s o ps seen) e h
Pending-nil TripState.trip_active o ps seen e n h = absurd (n refl)
Pending-nil TripState.motion_candidate o ps seen e n h = subst (λ s. Pending s o ps seen) e h
Pending-nil TripState.stop_candidate o ps seen e n h = subst (λ s. Pending s o ps seen) e h
Pending-nil (TripState.unknown text) o ps seen e n h = subst (λ s. Pending s o ps seen) e h

pub Pending-of_nil :
    (o : Option Uuid) (ps : List TripPoint) (seen : Bool)
    → ps ≡ []
    → Pending TripState.trip_active o ps seen
Pending-of_nil none ps seen n = n
Pending-of_nil (some id) ps seen n = (subst (Tagged id) (sym n) tt, inl n)

pub Pending-snoc :
    {s : TripState} {o : Option Uuid} (id : Uuid) (ps : List TripPoint) (tp : TripPoint)
    (seen : Bool)
    → s ≡ TripState.trip_active
    → o ≡ some id
    → Pending s o ps seen
    → Pending s o (ps ++ with_trip id tp ∷ []) true
Pending-snoc id ps tp seen e a h =
    let all =
      All-append (λ tp. tp.trip_id ≡ id) ps (with_trip id tp ∷ []) (Pending-active e a h).0
        (refl, tt) in
    subst₂ (λ s o. Pending s o (ps ++ with_trip id tp ∷ []) true) (sym e) (sym a) (all, inr refl)

pub Tagged-map : (id : Uuid) (tps : List TripPoint) → Tagged id (map (with_trip id) tps)
Tagged-map id [] = tt
Tagged-map id (tp ∷ tps) = (refl, Tagged-map id tps)

pub update-replays :
    (id : Uuid) (o : Option Uuid) → o ≡ some id → replay_kind CommandKind.update_trip id o ≡ some o
update-replays id o a = ground arith

pub complete-replays :
    (id : Uuid) (o : Option Uuid)
    → o ≡ some id
    → replay_kind CommandKind.complete_trip id o ≡ some none
complete-replays id o a = ground arith

module _ {W : Type 0} where
  -- The pointers that are set in each state; a stored text that is no state promises nothing.
  abbrev pub Fits : TripState → TripDetectionState W → Type 0
  Fits TripState.idle s = s.active_trip_id ≡ none
  Fits TripState.motion_candidate s =
      (s.active_trip_id ≡ none)
      × (is_some s.candidate_started_at ≡ true)
      × (is_some s.candidate_start_lat ≡ true)
      × (is_some s.candidate_start_lon ≡ true)
  Fits TripState.trip_active s = is_some s.active_trip_id ≡ true
  Fits TripState.stop_candidate s =
      (is_some s.active_trip_id ≡ true)
      × (is_some s.stop_started_at ≡ true)
      × (is_some s.stop_center_lat ≡ true)
      × (is_some s.stop_center_lon ≡ true)
  Fits (TripState.unknown _) s = Unit

  abbrev pub IsSound : TripDetectionState W → Type 0
  IsSound s = Fits s.state s

  -- What holds of the loop's variables, begun with the active trip `start`: points wait for a flush
  -- only while a trip is active.
  pub record RunOk (start : Option Uuid) (r : Run W) : Type 0 where
    pub fits : Fits r.new_state.state r.new_state
    pub pending :
        Pending r.new_state.state r.new_state.active_trip_id r.active_points (is_some r.last_active)
    pub replayed : replay start r.commands ≡ some r.new_state.active_trip_id
    pub complete : All IsComplete r.commands

  pub All-snoc :
      (cs : List (TripCommand W)) (c : TripCommand W)
      → All IsComplete cs
      → IsComplete c
      → All IsComplete (cs ++ c ∷ [])
  All-snoc cs c h k = All-append IsComplete cs (c ∷ []) h (k, tt)
