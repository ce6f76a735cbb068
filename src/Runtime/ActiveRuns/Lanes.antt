-- ===== src/Runtime/ActiveRuns/Lanes.antt =====
-- The lanes of a snapshot stay coherent with the runs on them.
use millrace_rs.Base.{
  String, ◌==◌, ◌≡◌, refl, inl, inr, Bool, true, not, Bool-cases, Option, none, some, Option-cases,
  List, [], ◌∷◌, filter, is_empty, All, arith,
}
use millrace_rs.Base.Dict.{lookup, All-insert, All-lookup}
use millrace_rs.Contracts.Enums.{Plane}
use millrace_rs.Runtime.PlaneMap
use millrace_rs.Runtime.State.{
  ActiveRunState, LaneRuntimeState, LaneRuntimeStatus, RuntimeSnapshot, Timestamp,
}
use millrace_rs.Runtime.LaneState.{IsCoherent}
use millrace_rs.Runtime.Plan.{CompiledRunPlan}
use millrace_rs.Runtime.Foreground.{project_foreground_active_run}
use millrace_rs.Runtime.Lanes.{
  lane_id_of_run, lane_state_for_active_runs, snapshot_with_lane_active_run, without_run,
  snapshot_without_lane_active_run, DeclaredLane, declared_lane_specs, ensured_lane, settled,
  active_runs_on, ensure_lanes, ensure_snapshot_lanes,
}
use millrace_rs.Runtime.ActiveRuns.{snapshot_with_active_run, clear_active_plane}

abbrev pub LaneFits : String × LaneRuntimeState → Type 0
LaneFits (lane_id, lane) = (lane.lane_id ≡ lane_id) × IsCoherent lane

abbrev pub LanesFit : RuntimeSnapshot → Type 0
LanesFit snapshot = All LaneFits snapshot.lanes_by_id

is_empty-filter :
    (p : String → Bool) (xs : List String) → is_empty xs ≡ true → is_empty (filter p xs) ≡ true
unfolding filter
is_empty-filter p [] h = refl
is_empty-filter p (x ∷ xs) h = absurd (ground arith)

without_run-IsCoherent :
    (run_id : String) (now : Timestamp) (outcome : Option String) (lane : LaneRuntimeState)
    → IsCoherent lane
    → IsCoherent (without_run run_id now outcome lane)
unfolding without_run
without_run-IsCoherent run_id now outcome lane h =
    elim (Bool-cases
      (is_empty (filter (λ active_id. not (active_id == run_id)) lane.active_run_ids))) [
        | inl e ↦ rw e (λ k. absurd (ground arith), λ k. refl)
        | inr e ↦ rw e (
          λ k. refl,
          λ k.
              let left =
                is_empty-filter (λ active_id. not (active_id == run_id)) lane.active_run_ids
                  (h.1 k) in
              ground arith,
        )
      ]

with_lane-LanesFit :
    (run : ActiveRunState) (s : RuntimeSnapshot)
    → LanesFit s
    → LanesFit (snapshot_with_lane_active_run run s)
unfolding snapshot_with_lane_active_run lane_state_for_active_runs
with_lane-LanesFit run s h =
    All-insert LaneFits (lane_id_of_run run)
      (lane_state_for_active_runs (lane_id_of_run run) run.plane run []) s.lanes_by_id
      (refl, (λ k. refl, λ k. absurd (ground arith))) h

without_lane-LanesFit :
    (lane_id run_id : String) (now : Timestamp) (outcome : Option String) (s : RuntimeSnapshot)
    → LanesFit s
    → LanesFit (snapshot_without_lane_active_run lane_id run_id now outcome s)
unfolding snapshot_without_lane_active_run
without_lane-LanesFit lane_id run_id now outcome s h =
    elim (Option-cases (lookup lane_id s.lanes_by_id)) [
      | inl e ↦ rw e h
      | inr (lane, e) ↦
          let (key, fits) = All-lookup LaneFits lane_id lane s.lanes_by_id h e in
          rw e (
            All-insert LaneFits lane_id (without_run run_id now outcome lane) s.lanes_by_id
              (unfold without_run in key, without_run-IsCoherent run_id now outcome lane fits) h)
    ]

settled-IsCoherent :
    (compiled_plan_id fingerprint lane_id : String) (plane : Plane) (runs : List ActiveRunState)
    (existing : Option LaneRuntimeState)
    → ((lane : LaneRuntimeState) → existing ≡ some lane → lane.lane_id ≡ lane_id)
    → LaneFits (lane_id, ensured_lane compiled_plan_id fingerprint lane_id plane runs existing)
unfolding ensured_lane lane_state_for_active_runs
settled-IsCoherent compiled_plan_id fingerprint lane_id plane (primary ∷ rest) existing h =
    (refl, (λ k. refl, λ k. absurd (ground arith)))
settled-IsCoherent compiled_plan_id fingerprint lane_id plane [] none h =
    (refl, (λ k. absurd (ground arith), λ k. refl))
settled-IsCoherent compiled_plan_id fingerprint lane_id plane [] (some lane) h =
    (h lane refl, (λ k. absurd (never_active lane.status k), λ k. refl))
  where
    never_active : (status : LaneRuntimeStatus) → settled status ≡ LaneRuntimeStatus.active → ⊥
    never_active LaneRuntimeStatus.active k = ground arith
    never_active LaneRuntimeStatus.idle k = ground arith
    never_active LaneRuntimeStatus.paused k = ground arith
    never_active LaneRuntimeStatus.draining k = ground arith
    never_active LaneRuntimeStatus.stopped k = ground arith
    never_active LaneRuntimeStatus.blocked k = ground arith

ensure_lanes-LanesFit :
    (compiled_plan_id fingerprint : String) (runs : List ActiveRunState)
    (declared : List DeclaredLane) (lanes : List (String × LaneRuntimeState))
    → All LaneFits lanes
    → All LaneFits (ensure_lanes compiled_plan_id fingerprint runs declared lanes)
unfolding ensure_lanes
ensure_lanes-LanesFit compiled_plan_id fingerprint runs [] lanes h = h
ensure_lanes-LanesFit compiled_plan_id fingerprint runs ((lane_id, plane) ∷ declared) lanes h =
    ensure_lanes-LanesFit compiled_plan_id fingerprint runs declared _ (
      All-insert LaneFits lane_id
        (ensured_lane compiled_plan_id fingerprint lane_id plane (active_runs_on lane_id runs)
          (lookup lane_id lanes))
        lanes
        (settled-IsCoherent compiled_plan_id fingerprint lane_id plane (active_runs_on lane_id runs)
          (lookup lane_id lanes) λ lane e. (All-lookup LaneFits lane_id lane lanes h e).0)
        h)

-- If each lane of the snapshot stands under its own id, an active lane has runs and an idle lane has
-- none, then this still holds once the lanes that the plan declares are set up.
pub ensure_snapshot_lanes-LanesFit :
    (fingerprint : CompiledRunPlan → String) (plan : CompiledRunPlan) (s : RuntimeSnapshot)
    → LanesFit s
    → LanesFit (ensure_snapshot_lanes fingerprint plan s)
unfolding ensure_snapshot_lanes
ensure_snapshot_lanes-LanesFit fingerprint plan s h =
    ensure_lanes-LanesFit plan.compiled_plan_id (fingerprint plan) _ (declared_lane_specs plan)
      s.lanes_by_id h

pub snapshot_with_active_run-LanesFit :
    (run : ActiveRunState) (now : Timestamp) (s : RuntimeSnapshot)
    → LanesFit s
    → LanesFit (snapshot_with_active_run run now s)
unfolding snapshot_with_active_run project_foreground_active_run
snapshot_with_active_run-LanesFit run now s h = with_lane-LanesFit run s h

-- If each lane of the snapshot stands under its own id, an active lane has runs and an idle lane has
-- none, then this still holds once the run of a plane has ended.
pub clear_active_plane-LanesFit :
    (plane : Plane) (failure_class : Option String) (now : Timestamp) (s : RuntimeSnapshot)
    → LanesFit s
    → LanesFit (clear_active_plane plane failure_class now s)
unfolding clear_active_plane project_foreground_active_run
clear_active_plane-LanesFit plane failure_class now s h =
    elim (Option-cases (PlaneMap.get s.active_runs_by_plane plane)) [
      | inl e ↦ rw e h
      | inr (run, e) ↦ rw e (
          without_lane-LanesFit (lane_id_of_run run) run.run_id now none
            (record s { active_runs_by_plane = PlaneMap.remove s.active_runs_by_plane plane }) h)
    ]
