-- ===== src/Runtime/Examples/Lanes.antt =====
-- The arbiter's run started on an idle snapshot, and ended again.
use millrace_rs.Base.{
  eq_iff, ◌≡◌, refl, ap, sym, ◌∙◌, none, some, String, [], ◌∷◌, here, there, arith,
}
use millrace_rs.Base.Dict.{lookup}
use millrace_rs.Base.Text.{trim, drop_start, drop_end, is_whitespace}
use millrace_rs.Contracts.Enums.{Plane}
use millrace_rs.Runtime.PlaneMap
use millrace_rs.Runtime.PlaneMap.{PlaneMap}
use millrace_rs.Runtime.State.{ActiveRunState, LaneRuntimeState, RuntimeSnapshot}
use millrace_rs.Runtime.Plan.{CompiledRunPlan}
use millrace_rs.Runtime.Router.{active_run_for_plane}
use millrace_rs.Runtime.Foreground.Projection.{IsKeyed}
use millrace_rs.Runtime.Foreground.{project_foreground_active_run}
use millrace_rs.Runtime.Lanes.{
  lane_id_of_run, lane_state_for_active_runs, snapshot_with_lane_active_run,
}
use millrace_rs.Runtime.ActiveRuns.{snapshot_with_active_run, clear_active_plane}
use millrace_rs.Runtime.ActiveRuns.Lanes.{
  LanesFit, snapshot_with_active_run-LanesFit, clear_active_plane-LanesFit,
}
use millrace_rs.Runtime.ActiveRuns.Placed.{
  AllPlaced, HasOwnId, LaneIsFree, snapshot_with_active_run-AllPlaced, clear_active_plane-AllPlaced,
  clear_active_plane-none,
}
use millrace_rs.Runtime.Examples.{arbiter_run, snapshot, plan}

abbrev fingerprint : CompiledRunPlan → String
fingerprint plan = plan.compiled_plan_id

abbrev idle : RuntimeSnapshot
idle = record snapshot { active_runs_by_plane = PlaneMap.empty }

abbrev started : RuntimeSnapshot
started = snapshot_with_active_run arbiter_run "2026-01-01T00:00:00Z" idle

empty_table :
    (plane : Plane) (run : ActiveRunState) → PlaneMap.get PlaneMap.empty plane ≡ some run → ⊥
unfolding PlaneMap.get
empty_table Plane.execution run h = ground arith
empty_table Plane.planning run h = ground arith
empty_table Plane.learning run h = ground arith

started_fit : LanesFit started
started_fit = snapshot_with_active_run-LanesFit arbiter_run "2026-01-01T00:00:00Z" idle tt

clear_active_plane-LanesFit_example :
    LanesFit (clear_active_plane Plane.planning none "2026-01-01T01:00:00Z" started)
clear_active_plane-LanesFit_example =
    clear_active_plane-LanesFit Plane.planning none "2026-01-01T01:00:00Z" started started_fit

idle_is_free : LaneIsFree idle Plane.planning (lane_id_of_run arbiter_run)
idle_is_free other run apart h same = empty_table other run h

idle_placed : AllPlaced idle
idle_placed plane run h = absurd (empty_table plane run h)

started_placed : AllPlaced started
started_placed =
    snapshot_with_active_run-AllPlaced arbiter_run "2026-01-01T00:00:00Z" idle idle_is_free
      idle_placed

only_arbiter :
    (other : Plane) (run : ActiveRunState)
    → PlaneMap.get (PlaneMap.insert PlaneMap.empty Plane.planning arbiter_run) other ≡ some run
    → (other ≡ Plane.planning) × (run.plane ≡ other)
unfolding PlaneMap.get PlaneMap.insert
only_arbiter Plane.planning run h =
    let same : arbiter_run ≡ run = ground arith in (refl, rw (← same) refl)
only_arbiter Plane.execution run h = absurd (ground arith)
only_arbiter Plane.learning run h = absurd (ground arith)

started_runs :
    started.active_runs_by_plane ≡ PlaneMap.insert PlaneMap.empty Plane.planning arbiter_run
unfolding snapshot_with_active_run project_foreground_active_run snapshot_with_lane_active_run
started_runs = refl

only_started :
    (other : Plane) (run : ActiveRunState)
    → PlaneMap.get started.active_runs_by_plane other ≡ some run
    → (other ≡ Plane.planning) × (run.plane ≡ other)
only_started other run h =
    only_arbiter other run
      (ap (λ (m : PlaneMap ActiveRunState). PlaneMap.get m other) (sym started_runs) ∙ h)

-- A second run on the arbiter's lane.
abbrev beside_run : ActiveRunState
beside_run = record arbiter_run { plane = Plane.execution; run_id = "run-2" }

abbrev shared_runs : PlaneMap ActiveRunState
shared_runs =
    PlaneMap.insert (PlaneMap.insert PlaneMap.empty Plane.planning arbiter_run) Plane.execution
      beside_run

abbrev shared_lane : LaneRuntimeState
shared_lane = record (lane_state_for_active_runs "planning.main" Plane.planning arbiter_run []) {
  active_run_ids = "run-1" ∷ "run-2" ∷ [];
}

abbrev shared : RuntimeSnapshot
shared = record snapshot {
  active_runs_by_plane = shared_runs;
  lanes_by_id = ("planning.main", shared_lane) ∷ [];
}

shared_placed : AllPlaced shared
unfolding PlaneMap.get PlaneMap.insert lookup lane_id_of_run trim drop_start drop_end is_whitespace
shared_placed Plane.planning run h =
    let same : arbiter_run ≡ run = ground arith in rw (← same) (shared_lane, refl, here)
shared_placed Plane.execution run h =
    let same : beside_run ≡ run = ground arith in rw (← same) (shared_lane, refl, there here)
shared_placed Plane.learning run h = absurd (ground arith)

own_ids :
    (run : ActiveRunState)
    → PlaneMap.get shared_runs Plane.planning ≡ some run
    → HasOwnId shared Plane.planning run.run_id
unfolding PlaneMap.get PlaneMap.insert
own_ids run h Plane.planning other apart k = absurd (apart refl)
own_ids run h Plane.execution other apart k =
    let a : beside_run ≡ other = ground arith in
    let b : arbiter_run ≡ run = ground arith in
    rw (← a, ← b) (λ e. let k = (eq_iff "run-2" "run-1").1 e in ground (arith, k))
own_ids run h Plane.learning other apart k = absurd (ground arith)

clear_active_plane-AllPlaced_example :
    AllPlaced (clear_active_plane Plane.planning none "2026-01-01T01:00:00Z" shared)
clear_active_plane-AllPlaced_example =
    clear_active_plane-AllPlaced Plane.planning none "2026-01-01T01:00:00Z" shared own_ids
      shared_placed

started-IsKeyed : IsKeyed started.active_runs_by_plane
started-IsKeyed other run h = (only_started other run h).1

clear_active_plane-none_example :
    active_run_for_plane
      (clear_active_plane Plane.planning none "2026-01-01T01:00:00Z" started)
      Plane.planning
    ≡ none
clear_active_plane-none_example =
    clear_active_plane-none Plane.planning none "2026-01-01T01:00:00Z" started started-IsKeyed
