-- ===== src/Runtime/Foreground.antt =====
-- runtime/tick.rs: the active run that the snapshot shows in its foreground fields.
pub mod Projection
use millrace_rs.Base.{Option, none, some, List, [], ◌∷◌, or_else}
use millrace_rs.Contracts.Enums.{Plane}
use millrace_rs.Runtime.PlaneMap
use millrace_rs.Runtime.PlaneMap.{PlaneMap}
use millrace_rs.Runtime.State.{ActiveRunState, RuntimeSnapshot}
use millrace_rs.Runtime.Router.{◌and_then◌}

-- `find_map` over the planes: the run of the first plane that has one.
unfoldable pub first_active : List Plane → PlaneMap ActiveRunState → Option ActiveRunState
first_active [] runs = none
first_active (plane ∷ planes) runs = or_else (PlaneMap.get runs plane) (first_active planes runs)

abbrev pub foreground_order : List Plane
foreground_order = Plane.planning ∷ Plane.execution ∷ Plane.learning ∷ []

abbrev pub show : Option ActiveRunState → RuntimeSnapshot → RuntimeSnapshot
show active_run snapshot = record snapshot {
  active_plane = active_run and_then λ run. some run.plane;
  active_stage = active_run and_then λ run. some run.stage;
  active_node_id = active_run and_then λ run. some run.node_id;
  active_stage_kind_id = active_run and_then λ run. some run.stage_kind_id;
  active_run_id = active_run and_then λ run. some run.run_id;
  active_work_item_family_id = active_run and_then λ run. run.work_item_family_id;
  active_work_item_kind = active_run and_then λ run. run.work_item_kind;
  active_work_item_id = active_run and_then λ run. run.work_item_id;
  active_since = active_run and_then λ run. some run.active_since;
}

unfoldable pub project_foreground_active_run : RuntimeSnapshot → RuntimeSnapshot
project_foreground_active_run snapshot =
    show (first_active foreground_order snapshot.active_runs_by_plane) snapshot
