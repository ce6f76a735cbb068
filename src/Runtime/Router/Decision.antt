-- ===== src/Runtime/Router/Decision.antt =====
-- runtime/tick.rs: the decisions of the router, and how they are built.
use millrace_rs.Base.{String, Bool, false, Option, none, some, ok, map_err, ◌>>=◌}
use millrace_rs.Contracts.Enums.{Plane, StageName}
use millrace_rs.Contracts.Validation.{stage_name_for_plane}
use millrace_rs.Runtime.State.{contract}
use millrace_rs.Runtime.Plan.{TickResult, FrozenGraphPlanePlan, node_plan_by_id}

pub data RouterAction : Type 0 where
  run_stage handoff idle blocked : RouterAction

pub record RouterDecision : Type 0 where
  pub action : RouterAction
  pub next_plane : Option Plane
  pub next_stage : Option StageName
  pub reason : String
  pub next_node_id : Option String
  pub next_stage_kind_id : Option String
  pub failure_class : Option String
  pub counter_key : Option String
  pub create_incident : Bool

unfoldable pub run_stage_decision :
    FrozenGraphPlanePlan
    → String
    → String
    → Option String
    → Option String
    → TickResult RouterDecision
run_stage_decision graph target_node_id reason failure_class counter_key = do
  node ← node_plan_by_id graph target_node_id
  stage ← map_err contract (stage_name_for_plane graph.plane node.stage_kind_id)
  ok (record {
    action = run_stage;
    next_plane = some graph.plane;
    next_stage = some stage;
    reason = reason;
    next_node_id = some node.node_id;
    next_stage_kind_id = some node.stage_kind_id;
    failure_class = failure_class;
    counter_key = counter_key;
    create_incident = false;
  })

unfoldable pub idle_decision : String → RouterDecision
idle_decision reason = record {
  action = idle;
  next_plane = none;
  next_stage = none;
  reason = reason;
  next_node_id = none;
  next_stage_kind_id = none;
  failure_class = none;
  counter_key = none;
  create_incident = false;
}

unfoldable pub blocked_decision : String → Option String → Option String → RouterDecision
blocked_decision reason failure_class counter_key = record {
  action = blocked;
  next_plane = none;
  next_stage = none;
  reason = reason;
  next_node_id = none;
  next_stage_kind_id = none;
  failure_class = failure_class;
  counter_key = counter_key;
  create_incident = false;
}
