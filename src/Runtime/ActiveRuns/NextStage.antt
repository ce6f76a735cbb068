-- ===== src/Runtime/ActiveRuns/NextStage.antt =====
-- What the router decides and what the runtime does with it fit together: a decision that runs a stage is
-- one that the application of the decision accepts.
use millrace_rs.Base.{
  ℕ, String, ◌≡◌, refl, sym, ◌∙◌, inl, inr, true, Bool-cases, Option, none, some, Option-cases, Has,
  test, unwrap_or, ok, ◌>>=◌, >>=-eq-ok, arith,
}
use millrace_rs.Base.Text.{trim, is_blank}
use millrace_rs.Contracts.Enums.{Plane, Plane-discrete, StageName, WorkItemKind}
use millrace_rs.Contracts.StageName
use millrace_rs.Runtime.PlaneMap
use millrace_rs.Runtime.State.{
  ActiveRunState, RuntimeSnapshot, RecoveryCounters, StageResultEnvelope, Timestamp,
}
use millrace_rs.Runtime.Plan.{
  CompiledRunPlan, FrozenGraphPlanePlan, MaterializedGraphNodePlan, graph_for_plane, TickResult,
}
use millrace_rs.Runtime.Router.{RouterDecision, run_stage, route_stage_result_from_graph}
use millrace_rs.Runtime.Router.Sound.{IsSound, runs, hands_off, ends}
use millrace_rs.Runtime.Router.RoutesSound.{route-IsSound}
use millrace_rs.Runtime.Foreground.{project_foreground_active_run}
use millrace_rs.Runtime.RecoveryCounters.{
  RecoveryCounterField, show_count, increment_counter_field, increment_route_counters,
  increment_for, route_counter_field, default_failure_class, count_of, increment_entry,
  recovery_counter_entry,
}
use millrace_rs.Runtime.ActiveRuns.{set_next_stage_for_plane, apply_run_stage_decision}

-- The next stage of a decision, as a stage of the graph.
pub record RunsNode (graph : FrozenGraphPlanePlan) (d : RouterDecision) : Type 0 where
  pub node : MaterializedGraphNodePlan
  pub stage : StageName
  pub declared : Has node graph.nodes
  pub next_stage : d.next_stage ≡ some stage
  pub next_node : d.next_node_id ≡ some node.node_id
  pub next_kind : d.next_stage_kind_id ≡ some node.stage_kind_id
  pub next_plane : d.next_plane ≡ some graph.plane
  pub own_plane : StageName.plane stage ≡ graph.plane

sound-RunsNode :
    (graph : FrozenGraphPlanePlan) (r : StageResultEnvelope) (d : RouterDecision)
    → d.action ≡ run_stage
    → IsSound graph r d
    → RunsNode graph d
sound-RunsNode graph r d h (runs node stage m a n k s p o i) = record {
  node = node;
  stage = stage;
  declared = m;
  next_stage = s;
  next_node = n;
  next_kind = k;
  next_plane = p;
  own_plane = o;
}
sound-RunsNode graph r d h (hands_off cause a p s i) = absurd (ground arith)
sound-RunsNode graph r d h (ends (inl a) p s i) = absurd (ground arith)
sound-RunsNode graph r d h (ends (inr a) p s i) = absurd (ground arith)

show_count-runs :
    (field : RecoveryCounterField) (n : ℕ) (s : RuntimeSnapshot)
    → (show_count field n s).active_runs_by_plane ≡ s.active_runs_by_plane
unfolding show_count
show_count-runs RecoveryCounterField.troubleshoot_attempt_count n s = refl
show_count-runs RecoveryCounterField.mechanic_attempt_count n s = refl
show_count-runs RecoveryCounterField.fix_cycle_count n s = refl
show_count-runs RecoveryCounterField.consultant_invocations n s = refl

abbrev shown_count :
    RecoveryCounters → String → WorkItemKind → String → RecoveryCounterField → Timestamp → ℕ
shown_count c failure_class kind work_item_id field now =
    count_of field
      (record (increment_entry field
        (recovery_counter_entry c.entries failure_class kind work_item_id now)) {
          last_updated_at = now;
        })

increment_field-runs :
    (c c' : RecoveryCounters) (s s' : RuntimeSnapshot) (failure_class : String)
    (kind : WorkItemKind) (work_item_id : String) (field : RecoveryCounterField) (now : Timestamp)
    → increment_counter_field c s failure_class kind work_item_id field now ≡ ok (c', s')
    → s'.active_runs_by_plane ≡ s.active_runs_by_plane
unfolding increment_counter_field
increment_field-runs c c' s s' failure_class kind work_item_id field now h =
    elim (Bool-cases (is_blank (trim failure_class))) [
      | inl b ↦ absurd (ground arith)
      | inr b ↦ elim (Bool-cases (is_blank (trim work_item_id))) [
        | inl k ↦ absurd (ground arith)
        | inr k ↦
            let shown : s'
                ≡ show_count field (shown_count c failure_class kind work_item_id field now) s =
              ground arith in
            rw shown
              (show_count-runs field (shown_count c failure_class kind work_item_id field now) s)
      ]
    ]

increment-runs :
    (c c' : RecoveryCounters) (s s' : RuntimeSnapshot) (d : RouterDecision)
    (r : StageResultEnvelope)
    → increment_route_counters c s d r ≡ ok (c', s')
    → s'.active_runs_by_plane ≡ s.active_runs_by_plane
unfolding increment_route_counters
increment-runs c c' s s' d r h = on_field (route_counter_field d r) h
  where
    on_field :
        (field : Option RecoveryCounterField)
        → increment_for field c s d r ≡ ok (c', s')
        → s'.active_runs_by_plane ≡ s.active_runs_by_plane
    on_field none k = let same : s ≡ s' = ground arith in rw same refl
    on_field (some field) k =
        increment_field-runs c c' s s' (unwrap_or d.failure_class (default_failure_class field))
          r.work_item_kind r.work_item_id field r.completed_at k

test_same : (p q : Plane) → p ≡ q → test (Plane-discrete p q) ≡ true
test_same p q e = elim (Plane-discrete p q) as (λ t. test t ≡ true) [
  | yes _ ↦ refl
  | no n ↦ absurd (n e)
]

-- The application of a decision that runs a node of the plane's graph goes on to that node: neither of
-- its own checks refuses it.
accepted :
    (graph : FrozenGraphPlanePlan) (snapshot : RuntimeSnapshot) (c : RecoveryCounters)
    (d : RouterDecision) (r : StageResultEnvelope) (n : RunsNode graph d)
    → graph.plane ≡ r.plane
    → apply_run_stage_decision snapshot c d r ≡ (
        set_next_stage_for_plane r.plane n.stage n.node.node_id n.node.stage_kind_id r.completed_at
          d.failure_class snapshot
        >>= λ s. increment_route_counters c s d r)
unfolding apply_run_stage_decision
accepted graph snapshot c d r n own =
    rw (n.next_plane, n.next_stage, n.next_node, n.next_kind, test_same graph.plane r.plane own)
      refl

set_next_stage-run :
    (plane : Plane) (stage : StageName) (node_id stage_kind_id : String) (now : Timestamp)
    (failure_class : Option String) (s s' : RuntimeSnapshot)
    → set_next_stage_for_plane plane stage node_id stage_kind_id now failure_class s ≡ ok s'
    → (run : ActiveRunState) × (PlaneMap.get s'.active_runs_by_plane plane ≡ some run)
      × (run.stage ≡ stage)
      × (run.node_id ≡ node_id)
unfolding set_next_stage_for_plane project_foreground_active_run
set_next_stage-run plane stage node_id stage_kind_id now failure_class s s' h =
    elim (Option-cases (PlaneMap.get s.active_runs_by_plane plane)) [
      | inl e ↦ absurd (ground arith)
      | inr (run, e) ↦ stepped run (rw e at h)
    ]
  where
    run' : ActiveRunState → ActiveRunState
    run' run = record run {
      stage = stage;
      node_id = node_id;
      stage_kind_id = stage_kind_id;
      active_since = now;
      running_status_marker = none;
    }

    stepped :
        (run : ActiveRunState)
        → ◌≡◌ {A = TickResult RuntimeSnapshot}
            (ok
              (record (project_foreground_active_run (record s {
                active_runs_by_plane = PlaneMap.insert s.active_runs_by_plane plane (run' run);
              })) { current_failure_class = failure_class; updated_at = now }))
            (ok s')
        → (found : ActiveRunState) × (PlaneMap.get s'.active_runs_by_plane plane ≡ some found)
          × (found.stage ≡ stage)
          × (found.node_id ≡ node_id)
    stepped run k =
        let table : s'.active_runs_by_plane
            ≡ PlaneMap.insert s.active_runs_by_plane plane (run' run) =
          ground arith in
        (
          run' run,
          rw table (PlaneMap.get-insert_self s.active_runs_by_plane plane (run' run)),
          refl,
          refl,
        )

-- When the router decides to run a stage, and the runtime has applied the decision, the plane of the
-- stage result has an active run on a node of its own graph, in a stage that the plane owns. The
-- compiled graph of the plane names that plane.
pub applied-own_stage :
    (plan : CompiledRunPlan) (snapshot s' : RuntimeSnapshot) (r : StageResultEnvelope)
    (c c' : RecoveryCounters) (d : RouterDecision) (graph : FrozenGraphPlanePlan)
    → graph_for_plane plan r.plane ≡ ok graph
    → graph.plane ≡ r.plane
    → route_stage_result_from_graph plan snapshot r c ≡ ok d
    → d.action ≡ run_stage
    → apply_run_stage_decision snapshot c d r ≡ ok (c', s')
    → (run : ActiveRunState) × (node : MaterializedGraphNodePlan) × (PlaneMap.get
          s'.active_runs_by_plane r.plane
        ≡ some run)
      × Has node graph.nodes
      × (run.node_id ≡ node.node_id)
      × (StageName.plane run.stage ≡ r.plane)
applied-own_stage plan snapshot s' r c c' d graph found own routed runs_stage applied =
    let (g, found', sound) = route-IsSound plan snapshot r c d routed in
    let same : g ≡ graph = ground (arith, sym found' ∙ found) in
    let n : RunsNode graph d = sound-RunsNode graph r d runs_stage (rw same at sound) in
    let (mid, e, k) =
      >>=-eq-ok
        (set_next_stage_for_plane r.plane n.stage n.node.node_id n.node.stage_kind_id r.completed_at
          d.failure_class snapshot)
        _ (c', s') (sym (accepted graph snapshot c d r n own) ∙ applied) in
    let (run, at_plane, in_stage, at_node) =
      set_next_stage-run r.plane n.stage n.node.node_id n.node.stage_kind_id r.completed_at
        d.failure_class snapshot mid e in
    let kept = increment-runs c c' mid s' d r k in
    (run, n.node, rw kept at_plane, n.declared, at_node, rw in_stage (n.own_plane ∙ own))
