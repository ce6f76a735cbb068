-- ===== src/Runtime/Examples/Control.antt =====
-- Pauses, dispatch, failure policies and the foreground fields at small concrete inputs.
use millrace_rs.Base.{
  String, ◌≡◌, refl, ◌≢◌, true, none, some, List, [], ◌∷◌, Has, here, there, any, contains, arith,
}
use millrace_rs.Base.Text.{trim}
use millrace_rs.Contracts.Enums.{Plane, Plane-discrete}
use millrace_rs.Runtime.PlaneMap
use millrace_rs.Runtime.State.{PauseSource, RuntimeSnapshot}
use millrace_rs.Runtime.Router.{active_run_for_plane}
use millrace_rs.Runtime.Dispatch.{
  PlaneConcurrencyPolicyDefinition, can_dispatch_plane, active_plane_set, allowed_beside,
  all_compatible, pair_in_groups, pair_in_group,
}
use millrace_rs.Runtime.Dispatch.Compatible.{
  IsCompatible, can_dispatch-IsCompatible, IsCompatible-can_dispatch,
}
use millrace_rs.Runtime.Dispatch.Symmetry.{can_dispatch-same_planes}
use millrace_rs.Runtime.FailurePolicy.{
  RuntimeEffectMutationPhase, RuntimeEffectMutationPhase-discrete, RuntimeFailurePolicyDefinition,
  RuntimeEffectFailurePolicyInput, RuntimeFailurePolicyInterpretation, first_answer,
  policy_matches_effect_failure, string_list_matches_required, plane_list_matches_required,
  string_list_matches_optional, phase_list_matches_optional, is_unsafe_route, interpret_fields,
  interpret_runtime_effect_failure_policy,
}
use millrace_rs.Runtime.FailurePolicy.Answer.{partial_mutation-never_routes}
use millrace_rs.Runtime.Pause.{add_governance_pause_source, remove_governance_pause_source}
use millrace_rs.Runtime.Pause.Sources.{has, operator_only, remove-add}
use millrace_rs.Runtime.Foreground.{project_foreground_active_run}
use millrace_rs.Runtime.Foreground.Projection.{IsKeyed, active_run-project}
use millrace_rs.Runtime.Examples.{snapshot, arbiter_run}

abbrev paused_by_operator : RuntimeSnapshot
paused_by_operator = record snapshot { paused = true; pause_sources = PauseSource.operator ∷ [] }

remove-add_example :
    let resumed = remove_governance_pause_source (add_governance_pause_source paused_by_operator) in
    (resumed.pause_sources ≡ operator_only paused_by_operator)
    × (resumed.paused ≡ has (PauseSource.operator ∷ []) PauseSource.operator)
remove-add_example = remove-add paused_by_operator

abbrev policy : PlaneConcurrencyPolicyDefinition
policy = record {
  mutually_exclusive_planes = (Plane.execution ∷ Plane.planning ∷ []) ∷ [];
  may_run_concurrently = (Plane.execution ∷ Plane.learning ∷ []) ∷ [];
}

learning_beside_execution :
    can_dispatch_plane (some policy) (Plane.execution ∷ []) Plane.learning ≡ true
unfolding can_dispatch_plane active_plane_set allowed_beside all_compatible pair_in_groups
    pair_in_group contains any Plane-discrete
learning_beside_execution = refl

can_dispatch-IsCompatible_example :
    (Plane.learning ≢ Plane.execution) × IsCompatible policy Plane.learning Plane.execution
can_dispatch-IsCompatible_example =
    can_dispatch-IsCompatible policy (Plane.execution ∷ []) Plane.learning Plane.execution
      learning_beside_execution here

learning-IsCompatible :
    (x : Plane)
    → Has x (Plane.execution ∷ [])
    → (Plane.learning ≢ x) × IsCompatible policy Plane.learning x
learning-IsCompatible _ here =
    can_dispatch-IsCompatible policy (Plane.execution ∷ []) Plane.learning Plane.execution
      learning_beside_execution here
learning-IsCompatible x (there m) = elim m [ ]

IsCompatible-can_dispatch_example :
    can_dispatch_plane (some policy) (Plane.execution ∷ []) Plane.learning ≡ true
IsCompatible-can_dispatch_example =
    IsCompatible-can_dispatch policy (Plane.execution ∷ []) Plane.learning learning-IsCompatible

once_in_twice :
    (x : Plane) → Has x (Plane.execution ∷ []) → Has x (Plane.execution ∷ Plane.execution ∷ [])
once_in_twice x m = there m

twice_in_once :
    (x : Plane) → Has x (Plane.execution ∷ Plane.execution ∷ []) → Has x (Plane.execution ∷ [])
twice_in_once _ here = here
twice_in_once x (there m) = m

can_dispatch-same_planes_example :
    can_dispatch_plane (some policy) (Plane.execution ∷ []) Plane.learning
    ≡ can_dispatch_plane (some policy) (Plane.execution ∷ Plane.execution ∷ []) Plane.learning
can_dispatch-same_planes_example =
    can_dispatch-same_planes policy (Plane.execution ∷ []) (Plane.execution ∷ Plane.execution ∷ [])
      Plane.learning once_in_twice twice_in_once

abbrev answering : String → RuntimeFailurePolicyDefinition
answering action = record {
  policy_id = action;
  applies_to_origins = "runtime_effect" ∷ [];
  applies_to_planes = Plane.planning ∷ [];
  applies_to_families = [];
  applies_to_failure_classes = [];
  applies_to_mutation_phases = [];
  applies_to_handler_ids = [];
  applies_to_source_node_ids = [];
  applies_to_source_terminal_state_ids = [];
  action = action;
  target_node_id = none;
  target_terminal_state_id = none;
  max_attempts = none;
  incident_severity = none;
}

abbrev policies : List RuntimeFailurePolicyDefinition
policies = answering "route_to_node" ∷ answering "block" ∷ []

abbrev failure : RuntimeEffectFailurePolicyInput
failure = record {
  failure_class = some "effect_failed";
  mutation_phase = RuntimeEffectMutationPhase.partial_mutation;
  handler_id = some "handler";
  source_node_id = some "node";
  source_terminal_state_id = none;
  source_plane = some Plane.planning;
  source_family_id = some "task";
}

abbrev answer : RuntimeFailurePolicyInterpretation
answer = record {
  policy_id = "block";
  action = "block";
  failure_class = "effect_failed";
  target_node_id = none;
  target_terminal_state_id = none;
  max_attempts = none;
  incident_severity = none;
}

blocked_answer : interpret_runtime_effect_failure_policy policies failure ≡ some answer
unfolding interpret_runtime_effect_failure_policy interpret_fields first_answer
    policy_matches_effect_failure string_list_matches_required plane_list_matches_required
    string_list_matches_optional phase_list_matches_optional is_unsafe_route contains any
    Plane-discrete RuntimeEffectMutationPhase-discrete trim
blocked_answer = refl

partial_mutation-never_routes_example : answer.action ≢ "route_to_node"
partial_mutation-never_routes_example =
    partial_mutation-never_routes policies failure answer refl blocked_answer

arbiter-IsKeyed : IsKeyed snapshot.active_runs_by_plane
unfolding PlaneMap.get PlaneMap.insert
arbiter-IsKeyed Plane.execution run h = absurd (ground arith)
arbiter-IsKeyed Plane.planning run h =
    let same : arbiter_run ≡ run = ground arith in rw (← same) refl
arbiter-IsKeyed Plane.learning run h = absurd (ground arith)

active_run-project_example :
    active_run_for_plane (project_foreground_active_run snapshot) Plane.planning
    ≡ PlaneMap.get snapshot.active_runs_by_plane Plane.planning
active_run-project_example = active_run-project snapshot Plane.planning arbiter-IsKeyed
