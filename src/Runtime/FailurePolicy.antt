-- ===== src/Runtime/FailurePolicy.antt =====
-- runtime/failure_policy.rs: the compiled policies that answer a failure of a runtime effect.
pub mod Answer
use millrace_rs.Base.{
  String, ◌==◌, ℕ, Bool, false, not, ◌&&◌, ◌||◌, Option, none, some, List, [], ◌∷◌, is_empty, any,
  contains, test, if◌then◌else◌,
}
use millrace_rs.Base.Text.{trim, is_blank}
use millrace_rs.Contracts.Enums.{Plane, Plane-discrete}

pub data RuntimeEffectMutationPhase : Type 0 where
  pre_mutation partial_mutation unknown : RuntimeEffectMutationPhase

unfoldable pub RuntimeEffectMutationPhase-discrete : Discrete RuntimeEffectMutationPhase
RuntimeEffectMutationPhase-discrete = hlevel

-- The fields that the interpretation reads; identifiers are their texts.
pub record RuntimeFailurePolicyDefinition : Type 0 where
  pub policy_id : String
  pub applies_to_origins : List String
  pub applies_to_planes : List Plane
  pub applies_to_families : List String
  pub applies_to_failure_classes : List String
  pub applies_to_mutation_phases : List RuntimeEffectMutationPhase
  pub applies_to_handler_ids : List String
  pub applies_to_source_node_ids : List String
  pub applies_to_source_terminal_state_ids : List String
  pub action : String
  pub target_node_id : Option String
  pub target_terminal_state_id : Option String
  pub max_attempts : Option ℕ
  pub incident_severity : Option String

pub record RuntimeEffectFailurePolicyInput : Type 0 where
  pub failure_class : Option String
  pub mutation_phase : RuntimeEffectMutationPhase
  pub handler_id : Option String
  pub source_node_id : Option String
  pub source_terminal_state_id : Option String
  pub source_plane : Option Plane
  pub source_family_id : Option String

pub record RuntimeFailurePolicyInterpretation : Type 0 where
  pub policy_id : String
  pub action : String
  pub failure_class : String
  pub target_node_id : Option String
  pub target_terminal_state_id : Option String
  pub max_attempts : Option ℕ
  pub incident_severity : Option String

unfoldable pub string_list_matches_required : List String → Option String → Bool
string_list_matches_required values none = false
string_list_matches_required values (some candidate) = any (λ value. value == candidate) values

unfoldable pub plane_list_matches_required : List Plane → Option Plane → Bool
plane_list_matches_required values none = false
plane_list_matches_required values (some candidate) = contains Plane-discrete values candidate

candidate_in : List String → Option String → Bool
candidate_in values none = false
candidate_in values (some candidate) = any (λ value. value == candidate) values

unfoldable pub string_list_matches_optional : List String → Option String → Bool
unfolding candidate_in
string_list_matches_optional values candidate = is_empty values || candidate_in values candidate

unfoldable pub phase_list_matches_optional :
    List RuntimeEffectMutationPhase → RuntimeEffectMutationPhase → Bool
phase_list_matches_optional values candidate =
    is_empty values || contains RuntimeEffectMutationPhase-discrete values candidate

unfoldable pub policy_matches_effect_failure :
    RuntimeFailurePolicyDefinition → RuntimeEffectFailurePolicyInput → Bool
policy_matches_effect_failure policy failure =
    string_list_matches_required policy.applies_to_origins (some "runtime_effect")
    && plane_list_matches_required policy.applies_to_planes failure.source_plane
    && string_list_matches_optional policy.applies_to_families failure.source_family_id
    && string_list_matches_optional policy.applies_to_failure_classes failure.failure_class
    && phase_list_matches_optional policy.applies_to_mutation_phases failure.mutation_phase
    && string_list_matches_optional policy.applies_to_handler_ids failure.handler_id
    && string_list_matches_optional policy.applies_to_source_node_ids failure.source_node_id
    && string_list_matches_optional policy.applies_to_source_terminal_state_ids
        failure.source_terminal_state_id

-- What makes the loop skip a policy that matches: after a partial mutation, no routing to a node.
unfoldable pub is_unsafe_route :
    RuntimeFailurePolicyDefinition → RuntimeEffectFailurePolicyInput → Bool
is_unsafe_route policy failure =
    test (
      RuntimeEffectMutationPhase-discrete failure.mutation_phase
        RuntimeEffectMutationPhase.partial_mutation)
    && policy.action == "route_to_node"

-- The loop over the policies.
unfoldable pub first_answer :
    List RuntimeFailurePolicyDefinition
    → RuntimeEffectFailurePolicyInput
    → String
    → Option RuntimeFailurePolicyInterpretation
first_answer [] failure failure_class = none
first_answer (policy ∷ policies) failure failure_class =
    let rest = first_answer policies failure failure_class in
    if not (policy_matches_effect_failure policy failure)
    then rest
    else if is_unsafe_route policy failure
    then rest
    else some (record {
      policy_id = policy.policy_id;
      action = policy.action;
      failure_class = failure_class;
      target_node_id = policy.target_node_id;
      target_terminal_state_id = policy.target_terminal_state_id;
      max_attempts = policy.max_attempts;
      incident_severity = policy.incident_severity;
    })

unfoldable pub interpret_fields :
    List RuntimeFailurePolicyDefinition
    → RuntimeEffectFailurePolicyInput
    → Option String
    → Option String
    → Option String
    → Option Plane
    → Option String
    → Option RuntimeFailurePolicyInterpretation
interpret_fields policies failure (some failure_class) (some handler_id) (some source_node_id)
      (some source_plane) (some source_family_id) =
    if is_blank (trim failure_class)
      || is_blank (trim handler_id)
      || is_blank (trim source_node_id)
      || is_blank (trim source_family_id)
    then none
    else first_answer policies failure (trim failure_class)
interpret_fields policies failure _ _ _ _ _ = none

unfoldable pub interpret_runtime_effect_failure_policy :
    List RuntimeFailurePolicyDefinition
    → RuntimeEffectFailurePolicyInput
    → Option RuntimeFailurePolicyInterpretation
unfolding interpret_fields
interpret_runtime_effect_failure_policy policies failure =
    interpret_fields policies failure failure.failure_class failure.handler_id
      failure.source_node_id failure.source_plane failure.source_family_id
