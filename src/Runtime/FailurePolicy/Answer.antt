-- ===== src/Runtime/FailurePolicy/Answer.antt =====
-- Which policy answers a failure of a runtime effect.
use millrace_rs.Base.{
  String, eq_iff, ◌≡◌, refl, sym, ◌∙◌, ◌≢◌, inl, inr, true, false, Bool-cases, Option, none, some,
  List, [], ◌∷◌, Has, here, there, test, arith,
}
use millrace_rs.Contracts.Enums.{Plane}
use millrace_rs.Base.Text.{trim}
use millrace_rs.Runtime.FailurePolicy.{
  RuntimeEffectMutationPhase, RuntimeEffectMutationPhase-discrete, RuntimeFailurePolicyDefinition,
  RuntimeEffectFailurePolicyInput, RuntimeFailurePolicyInterpretation,
  policy_matches_effect_failure, is_unsafe_route, first_answer, interpret_fields,
  interpret_runtime_effect_failure_policy,
}

-- A policy that matches the failure and may answer it.
abbrev pub IsAnswer :
    List RuntimeFailurePolicyDefinition
    → RuntimeEffectFailurePolicyInput
    → RuntimeFailurePolicyInterpretation
    → RuntimeFailurePolicyDefinition
    → Type 0
IsAnswer policies failure i policy =
    Has policy policies
    × (policy_matches_effect_failure policy failure ≡ true)
    × (is_unsafe_route policy failure ≡ false)
    × (i.action ≡ policy.action)
    × (i.policy_id ≡ policy.policy_id)
    × (i.target_node_id ≡ policy.target_node_id)

first_answer-IsAnswer :
    (policies : List RuntimeFailurePolicyDefinition) (failure : RuntimeEffectFailurePolicyInput)
    (failure_class : String) (i : RuntimeFailurePolicyInterpretation)
    → first_answer policies failure failure_class ≡ some i
    → (policy : RuntimeFailurePolicyDefinition) × IsAnswer policies failure i policy
unfolding first_answer
first_answer-IsAnswer [] failure failure_class i h = absurd (ground arith)
first_answer-IsAnswer (p ∷ ps) failure failure_class i h =
    elim (Bool-cases (policy_matches_effect_failure p failure)) [
      | inr e ↦ later (first_answer-IsAnswer ps failure failure_class i (ground arith))
      | inl e ↦ elim (Bool-cases (is_unsafe_route p failure)) [
        | inl u ↦ later (first_answer-IsAnswer ps failure failure_class i (ground arith))
        | inr u ↦ (p, (here, e, u, ground arith, ground arith, ground arith))
      ]
    ]
  where
    later :
        (policy : RuntimeFailurePolicyDefinition) × IsAnswer ps failure i policy
        → (policy : RuntimeFailurePolicyDefinition) × IsAnswer (p ∷ ps) failure i policy
    later k =
        let (q, answers) = k in
        let (m, e, u, action, named, target) = answers in
        (q, (there m, e, u, action, named, target))

-- A runtime effect's failure is answered with the action and the target of one of the compiled
-- policies. That policy matches the failure, and it does not route to a node when the effect has
-- failed with a partial mutation.
pub interpret-IsAnswer :
    (policies : List RuntimeFailurePolicyDefinition) (failure : RuntimeEffectFailurePolicyInput)
    (i : RuntimeFailurePolicyInterpretation)
    → interpret_runtime_effect_failure_policy policies failure ≡ some i
    → (policy : RuntimeFailurePolicyDefinition) × IsAnswer policies failure i policy
unfolding interpret_runtime_effect_failure_policy interpret_fields
interpret-IsAnswer policies failure i h =
    on failure.failure_class failure.handler_id failure.source_node_id failure.source_plane
      failure.source_family_id h
  where
    on :
        (c a n : Option String) (s : Option Plane) (f : Option String)
        → interpret_fields policies failure c a n s f ≡ some i
        → (policy : RuntimeFailurePolicyDefinition) × IsAnswer policies failure i policy
    on (some c) (some a) (some n) (some s) (some f) k =
        first_answer-IsAnswer policies failure (trim c) i (ground arith)
    on none a n s f k = absurd (ground arith)
    on (some c) none n s f k = absurd (ground arith)
    on (some c) (some a) none s f k = absurd (ground arith)
    on (some c) (some a) (some n) none f k = absurd (ground arith)
    on (some c) (some a) (some n) (some s) none k = absurd (ground arith)

-- When an effect has failed with a partial mutation, the answer never routes to a node.
pub partial_mutation-never_routes :
    (policies : List RuntimeFailurePolicyDefinition) (failure : RuntimeEffectFailurePolicyInput)
    (i : RuntimeFailurePolicyInterpretation)
    → failure.mutation_phase ≡ RuntimeEffectMutationPhase.partial_mutation
    → interpret_runtime_effect_failure_policy policies failure ≡ some i
    → i.action ≢ "route_to_node"
unfolding is_unsafe_route RuntimeEffectMutationPhase-discrete
partial_mutation-never_routes policies failure i phase h routed =
    let (policy, answers) = interpret-IsAnswer policies failure i h in
    let (m, e, safe, action, named, target) = answers in
    let same = (eq_iff policy.action "route_to_node").1 (sym action ∙ routed) in
    let unsafe : (test (
          RuntimeEffectMutationPhase-discrete failure.mutation_phase
            RuntimeEffectMutationPhase.partial_mutation))
        ≡ true =
      rw phase refl in
    ground arith
