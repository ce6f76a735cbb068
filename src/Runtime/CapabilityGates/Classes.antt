-- ===== src/Runtime/CapabilityGates/Classes.antt =====
-- A gate that blocks a stage names a failure class, and one that lets it through names none.
use millrace_rs.Base.{
  String, ◌==◌, eq_iff, ◌≡◌, refl, ap, ◌⊎◌, inl, inr, true, false, not, ◌&&◌, Bool-cases, Option,
  none, some, Option-cases, List, [], ◌∷◌, ◌++◌, any, All, Has, here, there, Has-any, if◌then◌else◌,
  ok, >>=-eq-ok, Result-cases, test, arith,
}
use millrace_rs.Contracts.Enums.{
  CapabilityDecisionState, CapabilitySupportState, CapabilitySupportState-discrete,
}
use millrace_rs.Contracts.Capabilities.{
  ExecutionCapabilityGrant, CapabilitySupportDecision, validate_support,
}
use millrace_rs.Runtime.Plan.{TickResult}
use millrace_rs.Runtime.Approvals.{ExecutionCapabilityApproval}
use millrace_rs.Runtime.CapabilityGates.{
  is_approved, CapabilityGateBlockedGrant, CapabilityGateResult, push_blocked,
  required_evidence_missing, failure_class_in, failure_classes, failure_class_for_blocks,
  evidence_is_lacking, is_advisory, support_block, push_optional, Gate, gate_approval, gate_granted,
  gate_by_state, gate_grant, gate_grants, gate_result, evaluate_stage_request_capabilities,
}

abbrev IsKnown : CapabilityGateBlockedGrant → Type 0
IsKnown blocked = Has blocked.failure_class failure_classes

abbrev AllKnown : List CapabilityGateBlockedGrant → Type 0
AllKnown blocked_grants = All IsKnown blocked_grants

All-append_one :
    (xs : List CapabilityGateBlockedGrant) (x : CapabilityGateBlockedGrant)
    → AllKnown xs
    → IsKnown x
    → AllKnown (xs ++ x ∷ [])
All-append_one [] x h k = (k, tt)
All-append_one (y ∷ xs) x h k = (h.0, All-append_one xs x h.1 k)

AllKnown-push :
    (blocked : List CapabilityGateBlockedGrant) (grant : ExecutionCapabilityGrant)
    (failure_class reason : String)
    → Has failure_class failure_classes
    → AllKnown blocked
    → AllKnown (push_blocked blocked grant failure_class reason)
unfolding push_blocked
AllKnown-push blocked grant failure_class reason k h =
    elim (Bool-cases
      (any (λ (b : CapabilityGateBlockedGrant). b.grant_id == grant.grant_id) blocked)) [
        | inl e ↦ rw e h
        | inr e ↦ rw e (All-append_one blocked _ h k)
      ]

support_class :
    (grant : ExecutionCapabilityGrant) (support : CapabilitySupportDecision)
    (failure_class reason : String)
    → support_block grant support ≡ some (failure_class, reason)
    → Has failure_class failure_classes
unfolding support_block
support_class grant support failure_class reason h =
    elim (Bool-cases (
      test (
        CapabilitySupportState-discrete support.support_state
          CapabilitySupportState.unsupported))) [
            | inl e ↦
                let same : "capability_grant_unsupported" ≡ failure_class = ap named (rw e at h) in
                rw (← same) (there (there here))
            | inr e ↦
                elim (Bool-cases (
                  not (is_advisory grant.enforcement_mode)
                  && is_advisory support.enforcement_mode)) [
                    | inl f ↦
                        let same : "capability_grant_unsupported" ≡ failure_class =
                          ap named (rw (e, f) at h) in
                        rw (← same) (there (there here))
                    | inr f ↦ elim (Bool-cases (required_evidence_missing grant support)) [
                      | inl g ↦
                          let same : "capability_evidence_missing" ≡ failure_class =
                            ap named (rw (e, f, g) at h) in
                          rw (← same) (there (there (there here)))
                      | inr g ↦ absurd (ground (arith, rw (e, f, g) at h))
                    ]
                  ]
          ]
  where
    named : Option (String × String) → String
    named none = ""
    named (some (failure_class, reason)) = failure_class

AllKnown-push_optional :
    (blocked : List CapabilityGateBlockedGrant) (grant : ExecutionCapabilityGrant)
    (support : CapabilitySupportDecision)
    → AllKnown blocked
    → AllKnown (push_optional blocked grant (support_block grant support))
AllKnown-push_optional blocked grant support h = elim (Option-cases (support_block grant support)) [
  | inl e ↦ rw e h
  | inr ((failure_class, reason), e) ↦ rw e (
      AllKnown-push blocked grant failure_class reason
        (support_class grant support failure_class reason e) h)
]

-- A class that some blocked grant has is found, or one before it.
failure_class_in-some :
    (classes : List String) (blocked : List CapabilityGateBlockedGrant) (failure_class : String)
    → Has failure_class classes
    → any (λ (b : CapabilityGateBlockedGrant). b.failure_class == failure_class) blocked ≡ true
    → (found : String) × (failure_class_in classes blocked ≡ some found) × Has found classes
unfolding failure_class_in
failure_class_in-some [] blocked failure_class m h = elim m [ ]
failure_class_in-some (c ∷ classes) blocked _ here h = (c, rw h refl, here)
failure_class_in-some (c ∷ classes) blocked failure_class (there m) h =
    elim (Bool-cases (any (λ (b : CapabilityGateBlockedGrant). b.failure_class == c) blocked)) [
      | inl e ↦ (c, rw e refl, here)
      | inr e ↦
          let (found, k, n) = failure_class_in-some classes blocked failure_class m h in
          (found, rw (e, k) refl, there n)
    ]

-- What a gate with only known classes answers.
abbrev pub Answers : CapabilityGateResult → Type 0
Answers result =
    ((result.allowed ≡ true) × (result.failure_class ≡ none))
    ⊎ ((failure_class : String) × (result.allowed ≡ false)
        × (result.failure_class ≡ some failure_class)
        × Has failure_class failure_classes)

module _ {Store : Type 0}
    (approval_for_request : Store
      → ExecutionCapabilityGrant
      → TickResult (ExecutionCapabilityApproval × Store))
    (support_evaluator : ExecutionCapabilityGrant → CapabilitySupportDecision) where
  gate_result-Answers :
      (gate : Gate Store) → AllKnown gate.blocked_grants → Answers (gate_result gate)
  unfolding gate_result failure_class_for_blocks failure_class_in any
  gate_result-Answers gate known = of_blocked gate.blocked_grants known
    where
      of_blocked :
          (blocked : List CapabilityGateBlockedGrant)
          → AllKnown blocked
          → Answers (gate_result (record gate { blocked_grants = blocked }))
      of_blocked [] k = inl (refl, refl)
      of_blocked (b ∷ bs) k =
          let some_has : any
                (λ (x : CapabilityGateBlockedGrant). x.failure_class == b.failure_class) (b ∷ bs)
              ≡ true =
            Has-any (λ (x : CapabilityGateBlockedGrant). x.failure_class == b.failure_class)
              (b ∷ bs) b here ((eq_iff b.failure_class b.failure_class).1 refl) in
          let (found, e, m) =
            failure_class_in-some failure_classes (b ∷ bs) b.failure_class k.0 some_has in
          inr (found, refl, e, m)

  approval-AllKnown :
      (gate gate' : Gate Store) (grant : ExecutionCapabilityGrant)
      → gate_approval approval_for_request support_evaluator gate grant ≡ ok gate'
      → AllKnown gate.blocked_grants
      → AllKnown gate'.blocked_grants
  unfolding gate_approval
  approval-AllKnown gate gate' grant h known =
      let ((approval, store), found, k) =
        >>=-eq-ok (approval_for_request gate.store grant) _ gate' h in
      let blocked : gate'.blocked_grants ≡ (
          if is_approved approval.status
          then gate.blocked_grants
          else push_blocked gate.blocked_grants grant "capability_approval_required"
              "approval is not resolved as approved") =
        ground arith in
      elim (Bool-cases (is_approved approval.status)) [
        | inl e ↦ rw (blocked, e) known
        | inr e ↦ rw (blocked, e) (AllKnown-push gate.blocked_grants grant _ _ (there here) known)
      ]

  granted-AllKnown :
      (gate gate' : Gate Store) (grant : ExecutionCapabilityGrant)
      → gate_granted approval_for_request support_evaluator gate grant ≡ ok gate'
      → AllKnown gate.blocked_grants
      → AllKnown gate'.blocked_grants
  unfolding gate_granted
  granted-AllKnown gate gate' grant h known =
      elim (Bool-cases (evidence_is_lacking grant.evidence_status)) [
        | inl e ↦
            let k = rw e at h in
            let blocked : gate'.blocked_grants
                ≡ push_blocked gate.blocked_grants grant "capability_evidence_missing"
                    "grant evidence status is missing or violated" =
              ground arith in
            rw blocked
              (AllKnown-push gate.blocked_grants grant _ _ (there (there (there here))) known)
        | inr e ↦ elim (Result-cases (validate_support (support_evaluator grant))) [
          | inr (error, v) ↦ absurd (ground (arith, rw (e, v) at h))
          | inl (u, v) ↦
              let k = rw (e, v) at h in
              let blocked : gate'.blocked_grants
                  ≡ push_optional gate.blocked_grants grant
                      (support_block grant (support_evaluator grant)) =
                ground arith in
              rw blocked
                (AllKnown-push_optional gate.blocked_grants grant (support_evaluator grant) known)
        ]
      ]

  state-AllKnown :
      (state : CapabilityDecisionState) (gate gate' : Gate Store) (grant : ExecutionCapabilityGrant)
      → gate_by_state approval_for_request support_evaluator state gate grant ≡ ok gate'
      → AllKnown gate.blocked_grants
      → AllKnown gate'.blocked_grants
  unfolding gate_by_state
  state-AllKnown CapabilityDecisionState.approval_required gate gate' grant h known =
      approval-AllKnown gate gate' grant h known
  state-AllKnown CapabilityDecisionState.granted gate gate' grant h known =
      granted-AllKnown gate gate' grant h known
  state-AllKnown CapabilityDecisionState.denied gate gate' grant h known =
      let blocked : gate'.blocked_grants
          ≡ push_blocked gate.blocked_grants grant "capability_grant_denied"
              "grant decision denied" =
        ground arith in
      rw blocked (AllKnown-push gate.blocked_grants grant _ _ here known)
  state-AllKnown CapabilityDecisionState.unsupported gate gate' grant h known =
      let blocked : gate'.blocked_grants
          ≡ push_blocked gate.blocked_grants grant "capability_grant_unsupported"
              "grant decision unsupported" =
        ground arith in
      rw blocked (AllKnown-push gate.blocked_grants grant _ _ (there (there here)) known)

  grants-AllKnown :
      (gate gate' : Gate Store) (grants : List ExecutionCapabilityGrant)
      → gate_grants approval_for_request support_evaluator gate grants ≡ ok gate'
      → AllKnown gate.blocked_grants
      → AllKnown gate'.blocked_grants
  unfolding gate_grants gate_grant
  grants-AllKnown gate gate' [] h known =
      let same : gate ≡ gate' = ground arith in rw (← same) known
  grants-AllKnown gate gate' (x ∷ xs) h known =
      let (mid, e, k) =
        >>=-eq-ok (gate_grant approval_for_request support_evaluator gate x) _ gate' h in
      grants-AllKnown mid gate' xs k (elim (Bool-cases x.required) [
        | inl r ↦ state-AllKnown x.decision_state gate mid x (ground (arith, e, r)) known
        | inr r ↦ let same : gate ≡ mid = ground (arith, e, r) in rw (← same) known
      ])

  -- When the gate answers, it either lets the stage start and names no failure class, or it blocks the
  -- stage and names one of the four failure classes.
  pub evaluate-Answers :
      (store store' : Store) (grants : List ExecutionCapabilityGrant)
      (result : CapabilityGateResult)
      → evaluate_stage_request_capabilities approval_for_request support_evaluator store grants
        ≡ ok (result, store')
      → Answers result
  unfolding evaluate_stage_request_capabilities
  evaluate-Answers store store' grants result h =
      let (gate, e, k) =
        >>=-eq-ok
          (gate_grants approval_for_request support_evaluator
            (record {
              store = store;
              support_decisions = [];
              approval_ids = [];
              blocked_grants = [];
            })
            grants)
          _ (result, store') h in
      let found : result ≡ gate_result gate = ground arith in
      rw found (gate_result-Answers gate (grants-AllKnown _ gate grants e tt))
