-- ===== src/Runtime/CapabilityGates/Satisfied.antt =====
-- A stage that the gate lets through has all the capabilities that it requires.
use millrace_rs.Base.{
  String, ◌==◌, ◌≡◌, refl, inl, inr, true, false, Bool-cases, Option-cases, List, [], ◌∷◌, ◌++◌,
  any, is_empty, Has, here, there, if◌then◌else◌, ok, >>=-eq-ok, Result-cases, arith,
}
use millrace_rs.Contracts.Enums.{CapabilityDecisionState}
use millrace_rs.Contracts.Capabilities.{
  ExecutionCapabilityGrant, CapabilitySupportDecision, validate_support,
}
use millrace_rs.Runtime.Plan.{TickResult}
use millrace_rs.Runtime.Approvals.{ExecutionCapabilityApprovalStatus, ExecutionCapabilityApproval}
use millrace_rs.Runtime.CapabilityGates.Supports.{IsSupportedBy, unblocked-IsSupportedBy}
use millrace_rs.Runtime.CapabilityGates.{
  is_approved, CapabilityGateBlockedGrant, CapabilityGateResult, push_blocked, evidence_is_lacking,
  support_block, push_optional, Gate, gate_approval, gate_granted, gate_by_state, gate_grant,
  gate_grants, gate_result, evaluate_stage_request_capabilities,
}

abbrev pub IsClear : List CapabilityGateBlockedGrant → Type 0
IsClear blocked_grants = is_empty blocked_grants ≡ true

is_empty-append : {A : Type 0} (xs : List A) (x : A) → is_empty (xs ++ x ∷ []) ≡ false
is_empty-append [] x = refl
is_empty-append (y ∷ xs) x = refl

push-not-IsClear :
    (blocked : List CapabilityGateBlockedGrant) (grant : ExecutionCapabilityGrant)
    (failure_class reason : String)
    → is_empty (push_blocked blocked grant failure_class reason) ≡ false
unfolding push_blocked any
push-not-IsClear [] grant failure_class reason = refl
push-not-IsClear (b ∷ bs) grant failure_class reason =
    elim (Bool-cases (
      any (λ (blocked : CapabilityGateBlockedGrant). blocked.grant_id == grant.grant_id)
        (b ∷ bs))) [ inl e ↦ rw e refl | inr e ↦ rw e refl ]

pushed_clear :
    (blocked : List CapabilityGateBlockedGrant) (grant : ExecutionCapabilityGrant)
    (failure_class reason : String)
    → IsClear (push_blocked blocked grant failure_class reason)
    → ⊥
pushed_clear blocked grant failure_class reason h =
    let e = push-not-IsClear blocked grant failure_class reason in ground arith

is_approved-eq :
    (status : ExecutionCapabilityApprovalStatus)
    → is_approved status ≡ true
    → status ≡ ExecutionCapabilityApprovalStatus.approved
unfolding is_approved
is_approved-eq ExecutionCapabilityApprovalStatus.pending h = absurd (ground arith)
is_approved-eq ExecutionCapabilityApprovalStatus.approved h = refl
is_approved-eq ExecutionCapabilityApprovalStatus.denied h = absurd (ground arith)
is_approved-eq ExecutionCapabilityApprovalStatus.expired h = absurd (ground arith)
is_approved-eq ExecutionCapabilityApprovalStatus.cancelled h = absurd (ground arith)

module _ {Store : Type 0}
    (approval_for_request : Store
      → ExecutionCapabilityGrant
      → TickResult (ExecutionCapabilityApproval × Store))
    (support_evaluator : ExecutionCapabilityGrant → CapabilitySupportDecision) where
  -- The second store is what requests for approvals make of the first.
  pub data Reaches : Store → Store → Type 0 where
    same : {store : Store} → Reaches store store
    asked :
        {first second last : Store} (grant : ExecutionCapabilityGrant)
        (approval : ExecutionCapabilityApproval)
        → approval_for_request first grant ≡ ok (approval, second)
        → Reaches second last
        → Reaches first last

  Reaches-trans : {a b c : Store} → Reaches a b → Reaches b c → Reaches a c
  Reaches-trans same q = q
  Reaches-trans (asked grant approval e p) q = asked grant approval e (Reaches-trans p q)

  -- The gate asked for the grant's approval in a store that its requests made of the first, and it was approved.
  abbrev pub IsApproved : Store → ExecutionCapabilityGrant → Type 0
  IsApproved first grant =
      (store : Store) × (store' : Store) × (approval : ExecutionCapabilityApproval) × Reaches first
        store
      × (approval_for_request store grant ≡ ok (approval, store'))
      × (approval.status ≡ ExecutionCapabilityApprovalStatus.approved)

  pub data IsSatisfied (first : Store) (grant : ExecutionCapabilityGrant) : Type 0 where
    not_required : grant.required ≡ false → IsSatisfied first grant
    approved :
        grant.decision_state ≡ CapabilityDecisionState.approval_required
        → IsApproved first grant
        → IsSatisfied first grant
    supported :
        grant.decision_state ≡ CapabilityDecisionState.granted
        → IsSupportedBy grant (support_evaluator grant)
        → IsSatisfied first grant

  IsSatisfied-before :
      {a b : Store} {grant : ExecutionCapabilityGrant}
      → Reaches a b
      → IsSatisfied b grant
      → IsSatisfied a grant
  IsSatisfied-before p (not_required e) = not_required e
  IsSatisfied-before p (approved e (store, store', approval, q, found, is)) =
      approved e (store, store', approval, Reaches-trans p q, found, is)
  IsSatisfied-before p (supported e h) = supported e h

  -- A round that leaves nothing blocked started with nothing blocked, and its grant is satisfied; its store comes by
  -- requests from the one before.
  abbrev Round : Gate Store → Gate Store → ExecutionCapabilityGrant → Type 0
  Round gate gate' grant =
      IsClear gate.blocked_grants × IsSatisfied gate.store grant × Reaches gate.store gate'.store

  approval-Round :
      (gate gate' : Gate Store) (grant : ExecutionCapabilityGrant)
      → grant.decision_state ≡ CapabilityDecisionState.approval_required
      → gate_approval approval_for_request support_evaluator gate grant ≡ ok gate'
      → IsClear gate'.blocked_grants
      → Round gate gate' grant
  unfolding gate_approval
  approval-Round gate gate' grant state h clear =
      let ((approval, store), found, k) =
        >>=-eq-ok (approval_for_request gate.store grant) _ gate' h in
      let blocked : gate'.blocked_grants ≡ (
          if is_approved approval.status
          then gate.blocked_grants
          else push_blocked gate.blocked_grants grant "capability_approval_required"
              "approval is not resolved as approved") =
        ground arith in
      let left : gate'.store ≡ store = ground arith in
      elim (Bool-cases (is_approved approval.status)) [
        | inr e ↦ absurd (pushed_clear gate.blocked_grants grant _ _ (rw (blocked, e) at clear))
        | inl e ↦ (
          rw (blocked, e) at clear,
          approved state
              (gate.store, store, approval, same, found, is_approved-eq approval.status e),
          asked grant approval found (rw left same),
        )
      ]

  granted-Round :
      (gate gate' : Gate Store) (grant : ExecutionCapabilityGrant)
      → grant.decision_state ≡ CapabilityDecisionState.granted
      → gate_granted approval_for_request support_evaluator gate grant ≡ ok gate'
      → IsClear gate'.blocked_grants
      → Round gate gate' grant
  unfolding gate_granted
  granted-Round gate gate' grant state h clear =
      elim (Bool-cases (evidence_is_lacking grant.evidence_status)) [
        | inl e ↦
            let k = rw e at h in
            let blocked : gate'.blocked_grants
                ≡ push_blocked gate.blocked_grants grant "capability_evidence_missing"
                    "grant evidence status is missing or violated" =
              ground arith in
            absurd (pushed_clear gate.blocked_grants grant _ _ (rw blocked at clear))
        | inr e ↦ elim (Result-cases (validate_support (support_evaluator grant))) [
          | inr (error, v) ↦ absurd (ground (arith, rw (e, v) at h))
          | inl (u, v) ↦ validated e (rw (e, v) at h)
        ]
      ]
    where
      validated :
          evidence_is_lacking grant.evidence_status ≡ false
          → ◌≡◌ {A = TickResult (Gate Store)}
              (ok (record gate {
                support_decisions = gate.support_decisions ++ support_evaluator grant ∷ [];
                blocked_grants =
                    push_optional gate.blocked_grants grant
                      (support_block grant (support_evaluator grant));
              }))
              (ok gate')
          → Round gate gate' grant
      validated e k =
          let blocked : gate'.blocked_grants
              ≡ push_optional gate.blocked_grants grant
                  (support_block grant (support_evaluator grant)) =
            ground arith in
          let left : gate'.store ≡ gate.store = ground arith in
          elim (Option-cases (support_block grant (support_evaluator grant))) [
            | inl n ↦ (
              rw (blocked, n) at clear,
              supported state (unblocked-IsSupportedBy grant (support_evaluator grant) e n),
              rw left same,
            )
            | inr ((failure_class, reason), n) ↦ absurd (
                pushed_clear gate.blocked_grants grant failure_class reason
                  (rw (blocked, n) at clear))
          ]

  state-Round :
      (state : CapabilityDecisionState) (gate gate' : Gate Store) (grant : ExecutionCapabilityGrant)
      → grant.decision_state ≡ state
      → gate_by_state approval_for_request support_evaluator state gate grant ≡ ok gate'
      → IsClear gate'.blocked_grants
      → Round gate gate' grant
  unfolding gate_by_state
  state-Round CapabilityDecisionState.approval_required gate gate' grant state h clear =
      approval-Round gate gate' grant state h clear
  state-Round CapabilityDecisionState.granted gate gate' grant state h clear =
      granted-Round gate gate' grant state h clear
  state-Round CapabilityDecisionState.denied gate gate' grant state h clear =
      let blocked : gate'.blocked_grants
          ≡ push_blocked gate.blocked_grants grant "capability_grant_denied"
              "grant decision denied" =
        ground arith in
      absurd (pushed_clear gate.blocked_grants grant _ _ (rw blocked at clear))
  state-Round CapabilityDecisionState.unsupported gate gate' grant state h clear =
      let blocked : gate'.blocked_grants
          ≡ push_blocked gate.blocked_grants grant "capability_grant_unsupported"
              "grant decision unsupported" =
        ground arith in
      absurd (pushed_clear gate.blocked_grants grant _ _ (rw blocked at clear))

  grant-Round :
      (gate gate' : Gate Store) (grant : ExecutionCapabilityGrant)
      → gate_grant approval_for_request support_evaluator gate grant ≡ ok gate'
      → IsClear gate'.blocked_grants
      → Round gate gate' grant
  unfolding gate_grant
  grant-Round gate gate' grant h clear = elim (Bool-cases grant.required) [
    | inl e ↦ state-Round grant.decision_state gate gate' grant refl (ground (arith, h, e)) clear
    | inr e ↦
        let unchanged : gate ≡ gate' = ground (arith, h, e) in
        (rw (← unchanged) at clear, not_required e, rw (← unchanged) same)
  ]

  grants-IsSatisfied :
      (gate gate' : Gate Store) (grants : List ExecutionCapabilityGrant)
      → gate_grants approval_for_request support_evaluator gate grants ≡ ok gate'
      → IsClear gate'.blocked_grants
      → IsClear gate.blocked_grants
        × ((grant : ExecutionCapabilityGrant) → Has grant grants → IsSatisfied gate.store grant)
  unfolding gate_grants
  grants-IsSatisfied gate gate' [] h clear =
      let unchanged : gate ≡ gate' = ground arith in
      (rw (← unchanged) at clear, λ grant m. elim m [ ])
  grants-IsSatisfied gate gate' (x ∷ xs) h clear =
      let (mid, e, k) =
        >>=-eq-ok (gate_grant approval_for_request support_evaluator gate x) _ gate' h in
      let (clear', later) = grants-IsSatisfied mid gate' xs k clear in
      let (first, satisfied, reached) = grant-Round gate mid x e clear' in
      (first, λ grant m. on_member satisfied (λ g n. IsSatisfied-before reached (later g n)) m)
    where
      on_member :
          {grant : ExecutionCapabilityGrant}
          → IsSatisfied gate.store x
          → ((g : ExecutionCapabilityGrant) → Has g xs → IsSatisfied gate.store g)
          → Has grant (x ∷ xs)
          → IsSatisfied gate.store grant
      on_member satisfied later here = satisfied
      on_member satisfied later (there m) = later _ m

  -- When the gate lets a stage start, every grant of its request is satisfied: it is not required; or the gate asked for
  -- its approval, in the store that its requests had made of the given one, and found it approved; or it was granted, its
  -- evidence is neither missing nor violated, and the runner supports it, enforces it unless it is only advisory, and has
  -- all the evidence that it requires.
  pub allowed-IsSatisfied :
      (store store' : Store) (grants : List ExecutionCapabilityGrant)
      (result : CapabilityGateResult) (grant : ExecutionCapabilityGrant)
      → evaluate_stage_request_capabilities approval_for_request support_evaluator store grants
        ≡ ok (result, store')
      → result.allowed ≡ true
      → Has grant grants
      → IsSatisfied store grant
  unfolding evaluate_stage_request_capabilities gate_result
  allowed-IsSatisfied store store' grants result grant h allowed m =
      let (gate, e, k) =
        >>=-eq-ok
          (gate_grants approval_for_request support_evaluator
            (record {
              store = store;
              support_decisions = [];
              approval_ids = [];
              blocked_grants = [];
            })
            grants)
          _ (result, store') h in
      let found : result ≡ gate_result gate = ground arith in
      let clear : IsClear gate.blocked_grants = rw found at allowed in
      (grants-IsSatisfied _ gate grants e clear).1 grant m
