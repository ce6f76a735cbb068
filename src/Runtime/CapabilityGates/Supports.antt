-- ===== src/Runtime/CapabilityGates/Supports.antt =====
-- What it takes for a runner to support a grant, and that the gate asks for all of it.
use millrace_rs.Base.{
  String, ◌==◌, eq_iff, ◌≡◌, ◌≢◌, refl, ◌⊎◌, inl, inr, Bool-cases, true, false, not, ◌&&◌, none,
  any, any-Has, any-false, test, Has, arith,
}
use millrace_rs.Contracts.Enums.{
  CapabilityEnforcementMode, CapabilityEnforcementMode-discrete, CapabilityEvidenceStatus,
  CapabilitySupportState, CapabilitySupportState-discrete,
}
use millrace_rs.Contracts.Capabilities.{ExecutionCapabilityGrant, CapabilitySupportDecision}
use millrace_rs.Runtime.CapabilityGates.{
  evidence_is_lacking, required_evidence_missing, support_block,
}

-- The evidence for the grant is neither missing nor violated; the runner supports the grant, enforces it unless it is
-- only advisory, and has all the evidence that the grant requires.
pub record IsSupportedBy (grant : ExecutionCapabilityGrant) (support : CapabilitySupportDecision)
    : Type 0 where
  pub not_missing : grant.evidence_status ≢ CapabilityEvidenceStatus.missing
  pub not_violated : grant.evidence_status ≢ CapabilityEvidenceStatus.violated
  pub supported : support.support_state ≢ CapabilitySupportState.unsupported
  pub enforced :
      (grant.enforcement_mode ≡ CapabilityEnforcementMode.advisory_only)
      ⊎ (support.enforcement_mode ≢ CapabilityEnforcementMode.advisory_only)
  pub evidenced :
      (requirement : String)
      → Has requirement grant.evidence_requirements
      → Has requirement support.evidence_available

test-true : {P : Type 0} (d : Dec P) → test d ≡ true → P
test-true (yes p) h = p
test-true (no n) h = absurd (ground arith)

test-false : {P : Type 0} (d : Dec P) → test d ≡ false → P → ⊥
test-false (yes p) h q = ground arith
test-false (no n) h q = n q

lacks :
    (status given : CapabilityEvidenceStatus)
    → evidence_is_lacking given ≡ true
    → evidence_is_lacking status ≡ false
    → status ≢ given
lacks status given bad h e =
    let k : evidence_is_lacking status ≡ true = rw e bad in ground (arith, h, k)

evidenced_all :
    (grant : ExecutionCapabilityGrant) (support : CapabilitySupportDecision)
    → required_evidence_missing grant support ≡ false
    → (requirement : String) → Has requirement grant.evidence_requirements
    → Has requirement support.evidence_available
unfolding required_evidence_missing
evidenced_all grant support h requirement m =
    let there_is : any (λ available. available == requirement) support.evidence_available ≡ true =
      (let k =
          any-false (λ r. not (any (λ available. available == r) support.evidence_available))
            grant.evidence_requirements h requirement m in
        ground (arith, k)) in
    let (available, n, e) =
      any-Has (λ available. available == requirement) support.evidence_available there_is in
    let same = (eq_iff available requirement).0 e in rw same at n

enforced_one :
    (mode given : CapabilityEnforcementMode)
    → (not (test (CapabilityEnforcementMode-discrete mode CapabilityEnforcementMode.advisory_only))
        && test (CapabilityEnforcementMode-discrete given CapabilityEnforcementMode.advisory_only))
      ≡ false
    → (mode ≡ CapabilityEnforcementMode.advisory_only)
      ⊎ (given ≢ CapabilityEnforcementMode.advisory_only)
enforced_one mode given h =
    let a = CapabilityEnforcementMode-discrete mode CapabilityEnforcementMode.advisory_only in
    let b = CapabilityEnforcementMode-discrete given CapabilityEnforcementMode.advisory_only in
    elim (Bool-cases (test a)) [
      | inl e ↦ inl (test-true a e)
      | inr e ↦ inr (test-false b (ground (arith, h, e)))
    ]

-- A grant whose evidence is not lacking, and which the runner's support does not block, is supported.
pub unblocked-IsSupportedBy :
    (grant : ExecutionCapabilityGrant) (support : CapabilitySupportDecision)
    → evidence_is_lacking grant.evidence_status ≡ false
    → support_block grant support ≡ none
    → IsSupportedBy grant support
unfolding support_block evidence_is_lacking
unblocked-IsSupportedBy grant support e h = record {
  not_missing = lacks grant.evidence_status CapabilityEvidenceStatus.missing refl e;
  not_violated = lacks grant.evidence_status CapabilityEvidenceStatus.violated refl e;
  supported =
      test-false
        (CapabilitySupportState-discrete support.support_state CapabilitySupportState.unsupported)
        (ground (arith, h));
  enforced = enforced_one grant.enforcement_mode support.enforcement_mode (ground (arith, h));
  evidenced = evidenced_all grant support (ground (arith, h));
}
