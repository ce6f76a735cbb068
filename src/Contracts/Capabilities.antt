-- ===== src/Contracts/Capabilities.antt =====
-- contracts/capabilities.rs: grants of execution capabilities, with the fields that the gate reads, and the
-- decisions of a runner whether it supports them.
use millrace_rs.Base.{String, Bool, List, [], ◌∷◌, if◌then◌else◌, Result, ok, err, ◌>>=◌}
use millrace_rs.Base.Text.{concat, trim, is_blank}
use millrace_rs.Contracts.Enums.{
  CapabilityDecisionState, CapabilityEnforcementMode, CapabilityEvidenceStatus,
  CapabilitySupportState,
}

pub record CapabilityContractError : Type 0 where
  pub message : String

pub record ExecutionCapabilityGrant : Type 0 where
  pub grant_id : String
  pub capability_id : String
  pub decision_reason : String
  pub required : Bool
  pub decision_state : CapabilityDecisionState
  pub enforcement_mode : CapabilityEnforcementMode
  pub evidence_requirements : List String
  pub evidence_status : CapabilityEvidenceStatus

pub record CapabilitySupportDecision : Type 0 where
  pub runner_id : String
  pub invocation_context_ref : String
  pub grant_id : String
  pub support_state : CapabilitySupportState
  pub enforcement_mode : CapabilityEnforcementMode
  pub limitations : List String
  pub evidence_available : List String
  pub reason : String

unfoldable pub require_non_empty : String → String → Result CapabilityContractError (Unit {0})
require_non_empty field_name value =
    if is_blank (trim value)
    then err (record { message = concat field_name " is required" })
    else ok tt

unfoldable pub validate_string_list :
    String → List String → Result CapabilityContractError (Unit {0})
validate_string_list field_name [] = ok tt
validate_string_list field_name (value ∷ values) =
    let rest = validate_string_list field_name values in
    if is_blank (trim value)
    then err (record { message = concat field_name " values must not be empty" })
    else rest

-- `CapabilitySupportDecision::validate`
unfoldable pub validate_support :
    CapabilitySupportDecision → Result CapabilityContractError (Unit {0})
validate_support support = do
  _ ← require_non_empty "runner_id" support.runner_id
  _ ← require_non_empty "grant_id" support.grant_id
  _ ← validate_string_list "limitations" support.limitations
  _ ← validate_string_list "evidence_available" support.evidence_available
  require_non_empty "reason" support.reason
