-- ===== src/Runtime/FailureClassifierCode.antt =====
-- contracts/runtime_json.rs: the codes of the classifier of failures, and their values.
use millrace_rs.Base.{String, ◌==◌, Option, none, some, if◌then◌else◌}

pub data FailureClassifierCode : Type 0 where
  exit_timeout runner_binary_missing auth_missing_or_invalid provider_rate_limited
        network_unavailable provider_unavailable provider_default_unavailable runner_timeout
        missing_terminal_result illegal_terminal_result conflicting_terminal_results
        missing_required_artifact capability_grant_denied capability_approval_required
        capability_grant_unsupported capability_evidence_missing unclassified_failure :
      FailureClassifierCode

-- The value if it is known.
unfoldable pub from_value : String → Option FailureClassifierCode
from_value value =
    if value == "exit_timeout"
    then some exit_timeout
    else if value == "runner_binary_missing"
    then some runner_binary_missing
    else if value == "auth_missing_or_invalid"
    then some auth_missing_or_invalid
    else if value == "provider_rate_limited"
    then some provider_rate_limited
    else if value == "network_unavailable"
    then some network_unavailable
    else if value == "provider_unavailable"
    then some provider_unavailable
    else if value == "provider_default_unavailable"
    then some provider_default_unavailable
    else if value == "runner_timeout"
    then some runner_timeout
    else if value == "missing_terminal_result"
    then some missing_terminal_result
    else if value == "illegal_terminal_result"
    then some illegal_terminal_result
    else if value == "conflicting_terminal_results"
    then some conflicting_terminal_results
    else if value == "missing_required_artifact"
    then some missing_required_artifact
    else if value == "capability_grant_denied"
    then some capability_grant_denied
    else if value == "capability_approval_required"
    then some capability_approval_required
    else if value == "capability_grant_unsupported"
    then some capability_grant_unsupported
    else if value == "capability_evidence_missing"
    then some capability_evidence_missing
    else if value == "unclassified_failure"
    then some unclassified_failure
    else none
