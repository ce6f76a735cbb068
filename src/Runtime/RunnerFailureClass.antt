-- ===== src/Runtime/RunnerFailureClass.antt =====
-- contracts/runtime_json.rs: the failure classes of runners, and the transient ones among them.
use millrace_rs.Base.{String, ◌==◌, Bool, true, false, Option, none, some, if◌then◌else◌}
use millrace_rs.Base.Text.{trim}

pub data RunnerFailureClass : Type 0 where
  runner_timeout provider_unavailable provider_rate_limited network_unavailable
        runner_binary_missing auth_missing_or_invalid missing_terminal_result
        illegal_terminal_result conflicting_terminal_results missing_required_artifact
        capability_grant_denied capability_approval_required capability_grant_unsupported
        capability_evidence_missing runner_transport_failure :
      RunnerFailureClass

unfoldable pub runner_failure_class : String → Option RunnerFailureClass
runner_failure_class value =
    if value == "runner_timeout"
    then some runner_timeout
    else if value == "provider_unavailable"
    then some provider_unavailable
    else if value == "provider_rate_limited"
    then some provider_rate_limited
    else if value == "network_unavailable"
    then some network_unavailable
    else if value == "runner_binary_missing"
    then some runner_binary_missing
    else if value == "auth_missing_or_invalid"
    then some auth_missing_or_invalid
    else if value == "missing_terminal_result"
    then some missing_terminal_result
    else if value == "illegal_terminal_result"
    then some illegal_terminal_result
    else if value == "conflicting_terminal_results"
    then some conflicting_terminal_results
    else if value == "missing_required_artifact"
    then some missing_required_artifact
    else if value == "capability_grant_denied"
    then some capability_grant_denied
    else if value == "capability_approval_required"
    then some capability_approval_required
    else if value == "capability_grant_unsupported"
    then some capability_grant_unsupported
    else if value == "capability_evidence_missing"
    then some capability_evidence_missing
    else if value == "runner_transport_failure"
    then some runner_transport_failure
    else none

abbrev pub is_auto_requeue_candidate : RunnerFailureClass → Bool
is_auto_requeue_candidate network_unavailable = true
is_auto_requeue_candidate provider_unavailable = true
is_auto_requeue_candidate provider_rate_limited = true
is_auto_requeue_candidate runner_timeout = true
is_auto_requeue_candidate _ = false

abbrev is_candidate : Option RunnerFailureClass → Bool
is_candidate none = false
is_candidate (some c) = is_auto_requeue_candidate c

unfoldable pub failure_class_allows_auto_requeue : String → Bool
failure_class_allows_auto_requeue failure_class =
    is_candidate (runner_failure_class (trim failure_class))
