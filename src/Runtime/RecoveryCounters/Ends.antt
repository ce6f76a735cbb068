-- ===== src/Runtime/RecoveryCounters/Ends.antt =====
-- The recovery of a blocked work item comes to an end: each routed attempt is counted, and the
-- threshold policy reads the count.
use millrace_rs.Base.{String, ◌≡◌, ℕ, suc, ◌+◌, ◌<◌, ◌≤◌, some, ok, arith}
use millrace_rs.Contracts.Enums.{Plane, StageName, WorkItemKind}
use millrace_rs.Contracts.Validation.{terminal_str}
use millrace_rs.Runtime.State.{RuntimeSnapshot, RecoveryCounters, StageResultEnvelope}
use millrace_rs.Runtime.Plan.{
  FrozenGraphPlanePlan, CompiledGraphThresholdPolicyPlan, GraphLoopCounterName,
  threshold_policy_for_source,
}
use millrace_rs.Runtime.FailureClass.{resolve_failure_class}
use millrace_rs.Runtime.Router.{
  RouterDecision, counter_attempts, route_planning_stage_result, blocked_reason,
}
use millrace_rs.Runtime.Router.Exhausted.{RunsAt, planning-exhausted}
use millrace_rs.Runtime.RecoveryCounters.{
  RecoveryCounterField, u64_mod, increment_counter_field, increment_route_counters,
  route_counter_field,
}
use millrace_rs.Runtime.RecoveryCounters.Attempts.{IsNormal, AllNormal, increment-attempts}

-- A decision that sends the work item to the mechanic for the failure class.
pub record SendsToMechanic (failure_class : String) (kind : WorkItemKind) (work_item_id : String)
    (d : RouterDecision) (r : StageResultEnvelope) : Type 0 where
  pub stage : d.next_stage ≡ some StageName.mechanic
  pub named : d.failure_class ≡ some failure_class
  pub same_kind : r.work_item_kind ≡ kind
  pub same_item : r.work_item_id ≡ work_item_id

module _ (failure_class : String) (kind : WorkItemKind) (work_item_id : String) where
  -- `k` such decisions, one after another, with the counters before the first and after the last.
  pub data Attempted : ℕ → RecoveryCounters → RecoveryCounters → Type 0 where
    none_yet : {c : RecoveryCounters} → Attempted 0 c c
    once_more :
        {k : ℕ} {c c' c'' : RecoveryCounters} (s s' : RuntimeSnapshot) (d : RouterDecision)
        (r : StageResultEnvelope)
        → Attempted k c c'
        → SendsToMechanic failure_class kind work_item_id d r
        → increment_route_counters c' s d r ≡ ok (c'', s')
        → Attempted (suc k) c c''

  routed_increment :
      (c c' : RecoveryCounters) (s s' : RuntimeSnapshot) (d : RouterDecision)
      (r : StageResultEnvelope)
      → SendsToMechanic failure_class kind work_item_id d r
      → increment_route_counters c s d r ≡ ok (c', s')
      → increment_counter_field c s failure_class kind work_item_id
          RecoveryCounterField.mechanic_attempt_count r.completed_at
        ≡ ok (c', s')
  unfolding increment_route_counters route_counter_field
  routed_increment c c' s s' d r sends h =
      rw (sends.stage, sends.named, sends.same_kind, sends.same_item) at h

  -- The attempts that the planning router reads after `k` more decisions.
  Attempted-count :
      (k n : ℕ) (c c' : RecoveryCounters) (t : RuntimeSnapshot)
      → AllNormal c.entries
      → IsNormal failure_class
      → t.active_work_item_kind ≡ some kind
      → t.active_work_item_id ≡ some work_item_id
      → counter_attempts t c failure_class Plane.planning ≡ ok n
      → n + k < u64_mod
      → Attempted k c c'
      → AllNormal c'.entries × (counter_attempts t c' failure_class Plane.planning ≡ ok (n + k))
  Attempted-count _ n c _ t all normal kd i before small none_yet = (all, rw before (ground arith))
  Attempted-count _ n c c'' t all normal kd i before small
        (once_more {k} {c' = c'} s s' d r past sends h) =
      let (all', read) = Attempted-count k n c c' t all normal kd i before (omega arith) past in
      let (all'', again) =
        increment-attempts failure_class kind work_item_id c' c'' s s' t Plane.planning
          r.completed_at (n + k) all' normal kd i read (omega arith)
          (routed_increment c' c'' s s' d r sends h) in
      (all'', rw again (ground arith))

-- A planning stage that blocks again after `k` decisions have sent its work item to the mechanic for the
-- same failure class, with `k` at least the threshold of the stage's policy, is not sent there once
-- more: the router runs the policy's exhausted target, if it decides. The stored failure classes are
-- normalized, no attempt was stored before, and the counter does not overflow.
pub recovery_ends :
    (graph : FrozenGraphPlanePlan) (snapshot : RuntimeSnapshot) (r : StageResultEnvelope)
    (policy : CompiledGraphThresholdPolicyPlan) (failure_class target : String)
    (kind : WorkItemKind) (work_item_id : String) (k : ℕ) (c c' : RecoveryCounters)
    (d : RouterDecision)
    → AllNormal c.entries
    → IsNormal failure_class
    → snapshot.active_work_item_kind ≡ some kind
    → snapshot.active_work_item_id ≡ some work_item_id
    → counter_attempts snapshot c failure_class Plane.planning ≡ ok 0
    → Attempted failure_class kind work_item_id k c c'
    → k < u64_mod
    → policy.threshold ≤ k
    → terminal_str r.terminal_result ≡ "BLOCKED"
    → resolve_failure_class snapshot r (blocked_reason r) ≡ ok failure_class
    → threshold_policy_for_source graph r.node_id
        (terminal_str r.terminal_result)
        GraphLoopCounterName.mechanic_attempt_count
      ≡ some policy
    → policy.exhausted_target_node_id ≡ some target
    → route_planning_stage_result graph snapshot r c' ≡ ok d
    → RunsAt target d
recovery_ends graph snapshot r policy failure_class target kind work_item_id k c c' d all normal kd
      i none_before attempted small enough blocked named found goes routed =
    let (all', read) =
      Attempted-count failure_class kind work_item_id k 0 c c' snapshot all normal kd i none_before
        (omega arith) attempted in
    planning-exhausted graph snapshot r c' policy failure_class target (0 + k) d blocked named found
      read (omega arith) goes routed
