-- ===== src/Runtime/Router/Sound.antt =====
-- What every decision of the router guarantees to the code that applies it.
use millrace_rs.Base.{
  String, ◌==◌, eq_iff, ◌≡◌, refl, ◌⊎◌, inl, inr, Bool, true, false, Bool-cases, Option, none, some,
  Option-cases, Has, find-Has, test, if◌then◌else◌, Result, ok, err, ok_or, ◌>>=◌, arith,
  Result-cases,
}
use millrace_rs.Contracts.Enums.{Plane, Plane-discrete, StageName}
use millrace_rs.Contracts.StageName
use millrace_rs.Contracts.Error.{ContractError, stage_plane_mismatch}
use millrace_rs.Contracts.Validation.{stage_name_for_plane, stage_name_for_value, terminal_str}
use millrace_rs.Runtime.State.{RuntimeTickError, contract, RuntimeSnapshot, StageResultEnvelope}
use millrace_rs.Runtime.Plan.{
  TickResult, FrozenGraphPlanePlan, MaterializedGraphNodePlan, CompiledGraphThresholdPolicyPlan,
  CompiledGraphResumePolicyPlan, GraphLoopTerminalClass, GraphLoopCounterName, terminal_state_by_id,
  node_plan_by_id,
}
use millrace_rs.Runtime.FailureClass.{resolve_failure_class}
use millrace_rs.Runtime.Router.Counters.{counter_key_from_snapshot}
use millrace_rs.Runtime.Router.Resume.{
  decision_from_resume_policy, decision_from_threshold_resolution, blocked_at, exhausted_at,
  resume_reason, resume_target,
}
use millrace_rs.Runtime.Router.Planes.{fix_cycles_exhausted, handoff_decision, ◌or_go_on◌}
use millrace_rs.Runtime.Plan.{threshold_policy_for_source}
use millrace_rs.Base.{leb}
use millrace_rs.Runtime.Router.Decision.{
  run_stage, handoff, idle, blocked, RouterDecision, run_stage_decision, idle_decision,
  blocked_decision,
}

-- A handoff is the consultant's or the arbiter's.
abbrev pub HandoffCause : StageResultEnvelope → Type 0
HandoffCause r =
    ((r.plane ≡ Plane.execution)
      × (r.stage_kind_id ≡ "consultant")
      × (terminal_str r.terminal_result ≡ "NEEDS_PLANNING"))
    ⊎ ((r.plane ≡ Plane.planning)
        × (r.stage_kind_id ≡ "arbiter")
        × (terminal_str r.terminal_result ≡ "REMEDIATION_NEEDED"))

pub data IsSound (graph : FrozenGraphPlanePlan) (r : StageResultEnvelope) (d : RouterDecision)
    : Type 0 where
  runs :
      (node : MaterializedGraphNodePlan) (stage : StageName)
      → Has node graph.nodes
      → d.action ≡ run_stage
      → d.next_node_id ≡ some node.node_id
      → d.next_stage_kind_id ≡ some node.stage_kind_id
      → d.next_stage ≡ some stage
      → d.next_plane ≡ some graph.plane
      → StageName.plane stage ≡ graph.plane
      → d.create_incident ≡ false
      → IsSound graph r d
  hands_off :
      HandoffCause r
      → d.action ≡ handoff
      → d.next_plane ≡ some Plane.planning
      → d.next_stage ≡ some StageName.auditor
      → d.create_incident ≡ true
      → IsSound graph r d
  ends :
      (d.action ≡ idle) ⊎ (d.action ≡ blocked)
      → d.next_plane ≡ none
      → d.next_stage ≡ none
      → d.create_incident ≡ false
      → IsSound graph r d

-- What a fallible step guarantees of its result.
pub record Ensures {A : Type 0} (P : A → Type 0) (m : TickResult A) : Type 0 where
  pub holds : (a : A) → m ≡ ok a → P a

module _ {A : Type 0} (P : A → Type 0) where
  pub Ensures-ok : {a : A} → P a → Ensures P (ok a)
  Ensures-ok {a} h = record { holds = λ b e. let same : a ≡ b = cc in rw (← same) h }

  pub Ensures-err : (e : RuntimeTickError) → Ensures P (err e)
  Ensures-err e = record { holds = λ b k. absurd (ground arith) }

  pub Ensures-if :
      (b : Bool) (m n : TickResult A)
      → (b ≡ true → Ensures P m)
      → (b ≡ false → Ensures P n)
      → Ensures P (if b then m else n)
  Ensures-if true m n hm hn = hm refl
  Ensures-if false m n hm hn = hn refl

  -- The same of a step that may return early.
  pub record EnsuresReturn (step : Option (TickResult A)) : Type 0 where
    pub returns : (m : TickResult A) → step ≡ some m → Ensures P m

  pub EnsuresReturn-none : EnsuresReturn none
  EnsuresReturn-none = record { returns = λ m e. absurd (ground arith) }

  pub EnsuresReturn-some : (m : TickResult A) → Ensures P m → EnsuresReturn (some m)
  EnsuresReturn-some m h = record { returns = λ n e. let same : m ≡ n = cc in rw (← same) h }

  pub EnsuresReturn-if :
      (b : Bool) (step : Option (TickResult A))
      → EnsuresReturn step
      → EnsuresReturn (if b then step else none)
  EnsuresReturn-if true step h = h
  EnsuresReturn-if false step h = EnsuresReturn-none

module _ {A B : Type 0} (P : B → Type 0) where
  pub Ensures-bind :
      (m : TickResult A) (f : A → TickResult B)
      → ((a : A) → m ≡ ok a → Ensures P (f a))
      → Ensures P (m >>= f)
  Ensures-bind (ok a) f h = h a refl
  Ensures-bind (err e) f h = Ensures-err P e

accepted-plane :
    (plane : Plane) (s stage : StageName)
    → (if test (Plane-discrete (StageName.plane s) plane)
        then ok s
        else err (stage_plane_mismatch plane s))
      ≡ ok stage
    → StageName.plane stage ≡ plane
accepted-plane plane s stage h =
    elim (Plane-discrete (StageName.plane s) plane)
        as (λ d.
          (if test d then ok s else err (stage_plane_mismatch plane s)) ≡ ok stage
          → StageName.plane stage ≡ plane) [
            | yes e ↦ λ k. let same : s ≡ stage = cc in rw (← same) e
            | no _ ↦ λ k. absurd (ground arith)
          ]
      h

-- A stage that a plane accepts belongs to the plane.
pub stage_name_for_plane-plane :
    (plane : Plane) (value : String) (stage : StageName)
    → stage_name_for_plane plane value ≡ ok stage
    → StageName.plane stage ≡ plane
unfolding stage_name_for_plane
stage_name_for_plane-plane plane value stage h = after (stage_name_for_value value) h
  where
    after :
        (m : Result ContractError StageName)
        → (m >>= λ s.
            if test (Plane-discrete (StageName.plane s) plane)
            then ok s
            else err (stage_plane_mismatch plane s))
          ≡ ok stage
        → StageName.plane stage ≡ plane
    after (ok s) k = accepted-plane plane s stage k
    after (err c) k = absurd (ground arith)

module _ (graph : FrozenGraphPlanePlan) (r : StageResultEnvelope) where
  pub node_plan_by_id-Has :
      (id : String) (node : MaterializedGraphNodePlan)
      → node_plan_by_id graph id ≡ ok node
      → Has node graph.nodes × (node.node_id ≡ id)
  unfolding node_plan_by_id
  node_plan_by_id-Has id node h =
      let (m, e) =
        find-Has (λ (n : MaterializedGraphNodePlan). n.node_id == id) graph.nodes node
          (ground arith) in
      (m, (eq_iff node.node_id id).0 e)

  pub run_stage_decision-IsSound :
      (target reason : String) (failure_class counter_key : Option String)
      → Ensures (IsSound graph r) (run_stage_decision graph target reason failure_class counter_key)
  unfolding run_stage_decision
  run_stage_decision-IsSound target reason failure_class counter_key =
      Ensures-bind (IsSound graph r) (node_plan_by_id graph target) _ λ node found.
        elim (Result-cases (stage_name_for_plane graph.plane node.stage_kind_id)) [
          | inl (stage, e) ↦ rw e (
              Ensures-ok (IsSound graph r) (
                runs node stage (node_plan_by_id-Has target node found).0 refl refl refl refl refl
                  (stage_name_for_plane-plane graph.plane node.stage_kind_id stage e) refl))
          | inr (c, e) ↦ rw e (Ensures-err (IsSound graph r) (contract c))
        ]

  pub or_go_on-IsSound :
      (step : Option (TickResult RouterDecision)) (rest : TickResult RouterDecision)
      → EnsuresReturn (IsSound graph r) step
      → Ensures (IsSound graph r) rest
      → Ensures (IsSound graph r) (step or_go_on rest)
  or_go_on-IsSound none rest hs hr = hr
  or_go_on-IsSound (some m) rest hs hr = hs.returns m refl

  pub blocked_decision-IsSound :
      (reason : String) (failure_class counter_key : Option String)
      → IsSound graph r (blocked_decision reason failure_class counter_key)
  unfolding blocked_decision
  blocked_decision-IsSound reason failure_class counter_key = ends (inr refl) refl refl refl

  pub idle_decision-IsSound : (reason : String) → IsSound graph r (idle_decision reason)
  unfolding idle_decision
  idle_decision-IsSound reason = ends (inl refl) refl refl refl

  pub handoff_decision-IsSound :
      (reason : String) (failure_class : Option String)
      → HandoffCause r
      → IsSound graph r (handoff_decision reason failure_class)
  unfolding handoff_decision
  handoff_decision-IsSound reason failure_class cause = hands_off cause refl refl refl refl

  pub resume-IsSound :
      (source_stage : String) (policy : CompiledGraphResumePolicyPlan)
      → Ensures (IsSound graph r) (decision_from_resume_policy graph source_stage r policy)
  unfolding decision_from_resume_policy
  resume-IsSound source_stage policy =
      Ensures-bind (IsSound graph r) (resume_reason source_stage) _
        λ reason _. run_stage_decision-IsSound (resume_target graph policy r) reason none none

  blocked_at-IsSound :
      (c : GraphLoopTerminalClass) (reason failure_class : String) (counter_key : Option String)
      → Ensures (IsSound graph r) (blocked_at c reason failure_class counter_key)
  unfolding blocked_at
  blocked_at-IsSound GraphLoopTerminalClass.blocked reason failure_class counter_key =
      Ensures-ok (IsSound graph r) (blocked_decision-IsSound _ _ _)
  blocked_at-IsSound _ reason failure_class counter_key = Ensures-err (IsSound graph r) _

  exhausted_at-IsSound :
      (policy : CompiledGraphThresholdPolicyPlan) (failure_class reason : String)
      (counter_key target : Option String)
      → Ensures
          (IsSound graph r)
          (exhausted_at graph policy failure_class reason counter_key target)
  unfolding exhausted_at
  exhausted_at-IsSound policy failure_class reason counter_key (some target) =
      run_stage_decision-IsSound target reason (some failure_class) counter_key
  exhausted_at-IsSound policy failure_class reason counter_key none =
      Ensures-bind (IsSound graph r) (ok_or policy.exhausted_terminal_state_id _) _ λ id _.
        Ensures-bind (IsSound graph r) (terminal_state_by_id graph id) _
          λ state _. blocked_at-IsSound state.terminal_class reason failure_class counter_key

  pub threshold-IsSound :
      (snapshot : RuntimeSnapshot) (policy : CompiledGraphThresholdPolicyPlan)
      (failure_class reason : String)
      → Ensures
          (IsSound graph r)
          (decision_from_threshold_resolution graph snapshot policy failure_class reason)
  unfolding decision_from_threshold_resolution
  threshold-IsSound snapshot policy failure_class reason =
      Ensures-bind (IsSound graph r) (counter_key_from_snapshot snapshot failure_class) _ λ key _.
        exhausted_at-IsSound policy failure_class reason key policy.exhausted_target_node_id

  pub fix_cycles-IsSound :
      (snapshot : RuntimeSnapshot)
      → EnsuresReturn (IsSound graph r) (fix_cycles_exhausted graph snapshot r)
  unfolding fix_cycles_exhausted
  fix_cycles-IsSound snapshot = elim (Bool-cases (terminal_str r.terminal_result == "FIX_NEEDED")) [
    | inr e ↦ rw e nothing
    | inl e ↦
        rw e
          (elim (Option-cases (
            threshold_policy_for_source graph r.node_id (terminal_str r.terminal_result)
              GraphLoopCounterName.fix_cycle_count)) [
                | inl o ↦ rw o nothing
                | inr (policy, o) ↦
                    rw o (elim (Bool-cases (leb policy.threshold snapshot.fix_cycle_count)) [
                      | inr b ↦ rw b nothing
                      | inl b ↦ rw b (
                          EnsuresReturn-some (IsSound graph r) _ (
                            Ensures-bind (IsSound graph r)
                              (resolve_failure_class snapshot r "fix_cycle_exhausted") _
                              λ failure_class _.
                                threshold-IsSound snapshot policy failure_class
                                  "fix_cycle_exhausted"))
                    ])
              ])
  ]
    where
      nothing : EnsuresReturn (IsSound graph r) none
      nothing = EnsuresReturn-none (IsSound graph r)
