-- ===== src/Runtime/Router/Guard.antt =====
-- runtime/tick.rs: the active run of a plane, and the check that a stage result belongs to it.
use millrace_rs.Base.{
  String, ◌==◌, Bool, true, false, ◌&&◌, Option, none, some, test, or_else, unwrap_or,
  if◌then◌else◌, ok, err, ◌>>=◌, ok_or,
}
use millrace_rs.Base.Text.{concat}
use millrace_rs.Contracts.Enums.{
  Plane, Plane-discrete, StageName-discrete, WorkItemKind, WorkItemKind-discrete,
}
use millrace_rs.Contracts.Plane
use millrace_rs.Contracts.StageName
use millrace_rs.Contracts.WorkItemKind
use millrace_rs.Runtime.PlaneMap
use millrace_rs.Runtime.State.{
  ActiveRunRequestKind, ActiveRunState, RuntimeSnapshot, StageResultEnvelope, invalid_state,
}
use millrace_rs.Runtime.Plan.{TickResult}

abbrev pub is_plane : Option Plane → Plane → Bool
is_plane none plane = false
is_plane (some p) plane = test (Plane-discrete p plane)

legacy_request_kind : WorkItemKind → ActiveRunRequestKind
legacy_request_kind WorkItemKind.learning_request = ActiveRunRequestKind.learning_request
legacy_request_kind _ = ActiveRunRequestKind.active_work_item

infixr 5 ◌and_then◌
-- `?` on an `Option`
abbrev pub ◌and_then◌ : {A B : Type 0} → Option A → (A → Option B) → Option B
none and_then f = none
some a and_then f = f a

unfoldable pub legacy_active_run_for_plane : RuntimeSnapshot → Plane → Option ActiveRunState
unfolding legacy_request_kind
legacy_active_run_for_plane s plane =
    if is_plane s.active_plane plane
    then (s.active_stage and_then λ active_stage. s.active_run_id and_then λ active_run_id.
        s.active_since and_then λ active_since. s.active_work_item_kind and_then λ kind.
        s.active_work_item_id and_then λ work_item_id. some (record {
          plane = plane;
          lane_id = concat (Plane.as_str plane) ".main";
          stage = active_stage;
          node_id = unwrap_or s.active_node_id (StageName.as_str active_stage);
          stage_kind_id = unwrap_or s.active_stage_kind_id (StageName.as_str active_stage);
          run_id = active_run_id;
          compiled_plan_id = s.compiled_plan_id;
          compiled_plan_fingerprint = s.compiled_plan_fingerprint;
          request_kind = legacy_request_kind kind;
          work_item_family_id = some (WorkItemKind.as_str kind);
          work_item_kind = some kind;
          work_item_id = some work_item_id;
          closure_target_root_spec_id = none;
          closure_target_root_idea_id = none;
          active_since = active_since;
          running_status_marker = none;
        }))
    else none

unfoldable pub active_run_for_plane : RuntimeSnapshot → Plane → Option ActiveRunState
active_run_for_plane s plane =
    or_else (PlaneMap.get s.active_runs_by_plane plane) (legacy_active_run_for_plane s plane)

abbrev is_text : Option String → String → Bool
is_text none text = false
is_text (some t) text = t == text

abbrev is_kind : Option WorkItemKind → WorkItemKind → Bool
is_kind none kind = false
is_kind (some k) kind = test (WorkItemKind-discrete k kind)

abbrev guard : Bool → String → TickResult (Unit {0})
guard true message = ok tt
guard false message = err (invalid_state message)

-- The identity that the request kind of the active run asks for.
identity_matches :
    ActiveRunRequestKind → ActiveRunState → StageResultEnvelope → TickResult (Unit {0})
identity_matches ActiveRunRequestKind.closure_target run r =
    guard (is_text run.closure_target_root_spec_id r.work_item_id)
      "closure target stage result does not match active root spec"
identity_matches ActiveRunRequestKind.active_work_item run r =
    guard (is_kind run.work_item_kind r.work_item_kind && is_text run.work_item_id r.work_item_id)
      "stage result work item identity does not match active run"
identity_matches ActiveRunRequestKind.learning_request run r =
    guard (is_kind run.work_item_kind r.work_item_kind && is_text run.work_item_id r.work_item_id)
      "stage result work item identity does not match active run"

unfoldable pub validate_stage_result_matches_snapshot :
    RuntimeSnapshot → StageResultEnvelope → TickResult (Unit {0})
unfolding identity_matches
validate_stage_result_matches_snapshot snapshot r = do
  run ←
      ok_or (active_run_for_plane snapshot r.plane)
        (invalid_state "stage result has no active run for its plane")
  _ ←
      guard (test (StageName-discrete run.stage r.stage))
        "stage result stage does not match active run"
  _ ← guard (run.node_id == r.node_id) "stage result node_id does not match active run"
  _ ←
      guard (run.stage_kind_id == r.stage_kind_id)
        "stage result stage_kind_id does not match active run"
  identity_matches run.request_kind run r
