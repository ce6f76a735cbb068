-- ===== src/Workspace/QueueLifecycle.antt =====
-- workspace/queue_lifecycle.rs: the end of the work on an item, applied to the directories of its queue. The
-- documents of tasks and blueprint drafts, and the texts of audit records, belong to other parts.
pub mod Generic
pub mod Builtin
use millrace_rs.Base.{
  String, ◌==◌, Bool, true, false, not, Option, none, some, List, [], ◌∷◌, find, is_some,
  if◌then◌else◌,
}
use millrace_rs.Base.Text.{concat, trim, is_blank}
use millrace_rs.Contracts.Enums.{WorkItemKind}
use millrace_rs.Contracts.WorkRefs.{
  validate_safe_identifier, coerce_family_and_kind, family_id_for_work_item_kind,
}
use millrace_rs.Workspace.Files.{
  FileStep, FilePath, ◌>>=◌, pure, fail, lift, exists, rename, append,
}
use millrace_rs.Workspace.Queue.{WorkspacePaths, log_name}
use millrace_rs.Workspace.Queue.Operations.{
  mark_task_done, mark_task_blocked, requeue_task, mark_spec_done, mark_spec_blocked, requeue_spec,
  mark_probe_done, mark_probe_blocked, requeue_probe, mark_incident_resolved, mark_incident_blocked,
  requeue_incident, mark_learning_request_done, mark_learning_request_blocked,
  requeue_learning_request,
}

pub data SourceLifecycleAction : Type 0 where
  complete block requeue : SourceLifecycleAction

pub record SourceLifecycleIntent : Type 0 where
  pub lifecycle_plan_id : String
  pub action : SourceLifecycleAction
  pub work_item_family_id : Option String
  pub work_item_kind : Option WorkItemKind
  pub work_item_id : String
  pub reason : Option String

-- contracts/workflow_primitives.rs
pub record WorkItemQueueDirs : Type 0 where
  pub queue : String
  pub active : String
  pub done : String
  pub blocked : String

pub record WorkItemFamilyDefinition : Type 0 where
  pub family_id : String
  pub file_extension : String
  pub queue_dirs : WorkItemQueueDirs

-- The operations of other parts of the workspace. `record_line` renders an audit record for a kind or a
-- family and a reason.
pub record WorkspaceParts : Type 0 where
  pub record_line : String → String → String
  pub retire_stale_blocked_task_duplicate_after_done : String → FileStep (Option FilePath)
  pub approve_active_blueprint_draft : String → FileStep FilePath
  pub block_active_blueprint_draft : String → FileStep FilePath
  pub requeue_active_blueprint_draft : String → FileStep FilePath

validate_optional_family : Option String → FileStep (Unit {0})
validate_optional_family none = pure tt
validate_optional_family (some family_id) =
    lift (validate_safe_identifier family_id "work_item_family_id") >>= λ _. pure tt

unfoldable pub validate_intent : SourceLifecycleIntent → FileStep (Unit {0})
unfolding validate_optional_family
validate_intent intent =
    lift (validate_safe_identifier intent.lifecycle_plan_id "lifecycle_plan_id") >>= λ _.
    (lift (validate_safe_identifier intent.work_item_id "work_item_id") >>= λ _.
    validate_optional_family intent.work_item_family_id)

reason_or_fail : Option String → FileStep String
reason_or_fail none = fail "requeue reason is required"
reason_or_fail (some reason) =
    if is_blank (trim reason) then fail "requeue reason is required" else pure (trim reason)

unfoldable pub required_reason : SourceLifecycleIntent → FileStep String
unfolding reason_or_fail
required_reason intent = reason_or_fail intent.reason

unfoldable pub apply_builtin :
    WorkspacePaths → WorkspaceParts → WorkItemKind → SourceLifecycleIntent → FileStep FilePath
apply_builtin paths parts kind intent = elim kind [
  | WorkItemKind.task ↦ elim intent.action [
    | SourceLifecycleAction.complete ↦
        mark_task_done paths parts.retire_stale_blocked_task_duplicate_after_done
          intent.work_item_id
    | SourceLifecycleAction.block ↦ mark_task_blocked paths intent.work_item_id
    | SourceLifecycleAction.requeue ↦
        required_reason intent >>= requeue_task paths parts.record_line intent.work_item_id
  ]
  | WorkItemKind.probe ↦ elim intent.action [
    | SourceLifecycleAction.complete ↦ mark_probe_done paths intent.work_item_id
    | SourceLifecycleAction.block ↦ mark_probe_blocked paths intent.work_item_id
    | SourceLifecycleAction.requeue ↦
        required_reason intent >>= requeue_probe paths parts.record_line intent.work_item_id
  ]
  | WorkItemKind.spec ↦ elim intent.action [
    | SourceLifecycleAction.complete ↦ mark_spec_done paths intent.work_item_id
    | SourceLifecycleAction.block ↦ mark_spec_blocked paths intent.work_item_id
    | SourceLifecycleAction.requeue ↦
        required_reason intent >>= requeue_spec paths parts.record_line intent.work_item_id
  ]
  | WorkItemKind.incident ↦ elim intent.action [
    | SourceLifecycleAction.complete ↦ mark_incident_resolved paths intent.work_item_id
    | SourceLifecycleAction.block ↦ mark_incident_blocked paths intent.work_item_id
    | SourceLifecycleAction.requeue ↦
        required_reason intent >>= requeue_incident paths parts.record_line intent.work_item_id
  ]
  | WorkItemKind.learning_request ↦ elim intent.action [
    | SourceLifecycleAction.complete ↦ mark_learning_request_done paths intent.work_item_id
    | SourceLifecycleAction.block ↦ mark_learning_request_blocked paths intent.work_item_id
    | SourceLifecycleAction.requeue ↦
        required_reason intent
        >>= requeue_learning_request paths parts.record_line intent.work_item_id
  ]
  | WorkItemKind.blueprint_draft ↦ elim intent.action [
    | SourceLifecycleAction.complete ↦ parts.approve_active_blueprint_draft intent.work_item_id
    | SourceLifecycleAction.block ↦ parts.block_active_blueprint_draft intent.work_item_id
    | SourceLifecycleAction.requeue ↦
        required_reason intent >>= λ _. parts.requeue_active_blueprint_draft intent.work_item_id
  ]
]

-- `Path::join` of a relative directory
abbrev pub join : String → String → String
join root dir = concat root (concat "/" dir)

unfoldable pub append_family_requeue_reason :
    WorkspaceParts → String → String → String → String → FileStep (Unit {0})
append_family_requeue_reason parts destination_dir work_item_id family_id reason =
    if is_blank (trim reason)
    then fail "requeue reason is required"
    else append destination_dir (log_name work_item_id) (parts.record_line family_id (trim reason))

unfoldable pub target_dir : WorkItemFamilyDefinition → SourceLifecycleAction → String
target_dir family SourceLifecycleAction.complete = family.queue_dirs.done
target_dir family SourceLifecycleAction.block = family.queue_dirs.blocked
target_dir family SourceLifecycleAction.requeue = family.queue_dirs.queue

-- The part of `move_generic_active_family` after the rename.
unfoldable pub record_move :
    WorkspaceParts
    → String
    → WorkItemFamilyDefinition
    → SourceLifecycleIntent
    → SourceLifecycleAction
    → FileStep (Unit {0})
record_move parts destination_dir family intent SourceLifecycleAction.requeue =
    required_reason intent
    >>= append_family_requeue_reason parts destination_dir intent.work_item_id family.family_id
record_move parts destination_dir family intent SourceLifecycleAction.complete = pure tt
record_move parts destination_dir family intent SourceLifecycleAction.block = pure tt

-- The tests of `move_generic_active_family`, and what follows them.
unfoldable pub move_checked :
    WorkspaceParts
    → String
    → WorkItemFamilyDefinition
    → SourceLifecycleIntent
    → SourceLifecycleAction
    → Bool
    → Bool
    → FileStep FilePath
move_checked parts runtime_root family intent action false taken =
    fail (concat family.family_id (concat " " (concat intent.work_item_id " is not active")))
move_checked parts runtime_root family intent action true true = fail (
    concat family.family_id
      (concat " " (concat intent.work_item_id " already exists at destination")))
move_checked parts runtime_root family intent action true false =
    let name = concat intent.work_item_id family.file_extension in
    let destination_dir = join runtime_root (target_dir family action) in
    rename (join runtime_root family.queue_dirs.active) destination_dir name >>= λ _.
    (record_move parts destination_dir family intent action >>= λ _. pure (destination_dir, name))

-- `move_generic_active_family` for the action of the intent.
unfoldable pub move_by_action :
    WorkspaceParts
    → String
    → WorkItemFamilyDefinition
    → SourceLifecycleIntent
    → SourceLifecycleAction
    → FileStep FilePath
move_by_action parts runtime_root family intent action =
    let name = concat intent.work_item_id family.file_extension in
    exists (join runtime_root family.queue_dirs.active) name >>= λ present.
    (exists (join runtime_root (target_dir family action)) name
      >>= move_checked parts runtime_root family intent action present)

unfoldable pub move_generic_active_family :
    WorkspaceParts → String → WorkItemFamilyDefinition → SourceLifecycleIntent → FileStep FilePath
move_generic_active_family parts runtime_root family intent =
    move_by_action parts runtime_root family intent intent.action

family_or_fail :
    WorkspaceParts
    → String
    → String
    → SourceLifecycleIntent
    → Option WorkItemFamilyDefinition
    → FileStep FilePath
family_or_fail parts runtime_root family_id intent none =
    fail (concat "unsupported active work item family: " family_id)
family_or_fail parts runtime_root family_id intent (some family) =
    move_generic_active_family parts runtime_root family intent

unfoldable pub apply_generic_family :
    WorkspaceParts
    → String
    → List WorkItemFamilyDefinition
    → String
    → SourceLifecycleIntent
    → FileStep FilePath
unfolding family_or_fail
apply_generic_family parts runtime_root families family_id intent =
    family_or_fail parts runtime_root family_id intent
      (find (λ family. family.family_id == family_id) families)

-- The branches of `apply` on the coerced pair.
unfoldable pub apply_coerced :
    WorkspacePaths
    → WorkspaceParts
    → String
    → List WorkItemFamilyDefinition
    → SourceLifecycleIntent
    → Option String × Option WorkItemKind
    → FileStep FilePath
apply_coerced paths parts runtime_root families intent (family_id, some kind) =
    apply_builtin paths parts kind intent
apply_coerced paths parts runtime_root families intent (some family_id, none) =
    apply_generic_family parts runtime_root families family_id intent
apply_coerced paths parts runtime_root families intent (none, none) =
    fail "source lifecycle intent requires work_item_family_id or work_item_kind"

-- `QueueLifecycleInterpreter::apply`
unfoldable pub apply :
    WorkspacePaths
    → WorkspaceParts
    → String
    → List WorkItemFamilyDefinition
    → SourceLifecycleIntent
    → FileStep FilePath
apply paths parts runtime_root families intent = validate_intent intent >>= λ _.
    (lift (coerce_family_and_kind intent.work_item_family_id intent.work_item_kind)
      >>= apply_coerced paths parts runtime_root families intent)

unfoldable pub apply_source_lifecycle_intent :
    WorkspacePaths → WorkspaceParts → String → SourceLifecycleIntent → FileStep FilePath
apply_source_lifecycle_intent paths parts runtime_root intent =
    apply paths parts runtime_root [] intent

unfoldable pub for_builtin :
    String → SourceLifecycleAction → WorkItemKind → String → SourceLifecycleIntent
for_builtin lifecycle_plan_id action work_item_kind work_item_id = record {
  lifecycle_plan_id = lifecycle_plan_id;
  action = action;
  work_item_family_id = some (family_id_for_work_item_kind work_item_kind);
  work_item_kind = some work_item_kind;
  work_item_id = work_item_id;
  reason = none;
}

unfoldable pub requeue_active_work_item :
    WorkspacePaths
    → WorkspaceParts
    → String
    → Option String
    → Option WorkItemKind
    → String
    → String
    → List WorkItemFamilyDefinition
    → FileStep FilePath
requeue_active_work_item paths parts runtime_root family_id kind work_item_id reason families =
    apply paths parts runtime_root families (record {
      lifecycle_plan_id = "requeue_work_item";
      action = SourceLifecycleAction.requeue;
      work_item_family_id = family_id;
      work_item_kind = kind;
      work_item_id = work_item_id;
      reason = some reason;
    })
