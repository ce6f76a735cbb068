-- ===== src/Workspace/QueueLifecycle/Builtin.antt =====
-- The lifecycle of the built-in kinds of work items follows the states of an item.
use millrace_rs.Base.{List, String, ◌≡◌, refl, ◌≢◌, false, Option, some, ok, arith}
use millrace_rs.Base.Text.{trim, is_blank}
use millrace_rs.Base.Trim.{trim_idem}
use millrace_rs.Contracts.Enums.{WorkItemKind}
use millrace_rs.Contracts.WorkRefs.{coerce_family_and_kind}
use millrace_rs.Workspace.Files.{Files, FileStep, FilePath, ◌>>=◌}
use millrace_rs.Workspace.Queue.{WorkspacePaths, document_name, move_item, requeue_item}
use millrace_rs.Workspace.Queue.Operations.{
  mark_task_blocked, requeue_task, mark_spec_done, mark_spec_blocked, requeue_spec, mark_probe_done,
  mark_probe_blocked, requeue_probe, mark_incident_resolved, mark_incident_blocked,
  requeue_incident, mark_learning_request_done, mark_learning_request_blocked,
  requeue_learning_request,
}
use millrace_rs.Workspace.Queue.Moves.{
  ItemState, AreApart, StandsAt, move_item-StandsAt, requeue_item-StandsAt,
}
use millrace_rs.Workspace.QueueLifecycle.{
  SourceLifecycleAction, SourceLifecycleIntent, WorkspaceParts, WorkItemFamilyDefinition,
  validate_intent, required_reason, apply_builtin, apply_coerced, apply,
}

-- The state that an action leads to.
abbrev pub target_state : SourceLifecycleAction → ItemState
target_state SourceLifecycleAction.complete = ItemState.done
target_state SourceLifecycleAction.block = ItemState.blocked
target_state SourceLifecycleAction.requeue = ItemState.queued

-- A requeue comes with a reason that is not blank.
abbrev pub HasReason : SourceLifecycleAction → Option String → Type 0
HasReason SourceLifecycleAction.requeue reason =
    (given : String) × (reason ≡ some given) × (is_blank (trim given) ≡ false)
HasReason _ reason = Unit

-- The directory of each state of a kind. Blueprint drafts are not kept in these directories.
abbrev pub dirs_of : WorkspacePaths → WorkItemKind → ItemState → String
dirs_of paths WorkItemKind.task ItemState.queued = paths.tasks_queue_dir
dirs_of paths WorkItemKind.task ItemState.active = paths.tasks_active_dir
dirs_of paths WorkItemKind.task ItemState.done = paths.tasks_done_dir
dirs_of paths WorkItemKind.task ItemState.blocked = paths.tasks_blocked_dir
dirs_of paths WorkItemKind.spec ItemState.queued = paths.specs_queue_dir
dirs_of paths WorkItemKind.spec ItemState.active = paths.specs_active_dir
dirs_of paths WorkItemKind.spec ItemState.done = paths.specs_done_dir
dirs_of paths WorkItemKind.spec ItemState.blocked = paths.specs_blocked_dir
dirs_of paths WorkItemKind.probe ItemState.queued = paths.probes_queue_dir
dirs_of paths WorkItemKind.probe ItemState.active = paths.probes_active_dir
dirs_of paths WorkItemKind.probe ItemState.done = paths.probes_done_dir
dirs_of paths WorkItemKind.probe ItemState.blocked = paths.probes_blocked_dir
dirs_of paths WorkItemKind.incident ItemState.queued = paths.incidents_incoming_dir
dirs_of paths WorkItemKind.incident ItemState.active = paths.incidents_active_dir
dirs_of paths WorkItemKind.incident ItemState.done = paths.incidents_resolved_dir
dirs_of paths WorkItemKind.incident ItemState.blocked = paths.incidents_blocked_dir
dirs_of paths WorkItemKind.learning_request ItemState.queued = paths.learning_requests_queue_dir
dirs_of paths WorkItemKind.learning_request ItemState.active = paths.learning_requests_active_dir
dirs_of paths WorkItemKind.learning_request ItemState.done = paths.learning_requests_done_dir
dirs_of paths WorkItemKind.learning_request ItemState.blocked = paths.learning_requests_blocked_dir
dirs_of paths WorkItemKind.blueprint_draft state = ""

-- The actions that only move the document: all but those on blueprint drafts and the end of a task.
abbrev pub IsQueueMove : WorkItemKind → SourceLifecycleAction → Type 0
IsQueueMove WorkItemKind.blueprint_draft action = ⊥
IsQueueMove WorkItemKind.task SourceLifecycleAction.complete = ⊥
IsQueueMove _ action = Unit

-- The outcome of an intent: its document stands in the target state, with the content it had.
abbrev pub Moves :
    (ItemState → String) → String → String → FileStep FilePath → Files → ItemState → Type 0
Moves dir_of name content step files target =
    (files' : Files) × (step files ≡ (ok (dir_of target, name), files'))
    × StandsAt files' dir_of name target content

module _ (paths : WorkspacePaths) (parts : WorkspaceParts) (intent : SourceLifecycleIntent)
    (content : String) (files : Files) where
  abbrev Goal : WorkItemKind → SourceLifecycleAction → Type 0
  Goal kind action =
      intent.action ≡ action
      → IsQueueMove kind action
      → HasReason action intent.reason
      → AreApart (dirs_of paths kind)
      → StandsAt files (dirs_of paths kind) (document_name intent.work_item_id) ItemState.active
          content
      → Moves (dirs_of paths kind) (document_name intent.work_item_id) content
          (apply_builtin paths parts kind intent) files (target_state action)

  requeued :
      (kind : WorkItemKind)
      → HasReason SourceLifecycleAction.requeue intent.reason
      → AreApart (dirs_of paths kind)
      → StandsAt files
          (dirs_of paths kind)
          (document_name intent.work_item_id)
          ItemState.active
          content
      → Moves
          (dirs_of paths kind)
          (document_name intent.work_item_id)
          content
          (required_reason intent
            >>= requeue_item parts.record_line
                (dirs_of paths kind ItemState.active)
                (dirs_of paths kind ItemState.queued)
                intent.work_item_id
                kind)
          files
          ItemState.queued
  unfolding required_reason ◌>>=◌
  requeued kind (reason, given, filled) apart stands =
      rw (given, filled)
        (requeue_item-StandsAt (dirs_of paths kind) apart intent.work_item_id content kind files
          parts.record_line (trim reason) stands (rw (trim_idem reason) filled))

  ended :
      (kind : WorkItemKind) (target : ItemState)
      → AreApart (dirs_of paths kind)
      → StandsAt files
          (dirs_of paths kind)
          (document_name intent.work_item_id)
          ItemState.active
          content
      → ItemState.active ≢ target
      → Moves
          (dirs_of paths kind)
          (document_name intent.work_item_id)
          content
          (move_item
            (dirs_of paths kind ItemState.active)
            (dirs_of paths kind target)
            intent.work_item_id
            kind)
          files
          target
  ended kind target apart stands differ =
      move_item-StandsAt (dirs_of paths kind) apart intent.work_item_id content kind files target
        stands differ

  by_action : (kind : WorkItemKind) (action : SourceLifecycleAction) → Goal kind action
  unfolding apply_builtin mark_task_blocked requeue_task mark_spec_done mark_spec_blocked
      requeue_spec mark_probe_done mark_probe_blocked requeue_probe mark_incident_resolved
      mark_incident_blocked requeue_incident mark_learning_request_done
      mark_learning_request_blocked requeue_learning_request required_reason requeue_item
  by_action WorkItemKind.blueprint_draft action e plain reason apart stands = absurd plain
  by_action WorkItemKind.task SourceLifecycleAction.complete e plain reason apart stands =
      absurd plain
  by_action WorkItemKind.task SourceLifecycleAction.block e plain reason apart stands =
      rw e (ended WorkItemKind.task ItemState.blocked apart stands (λ h. ground arith))
  by_action WorkItemKind.task SourceLifecycleAction.requeue e plain reason apart stands =
      rw e (requeued WorkItemKind.task reason apart stands)
  by_action WorkItemKind.spec SourceLifecycleAction.complete e plain reason apart stands =
      rw e (ended WorkItemKind.spec ItemState.done apart stands (λ h. ground arith))
  by_action WorkItemKind.spec SourceLifecycleAction.block e plain reason apart stands =
      rw e (ended WorkItemKind.spec ItemState.blocked apart stands (λ h. ground arith))
  by_action WorkItemKind.spec SourceLifecycleAction.requeue e plain reason apart stands =
      rw e (requeued WorkItemKind.spec reason apart stands)
  by_action WorkItemKind.probe SourceLifecycleAction.complete e plain reason apart stands =
      rw e (ended WorkItemKind.probe ItemState.done apart stands (λ h. ground arith))
  by_action WorkItemKind.probe SourceLifecycleAction.block e plain reason apart stands =
      rw e (ended WorkItemKind.probe ItemState.blocked apart stands (λ h. ground arith))
  by_action WorkItemKind.probe SourceLifecycleAction.requeue e plain reason apart stands =
      rw e (requeued WorkItemKind.probe reason apart stands)
  by_action WorkItemKind.incident SourceLifecycleAction.complete e plain reason apart stands =
      rw e (ended WorkItemKind.incident ItemState.done apart stands (λ h. ground arith))
  by_action WorkItemKind.incident SourceLifecycleAction.block e plain reason apart stands =
      rw e (ended WorkItemKind.incident ItemState.blocked apart stands (λ h. ground arith))
  by_action WorkItemKind.incident SourceLifecycleAction.requeue e plain reason apart stands =
      rw e (requeued WorkItemKind.incident reason apart stands)
  by_action WorkItemKind.learning_request SourceLifecycleAction.complete e plain reason apart
        stands =
      rw e (ended WorkItemKind.learning_request ItemState.done apart stands (λ h. ground arith))
  by_action WorkItemKind.learning_request SourceLifecycleAction.block e plain reason apart stands =
      rw e (ended WorkItemKind.learning_request ItemState.blocked apart stands (λ h. ground arith))
  by_action WorkItemKind.learning_request SourceLifecycleAction.requeue e plain reason apart
        stands =
      rw e (requeued WorkItemKind.learning_request reason apart stands)

apply_builtin-StandsAt :
    (paths : WorkspacePaths) (parts : WorkspaceParts) (intent : SourceLifecycleIntent)
    (kind : WorkItemKind) (content : String) (files : Files)
    → IsQueueMove kind intent.action
    → HasReason intent.action intent.reason
    → AreApart (dirs_of paths kind)
    → StandsAt files
        (dirs_of paths kind)
        (document_name intent.work_item_id)
        ItemState.active
        content
    → Moves
        (dirs_of paths kind)
        (document_name intent.work_item_id)
        content
        (apply_builtin paths parts kind intent)
        files
        (target_state intent.action)
apply_builtin-StandsAt paths parts intent kind content files plain reason apart stands =
    by_action paths parts intent content files kind intent.action refl plain reason apart stands

-- A valid intent for an active item of a built-in kind succeeds, and its document then stands,
-- unchanged, in the directory of the state that the action leads to, and in no other of the kind: done or
-- resolved, blocked, or queued again. This is shown for every kind but blueprint drafts, and for tasks but
-- not for their end. The intent's family and kind are coerced to the kind, the kind's directories differ,
-- and a requeue gives a reason.
pub apply-StandsAt :
    (paths : WorkspacePaths) (parts : WorkspaceParts) (root : String)
    (families : List WorkItemFamilyDefinition) (intent : SourceLifecycleIntent)
    (family : Option String) (kind : WorkItemKind) (content : String) (files : Files)
    → validate_intent intent files ≡ (ok tt, files)
    → coerce_family_and_kind intent.work_item_family_id intent.work_item_kind
      ≡ ok (family, some kind)
    → IsQueueMove kind intent.action
    → HasReason intent.action intent.reason
    → AreApart (dirs_of paths kind)
    → StandsAt files
        (dirs_of paths kind)
        (document_name intent.work_item_id)
        ItemState.active
        content
    → Moves
        (dirs_of paths kind)
        (document_name intent.work_item_id)
        content
        (apply paths parts root families intent)
        files
        (target_state intent.action)
unfolding apply apply_coerced ◌>>=◌
apply-StandsAt paths parts root families intent family kind content files valid coerced plain reason
      apart stands =
    rw (valid, coerced)
      (apply_builtin-StandsAt paths parts intent kind content files plain reason apart stands)
