-- ===== src/Workspace/Queue.antt =====
-- workspace/queue_store.rs: the moves of work items between the directories of their queue. Texts of audit
-- records, which hold the time and are rendered as JSON, are a parameter, and so are the documents of
-- tasks that `retire_stale_blocked_task_duplicate_after_done` reads.
pub mod Operations
pub mod Moves
pub mod Audit
use millrace_rs.Base.{String, ℕ, Bool, true, false, not, Option, none, some, test, if◌then◌else◌}
use millrace_rs.Base.Text.{concat, trim, is_blank}
use millrace_rs.Contracts.Enums.{WorkItemKind}
use millrace_rs.Contracts.WorkItemKind
use millrace_rs.Workspace.Files.{FileStep, FilePath, ◌>>=◌, pure, fail, exists, rename, append}

-- The directories of `WorkspacePaths` for the queues, the runtime's state and its logs.
pub record WorkspacePaths : Type 0 where
  pub root : String
  pub runtime_root : String
  pub state_dir : String
  pub logs_dir : String
  pub tasks_queue_dir : String
  pub tasks_active_dir : String
  pub tasks_done_dir : String
  pub tasks_blocked_dir : String
  pub specs_queue_dir : String
  pub specs_active_dir : String
  pub specs_done_dir : String
  pub specs_blocked_dir : String
  pub probes_queue_dir : String
  pub probes_active_dir : String
  pub probes_done_dir : String
  pub probes_blocked_dir : String
  pub incidents_incoming_dir : String
  pub incidents_active_dir : String
  pub incidents_resolved_dir : String
  pub incidents_blocked_dir : String
  pub learning_requests_queue_dir : String
  pub learning_requests_active_dir : String
  pub learning_requests_done_dir : String
  pub learning_requests_blocked_dir : String

abbrev pub document_name : String → String
document_name item_id = concat item_id ".md"

abbrev pub log_name : String → String
log_name item_id = concat item_id ".requeue.jsonl"

-- The end of a move, once it is known whether the destination is taken.
move_unless : Bool → String → String → String → WorkItemKind → FileStep FilePath
move_unless true source_dir destination_dir item_id kind = fail (
    concat (WorkItemKind.as_str kind)
      (concat " " (concat item_id " already exists at destination")))
move_unless false source_dir destination_dir item_id kind =
    rename source_dir destination_dir (document_name item_id) >>= λ _.
    pure (destination_dir, document_name item_id)

unfoldable pub move_if : Bool → String → String → String → WorkItemKind → String → FileStep FilePath
unfolding move_unless
move_if false source_dir destination_dir item_id kind source_state = fail (
    concat (WorkItemKind.as_str kind)
      (concat " " (concat item_id (concat " is not " source_state))))
move_if true source_dir destination_dir item_id kind source_state =
    exists destination_dir (document_name item_id) >>= λ taken.
    move_unless taken source_dir destination_dir item_id kind

unfoldable pub move_item_from_state :
    String → String → String → WorkItemKind → String → FileStep FilePath
move_item_from_state source_dir destination_dir item_id kind source_state =
    exists source_dir (document_name item_id) >>= λ present.
    move_if present source_dir destination_dir item_id kind source_state

unfoldable pub move_item : String → String → String → WorkItemKind → FileStep FilePath
move_item source_dir destination_dir item_id kind =
    move_item_from_state source_dir destination_dir item_id kind "active"

unfoldable pub append_requeue_reason :
    (String → String → String) → String → String → WorkItemKind → String → FileStep (Unit {0})
append_requeue_reason record_line destination_dir item_id kind reason =
    if is_blank (trim reason)
    then fail "requeue reason is required"
    else append destination_dir (log_name item_id)
        (record_line (WorkItemKind.as_str kind) (trim reason))

-- `requeue_task`, and the same for the other kinds: a move, then the reason.
unfoldable pub requeue_item :
    (String → String → String)
    → String
    → String
    → String
    → WorkItemKind
    → String
    → FileStep FilePath
requeue_item record_line active_dir queue_dir item_id kind reason = do
  destination ← move_item active_dir queue_dir item_id kind
  append_requeue_reason record_line queue_dir item_id kind reason >>= λ _. pure destination
