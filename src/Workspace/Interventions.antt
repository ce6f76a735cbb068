-- ===== src/Workspace/Interventions.antt =====
-- workspace/queue_store.rs: what an operator does to work items by hand, and the record of it. The time, the suffix of an
-- archived file's name and JSON are third-party code.
pub mod Archive
pub mod Operations
pub mod InvalidArtifact
pub mod Renamed
pub mod Archived
pub mod Cancelled
pub mod Unrecorded
pub mod Retargeted
pub mod Superseded
pub mod Cascade
mod Examples
pub mod Tasks
use Prim.Native.Char.{Char, code}
use Prim.Native.Nat.{ℕ}
use Prim.Native.String.{char_at}
use millrace_rs.Base.{String, ◌==◌, Option, none, some, List, or_else, unwrap_or, if◌then◌else◌, ok}
use millrace_rs.Base.Text.{concat, trim, is_blank}
use millrace_rs.Contracts.Enums.{WorkItemKind}
use millrace_rs.Runtime.State.{Timestamp}
use millrace_rs.Workspace.Files.{Files, FileStep, FilePath, ◌>>=◌, pure, fail, append}
use millrace_rs.Workspace.Queue.{WorkspacePaths}
use millrace_rs.Workspace.Claims.Select.{path_text}

pub data OperatorInterventionAction : Type 0 where
  cancel archive_blocked_task supersede retarget_dependency resolve_incident cancel_incident
        archive_invalid_incident :
      OperatorInterventionAction

unfoldable pub as_str : OperatorInterventionAction → String
as_str OperatorInterventionAction.cancel = "cancel"
as_str OperatorInterventionAction.archive_blocked_task = "archive_blocked_task"
as_str OperatorInterventionAction.supersede = "supersede"
as_str OperatorInterventionAction.retarget_dependency = "retarget_dependency"
as_str OperatorInterventionAction.resolve_incident = "resolve_incident"
as_str OperatorInterventionAction.cancel_incident = "cancel_incident"
as_str OperatorInterventionAction.archive_invalid_incident = "archive_invalid_incident"

pub record OperatorInterventionContext : Type 0 where
  pub actor : String
  pub issued_at : Option Timestamp
  pub applied_at : Option Timestamp

pub record OperatorInterventionRecord : Type 0 where
  pub schema_version : String
  pub kind : String
  pub action : String
  pub actor : String
  pub reason : String
  pub issued_at : Timestamp
  pub applied_at : Timestamp
  pub work_item_kind : WorkItemKind
  pub work_item_id : String
  pub source_state : String
  pub destination_state : String
  pub source_path : String
  pub destination_path : String
  pub replacement_work_item_id : Option String
  pub affected_dependents : List String

pub record OperatorInterventionResult : Type 0 where
  pub action : OperatorInterventionAction
  pub work_item_kind : WorkItemKind
  pub work_item_id : String
  pub source_state : String
  pub destination_state : String
  pub source_path : FilePath
  pub destination_path : FilePath
  pub event_type : String
  pub replacement_work_item_id : Option String
  pub affected_dependents : List String
  pub intervention : OperatorInterventionRecord

pub record LocatedInterventionItem : Type 0 where
  pub work_item_kind : WorkItemKind
  pub work_item_id : String
  pub state : String
  pub directory : String
  pub name : String

-- `time_error` is the error of a text that is no time. The suffix depends on a counter and on the time of the call: a
-- function of the files, which a call that uses it changes. `json_text` reads JSON and prints it again.
pub record Clerk : Type 0 where
  pub now : Timestamp
  pub time_error : Timestamp → Option String
  pub archive_suffix : Files → Timestamp → String
  pub record_line : OperatorInterventionRecord → String
  pub event_line : String → OperatorInterventionRecord → String
  pub json_text : String → Option String

unfoldable pub clean_reason : String → FileStep String
clean_reason reason =
    if is_blank (trim reason) then fail "reason is required" else pure (trim reason)

unfoldable pub clean_actor : String → FileStep String
clean_actor actor = if is_blank (trim actor) then fail "actor is required" else pure (trim actor)

abbrev time_or : String → Timestamp → Option String → FileStep Timestamp
time_or field_name timestamp none = pure timestamp
time_or field_name timestamp (some error) = fail (concat field_name (concat ": " error))

unfoldable pub offset_from_timestamp : Clerk → String → Timestamp → FileStep Timestamp
offset_from_timestamp clerk field_name timestamp =
    time_or field_name timestamp (clerk.time_error timestamp)

-- The times of issue and of application.
unfoldable pub intervention_times :
    Clerk → OperatorInterventionContext → FileStep (Timestamp × Timestamp)
intervention_times clerk context =
    offset_from_timestamp clerk "applied_at" (unwrap_or context.applied_at clerk.now)
    >>= λ applied_at.
        (offset_from_timestamp clerk "issued_at" (unwrap_or context.issued_at applied_at)
          >>= λ issued_at. pure (issued_at, applied_at))

unfoldable strip_text : String → String → Option String
strip_text String.[] path = some path
strip_text (String.◌∷◌ c s) String.[] = none
strip_text (String.◌∷◌ c s) (String.◌∷◌ d t) =
    let rest = strip_text s t in
    if String.◌∷◌ c String.[] == String.◌∷◌ d String.[] then rest else none

abbrev after_slash : Option String → Option String
after_slash none = none
after_slash (some String.[]) = some String.[]
after_slash (some (String.◌∷◌ c s)) = if String.◌∷◌ c String.[] == "/" then some s else none

-- `Path::strip_prefix`, of paths without empty, `.` and `..` components.
unfoldable pub strip_root : String → String → Option String
unfolding strip_text
strip_root root path = after_slash (strip_text root path)

-- `replace('\\', "/")`
unfoldable pub forward_slashes : String → String
forward_slashes String.[] = String.[]
forward_slashes (String.◌∷◌ c s) =
    String.◌∷◌ (if String.◌∷◌ c String.[] == "\\" then char_at "/" 0 else c) (forward_slashes s)

unfoldable pub workspace_relative_path : WorkspacePaths → FilePath → String
workspace_relative_path paths (directory, name) =
    forward_slashes
      (unwrap_or (strip_root paths.root (path_text directory name)) (path_text directory name))

-- What the record of an intervention tells beside its actor.
pub record InterventionRecordInput : Type 0 where
  pub action : OperatorInterventionAction
  pub work_item_kind : WorkItemKind
  pub work_item_id : String
  pub source_state : String
  pub destination_state : String
  pub source_path : FilePath
  pub destination_path : FilePath
  pub reason : String
  pub issued_at : Timestamp
  pub applied_at : Timestamp
  pub replacement_work_item_id : Option String
  pub affected_dependents : List String

abbrev record_of : WorkspacePaths → InterventionRecordInput → String → OperatorInterventionRecord
record_of paths input actor = record {
  schema_version = "1.0";
  kind = "operator_intervention";
  action = as_str input.action;
  actor = actor;
  reason = input.reason;
  issued_at = input.issued_at;
  applied_at = input.applied_at;
  work_item_kind = input.work_item_kind;
  work_item_id = input.work_item_id;
  source_state = input.source_state;
  destination_state = input.destination_state;
  source_path = workspace_relative_path paths input.source_path;
  destination_path = workspace_relative_path paths input.destination_path;
  replacement_work_item_id = input.replacement_work_item_id;
  affected_dependents = input.affected_dependents;
}

unfoldable pub build_intervention_record :
    WorkspacePaths
    → OperatorInterventionContext
    → InterventionRecordInput
    → FileStep OperatorInterventionRecord
build_intervention_record paths context input =
    clean_actor context.actor >>= λ actor. pure (record_of paths input actor)

unfoldable pub append_intervention_record :
    Clerk → String → OperatorInterventionRecord → FileStep (Unit {0})
append_intervention_record clerk directory intervention =
    append directory "interventions.jsonl" (concat (clerk.record_line intervention) "\n")

unfoldable pub write_operator_runtime_event :
    Clerk → WorkspacePaths → String → OperatorInterventionRecord → FileStep (Unit {0})
write_operator_runtime_event clerk paths event_type intervention =
    append paths.logs_dir "runtime_events.jsonl"
      (concat (clerk.event_line event_type intervention) "\n")

abbrev result_of :
    InterventionRecordInput → String → OperatorInterventionRecord → OperatorInterventionResult
result_of input event_type intervention = record {
  action = input.action;
  work_item_kind = input.work_item_kind;
  work_item_id = input.work_item_id;
  source_state = input.source_state;
  destination_state = input.destination_state;
  source_path = input.source_path;
  destination_path = input.destination_path;
  event_type = event_type;
  replacement_work_item_id = input.replacement_work_item_id;
  affected_dependents = input.affected_dependents;
  intervention = intervention;
}

-- How an intervention ends: it is with_record in a directory's ledger and among the runtime's events.
unfoldable pub with_record :
    Clerk
    → WorkspacePaths
    → OperatorInterventionContext
    → String
    → String
    → InterventionRecordInput
    → FileStep OperatorInterventionResult
with_record clerk paths context ledger_dir event_type input =
    build_intervention_record paths context input >>= λ intervention.
    (append_intervention_record clerk ledger_dir intervention >>= λ _.
    (write_operator_runtime_event clerk paths event_type intervention >>= λ _.
    pure (result_of input event_type intervention)))
