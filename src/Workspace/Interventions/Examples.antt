-- ===== src/Workspace/Interventions/Examples.antt =====
-- A blocked task, a queued one that depends on it, and one that is done.
use Prim.Native.String.{char_at}
use millrace_rs.Base.{
  String, ◌==◌, ◌≡◌, ◌↔◌, refl, false, Option, none, some, is_some, List, [], ◌∷◌, filter,
  if◌then◌else◌, Result, ok, err,
}
use millrace_rs.Base.Sort.{sort_by, insert_sorted}
use millrace_rs.Base.Text.{
  trim, is_whitespace, drop_start, drop_end, all_chars, is_ascii_alphanumeric,
}
use millrace_rs.Contracts.Enums.{WorkItemKind}
use millrace_rs.Contracts.WorkRefs.{is_identifier_char, validate_safe_identifier}
use millrace_rs.Runtime.State.{Timestamp}
use millrace_rs.Workspace.Files.{Files, write, is_at, appended, invalid_state, text, ◌>>=◌}
use millrace_rs.Workspace.Samples.{paths, no_files}
use millrace_rs.Workspace.Claims.{Host}
use millrace_rs.Workspace.Claims.Documents.{Codecs, TaskDocument}
use millrace_rs.Workspace.Claims.Listing.{
  markdown_stem, list_markdown_files, path_stem, stems, ids_in_directory,
}
use millrace_rs.Workspace.StaleState.{StaleActiveState, detect_execution_stale_state}
use millrace_rs.Workspace.StaleState.Settled.{Agrees, detect_execution-settled}
use millrace_rs.Workspace.Interventions.{
  OperatorInterventionAction, OperatorInterventionContext, OperatorInterventionResult,
  LocatedInterventionItem, Clerk, as_str, clean_reason, clean_actor, intervention_times,
  offset_from_timestamp, strip_root, forward_slashes, workspace_relative_path,
  build_intervention_record, append_intervention_record, write_operator_runtime_event, with_record,
}
use millrace_rs.Workspace.Interventions.Archive.{
  ArchiveLocatedOptions, candidates, kinds_of, locate_cancelable_for_kind, locate_for_kinds,
  locate_cancelable_work_item, renamed_to, rename_to_free, archive_to, archive_located_item,
  destination_of,
}
use millrace_rs.Workspace.Interventions.Renamed.{Apart, IsArchived}
use millrace_rs.Workspace.Interventions.Cancelled.{Cancels, cancel_work_item-Cancels}
use millrace_rs.Workspace.Interventions.Operations.{cancel_work_item}
use millrace_rs.Workspace.Interventions.Unrecorded.{archive_without_actor-IsArchived}

abbrev sample_names : List String
sample_names = "a.md" ∷ "b.md" ∷ "c.md" ∷ []

abbrev host : Host
host = record {
  read_dir = λ files directory. filter (λ name. is_some (files directory name)) sample_names;
  decimal = λ k. "0";
  invalid_artifact_line = λ error name source. error;
}

-- A text that begins with `+` is the time of a change, after which the task depends on `c`.
abbrev task_at : Option Timestamp → String → TaskDocument
task_at updated_at dependency = record {
  task_id = "b";
  root_spec_id = none;
  spec_id = none;
  root_idea_id = none;
  depends_on = dependency ∷ [];
  created_at = "2026-01-01T00:00:00Z";
  updated_at = updated_at;
}

abbrev read : String → String → Result String TaskDocument
read String.[] path = err "no headings"
read (String.◌∷◌ c s) path =
    if String.◌∷◌ c String.[] == "+" then ok (task_at (some s) "c") else ok (task_at none "a")

abbrev printed : Option Timestamp → String
printed none = "-"
printed (some t) = String.◌∷◌ (char_at "+" 0) t

abbrev codecs : Codecs
codecs = record {
  task = record {
    parse = read;
    validate = λ task. ok tt;
    render = λ task. printed task.updated_at;
  };
  spec = record {
    parse = λ raw path. err "no spec";
    validate = λ spec. ok tt;
    render = λ spec. spec.spec_id;
  };
  probe = record {
    parse = λ raw path. err "no probe";
    validate = λ probe. ok tt;
    render = λ probe. probe.probe_id;
  };
  incident = record {
    parse = λ raw path. err "no incident";
    validate = λ incident. ok tt;
    render = λ incident. incident.incident_id;
  };
  learning_request = record {
    parse = λ raw path. err "no learning request";
    validate = λ request. ok tt;
    render = λ request. request.learning_request_id;
  };
}

abbrev clerk : Clerk
clerk = record {
  now = "2026-01-02T00:00:00Z";
  time_error = λ t. none;
  archive_suffix = λ files t. "20260102T000000Z.00000000";
  record_line = λ intervention. intervention.action;
  event_line = λ event_type intervention. event_type;
  json_text = λ line. none;
}

abbrev context : OperatorInterventionContext
context = record { actor = "operator"; issued_at = none; applied_at = none }

abbrev files : Files
files =
    write (write (write no_files "tasks/blocked" "a.md" (some "-")) "tasks/queue" "b.md" (some "-"))
      "tasks/done" "c.md" (some "-")

abbrev busy : Files
busy = write no_files "tasks/active" "b.md" (some "-")

settled_example :
    (s : StaleActiveState) × (detect_execution_stale_state host paths (some "b") busy
      ≡ (ok s, busy))
    × ((s.is_stale ≡ false) ↔ Agrees ("b" ∷ []) [] (some "b"))
unfolding ids_in_directory list_markdown_files path_stem stems sort_by insert_sorted filter
    markdown_stem write is_at ◌>>=◌
settled_example = detect_execution-settled host paths ("b" ∷ []) [] (some "b") busy refl refl

abbrev cancelled : OperatorInterventionResult
cancelled = record {
  action = OperatorInterventionAction.cancel;
  work_item_kind = WorkItemKind.task;
  work_item_id = "b";
  source_state = "queue";
  destination_state = "cancelled";
  source_path = ("tasks/queue", "b.md");
  destination_path = ("tasks/queue/cancelled", "b.20260102T000000Z.00000000.queue.md");
  event_type = "work_item_cancelled";
  replacement_work_item_id = none;
  affected_dependents = [];
  intervention = record {
    schema_version = "1.0";
    kind = "operator_intervention";
    action = "cancel";
    actor = "operator";
    reason = "obsolete";
    issued_at = "2026-01-02T00:00:00Z";
    applied_at = "2026-01-02T00:00:00Z";
    work_item_kind = WorkItemKind.task;
    work_item_id = "b";
    source_state = "queue";
    destination_state = "cancelled";
    source_path = "tasks/queue/b.md";
    destination_path = "tasks/queue/cancelled/b.20260102T000000Z.00000000.queue.md";
    replacement_work_item_id = none;
    affected_dependents = [];
  };
}

cancelled_b_example :
    Cancels paths
      (kinds_of paths none)
      "b"
      files
      (cancel_work_item clerk paths "b" none "obsolete" context files).1
      cancelled
unfolding as_str clean_reason clean_actor intervention_times offset_from_timestamp
    build_intervention_record append_intervention_record write_operator_runtime_event with_record
    candidates renamed_to rename_to_free archive_to archive_located_item trim is_whitespace
    drop_start drop_end all_chars is_ascii_alphanumeric is_identifier_char validate_safe_identifier
    write is_at appended strip_root forward_slashes workspace_relative_path
    locate_cancelable_for_kind locate_for_kinds locate_cancelable_work_item cancel_work_item ◌>>=◌
cancelled_b_example =
    cancel_work_item-Cancels clerk paths "b" none "obsolete" context files
      (cancel_work_item clerk paths "b" none "obsolete" context files).1 cancelled refl

abbrev queued_b : LocatedInterventionItem
queued_b = record {
  work_item_kind = WorkItemKind.task;
  work_item_id = "b";
  state = "queue";
  directory = "tasks/queue";
  name = "b.md";
}

abbrev by_nobody : ArchiveLocatedOptions
by_nobody = record {
  action = OperatorInterventionAction.cancel;
  destination_state = "cancelled";
  archive_name = "cancelled";
  event_type = "work_item_cancelled";
  reason = "obsolete";
  context = record context { actor = " " };
  replacement_work_item_id = none;
  affected_dependents = [];
  explicit_archive_parent = none;
}

abbrev two_times : Timestamp × Timestamp
two_times = ("2026-01-02T00:00:00Z", "2026-01-02T00:00:00Z")

nobody_example :
    (files' : Files) × (archive_located_item clerk paths queued_b by_nobody files
      ≡ (err (invalid_state (text "actor is required")), files'))
    × IsArchived files files'
        ("tasks/queue", "b.md")
        (destination_of clerk paths files queued_b by_nobody two_times)
    × ((d n : String)
        → Apart (d, n) ("tasks/queue", "b.md")
        → Apart (d, n) (destination_of clerk paths files queued_b by_nobody two_times)
        → files' d n ≡ files d n)
unfolding trim is_whitespace drop_start drop_end intervention_times offset_from_timestamp write
    is_at ◌>>=◌
nobody_example =
    archive_without_actor-IsArchived clerk paths queued_b by_nobody two_times files refl refl refl
      refl refl refl
