-- ===== src/Workspace/Examples.antt =====
-- A spec and an item of a compiled family, each active, and a blocked task.
use millrace_rs.Base.{
  [], ok, String, ◌==◌, eq_iff, ◌≡◌, refl, ◌≢◌, true, false, none, some, err, arith,
}
use millrace_rs.Base.Text.{
  is_ascii_alphanumeric, all_chars, is_blank, trim, drop_start, drop_end, is_whitespace,
}
use millrace_rs.Contracts.Enums.{WorkItemKind}
use millrace_rs.Contracts.WorkItemKind
use millrace_rs.Contracts.WorkRefs.{
  is_identifier_char, validate_safe_identifier, normalize_work_item_family_id, normalize_optional,
  resolve_kind, resolve_family, coerce_family_and_kind,
}
use millrace_rs.Workspace.Files.{
  Files, io, invalid_state, text, ◌>>=◌, write, is_at, moved, pure, fail,
}
use millrace_rs.Workspace.Queue.{move_if, move_item_from_state}
use millrace_rs.Workspace.Queue.Moves.{ItemState, AreApart, StandsAt}
use millrace_rs.Workspace.Queue.Operations.{
  AuditFailure, audit_error, validate_blocked_requeue_audit, append_blocked_requeue_audit,
  requeue_blocked_task,
}
use millrace_rs.Workspace.Queue.Audit.{FailsAt, requeue_blocked-FailsAt}
use millrace_rs.Workspace.QueueLifecycle.{
  SourceLifecycleAction, SourceLifecycleIntent, WorkItemFamilyDefinition, WorkspaceParts,
  validate_intent, apply, move_generic_active_family,
}
use millrace_rs.Workspace.QueueLifecycle.Builtin.{dirs_of, Moves, apply-StandsAt}
use millrace_rs.Workspace.QueueLifecycle.Generic.{
  family_dir, move_generic-StandsAt, requeue_without_reason-moves,
}
use millrace_rs.Workspace.Samples.{paths, no_files, state_of, readable-AreApart}

abbrev parts : WorkspaceParts
parts = record {
  record_line = λ kind reason. reason;
  retire_stale_blocked_task_duplicate_after_done = λ task_id. pure none;
  approve_active_blueprint_draft = λ draft_id. fail "no drafts";
  block_active_blueprint_draft = λ draft_id. fail "no drafts";
  requeue_active_blueprint_draft = λ draft_id. fail "no drafts";
}

abbrev spec_files : Files
spec_files = write no_files "specs/active" "spec-1.md" (some "The spec.")

abbrev requeue_spec_1 : SourceLifecycleIntent
requeue_spec_1 = record {
  lifecycle_plan_id = "plan-1";
  action = SourceLifecycleAction.requeue;
  work_item_family_id = some "spec";
  work_item_kind = some WorkItemKind.spec;
  work_item_id = "spec-1";
  reason = some "retry";
}

spec_dirs-AreApart : AreApart (dirs_of paths WorkItemKind.spec)
spec_dirs-AreApart = readable-AreApart (dirs_of paths WorkItemKind.spec) read
  where
    read :
        (state : ItemState)
        → state_of (dirs_of paths WorkItemKind.spec) (dirs_of paths WorkItemKind.spec state) ≡ state
    read ItemState.queued = refl
    read ItemState.active = refl
    read ItemState.done = refl
    read ItemState.blocked = refl

spec-StandsAt :
    StandsAt spec_files (dirs_of paths WorkItemKind.spec) "spec-1.md" ItemState.active "The spec."
unfolding write is_at
spec-StandsAt = record { present = refl; nowhere_else = elsewhere }
  where
    elsewhere :
        (other : ItemState)
        → other ≢ ItemState.active
        → spec_files (dirs_of paths WorkItemKind.spec other) "spec-1.md" ≡ none
    elsewhere ItemState.queued h = refl
    elsewhere ItemState.active h = absurd (h refl)
    elsewhere ItemState.done h = refl
    elsewhere ItemState.blocked h = refl

retry_filled : is_blank (trim "retry") ≡ false
unfolding trim drop_start drop_end is_whitespace
retry_filled = refl

requeue_valid : validate_intent requeue_spec_1 spec_files ≡ (ok tt, spec_files)
unfolding validate_intent validate_safe_identifier is_identifier_char is_ascii_alphanumeric
    all_chars trim drop_start drop_end is_whitespace ◌>>=◌
requeue_valid = refl

spec_coerced :
    coerce_family_and_kind requeue_spec_1.work_item_family_id requeue_spec_1.work_item_kind
    ≡ ok (some "spec", some WorkItemKind.spec)
unfolding coerce_family_and_kind normalize_optional normalize_work_item_family_id
    validate_safe_identifier is_identifier_char is_ascii_alphanumeric all_chars trim drop_start
    drop_end is_whitespace resolve_kind resolve_family WorkItemKind.as_str
spec_coerced = refl

apply-StandsAt_example :
    Moves
      (dirs_of paths WorkItemKind.spec)
      "spec-1.md"
      "The spec."
      (apply paths parts "root" [] requeue_spec_1)
      spec_files
      ItemState.queued
apply-StandsAt_example =
    apply-StandsAt paths parts "root" [] requeue_spec_1 (some "spec") WorkItemKind.spec "The spec."
      spec_files requeue_valid spec_coerced tt ("retry", refl, retry_filled) spec_dirs-AreApart
      spec-StandsAt

abbrev reviews : WorkItemFamilyDefinition
reviews = record {
  family_id = "review";
  file_extension = ".json";
  queue_dirs = record {
    queue = "reviews/queue";
    active = "reviews/active";
    done = "reviews/done";
    blocked = "reviews/blocked";
  };
}

abbrev requeue_review : SourceLifecycleIntent
requeue_review = record requeue_spec_1 {
  work_item_family_id = some "review";
  work_item_kind = none;
  work_item_id = "review-1";
}

abbrev requeue_without_reason : SourceLifecycleIntent
requeue_without_reason = record requeue_review { reason = none }

abbrev review_at : String → Files
review_at dir = write no_files dir "review-1.json" (some "{}")

review_dirs-AreApart : AreApart (family_dir "root" reviews)
review_dirs-AreApart = readable-AreApart (family_dir "root" reviews) read
  where
    read :
        (state : ItemState)
        → state_of (family_dir "root" reviews) (family_dir "root" reviews state) ≡ state
    read ItemState.queued = refl
    read ItemState.active = refl
    read ItemState.done = refl
    read ItemState.blocked = refl

active_review-StandsAt :
    StandsAt
      (review_at "root/reviews/active")
      (family_dir "root" reviews)
      "review-1.json"
      ItemState.active
      "{}"
unfolding write is_at
active_review-StandsAt = record { present = refl; nowhere_else = elsewhere }
  where
    elsewhere :
        (other : ItemState)
        → other ≢ ItemState.active
        → review_at "root/reviews/active" (family_dir "root" reviews other) "review-1.json" ≡ none
    elsewhere ItemState.queued h = refl
    elsewhere ItemState.active h = absurd (h refl)
    elsewhere ItemState.done h = refl
    elsewhere ItemState.blocked h = refl

queued_review-StandsAt :
    StandsAt
      (review_at "root/reviews/queue")
      (family_dir "root" reviews)
      "review-1.json"
      ItemState.queued
      "{}"
unfolding write is_at
queued_review-StandsAt = record { present = refl; nowhere_else = elsewhere }
  where
    elsewhere :
        (other : ItemState)
        → other ≢ ItemState.queued
        → review_at "root/reviews/queue" (family_dir "root" reviews other) "review-1.json" ≡ none
    elsewhere ItemState.queued h = absurd (h refl)
    elsewhere ItemState.active h = refl
    elsewhere ItemState.done h = refl
    elsewhere ItemState.blocked h = refl

review_log_differs : ◌≢◌ {A = String} "review-1.requeue.jsonl" "review-1.json"
review_log_differs h =
    let t : ("review-1.requeue.jsonl" == "review-1.json") ≡ true =
      (eq_iff "review-1.requeue.jsonl" "review-1.json").1 h in
    ground arith

move_generic-StandsAt_example :
    Moves
      (family_dir "root" reviews)
      "review-1.json"
      "{}"
      (move_generic_active_family parts "root" reviews requeue_review)
      (review_at "root/reviews/active")
      ItemState.queued
move_generic-StandsAt_example =
    move_generic-StandsAt parts "root" reviews requeue_review "{}" (review_at "root/reviews/active")
      review_dirs-AreApart review_log_differs ("retry", refl, retry_filled) active_review-StandsAt

requeue_without_reason-moves_example :
    (files' : Files) × (move_generic_active_family parts "root" reviews requeue_without_reason
        (review_at "root/reviews/active")
      ≡ (err (invalid_state (text "requeue reason is required")), files'))
    × StandsAt files' (family_dir "root" reviews) "review-1.json" ItemState.queued "{}"
requeue_without_reason-moves_example =
    requeue_without_reason-moves parts "root" reviews requeue_without_reason "{}"
      (review_at "root/reviews/active") review_dirs-AreApart refl refl active_review-StandsAt

abbrev no_disk : AuditFailure
no_disk = record { error = io "tasks/queue/task-1.requeue.jsonl"; written = none }

abbrev blocked_task : Files
blocked_task = write no_files "tasks/blocked" "task-1.md" (some "-")

not_logged :
    requeue_blocked_task paths (some no_disk) "{}" "task-1" "retry" "operator" (some 1) blocked_task
    ≡ (err no_disk.error, moved blocked_task "tasks/blocked" "tasks/queue" "task-1.md")
unfolding requeue_blocked_task append_blocked_requeue_audit validate_blocked_requeue_audit
    audit_error move_item_from_state move_if moved write is_at ◌>>=◌ trim drop_start drop_end
    is_whitespace
not_logged = refl

not_logged_example :
    FailsAt paths "task-1"
      (some no_disk)
      no_disk.error
      blocked_task
      (moved blocked_task "tasks/blocked" "tasks/queue" "task-1.md")
not_logged_example =
    requeue_blocked-FailsAt paths (some no_disk) "{}" "task-1" "retry" "operator" (some 1)
      blocked_task (moved blocked_task "tasks/blocked" "tasks/queue" "task-1.md") no_disk.error
      not_logged
