-- ===== src/Runtime/BlockedRecovery/Stranded.antt =====
-- runtime/blocked_recovery.rs, with its records in contracts/runtime_json.rs: the blocked task that strands queued
-- tasks and may be recovered automatically.
use millrace_rs.Base.{
  String, ◌==◌, Bool, true, false, not, Option, none, some, or_else, List, [], ◌∷◌, any,
  if◌then◌else◌, Result, ok, err, ◌>>=◌, map_err, to_option,
}
use millrace_rs.Base.Dict.{lookup, insert}
use millrace_rs.Base.Oldest.{oldest}
use millrace_rs.Base.Sort.{text_lt, insert_sorted}
use millrace_rs.Base.Text.{concat}
use millrace_rs.Contracts.Enums.{WorkItemKind}
use millrace_rs.Contracts.WorkRefs.{validate_safe_identifier}
use millrace_rs.Runtime.LaneState.{
  RuntimeJsonError, lift_contract, invalid_field, require_non_blank, require_optional_non_blank,
}
use millrace_rs.Runtime.State.{Timestamp}
use millrace_rs.Workspace.Files.{Files}
use millrace_rs.Workspace.Queue.{WorkspacePaths, document_name}
use millrace_rs.Workspace.Claims.{Host}
use millrace_rs.Workspace.Claims.Documents.{TaskDocument, effective_root_spec_task}
use millrace_rs.Workspace.Claims.Found.{listed}
use millrace_rs.Workspace.Claims.Listing.{markdown_stem}
use millrace_rs.Runtime.BlockedRecovery.{
  Journal, BlockedItemMetadata, RecoveryError, invalid_record, load_blocked_item_metadata,
}

pub record StrandedBlockedDependency : Type 0 where
  pub blocked_task_id : String
  pub queued_dependent_ids : List String
  pub root_spec_id : Option String
  pub metadata : Option BlockedItemMetadata

pub record AutoRecoveryCandidate : Type 0 where
  pub dependency : StrandedBlockedDependency
  pub blocked_root_spec_id : Option String
  pub lineage_compatible : Bool

pub record CandidateParts : Type 0 where
  pub blocked_root_spec_id : Option String
  pub root_spec_id : Option String
  pub queued_dependent_ids : List String

abbrev unseen : Bool → String → Result RuntimeJsonError (Unit {0})
unseen true id = err (
    invalid_field "queued_dependent_ids" (concat "duplicate queued dependent id `" (concat id "`")))
unseen false id = ok tt

unfoldable pub validate_dependents : List String → List String → Result RuntimeJsonError (Unit {0})
validate_dependents seen [] = ok tt
validate_dependents seen (id ∷ ids) = do
  _ ← lift_contract (validate_safe_identifier id "queued_dependent_ids")
  _ ← unseen (any (λ s. s == id) seen) id
  validate_dependents (id ∷ seen) ids

abbrev pub not_empty : List String → Result RuntimeJsonError (Unit {0})
not_empty [] = err (invalid_field "queued_dependent_ids" "must not be empty")
not_empty (id ∷ ids) = ok tt

-- `parse_time` tells whether a text is a time: third-party code.
module _ (parse_time : String → Timestamp → Result RuntimeJsonError (Unit {0})) where
  unfoldable pub validate_metadata : BlockedItemMetadata → Result RuntimeJsonError (Unit {0})
  validate_metadata m = do
    _ ← lift_contract (validate_safe_identifier m.work_item_id "work_item_id")
    _ ← require_non_blank "failure_class" m.failure_class
    _ ← parse_time "blocked_at" m.blocked_at
    _ ← require_optional_non_blank "root_spec_id" m.root_spec_id
    _ ← require_optional_non_blank "root_idea_id" m.root_idea_id
    _ ← require_optional_non_blank "source_run_id" m.source_run_id
    _ ← require_optional_non_blank "source_plane" m.source_plane
    _ ← require_optional_non_blank "source_stage" m.source_stage
    _ ← require_optional_non_blank "terminal_result" m.terminal_result
    _ ← require_optional_non_blank "stage_result_path" m.stage_result_path
    _ ← require_optional_non_blank "stdout_path" m.stdout_path
    require_optional_non_blank "stderr_path" m.stderr_path

  abbrev pub validate_optional_metadata :
      Option BlockedItemMetadata → Result RuntimeJsonError (Unit {0})
  validate_optional_metadata none = ok tt
  validate_optional_metadata (some metadata) = validate_metadata metadata

  unfoldable pub validate_dependency :
      StrandedBlockedDependency → Result RuntimeJsonError (Unit {0})
  validate_dependency d = do
    _ ← lift_contract (validate_safe_identifier d.blocked_task_id "blocked_task_id")
    _ ← not_empty d.queued_dependent_ids
    _ ← validate_dependents [] d.queued_dependent_ids
    _ ← require_optional_non_blank "root_spec_id" d.root_spec_id
    validate_optional_metadata d.metadata

abbrev pub Candidates : Type 0
Candidates = List (String × CandidateParts)

-- The compatible and the incompatible ones.
abbrev pub Sides : Type 0
Sides = Candidates × Candidates

-- `BTreeSet::insert`
unfoldable pub insert_id : String → List String → List String
insert_id id ids = if any (λ i. i == id) ids then ids else insert_sorted (λ i. i) id ids

abbrev entry_or : Option CandidateParts → CandidateParts → CandidateParts
entry_or none fresh = fresh
entry_or (some parts) fresh = parts

-- `entry(...).or_insert_with(...).queued_dependent_ids.insert(...)`
unfoldable pub add_dependent :
    String → Option String → Option String → String → Candidates → Candidates
add_dependent dependency_id blocked_root queued_root queued_id candidates =
    let parts = entry_or (lookup dependency_id candidates) (record {
      blocked_root_spec_id = blocked_root;
      root_spec_id = or_else blocked_root queued_root;
      queued_dependent_ids = [];
    }) in
    insert dependency_id
      (record parts { queued_dependent_ids = insert_id queued_id parts.queued_dependent_ids })
      candidates

abbrev pub root_mismatch : Option String → Option String → Bool
root_mismatch none blocked_root = false
root_mismatch (some queued_root) none = false
root_mismatch (some queued_root) (some blocked_root) = not (queued_root == blocked_root)

unfoldable pub add_candidate : String → Option String → Option String → String → Sides → Sides
add_candidate dependency_id blocked_root queued_root queued_id (compatible, incompatible) =
    if root_mismatch queued_root blocked_root
    then (compatible, add_dependent dependency_id blocked_root queued_root queued_id incompatible)
    else (add_dependent dependency_id blocked_root queued_root queued_id compatible, incompatible)

module _ (host : Host) (journal : Journal) (paths : WorkspacePaths) (files : Files) where
  abbrev read_raw : String → String → Option String → Option TaskDocument
  read_raw directory name none = none
  read_raw directory name (some raw) =
      to_option (journal.parse_task raw (concat directory (concat "/" name)))

  unfoldable pub read_task_document_or_none : String → String → Option TaskDocument
  read_task_document_or_none directory name = read_raw directory name (files directory name)

  unfoldable pub markdown_stems : String → List String
  markdown_stems directory = filter_stems (listed host directory files)
    where
      filter_stems : List String → List String
      filter_stems [] = []
      filter_stems (name ∷ names) =
          let rest = filter_stems names in
          elim (markdown_stem name) [ none ↦ rest | some stem ↦ stem ∷ rest ]

  abbrev pub with_blocked : TaskDocument → String → Option TaskDocument → Sides → Sides
  with_blocked queued dependency_id none sides = sides
  with_blocked queued dependency_id (some blocked) sides =
      add_candidate dependency_id (effective_root_spec_task blocked)
        (effective_root_spec_task queued) queued.task_id sides

  -- The loop over what a queued task depends on.
  unfoldable pub over_dependencies : List String → TaskDocument → List String → Sides → Sides
  over_dependencies completed queued [] sides = sides
  over_dependencies completed queued (dependency_id ∷ ids) sides =
      over_dependencies completed queued ids (
        if any (λ c. c == dependency_id) completed
        then sides
        else with_blocked queued dependency_id
            (read_task_document_or_none paths.tasks_blocked_dir (document_name dependency_id))
            sides)

  abbrev pub with_queued : List String → Option TaskDocument → Sides → Sides
  with_queued completed none sides = sides
  with_queued completed (some queued) sides =
      over_dependencies completed queued queued.depends_on sides

  -- The loop over the queued tasks.
  unfoldable pub over_queued : List String → List String → Sides → Sides
  over_queued completed [] sides = sides
  over_queued completed (name ∷ names) sides =
      over_queued completed names
        (with_queued completed (read_task_document_or_none paths.tasks_queue_dir name) sides)

  module _ (parse_time : String → Timestamp → Result RuntimeJsonError (Unit {0})) where
    abbrev pub validated_candidate :
        AutoRecoveryCandidate → Result RecoveryError (Option AutoRecoveryCandidate)
    validated_candidate c =
        map_err invalid_record (validate_dependency parse_time c.dependency) >>= λ _. ok (some c)

    -- `BTreeMap::pop_first`, and the candidate that it makes.
    abbrev pub from_first :
        Option (String × CandidateParts)
        → Bool
        → Result RecoveryError (Option AutoRecoveryCandidate)
    from_first none lineage_compatible = ok none
    from_first (some (blocked_task_id, parts)) lineage_compatible = validated_candidate (record {
      dependency = record {
        blocked_task_id = blocked_task_id;
        queued_dependent_ids = parts.queued_dependent_ids;
        root_spec_id = parts.root_spec_id;
        metadata = load_blocked_item_metadata journal paths WorkItemKind.task blocked_task_id files;
      };
      blocked_root_spec_id = parts.blocked_root_spec_id;
      lineage_compatible = lineage_compatible;
    })

    unfoldable pub build_auto_recovery_candidate :
        Candidates → Bool → Result RecoveryError (Option AutoRecoveryCandidate)
    build_auto_recovery_candidate candidates lineage_compatible =
        from_first (oldest (λ a b. text_lt a.0 b.0) candidates) lineage_compatible

    abbrev or_incompatible :
        Candidates
        → Option AutoRecoveryCandidate
        → Result RecoveryError (Option AutoRecoveryCandidate)
    or_incompatible incompatible (some c) = ok (some c)
    or_incompatible incompatible none = build_auto_recovery_candidate incompatible false

    abbrev pub from_sides : Sides → Result RecoveryError (Option AutoRecoveryCandidate)
    from_sides (compatible, incompatible) =
        build_auto_recovery_candidate compatible true >>= λ found.
        or_incompatible incompatible found

    unfoldable pub find_auto_recovery_candidate :
        Result RecoveryError (Option AutoRecoveryCandidate)
    find_auto_recovery_candidate = from_sides (
        over_queued (markdown_stems paths.tasks_done_dir) (listed host paths.tasks_queue_dir files)
          ([], []))
