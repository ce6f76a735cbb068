-- ===== src/Workspace/Claims/Claim.antt =====
-- workspace/queue_claims.rs and workspace/queue_store.rs: a claim renames the file of the selected item into the
-- directory of active items, and selects again if another process has taken the file meanwhile. What other processes
-- do between a selection and its rename is a list, with an entry for each round in which they do something: nothing
-- interferes with the round after the last entry.
use millrace_rs.Base.{
  String, ℕ, Bool, true, false, Option, none, some, is_some, List, [], ◌∷◌, length, ltb,
  if◌then◌else◌, ◌+◌, ok,
}
use millrace_rs.Contracts.Enums.{Plane, WorkItemKind}
use millrace_rs.Contracts.WorkItemKind
use millrace_rs.Contracts.QueueClaims.{plane_for_builtin_kind}
use millrace_rs.Workspace.Files.{Files, FileStep, FilePath, ◌>>=◌, pure, fail, moved}
use millrace_rs.Workspace.Queue.{WorkspacePaths}
use millrace_rs.Workspace.Claims.{Host}
use millrace_rs.Workspace.Claims.Documents.{Codecs}
use millrace_rs.Workspace.Claims.Listing.{list_markdown_files}
use millrace_rs.Workspace.Claims.Select.{
  Candidate, select_oldest_eligible_task, select_oldest_incident, select_oldest_learning_request,
  select_oldest_probe_or_spec,
}

pub record QueueClaim : Type 0 where
  pub work_item_kind : WorkItemKind
  pub family_id : String
  pub plane : Plane
  pub work_item_id : String
  pub path : FilePath
  pub source_state : Option String
  pub source_path : Option FilePath
  pub claim_policy_id : Option String
  pub claim_order : Option ℕ

unfoldable pub for_builtin : WorkItemKind → String → FilePath → QueueClaim
for_builtin kind item_id path = record {
  work_item_kind = kind;
  family_id = WorkItemKind.as_str kind;
  plane = plane_for_builtin_kind kind;
  work_item_id = item_id;
  path = path;
  source_state = none;
  source_path = none;
  claim_policy_id = none;
  claim_order = none;
}

unfoldable pub with_source : String → FilePath → QueueClaim → QueueClaim
with_source state path claim = record claim { source_state = some state; source_path = some path }

unfoldable pub with_claim_policy : String → ℕ → QueueClaim → QueueClaim
with_claim_policy policy_id claim_order claim = record claim {
  claim_policy_id = some policy_id;
  claim_order = some claim_order;
}

-- What a round of the loop has selected, with the directories and the evidence for its claim.
pub record Chosen : Type 0 where
  pub kind : WorkItemKind
  pub item_id : String
  pub name : String
  pub source_dir : String
  pub active_dir : String
  pub source_state : String
  pub policy_id : String
  pub claim_order : ℕ

pub data Selection : Type 0 where
  nothing : Selection
  already : QueueClaim → Selection
  chosen : Chosen → Selection

-- What a round ends with: `return Ok(...)`, or `continue`.
pub data Round : Type 0 where
  returns : Option QueueClaim → Round
  continues : Round

-- `fs::rename`, which reports whether the source was there.
abbrev pub try_rename : String → String → String → FileStep Bool
try_rename source_dir active_dir name files =
    if is_some (files source_dir name)
    then (ok true, moved files source_dir active_dir name)
    else (ok false, files)

unfoldable pub claim_of : Chosen → QueueClaim
claim_of c = with_claim_policy c.policy_id c.claim_order (
    with_source c.source_state (c.source_dir, c.name)
      (for_builtin c.kind c.item_id (c.active_dir, c.name)))

unfoldable pub attempt : Selection → FileStep Round
attempt nothing = pure (returns none)
attempt (already claim) = pure (returns (some claim))
attempt (chosen c) = try_rename c.source_dir c.active_dir c.name >>= λ renamed.
    pure (if renamed then returns (some (claim_of c)) else continues)

abbrev interfere : (Files → Files) → FileStep (Unit {0})
interfere other files = (ok tt, other files)

abbrev next : FileStep Round → Round → FileStep Round
next again (returns claim) = pure (returns claim)
next again continues = again

-- The loop for as many rounds as there are interferences, one between the selection and the rename of each round. It
-- `continues` if it has not returned by then.
unfoldable pub rounds : FileStep Selection → List (Files → Files) → FileStep Round
rounds select [] = pure continues
rounds select (other ∷ others) = select >>= λ selection.
    (interfere other >>= λ _. (attempt selection >>= λ round. next (rounds select others) round))

-- One round, with which nothing interferes.
abbrev pub undisturbed : List (Files → Files)
undisturbed = (λ files. files) ∷ []

-- Nothing is claimed while an item is active, and more than one is an error.
unfoldable pub unless_active : ℕ → String → FileStep Round → FileStep Round
unless_active count message claim =
    if ltb 1 count then fail message else if ltb 0 count then pure (returns none) else claim

abbrev pub chosen_from :
    WorkItemKind → String → String → String → String → ℕ → Option Candidate → Selection
chosen_from kind source_dir active_dir source_state policy_id claim_order none = nothing
chosen_from kind source_dir active_dir source_state policy_id claim_order (some c) =
    chosen (record {
      kind = kind;
      item_id = c.item_id;
      name = c.name;
      source_dir = source_dir;
      active_dir = active_dir;
      source_state = source_state;
      policy_id = policy_id;
      claim_order = claim_order;
    })

module _ (host : Host) (codecs : Codecs) (paths : WorkspacePaths) where
  unfoldable pub select_task : Option String → FileStep Selection
  select_task root_spec_id = select_oldest_eligible_task host codecs paths root_spec_id >>= λ found.
      pure (
        chosen_from WorkItemKind.task paths.tasks_queue_dir paths.tasks_active_dir "queue"
          "execution.default" 0 found)

  unfoldable pub claim_next_execution_task : Option String → List (Files → Files) → FileStep Round
  claim_next_execution_task root_spec_id others =
      list_markdown_files host paths.tasks_active_dir >>= λ active.
      unless_active (length active) "multiple active execution tasks found"
        (rounds (select_task root_spec_id) others)

  unfoldable pub select_learning_request : FileStep Selection
  select_learning_request =
      select_oldest_learning_request host codecs paths.learning_requests_queue_dir >>= λ found.
      pure (
        chosen_from WorkItemKind.learning_request paths.learning_requests_queue_dir
          paths.learning_requests_active_dir "queue" "learning.default" 0 found)

  unfoldable pub claim_next_learning_request : List (Files → Files) → FileStep Round
  claim_next_learning_request others =
      list_markdown_files host paths.learning_requests_active_dir >>= λ active.
      unless_active (length active) "multiple active learning requests found"
        (rounds select_learning_request others)

  abbrev probe_or_spec : Option (WorkItemKind × Candidate) → FileStep Selection
  probe_or_spec none = pure nothing
  probe_or_spec (some (WorkItemKind.probe, c)) = pure (
      chosen_from WorkItemKind.probe paths.probes_queue_dir paths.probes_active_dir "queue"
        "planning.default" 2 (some c))
  probe_or_spec (some (WorkItemKind.spec, c)) = pure (
      chosen_from WorkItemKind.spec paths.specs_queue_dir paths.specs_active_dir "queue"
        "planning.default" 3 (some c))
  probe_or_spec (some (_, c)) =
      fail "planning probe/spec selector returned unsupported work item kind"

  abbrev unless_blueprint : Option String → Option QueueClaim → FileStep Selection
  unless_blueprint root_spec_id (some claim) = pure (already claim)
  unless_blueprint root_spec_id none =
      select_oldest_probe_or_spec host codecs paths root_spec_id >>= λ found. probe_or_spec found

  abbrev unless_incident :
      (Option String → FileStep (Option QueueClaim))
      → Option String
      → Option Candidate
      → FileStep Selection
  unless_incident claim_next_blueprint_draft root_spec_id (some c) = pure (
      chosen_from WorkItemKind.incident paths.incidents_incoming_dir paths.incidents_active_dir
        "incoming" "planning.default" 0 (some c))
  unless_incident claim_next_blueprint_draft root_spec_id none =
      claim_next_blueprint_draft root_spec_id >>= λ claim. unless_blueprint root_spec_id claim

  unfoldable pub select_planning :
      (Option String → FileStep (Option QueueClaim)) → Option String → FileStep Selection
  select_planning claim_next_blueprint_draft root_spec_id =
      select_oldest_incident host codecs paths.incidents_incoming_dir root_spec_id >>= λ found.
      unless_incident claim_next_blueprint_draft root_spec_id found

  unfoldable pub claim_next_planning_item :
      FileStep ℕ
      → (Option String → FileStep (Option QueueClaim))
      → Option String
      → List (Files → Files)
      → FileStep Round
  claim_next_planning_item active_blueprint_draft_count claim_next_blueprint_draft root_spec_id
        others =
      list_markdown_files host paths.specs_active_dir >>= λ active_specs.
      (list_markdown_files host paths.probes_active_dir >>= λ active_probes.
      (list_markdown_files host paths.incidents_active_dir >>= λ active_incidents.
      (active_blueprint_draft_count >>= λ active_blueprint_drafts.
      unless_active
        (length active_specs
          + length active_probes
          + length active_incidents
          + active_blueprint_drafts)
        "multiple active planning items found"
        (rounds (select_planning claim_next_blueprint_draft root_spec_id) others))))
