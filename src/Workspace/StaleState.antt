-- ===== src/Workspace/StaleState.antt =====
-- workspace/queue_store.rs: whether the active items that the runtime's snapshot names are those of the queue.
pub mod Settled
use millrace_rs.Base.{
  String, ◌==◌, Bool, true, false, not, ◌&&◌, Option, none, some, is_some, List, [], ◌∷◌, ◌++◌, any,
  is_empty, length, ltb, map, if◌then◌else◌,
}
use millrace_rs.Base.Sort.{insert_sorted}
use millrace_rs.Contracts.Enums.{WorkItemKind}
use millrace_rs.Contracts.WorkItemKind
use millrace_rs.Workspace.Files.{FileStep, ◌>>=◌, pure, fail}
use millrace_rs.Workspace.Queue.{WorkspacePaths}
use millrace_rs.Workspace.Claims.{Host}
use millrace_rs.Workspace.Claims.Listing.{ids_in_directory}

pub record StaleActiveState : Type 0 where
  pub is_stale : Bool
  pub reasons : List String

-- `BTreeSet`: without repeats and sorted.
unfoldable pub set_of : List String → List String
set_of [] = []
set_of (x ∷ xs) =
    let rest = set_of xs in if any (λ y. y == x) rest then rest else insert_sorted (λ y. y) x rest

unfoldable pub stale_state : List String → StaleActiveState
stale_state reasons = record {
  is_stale = not (is_empty (set_of reasons));
  reasons = set_of reasons;
}

abbrev pub pushed_if : Bool → String → List String
pushed_if test reason = if test then reason ∷ [] else []

module _ {Item : Type 0} (same : Item → Item → Bool) where
  abbrev artifact_reasons : List Item → Item → List String
  artifact_reasons [] item = "snapshot_without_active_artifact" ∷ []
  artifact_reasons (active ∷ []) item =
      pushed_if (not (same active item)) "snapshot_active_id_mismatch"
  artifact_reasons (_ ∷ _ ∷ _) item = []

  abbrev pub snapshot_reasons : List Item → Option Item → Bool → List String
  snapshot_reasons active none queued = []
  snapshot_reasons active (some item) queued =
      pushed_if queued "snapshot_points_to_queued_item" ++ artifact_reasons active item

  -- What the three checks have in common: `queued` tells whether the item of the snapshot is queued.
  unfoldable pub stale_reasons : List Item → Option Item → Bool → List String
  stale_reasons active snapshot_active queued =
      pushed_if (ltb 1 (length active)) "multiple_active_items"
      ++ (pushed_if (not (is_empty active) && not (is_some snapshot_active))
            "active_without_snapshot"
          ++ snapshot_reasons active snapshot_active queued)

abbrev pub is_among : List String → Option String → Bool
is_among ids none = false
is_among ids (some item_id) = any (λ i. i == item_id) ids

unfoldable pub detect_stale_state :
    Host → String → String → Option String → FileStep StaleActiveState
detect_stale_state host active_dir queue_dir snapshot_active_id =
    ids_in_directory host active_dir >>= λ active_ids.
    (ids_in_directory host queue_dir >>= λ queued_ids. pure (
      stale_state (
        stale_reasons (λ a b. a == b) active_ids snapshot_active_id
          (is_among queued_ids snapshot_active_id))))

unfoldable pub detect_execution_stale_state :
    Host → WorkspacePaths → Option String → FileStep StaleActiveState
detect_execution_stale_state host paths =
    detect_stale_state host paths.tasks_active_dir paths.tasks_queue_dir

unfoldable pub detect_learning_stale_state :
    Host → WorkspacePaths → Option String → FileStep StaleActiveState
detect_learning_stale_state host paths =
    detect_stale_state host paths.learning_requests_active_dir paths.learning_requests_queue_dir

abbrev pub planning_kind : WorkItemKind → Bool
planning_kind WorkItemKind.probe = true
planning_kind WorkItemKind.spec = true
planning_kind WorkItemKind.incident = true
planning_kind _ = false

abbrev of_kind : WorkItemKind → List String → List (WorkItemKind × String)
of_kind kind ids = map (λ item_id. (kind, item_id)) ids

abbrev pub same_active : WorkItemKind × String → WorkItemKind × String → Bool
same_active (k, a) (l, b) = WorkItemKind.as_str k == WorkItemKind.as_str l && a == b

module _ (host : Host) (paths : WorkspacePaths) where
  unfoldable pub active_items : FileStep (List (WorkItemKind × String))
  active_items = ids_in_directory host paths.probes_active_dir >>= λ probes.
      (ids_in_directory host paths.specs_active_dir >>= λ specs.
      (ids_in_directory host paths.incidents_active_dir >>= λ incidents. pure (
        of_kind WorkItemKind.probe probes
        ++ (of_kind WorkItemKind.spec specs ++ of_kind WorkItemKind.incident incidents))))

  abbrev queued_of : WorkItemKind → FileStep (List String)
  queued_of WorkItemKind.probe = ids_in_directory host paths.probes_queue_dir
  queued_of WorkItemKind.spec = ids_in_directory host paths.specs_queue_dir
  queued_of WorkItemKind.incident = ids_in_directory host paths.incidents_incoming_dir
  queued_of _ = pure []

  abbrev queued_ids : Option (WorkItemKind × String) → FileStep (List String)
  queued_ids none = pure []
  queued_ids (some (kind, item_id)) = queued_of kind

  abbrev pub id_of : Option (WorkItemKind × String) → Option String
  id_of none = none
  id_of (some (kind, item_id)) = some item_id

  abbrev checked : Option (WorkItemKind × String) → FileStep StaleActiveState
  checked snapshot_active = active_items >>= λ active.
      (queued_ids snapshot_active >>= λ queued. pure (
        stale_state (
          stale_reasons same_active active snapshot_active
            (is_among queued (id_of snapshot_active)))))

  unfoldable pub detect_planning_stale_state :
      Option WorkItemKind → Option String → FileStep StaleActiveState
  detect_planning_stale_state none none = checked none
  detect_planning_stale_state (some kind) (some item_id) =
      if planning_kind kind
      then checked (some (kind, item_id))
      else fail "planning stale-state checks only support probe, spec, and incident kinds"
  detect_planning_stale_state _ _ =
      fail "snapshot_active_kind and snapshot_active_item_id must be set together"
