-- ===== src/Workspace/QueueLifecycle/Generic.antt =====
-- The lifecycle of the items of a compiled family.
use millrace_rs.Base.{String, ◌≡◌, refl, sym, ap, ◌∙◌, ◌≢◌, none, some, ok, err, arith}
use millrace_rs.Base.Text.{concat, trim, is_blank}
use millrace_rs.Base.Trim.{trim_idem}
use millrace_rs.Workspace.Files.{
  Files, QueueStoreError, invalid_state, text, ◌>>=◌, moved, appended,
}
use millrace_rs.Workspace.Queue.{log_name}
use millrace_rs.Workspace.Queue.Moves.{
  ItemState, AreApart, StandsAt, moved-StandsAt, appended-StandsAt,
}
use millrace_rs.Workspace.QueueLifecycle.{
  SourceLifecycleAction, SourceLifecycleIntent, WorkItemFamilyDefinition, WorkspaceParts, join,
  target_dir, required_reason, append_family_requeue_reason, record_move, move_checked,
  move_by_action, move_generic_active_family,
}
use millrace_rs.Workspace.QueueLifecycle.Builtin.{target_state, HasReason, Moves}

-- The directory of each state of a family.
abbrev pub family_dir : String → WorkItemFamilyDefinition → ItemState → String
family_dir root family ItemState.queued = join root family.queue_dirs.queue
family_dir root family ItemState.active = join root family.queue_dirs.active
family_dir root family ItemState.done = join root family.queue_dirs.done
family_dir root family ItemState.blocked = join root family.queue_dirs.blocked

abbrev pub family_name : WorkItemFamilyDefinition → SourceLifecycleIntent → String
family_name family intent = concat intent.work_item_id family.file_extension

abbrev pub not_active : WorkItemFamilyDefinition → SourceLifecycleIntent → QueueStoreError
not_active family intent =
    invalid_state
      (text (concat family.family_id (concat " " (concat intent.work_item_id " is not active"))))

active_is_not_target : (action : SourceLifecycleAction) → ItemState.active ≢ target_state action
active_is_not_target SourceLifecycleAction.complete h = ground arith
active_is_not_target SourceLifecycleAction.block h = ground arith
active_is_not_target SourceLifecycleAction.requeue h = ground arith

module _ (parts : WorkspaceParts) (root : String) (family : WorkItemFamilyDefinition)
    (intent : SourceLifecycleIntent) (content : String) (files : Files) where
  abbrev files_after : ItemState → Files
  files_after target =
      moved files (family_dir root family ItemState.active) (family_dir root family target)
        (family_name family intent)

  abbrev IsFree : ItemState → Type 0
  IsFree target = files (family_dir root family target) (family_name family intent) ≡ none

  abbrev IsActive : Type 0
  IsActive =
      files (family_dir root family ItemState.active) (family_name family intent) ≡ some content

  -- A move that finds the item active and its target free leaves the record to be written.
  moves_by :
      (action : SourceLifecycleAction)
      → IsActive
      → IsFree (target_state action)
      → move_by_action parts root family intent action files
        ≡ (record_move parts (family_dir root family (target_state action)) family intent action
              >>= λ _ t.
                  (ok (family_dir root family (target_state action), family_name family intent), t))
            (files_after (target_state action))
  unfolding move_by_action move_checked target_dir ◌>>=◌
  moves_by SourceLifecycleAction.complete here' free = rw (here', free) refl
  moves_by SourceLifecycleAction.block here' free = rw (here', free) refl
  moves_by SourceLifecycleAction.requeue here' free = rw (here', free) refl

  refuses_by :
      (action : SourceLifecycleAction)
      → files (family_dir root family ItemState.active) (family_name family intent) ≡ none
      → move_by_action parts root family intent action files
        ≡ (err (not_active family intent), files)
  unfolding move_by_action move_checked ◌>>=◌
  refuses_by action gone = rw gone refl

  module _ (apart : AreApart (family_dir root family))
      (stands : StandsAt files
        (family_dir root family)
        (family_name family intent)
        ItemState.active
        content) where
    after :
        (action : SourceLifecycleAction)
        → StandsAt
            (files_after (target_state action))
            (family_dir root family)
            (family_name family intent)
            (target_state action)
            content
    after action =
        moved-StandsAt (family_dir root family) apart (family_name family intent) content files
          ItemState.active (target_state action) stands (active_is_not_target action)

    free : (action : SourceLifecycleAction) → IsFree (target_state action)
    free action =
        stands.nowhere_else (target_state action) (λ e. active_is_not_target action (sym e))

    by_action :
        (action : SourceLifecycleAction)
        → log_name intent.work_item_id ≢ family_name family intent
        → HasReason action intent.reason
        → Moves
            (family_dir root family)
            (family_name family intent)
            content
            (move_by_action parts root family intent action)
            files
            (target_state action)
    unfolding record_move required_reason append_family_requeue_reason ◌>>=◌
    by_action SourceLifecycleAction.complete apart_log reason = (
      files_after ItemState.done,
      moves_by SourceLifecycleAction.complete stands.present (free SourceLifecycleAction.complete),
      after SourceLifecycleAction.complete,
    )
    by_action SourceLifecycleAction.block apart_log reason = (
      files_after ItemState.blocked,
      moves_by SourceLifecycleAction.block stands.present (free SourceLifecycleAction.block),
      after SourceLifecycleAction.block,
    )
    by_action SourceLifecycleAction.requeue apart_log (reason, given, filled) = (
      appended (files_after ItemState.queued) (family_dir root family ItemState.queued)
          (log_name intent.work_item_id) (parts.record_line family.family_id (trim (trim reason))),
      moves_by SourceLifecycleAction.requeue stands.present (free SourceLifecycleAction.requeue)
          ∙ rw (given, filled, ap is_blank (trim_idem reason) ∙ filled) refl,
      appended-StandsAt (family_dir root family) apart (family_name family intent) content
          (files_after ItemState.queued) (family_dir root family ItemState.queued)
          (log_name intent.work_item_id) (parts.record_line family.family_id (trim (trim reason)))
          ItemState.queued apart_log (after SourceLifecycleAction.requeue),
    )

-- An intent for an active item of a compiled family succeeds, and its document then stands, unchanged,
-- in the directory of the state that the action leads to, and in no other of the family. The family's
-- directories differ, its documents are not named like the log of requeues, and a requeue gives a
-- reason.
pub move_generic-StandsAt :
    (parts : WorkspaceParts) (root : String) (family : WorkItemFamilyDefinition)
    (intent : SourceLifecycleIntent) (content : String) (files : Files)
    → AreApart (family_dir root family)
    → log_name intent.work_item_id ≢ family_name family intent
    → HasReason intent.action intent.reason
    → StandsAt files (family_dir root family) (family_name family intent) ItemState.active content
    → Moves
        (family_dir root family)
        (family_name family intent)
        content
        (move_generic_active_family parts root family intent)
        files
        (target_state intent.action)
unfolding move_generic_active_family
move_generic-StandsAt parts root family intent content files apart apart_log reason stands =
    by_action parts root family intent content files apart stands intent.action apart_log reason

-- An intent for an item of a compiled family that stands in another state than active, as it does once it
-- was moved, reports that the item is not active, and changes no file.
pub move_generic_once :
    (parts : WorkspaceParts) (root : String) (family : WorkItemFamilyDefinition)
    (intent : SourceLifecycleIntent) (content : String) (files : Files) (state : ItemState)
    → StandsAt files (family_dir root family) (family_name family intent) state content
    → state ≢ ItemState.active
    → move_generic_active_family parts root family intent files
      ≡ (err (not_active family intent), files)
unfolding move_generic_active_family
move_generic_once parts root family intent content files state stands elsewhere =
    refuses_by parts root family intent content files intent.action
      (stands.nowhere_else ItemState.active (λ e. elsewhere (sym e)))

-- A requeue of an active item of a compiled family that gives no reason reports an error, but the item is
-- queued all the same: the reason is asked for after the document was moved.
pub requeue_without_reason-moves :
    (parts : WorkspaceParts) (root : String) (family : WorkItemFamilyDefinition)
    (intent : SourceLifecycleIntent) (content : String) (files : Files)
    → AreApart (family_dir root family)
    → intent.action ≡ SourceLifecycleAction.requeue
    → intent.reason ≡ none
    → StandsAt files (family_dir root family) (family_name family intent) ItemState.active content
    → (files' : Files) × (move_generic_active_family parts root family intent files
        ≡ (err (invalid_state (text "requeue reason is required")), files'))
      × StandsAt files'
          (family_dir root family)
          (family_name family intent)
          ItemState.queued
          content
unfolding move_generic_active_family record_move required_reason ◌>>=◌
requeue_without_reason-moves parts root family intent content files apart requeues no_reason
      stands =
    (
      files_after parts root family intent content files ItemState.queued,
      ap (λ action. move_by_action parts root family intent action files) requeues
          ∙ (moves_by parts root family intent content files SourceLifecycleAction.requeue
                stands.present
                (free parts root family intent content files apart stands
                  SourceLifecycleAction.requeue)
              ∙ rw no_reason refl),
      after parts root family intent content files apart stands SourceLifecycleAction.requeue,
    )
