-- ===== src/Workspace/Claims/EnqueueClaim.antt =====
-- Enqueuing a task and claiming one: the two operations together.
use Prim.Native.Char.{Char}
use millrace_rs.Base.{
  String, ◌==◌, eq_iff, ◌≡◌, ◌≢◌, refl, sym, ap, ◌∙◌, ◌⊎◌, inl, inr, suc, ◌+◌, Bool-cases, true,
  false, Option, is_some, none, some, [], ok, err, arith,
}
use millrace_rs.Base.Oldest.{pair_lt}
use millrace_rs.Base.Text.{concat, is_blank}
use millrace_rs.Contracts.Enums.{WorkItemKind}
use millrace_rs.Workspace.Files.{Files, QueueStoreError}
use millrace_rs.Workspace.Queue.{WorkspacePaths, document_name}
use millrace_rs.Workspace.Queue.Moves.{ItemState, queued, AreApart, StandsAt}
use millrace_rs.Workspace.QueueLifecycle.Builtin.{dirs_of}
use millrace_rs.Workspace.Claims.{Host}
use millrace_rs.Workspace.Claims.Documents.{Codecs, TaskDocument}
use millrace_rs.Workspace.Claims.Listing.{size, size-concat, markdown_stem, append_nil, append_cons}
use millrace_rs.Workspace.Claims.Claim.{QueueClaim, returns, undisturbed, claim_next_execution_task}
use millrace_rs.Workspace.Claims.Enqueue.{enqueue_task}
use millrace_rs.Workspace.Claims.Enqueued.{enqueue-StandsAt}

-- The task is valid, its id was in none of the four directories, and it now stands in the queue and nowhere else; or an
-- error is reported, as the task is not valid or its id stands in one of them, and no file has changed.
abbrev pub EnqueuesTask : Codecs → WorkspacePaths → Files → TaskDocument → Type 0
EnqueuesTask codecs paths files task =
    ((files' : Files) × (enqueue_task codecs paths task files
        ≡ (ok (paths.tasks_queue_dir, document_name task.task_id), files'))
      × (codecs.task.validate task ≡ ok tt)
      × ((s : ItemState)
          → files (dirs_of paths WorkItemKind.task s) (document_name task.task_id) ≡ none)
      × StandsAt files' (dirs_of paths WorkItemKind.task) (document_name task.task_id) queued
          (codecs.task.render task))
    ⊎ ((e : QueueStoreError) × (enqueue_task codecs paths task files ≡ (err e, files))
        × (((source : String) × (codecs.task.validate task ≡ err source))
            ⊎ ((s : ItemState) × (is_some
                    (files (dirs_of paths WorkItemKind.task s) (document_name task.task_id))
                  ≡ true))))

-- Enqueuing a task either finds it valid and its id in none of the four directories, and it then stands in the queue and
-- nowhere else; or it reports an error and no file has changed, and then the task is not valid or its id stands in one of
-- them. The four directories differ.
pub enqueue_task-StandsAt :
    (codecs : Codecs) (paths : WorkspacePaths) (files : Files) (task : TaskDocument)
    → AreApart (dirs_of paths WorkItemKind.task)
    → EnqueuesTask codecs paths files task
unfolding enqueue_task
enqueue_task-StandsAt codecs paths files task apart =
    enqueue-StandsAt codecs.task (λ d. d.task_id) WorkItemKind.task
      (dirs_of paths WorkItemKind.task) apart files task

ends_longer : (c : Char) (s : String) → concat (String.◌∷◌ c s) ".md" ≢ ".md"
unfolding size
ends_longer c s e =
    let longer : suc (size s) + 3 ≡ 3 = sym (size-concat (String.◌∷◌ c s) ".md") ∙ ap size e in
    omega arith

-- The stem of a document's name is its id.
pub markdown_stem-document :
    (item_id : String)
    → is_blank item_id ≡ false
    → markdown_stem (document_name item_id) ≡ some item_id
unfolding markdown_stem
markdown_stem-document String.[] h = absurd (ground arith)
markdown_stem-document (String.◌∷◌ c String.[]) h =
    ap markdown_stem (append_cons c String.[] ".md" ∙ ap (String.◌∷◌ c) (append_nil ".md")) ∙ refl
markdown_stem-document (String.◌∷◌ c (String.◌∷◌ d s)) h =
    let rest = markdown_stem-document (String.◌∷◌ d s) refl in
    let apart : (concat (String.◌∷◌ d s) ".md" == ".md") ≡ false = differs (ends_longer d s) in
    ap markdown_stem (append_cons c (String.◌∷◌ d s) ".md") ∙ rw (apart, rest) refl
  where
    differs : {a b : String} → a ≢ b → (a == b) ≡ false
    differs {a} {b} n = elim (Bool-cases (a == b)) [
      | inl e ↦ absurd (n ((eq_iff a b).0 e))
      | inr e ↦ e
    ]

-- The next claim with which nothing interferes returns a task, and not one that comes after the given one by its time of
-- creation and its id.
abbrev pub ServesInTurn :
    Host → Codecs → WorkspacePaths → Option String → Files → TaskDocument → Type 0
ServesInTurn host codecs paths root_spec_id files task =
    (claim : QueueClaim) × (files' : Files) × (other : TaskDocument) × (claim_next_execution_task
        host codecs paths root_spec_id undisturbed files
      ≡ (ok (returns (some claim)), files'))
    × (claim.work_item_id ≡ other.task_id)
    × (pair_lt (task.created_at, task.task_id) (other.created_at, other.task_id) ≡ false)
