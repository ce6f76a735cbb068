-- ===== src/Workspace/Claims/OldestTask.antt =====
-- The claim of the oldest eligible task, and the number of active tasks.
use millrace_rs.Base.{
  String, ◌==◌, eq_iff, ◌≡◌, ◌≢◌, refl, sym, ap, ◌∙◌, ◌⊎◌, inl, inr, Bool-cases, true, false,
  Option, Option-cases, none, some, is_some, List, [], ◌∷◌, Has, length, ltb, Has-filter, ok, arith,
}
use millrace_rs.Base.Sort.{Has-sort_by}
use millrace_rs.Contracts.Enums.{WorkItemKind}
use millrace_rs.Workspace.Files.{
  Files, ◌>>=◌, moved, write, write-here, write-other_dir, write-other_name,
}
use millrace_rs.Workspace.Queue.{WorkspacePaths}
use millrace_rs.Workspace.Claims.{Host, HostLaws, ListsAll}
use millrace_rs.Workspace.Claims.Documents.{Codecs, TaskDocument}
use millrace_rs.Workspace.Claims.Listing.{
  markdown_stem, is_markdown, list_markdown_files, ids_in_directory,
}
use millrace_rs.Workspace.Claims.Select.{
  comes_before, select_oldest_eligible_task, is_eligible_task,
}
use millrace_rs.Workspace.Claims.Selected.{Shrinks}
use millrace_rs.Workspace.Claims.Found.{listed}
use millrace_rs.Workspace.Claims.Claim.{
  Chosen, returns, claim_of, rounds, undisturbed, unless_active, select_task,
  claim_next_execution_task,
}
use millrace_rs.Workspace.Claims.Returns.{ids_in_directory-ok}
use millrace_rs.Workspace.Claims.Claimed.{
  IsWaiting, choice, IsOldestClaim, none_waits, oldest_claimed, claim_once-IsOldestClaim,
}

-- After a move, the file is in the other directory, and the files of other names there are as before.
moved-there :
    (files : Files) (source target name : String)
    → moved files source target name target name ≡ files source name
unfolding moved
moved-there files source target name =
    write-here (write files source name none) target name (files source name)

moved-gone :
    (files : Files) (source target name : String)
    → source ≢ target
    → moved files source target name source name ≡ none
unfolding moved
moved-gone files source target name apart =
    write-other_dir (write files source name none) target name source name (files source name)
      (λ e. apart (sym e))
    ∙ write-here files source name none

moved-beside :
    (files : Files) (source target name other : String)
    → name ≢ other
    → moved files source target name target other ≡ files target other
unfolding moved
moved-beside files source target name other apart =
    write-other_name (write files source name none) target name target other (files source name)
      apart
    ∙ write-other_name files source name target other none apart

module _ (host : Host) (codecs : Codecs) (paths : WorkspacePaths) (root_spec_id : Option String)
    (laws : HostLaws host) (completed_task_ids : List String) where
  -- The queued file of the name holds the task, and the task is eligible.
  abbrev pub WaitingTask : Files → String → TaskDocument → Type 0
  WaitingTask =
      IsWaiting host codecs.task.parse (λ d. d.task_id) (λ d. d.created_at) "task_id"
        (is_eligible_task root_spec_id completed_task_ids) paths.tasks_queue_dir
        paths.tasks_active_dir "queue" "execution.default" WorkItemKind.task 0 laws

  abbrev pub task_choice : String → TaskDocument → Chosen
  task_choice =
      choice host codecs.task.parse (λ d. d.task_id) (λ d. d.created_at) "task_id"
        (is_eligible_task root_spec_id completed_task_ids) paths.tasks_queue_dir
        paths.tasks_active_dir "queue" "execution.default" WorkItemKind.task 0 laws

  abbrev IsTaskClaim : Files → Type 0
  IsTaskClaim =
      IsOldestClaim host codecs.task.parse (λ d. d.task_id) (λ d. d.created_at) "task_id"
        (is_eligible_task root_spec_id completed_task_ids) paths.tasks_queue_dir
        paths.tasks_active_dir "queue" "execution.default" WorkItemKind.task 0 laws

  task_claim : (files : Files) → ListsAll host files paths.tasks_queue_dir → IsTaskClaim files
  task_claim =
      claim_once-IsOldestClaim host codecs.task.parse (λ d. d.task_id) (λ d. d.created_at) "task_id"
        (is_eligible_task root_spec_id completed_task_ids) paths.tasks_queue_dir
        paths.tasks_active_dir "queue" "execution.default" WorkItemKind.task 0 laws

  -- Nothing is claimed as no queued task is eligible; or an eligible task, before which no other comes, is claimed, and
  -- its file is moved.
  abbrev pub ClaimsOldest : Files → Type 0
  ClaimsOldest files =
      (((n : String) (task : TaskDocument) → WaitingTask files n task → ⊥)
        × (files' : Files) × (claim_next_execution_task host codecs paths root_spec_id undisturbed
              files
            ≡ (ok (returns none), files')))
      ⊎ ((n : String) × (task : TaskDocument) × (files' : Files) × WaitingTask files n task
          × ((m : String) (other : TaskDocument)
              → WaitingTask files m other
              → comes_before
                  (record { created_at = other.created_at; item_id = other.task_id; name = m })
                  (record { created_at = task.created_at; item_id = task.task_id; name = n })
                ≡ false)
          × (claim_next_execution_task host codecs paths root_spec_id undisturbed files
              ≡ (ok (returns (some (claim_of (task_choice n task)))), files'))
          × (files' paths.tasks_active_dir n ≡ files paths.tasks_queue_dir n)
          × (files' paths.tasks_queue_dir n ≡ none))

  -- With no active task, and nothing that interferes, a claim of a task returns none only if no queued task is eligible.
  -- Else it claims an eligible task before which no other comes by its time of creation and its id, whose
  -- file then is in the directory of active tasks and no more in the queue.
  pub claim_next_execution_task-oldest :
      (files : Files)
      → ids_in_directory host paths.tasks_done_dir files ≡ (ok completed_task_ids, files)
      → ListsAll host files paths.tasks_queue_dir
      → listed host paths.tasks_active_dir files ≡ []
      → paths.tasks_queue_dir ≢ paths.tasks_active_dir
      → ClaimsOldest files
  unfolding claim_next_execution_task unless_active rounds select_task select_oldest_eligible_task
      list_markdown_files ◌>>=◌
  claim_next_execution_task-oldest files ids all idle apart = elim (task_claim files all) [
    | none_waits files' never e s ↦ inl (never, files', rw (idle, ids) e)
    | oldest_claimed selected n task h least same s e ↦ inr (
      n,
      task,
      moved selected paths.tasks_queue_dir paths.tasks_active_dir n,
      h,
      least,
      rw (idle, ids) e,
      moved-there selected paths.tasks_queue_dir paths.tasks_active_dir n ∙ same,
      moved-gone selected paths.tasks_queue_dir paths.tasks_active_dir n apart,
    )
  ]

-- At most one Markdown file is in the directory.
abbrev pub AtMostOneActive : String → Files → Type 0
AtMostOneActive directory files =
    (a b s t : String)
    → markdown_stem a ≡ some s
    → markdown_stem b ≡ some t
    → is_some (files directory a) ≡ true
    → is_some (files directory b) ≡ true
    → a ≡ b

-- A directory whose complete listing has no Markdown file has none.
empty-none :
    (host : Host) (files : Files) (directory n s : String)
    → ListsAll host files directory
    → listed host directory files ≡ []
    → markdown_stem n ≡ some s
    → files directory n ≡ none
unfolding ListsAll
empty-none host files directory n s all idle m = elim (Option-cases (files directory n)) [
  | inl e ↦ e
  | inr (content, e) ↦
      let h : Has n (listed host directory files) =
        Has-sort_by (λ name. name) n _
          (Has-filter is_markdown (host.read_dir files directory) n (all n content e)
            (ap is_some m)) in
      nothing_in (listed host directory files) idle h
]
  where
    nothing_in : {A : Type 0} (xs : List String) → xs ≡ [] → Has n xs → A
    nothing_in [] e h = elim h [ ]
    nothing_in (x ∷ xs) e h = absurd (ground arith)

only_one :
    (directory : String) (files : Files) (n : String)
    → ((m s : String) → markdown_stem m ≡ some s → n ≢ m → files directory m ≡ none)
    → AtMostOneActive directory files
only_one directory files n others a b s t ma mb ha hb = sym (it a s ma ha) ∙ it b t mb hb
  where
    it : (m s : String) → markdown_stem m ≡ some s → is_some (files directory m) ≡ true → n ≡ m
    it m s e h = elim (Bool-cases (n == m)) [
      | inl k ↦ (eq_iff n m).0 k
      | inr k ↦
          let gone : files directory m ≡ none =
            others m s e (λ same. let r = (eq_iff n m).1 same in ground arith) in
          absurd (ground arith)
    ]

is_idle : (xs : List String) → ltb 0 (length xs) ≡ false → xs ≡ []
is_idle [] h = refl
is_idle (x ∷ xs) h = absurd (ground arith)

-- A claim of a task with which nothing interferes keeps it so that at most one task is active.
pub claim_next_execution_task-AtMostOneActive :
    (host : Host) (codecs : Codecs) (paths : WorkspacePaths) (root_spec_id : Option String)
    (files : Files)
    → HostLaws host
    → ListsAll host files paths.tasks_queue_dir
    → ListsAll host files paths.tasks_active_dir
    → paths.tasks_queue_dir ≢ paths.tasks_active_dir
    → AtMostOneActive paths.tasks_active_dir files
    → AtMostOneActive paths.tasks_active_dir
        (claim_next_execution_task host codecs paths root_spec_id undisturbed files).1
unfolding claim_next_execution_task unless_active rounds select_task select_oldest_eligible_task
    list_markdown_files ◌>>=◌
claim_next_execution_task-AtMostOneActive host codecs paths root_spec_id files laws queued active
      apart one =
    elim (Bool-cases (ltb 1 (length names))) [
      | inl e ↦ rw e one
      | inr e ↦ elim (Bool-cases (ltb 0 (length names))) [
        | inl k ↦ rw (e, k) one
        | inr k ↦
            let (ids, i) = ids_in_directory-ok host paths.tasks_done_dir files in
            elim (task_claim host codecs paths root_spec_id laws ids files queued) [
              | none_waits files' never c s ↦
                  rw (e, k, i, c)
                    (only_one paths.tasks_active_dir files' ""
                      (λ m stem md _. idle files' s m stem md (is_idle names k)))
              | oldest_claimed selected n task h least same s c ↦
                  rw (e, k, i, c)
                    (only_one paths.tasks_active_dir
                      (moved selected paths.tasks_queue_dir paths.tasks_active_dir n) n
                      (λ m stem md differ.
                        moved-beside selected paths.tasks_queue_dir paths.tasks_active_dir n m
                          differ
                        ∙ idle selected s m stem md (is_idle names k)))
            ]
      ]
    ]
  where
    names : List String
    names = listed host paths.tasks_active_dir files

    idle :
        (files' : Files)
        → Shrinks paths.tasks_queue_dir files files'
        → (m stem : String) → markdown_stem m ≡ some stem
        → names ≡ []
        → files' paths.tasks_active_dir m ≡ none
    idle files' s m stem md none_active = elim (s paths.tasks_active_dir m stem md) [
      | inl e ↦ e ∙ empty-none host files paths.tasks_active_dir m stem active none_active md
      | inr (e, _) ↦ absurd (apart (sym e))
    ]
