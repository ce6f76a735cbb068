-- ===== src/Workspace/Interventions/Superseded.antt =====
-- When a task is superseded and its dependents are retargeted, no queued task depends on it any more.
use millrace_rs.Base.{
  String, ◌==◌, eq_iff, ◌≡◌, ◌≢◌, refl, sym, ap, ◌∙◌, inl, inr, Bool, Bool-cases, true, false,
  Option, none, some, List, [], ◌∷◌, any, map, Has, here, there, Has-cons, Has-append_left,
  Has-append_right, Result, to_option, ok, err, arith,
}
use millrace_rs.Workspace.Files.{
  Files, FileStep, QueueStoreError, write, write-here, write-other_name,
}
use millrace_rs.Workspace.Files.Steps.{bind-ok}
use millrace_rs.Workspace.Queue.{WorkspacePaths, document_name}
use millrace_rs.Workspace.Claims.{Host}
use millrace_rs.Workspace.Claims.Documents.{Codecs, TaskDocument}
use millrace_rs.Workspace.Claims.Listing.{is_markdown, markdown_stem}
use millrace_rs.Workspace.Claims.Select.{path_text}
use millrace_rs.Workspace.Interventions.{
  OperatorInterventionContext, OperatorInterventionResult, Clerk,
}
use millrace_rs.Workspace.Interventions.Retargeted.{Rewrites, retarget-Rewrites, retargeted-none}
use millrace_rs.Workspace.Interventions.Tasks.{
  QueuedDependent, queued_task, parsed, dependent_of, dependents_among, retarget_document,
  retarget_queued_task_dependency, for_each,
}

module _ (host : Host) (codecs : Codecs) (clerk : Clerk) (paths : WorkspacePaths) where
  -- A task that was read is read back with its dependency changed.
  abbrev pub Rereads : String → String → Type 0
  Rereads old_id new_id =
      (raw path : String) (task : TaskDocument) (times : String × String)
      → codecs.task.parse raw path ≡ ok task
      → codecs.task.parse
          (codecs.task.render (retarget_document host codecs clerk paths old_id new_id times task))
          path
        ≡ ok (retarget_document host codecs clerk paths old_id new_id times task)

  -- Every queued task that depends on another is among some files.
  unfoldable pub Waits : String → Files → List String → Type 0
  Waits old_id files names =
      (name : String) (task : TaskDocument)
      → is_markdown name ≡ true
      → queued_task host codecs clerk paths files name ≡ some task
      → any (λ d. d == old_id) task.depends_on ≡ true
      → Has name names

  pub markdown-ne :
      (other name : String) → is_markdown name ≡ true → is_markdown other ≡ false → other ≢ name
  markdown-ne other name h k e =
      absurd (let m : is_markdown other ≡ is_markdown name = ap is_markdown e in ground arith)

  some_ok :
      (r : Result String TaskDocument) (task : TaskDocument) → to_option r ≡ some task → r ≡ ok task
  some_ok (ok t) task h = ground arith
  some_ok (err e) task h = absurd (ground arith)

  pub queued_raw :
      (files : Files) (name : String) (task : TaskDocument)
      → queued_task host codecs clerk paths files name ≡ some task
      → (raw : String) × (files paths.tasks_queue_dir name ≡ some raw)
        × (codecs.task.parse raw (path_text paths.tasks_queue_dir name) ≡ ok task)
  unfolding queued_task
  queued_raw files name task h = on (files paths.tasks_queue_dir name) refl h
    where
      on :
          (o : Option String)
          → files paths.tasks_queue_dir name ≡ o
          → parsed host codecs clerk paths name o ≡ some task
          → (raw : String) × (files paths.tasks_queue_dir name ≡ some raw)
            × (codecs.task.parse raw (path_text paths.tasks_queue_dir name) ≡ ok task)
      on none e k = absurd (ground arith)
      on (some raw) e k = (raw, e, some_ok _ task k)

  depends_of : String → Option TaskDocument → Bool
  depends_of old_id none = false
  depends_of old_id (some task) = any (λ x. x == old_id) task.depends_on

  -- One task less depends on the old one.
  retarget-Waits :
      (task_id old_id new_id : String) (names : List String) (files files' : Files)
      → (old_id == new_id) ≡ false
      → Rereads old_id new_id
      → Rewrites host codecs clerk paths task_id old_id new_id files files'
      → Waits old_id files (document_name task_id ∷ names)
      → Waits old_id files' names
  unfolding Waits queued_task retarget_document depends_of markdown_stem
  retarget-Waits task_id old_id new_id names files files' apart reread w waits name task md q d =
      elim (Bool-cases (document_name task_id == name)) [
        | inl e ↦ absurd (rewritten_one ((eq_iff (document_name task_id) name).0 e))
        | inr e ↦
            let other : document_name task_id ≢ name =
              λ k. let j = (eq_iff (document_name task_id) name).1 k in ground arith in
            let kept : files' paths.tasks_queue_dir name ≡ files paths.tasks_queue_dir name =
              same
              ∙ write-other_name files paths.tasks_queue_dir (document_name task_id)
                  paths.tasks_queue_dir name _ other in
            elim (Has-cons name (document_name task_id) names
              (waits name task md (rw kept at q) d)) [ inl k ↦ absurd (other (sym k)) | inr n ↦ n ]
      ]
    where
      new_task : TaskDocument
      new_task = retarget_document host codecs clerk paths old_id new_id w.times w.task

      same :
          files' paths.tasks_queue_dir name
          ≡ write files paths.tasks_queue_dir
              (document_name task_id)
              (some (codecs.task.render new_task))
              paths.tasks_queue_dir
              name
      same =
          w.rewritten paths.tasks_queue_dir name (markdown-ne "interventions.jsonl" name md refl)
            (markdown-ne "runtime_events.jsonl" name md refl)

      rewritten_one : document_name task_id ≡ name → ⊥
      rewritten_one e =
          let (raw, _, p) = queued_raw files (document_name task_id) w.task w.was in
          let now : files' paths.tasks_queue_dir name ≡ some (codecs.task.render new_task) =
            same
            ∙ (rw (← e) (
                write-here files paths.tasks_queue_dir (document_name task_id)
                  (some (codecs.task.render new_task)))) in
          let again : codecs.task.parse (codecs.task.render new_task)
                (path_text paths.tasks_queue_dir name)
              ≡ ok new_task =
            reread raw (path_text paths.tasks_queue_dir name) w.task w.times (rw e at p) in
          let is_new : some new_task ≡ some task = (ap to_option (sym again)) ∙ (rw now at q) in
          let none_left = retargeted-none old_id new_id w.task.depends_on apart in
          let still : any (λ x. x == old_id) new_task.depends_on ≡ true =
            ap (depends_of old_id) is_new ∙ d in
          ground (arith, none_left, still)

  abbrev pub retargets :
      String
      → String
      → String
      → OperatorInterventionContext
      → String
      → FileStep OperatorInterventionResult
  retargets old_id new_id reason context task_id =
      retarget_queued_task_dependency host codecs clerk paths task_id old_id new_id reason context

  abbrev pub names_of : List QueuedDependent → List String
  names_of = map (λ d. document_name d.task_id)

  -- The loop over the dependents leaves none.
  pub for_each-Waits :
      (old_id new_id reason : String) (context : OperatorInterventionContext)
      (dependents : List QueuedDependent) (files files' : Files)
      → (old_id == new_id) ≡ false
      → Rereads old_id new_id
      → for_each host codecs clerk paths (retargets old_id new_id reason context) dependents files
        ≡ (ok tt, files')
      → Waits old_id files (names_of dependents)
      → Waits old_id files' []
  unfolding for_each
  for_each-Waits old_id new_id reason context [] files files' apart reread h w =
      rw (ap (λ (x : Result QueueStoreError (Unit {0}) × Files). x.1) h) at w
  for_each-Waits old_id new_id reason context (d ∷ dependents) files files' apart reread h w =
      let (r, between, e, k) =
        bind-ok (retargets old_id new_id reason context d.task_id) _ files files' tt h in
      for_each-Waits old_id new_id reason context dependents between files' apart reread k (
        retarget-Waits d.task_id old_id new_id (names_of dependents) files between apart reread
          (retarget-Rewrites host codecs clerk paths d.task_id old_id new_id reason context files
            between r e)
          w)

  pub Has-names_of :
      (d : QueuedDependent) (dependents : List QueuedDependent)
      → Has d dependents
      → Has (document_name d.task_id) (names_of dependents)
  Has-names_of d [] h = elim h [ ]
  Has-names_of d (x ∷ dependents) h = elim (Has-cons d x dependents h) [
    | inl e ↦ rw e here
    | inr n ↦ there (Has-names_of d dependents n)
  ]

  pub dependents-Has :
      (old_id : String) (files : Files) (names : List String) (name : String) (task : TaskDocument)
      → Has name names
      → queued_task host codecs clerk paths files name ≡ some task
      → any (λ d. d == old_id) task.depends_on ≡ true
      → Has
          (record { task_id = task.task_id; name = name })
          (dependents_among host codecs clerk paths files old_id names)
  unfolding dependents_among
  dependents-Has old_id files [] name task h q d = elim h [ ]
  dependents-Has old_id files (x ∷ names) name task h q d = elim (Has-cons name x names h) [
    | inl e ↦
        Has-append_left
          (dependent_of host codecs clerk paths old_id x
            (queued_task host codecs clerk paths files x))
          _ _ (rw (← e, q, d) here)
    | inr n ↦
        Has-append_right
          (dependent_of host codecs clerk paths old_id x
            (queued_task host codecs clerk paths files x))
          _ _ (dependents-Has old_id files names name task n q d)
  ]
