-- ===== src/Runtime/BlockedRecovery/Budget.antt =====
-- Automatic retries of a task come to an end: each is counted in the task's log, and there are at most as many as the
-- budget allows.
use millrace_rs.Base.{
  String, ◌≡◌, ◌≢◌, refl, sym, ap, subst, ◌∙◌, inl, inr, ℕ, suc, ◌+◌, ◌≤◌, ◌<◌, Bool, Bool-cases,
  true, false, not, none, some, Option, unwrap_or, List, [], ◌∷◌, ◌++◌, length, filter, leb, ok,
  arith,
}
use millrace_rs.Base.Text.{concat, trim, is_blank, all_chars}
use millrace_rs.Base.TextLines.{
  lines, ends_line, is_printable, lines-append, lines-line, ends_line-append,
}
use millrace_rs.Workspace.Files.{Files}
use millrace_rs.Workspace.Queue.{WorkspacePaths, log_name}
use millrace_rs.Workspace.Claims.{Host}
use millrace_rs.Runtime.BlockedRecovery.{
  Journal, RetryBlockedTaskRequest, BlockedTaskRequeueResult, counts, count_in, count_auto_requeues,
}
use millrace_rs.Runtime.BlockedRecovery.Retry.{retry_blocked_task}
use millrace_rs.Runtime.BlockedRecovery.Requeued.{retry-eq-ok}

-- The record of an automatic requeue is one line of JSON that is read back as such.
pub record JournalLaws (journal : Journal) : Type 0 where
  pub one_line :
      (request : RetryBlockedTaskRequest) (failure_class : Option String) (attempt : ℕ)
      → all_chars is_printable (journal.requeue_record request failure_class attempt) ≡ true
  pub not_blank :
      (request : RetryBlockedTaskRequest) (failure_class : Option String) (attempt : ℕ)
      → is_blank (trim (journal.requeue_record request failure_class attempt)) ≡ false
  pub read_back :
      (request : RetryBlockedTaskRequest) (failure_class : Option String) (attempt : ℕ)
      → journal.is_auto_record (journal.requeue_record request failure_class attempt) ≡ request.auto

length-filter_append :
    (p : String → Bool) (xs ys : List String)
    → length (filter p (xs ++ ys)) ≡ length (filter p xs) + length (filter p ys)
unfolding filter
length-filter_append p [] ys = omega arith
length-filter_append p (x ∷ xs) ys = elim (Bool-cases (p x)) [
  | inl e ↦ rw (e, length-filter_append p xs ys) (omega arith)
  | inr e ↦ rw (e, length-filter_append p xs ys) refl
]

module _ (journal : Journal) (paths : WorkspacePaths) (laws : JournalLaws journal) where
  counted_line :
      (line : String)
      → is_blank (trim line) ≡ false
      → journal.is_auto_record line ≡ true
      → length (filter (counts journal paths) (line ∷ [])) ≡ 1
  unfolding filter
  counted_line line b a = rw (b, a) refl

  count_in-eq :
      (log : Option String)
      → count_in journal paths log
        ≡ length (filter (counts journal paths) (lines (unwrap_or log "")))
  unfolding filter lines
  count_in-eq none = refl
  count_in-eq (some raw) = refl

  -- The log is missing or ends with a line's end.
  abbrev pub IsWholeLog : Option String → Type 0
  IsWholeLog log = ends_line (unwrap_or log "") ≡ true

  -- A record that is appended to a whole log is counted.
  count-append :
      (log : Option String) (request : RetryBlockedTaskRequest) (failure_class : Option String)
      (attempt : ℕ)
      → IsWholeLog log
      → request.auto ≡ true
      → count_in journal paths (
          some (
            concat
              (unwrap_or log "")
              (concat (journal.requeue_record request failure_class attempt) "\n")))
        ≡ count_in journal paths log + 1
  count-append log request failure_class attempt whole auto =
      rw
        (
          lines-append (unwrap_or log "") (concat line "\n") whole,
          lines-line line (laws.one_line request failure_class attempt),
          length-filter_append (counts journal paths) (lines (unwrap_or log "")) (line ∷ []),
        )
        (ap (λ n. n + length (filter (counts journal paths) (line ∷ []))) (sym (count_in-eq log))
          ∙ ap (λ n. count_in journal paths log + n) one_counted)
    where
      line : String
      line = journal.requeue_record request failure_class attempt

      one_counted : length (filter (counts journal paths) (line ∷ [])) ≡ 1
      one_counted =
          counted_line line (laws.not_blank request failure_class attempt)
            (laws.read_back request failure_class attempt ∙ auto)

module _ (host : Host) (journal : Journal) (paths : WorkspacePaths) (task_id : String)
    (max : ℕ) where
  abbrev log_of : Files → Option String
  log_of files = files paths.tasks_queue_dir (log_name task_id)

  -- What happens between two states of the files, with the number of automatic retries of the task that succeed: such
  -- a retry, which is not forced, or anything that leaves the task's log in the queue as it is.
  pub data Retries (start : Files) : Files → ℕ → Type 0 where
    begin : Retries start start 0
    retried :
        {files files' : Files} {n : ℕ} (request : RetryBlockedTaskRequest)
        (result : BlockedTaskRequeueResult)
        → Retries start files n
        → request.task_id ≡ task_id
        → request.auto ≡ true
        → request.force ≡ false
        → request.max_auto_requeues_per_work_item ≡ some max
        → retry_blocked_task host journal paths request files ≡ (ok result, files')
        → Retries start files' (suc n)
    elsewhere :
        {files files' : Files} {n : ℕ}
        → Retries start files n
        → log_of files' ≡ log_of files
        → Retries start files' n

module _ (host : Host) (journal : Journal) (paths : WorkspacePaths) (laws : JournalLaws journal)
    (state_apart : paths.state_dir ≢ paths.tasks_queue_dir)
    (logs_apart : paths.logs_dir ≢ paths.tasks_queue_dir) where
  -- An automatic retry that succeeds is counted, and its task was within the budget.
  Counted : String → ℕ → Files → Files → Type 0
  Counted task_id max files files' =
      (count_auto_requeues journal paths task_id files'
        ≡ count_auto_requeues journal paths task_id files + 1)
      × (count_auto_requeues journal paths task_id files < max)
      × IsWholeLog journal paths laws (files' paths.tasks_queue_dir (log_name task_id))

  retried-count :
      (files files' : Files) (request : RetryBlockedTaskRequest) (result : BlockedTaskRequeueResult)
      (max : ℕ)
      → IsWholeLog journal paths laws (files paths.tasks_queue_dir (log_name request.task_id))
      → request.auto ≡ true
      → request.force ≡ false
      → request.max_auto_requeues_per_work_item ≡ some max
      → retry_blocked_task host journal paths request files ≡ (ok result, files')
      → Counted request.task_id max files files'
  unfolding count_auto_requeues Counted
  retried-count files files' request result max whole auto free limit h =
      let (granted, g, log) =
        retry-eq-ok host journal paths request files files' result state_apart logs_apart h in
      let w = g.within in
      (
        rw log (
            count-append journal paths laws (files paths.tasks_queue_dir (log_name request.task_id))
              request granted.failure_class granted.attempt_number whole auto),
        below (rw (free, limit) at w),
        rw log (ends_line-append _ _),
      )
    where
      below : {n : ℕ} → not (leb max n) ≡ true → n < max
      below {n} t = ground arith

  Spent : String → ℕ → Files → Files → ℕ → Type 0
  Spent task_id max start files n =
      IsWholeLog journal paths laws (files paths.tasks_queue_dir (log_name task_id))
      × (count_auto_requeues journal paths task_id files
          ≡ count_auto_requeues journal paths task_id start + n)
      × (count_auto_requeues journal paths task_id files ≤ max)

  spent :
      (task_id : String) (max : ℕ) (start files : Files) (n : ℕ)
      → IsWholeLog journal paths laws (start paths.tasks_queue_dir (log_name task_id))
      → count_auto_requeues journal paths task_id start ≤ max
      → Retries host journal paths task_id max start files n
      → Spent task_id max start files n
  unfolding Spent Counted count_auto_requeues
  spent task_id max start _ _ whole few begin = (whole, omega arith, few)
  spent task_id max start _ _ whole few
        (retried {files} {files'} {n} request result before id auto free limit h) =
      let (w, e, l) = spent task_id max start files n whole few before in
      let counted : Counted task_id max files files' =
        subst (λ id. Counted id max files files') id
          (retried-count files files' request result max (rw id w) auto free limit h) in
      let (f, below, k) = counted in (k, omega arith, omega arith)
  spent task_id max start _ _ whole few (elsewhere {files} {files'} {n} before same) =
      let (w, e, l) = spent task_id max start files n whole few before in
      let f : count_auto_requeues journal paths task_id files'
          ≡ count_auto_requeues journal paths task_id files =
        ap (count_in journal paths) same in
      (rw same w, f ∙ e, omega arith)

  -- However often a blocked task is automatically retried, and whatever happens in between: as long as the log of its
  -- requeues in the queue is only written by these retries, those that succeed are no more than the budget leaves. The
  -- retries are not forced and have the same budget, and at the start the log is whole and counts no more than it.
  pub Retries-bounded :
      (task_id : String) (max : ℕ) (start files : Files) (n : ℕ)
      → IsWholeLog journal paths laws (start paths.tasks_queue_dir (log_name task_id))
      → count_auto_requeues journal paths task_id start ≤ max
      → Retries host journal paths task_id max start files n
      → count_auto_requeues journal paths task_id start + n ≤ max
  unfolding Spent
  Retries-bounded task_id max start files n whole few h =
      let (_, e, l) = spent task_id max start files n whole few h in omega arith
