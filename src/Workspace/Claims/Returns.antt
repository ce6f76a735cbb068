-- ===== src/Workspace/Claims/Returns.antt =====
-- The loop of a claim ends: a round in which nothing interferes is the last one.
use millrace_rs.Base.{
  Has, String, ◌≡◌, refl, ap, ◌⊎◌, inl, inr, ℕ, Bool, Bool-cases, true, all, Option, Option-cases,
  none, some, is_some, List, [], ◌∷◌, here, there, length, ltb, Result, ok, err,
}
use millrace_rs.Base.Oldest.{oldest, oldest-least, pair_lt-asym, pair_lt-not_trans}
use millrace_rs.Contracts.Enums.{WorkItemKind}
use millrace_rs.Workspace.Files.{Files, FileStep, ◌>>=◌, pure, invalid_state, text, moved}
use millrace_rs.Workspace.Queue.{WorkspacePaths}
use millrace_rs.Workspace.Claims.{Host, HostLaws}
use millrace_rs.Workspace.Claims.Documents.{Codecs}
use millrace_rs.Workspace.Claims.Listing.{list_markdown_files, path_stem, stems, ids_in_directory}
use millrace_rs.Workspace.Claims.Select.{
  comes_before, select_oldest, select_oldest_eligible_task, select_oldest_learning_request,
  is_eligible_task,
}
use millrace_rs.Workspace.Claims.Found.{
  select_oldest-Found, listed, listed-AllMarkdown, AllMarkdown,
}
use millrace_rs.Workspace.Claims.Claim.{
  QueueClaim, Selection, nothing, already, chosen, Round, returns, continues, attempt, claim_of,
  rounds, unless_active, chosen_from, select_task, select_learning_request,
  claim_next_learning_request,
}

-- The file of what a round selects is there.
pub IsPresent : Selection → Files → Type 0
IsPresent nothing files = Unit
IsPresent (already claim) files = Unit
IsPresent (chosen c) files = is_some (files c.source_dir c.name) ≡ true

pub Selects : FileStep Selection → Type 0
Selects select =
    (files : Files)
    → (s : Selection) × (files' : Files) × (select files ≡ (ok s, files')) × IsPresent s files'

abbrev pub Returns : FileStep Round → Files → Type 0
Returns step files =
    (claim : Option QueueClaim) × (files' : Files) × (step files ≡ (ok (returns claim), files'))

attempt-Returns : (s : Selection) (files : Files) → IsPresent s files → Returns (attempt s) files
unfolding attempt IsPresent ◌>>=◌
attempt-Returns nothing files h = (none, files, refl)
attempt-Returns (already claim) files h = (some claim, files, refl)
attempt-Returns (chosen c) files h =
    (some (claim_of c), moved files c.source_dir c.active_dir c.name, rw h refl)

attempt-ok :
    (s : Selection) (files : Files)
    → (r : Round) × (files' : Files) × (attempt s files ≡ (ok r, files'))
unfolding attempt ◌>>=◌
attempt-ok nothing files = (returns none, files, refl)
attempt-ok (already claim) files = (returns (some claim), files, refl)
attempt-ok (chosen c) files = elim (Bool-cases (is_some (files c.source_dir c.name))) [
  | inl e ↦ (returns (some (claim_of c)), moved files c.source_dir c.active_dir c.name, rw e refl)
  | inr e ↦ (continues, files, rw e refl)
]

-- In one of the rounds, nothing interferes.
pub record HasQuiet (others : List (Files → Files)) : Type 0 where
  pub quiet : Files → Files
  pub member : Has quiet others
  pub keeps : (files : Files) → quiet files ≡ files

rounds-Returns :
    (select : FileStep Selection) (quiet : Files → Files) (others : List (Files → Files))
    (files : Files)
    → Selects select
    → ((files : Files) → quiet files ≡ files)
    → Has quiet others
    → Returns (rounds select others) files
unfolding rounds Selects ◌>>=◌
rounds-Returns select quiet [] files h keeps m = elim m [ ]
rounds-Returns select quiet (_ ∷ others) files h keeps here =
    let (s, files1, e, present) = h files in
    let (claim, files', k) = attempt-Returns s files1 present in
    (claim, files', rw (e, keeps files1, k) refl)
rounds-Returns select quiet (other ∷ others) files h keeps (there m) =
    let (s, files1, e, present) = h files in
    let (r, files2, k) = attempt-ok s (other files1) in
    on (rounds-Returns select quiet others files2 h keeps m) r files1 s e k
  where
    on :
        {files2 : Files}
        → Returns (rounds select others) files2
        → (r : Round) (files1 : Files) (s : Selection) → select files ≡ (ok s, files1)
        → attempt s (other files1) ≡ (ok r, files2)
        → Returns (rounds select (other ∷ others)) files
    on {files2} rest (returns claim) files1 s e k = (claim, files2, rw (e, k) refl)
    on (claim, files', l) continues files1 s e k = (claim, files', rw (e, k, l) refl)

-- The stems of listed files are read without failing.
stems-ok :
    (names : List String) (files : Files)
    → AllMarkdown names
    → (ids : List String) × (stems names files ≡ (ok ids, files))
unfolding stems path_stem ◌>>=◌
stems-ok [] files all = ([], refl)
stems-ok (name ∷ names) files all =
    let (stem, e) = all name here in
    let (ids, k) = stems-ok names files (λ n m. all n (there m)) in (stem ∷ ids, rw (e, k) refl)

pub ids_in_directory-ok :
    (host : Host) (directory : String) (files : Files)
    → (ids : List String) × (ids_in_directory host directory files ≡ (ok ids, files))
unfolding ids_in_directory list_markdown_files ◌>>=◌
ids_in_directory-ok host directory files =
    let (ids, e) =
      stems-ok (listed host directory files) files (listed-AllMarkdown host directory files) in
    (ids, rw e refl)

module _ {Document : Type 0} (host : Host) (parse : String → String → Result String Document)
    (id_of order_of : Document → String) (id_field : String) (eligible : Document → Bool)
    (directory active_dir source_state policy_id : String) (kind : WorkItemKind) (claim_order : ℕ)
    (laws : HostLaws host) where
  abbrev select : FileStep Selection
  select = select_oldest host parse id_of order_of id_field eligible directory >>= λ found.
      pure (chosen_from kind directory active_dir source_state policy_id claim_order found)

  pub select-Selects : Selects select
  unfolding Selects IsPresent ◌>>=◌
  select-Selects files =
      let (found, files', e, f) =
        select_oldest-Found host parse id_of order_of id_field eligible directory laws files in
      elim (Option-cases (oldest comes_before found)) [
        | inl k ↦ (nothing, files', rw (e, k) refl, tt)
        | inr (c, k) ↦
            let (n, document, same, h) =
              f.sound c
                (oldest-least comes_before (λ a b. pair_lt-asym _ _)
                  (λ a b d. pair_lt-not_trans _ _ _) found c k).0 in
            (
              chosen_from kind directory active_dir source_state policy_id claim_order (some c),
              files',
              rw (e, k) refl,
              rw same (ap is_some h.present),
            )
      ]

pub select_task-Selects :
    (host : Host) (codecs : Codecs) (paths : WorkspacePaths) (root_spec_id : Option String)
    → HostLaws host
    → Selects (select_task host codecs paths root_spec_id)
unfolding select_task select_oldest_eligible_task Selects IsPresent ◌>>=◌
select_task-Selects host codecs paths root_spec_id laws files =
    let (ids, e) = ids_in_directory-ok host paths.tasks_done_dir files in
    let (s, files', k, present) =
      select-Selects host codecs.task.parse (λ d. d.task_id) (λ d. d.created_at) "task_id"
        (is_eligible_task root_spec_id ids) paths.tasks_queue_dir paths.tasks_active_dir "queue"
        "execution.default" WorkItemKind.task 0 laws files in
    (s, files', rw e k, present)

-- What `unless_active` gives: the error, or what the claim returns, or no claim.
unless_active-Returns :
    (count : ℕ) (message : String) (claim : FileStep Round) (files : Files)
    → Returns claim files
    → (unless_active count message claim files ≡ (err (invalid_state (text message)), files))
      ⊎ Returns (unless_active count message claim) files
unfolding unless_active
unless_active-Returns count message claim files r = elim (Bool-cases (ltb 1 count)) [
  | inl e ↦ inl (rw e refl)
  | inr e ↦ elim (Bool-cases (ltb 0 count)) [
    | inl k ↦ inr (none, files, rw (e, k) refl)
    | inr k ↦ inr (rw (e, k) r)
  ]
]

-- The same for a learning request.
pub claim_next_learning_request-Returns :
    (host : Host) (codecs : Codecs) (paths : WorkspacePaths) (others : List (Files → Files))
    (files : Files)
    → HostLaws host
    → HasQuiet others
    → (claim_next_learning_request host codecs paths others files
        ≡ (err (invalid_state (text "multiple active learning requests found")), files))
      ⊎ Returns (claim_next_learning_request host codecs paths others) files
unfolding claim_next_learning_request select_learning_request select_oldest_learning_request
    list_markdown_files ◌>>=◌
claim_next_learning_request-Returns host codecs paths others files laws q =
    unless_active-Returns (length (listed host paths.learning_requests_active_dir files))
      "multiple active learning requests found"
      (rounds (select_learning_request host codecs paths) others) files
      (rounds-Returns (select_learning_request host codecs paths) q.quiet others files
        (select-Selects host codecs.learning_request.parse (λ d. d.learning_request_id)
          (λ d. d.created_at) "learning_request_id" (λ _. true) paths.learning_requests_queue_dir
          paths.learning_requests_active_dir "queue" "learning.default"
          WorkItemKind.learning_request 0 laws)
        q.keeps q.member)
