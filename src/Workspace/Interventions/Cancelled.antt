-- ===== src/Workspace/Interventions/Cancelled.antt =====
-- Which items an operator's interventions archive.
use millrace_rs.Base.{
  String, ◌≡◌, refl, sym, ap, ◌∙◌, ◌⊎◌, inl, inr, Bool-cases, true, false, Option, none, is_some,
  unwrap_or, List, [], ◌∷◌, Has, here, there, Has-cons, Has-append, Result, ok, err,
}
use millrace_rs.Base.Text.{concat}
use millrace_rs.Contracts.Enums.{WorkItemKind}
use millrace_rs.Contracts.WorkRefs.{validate_safe_identifier}
use millrace_rs.Contracts.Error.{ContractError}
use millrace_rs.Workspace.Files.{Files, QueueStoreError, lift}
use millrace_rs.Workspace.Files.Steps.{bind-ok_read, err-ne-ok}
use millrace_rs.Workspace.Queue.Moves.{queued, blocked}
use millrace_rs.Workspace.QueueLifecycle.Builtin.{dirs_of}
use millrace_rs.Workspace.Queue.{WorkspacePaths, document_name}
use millrace_rs.Workspace.Interventions.{
  OperatorInterventionContext, OperatorInterventionResult, LocatedInterventionItem, Clerk,
}
use millrace_rs.Workspace.Interventions.Archive.{
  StateDir, ArchiveLocatedOptions, archive_located_item, located, candidates, only,
  cancelable_places, kinds_of, locate_cancelable_for_kind, locate_for_kinds,
  locate_cancelable_work_item,
}
use millrace_rs.Workspace.Interventions.Archived.{archive_located-IsArchived}
use millrace_rs.Workspace.Interventions.Renamed.{IsArchived}
use millrace_rs.Workspace.Interventions.Operations.{cancel_work_item}

-- What a candidate is.
abbrev pub IsCandidate :
    Files → WorkItemKind → String → List StateDir → LocatedInterventionItem → Type 0
IsCandidate files kind item_id places item =
    (place : StateDir) × Has place places
    × (item ≡ located files kind item_id place)
    × (is_some (files place.1 (document_name item_id)) ≡ true)

pub candidates-Has :
    (files : Files) (kind : WorkItemKind) (item_id : String) (places : List StateDir)
    (item : LocatedInterventionItem)
    → Has item (candidates files kind item_id places)
    → IsCandidate files kind item_id places item
unfolding candidates
candidates-Has files kind item_id [] item h = elim h [ ]
candidates-Has files kind item_id (place ∷ places) item h =
    on (Bool-cases (is_some (files place.1 (document_name item_id)))) h
      (candidates-Has files kind item_id places item)
  where
    later :
        IsCandidate files kind item_id places item
        → IsCandidate files kind item_id (place ∷ places) item
    later (p, m, e, k) = (p, there m, e, k)

    on :
        ((is_some (files place.1 (document_name item_id)) ≡ true)
          ⊎ (is_some (files place.1 (document_name item_id)) ≡ false))
        → Has item (candidates files kind item_id (place ∷ places))
        → (Has item (candidates files kind item_id places)
            → IsCandidate files kind item_id places item)
        → IsCandidate files kind item_id (place ∷ places) item
    on (inl e) h ih = elim (Has-cons item _ _ (rw e at h)) [
      | inl k ↦ (place, here, k, e)
      | inr n ↦ later (ih n)
    ]
    on (inr e) h ih = later (ih (rw e at h))

pub only-ok :
    (items : List LocatedInterventionItem) (missing ambiguous : String) (files files' : Files)
    (item : LocatedInterventionItem)
    → only items missing ambiguous files ≡ (ok item, files')
    → items ≡ item ∷ []
only-ok [] missing ambiguous files files' item h = absurd (err-ne-ok _ item files files' h)
only-ok (x ∷ []) missing ambiguous files files' item h = ap (λ y. y ∷ []) (ap item_of h)
  where
    item_of : Result QueueStoreError LocatedInterventionItem × Files → LocatedInterventionItem
    item_of (ok y, _) = y
    item_of (err _, _) = x
only-ok (x ∷ y ∷ items) missing ambiguous files files' item h =
    absurd (err-ne-ok _ item files files' h)

pub only-keeps :
    (items : List LocatedInterventionItem) (missing ambiguous : String) (files : Files)
    → (only items missing ambiguous files).1 ≡ files
only-keeps [] missing ambiguous files = refl
only-keeps (x ∷ []) missing ambiguous files = refl
only-keeps (x ∷ y ∷ items) missing ambiguous files = refl

pub lift-keeps :
    {A : Type 0} (r : Result ContractError A) (files : Files) → (lift r files).1 ≡ files
lift-keeps (ok a) files = refl
lift-keeps (err e) files = refl

module _ (paths : WorkspacePaths) (files : Files) (item_id : String) where
  for_kinds-Has :
      (kinds : List WorkItemKind) (item : LocatedInterventionItem)
      → Has item (locate_for_kinds paths files item_id kinds)
      → (kind : WorkItemKind) × Has kind kinds
        × IsCandidate files kind item_id (cancelable_places paths kind) item
  unfolding locate_for_kinds locate_cancelable_for_kind
  for_kinds-Has [] item h = elim h [ ]
  for_kinds-Has (kind ∷ kinds) item h =
      elim (Has-append (candidates files kind item_id (cancelable_places paths kind))
        (locate_for_kinds paths files item_id kinds) item h) [
          | inl m ↦
              (kind, here, candidates-Has files kind item_id (cancelable_places paths kind) item m)
          | inr m ↦ let (k, n, c) = for_kinds-Has kinds item m in (k, there n, c)
        ]

-- The directory of the kind's queued items, or of its blocked ones.
abbrev pub IsWaitingPlace : WorkspacePaths → WorkItemKind → StateDir → Type 0
IsWaitingPlace paths kind place =
    (place.1 ≡ dirs_of paths kind queued) ⊎ (place.1 ≡ dirs_of paths kind blocked)

of_two : (place p q : StateDir) → Has place (p ∷ q ∷ []) → (place.1 ≡ p.1) ⊎ (place.1 ≡ q.1)
of_two place p q m = elim (Has-cons place p (q ∷ []) m) [
  | inl same ↦ inl (ap (λ (x : StateDir). x.1) same)
  | inr later ↦ elim (Has-cons place q [] later) [
    | inl same ↦ inr (ap (λ (x : StateDir). x.1) same)
    | inr neither ↦ elim neither [ ]
  ]
]

cancelable-IsWaitingPlace :
    (paths : WorkspacePaths) (kind : WorkItemKind) (place : StateDir)
    → Has place (cancelable_places paths kind)
    → IsWaitingPlace paths kind place
cancelable-IsWaitingPlace paths WorkItemKind.task place m = of_two place _ _ m
cancelable-IsWaitingPlace paths WorkItemKind.probe place m = of_two place _ _ m
cancelable-IsWaitingPlace paths WorkItemKind.spec place m = of_two place _ _ m
cancelable-IsWaitingPlace paths WorkItemKind.incident place m = of_two place _ _ m
cancelable-IsWaitingPlace paths WorkItemKind.learning_request place m = elim m [ ]
cancelable-IsWaitingPlace paths WorkItemKind.blueprint_draft place m = elim m [ ]

-- An intervention takes a document of one of these kinds out of one of the kind's places, and archives it.
pub record Cancels (paths : WorkspacePaths) (kinds : List WorkItemKind) (item_id : String)
    (files files' : Files) (r : OperatorInterventionResult) : Type 0 where
  pub kind : WorkItemKind
  pub place : StateDir
  pub is_kind : Has kind kinds
  pub waits : IsWaitingPlace paths kind place
  pub source : r.source_path ≡ (place.1, document_name item_id)
  pub archive : r.destination_path.0 ≡ concat place.1 "/cancelled"
  pub archived : IsArchived files files' r.source_path r.destination_path

-- A candidate is a file that is there, and is named by its id.
pub candidate-there :
    (files : Files) (kind : WorkItemKind) (item_id : String) (places : List StateDir)
    (item : LocatedInterventionItem)
    → IsCandidate files kind item_id places item
    → (is_some (files item.directory item.name) ≡ true)
      × (item.name ≡ document_name item.work_item_id)
candidate-there files kind item_id places item (place, is_place, same, there_is) = (
  ap (λ (x : LocatedInterventionItem). is_some (files x.directory x.name)) same ∙ there_is,
  ap (λ (x : LocatedInterventionItem). x.name) same
      ∙ sym (ap (λ (x : LocatedInterventionItem). document_name x.work_item_id) same),
)

candidate-Cancels :
    (clerk : Clerk) (paths : WorkspacePaths) (kinds : List WorkItemKind) (item_id : String)
    (kind : WorkItemKind) (item : LocatedInterventionItem) (options : ArchiveLocatedOptions)
    (files files' : Files) (r : OperatorInterventionResult)
    → Has kind kinds
    → IsCandidate files kind item_id (cancelable_places paths kind) item
    → options.explicit_archive_parent ≡ none
    → options.archive_name ≡ "cancelled"
    → archive_located_item clerk paths item options files ≡ (ok r, files')
    → Cancels paths kinds item_id files files' r
candidate-Cancels clerk paths kinds item_id kind item options files files' r is_kind
      (place, is_place, same, there_is) p n h =
    let (stands, named) =
      candidate-there files kind item_id (cancelable_places paths kind) item
        (place, is_place, same, there_is) in
    let (s, d, archived) =
      archive_located-IsArchived clerk paths item options files files' r stands named h in
    record {
      kind = kind;
      place = place;
      is_kind = is_kind;
      waits = cancelable-IsWaitingPlace paths kind place is_place;
      source = s ∙ ap (λ (x : LocatedInterventionItem). (x.directory, x.name)) same;
      archive =
          d
          ∙ ap (λ o. concat (unwrap_or o item.directory) (concat "/" options.archive_name)) p
          ∙ ap (λ name. concat item.directory (concat "/" name)) n
          ∙ ap (λ (x : LocatedInterventionItem). concat x.directory "/cancelled") same;
      archived = archived;
    }

-- When an operator cancels a work item without an error, its document stood in the directory of the queued items of its
-- kind, or of the blocked ones; it now stands unchanged in that directory's archive, under a name that was
-- free. No other file changes but the ledgers of interventions and the logs of events.
pub cancel_work_item-Cancels :
    (clerk : Clerk) (paths : WorkspacePaths) (item_id : String) (kind : Option WorkItemKind)
    (reason : String) (context : OperatorInterventionContext) (files files' : Files)
    (r : OperatorInterventionResult)
    → cancel_work_item clerk paths item_id kind reason context files ≡ (ok r, files')
    → Cancels paths (kinds_of paths kind) item_id files files' r
unfolding cancel_work_item locate_cancelable_work_item
cancel_work_item-Cancels clerk paths item_id kind reason context files files' r h =
    let (_, _, k) =
      bind-ok_read (lift (validate_safe_identifier item_id "work_item_id")) _ files files' r
        (lift-keeps (validate_safe_identifier item_id "work_item_id") files) h in
    let (item, l, m) =
      bind-ok_read (locate_cancelable_work_item paths item_id kind) _ files files' r
        (only-keeps (locate_for_kinds paths files item_id (kinds_of paths kind)) _ _ files) k in
    let one =
      only-ok (locate_for_kinds paths files item_id (kinds_of paths kind)) _ _ files files item l in
    let (found_kind, is_kind, found) =
      for_kinds-Has paths files item_id (kinds_of paths kind) item (rw one here) in
    candidate-Cancels clerk paths (kinds_of paths kind) item_id found_kind item _ files files' r
      is_kind found refl refl m
