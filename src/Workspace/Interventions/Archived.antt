-- ===== src/Workspace/Interventions/Archived.antt =====
-- What archiving an item does to the files.
use millrace_rs.Base.{
  String, ◌≡◌, ◌≢◌, refl, sym, ap, ◌∙◌, inl, inr, Bool-cases, true, false, Option-cases, is_some,
  ok, err, Result,
}
use millrace_rs.Base.Text.{concat, trim, is_blank, ends_with}
use millrace_rs.Workspace.Files.{
  Files, FilePath, QueueStoreError, ◌>>=◌, appended, write-other_name,
}
use millrace_rs.Workspace.Files.Steps.{bind-ok, bind-ok_read, bind-keeps, err-ne-ok}
use millrace_rs.Workspace.Queue.{WorkspacePaths, document_name}
use millrace_rs.Workspace.Interventions.{
  OperatorInterventionContext, OperatorInterventionResult, LocatedInterventionItem, Clerk,
  InterventionRecordInput, clean_reason, clean_actor, intervention_times, offset_from_timestamp,
  build_intervention_record, append_intervention_record, write_operator_runtime_event, with_record,
}
use millrace_rs.Workspace.Interventions.Archive.{
  ArchiveLocatedOptions, archive_located_item, archive_to, archive_dir, archive_input,
  destination_of, renamed_to, rename_to_free,
}
use millrace_rs.Workspace.Interventions.Renamed.{
  ends_with-concat, IsArchived, renamed_to-IsArchived,
}

module _ (clerk : Clerk) (paths : WorkspacePaths) (context : OperatorInterventionContext)
    (ledger_dir event_type : String) (input : InterventionRecordInput) where
  -- The record of an intervention changes the ledger and the log of events only.
  pub with_record-other :
      (files : Files) (d n : String)
      → "interventions.jsonl" ≢ n
      → "runtime_events.jsonl" ≢ n
      → (with_record clerk paths context ledger_dir event_type input files).1 d n ≡ files d n
  unfolding with_record build_intervention_record clean_actor append_intervention_record
      write_operator_runtime_event appended ◌>>=◌
  with_record-other files d n l v = elim (Bool-cases (is_blank (trim context.actor))) [
    | inl e ↦ rw e refl
    | inr e ↦ rw e (
        write-other_name _ paths.logs_dir "runtime_events.jsonl" d n _ v
        ∙ write-other_name files ledger_dir "interventions.jsonl" d n _ l)
  ]

rename_to_free-ok :
    (source destination : FilePath) (files between : Files) (u : Unit {0})
    → rename_to_free source destination files ≡ (ok u, between)
    → (is_some (files destination.0 destination.1) ≡ false)
      × (between ≡ renamed_to files source destination)
unfolding rename_to_free
rename_to_free-ok source destination files between u h =
    elim (Bool-cases (is_some (files destination.0 destination.1))) [
      | inl e ↦ absurd (err-ne-ok _ u files between (rw e at h))
      | inr e ↦ (e, sym (ap files_of (rw e at h)))
    ]
  where
    files_of : Result QueueStoreError (Unit {0}) × Files → Files
    files_of x = x.1

pub clean_reason-keeps : (reason : String) (files : Files) → (clean_reason reason files).1 ≡ files
unfolding clean_reason
clean_reason-keeps reason files = elim (Bool-cases (is_blank (trim reason))) [
  | inl e ↦ rw e refl
  | inr e ↦ rw e refl
]

offset_from_timestamp-keeps :
    (clerk : Clerk) (field_name timestamp : String) (files : Files)
    → (offset_from_timestamp clerk field_name timestamp files).1 ≡ files
unfolding offset_from_timestamp
offset_from_timestamp-keeps clerk field_name timestamp files =
    elim (Option-cases (clerk.time_error timestamp)) [
      | inl e ↦ rw e refl
      | inr (error, e) ↦ rw e refl
    ]

pub intervention_times-keeps :
    (clerk : Clerk) (context : OperatorInterventionContext) (files : Files)
    → (intervention_times clerk context files).1 ≡ files
unfolding intervention_times
intervention_times-keeps clerk context files =
    bind-keeps _ _ files (offset_from_timestamp-keeps clerk _ _ files) (λ applied_at.
      bind-keeps _ _ files (offset_from_timestamp-keeps clerk _ _ files) (λ issued_at. refl))

pub archived_name-document :
    (item_id suffix state : String)
    → ends_with ".md"
        (concat item_id (concat "." (concat suffix (concat "." (concat state ".md")))))
      ≡ true
unfolding ends_with
archived_name-document item_id suffix state =
    ends_with-concat item_id (concat "." (concat suffix (concat "." (concat state ".md")))) ".md" (
      ends_with-concat "." (concat suffix (concat "." (concat state ".md"))) ".md" (
        ends_with-concat suffix (concat "." (concat state ".md")) ".md" (
          ends_with-concat "." (concat state ".md") ".md"
            (ends_with-concat state ".md" ".md" refl))))

module _ (clerk : Clerk) (paths : WorkspacePaths) where
  with_record-paths :
      (context : OperatorInterventionContext) (ledger_dir event_type : String)
      (input : InterventionRecordInput) (files files' : Files) (r : OperatorInterventionResult)
      → with_record clerk paths context ledger_dir event_type input files ≡ (ok r, files')
      → (r.source_path ≡ input.source_path) × (r.destination_path ≡ input.destination_path)
  unfolding with_record build_intervention_record clean_actor append_intervention_record
      write_operator_runtime_event ◌>>=◌
  with_record-paths context ledger_dir event_type input files files' r h =
      elim (Bool-cases (is_blank (trim context.actor))) [
        | inl e ↦ absurd (err-ne-ok _ r files files' (rw e at h))
        | inr e ↦
            let same = ap (path_of (λ x. x.source_path)) (rw e at h) in
            let moved = ap (path_of (λ x. x.destination_path)) (rw e at h) in (sym same, sym moved)
      ]
    where
      path_of :
          (OperatorInterventionResult → FilePath)
          → Result QueueStoreError OperatorInterventionResult × Files
          → FilePath
      path_of field (ok x, _) = field x
      path_of field (err _, _) = input.source_path

  archive_to-IsArchived :
      (item : LocatedInterventionItem) (options : ArchiveLocatedOptions) (reason : String)
      (times : String × String) (destination : FilePath) (files files' : Files)
      (r : OperatorInterventionResult)
      → is_some (files item.directory item.name) ≡ true
      → ends_with ".md" item.name ≡ true
      → ends_with ".md" destination.1 ≡ true
      → archive_to clerk paths item options reason times destination files ≡ (ok r, files')
      → (r.source_path ≡ (item.directory, item.name))
        × (r.destination_path ≡ destination)
        × IsArchived files files' (item.directory, item.name) destination
  unfolding archive_to
  archive_to-IsArchived item options reason times destination files files' r there_is s t h =
      let (u, between, e, k) =
        bind-ok (rename_to_free (item.directory, item.name) destination)
          (λ _.
            with_record clerk paths options.context (archive_dir clerk paths item options)
              options.event_type (archive_input clerk paths item options destination reason times))
          files files' r h in
      let (is_free, m) =
        rename_to_free-ok (item.directory, item.name) destination files between u e in
      let (s_path, d_path) =
        with_record-paths options.context (archive_dir clerk paths item options) options.event_type
          (archive_input clerk paths item options destination reason times) between files' r k in
      (
        s_path,
        d_path,
        renamed_to-IsArchived files files' (item.directory, item.name) destination there_is is_free
            s t
            (λ d n l v.
              ap (λ x. x.1 d n) (sym k)
              ∙ (with_record-other clerk paths options.context
                    (archive_dir clerk paths item options) options.event_type
                    (archive_input clerk paths item options destination reason times) between d n l
                    v
                  ∙ ap (λ (g : Files). g d n) m)),
      )

  -- An item that is archived stands in the directory that its options give.
  pub archive_located-IsArchived :
      (item : LocatedInterventionItem) (options : ArchiveLocatedOptions) (files files' : Files)
      (r : OperatorInterventionResult)
      → is_some (files item.directory item.name) ≡ true
      → item.name ≡ document_name item.work_item_id
      → archive_located_item clerk paths item options files ≡ (ok r, files')
      → (r.source_path ≡ (item.directory, item.name))
        × (r.destination_path.0 ≡ archive_dir clerk paths item options)
        × IsArchived files files' r.source_path r.destination_path
  unfolding archive_located_item ends_with
  archive_located-IsArchived item options files files' r there_is named h =
      let (reason, _, k) =
        bind-ok_read (clean_reason options.reason) _ files files' r
          (clean_reason-keeps options.reason files) h in
      let (times, _, l) =
        bind-ok_read (intervention_times clerk options.context) _ files files' r
          (intervention_times-keeps clerk options.context files) k in
      let (s, d, archived) =
        archive_to-IsArchived item options reason times
          (destination_of clerk paths files item options times) files files' r there_is
          (rw named (ends_with-concat item.work_item_id ".md" ".md" refl))
          (archived_name-document item.work_item_id (clerk.archive_suffix files times.1) item.state)
          l in
      (s, ap (λ p. p.0) d, rw (s, d) archived)
