-- ===== src/Workspace/Interventions/Unrecorded.antt =====
-- An intervention by nobody is refused too late.
use millrace_rs.Base.{String, ◌≡◌, refl, true, false, is_some, ok, err}
use millrace_rs.Base.Text.{trim, is_blank, ends_with}
use millrace_rs.Workspace.Files.{Files, invalid_state, text, ◌>>=◌}
use millrace_rs.Workspace.Queue.{WorkspacePaths, document_name}
use millrace_rs.Workspace.Interventions.{
  LocatedInterventionItem, Clerk, clean_reason, clean_actor, intervention_times,
  build_intervention_record, with_record,
}
use millrace_rs.Workspace.Interventions.Archive.{
  ArchiveLocatedOptions, archive_located_item, archive_to, destination_of, renamed_to,
  rename_to_free,
}
use millrace_rs.Workspace.Interventions.Archived.{archived_name-document}
use millrace_rs.Workspace.Interventions.Renamed.{
  Apart, IsArchived, ends_with-concat, renamed_to-IsArchived, renamed_to-other,
}

-- An intervention whose actor is blank reports an error, but the item is archived all the same, and no other file changes,
-- neither the ledger nor the log of events: the actor is checked after the document was moved. The reason is not blank, the times are times, and the name in the
-- archive is free.
pub archive_without_actor-IsArchived :
    (clerk : Clerk) (paths : WorkspacePaths) (item : LocatedInterventionItem)
    (options : ArchiveLocatedOptions) (times : String × String) (files : Files)
    → is_blank (trim options.context.actor) ≡ true
    → is_blank (trim options.reason) ≡ false
    → intervention_times clerk options.context files ≡ (ok times, files)
    → item.name ≡ document_name item.work_item_id
    → is_some (files item.directory item.name) ≡ true
    → (let d = destination_of clerk paths files item options times in is_some (files d.0 d.1))
      ≡ false
    → (files' : Files) × (archive_located_item clerk paths item options files
        ≡ (err (invalid_state (text "actor is required")), files'))
      × IsArchived files files'
          (item.directory, item.name)
          (destination_of clerk paths files item options times)
      × ((d n : String)
          → Apart (d, n) (item.directory, item.name)
          → Apart (d, n) (destination_of clerk paths files item options times)
          → files' d n ≡ files d n)
unfolding archive_located_item archive_to clean_reason rename_to_free with_record
    build_intervention_record clean_actor ends_with ◌>>=◌
archive_without_actor-IsArchived clerk paths item options times files a r t named there_is is_free =
    (
      renamed_to files (item.directory, item.name)
          (destination_of clerk paths files item options times),
      rw (r, t, is_free, a) refl,
      renamed_to-IsArchived files _ (item.directory, item.name)
          (destination_of clerk paths files item options times) there_is is_free
          (rw named (ends_with-concat item.work_item_id ".md" ".md" refl))
          (archived_name-document item.work_item_id (clerk.archive_suffix files times.1) item.state)
          (λ d n l v. refl),
      renamed_to-other files (item.directory, item.name)
          (destination_of clerk paths files item options times),
    )
