-- ===== src/Runtime/BlockedRecovery/Persisted.antt =====
-- The metadata of a blocked item as a later retry finds it.
use millrace_rs.Base.{
  String, ◌==◌, ◌≡◌, refl, ap, ◌⊎◌, inl, inr, true, false, ◌&&◌, some, Result, Result-cases, ok,
  err,
}
use millrace_rs.Base.Text.{concat}
use millrace_rs.Runtime.LaneState.{RuntimeJsonError}
use millrace_rs.Runtime.Router.{RouterDecision}
use millrace_rs.Runtime.State.{StageResultEnvelope, Timestamp}
use millrace_rs.Workspace.Files.{Files, FilePath, write, is_at, write-here}
use millrace_rs.Workspace.Queue.{WorkspacePaths}
use millrace_rs.Workspace.Claims.{Host}
use millrace_rs.Runtime.RunnerFailureClass.{failure_class_allows_auto_requeue}
use millrace_rs.Runtime.BlockedRecovery.{
  Journal, BlockedItemMetadata, RecoveryError, invalid_state, invalid_record,
  load_blocked_item_metadata,
}
use millrace_rs.Runtime.BlockedRecovery.Stranded.{validate_metadata}
use millrace_rs.Runtime.BlockedRecovery.Metadata.{
  Writer, metadata_bool, metadata_path, blocked_failure_class, build_blocked_item_metadata,
  persist_blocked_item_metadata,
}

-- What is written of the metadata, if they are valid, is read back.
abbrev pub ReadsBack :
    Journal
    → Writer
    → (String → Timestamp → Result RuntimeJsonError (Unit {0}))
    → BlockedItemMetadata
    → Type 0
ReadsBack journal writer parse_time metadata =
    (payload : String)
    → validate_metadata parse_time metadata ≡ ok tt
    → writer metadata ≡ ok payload
    → journal.metadata_from_json (concat payload "\n") ≡ some metadata

module _ (host : Host) (journal : Journal) (paths : WorkspacePaths) (writer : Writer)
    (parse_time : String → Timestamp → Result RuntimeJsonError (Unit {0}))
    (stage_result : StageResultEnvelope) (decision : RouterDecision) (result_path : FilePath) where
  abbrev pub built : Files → BlockedItemMetadata
  built = build_blocked_item_metadata host journal paths stage_result decision result_path

  abbrev pub persisted : Files → Result RecoveryError (FilePath × BlockedItemMetadata) × Files
  persisted =
      persist_blocked_item_metadata host journal paths writer parse_time stage_result decision
        result_path

  abbrev pub place : FilePath
  place = metadata_path paths stage_result.work_item_kind stage_result.work_item_id

  -- The stage result asks for an automatic requeue, and its failure is transient.
  abbrev pub Asked : Type 0
  Asked =
      (metadata_bool stage_result "auto_requeue_candidate" ≡ true)
      × (failure_class_allows_auto_requeue (blocked_failure_class stage_result decision) ≡ true)

  -- The metadata breaks its contract, or cannot be written as JSON.
  abbrev pub Unwritable : BlockedItemMetadata → Type 0
  Unwritable metadata =
      ((e : RuntimeJsonError) × (validate_metadata parse_time metadata ≡ err e))
      ⊎ ((message : String) × (writer metadata ≡ err message))

  -- Nothing was stored, and for a reason.
  pub record IsRefused (files : Files) : Type 0 where
    pub reason : Unwritable (built files)
    pub error : RecoveryError
    pub unchanged : persisted files ≡ (err error, files)

  -- The metadata was stored where a retry looks for it, and no other file was changed.
  pub record IsStored (files : Files) : Type 0 where
    pub answer : (persisted files).0 ≡ ok (place, built files)
    pub found :
        load_blocked_item_metadata journal paths stage_result.work_item_kind
          stage_result.work_item_id
          (persisted files).1
        ≡ some (built files)
    pub others :
        (directory name : String)
        → ((place.0 == directory && place.1 == name) ≡ false)
        → (persisted files).1 directory name ≡ files directory name

  IsRefused-invalid :
      (files : Files) (e : RuntimeJsonError)
      → validate_metadata parse_time (built files) ≡ err e
      → IsRefused files
  unfolding persist_blocked_item_metadata
  IsRefused-invalid files e h = record {
    reason = inl (e, h);
    error = invalid_record e;
    unchanged = rw h refl;
  }

  IsRefused-unwritten :
      (files : Files) (message : String)
      → validate_metadata parse_time (built files) ≡ ok tt
      → writer (built files) ≡ err message
      → IsRefused files
  unfolding persist_blocked_item_metadata
  IsRefused-unwritten files message h w = record {
    reason = inr (message, w);
    error = invalid_state message;
    unchanged = rw (h, w) refl;
  }

  persisted-written :
      (files : Files) (payload : String)
      → validate_metadata parse_time (built files) ≡ ok tt
      → writer (built files) ≡ ok payload
      → persisted files
        ≡ (ok (place, built files), write files place.0 place.1 (some (concat payload "\n")))
  unfolding persist_blocked_item_metadata build_blocked_item_metadata
  persisted-written files payload h w = rw (h, w) refl

  written-IsStored :
      (files : Files) (payload : String)
      → ReadsBack journal writer parse_time (built files)
      → validate_metadata parse_time (built files) ≡ ok tt
      → writer (built files) ≡ ok payload
      → IsStored files
  unfolding load_blocked_item_metadata write is_at
  written-IsStored files payload reads h w =
      let e = persisted-written files payload h w in
      record {
        answer = ap (λ r. r.0) e;
        found = rw e (
            rw (write-here files place.0 place.1 (some (concat payload "\n"))) (reads payload h w));
        others = λ directory name apart. rw (e, apart) refl;
      }

  -- The metadata of a blocked item are either refused, for a breach of their contract or since they cannot be written as
  -- JSON, and then no file changes; or they are stored, and then a search for the item's metadata finds them and no other
  -- file has changed. What is written of them, if they are valid, is read back.
  pub persist-IsStored :
      (files : Files)
      → ReadsBack journal writer parse_time (built files)
      → IsRefused files ⊎ IsStored files
  persist-IsStored files reads = elim (Result-cases (validate_metadata parse_time (built files))) [
    | inr (e, h) ↦ inl (IsRefused-invalid files e h)
    | inl (tt, h) ↦ elim (Result-cases (writer (built files))) [
      | inr (message, w) ↦ inl (IsRefused-unwritten files message h w)
      | inl (payload, w) ↦ inr (written-IsStored files payload reads h w)
    ]
  ]
