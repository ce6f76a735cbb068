-- ===== src/Workspace/Claims/Enqueued.antt =====
-- An enqueued document stands in its queue and nowhere else, or no file has changed.
use millrace_rs.Base.{
  String, ◌≡◌, refl, sym, ◌∙◌, ◌⊎◌, inl, inr, Bool-cases, true, false, none, some, is_some, List,
  [], ◌∷◌, Result, Result-cases, ok, err, Has, Has-cons, here, there, arith,
}
use millrace_rs.Contracts.Enums.{WorkItemKind}
use millrace_rs.Workspace.Files.{
  Files, FilePath, QueueStoreError, invalid_state, work_document, text, ◌>>=◌, write, write-here,
  write-other_dir,
}
use millrace_rs.Workspace.Queue.{document_name}
use millrace_rs.Workspace.Queue.Moves.{ItemState, queued, active, done, blocked, AreApart, StandsAt}
use millrace_rs.Workspace.Claims.Documents.{Codec}
use millrace_rs.Workspace.Claims.Enqueue.{already_exists, ensure_unique_id, write_document, enqueue}

-- The ids' check passes if the document is in none of the directories, and else fails; it changes no file.
ensure_unique-cases :
    (files : Files) (item_id : String) (directories : List String) (kind : WorkItemKind)
    → ((ensure_unique_id item_id directories kind files ≡ (ok tt, files))
        × ((d : String) → Has d directories → files d (document_name item_id) ≡ none))
      ⊎ ((e : QueueStoreError) × (ensure_unique_id item_id directories kind files ≡ (err e, files))
          × (d : String) × Has d directories
          × (is_some (files d (document_name item_id)) ≡ true))
unfolding ensure_unique_id ◌>>=◌
ensure_unique-cases files item_id [] kind = inl (refl, λ d m. elim m [ ])
ensure_unique-cases files item_id (directory ∷ directories) kind =
    elim (Bool-cases (is_some (files directory (document_name item_id)))) [
      | inl e ↦
          inr (invalid_state (text (already_exists item_id kind)), rw e refl, directory, here, e)
      | inr e ↦ elim (ensure_unique-cases files item_id directories kind) [
        | inr (error, k, d, m, taken) ↦ inr (error, rw e k, d, there m, taken)
        | inl (k, free) ↦ inl (
          rw e k,
          λ d m. elim (Has-cons d directory directories m) [
            | inl same ↦ rw same (free_here e)
            | inr later ↦ free d later
          ],
        )
      ]
    ]
  where
    free_here :
        is_some (files directory (document_name item_id)) ≡ false
        → files directory (document_name item_id) ≡ none
    free_here e = ground arith

module _ {Document : Type 0} (codec : Codec Document) (id_of : Document → String)
    (kind : WorkItemKind) (dir_of : ItemState → String) (apart : AreApart dir_of) where
  abbrev step : Document → Files → Result QueueStoreError FilePath × Files
  step =
      enqueue codec id_of kind (dir_of queued) (dir_of active ∷ dir_of done ∷ dir_of blocked ∷ [])

  -- Either the document is valid, its id was in none of the directories of its kind, and it now stands in the queue
  -- and nowhere else; or an error is reported, as it is not valid or stands in one of them,
  -- and no file has changed.
  abbrev pub EnqueuedOrRefused : Files → Document → Type 0
  EnqueuedOrRefused files document =
      ((files' : Files) × (step document files
          ≡ (ok (dir_of queued, document_name (id_of document)), files'))
        × (codec.validate document ≡ ok tt)
        × ((s : ItemState) → files (dir_of s) (document_name (id_of document)) ≡ none)
        × StandsAt files' dir_of (document_name (id_of document)) queued (codec.render document))
      ⊎ ((e : QueueStoreError) × (step document files ≡ (err e, files))
          × (((source : String) × (codec.validate document ≡ err source))
              ⊎ ((s : ItemState) × (is_some (files (dir_of s) (document_name (id_of document)))
                    ≡ true))))

  pub enqueue-StandsAt : (files : Files) (document : Document) → EnqueuedOrRefused files document
  unfolding enqueue write_document ◌>>=◌
  enqueue-StandsAt files document = elim (Result-cases (codec.validate document)) [
    | inr (source, v) ↦ inr (
      work_document (dir_of queued) (document_name (id_of document)) source,
      rw v refl,
      inl (source, v),
    )
    | inl (_, v) ↦
        elim (ensure_unique-cases files (id_of document)
          (dir_of queued ∷ dir_of active ∷ dir_of done ∷ dir_of blocked ∷ []) kind) [
            | inr (e, k, d, m, taken) ↦ inr (e, rw (v, k) refl, inr (found d m taken))
            | inl (k, free) ↦ inl (
              write files (dir_of queued) (document_name (id_of document))
                  (some (codec.render document)),
              rw (v, k) refl,
              v,
              everywhere free,
              record {
                present = write-here files (dir_of queued) (document_name (id_of document)) _;
                nowhere_else = λ other n.
                    write-other_dir files (dir_of queued) (document_name (id_of document))
                      (dir_of other) (document_name (id_of document)) _
                      (apart queued other (λ e. n (sym e)))
                    ∙ everywhere free other;
              },
            )
          ]
  ]
    where
      found :
          (d : String)
          → Has d (dir_of queued ∷ dir_of active ∷ dir_of done ∷ dir_of blocked ∷ [])
          → is_some (files d (document_name (id_of document))) ≡ true
          → (s : ItemState) × (is_some (files (dir_of s) (document_name (id_of document))) ≡ true)
      found d here taken = (queued, taken)
      found d (there here) taken = (active, taken)
      found d (there (there here)) taken = (done, taken)
      found d (there (there (there here))) taken = (blocked, taken)
      found d (there (there (there (there m)))) taken = elim m [ ]

      everywhere :
          ((d : String)
            → Has d (dir_of queued ∷ dir_of active ∷ dir_of done ∷ dir_of blocked ∷ [])
            → files d (document_name (id_of document)) ≡ none)
          → (s : ItemState) → files (dir_of s) (document_name (id_of document)) ≡ none
      everywhere free queued = free _ here
      everywhere free active = free _ (there here)
      everywhere free done = free _ (there (there here))
      everywhere free blocked = free _ (there (there (there here)))
