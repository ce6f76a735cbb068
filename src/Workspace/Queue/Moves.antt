-- ===== src/Workspace/Queue/Moves.antt =====
-- Where the document of a work item stands, and how the moves of its queue change that.
use Prim.Native.String.append
use millrace_rs.Base.{
  String, ◌==◌, eq_iff, ◌≡◌, refl, sym, ap, ◌∙◌, ◌≢◌, inl, inr, true, false, Bool-cases, none, some,
  Option-cases, Result, ok, err, arith,
}
use millrace_rs.Base.Text.{concat, trim, is_blank}
use millrace_rs.Contracts.Enums.{WorkItemKind}
use millrace_rs.Contracts.WorkItemKind
use millrace_rs.Workspace.Files.{
  Files, FilePath, FileStep, QueueStoreError, ◌>>=◌, write, moved, appended, write-here,
  write-other_dir, write-other_name,
}
use millrace_rs.Workspace.Queue.{
  document_name, log_name, move_if, move_item_from_state, move_item, append_requeue_reason,
  requeue_item,
}

pub data ItemState : Type 0 where
  queued active done blocked : ItemState

-- The directories of the four states differ.
abbrev pub AreApart : (ItemState → String) → Type 0
AreApart dir_of = (s t : ItemState) → s ≢ t → dir_of s ≢ dir_of t

-- The file is in the directory of the state, and in that of no other state.
pub record StandsAt (files : Files) (dir_of : ItemState → String) (name : String)
    (state : ItemState) (content : String) : Type 0 where
  pub present : files (dir_of state) name ≡ some content
  pub nowhere_else : (other : ItemState) → other ≢ state → files (dir_of other) name ≡ none

module _ (dir_of : ItemState → String) (apart : AreApart dir_of) (name content : String) where
  pub moved-StandsAt :
      (files : Files) (source target : ItemState)
      → StandsAt files dir_of name source content
      → source ≢ target
      → StandsAt (moved files (dir_of source) (dir_of target) name) dir_of name target content
  unfolding moved
  moved-StandsAt files source target stands differ = record {
    present =
        write-here (write files (dir_of source) name none) (dir_of target) name
          (files (dir_of source) name)
        ∙ stands.present;
    nowhere_else = λ other n.
        write-other_dir (write files (dir_of source) name none) (dir_of target) name (dir_of other)
          name (files (dir_of source) name) (λ e. apart other target n (sym e))
        ∙ left other;
  }
    where
      left : (other : ItemState) → write files (dir_of source) name none (dir_of other) name ≡ none
      left other = elim (Bool-cases (dir_of source == dir_of other)) [
        | inl e ↦
            let same = (eq_iff (dir_of source) (dir_of other)).0 e in
            ap (λ d. write files (dir_of source) name none d name) (sym same)
            ∙ write-here files (dir_of source) name none
        | inr e ↦
            let differs : dir_of source ≢ dir_of other =
              λ same. let t = (eq_iff (dir_of source) (dir_of other)).1 same in ground arith in
            write-other_dir files (dir_of source) name (dir_of other) name none differs
            ∙ stands.nowhere_else other (λ same. differs (ap dir_of (sym same)))
      ]

  pub appended-StandsAt :
      (files : Files) (dir log line : String) (state : ItemState)
      → log ≢ name
      → StandsAt files dir_of name state content
      → StandsAt (appended files dir log line) dir_of name state content
  unfolding appended
  appended-StandsAt files dir log line state differ stands = record {
    present = write-other_name files dir log (dir_of state) name _ differ ∙ stands.present;
    nowhere_else = λ other n.
        write-other_name files dir log (dir_of other) name _ differ ∙ stands.nowhere_else other n;
  }

-- Texts with the same start and different ends differ.
tail_of : String → String
tail_of String.[] = String.[]
tail_of (String.◌∷◌ c s) = s

pub concat-cancel : (s a b : String) → concat s a ≡ concat s b → a ≡ b
unfolding tail_of
concat-cancel String.[] a b h =
    let left : concat String.[] a ≡ a = λ i. append.nil a i in
    let right : concat String.[] b ≡ b = λ i. append.nil b i in sym left ∙ (h ∙ right)
concat-cancel (String.◌∷◌ c s) a b h =
    let left : concat (String.◌∷◌ c s) a ≡ String.◌∷◌ c (concat s a) = λ i. append.cons c s a i in
    let right : concat (String.◌∷◌ c s) b ≡ String.◌∷◌ c (concat s b) = λ i. append.cons c s b i in
    concat-cancel s a b (ap tail_of (sym left ∙ (h ∙ right)))

pub log-ne-document : (item_id : String) → log_name item_id ≢ document_name item_id
log-ne-document item_id h =
    let same : ".requeue.jsonl" ≡ ".md" = concat-cancel item_id ".requeue.jsonl" ".md" h in
    let t : (".requeue.jsonl" == ".md") ≡ true = (eq_iff ".requeue.jsonl" ".md").1 same in
    ground arith

pub move_from-present :
    (files : Files) (source target item_id content state : String) (kind : WorkItemKind)
    → files source (document_name item_id) ≡ some content
    → files target (document_name item_id) ≡ none
    → move_item_from_state source target item_id kind state files
      ≡ (ok (target, document_name item_id), moved files source target (document_name item_id))
unfolding move_item_from_state move_if ◌>>=◌
move_from-present files source target item_id content state kind h k = rw (h, k) refl

-- A move that succeeds has moved the document.
pub move_from-moved :
    (files files' : Files) (source target item_id state : String) (kind : WorkItemKind)
    (destination : FilePath)
    → move_item_from_state source target item_id kind state files ≡ (ok destination, files')
    → files' ≡ moved files source target (document_name item_id)
unfolding move_item_from_state move_if ◌>>=◌
move_from-moved files files' source target item_id state kind destination h =
    elim (Option-cases (files source (document_name item_id))) [
      | inl e ↦
          absurd
            (ground (arith, ap (λ (r : Result QueueStoreError FilePath × Files). r.0) (rw e at h)))
      | inr (content, e) ↦ elim (Option-cases (files target (document_name item_id))) [
        | inl k ↦ sym (ap (λ (r : Result QueueStoreError FilePath × Files). r.1) (rw (e, k) at h))
        | inr (other, k) ↦ absurd (
            ground
              (arith, ap (λ (r : Result QueueStoreError FilePath × Files). r.0) (rw (e, k) at h)))
      ]
    ]

-- A move that reports an error has changed no file.
pub move_from-unchanged :
    (files files' : Files) (source target item_id state : String) (kind : WorkItemKind)
    (e : QueueStoreError)
    → move_item_from_state source target item_id kind state files ≡ (err e, files')
    → files' ≡ files
unfolding move_item_from_state move_if ◌>>=◌
move_from-unchanged files files' source target item_id state kind e h =
    elim (Option-cases (files source (document_name item_id))) [
      | inl e ↦ sym (ap (λ (r : Result QueueStoreError FilePath × Files). r.1) (rw e at h))
      | inr (content, e) ↦ elim (Option-cases (files target (document_name item_id))) [
        | inl k ↦ absurd (
            ground
              (arith, ap (λ (r : Result QueueStoreError FilePath × Files). r.0) (rw (e, k) at h)))
        | inr (other, k) ↦
            sym (ap (λ (r : Result QueueStoreError FilePath × Files). r.1) (rw (e, k) at h))
      ]
    ]

module _ (dir_of : ItemState → String) (apart : AreApart dir_of) (item_id content : String)
    (kind : WorkItemKind) where
  abbrev Outcome : FileStep FilePath → Files → ItemState → Type 0
  Outcome step files target =
      (files' : Files) × (step files ≡ (ok (dir_of target, document_name item_id), files'))
      × StandsAt files' dir_of (document_name item_id) target content

  -- An item that is active moves to another state.
  pub move_item-StandsAt :
      (files : Files) (target : ItemState)
      → StandsAt files dir_of (document_name item_id) active content
      → active ≢ target
      → Outcome (move_item (dir_of active) (dir_of target) item_id kind) files target
  unfolding move_item
  move_item-StandsAt files target stands differ = (
    moved files (dir_of active) (dir_of target) (document_name item_id),
    move_from-present files (dir_of active) (dir_of target) item_id content "active" kind
        stands.present (stands.nowhere_else target (λ e. differ (sym e))),
    moved-StandsAt dir_of apart (document_name item_id) content files active target stands differ,
  )

  -- An active item that is requeued for a reason is queued, with the reason in its log.
  pub requeue_item-StandsAt :
      (files : Files) (record_line : String → String → String) (reason : String)
      → StandsAt files dir_of (document_name item_id) active content
      → is_blank (trim reason) ≡ false
      → Outcome
          (requeue_item record_line (dir_of active) (dir_of queued) item_id kind reason)
          files
          queued
  unfolding requeue_item append_requeue_reason ◌>>=◌
  requeue_item-StandsAt files record_line reason stands given =
      let (files', e, there) = move_item-StandsAt files queued stands (λ k. ground arith) in
      (
        appended files' (dir_of queued) (log_name item_id)
            (record_line (WorkItemKind.as_str kind) (trim reason)),
        rw (e, given) refl,
        appended-StandsAt dir_of apart (document_name item_id) content files' (dir_of queued)
            (log_name item_id) (record_line (WorkItemKind.as_str kind) (trim reason)) queued
            (log-ne-document item_id) there,
      )
