-- ===== src/Workspace/Claims/Claimed.antt =====
-- A claim with which nothing interferes takes the oldest eligible task, and leaves one active task.
use millrace_rs.Base.{
  String, ◌≡◌, refl, sym, ap, ◌∙◌, inl, inr, ℕ, Bool, true, false, Option-cases, none, some,
  is_some, Result, ok, arith,
}
use millrace_rs.Base.Oldest.{oldest, oldest-least, oldest-none, pair_lt-asym, pair_lt-not_trans}
use millrace_rs.Contracts.Enums.{WorkItemKind}
use millrace_rs.Workspace.Files.{Files, FileStep, ◌>>=◌, pure, moved}
use millrace_rs.Workspace.Claims.{Host, HostLaws, ListsAll}
use millrace_rs.Workspace.Claims.Select.{Candidate, comes_before, select_oldest}
use millrace_rs.Workspace.Claims.Selected.{Shrinks}
use millrace_rs.Workspace.Claims.Found.{Eligible, entry, select_oldest-Found, Eligible-listed}
use millrace_rs.Workspace.Claims.Claim.{
  Chosen, Round, returns, attempt, claim_of, rounds, undisturbed, chosen_from,
}

module _ {Document : Type 0} (host : Host) (parse : String → String → Result String Document)
    (id_of order_of : Document → String) (id_field : String) (eligible : Document → Bool)
    (directory active_dir source_state policy_id : String) (kind : WorkItemKind) (claim_order : ℕ)
    (laws : HostLaws host) where
  abbrev pub IsWaiting : Files → String → Document → Type 0
  IsWaiting = Eligible host parse id_of order_of id_field eligible directory laws

  abbrev pub waiting : String → Document → Candidate
  waiting = entry host parse id_of order_of id_field eligible directory laws

  abbrev pub claim_once : FileStep Round
  claim_once =
      rounds
        (select_oldest host parse id_of order_of id_field eligible directory >>= λ found.
          pure (chosen_from kind directory active_dir source_state policy_id claim_order found))
        undisturbed

  abbrev pub choice : String → Document → Chosen
  choice name document = record {
    kind = kind;
    item_id = id_of document;
    name = name;
    source_dir = directory;
    active_dir = active_dir;
    source_state = source_state;
    policy_id = policy_id;
    claim_order = claim_order;
  }

  -- No document is eligible and nothing is claimed, or the claim is of an eligible document before which no other
  -- comes, and its file is moved after the selection.
  pub data IsOldestClaim (files : Files) : Type 0 where
    none_waits :
        (files' : Files)
        → ((n : String) (document : Document) → IsWaiting files n document → ⊥)
        → claim_once files ≡ (ok (returns none), files')
        → Shrinks directory files files'
        → IsOldestClaim files
    oldest_claimed :
        (selected : Files) (n : String) (document : Document)
        → IsWaiting files n document
        → ((m : String) (other : Document)
            → IsWaiting files m other
            → comes_before (waiting m other) (waiting n document) ≡ false)
        → selected directory n ≡ files directory n
        → Shrinks directory files selected
        → claim_once files ≡ (
          ok (returns (some (claim_of (choice n document)))),
          moved selected directory active_dir n,
        )
        → IsOldestClaim files

  was_eligible :
      (files files' : Files) (n : String) (document : Document)
      → Shrinks directory files files'
      → IsWaiting files' n document
      → IsWaiting files n document × (files' directory n ≡ files directory n)
  was_eligible files files' n document s h = elim (s directory n (id_of document) h.named) [
    | inr (_, e) ↦ let k = h.present in absurd (ground arith)
    | inl e ↦ (
      record {
        content = h.content;
        present = sym e ∙ h.present;
        reads = h.reads;
        named = h.named;
        chosen = h.chosen;
      },
      e,
    )
  ]

  pub claim_once-IsOldestClaim :
      (files : Files) → ListsAll host files directory → IsOldestClaim files
  unfolding rounds attempt ◌>>=◌
  claim_once-IsOldestClaim files all =
      let (found, files', e, f) =
        select_oldest-Found host parse id_of order_of id_field eligible directory laws files in
      elim (Option-cases (oldest comes_before found)) [
        | inl k ↦
            none_waits files'
              (λ n document h.
                oldest-none comes_before before_asym before_trans found k (waiting n document) (
                  f.complete n document
                    (Eligible-listed host parse id_of order_of id_field eligible directory laws
                      files n document all h)
                    h))
              (rw (e, k) refl) f.shrinks
        | inr (c, k) ↦
            let (there_is, least) = oldest-least comes_before before_asym before_trans found c k in
            let (n, document, same, h) = f.sound c there_is in
            let (before, unmoved) = was_eligible files files' n document f.shrinks h in
            oldest_claimed files' n document before
              (λ m other w. rw same at (
                least (waiting m other) (
                  f.complete m other
                    (Eligible-listed host parse id_of order_of id_field eligible directory laws
                      files m other all w)
                    w)))
              unmoved f.shrinks (rw (e, k, same, ap is_some h.present) refl)
      ]
    where
      before_asym : (a b : Candidate) → comes_before a b ≡ true → comes_before b a ≡ false
      before_asym a b = pair_lt-asym _ _

      before_trans :
          (a b c : Candidate)
          → comes_before a b ≡ false
          → comes_before b c ≡ false
          → comes_before a c ≡ false
      before_trans a b c = pair_lt-not_trans _ _ _
