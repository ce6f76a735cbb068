-- ===== src/Workspace/Interventions/Renamed.antt =====
-- A document that is renamed to a free name.
use millrace_rs.Base.{
  String, ◌==◌, eq_iff, ◌≡◌, ◌≢◌, refl, sym, ap, ◌∙◌, inl, inr, Bool, Bool-cases, true, false,
  Option, none, some, is_some, arith,
}
use millrace_rs.Base.Text.{concat, ends_with}
use millrace_rs.Workspace.Files.{Files, FilePath, is_at, write, write-here}
use millrace_rs.Workspace.Claims.Listing.{append_nil, append_cons}
use millrace_rs.Workspace.Interventions.Archive.{renamed_to}

pub ends_with-concat :
    (s t suffix : String) → ends_with suffix t ≡ true → ends_with suffix (concat s t) ≡ true
unfolding ends_with
ends_with-concat String.[] t suffix h = ap (ends_with suffix) (append_nil t) ∙ h
ends_with-concat (String.◌∷◌ c s) t suffix h =
    ap (ends_with suffix) (append_cons c s t) ∙ later (ends_with-concat s t suffix h)
  where
    later :
        ends_with suffix (concat s t) ≡ true → ends_with suffix (String.◌∷◌ c (concat s t)) ≡ true
    later k = ground (arith, k)

-- A ledger of interventions is no document.
pub document-ne-ledger :
    (name : String) → ends_with ".md" name ≡ true → "interventions.jsonl" ≢ name
unfolding ends_with
document-ne-ledger name h e = absurd (let k = ap (ends_with ".md") e in ground arith)

pub document-ne-events :
    (name : String) → ends_with ".md" name ≡ true → "runtime_events.jsonl" ≢ name
unfolding ends_with
document-ne-events name h e = absurd (let k = ap (ends_with ".md") e in ground arith)

abbrev pub Apart : FilePath → FilePath → Type 0
Apart p q = p ≢ q

-- A file stands, unchanged, under a name that was free, and no more under its own; only logs differ beside it.
pub record IsArchived (files files' : Files) (source destination : FilePath) : Type 0 where
  pub free : files destination.0 destination.1 ≡ none
  pub stands : files' destination.0 destination.1 ≡ files source.0 source.1
  pub gone : files' source.0 source.1 ≡ none
  pub others :
      (d n : String)
      → Apart (d, n) source
      → Apart (d, n) destination
      → "interventions.jsonl" ≢ n
      → "runtime_events.jsonl" ≢ n
      → files' d n ≡ files d n

pub none_of : {A : Type 0} (o : Option A) → is_some o ≡ false → o ≡ none
none_of none h = refl
none_of (some a) h = absurd (ground arith)

pub write-elsewhere :
    (files : Files) (dir name d n : String) (content : Option String)
    → Apart (d, n) (dir, name)
    → write files dir name content d n ≡ files d n
unfolding write is_at
write-elsewhere files dir name d n content apart = elim (Bool-cases (dir == d)) [
  | inr e ↦ rw e refl
  | inl e ↦ elim (Bool-cases (name == n)) [
    | inr k ↦ rw (e, k) refl
    | inl k ↦ absurd (
        apart
          (sym (ap (λ x. (x, name)) ((eq_iff dir d).0 e) ∙ ap (λ x. (d, x)) ((eq_iff name n).0 k))))
  ]
]

-- A rename changes the two names only.
pub renamed_to-other :
    (files : Files) (source destination : FilePath) (d n : String)
    → Apart (d, n) source
    → Apart (d, n) destination
    → renamed_to files source destination d n ≡ files d n
unfolding renamed_to
renamed_to-other files (dir, name) (dir', name') d n a b =
    write-elsewhere (write files dir name none) dir' name' d n (files dir name) b
    ∙ write-elsewhere files dir name d n none a

pub renamed_to-IsArchived :
    (files files' : Files) (source destination : FilePath)
    → is_some (files source.0 source.1) ≡ true
    → is_some (files destination.0 destination.1) ≡ false
    → ends_with ".md" source.1 ≡ true
    → ends_with ".md" destination.1 ≡ true
    → ((d n : String)
        → "interventions.jsonl" ≢ n
        → "runtime_events.jsonl" ≢ n
        → files' d n ≡ renamed_to files source destination d n)
    → IsArchived files files' source destination
unfolding renamed_to
renamed_to-IsArchived files files' (d, n) (d', n') there_is is_free s t same =
    let content : FilePath → Bool = λ p. is_some (files p.0 p.1) in
    let apart : Apart (d, n) (d', n') =
      λ e. let k : content (d, n) ≡ content (d', n') = ap content e in ground arith in
    record {
      free = none_of (files d' n') is_free;
      stands =
          same d' n' (document-ne-ledger n' t) (document-ne-events n' t)
          ∙ write-here (write files d n none) d' n' (files d n);
      gone =
          same d n (document-ne-ledger n s) (document-ne-events n s)
          ∙ (write-elsewhere (write files d n none) d' n' d n (files d n) apart
              ∙ write-here files d n none);
      others = λ x y a b l v.
          same x y l v
          ∙ (write-elsewhere (write files d n none) d' n' x y (files d n) b
              ∙ write-elsewhere files d n x y none a);
    }
