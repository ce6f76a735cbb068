-- ===== src/Workspace/Claims/Found.antt =====
-- The loop over the files of a directory: its candidates are the eligible files that are listed.
use millrace_rs.Base.{
  String, ◌≡◌, refl, ap, inl, inr, Bool, Option, Option-cases, some, is_some, List, [], ◌∷◌, Has,
  here, there, Has-cons, filter, filter-Has, Has-filter, Result, ok, arith,
}
use millrace_rs.Base.Sort.{sort_by, sort_by-Has, Has-sort_by}
use millrace_rs.Base.Oldest.{oldest}
use millrace_rs.Workspace.Files.{Files, FileStep, ◌>>=◌}
use millrace_rs.Workspace.Claims.{Host, HostLaws, ListsAll}
use millrace_rs.Workspace.Claims.Listing.{markdown_stem, is_markdown, list_markdown_files}
use millrace_rs.Workspace.Claims.Select.{Candidate, candidates, comes_before, select_oldest}
use millrace_rs.Workspace.Claims.Selected.{
  Shrinks, Shrinks-refl, Shrinks-trans, IsEligible, candidate, Passed, examine-cases, document_once,
}

abbrev pub AllMarkdown : List String → Type 0
AllMarkdown names = (n : String) → Has n names → (stem : String) × (markdown_stem n ≡ some stem)

-- The names that `list_markdown_files` gives.
abbrev pub listed : Host → String → Files → List String
listed host directory files =
    sort_by (λ name. name) (filter is_markdown (host.read_dir files directory))

pub listed-AllMarkdown :
    (host : Host) (directory : String) (files : Files) → AllMarkdown (listed host directory files)
listed-AllMarkdown host directory files n m =
    let (_, h) =
      filter-Has is_markdown (host.read_dir files directory) n
        (sort_by-Has (λ name. name) n (filter is_markdown (host.read_dir files directory)) m) in
    elim (Option-cases (markdown_stem n)) [ inl e ↦ absurd (ground arith) | inr found ↦ found ]

module _ {Document : Type 0} (host : Host) (parse : String → String → Result String Document)
    (id_of order_of : Document → String) (id_field : String) (eligible : Document → Bool)
    (directory : String) (laws : HostLaws host) where
  abbrev pub Eligible : Files → String → Document → Type 0
  Eligible = IsEligible host parse id_of order_of id_field eligible directory laws

  abbrev pub entry : String → Document → Candidate
  entry = candidate host parse id_of order_of id_field eligible directory laws

  -- What the loop over the files comes to: the candidates are the eligible files that are listed.
  pub record Found (files : Files) (names : List String) (found : List Candidate) (files' : Files)
      : Type 0 where
    pub shrinks : Shrinks directory files files'
    pub keeps :
        (n : String) (document : Document) → Eligible files n document → Eligible files' n document
    pub sound :
        (c : Candidate)
        → Has c found
        → (n : String) × (document : Document) × (c ≡ entry n document) × Eligible files' n document
    pub complete :
        (n : String) (document : Document)
        → Has n names
        → Eligible files n document
        → Has (entry n document) found

  abbrev pub loop : List String → FileStep (List Candidate)
  loop = candidates host parse id_of order_of id_field eligible directory

  Found-cons :
      (files files' : Files) (name : String) (names : List String) (document : Document)
      (found : List Candidate)
      → Eligible files name document
      → Found files names found files'
      → Found files (name ∷ names) (entry name document ∷ found) files'
  Found-cons files files' name names document found h rest = record {
    shrinks = rest.shrinks;
    keeps = rest.keeps;
    sound = λ c m. elim (Has-cons c (entry name document) found m) [
      | inl e ↦ (name, document, e, rest.keeps name document h)
      | inr n ↦ rest.sound c n
    ];
    complete = λ n d m k. elim (Has-cons n name names m) [
      | inr later ↦ there (rest.complete n d later k)
      | inl e ↦
          let same : d ≡ document =
            document_once host parse id_of order_of id_field eligible directory laws files name d
              document (rw e at k) h in
          rw (e, same) here
    ];
  }

  Found-skip :
      (files files1 files' : Files) (name : String) (names : List String) (found : List Candidate)
      → Passed host parse id_of order_of id_field eligible directory laws files name files1
      → Found files1 names found files'
      → Found files (name ∷ names) found files'
  Found-skip files files1 files' name names found passed rest = record {
    shrinks = Shrinks-trans directory files files1 files' passed.shrinks rest.shrinks;
    keeps = λ n document h. rest.keeps n document (passed.keeps n document h);
    sound = rest.sound;
    complete = λ n d m k. elim (Has-cons n name names m) [
      | inr later ↦ rest.complete n d later (passed.keeps n d k)
      | inl e ↦ absurd (passed.ineligible d (rw e at k))
    ];
  }

  candidates-Found :
      (files : Files) (names : List String)
      → AllMarkdown names
      → (found : List Candidate) × (files' : Files) × (loop names files ≡ (ok found, files'))
        × Found files names found files'
  unfolding candidates ◌>>=◌
  candidates-Found files [] all = (
    [],
    files,
    refl,
    record {
      shrinks = Shrinks-refl directory files;
      keeps = λ n document h. h;
      sound = λ c m. elim m [ ];
      complete = λ n document m h. elim m [ ];
    },
  )
  candidates-Found files (name ∷ names) all =
      let (stem, md) = all name here in
      elim (examine-cases host parse id_of order_of id_field eligible directory laws files name stem
        md) [
          | inl (document, h, e) ↦
              let (found, files', r, rest) =
                candidates-Found files names (λ n m. all n (there m)) in
              (
                entry name document ∷ found,
                files',
                rw (e, r) refl,
                Found-cons files files' name names document found h rest,
              )
          | inr (files1, e, passed) ↦
              let (found, files', r, rest) =
                candidates-Found files1 names (λ n m. all n (there m)) in
              (
                found,
                files',
                rw (e, r) refl,
                Found-skip files files1 files' name names found passed rest,
              )
        ]

  abbrev pub selection : FileStep (Option Candidate)
  selection = select_oldest host parse id_of order_of id_field eligible directory

  -- The selection does not fail, and takes the first of the eligible files that are listed.
  pub select_oldest-Found :
      (files : Files)
      → (found : List Candidate) × (files' : Files) × (selection files
          ≡ (ok (oldest comes_before found), files'))
        × Found files (listed host directory files) found files'
  unfolding select_oldest list_markdown_files ◌>>=◌
  select_oldest-Found files =
      let (found, files', e, f) =
        candidates-Found files (listed host directory files)
          (listed-AllMarkdown host directory files) in
      (found, files', rw e refl, f)

  -- An eligible file of a directory whose listing is complete is listed.
  pub Eligible-listed :
      (files : Files) (n : String) (document : Document)
      → ListsAll host files directory
      → Eligible files n document
      → Has n (listed host directory files)
  unfolding ListsAll
  Eligible-listed files n document all h =
      Has-sort_by (λ name. name) n (filter is_markdown (host.read_dir files directory))
        (Has-filter is_markdown (host.read_dir files directory) n (all n h.content h.present)
          (ap is_some h.named))
