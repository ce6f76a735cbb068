-- ===== src/Workspace/Claims/Selected.antt =====
-- What the selection of the oldest document of a directory finds, and how it changes the files.
use millrace_rs.Base.{
  String, ◌==◌, eq_iff, ◌≡◌, refl, sym, ap, ◌∙◌, ◌⊎◌, inl, inr, Bool, Bool-cases, true, false,
  Option, Option-cases, none, some, Result, Result-cases, ok, err, arith,
}
use millrace_rs.Workspace.Files.{Files, FileStep, ◌>>=◌}
use millrace_rs.Workspace.Claims.{Host, HostLaws}
use millrace_rs.Workspace.Claims.Listing.{markdown_stem, path_stem}
use millrace_rs.Workspace.Claims.Quarantine.{
  quarantine_invalid_artifact, quarantine-other, quarantine-itself, quarantine-ok,
}
use millrace_rs.Workspace.Claims.Select.{
  Candidate, path_text, candidate_of, mismatch, judge, examine,
}

-- Files that a step leaves: of the Markdown files, only some of a directory may be gone.
abbrev pub Shrinks : String → Files → Files → Type 0
Shrinks directory files files' =
    (d n stem : String)
    → markdown_stem n ≡ some stem
    → (files' d n ≡ files d n) ⊎ ((d ≡ directory) × (files' d n ≡ none))

pub Shrinks-refl : (directory : String) (files : Files) → Shrinks directory files files
Shrinks-refl directory files d n stem m = inl refl

pub Shrinks-trans :
    (directory : String) (a b c : Files)
    → Shrinks directory a b
    → Shrinks directory b c
    → Shrinks directory a c
Shrinks-trans directory a b c h k d n stem m = elim (k d n stem m) [
  | inr gone ↦ inr gone
  | inl e ↦ elim (h d n stem m) [ inl f ↦ inl (e ∙ f) | inr (same, f) ↦ inr (same, e ∙ f) ]
]

pub quarantine-Shrinks :
    (host : Host) (files : Files) (directory name error stem : String)
    → HostLaws host
    → markdown_stem name ≡ some stem
    → Shrinks directory files (quarantine_invalid_artifact host directory name error files).1
quarantine-Shrinks host files directory name error stem laws m d n s k =
    elim (Bool-cases (d == directory)) [
      | inr a ↦ inl (
          quarantine-other host files directory name error d n s laws k
            (λ e. let t = (eq_iff d directory).1 e in absurd (ground arith)))
      | inl a ↦
          let same_dir : d ≡ directory = (eq_iff d directory).0 a in
          elim (Bool-cases (n == name)) [
            | inr b ↦ inl (
                quarantine-other host files directory name error d n s laws k
                  (λ _ e. let t = (eq_iff n name).1 e in ground arith))
            | inl b ↦
                let same_name : n ≡ name = (eq_iff n name).0 b in
                inr (
                  same_dir,
                  rw (same_dir, same_name)
                      (quarantine-itself host files directory name error stem laws m),
                )
          ]
    ]

module _ {Document : Type 0} (host : Host) (parse : String → String → Result String Document)
    (id_of order_of : Document → String) (id_field : String) (eligible : Document → Bool)
    (directory : String) (laws : HostLaws host) where
  -- The file holds the document, is named after it, and the selection does not pass over it.
  pub record IsEligible (files : Files) (name : String) (document : Document) : Type 0 where
    pub content : String
    pub present : files directory name ≡ some content
    pub reads : parse content (path_text directory name) ≡ ok document
    pub named : markdown_stem name ≡ some (id_of document)
    pub chosen : eligible document ≡ true

  abbrev pub candidate : String → Document → Candidate
  candidate = candidate_of host parse id_of order_of id_field eligible directory

  abbrev pub step : String → FileStep (Option Candidate)
  step = examine host parse id_of order_of id_field eligible directory

  -- The file is not eligible, and what is eligible stays so.
  pub record Passed (files : Files) (name : String) (files' : Files) : Type 0 where
    pub shrinks : Shrinks directory files files'
    pub ineligible : (document : Document) → IsEligible files name document → ⊥
    pub keeps :
        (n : String) (document : Document)
        → IsEligible files n document
        → IsEligible files' n document

  -- One file either is a candidate and leaves the files as they are, or is passed over.
  abbrev pub Outcome : Files → String → Type 0
  Outcome files name =
      ((document : Document) × IsEligible files name document
        × (step name files ≡ (ok (some (candidate name document)), files)))
      ⊎ ((files' : Files) × (step name files ≡ (ok none, files')) × Passed files name files')

  unmoved :
      (files : Files) (name : String)
      → ((document : Document) → IsEligible files name document → ⊥)
      → Passed files name files
  unmoved files name never = record {
    shrinks = Shrinks-refl directory files;
    ineligible = never;
    keeps = λ n document h. h;
  }

  quarantined :
      (files : Files) (name stem error : String)
      → markdown_stem name ≡ some stem
      → ((document : Document) → IsEligible files name document → ⊥)
      → Passed files name (quarantine_invalid_artifact host directory name error files).1
  quarantined files name stem error m never = record {
    shrinks = quarantine-Shrinks host files directory name error stem laws m;
    ineligible = never;
    keeps = λ n document h. record {
      content = h.content;
      present =
          quarantine-other host files directory name error directory n (id_of document) laws h.named
            (λ _ e. never document (rw e at h))
          ∙ h.present;
      reads = h.reads;
      named = h.named;
      chosen = h.chosen;
    };
  }

  same_content :
      (files : Files) (name raw : String) (document : Document) (r : Result String Document)
      → files directory name ≡ some raw
      → parse raw (path_text directory name) ≡ r
      → IsEligible files name document
      → r ≡ ok document
  same_content files name raw document r e p h =
      let same : raw ≡ h.content = ground arith in sym p ∙ (rw same h.reads)

  abbrev mismatched : Document → String → String
  mismatched document stem =
      mismatch host parse id_of order_of id_field eligible directory (id_of document) stem

  pub examine-cases :
      (files : Files) (name stem : String) → markdown_stem name ≡ some stem → Outcome files name
  unfolding examine judge path_stem ◌>>=◌
  examine-cases files name stem m = elim (Option-cases (files directory name)) [
    | inl e ↦
        inr (files, rw e refl, unmoved files name (λ document h. let k = h.present in ground arith))
    | inr (raw, e) ↦ elim (Result-cases (parse raw (path_text directory name))) [
      | inr (error, p) ↦ inr (
        (quarantine_invalid_artifact host directory name error files).1,
        rw (e, p, quarantine-ok host files directory name error) refl,
        quarantined files name stem error m (λ document h.
            let k = same_content files name raw document (err error) e p h in ground arith),
      )
      | inl (document, p) ↦ elim (Bool-cases (stem == id_of document)) [
        | inr s ↦ inr (
          (quarantine_invalid_artifact host directory name (mismatched document stem) files).1,
          rw (e, p, m, s, quarantine-ok host files directory name (mismatched document stem)) refl,
          quarantined files name stem (mismatched document stem) m (λ other h.
              misnamed document other (same_content files name raw other (ok document) e p h) h s),
        )
        | inl s ↦ elim (Bool-cases (eligible document)) [
          | inl c ↦ inl (
            document,
            record {
              content = raw;
              present = e;
              reads = p;
              named = m ∙ ap some ((eq_iff stem (id_of document)).0 s);
              chosen = c;
            },
            rw (e, p, m, s, c) refl,
          )
          | inr c ↦ inr (
            files,
            rw (e, p, m, s, c) refl,
            unmoved files name (λ other h.
                passed_over document other (same_content files name raw other (ok document) e p h) h
                  c),
          )
        ]
      ]
    ]
  ]
    where
      unwrapped : (a b : Document) → ◌≡◌ {A = Result String Document} (ok a) (ok b) → a ≡ b
      unwrapped a b k = ap (λ r. elim r [ ok d ↦ d | err _ ↦ a ]) k

      misnamed :
          (document other : Document)
          → ◌≡◌ {A = Result String Document} (ok document) (ok other)
          → IsEligible files name other
          → (stem == id_of document) ≡ false
          → ⊥
      misnamed document other k h s =
          let ids : id_of document ≡ id_of other = ap id_of (unwrapped document other k) in
          let t = eq_iff stem (id_of document) in let n = h.named in ground arith

      passed_over :
          (document other : Document)
          → ◌≡◌ {A = Result String Document} (ok document) (ok other)
          → IsEligible files name other
          → eligible document ≡ false
          → ⊥
      passed_over document other k h c =
          let same : eligible document ≡ eligible other =
            ap eligible (unwrapped document other k) in
          let t = h.chosen in ground arith

  -- A file holds one document.
  pub document_once :
      (files : Files) (name : String) (a b : Document)
      → IsEligible files name a
      → IsEligible files name b
      → a ≡ b
  document_once files name a b h k =
      let same : ◌≡◌ {A = Result String Document} (ok a) (ok b) =
        same_content files name h.content b (ok a) h.present h.reads k in
      ap (λ r. elim r [ ok d ↦ d | err _ ↦ a ]) same
