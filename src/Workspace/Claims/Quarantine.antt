-- ===== src/Workspace/Claims/Quarantine.antt =====
-- workspace/queue_store.rs: an artifact that is no valid document is renamed and logged. The search for a free name is
-- on fuel: one step for each file of the directory and one more.
use millrace_rs.Base.{
  String, ◌==◌, eq_iff, ◌≡◌, ◌≢◌, refl, sym, ◌∙◌, ℕ, zero, suc, Bool-cases, none, some, inl, inr,
  is_some, length, if◌then◌else◌, ok, arith,
}
use millrace_rs.Base.Text.{concat}
use millrace_rs.Workspace.Files.{
  Files, FileStep, renamed, appended, write, write-here, write-other_dir, write-other_name,
}
use millrace_rs.Workspace.Claims.{Host, HostLaws}
use millrace_rs.Workspace.Claims.Listing.{markdown_stem}
use millrace_rs.Workspace.Claims.Endings.{
  IsInvalidName, invalid-IsInvalidName, numbered-IsInvalidName, IsInvalidName-ne-markdown,
  log-ne-markdown,
}

abbrev pub numbered_name : Host → String → ℕ → String
numbered_name host name suffix_index = concat name (concat ".invalid." (host.decimal suffix_index))

-- `while destination.exists()`
unfoldable pub free_name : Host → Files → String → String → ℕ → ℕ → String → String
free_name host files directory name zero suffix_index destination = destination
free_name host files directory name (suc fuel) suffix_index destination =
    let later =
      free_name host files directory name fuel (suc suffix_index)
        (numbered_name host name suffix_index) in
    if is_some (files directory destination) then later else destination

unfoldable pub quarantine_name : Host → Files → String → String → String
quarantine_name host files directory name =
    free_name host files directory name (suc (length (host.read_dir files directory))) 1
      (concat name ".invalid")

unfoldable pub quarantine_invalid_artifact : Host → String → String → String → FileStep (Unit {0})
quarantine_invalid_artifact host directory name error files =
    let destination = quarantine_name host files directory name in
    if is_some (files directory name)
    then (
      ok tt,
      appended (renamed files directory name destination) directory "invalid-artifacts.jsonl"
          (concat (host.invalid_artifact_line error destination name) "\n"),
    )
    else (ok tt, files)

free_name-IsInvalidName :
    (host : Host) (files : Files) (directory name : String) (fuel suffix_index : ℕ)
    (destination : String)
    → HostLaws host
    → IsInvalidName destination
    → IsInvalidName (free_name host files directory name fuel suffix_index destination)
unfolding free_name
free_name-IsInvalidName host files directory name zero suffix_index destination laws h = h
free_name-IsInvalidName host files directory name (suc fuel) suffix_index destination laws h =
    elim (Bool-cases (is_some (files directory destination))) [
      | inl e ↦ rw e (
          free_name-IsInvalidName host files directory name fuel (suc suffix_index)
            (numbered_name host name suffix_index) laws
            (numbered-IsInvalidName name (host.decimal suffix_index) (laws.digits suffix_index)))
      | inr e ↦ rw e h
    ]

pub quarantine_name-IsInvalidName :
    (host : Host) (files : Files) (directory name : String)
    → HostLaws host
    → IsInvalidName (quarantine_name host files directory name)
unfolding quarantine_name
quarantine_name-IsInvalidName host files directory name laws =
    free_name-IsInvalidName host files directory name (suc (length (host.read_dir files directory)))
      1 (concat name ".invalid") laws (invalid-IsInvalidName name)

-- A quarantine changes no other Markdown file.
pub quarantine-other :
    (host : Host) (files : Files) (directory name error d n stem : String)
    → HostLaws host
    → markdown_stem n ≡ some stem
    → (d ≡ directory → n ≢ name)
    → (quarantine_invalid_artifact host directory name error files).1 d n ≡ files d n
unfolding quarantine_invalid_artifact renamed appended
quarantine-other host files directory name error d n stem laws m apart =
    elim (Bool-cases (is_some (files directory name))) [
      | inr e ↦ rw e refl
      | inl e ↦ rw e (
          write-other_name (renamed files directory name q) directory "invalid-artifacts.jsonl" d n
            _ (log-ne-markdown n stem m)
          ∙ (write-other_name (write files directory name none) directory q d n
                (files directory name)
                (IsInvalidName-ne-markdown q n stem
                  (quarantine_name-IsInvalidName host files directory name laws) m)
              ∙ elim (Bool-cases (directory == d)) [
                | inl k ↦
                    let same : directory ≡ d = (eq_iff directory d).0 k in
                    write-other_name files directory name d n none (λ j. apart (sym same) (sym j))
                | inr k ↦
                    write-other_dir files directory name d n none
                      (λ j. let t = (eq_iff directory d).1 j in ground arith)
              ]))
    ]
  where
    q : String
    q = quarantine_name host files directory name

-- A Markdown file that is quarantined is gone from its name, if it was there.
pub quarantine-itself :
    (host : Host) (files : Files) (directory name error stem : String)
    → HostLaws host
    → markdown_stem name ≡ some stem
    → (quarantine_invalid_artifact host directory name error files).1 directory name ≡ none
unfolding quarantine_invalid_artifact renamed appended
quarantine-itself host files directory name error stem laws m =
    elim (Bool-cases (is_some (files directory name))) [
      | inr e ↦ rw e (ground arith)
      | inl e ↦ rw e (
          write-other_name (renamed files directory name q) directory "invalid-artifacts.jsonl"
            directory name _ (log-ne-markdown name stem m)
          ∙ (write-other_name (write files directory name none) directory q directory name
                (files directory name)
                (IsInvalidName-ne-markdown q name stem
                  (quarantine_name-IsInvalidName host files directory name laws) m)
              ∙ write-here files directory name none))
    ]
  where
    q : String
    q = quarantine_name host files directory name

pub quarantine-ok :
    (host : Host) (files : Files) (directory name error : String)
    → quarantine_invalid_artifact host directory name error files
      ≡ (ok tt, (quarantine_invalid_artifact host directory name error files).1)
unfolding quarantine_invalid_artifact
quarantine-ok host files directory name error = elim (Bool-cases (is_some (files directory name))) [
  | inl e ↦ rw e refl
  | inr e ↦ rw e refl
]
