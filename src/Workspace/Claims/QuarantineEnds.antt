-- ===== src/Workspace/Claims/QuarantineEnds.antt =====
-- The search for the name of a quarantined artifact ends at a free name, so a quarantine overwrites nothing.
use millrace_rs.Base.{
  String, ◌==◌, eq_iff, ◌≡◌, ◌≢◌, sym, ap, ◌∙◌, ℕ, zero, suc, ◌+◌, ◌≤◌, ◌<◌, Bool-cases, true,
  false, not, none, some, Option, Option-cases, unwrap_or, inl, inr, is_some, List, [], ◌∷◌, Has,
  here, there, Has-cons, length, filter, arith,
}
use millrace_rs.Base.Text.{concat}
use millrace_rs.Workspace.Files.{Files, renamed, appended, write, write-here, write-other_name}
use millrace_rs.Workspace.Queue.Moves.{concat-cancel}
use millrace_rs.Workspace.Claims.{Host, HostLaws, ListsAll}
use millrace_rs.Workspace.Claims.Endings.{IsInvalidName-ne-log}
use millrace_rs.Workspace.Claims.Listing.{size, size-concat}
use millrace_rs.Workspace.Claims.Quarantine.{
  numbered_name, free_name, quarantine_name, quarantine_invalid_artifact,
  quarantine_name-IsInvalidName,
}

-- The names of a list other than one.
without : String → List String → List String
unfolding filter
without name = filter (λ n. not (n == name))

length-without-le : (name : String) (xs : List String) → length (without name xs) ≤ length xs
unfolding without filter
length-without-le name [] = omega arith
length-without-le name (x ∷ xs) = ground (arith, length-without-le name xs)

length-without :
    (name : String) (xs : List String) → Has name xs → length (without name xs) < length xs
unfolding without filter
length-without name [] m = elim m [ ]
length-without name (x ∷ xs) m = elim (Bool-cases (x == name)) [
  | inl e ↦ rw e (omega (arith, length-without-le name xs))
  | inr e ↦ elim (Has-cons name x xs m) [
    | inl k ↦ let t = (eq_iff x name).1 (sym k) in absurd (ground arith)
    | inr n ↦ rw e (omega (arith, length-without name xs n))
  ]
]

Has-without :
    (name other : String) (xs : List String)
    → Has other xs
    → other ≢ name
    → Has other (without name xs)
unfolding without filter
Has-without name other [] m d = elim m [ ]
Has-without name other (x ∷ xs) m d = elim (Has-cons other x xs m) [
  | inl k ↦ elim (Bool-cases (x == name)) [
    | inl e ↦ absurd (d (k ∙ (eq_iff x name).0 e))
    | inr e ↦ rw (e, k) here
  ]
  | inr n ↦ elim (Bool-cases (x == name)) [
    | inl e ↦ rw e (Has-without name other xs n d)
    | inr e ↦ rw e (there (Has-without name other xs n d))
  ]
]

-- The numbered names of a quarantine differ.
numbered_name-injective :
    (host : Host) (name : String) (j k : ℕ)
    → HostLaws host
    → numbered_name host name j ≡ numbered_name host name k
    → j ≡ k
numbered_name-injective host name j k laws e = laws.decimal_injective j k (
    concat-cancel ".invalid." (host.decimal j) (host.decimal k) (
      concat-cancel name (concat ".invalid." (host.decimal j)) (concat ".invalid." (host.decimal k))
        e))

-- `xs` has the names from a number on, and the one that is tried next, that are taken.
record Left (host : Host) (files : Files) (directory name : String) (suffix_index : ℕ)
    (destination : String) (xs : List String) : Type 0 where
  tried_next : is_some (files directory destination) ≡ true → Has destination xs
  numbered :
      (j : ℕ)
      → suffix_index ≤ j
      → is_some (files directory (numbered_name host name j)) ≡ true
      → Has (numbered_name host name j) xs
  differ : (j : ℕ) → suffix_index ≤ j → destination ≢ numbered_name host name j

free_name-free :
    (host : Host) (files : Files) (directory name : String) (fuel suffix_index : ℕ)
    (destination : String) (xs : List String)
    → HostLaws host
    → Left host files directory name suffix_index destination xs
    → length xs < fuel
    → is_some (files directory (free_name host files directory name fuel suffix_index destination))
      ≡ false
unfolding free_name
free_name-free host files directory name zero suffix_index destination xs laws h l =
    absurd (omega arith)
free_name-free host files directory name (suc fuel) suffix_index destination xs laws h l =
    elim (Bool-cases (is_some (files directory destination))) [
      | inr e ↦ rw e e
      | inl e ↦ rw e (
          free_name-free host files directory name fuel (suc suffix_index)
            (numbered_name host name suffix_index) (without destination xs) laws
            (record {
              tried_next = λ t.
                  Has-without destination _ xs (h.numbered suffix_index (omega arith) t)
                    (λ k. h.differ suffix_index (omega arith) (sym k));
              numbered = λ j b t.
                  Has-without destination _ xs (h.numbered j (omega arith) t)
                    (λ k. h.differ j (omega arith) (sym k));
              differ = λ j b k.
                  let same = numbered_name-injective host name suffix_index j laws k in omega arith;
            })
            (omega (arith, length-without destination xs (h.tried_next e))))
    ]

invalid-ne-numbered :
    (host : Host) (name : String) (j : ℕ) → concat name ".invalid" ≢ numbered_name host name j
unfolding size
invalid-ne-numbered host name j e =
    let same : ".invalid" ≡ concat ".invalid." (host.decimal j) = concat-cancel name _ _ e in
    let longer : 8 ≡ 9 + size (host.decimal j) =
      ap size same ∙ size-concat ".invalid." (host.decimal j) in
    omega arith

-- The name for an artifact that is quarantined is free, if the listing of the directory has all its files: the search
-- for it ends.
pub quarantine_name-free :
    (host : Host) (files : Files) (directory name : String)
    → HostLaws host
    → ListsAll host files directory
    → files directory (quarantine_name host files directory name) ≡ none
unfolding quarantine_name ListsAll
quarantine_name-free host files directory name laws all = free (
    free_name-free host files directory name (suc (length listed)) 1 (concat name ".invalid") listed
      laws
      (record {
        tried_next = is_listed (concat name ".invalid");
        numbered = λ j b. is_listed (numbered_name host name j);
        differ = λ j b. invalid-ne-numbered host name j;
      })
      (omega arith))
  where
    listed : List String
    listed = host.read_dir files directory

    is_listed : (n : String) → is_some (files directory n) ≡ true → Has n listed
    is_listed n t = elim (Option-cases (files directory n)) [
      | inl e ↦ absurd (ground arith)
      | inr (content, e) ↦ all n content e
    ]

    free : {o : Option String} → is_some o ≡ false → o ≡ none
    free h = ground arith

-- The content stands under a name that was free, the old name is free, and no other file of the directory changes but
-- the log.
abbrev pub IsQuarantined : Host → Files → String → String → String → String → Type 0
IsQuarantined host files directory name error content =
    let destination = quarantine_name host files directory name in
    let files' = (quarantine_invalid_artifact host directory name error files).1 in
    (files directory destination ≡ none)
    × (files' directory destination ≡ some content)
    × (name ≢ "invalid-artifacts.jsonl" → files' directory name ≡ none)
    × ((other : String)
        → other ≢ name
        → other ≢ destination
        → other ≢ "invalid-artifacts.jsonl"
        → files' directory other ≡ files directory other)

-- An artifact of a directory, all of whose files are listed, is quarantined under a name that was free: its content
-- stands there, its old name is free, and no other file of its directory changes but the log.
pub quarantine-keeps :
    (host : Host) (files : Files) (directory name error content : String)
    → HostLaws host
    → ListsAll host files directory
    → files directory name ≡ some content
    → IsQuarantined host files directory name error content
unfolding quarantine_invalid_artifact renamed appended
quarantine-keeps host files directory name error content laws all present = (
  free,
  rw is_there (
      past_log q
        (IsInvalidName-ne-log q (quarantine_name-IsInvalidName host files directory name laws))
      ∙ (write-here (write files directory name none) directory q (files directory name)
          ∙ present)),
  λ apart.
      rw is_there
        (past_log name apart ∙ (past_move name distinct ∙ write-here files directory name none)),
  λ other a b c. rw is_there (
      past_log other c
      ∙ (past_move other b
          ∙ write-other_name files directory name directory other none (λ e. a (sym e)))),
)
  where
    q : String
    q = quarantine_name host files directory name

    free : files directory q ≡ none
    free = quarantine_name-free host files directory name laws all

    is_there : is_some (files directory name) ≡ true
    is_there = ap is_some present

    distinct : name ≢ q
    distinct e =
        let k : files directory q ≡ some content = rw (← e) present in absurd (ground (arith, free))

    logged : Option String
    logged = some (
        concat (unwrap_or (renamed files directory name q directory "invalid-artifacts.jsonl") "")
          (concat (host.invalid_artifact_line error q name) "\n"))

    past_log :
        (n : String)
        → n ≢ "invalid-artifacts.jsonl"
        → write
            (renamed files directory name q)
            directory
            "invalid-artifacts.jsonl"
            logged
            directory
            n
          ≡ renamed files directory name q directory n
    past_log n apart =
        write-other_name (renamed files directory name q) directory "invalid-artifacts.jsonl"
          directory n logged (λ e. apart (sym e))

    past_move :
        (n : String)
        → n ≢ q
        → renamed files directory name q directory n ≡ write files directory name none directory n
    past_move n apart =
        write-other_name (write files directory name none) directory q directory n
          (files directory name) (λ e. apart (sym e))
