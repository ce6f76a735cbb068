-- ===== src/Workspace/Claims/Listing.antt =====
-- workspace/queue_store.rs: the Markdown files of a directory. A directory that does not exist has none.
use Prim.Native.String.append
use Prim.Native.Char.{code}
use millrace_rs.Base.{
  String, ◌==◌, eq_iff, ◌≡◌, sym, ap, ◌∙◌, ℕ, Bool, Bool-cases, Option, none, some, inl, inr,
  is_some, unwrap_or, Option-cases, List, [], ◌∷◌, suc, ◌+◌, filter, if◌then◌else◌, ok, arith,
}
use millrace_rs.Base.Sort.{sort_by}
use millrace_rs.Base.Text.{concat}
use millrace_rs.Workspace.Files.{FileStep, ◌>>=◌, pure, fail}
use millrace_rs.Workspace.Claims.{Host}

abbrev put : Prim.Native.Char.Char → Option String → Option String
put c none = none
put c (some s) = some (String.◌∷◌ c s)

-- The stem of a name whose extension is `md`.
unfoldable pub markdown_stem : String → Option String
markdown_stem String.[] = none
markdown_stem (String.◌∷◌ c s) =
    let later = markdown_stem s in if s == ".md" then some (String.◌∷◌ c String.[]) else put c later

abbrev pub is_markdown : String → Bool
is_markdown name = is_some (markdown_stem name)

unfoldable pub list_markdown_files : Host → String → FileStep (List String)
list_markdown_files host directory files =
    (ok (sort_by (λ name. name) (filter is_markdown (host.read_dir files directory))), files)

abbrev stem_or_fail : Option String → String → FileStep String
stem_or_fail none name = fail (concat "path has no UTF-8 filename stem: " name)
stem_or_fail (some stem) name = pure stem

-- `path_stem` of a Markdown file.
unfoldable pub path_stem : String → FileStep String
path_stem name = stem_or_fail (markdown_stem name) name

unfoldable pub stems : List String → FileStep (List String)
stems [] = pure []
stems (name ∷ names) = path_stem name >>= λ stem. (stems names >>= λ rest. pure (stem ∷ rest))

unfoldable pub ids_in_directory : Host → String → FileStep (List String)
ids_in_directory host directory = list_markdown_files host directory >>= λ names. stems names

pub append_nil : (t : String) → concat String.[] t ≡ t
append_nil t = λ i. append.nil t i

pub append_cons :
    (c : Prim.Native.Char.Char) (s t : String)
    → concat (String.◌∷◌ c s) t ≡ String.◌∷◌ c (concat s t)
append_cons c s t = λ i. append.cons c s t i

-- A Markdown file is named by its stem.
pub markdown_stem-eq-some :
    (name stem : String) → markdown_stem name ≡ some stem → name ≡ concat stem ".md"
unfolding markdown_stem
markdown_stem-eq-some String.[] stem h = absurd (ground arith)
markdown_stem-eq-some (String.◌∷◌ c s) stem h = elim (Bool-cases (s == ".md")) [
  | inl e ↦
      let rest : s ≡ ".md" = (eq_iff s ".md").0 e in
      let same : String.◌∷◌ c String.[] ≡ stem = unwrapped (rw e at h) in
      rw (rest, ← same) (sym (append_cons c String.[] ".md" ∙ ap (String.◌∷◌ c) (append_nil ".md")))
  | inr e ↦ elim (Option-cases (markdown_stem s)) [
    | inl n ↦ absurd (let k : none ≡ some stem = rw (e, n) at h in ground arith)
    | inr (later, n) ↦
        let same : String.◌∷◌ c later ≡ stem = unwrapped (rw (e, n) at h) in
        rw (markdown_stem-eq-some s later n, ← same) (sym (append_cons c later ".md"))
  ]
]
  where
    unwrapped : {a b : String} → some a ≡ some b → a ≡ b
    unwrapped k = ap (λ o. unwrap_or o "") k

unfoldable pub size : String → ℕ
size String.[] = 0
size (String.◌∷◌ c s) = suc (size s)

pub size-concat : (s t : String) → size (concat s t) ≡ size s + size t
unfolding size
size-concat String.[] t = ap size (append_nil t) ∙ omega arith
size-concat (String.◌∷◌ c s) t = ap size (append_cons c s t) ∙ omega (arith, size-concat s t)
