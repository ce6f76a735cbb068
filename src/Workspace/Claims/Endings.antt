-- ===== src/Workspace/Claims/Endings.antt =====
-- The names that a quarantine gives to files are not those of Markdown files or of its log.
use Prim.Native.Char.{code}
use millrace_rs.Base.{String, ◌≡◌, ◌≢◌, ap, ◌∙◌, ℕ, true, some, ◌<◌, ◌⊎◌, inl, inr, arith}
use millrace_rs.Base.Text.{concat, all_chars, is_digit}
use millrace_rs.Workspace.Claims.Listing.{
  markdown_stem, append_nil, append_cons, markdown_stem-eq-some,
}

-- The last two characters of a text, after the two before it.
final_two : String → ℕ → ℕ → ℕ × ℕ
final_two String.[] a b = (a, b)
final_two (String.◌∷◌ c s) a b = final_two s b (code c)

final_two-append :
    (s t : String) (a b : ℕ)
    → final_two (concat s t) a b ≡ final_two t (final_two s a b).0 (final_two s a b).1
unfolding final_two
final_two-append String.[] t a b = ap (λ u. final_two u a b) (append_nil t)
final_two-append (String.◌∷◌ c s) t a b =
    ap (λ u. final_two u a b) (append_cons c s t) ∙ final_two-append s t b (code c)

final_two-digits :
    (s : String) (a b : ℕ) → all_chars is_digit s ≡ true → b < 58 → (final_two s a b).1 < 58
unfolding final_two all_chars
final_two-digits String.[] a b h k = k
final_two-digits (String.◌∷◌ c s) a b h k =
    final_two-digits s b (code c) (ground arith) (ground arith)

ends_in_md : (name stem : String) → markdown_stem name ≡ some stem → final_two name 0 0 ≡ (109, 100)
unfolding final_two
ends_in_md name stem h =
    ap (λ n. final_two n 0 0) (markdown_stem-eq-some name stem h) ∙ final_two-append stem ".md" 0 0

-- The name ends as `.invalid` does, or in a digit or a point.
pub IsInvalidName : String → Type 0
IsInvalidName name = ((final_two name 0 0).0 ≡ 105) ⊎ ((final_two name 0 0).1 < 58)

pub invalid-IsInvalidName : (name : String) → IsInvalidName (concat name ".invalid")
unfolding IsInvalidName final_two
invalid-IsInvalidName name = inl (ap (λ (p : ℕ × ℕ). p.0) (final_two-append name ".invalid" 0 0))

pub numbered-IsInvalidName :
    (name digits : String)
    → all_chars is_digit digits ≡ true
    → IsInvalidName (concat name (concat ".invalid." digits))
unfolding IsInvalidName final_two
numbered-IsInvalidName name digits d =
    let same : final_two (concat name (concat ".invalid." digits)) 0 0 ≡ final_two digits 100 46 =
      final_two-append name (concat ".invalid." digits) 0 0
      ∙ final_two-append ".invalid." digits (final_two name 0 0).0 (final_two name 0 0).1 in
    let small : (final_two digits 100 46).1 < 58 = final_two-digits digits 100 46 d (omega arith) in
    inr (rw same small)

pub IsInvalidName-ne-markdown :
    (name other stem : String) → IsInvalidName name → markdown_stem other ≡ some stem → name ≢ other
unfolding IsInvalidName
IsInvalidName-ne-markdown name other stem h m e =
    let first : (final_two name 0 0).0 ≡ 109 =
      ap (λ n. (final_two n 0 0).0) e ∙ ap (λ (p : ℕ × ℕ). p.0) (ends_in_md other stem m) in
    let second : (final_two name 0 0).1 ≡ 100 =
      ap (λ n. (final_two n 0 0).1) e ∙ ap (λ (p : ℕ × ℕ). p.1) (ends_in_md other stem m) in
    elim h [ inl k ↦ omega arith | inr k ↦ omega arith ]

pub IsInvalidName-ne-log : (name : String) → IsInvalidName name → name ≢ "invalid-artifacts.jsonl"
unfolding IsInvalidName final_two
IsInvalidName-ne-log name h e =
    let first : (final_two name 0 0).0 ≡ 110 = ap (λ n. (final_two n 0 0).0) e in
    let second : (final_two name 0 0).1 ≡ 108 = ap (λ n. (final_two n 0 0).1) e in
    elim h [ inl k ↦ omega arith | inr k ↦ omega arith ]

pub log-ne-markdown :
    (other stem : String) → markdown_stem other ≡ some stem → "invalid-artifacts.jsonl" ≢ other
unfolding final_two
log-ne-markdown other stem m e =
    let first : 110 ≡ (final_two other 0 0).0 = ap (λ n. (final_two n 0 0).0) e in
    let second : (final_two other 0 0).0 ≡ 109 =
      ap (λ (p : ℕ × ℕ). p.0) (ends_in_md other stem m) in
    omega arith
