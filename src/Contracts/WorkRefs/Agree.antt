-- ===== src/Contracts/WorkRefs/Agree.antt =====
-- A coerced pair of family and kind names one thing: the two agree with each other and on the plane.
use millrace_rs.Base.{
  String, ◌==◌, eq_iff, ◌≡◌, refl, inl, inr, Bool-cases, Option, none, some, ok, >>=-eq-ok, arith,
}
use millrace_rs.Base.Text.{trim}
use millrace_rs.Contracts.Enums.{WorkItemKind}
use millrace_rs.Contracts.WorkItemKind
use millrace_rs.Contracts.QueueClaims.{plane_for_builtin_kind}
use millrace_rs.Contracts.WorkRefs.{
  validate_safe_identifier, identifier_chars, normalize_work_item_family_id, normalize_optional,
  resolve_kind, resolve_family, kind_of_family, plane_of_family,
  legacy_work_item_kind_for_family_id, family_id_for_work_item_kind, coerce_family_and_kind,
}

-- A family and a kind that name the same work items.
abbrev pub Agrees : Option String → Option WorkItemKind → Type 0
Agrees none none = Unit
Agrees none (some kind) = ⊥
Agrees (some family) none = kind_of_family family ≡ none
Agrees (some family) (some kind) =
    (family ≡ WorkItemKind.as_str kind)
    × (plane_of_family family ≡ some (plane_for_builtin_kind kind))

plane_of_kind :
    (kind : WorkItemKind)
    → plane_of_family (WorkItemKind.as_str kind) ≡ some (plane_for_builtin_kind kind)
unfolding plane_of_family plane_for_builtin_kind WorkItemKind.as_str
plane_of_kind WorkItemKind.task = refl
plane_of_kind _ = refl

safe_identifier_eq :
    (value field_name result : String)
    → validate_safe_identifier value field_name ≡ ok result
    → result ≡ value
unfolding validate_safe_identifier
safe_identifier_eq value field_name result h = elim (Bool-cases (trim value == value)) [
  | inr e ↦ absurd (ground arith)
  | inl e ↦ chars value (rw e at h)
]
  where
    chars : (s : String) → identifier_chars field_name value s ≡ ok result → result ≡ value
    chars String.[] k = absurd (ground arith)
    chars (String.◌∷◌ c rest) k = ground arith

legacy_none :
    (family : String)
    → legacy_work_item_kind_for_family_id family ≡ ok none
    → kind_of_family family ≡ none
unfolding legacy_work_item_kind_for_family_id normalize_work_item_family_id
legacy_none family h =
    let (value, e, k) =
      >>=-eq-ok (validate_safe_identifier family "work_item_family_id") _ none h in
    let same = safe_identifier_eq family "work_item_family_id" value e in
    let found : kind_of_family value ≡ none = ground arith in rw (← same) found

resolved-Agrees :
    (family : Option String) (kind resolved : Option WorkItemKind) (family' : Option String)
    (kind' : Option WorkItemKind)
    → resolve_kind family kind ≡ ok resolved
    → resolve_family family resolved ≡ ok (family', kind')
    → Agrees family' kind'
unfolding resolve_kind resolve_family family_id_for_work_item_kind
resolved-Agrees (some family) kind (some k) family' kind' hk hf =
    elim (Bool-cases (family == WorkItemKind.as_str k)) [
      | inr e ↦ absurd (ground arith)
      | inl e ↦
          let same = (eq_iff family (WorkItemKind.as_str k)).0 e in
          let f : family' ≡ some family = ground arith in
          let g : kind' ≡ some k = ground arith in rw (f, g) (same, rw same (plane_of_kind k))
    ]
resolved-Agrees (some family) none none family' kind' hk hf =
    let f : family' ≡ some family = ground arith in
    let g : kind' ≡ none = ground arith in rw (f, g) (legacy_none family hk)
resolved-Agrees (some family) (some k) none family' kind' hk hf = absurd (ground arith)
resolved-Agrees none kind (some k) family' kind' hk hf =
    let f : family' ≡ some (WorkItemKind.as_str k) = ground arith in
    let g : kind' ≡ some k = ground arith in rw (f, g) (refl, plane_of_kind k)
resolved-Agrees none kind none family' kind' hk hf =
    let f : family' ≡ none = ground arith in let g : kind' ≡ none = ground arith in rw (f, g) tt

-- When a pair of family and kind is coerced without an error, the results agree. A kind comes with its
-- own text as the family, and the family's plane is the plane on which items of the kind are claimed. A
-- family without a kind is none of the built-in ones.
pub coerce-Agrees :
    (family_id family' : Option String) (kind kind' : Option WorkItemKind)
    → coerce_family_and_kind family_id kind ≡ ok (family', kind')
    → Agrees family' kind'
unfolding coerce_family_and_kind
coerce-Agrees family_id family' kind kind' h =
    let (family, e, k) = >>=-eq-ok (normalize_optional family_id) _ (family', kind') h in
    let (resolved, e', k') = >>=-eq-ok (resolve_kind family kind) _ (family', kind') k in
    resolved-Agrees family kind resolved family' kind' e' k'
