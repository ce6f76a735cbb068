-- ===== src/Contracts/WorkRefs.antt =====
-- contracts/work_refs.rs, with the safe identifiers of contracts/stage_metadata.rs: work items named by
-- a family id, by a built-in kind, or by both.
pub mod Agree
pub mod Examples
use Prim.Native.Char.{Char, code}
use millrace_rs.Base.{
  String, ◌==◌, ℕ, Bool, true, not, ◌&&◌, ◌||◌, Option, none, some, if◌then◌else◌, leb, Result, ok,
  err, ◌>>=◌,
}
use millrace_rs.Base.Text.{trim, is_ascii_alphanumeric, all_chars}
use millrace_rs.Contracts.Enums.{Plane, WorkItemKind}
use millrace_rs.Contracts.WorkItemKind
use millrace_rs.Contracts.Error.{
  ContractError, IdentifierErrorReason, unsafe_identifier, surrounding_whitespace, empty,
  invalid_characters,
}

is_at : ℕ → ℕ → Bool
is_at c n = leb c n && leb n c

unfoldable pub is_identifier_char : ℕ → Bool
unfolding is_at
is_identifier_char n = is_ascii_alphanumeric n || is_at b'.' n || is_at b'_' n || is_at b'-' n

identifier_chars : String → String → String → Result ContractError String
identifier_chars field_name value String.[] = err (unsafe_identifier field_name value empty)
identifier_chars field_name value (String.◌∷◌ c rest) =
    if not (is_ascii_alphanumeric (code c)) || not (all_chars is_identifier_char rest)
    then err (unsafe_identifier field_name value invalid_characters)
    else ok value

unfoldable pub validate_safe_identifier : String → String → Result ContractError String
unfolding identifier_chars
validate_safe_identifier value field_name =
    if not (trim value == value)
    then err (unsafe_identifier field_name value surrounding_whitespace)
    else identifier_chars field_name value value

unfoldable pub normalize_work_item_family_id : String → String → Result ContractError String
normalize_work_item_family_id value field_name = validate_safe_identifier value field_name

unfoldable pub family_id_for_work_item_kind : WorkItemKind → String
family_id_for_work_item_kind kind = WorkItemKind.as_str kind

-- The arms of the match on a normalized family id.
unfoldable pub kind_of_family : String → Option WorkItemKind
kind_of_family family =
    if family == "task"
    then some WorkItemKind.task
    else if family == "probe"
    then some WorkItemKind.probe
    else if family == "spec"
    then some WorkItemKind.spec
    else if family == "incident"
    then some WorkItemKind.incident
    else if family == "learning_request"
    then some WorkItemKind.learning_request
    else if family == "blueprint_draft"
    then some WorkItemKind.blueprint_draft
    else none

unfoldable pub legacy_work_item_kind_for_family_id :
    String → Result ContractError (Option WorkItemKind)
legacy_work_item_kind_for_family_id family_id = do
  normalized ← normalize_work_item_family_id family_id "work_item_family_id"
  ok (kind_of_family normalized)

unfoldable pub plane_of_family : String → Option Plane
plane_of_family family =
    if family == "task"
    then some Plane.execution
    else if family == "probe"
        || family == "spec"
        || family == "incident"
        || family == "blueprint_draft"
    then some Plane.planning
    else if family == "learning_request"
    then some Plane.learning
    else none

unfoldable pub plane_for_work_item_family_id : String → Result ContractError (Option Plane)
plane_for_work_item_family_id family_id = do
  normalized ← normalize_work_item_family_id family_id "work_item_family_id"
  ok (plane_of_family normalized)

-- The first match of `coerce_family_and_kind`, on the normalized family.
unfoldable pub resolve_kind :
    Option String → Option WorkItemKind → Result ContractError (Option WorkItemKind)
resolve_kind (some family) none = legacy_work_item_kind_for_family_id family
resolve_kind (some family) (some kind) = ok (some kind)
resolve_kind none kind = ok kind

-- The second match.
unfoldable pub resolve_family :
    Option String → Option WorkItemKind → Result ContractError (Option String × Option WorkItemKind)
resolve_family (some family) (some kind) =
    if not (family == WorkItemKind.as_str kind)
    then err (unsafe_identifier "work_item_family_id" family invalid_characters)
    else ok (some family, some kind)
resolve_family (some family) none = ok (some family, none)
resolve_family none (some kind) = ok (some (family_id_for_work_item_kind kind), some kind)
resolve_family none none = ok (none, none)

unfoldable pub normalize_optional : Option String → Result ContractError (Option String)
normalize_optional none = ok none
normalize_optional (some value) = do
  family ← normalize_work_item_family_id value "work_item_family_id"
  ok (some family)

unfoldable pub coerce_family_and_kind :
    Option String → Option WorkItemKind → Result ContractError (Option String × Option WorkItemKind)
coerce_family_and_kind family_id kind = do
  family ← normalize_optional family_id
  resolved ← resolve_kind family kind
  resolve_family family resolved
