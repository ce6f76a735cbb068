-- ===== src/Contracts/WorkRefs/Examples.antt =====
-- A task that is named by its family only.
use millrace_rs.Base.{◌≡◌, refl, none, some, ok}
use millrace_rs.Base.Text.{
  trim, drop_start, drop_end, is_whitespace, is_ascii_alphanumeric, all_chars,
}
use millrace_rs.Contracts.Enums.{WorkItemKind}
use millrace_rs.Contracts.WorkItemKind
use millrace_rs.Contracts.WorkRefs.{
  is_identifier_char, validate_safe_identifier, normalize_work_item_family_id, kind_of_family,
  legacy_work_item_kind_for_family_id, resolve_kind, resolve_family, normalize_optional,
  coerce_family_and_kind,
}
use millrace_rs.Contracts.WorkRefs.Agree.{Agrees, coerce-Agrees}

task_coerced : coerce_family_and_kind (some "task") none ≡ ok (some "task", some WorkItemKind.task)
unfolding coerce_family_and_kind normalize_optional normalize_work_item_family_id
    validate_safe_identifier trim drop_start drop_end is_whitespace is_ascii_alphanumeric all_chars
    is_identifier_char resolve_kind legacy_work_item_kind_for_family_id kind_of_family
    resolve_family WorkItemKind.as_str
task_coerced = refl

coerce-Agrees_example : Agrees (some "task") (some WorkItemKind.task)
coerce-Agrees_example =
    coerce-Agrees (some "task") (some "task") none (some WorkItemKind.task) task_coerced
