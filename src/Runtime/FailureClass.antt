-- ===== src/Runtime/FailureClass.antt =====
-- runtime/tick.rs: the failure class of a stage result, and its normal form.
use Prim.Native.Char.{Char, code}
use millrace_rs.Base.{
  String, ℕ, Bool, true, not, Option, none, some, if◌then◌else◌, ok, err, leb, ◌&&◌,
}
use millrace_rs.Base.Text.{
  concat, push, is_blank, trim, is_ascii_alphanumeric, to_ascii_lowercase_char, drop_end,
}
use millrace_rs.Runtime.State.{RuntimeSnapshot, StageResultEnvelope, invalid_state}
use millrace_rs.Runtime.Plan.{TickResult}

abbrev pub is_separator : ℕ → Bool
is_separator n = leb b'_' n && leb n b'_'

-- The text after the body of the loop has read one character.
unfoldable pub push_normalized : Bool → String → Char → String
push_normalized previous_was_separator normalized c =
    if is_ascii_alphanumeric (code c)
    then push normalized (to_ascii_lowercase_char c)
    else if previous_was_separator
    then normalized
    else concat normalized "_"

-- The loop over the characters. After each, `previous_was_separator` tells whether it was no letter
-- and no digit, on every branch.
unfoldable pub normalize_chars : Bool → String → String → String
normalize_chars previous_was_separator normalized String.[] = normalized
normalize_chars previous_was_separator normalized (String.◌∷◌ c rest) =
    normalize_chars (not (is_ascii_alphanumeric (code c)))
      (push_normalized previous_was_separator normalized c) rest

unfoldable pub normalize_failure_class : String → TickResult String
normalize_failure_class value =
    let normalized = drop_end is_separator (normalize_chars true "" (trim value)) in
    if is_blank normalized
    then err (invalid_state "failure_class cannot be empty")
    else ok normalized

-- The text, if something is left of it when it is trimmed.
unfoldable pub non_blank : Option String → Option String
non_blank none = none
non_blank (some value) = if is_blank (trim value) then none else some value

unfoldable pub failure_class_from_stage_result : StageResultEnvelope → Option String
failure_class_from_stage_result stage_result = non_blank (stage_result.metadata "failure_class")

unfoldable pub resolve_failure_class :
    RuntimeSnapshot → StageResultEnvelope → String → TickResult String
resolve_failure_class snapshot stage_result default =
    elim (failure_class_from_stage_result stage_result) [
      | some failure_class ↦ normalize_failure_class failure_class
      | none ↦ elim (non_blank snapshot.current_failure_class) [
        | some failure_class ↦ normalize_failure_class failure_class
        | none ↦ normalize_failure_class default
      ]
    ]
