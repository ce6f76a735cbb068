-- ===== src/Runtime/LaneState.antt =====
-- contracts/runtime_json.rs: the validation of a lane's state. Whether a text is a time is decided by third-party
-- code: a parameter.
use text.Mathlib.Text.{starts_with}
use millrace_rs.Base.{
  String, ◌==◌, ◌≡◌, refl, inl, inr, Bool, true, false, not, ◌&&◌, Bool-cases, Option, none, some,
  List, [], ◌∷◌, is_empty, if◌then◌else◌, Result, ok, err, ◌>>=◌, arith,
}
use millrace_rs.Base.Text.{concat, trim, is_blank}
use millrace_rs.Contracts.Error.{ContractError}
use millrace_rs.Contracts.Plane
use millrace_rs.Runtime.State.{LaneRuntimeState, LaneRuntimeStatus, Timestamp}

pub data RuntimeJsonError : Type 0 where
  contract : ContractError → RuntimeJsonError
  invalid_literal : String → String → String → RuntimeJsonError
  invalid_document : String → RuntimeJsonError
  invalid_field : String → String → RuntimeJsonError

unfoldable pub require_non_blank : String → String → Result RuntimeJsonError (Unit {0})
require_non_blank field_name value =
    if is_blank (trim value) then err (invalid_field field_name "is required") else ok tt

unfoldable pub require_non_blank_entries : String → List String → Result RuntimeJsonError (Unit {0})
require_non_blank_entries field_name [] = ok tt
require_non_blank_entries field_name (value ∷ values) =
    require_non_blank field_name value >>= λ _. require_non_blank_entries field_name values

unfoldable pub require_optional_non_blank :
    String → Option String → Result RuntimeJsonError (Unit {0})
require_optional_non_blank field_name none = ok tt
require_optional_non_blank field_name (some value) = require_non_blank field_name value

-- `RuntimeJsonError::from` of a contract's error.
abbrev pub lift_contract : {A : Type 0} → Result ContractError A → Result RuntimeJsonError A
lift_contract (ok a) = ok a
lift_contract (err e) = err (contract e)

unfoldable pub validate_literal : String → String → String → Result RuntimeJsonError (Unit {0})
validate_literal field_name actual expected =
    if actual == expected then ok tt else err (invalid_literal field_name expected actual)

reject_if : Bool → String → Result RuntimeJsonError (Unit {0})
reject_if true message = err (invalid_document message)
reject_if false message = ok tt

is_active : LaneRuntimeStatus → Bool
is_active LaneRuntimeStatus.active = true
is_active _ = false

is_idle : LaneRuntimeStatus → Bool
is_idle LaneRuntimeStatus.idle = true
is_idle _ = false

unfoldable pub parse_optional_time :
    (String → Timestamp → Result RuntimeJsonError (Unit {0}))
    → Option Timestamp
    → Result RuntimeJsonError (Unit {0})
parse_optional_time parse_time none = ok tt
parse_optional_time parse_time (some moment) = parse_time "last_claim_attempt_at" moment

-- The last two checks of `LaneRuntimeState::validate`.
unfoldable pub validate_status : LaneRuntimeState → Result RuntimeJsonError (Unit {0})
unfolding reject_if is_active is_idle
validate_status lane =
    reject_if (is_active lane.status && is_empty lane.active_run_ids)
      "active lane runtime state requires active_run_ids"
    >>= λ _.
        reject_if (is_idle lane.status && not (is_empty lane.active_run_ids))
          "idle lane runtime state cannot declare active_run_ids"

-- `LaneRuntimeState::validate`
unfoldable pub validate_lane :
    (String → Timestamp → Result RuntimeJsonError (Unit {0}))
    → LaneRuntimeState
    → Result RuntimeJsonError (Unit {0})
unfolding reject_if
validate_lane parse_time lane = do
  _ ← require_non_blank "lane_id" lane.lane_id
  _ ← require_non_blank "compiled_plan_id" lane.compiled_plan_id
  _ ← require_non_blank "compiled_plan_fingerprint" lane.compiled_plan_fingerprint
  _ ←
      reject_if (not (starts_with lane.lane_id (concat (Plane.as_str lane.plane) ".")))
        "lane_id must be namespaced by lane plane"
  _ ← require_non_blank_entries "active_run_ids" lane.active_run_ids
  _ ← require_non_blank_entries "active_work_refs" lane.active_work_refs
  _ ← require_non_blank_entries "mutation_lock_refs" lane.mutation_lock_refs
  _ ← require_non_blank_entries "completion_target_refs" lane.completion_target_refs
  _ ← require_non_blank_entries "failure_counter_refs" lane.failure_counter_refs
  _ ← require_optional_non_blank "last_terminal_outcome" lane.last_terminal_outcome
  _ ← parse_optional_time parse_time lane.last_claim_attempt_at
  validate_status lane

-- An active lane has runs, and an idle lane has none.
abbrev pub IsCoherent : LaneRuntimeState → Type 0
IsCoherent lane =
    (lane.status ≡ LaneRuntimeStatus.active → is_empty lane.active_run_ids ≡ false)
    × (lane.status ≡ LaneRuntimeStatus.idle → is_empty lane.active_run_ids ≡ true)

-- The last two checks pass on exactly the coherent lanes.
pub validate_status-IsCoherent :
    (lane : LaneRuntimeState) → validate_status lane ≡ ok tt → IsCoherent lane
unfolding validate_status reject_if is_active is_idle
validate_status-IsCoherent lane h = elim (Bool-cases (is_empty lane.active_run_ids)) [
  | inl e ↦ (λ s. absurd (ground (arith, rw (e, s) at h)), λ s. e)
  | inr e ↦ (λ s. e, λ s. absurd (ground (arith, rw (e, s) at h)))
]

pub IsCoherent-validate_status :
    (lane : LaneRuntimeState) → IsCoherent lane → validate_status lane ≡ ok tt
unfolding validate_status reject_if is_active is_idle
IsCoherent-validate_status lane h = by_status lane.status h
  where
    by_status :
        (status : LaneRuntimeStatus)
        → IsCoherent (record lane { status = status })
        → validate_status (record lane { status = status }) ≡ ok tt
    by_status LaneRuntimeStatus.active k = rw (k.0 refl) refl
    by_status LaneRuntimeStatus.idle k = rw (k.1 refl) refl
    by_status LaneRuntimeStatus.paused k = refl
    by_status LaneRuntimeStatus.draining k = refl
    by_status LaneRuntimeStatus.stopped k = refl
    by_status LaneRuntimeStatus.blocked k = refl
