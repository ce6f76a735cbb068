-- ===== src/Contracts/Laws.antt =====
-- What the stage tables and the validators of contracts/stage_metadata.rs guarantee.
use millrace_rs.Base.Text.{trim}
use millrace_rs.Contracts.StageMetadata.{stage_metadata}
use millrace_rs.Contracts.ExecutionTerminalResult
use millrace_rs.Contracts.PlanningTerminalResult
use millrace_rs.Contracts.LearningTerminalResult
use millrace_rs.Base.{
  find, String, ◌≡◌, refl, ◌⊎◌, inl, inr, ◌↔◌, Bool, true, if◌then◌else◌, List, [], ◌∷◌, Has, here,
  there, Result, ok, err, to_option, arith, Bool-cases, contains, contains-Has, Has-contains, ◌>>=◌,
}
use millrace_rs.Contracts.Enums.{
  Plane, StageName, TerminalResult, TerminalResult-discrete, ResultClass, WorkItemKind,
  ExecutionTerminalResult, PlanningTerminalResult, LearningTerminalResult,
}
use millrace_rs.Contracts.StageName
use millrace_rs.Contracts.StageOwnership.{allowed_work_item_kinds, stage_allows_work_item_kind}
use millrace_rs.Contracts.QueueClaims.{plane_for_builtin_kind}
use millrace_rs.Contracts.Validation.{
  terminal_str, terminal_result_for_plane, allowed_result_classes_by_outcome, classes_for_outcome,
  strip_prefix, terminal_plane, marker, legal_terminal_results, stage_name_for_value,
  parse_terminal_marker_for_plane, validate_terminal_marker_for_stage, blocked_terminal_for_plane,
  validate_stage_result_class,
}
use millrace_rs.Contracts.Error.{ContractError, terminal_result_not_allowed}

-- The tables and the parsers, opened together.
tables : Unit {0}
unfolding legal_terminal_results stage_metadata allowed_result_classes_by_outcome
    classes_for_outcome validate_stage_result_class contains find terminal_plane StageName.plane
    blocked_terminal_for_plane allowed_work_item_kinds stage_allows_work_item_kind
    plane_for_builtin_kind
tables = tt

parsers : Unit {0}
unfolding parse_terminal_marker_for_plane strip_prefix terminal_plane marker terminal_str
    terminal_result_for_plane ExecutionTerminalResult.as_str ExecutionTerminalResult.from_value
    PlanningTerminalResult.as_str PlanningTerminalResult.from_value LearningTerminalResult.as_str
    LearningTerminalResult.from_value trim
parsers = tt

abbrev OnPlane : Plane → List TerminalResult → Type 0
OnPlane q [] = Unit
OnPlane q (r ∷ rs) = (terminal_plane r ≡ q) × OnPlane q rs

OnPlane-Has :
    (q : Plane) (rs : List TerminalResult) (r : TerminalResult)
    → OnPlane q rs
    → Has r rs
    → terminal_plane r ≡ q
OnPlane-Has q [] r h m = elim m [ ]
OnPlane-Has q (x ∷ rs) _ h here = h.0
OnPlane-Has q (x ∷ rs) r h (there m) = OnPlane-Has q rs r h.1 m

legal_OnPlane : (stage : StageName) → OnPlane (StageName.plane stage) (legal_terminal_results stage)
unfolding tables
legal_OnPlane StageName.builder = ground arith
legal_OnPlane _ = ground arith

-- A stage may only report terminal results of the plane that owns it.
pub legal-terminal_plane :
    (stage : StageName) (r : TerminalResult)
    → Has r (legal_terminal_results stage)
    → terminal_plane r ≡ StageName.plane stage
legal-terminal_plane stage r m = OnPlane-Has _ _ r (legal_OnPlane stage) m

same_branch :
    (b : Bool) (s : StageName) (x y : Result ContractError StageName)
    → to_option x ≡ to_option y
    → to_option (if b then ok s else x) ≡ to_option (if b then ok s else y)
same_branch b s x y h = ground arith

-- The two parsers of stage values agree: `stage_name_for_value` accepts the texts that
-- `StageName::from_value` accepts, and reads them as the same stage.
pub stage_name_for_value-eq-from_value :
    (value : String)
    → to_option (stage_name_for_value value) ≡ to_option (StageName.from_value value)
unfolding stage_name_for_value StageName.from_value
stage_name_for_value-eq-from_value value = search same_branch depth 26

-- Every terminal result is read back, on its own plane, from the marker that a stage writes for it.
pub parse-marker :
    (r : TerminalResult) → parse_terminal_marker_for_plane (terminal_plane r) (marker r) ≡ ok r
unfolding parsers
parse-marker (TerminalResult.execution ExecutionTerminalResult.builder_complete) = refl
parse-marker (TerminalResult.execution _) = refl
parse-marker (TerminalResult.planning PlanningTerminalResult.blocked) = refl
parse-marker (TerminalResult.planning _) = refl
parse-marker (TerminalResult.learning LearningTerminalResult.blocked) = refl
parse-marker (TerminalResult.learning _) = refl

-- A stage's marker for a result that is legal there is accepted, and read back as that result.
pub validate-marker :
    (stage : StageName) (r : TerminalResult)
    → Has r (legal_terminal_results stage)
    → validate_terminal_marker_for_stage stage (marker r) ≡ ok r
unfolding validate_terminal_marker_for_stage
validate-marker stage r m =
    rw
      (← legal-terminal_plane stage r m, parse-marker r, Has-contains TerminalResult-discrete _ r m)

accepted-Has :
    (stage : StageName) (x r : TerminalResult)
    → (if contains TerminalResult-discrete (legal_terminal_results stage) x
        then ok x
        else err (terminal_result_not_allowed stage x))
      ≡ ok r
    → Has r (legal_terminal_results stage)
accepted-Has stage x r h =
    elim (Bool-cases (contains TerminalResult-discrete (legal_terminal_results stage) x)) [
      | inl yes' ↦
          let same : x ≡ r = ground arith in
          rw (← same) (contains-Has TerminalResult-discrete _ x yes')
      | inr no' ↦ absurd (ground arith)
    ]

-- A marker that a stage's validation accepts stands for a result that is legal for the stage.
pub validate-Has :
    (stage : StageName) (text : String) (r : TerminalResult)
    → validate_terminal_marker_for_stage stage text ≡ ok r
    → Has r (legal_terminal_results stage)
unfolding validate_terminal_marker_for_stage
validate-Has stage text r h = after (parse_terminal_marker_for_plane (StageName.plane stage) text) h
  where
    after :
        (m : Result ContractError TerminalResult)
        → (m >>= λ x.
            if contains TerminalResult-discrete (legal_terminal_results stage) x
            then ok x
            else err (terminal_result_not_allowed stage x))
          ≡ ok r
        → Has r (legal_terminal_results stage)
    after (ok x) k = accepted-Has stage x r k
    after (err c) k = absurd (ground arith)

-- Whatever the stage, it may report that it is blocked, as a block or as a recoverable failure, and in no
-- other class.
pub validate-blocked :
    (stage : StageName) (c : ResultClass)
    → (validate_stage_result_class stage (blocked_terminal_for_plane (StageName.plane stage)) c
        ≡ ok tt)
      ↔ ((c ≡ ResultClass.blocked) ⊎ (c ≡ ResultClass.recoverable_failure))
unfolding tables
validate-blocked StageName.builder c = (λ h. ground arith, λ h. ground arith)
validate-blocked _ c = (λ h. ground arith, λ h. ground arith)

-- The work items that a stage may own are claimed on the stage's plane.
pub stage_allows-plane :
    (stage : StageName) (kind : WorkItemKind)
    → stage_allows_work_item_kind stage kind ≡ true
    → plane_for_builtin_kind kind ≡ StageName.plane stage
unfolding tables
stage_allows-plane StageName.builder kind h = ground arith
stage_allows-plane _ kind h = ground arith
