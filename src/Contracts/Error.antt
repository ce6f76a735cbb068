-- ===== src/Contracts/Error.antt =====
-- contracts/error.rs: the typed failures of the contract validators.
use millrace_rs.Base.{String}
use millrace_rs.Contracts.Enums.{Plane, StageName, TerminalResult, ResultClass}

pub data IdentifierErrorReason : Type 0 where
  surrounding_whitespace empty invalid_characters : IdentifierErrorReason

pub data ContractError : Type 0 where
  unknown_enum_value : (enum_name value : String) → ContractError
  unknown_stage_value : String → ContractError
  stage_plane_mismatch : Plane → StageName → ContractError
  unknown_terminal_result : Plane → String → ContractError
  invalid_terminal_marker : String → ContractError
  terminal_result_not_allowed : StageName → TerminalResult → ContractError
  result_class_not_allowed : StageName → TerminalResult → ResultClass → ContractError
  unsafe_identifier : (field_name value : String) → IdentifierErrorReason → ContractError
