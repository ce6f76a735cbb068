-- ===== src/Workspace/Claims/Documents.antt =====
-- contracts/work_documents.rs: what the queue reads of the documents of work items. The other fields are left out. Their
-- parsers, their validation and their printing stand in a record for each kind of document.
use millrace_rs.Base.{String, Option, none, some, or_else, List, Result}
use millrace_rs.Runtime.State.{Timestamp}

pub data SpecSourceType : Type 0 where
  idea incident manual derived_spec probe : SpecSourceType

pub record TaskDocument : Type 0 where
  pub task_id : String
  pub root_spec_id : Option String
  pub root_idea_id : Option String
  pub spec_id : Option String
  pub depends_on : List String
  pub created_at : Timestamp
  pub updated_at : Option Timestamp

pub record SpecDocument : Type 0 where
  pub spec_id : String
  pub source_type : SpecSourceType
  pub root_spec_id : Option String
  pub created_at : Timestamp

pub record ProbeDocument : Type 0 where
  pub probe_id : String
  pub created_at : Timestamp

pub record IncidentDocument : Type 0 where
  pub incident_id : String
  pub root_spec_id : Option String
  pub source_spec_id : Option String
  pub opened_at : Timestamp

pub record LearningRequestDocument : Type 0 where
  pub learning_request_id : String
  pub created_at : Timestamp

unfoldable pub effective_root_spec_task : TaskDocument → Option String
effective_root_spec_task document = or_else document.root_spec_id document.spec_id

abbrev of_source : SpecSourceType → String → Option String
of_source SpecSourceType.idea spec_id = some spec_id
of_source SpecSourceType.manual spec_id = some spec_id
of_source SpecSourceType.incident spec_id = none
of_source SpecSourceType.derived_spec spec_id = none
of_source SpecSourceType.probe spec_id = none

unfoldable pub effective_root_spec_spec : SpecDocument → Option String
effective_root_spec_spec document =
    or_else document.root_spec_id (of_source document.source_type document.spec_id)

unfoldable pub effective_root_spec_incident : IncidentDocument → Option String
effective_root_spec_incident document = or_else document.root_spec_id document.source_spec_id

-- Parsing a file's content, given the path for the error's text; `validate`; printing.
pub record Codec (Document : Type 0) : Type 0 where
  pub parse : String → String → Result String Document
  pub validate : Document → Result String (Unit {0})
  pub render : Document → String

pub record Codecs : Type 0 where
  pub task : Codec TaskDocument
  pub spec : Codec SpecDocument
  pub probe : Codec ProbeDocument
  pub incident : Codec IncidentDocument
  pub learning_request : Codec LearningRequestDocument
