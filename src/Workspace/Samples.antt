-- ===== src/Workspace/Samples.antt =====
-- A workspace's directories, and how to show that those of a kind differ.
use millrace_rs.Base.{String, ◌==◌, ◌≡◌, sym, ap, ◌∙◌, none, if◌then◌else◌}
use millrace_rs.Workspace.Files.{Files}
use millrace_rs.Workspace.Queue.{WorkspacePaths}
use millrace_rs.Workspace.Queue.Moves.{ItemState, AreApart}

abbrev pub paths : WorkspacePaths
paths = record {
  root = "";
  runtime_root = "runtime";
  state_dir = "runtime/state";
  logs_dir = "runtime/logs";
  tasks_queue_dir = "tasks/queue";
  tasks_active_dir = "tasks/active";
  tasks_done_dir = "tasks/done";
  tasks_blocked_dir = "tasks/blocked";
  specs_queue_dir = "specs/queue";
  specs_active_dir = "specs/active";
  specs_done_dir = "specs/done";
  specs_blocked_dir = "specs/blocked";
  probes_queue_dir = "probes/queue";
  probes_active_dir = "probes/active";
  probes_done_dir = "probes/done";
  probes_blocked_dir = "probes/blocked";
  incidents_incoming_dir = "incidents/incoming";
  incidents_active_dir = "incidents/active";
  incidents_resolved_dir = "incidents/resolved";
  incidents_blocked_dir = "incidents/blocked";
  learning_requests_queue_dir = "learning/queue";
  learning_requests_active_dir = "learning/active";
  learning_requests_done_dir = "learning/done";
  learning_requests_blocked_dir = "learning/blocked";
}

abbrev pub no_files : Files
no_files dir name = none

-- The state whose directory it is.
abbrev pub state_of : (ItemState → String) → String → ItemState
state_of dir_of dir =
    if dir == dir_of ItemState.queued
    then ItemState.queued
    else if dir == dir_of ItemState.active
    then ItemState.active
    else if dir == dir_of ItemState.done
    then ItemState.done
    else ItemState.blocked

pub readable-AreApart :
    (dir_of : ItemState → String)
    → ((state : ItemState) → state_of dir_of (dir_of state) ≡ state)
    → AreApart dir_of
readable-AreApart dir_of read s t differ same =
    differ (sym (read s) ∙ (ap (state_of dir_of) same ∙ read t))
