-- ===== src/Runtime/RecoveryCounters.antt =====
-- runtime/tick.rs: the recovery counters that a routed decision increments. They are loaded from a
-- file before and saved to it after: here the loaded counters are an argument, and the saved ones a
-- result.
pub mod Attempts
pub mod Ends
use millrace_rs.Base.{
  String, ◌==◌, ℕ, ◌+◌, ◌%◌, Bool, ◌&&◌, Option, none, some, List, [], ◌∷◌, find, test, unwrap_or,
  if◌then◌else◌, ok, err, ◌>>=◌,
}
use millrace_rs.Base.Text.{trim, is_blank}
use millrace_rs.Contracts.Enums.{StageName, WorkItemKind, WorkItemKind-discrete}
use millrace_rs.Contracts.Validation.{terminal_str}
use millrace_rs.Runtime.State.{
  RuntimeSnapshot, RecoveryCounterEntry, RecoveryCounters, StageResultEnvelope, Timestamp,
  invalid_state,
}
use millrace_rs.Runtime.Plan.{TickResult}
use millrace_rs.Runtime.Router.{RouterDecision}

pub data RecoveryCounterField : Type 0 where
  troubleshoot_attempt_count mechanic_attempt_count fix_cycle_count : RecoveryCounterField
  consultant_invocations : RecoveryCounterField

abbrev pub u64_mod : ℕ
u64_mod = 18446744073709551616

-- `+= 1` on a `u64`
abbrev pub add_one : ℕ → ℕ
add_one n = (n + 1) % u64_mod

counter_field_for_stage : Option StageName → Bool → Option RecoveryCounterField
counter_field_for_stage (some StageName.troubleshooter) fix =
    some RecoveryCounterField.troubleshoot_attempt_count
counter_field_for_stage (some StageName.mechanic) fix =
    some RecoveryCounterField.mechanic_attempt_count
counter_field_for_stage (some StageName.consultant) fix =
    some RecoveryCounterField.consultant_invocations
counter_field_for_stage _ fix = if fix then some RecoveryCounterField.fix_cycle_count else none

unfoldable pub route_counter_field :
    RouterDecision → StageResultEnvelope → Option RecoveryCounterField
unfolding counter_field_for_stage
route_counter_field decision r =
    counter_field_for_stage decision.next_stage (terminal_str r.terminal_result == "FIX_NEEDED")

-- The predicate of `position` in `recovery_counter_entry_mut`: the failure class as it is stored.
unfoldable pub is_stored_for : String → WorkItemKind → String → RecoveryCounterEntry → Bool
is_stored_for failure_class kind work_item_id entry =
    entry.failure_class == failure_class
    && test (WorkItemKind-discrete entry.work_item_kind kind)
    && entry.work_item_id == work_item_id

abbrev pub fresh_entry : String → WorkItemKind → String → Timestamp → RecoveryCounterEntry
fresh_entry failure_class kind work_item_id now = record {
  failure_class = failure_class;
  work_item_id = work_item_id;
  work_item_kind = kind;
  troubleshoot_attempt_count = 0;
  mechanic_attempt_count = 0;
  fix_cycle_count = 0;
  consultant_invocations = 0;
  last_updated_at = now;
}

-- The entry that `recovery_counter_entry_mut` returns a reference to.
unfoldable pub recovery_counter_entry :
    List RecoveryCounterEntry → String → WorkItemKind → String → Timestamp → RecoveryCounterEntry
recovery_counter_entry entries failure_class kind work_item_id now =
    unwrap_or (find (is_stored_for failure_class kind work_item_id) entries)
      (fresh_entry failure_class kind work_item_id now)

-- What a write through that reference leaves: the first entry for the key replaced, or one pushed.
unfoldable pub write_entry :
    (RecoveryCounterEntry → Bool)
    → RecoveryCounterEntry
    → List RecoveryCounterEntry
    → List RecoveryCounterEntry
write_entry p entry [] = entry ∷ []
write_entry p entry (e ∷ entries) =
    let rest = write_entry p entry entries in if p e then entry ∷ entries else e ∷ rest

unfoldable pub count_of : RecoveryCounterField → RecoveryCounterEntry → ℕ
count_of RecoveryCounterField.troubleshoot_attempt_count entry = entry.troubleshoot_attempt_count
count_of RecoveryCounterField.mechanic_attempt_count entry = entry.mechanic_attempt_count
count_of RecoveryCounterField.fix_cycle_count entry = entry.fix_cycle_count
count_of RecoveryCounterField.consultant_invocations entry = entry.consultant_invocations

unfoldable pub increment_entry : RecoveryCounterField → RecoveryCounterEntry → RecoveryCounterEntry
increment_entry RecoveryCounterField.troubleshoot_attempt_count entry = record entry {
  troubleshoot_attempt_count = add_one entry.troubleshoot_attempt_count;
}
increment_entry RecoveryCounterField.mechanic_attempt_count entry = record entry {
  mechanic_attempt_count = add_one entry.mechanic_attempt_count;
}
increment_entry RecoveryCounterField.fix_cycle_count entry = record entry {
  fix_cycle_count = add_one entry.fix_cycle_count;
}
increment_entry RecoveryCounterField.consultant_invocations entry = record entry {
  consultant_invocations = add_one entry.consultant_invocations;
}

unfoldable pub show_count : RecoveryCounterField → ℕ → RuntimeSnapshot → RuntimeSnapshot
show_count RecoveryCounterField.troubleshoot_attempt_count n snapshot = record snapshot {
  troubleshoot_attempt_count = n;
}
show_count RecoveryCounterField.mechanic_attempt_count n snapshot = record snapshot {
  mechanic_attempt_count = n;
}
show_count RecoveryCounterField.fix_cycle_count n snapshot = record snapshot { fix_cycle_count = n }
show_count RecoveryCounterField.consultant_invocations n snapshot = record snapshot {
  consultant_invocations = n;
}

unfoldable pub increment_counter_field :
    RecoveryCounters
    → RuntimeSnapshot
    → String
    → WorkItemKind
    → String
    → RecoveryCounterField
    → Timestamp
    → TickResult (RecoveryCounters × RuntimeSnapshot)
increment_counter_field counters snapshot failure_class kind work_item_id field now =
    if is_blank (trim failure_class)
    then err (invalid_state "failure_class is required")
    else if is_blank (trim work_item_id)
    then err (invalid_state "work_item_id is required")
    else let entry = recovery_counter_entry counters.entries failure_class kind work_item_id now in
      let incremented = record (increment_entry field entry) { last_updated_at = now } in
      ok (
        record {
          entries =
              write_entry (is_stored_for failure_class kind work_item_id) incremented
                counters.entries;
        },
        show_count field (count_of field incremented) snapshot,
      )

unfoldable pub default_failure_class : RecoveryCounterField → String
default_failure_class RecoveryCounterField.fix_cycle_count = "fix_cycle"
default_failure_class _ = "recoverable_failure"

unfoldable pub increment_for :
    Option RecoveryCounterField
    → RecoveryCounters
    → RuntimeSnapshot
    → RouterDecision
    → StageResultEnvelope
    → TickResult (RecoveryCounters × RuntimeSnapshot)
increment_for none counters snapshot decision r = ok (counters, snapshot)
increment_for (some field) counters snapshot decision r =
    increment_counter_field counters snapshot
      (unwrap_or decision.failure_class (default_failure_class field)) r.work_item_kind
      r.work_item_id field r.completed_at

unfoldable pub increment_route_counters :
    RecoveryCounters
    → RuntimeSnapshot
    → RouterDecision
    → StageResultEnvelope
    → TickResult (RecoveryCounters × RuntimeSnapshot)
unfolding increment_for default_failure_class
increment_route_counters counters snapshot decision r =
    increment_for (route_counter_field decision r) counters snapshot decision r

unfoldable pub reset_snapshot_route_counters : RuntimeSnapshot → RuntimeSnapshot
reset_snapshot_route_counters snapshot = record snapshot {
  troubleshoot_attempt_count = 0;
  mechanic_attempt_count = 0;
  fix_cycle_count = 0;
  consultant_invocations = 0;
}
