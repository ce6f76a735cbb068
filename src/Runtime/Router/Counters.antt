-- ===== src/Runtime/Router/Counters.antt =====
-- runtime/tick.rs: the attempts that the persisted recovery counters record for the active work item.
use millrace_rs.Base.{
  String, ◌==◌, ℕ, Bool, false, ◌&&◌, Option, none, some, find, test, ok, err, ◌>>=◌,
}
use millrace_rs.Base.Text.{concat, trim}
use millrace_rs.Contracts.Enums.{Plane, WorkItemKind, WorkItemKind-discrete}
use millrace_rs.Contracts.WorkItemKind
use millrace_rs.Runtime.State.{RuntimeSnapshot, RecoveryCounterEntry, RecoveryCounters}
use millrace_rs.Runtime.Plan.{TickResult}
use millrace_rs.Runtime.FailureClass.{normalize_failure_class}

-- Whether an entry counts for a work item and a normalized failure class.
unfoldable pub is_entry_for : WorkItemKind → String → String → RecoveryCounterEntry → Bool
is_entry_for kind work_item_id normalized entry =
    test (WorkItemKind-discrete entry.work_item_kind kind)
    && entry.work_item_id == work_item_id
    && elim (normalize_failure_class entry.failure_class) [
      | ok entry_failure_class ↦ entry_failure_class == normalized
      | err _ ↦ false
    ]

unfoldable pub attempts_of : Plane → RecoveryCounterEntry → ℕ
attempts_of Plane.execution entry = entry.troubleshoot_attempt_count
attempts_of Plane.planning entry = entry.mechanic_attempt_count
attempts_of Plane.learning entry = entry.mechanic_attempt_count

attempts_or_zero : Plane → Option RecoveryCounterEntry → ℕ
attempts_or_zero plane none = 0
attempts_or_zero plane (some entry) = attempts_of plane entry

attempts_for :
    RecoveryCounters → String → Plane → Option WorkItemKind → Option String → TickResult ℕ
unfolding attempts_or_zero
attempts_for counters failure_class plane (some kind) (some work_item_id) = do
  normalized ← normalize_failure_class failure_class
  ok (attempts_or_zero plane (find (is_entry_for kind work_item_id normalized) counters.entries))
attempts_for counters failure_class plane _ _ = ok 0

unfoldable pub counter_attempts : RuntimeSnapshot → RecoveryCounters → String → Plane → TickResult ℕ
unfolding attempts_for
counter_attempts snapshot counters failure_class plane =
    attempts_for counters failure_class plane snapshot.active_work_item_kind
      snapshot.active_work_item_id

key_for : String → Option WorkItemKind → Option String → TickResult (Option String)
key_for failure_class (some kind) (some work_item_id) = do
  normalized ← normalize_failure_class failure_class
  ok (
      some (
        concat (WorkItemKind.as_str kind)
          (concat ":" (concat (trim work_item_id) (concat ":" normalized)))))
key_for failure_class _ _ = ok none

unfoldable pub counter_key_from_snapshot : RuntimeSnapshot → String → TickResult (Option String)
unfolding key_for
counter_key_from_snapshot snapshot failure_class =
    key_for failure_class snapshot.active_work_item_kind snapshot.active_work_item_id
