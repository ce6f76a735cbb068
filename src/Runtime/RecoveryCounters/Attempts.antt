-- ===== src/Runtime/RecoveryCounters/Attempts.antt =====
-- What the router reads back after a recovery counter was incremented.
use millrace_rs.Base.{
  String, eq_iff, ◌≡◌, refl, ap, ◌∙◌, ℕ, suc, ◌<◌, Bool, true, inl, inr, Bool-cases, Option, none,
  some, Option-cases, List, [], ◌∷◌, find, find-Has, All, test, ok, arith,
}
use millrace_rs.Base.Text.{trim, is_blank}
use millrace_rs.Contracts.Enums.{Plane, WorkItemKind, WorkItemKind-discrete}
use millrace_rs.Runtime.State.{RuntimeSnapshot, RecoveryCounterEntry, RecoveryCounters, Timestamp}
use millrace_rs.Runtime.FailureClass.{normalize_failure_class}
use millrace_rs.Runtime.Router.{counter_attempts, is_entry_for, attempts_of}
use millrace_rs.Runtime.RecoveryCounters.{
  RecoveryCounterField, u64_mod, is_stored_for, fresh_entry, recovery_counter_entry, write_entry,
  count_of, increment_entry, add_one, increment_counter_field,
}

abbrev pub IsNormal : String → Type 0
IsNormal failure_class = normalize_failure_class failure_class ≡ ok failure_class

-- Every stored failure class is in its normal form.
abbrev pub AllNormal : List RecoveryCounterEntry → Type 0
AllNormal entries = All (λ entry. IsNormal entry.failure_class) entries

-- The counter that a plane's router reads.
abbrev pub field_read_on : Plane → RecoveryCounterField
field_read_on Plane.execution = RecoveryCounterField.troubleshoot_attempt_count
field_read_on Plane.planning = RecoveryCounterField.mechanic_attempt_count
field_read_on Plane.learning = RecoveryCounterField.mechanic_attempt_count

attempts_of-eq-count :
    (plane : Plane) (e : RecoveryCounterEntry)
    → attempts_of plane e ≡ count_of (field_read_on plane) e
unfolding attempts_of count_of
attempts_of-eq-count Plane.execution e = refl
attempts_of-eq-count Plane.planning e = refl
attempts_of-eq-count Plane.learning e = refl

test_self {ℓ} : {A : Type ℓ} (d : Discrete A) (a : A) → test (d a a) ≡ true
test_self d a = elim (d a a) as (λ t. test t ≡ true) [ yes _ ↦ refl | no n ↦ absurd (n refl) ]

module _ (failure_class : String) (kind : WorkItemKind) (work_item_id : String) where
  stored : RecoveryCounterEntry → Bool
  stored = is_stored_for failure_class kind work_item_id

  -- On a normalized entry, the test of the reader and that of the writer agree.
  tests_agree :
      (entry : RecoveryCounterEntry)
      → IsNormal entry.failure_class
      → is_entry_for kind work_item_id failure_class entry ≡ stored entry
  unfolding is_entry_for stored is_stored_for
  tests_agree entry h = rw h (ground arith)

  find_agrees :
      (entries : List RecoveryCounterEntry)
      → AllNormal entries
      → find (is_entry_for kind work_item_id failure_class) entries ≡ find stored entries
  unfolding find
  find_agrees [] h = refl
  find_agrees (e ∷ es) h = rw (tests_agree e h.0, find_agrees es h.1) refl

  find-write_entry :
      (entry : RecoveryCounterEntry) (entries : List RecoveryCounterEntry)
      → stored entry ≡ true
      → find stored (write_entry stored entry entries) ≡ some entry
  unfolding find write_entry
  find-write_entry entry [] h = rw h refl
  find-write_entry entry (e ∷ es) h = elim (Bool-cases (stored e)) [
    | inl k ↦ rw (k, h) refl
    | inr k ↦ rw (k, k) (find-write_entry entry es h)
  ]

  stored-increment_entry :
      (field : RecoveryCounterField) (entry : RecoveryCounterEntry) (now : Timestamp)
      → stored (record (increment_entry field entry) { last_updated_at = now }) ≡ stored entry
  unfolding stored is_stored_for increment_entry
  stored-increment_entry RecoveryCounterField.troubleshoot_attempt_count entry now = refl
  stored-increment_entry RecoveryCounterField.mechanic_attempt_count entry now = refl
  stored-increment_entry RecoveryCounterField.fix_cycle_count entry now = refl
  stored-increment_entry RecoveryCounterField.consultant_invocations entry now = refl

  stored-fresh_entry :
      (now : Timestamp) → stored (fresh_entry failure_class kind work_item_id now) ≡ true
  unfolding stored is_stored_for
  stored-fresh_entry now = ground (
    arith,
    (eq_iff failure_class failure_class).1 refl,
    (eq_iff work_item_id work_item_id).1 refl,
    test_self WorkItemKind-discrete kind,
  )

  stored-recovery_counter_entry :
      (entries : List RecoveryCounterEntry) (now : Timestamp)
      → stored (recovery_counter_entry entries failure_class kind work_item_id now) ≡ true
  unfolding recovery_counter_entry stored
  stored-recovery_counter_entry entries now =
      elim (Option-cases (find (is_stored_for failure_class kind work_item_id) entries)) [
        | inl e ↦ rw e (stored-fresh_entry now)
        | inr (entry, e) ↦
            rw e (find-Has (is_stored_for failure_class kind work_item_id) entries entry e).1
      ]

  count-increment_entry :
      (field : RecoveryCounterField) (entry : RecoveryCounterEntry) (now : Timestamp)
      → count_of field (record (increment_entry field entry) { last_updated_at = now })
        ≡ add_one (count_of field entry)
  unfolding count_of increment_entry
  count-increment_entry RecoveryCounterField.troubleshoot_attempt_count entry now = refl
  count-increment_entry RecoveryCounterField.mechanic_attempt_count entry now = refl
  count-increment_entry RecoveryCounterField.fix_cycle_count entry now = refl
  count-increment_entry RecoveryCounterField.consultant_invocations entry now = refl

  count-fresh_entry :
      (field : RecoveryCounterField) (now : Timestamp)
      → count_of field (fresh_entry failure_class kind work_item_id now) ≡ 0
  unfolding count_of
  count-fresh_entry RecoveryCounterField.troubleshoot_attempt_count now = refl
  count-fresh_entry RecoveryCounterField.mechanic_attempt_count now = refl
  count-fresh_entry RecoveryCounterField.fix_cycle_count now = refl
  count-fresh_entry RecoveryCounterField.consultant_invocations now = refl

  AllNormal-write_entry :
      (entry : RecoveryCounterEntry) (entries : List RecoveryCounterEntry)
      → IsNormal entry.failure_class
      → AllNormal entries
      → AllNormal (write_entry stored entry entries)
  unfolding write_entry
  AllNormal-write_entry entry [] h k = (h, tt)
  AllNormal-write_entry entry (e ∷ es) h k = elim (Bool-cases (stored e)) [
    | inl b ↦ rw b (h, k.1)
    | inr b ↦ rw b (k.0, AllNormal-write_entry entry es h k.1)
  ]

  -- The entry that a successful increment writes.
  abbrev incremented :
      RecoveryCounterField → Timestamp → List RecoveryCounterEntry → RecoveryCounterEntry
  incremented field now entries =
      record (increment_entry field
        (recovery_counter_entry entries failure_class kind work_item_id now)) {
          last_updated_at = now;
        }

  increment-entries :
      (counters counters' : RecoveryCounters) (s s' : RuntimeSnapshot)
      (field : RecoveryCounterField) (now : Timestamp)
      → increment_counter_field counters s failure_class kind work_item_id field now
        ≡ ok (counters', s')
      → counters'.entries
        ≡ write_entry stored (incremented field now counters.entries) counters.entries
  unfolding increment_counter_field stored
  increment-entries counters counters' s s' field now h =
      elim (Bool-cases (is_blank (trim failure_class))) [
        | inl b ↦ absurd (ground arith)
        | inr b ↦ elim (Bool-cases (is_blank (trim work_item_id))) [
          | inl c ↦ absurd (ground arith)
          | inr c ↦ ground arith
        ]
      ]

  -- What the router of a plane reads for the key.
  abbrev count_or_zero : RecoveryCounterField → Option RecoveryCounterEntry → ℕ
  count_or_zero field none = 0
  count_or_zero field (some entry) = count_of field entry

  counter_attempts-eq :
      (t : RuntimeSnapshot) (counters : RecoveryCounters) (plane : Plane)
      → AllNormal counters.entries
      → IsNormal failure_class
      → t.active_work_item_kind ≡ some kind
      → t.active_work_item_id ≡ some work_item_id
      → counter_attempts t counters failure_class plane
        ≡ ok (count_or_zero (field_read_on plane) (find stored counters.entries))
  unfolding counter_attempts
  counter_attempts-eq t counters plane all normal k i =
      rw (k, i, normal, find_agrees counters.entries all)
        (elim (Option-cases (find stored counters.entries)) [
          | inl e ↦ rw e refl
          | inr (entry, e) ↦ rw (e, attempts_of-eq-count plane entry) refl
        ])

  count-recovery_counter_entry :
      (field : RecoveryCounterField) (entries : List RecoveryCounterEntry) (now : Timestamp)
      → count_of field (recovery_counter_entry entries failure_class kind work_item_id now)
        ≡ count_or_zero field (find stored entries)
  unfolding recovery_counter_entry stored
  count-recovery_counter_entry field entries now =
      elim (Option-cases (find (is_stored_for failure_class kind work_item_id) entries)) [
        | inl e ↦ rw e (count-fresh_entry field now)
        | inr (entry, e) ↦ rw e refl
      ]

  class-increment_entry :
      (field : RecoveryCounterField) (entry : RecoveryCounterEntry)
      → (increment_entry field entry).failure_class ≡ entry.failure_class
  unfolding increment_entry
  class-increment_entry RecoveryCounterField.troubleshoot_attempt_count entry = refl
  class-increment_entry RecoveryCounterField.mechanic_attempt_count entry = refl
  class-increment_entry RecoveryCounterField.fix_cycle_count entry = refl
  class-increment_entry RecoveryCounterField.consultant_invocations entry = refl

  class_stored :
      (entry : RecoveryCounterEntry) → stored entry ≡ true → entry.failure_class ≡ failure_class
  unfolding stored is_stored_for
  class_stored entry h = (eq_iff entry.failure_class failure_class).0 (ground arith)

  -- An increment keeps the stored failure classes normalized, and the router then reads one attempt
  -- more for the work item.
  pub increment-attempts :
      (counters counters' : RecoveryCounters) (s s' t : RuntimeSnapshot) (plane : Plane)
      (now : Timestamp) (n : ℕ)
      → AllNormal counters.entries
      → IsNormal failure_class
      → t.active_work_item_kind ≡ some kind
      → t.active_work_item_id ≡ some work_item_id
      → counter_attempts t counters failure_class plane ≡ ok n
      → suc n < u64_mod
      → increment_counter_field counters s failure_class kind work_item_id (field_read_on plane) now
        ≡ ok (counters', s')
      → AllNormal counters'.entries
        × (counter_attempts t counters' failure_class plane ≡ ok (suc n))
  increment-attempts counters counters' s s' t plane now n all normal k i before small h =
      (all', counter_attempts-eq t counters' plane all' normal k i ∙ ap ok counted)
    where
      field : RecoveryCounterField
      field = field_read_on plane

      old : RecoveryCounterEntry
      old = recovery_counter_entry counters.entries failure_class kind work_item_id now

      written : stored (incremented field now counters.entries) ≡ true
      written =
          stored-increment_entry field old now ∙ stored-recovery_counter_entry counters.entries now

      entries' :
          counters'.entries
          ≡ write_entry stored (incremented field now counters.entries) counters.entries
      entries' = increment-entries counters counters' s s' field now h

      all' : AllNormal counters'.entries
      all' = rw entries' (
          AllNormal-write_entry (incremented field now counters.entries) counters.entries
            (rw (class_stored (incremented field now counters.entries) written) normal) all)

      read : count_or_zero field (find stored counters.entries) ≡ n
      read = ground (arith, counter_attempts-eq t counters plane all normal k i)

      counted : count_or_zero field (find stored counters'.entries) ≡ suc n
      counted =
          rw
            (
              entries',
              find-write_entry (incremented field now counters.entries) counters.entries written,
              count-increment_entry field old now,
              count-recovery_counter_entry field counters.entries now,
              read,
            )
            (omega arith)
