-- ===== src/Workspace/Claims/Examples.antt =====
-- A queue with two tasks, of which one depends on the other, and a file that is no task.
use Prim.Native.String.{char_at}
use millrace_rs.Base.{
  String, ◌==◌, eq_iff, ◌≡◌, ◌≢◌, refl, ap, inl, inr, ℕ, zero, suc, Bool, Bool-cases, true, false,
  none, some, is_some, List, [], ◌∷◌, Has, here, there, filter, Has-filter, if◌then◌else◌, ok, err,
  arith,
}
use millrace_rs.Base.Sort.{sort_by}
use millrace_rs.Base.Text.{all_chars, is_digit}
use millrace_rs.Workspace.Files.{Files, write, is_at}
use millrace_rs.Workspace.Samples.{paths, no_files, state_of, readable-AreApart}
use millrace_rs.Workspace.Claims.{Host, HostLaws, ListsAll}
use millrace_rs.Contracts.Enums.{WorkItemKind}
use millrace_rs.Workspace.Files.{◌>>=◌}
use millrace_rs.Workspace.Queue.Moves.{ItemState, AreApart}
use millrace_rs.Workspace.QueueLifecycle.Builtin.{dirs_of}
use millrace_rs.Workspace.Claims.Documents.{Codecs, TaskDocument}
use millrace_rs.Workspace.Claims.Listing.{list_markdown_files, stems, ids_in_directory}
use millrace_rs.Workspace.Claims.QuarantineEnds.{IsQuarantined, quarantine-keeps}
use millrace_rs.Workspace.Claims.Claim.{undisturbed, claim_next_execution_task}
use millrace_rs.Workspace.Claims.Returns.{Returns}
use millrace_rs.Workspace.Claims.OldestTask.{
  ClaimsOldest, claim_next_execution_task-oldest, AtMostOneActive,
  claim_next_execution_task-AtMostOneActive,
}
use millrace_rs.Workspace.Claims.EnqueueClaim.{EnqueuesTask, enqueue_task-StandsAt}

-- Numbers in the number of their digits.
unary : ℕ → String
unary zero = String.[]
unary (suc k) = String.◌∷◌ (char_at "1" 0) (unary k)

abbrev sample_names : List String
sample_names = "a.md" ∷ "b.md" ∷ "bad.md" ∷ "c.md" ∷ []

abbrev host : Host
host = record {
  read_dir = λ files directory. filter (λ name. is_some (files directory name)) sample_names;
  decimal = unary;
  invalid_artifact_line = λ error name source. error;
}

host-HostLaws : HostLaws host
unfolding unary all_chars
host-HostLaws = record { digits = all_ones; decimal_injective = injective }
  where
    all_ones : (k : ℕ) → all_chars is_digit (unary k) ≡ true
    all_ones zero = refl
    all_ones (suc k) = all_ones k

    rest : String → String
    rest String.[] = String.[]
    rest (String.◌∷◌ c s) = s

    is_end : String → Bool
    is_end String.[] = true
    is_end (String.◌∷◌ c s) = false

    injective : (j k : ℕ) → unary j ≡ unary k → j ≡ k
    injective zero zero e = refl
    injective zero (suc k) e = let h : true ≡ false = ap is_end e in absurd (ground arith)
    injective (suc j) zero e = let h : false ≡ true = ap is_end e in absurd (ground arith)
    injective (suc j) (suc k) e = ap suc (injective j k (ap rest e))

abbrev files : Files
files =
    write (write (write no_files "tasks/queue" "a.md" (some "a")) "tasks/queue" "b.md" (some "b"))
      "tasks/queue" "bad.md" (some "!")

files-Has :
    (directory name content : String) → files directory name ≡ some content → Has name sample_names
unfolding write is_at
files-Has directory name content h = elim (Bool-cases ("a.md" == name)) [
  | inl e ↦ rw (← (eq_iff "a.md" name).0 e) here
  | inr e ↦ elim (Bool-cases ("b.md" == name)) [
    | inl k ↦ rw (← (eq_iff "b.md" name).0 k) (there here)
    | inr k ↦ elim (Bool-cases ("bad.md" == name)) [
      | inl l ↦ rw (← (eq_iff "bad.md" name).0 l) (there (there here))
      | inr l ↦ absurd (ground arith)
    ]
  ]
]

files-ListsAll : (directory : String) → ListsAll host files directory
unfolding ListsAll
files-ListsAll directory name content h =
    Has-filter (λ n. is_some (files directory n)) sample_names name
      (files-Has directory name content h) (ap is_some h)

abbrev task_of : String → TaskDocument
task_of id = record {
  task_id = id;
  root_spec_id = none;
  spec_id = none;
  root_idea_id = none;
  depends_on = if id == "b" then "a" ∷ [] else [];
  updated_at = none;
  created_at = "2026-01-01T00:00:00Z";
}

abbrev codecs : Codecs
codecs = record {
  task = record {
    parse = λ raw path. if raw == "!" then err "no headings" else ok (task_of raw);
    validate = λ task. ok tt;
    render = λ task. task.task_id;
  };
  spec = record {
    parse = λ raw path. err "no spec";
    validate = λ spec. ok tt;
    render = λ spec. spec.spec_id;
  };
  probe = record {
    parse = λ raw path. err "no probe";
    validate = λ probe. ok tt;
    render = λ probe. probe.probe_id;
  };
  incident = record {
    parse = λ raw path. err "no incident";
    validate = λ incident. ok tt;
    render = λ incident. incident.incident_id;
  };
  learning_request = record {
    parse = λ raw path. err "no learning request";
    validate = λ request. ok tt;
    render = λ request. request.learning_request_id;
  };
}

differ : {a b : String} → (a == b) ≡ false → a ≢ b
differ {a} {b} h e = let k : (a == b) ≡ true = (eq_iff a b).1 e in ground arith

none_active : AtMostOneActive "tasks/active" files
unfolding write is_at
none_active a b s t ma mb ha hb = absurd (ground arith)

-- The task with no dependencies is claimed, and it is the only active one.
oldest_task_example : ClaimsOldest host codecs paths none host-HostLaws [] files
unfolding ids_in_directory list_markdown_files stems sort_by filter write is_at ◌>>=◌
oldest_task_example =
    claim_next_execution_task-oldest host codecs paths none host-HostLaws [] files refl
      (files-ListsAll "tasks/queue") refl (differ refl)

one_active_example :
    AtMostOneActive "tasks/active"
      (claim_next_execution_task host codecs paths none undisturbed files).1
one_active_example =
    claim_next_execution_task-AtMostOneActive host codecs paths none files host-HostLaws
      (files-ListsAll "tasks/queue") (files-ListsAll "tasks/active") (differ refl) none_active

-- Another process takes the first task before it is moved.
abbrev steal : Files → Files
steal f = write f "tasks/queue" "a.md" none

abbrev disturbed_once : List (Files → Files)
disturbed_once = steal ∷ undisturbed

kept_example : IsQuarantined host files "tasks/queue" "bad.md" "no headings" "!"
unfolding write is_at
kept_example =
    quarantine-keeps host files "tasks/queue" "bad.md" "no headings" "!" host-HostLaws
      (files-ListsAll "tasks/queue") refl

task_dirs-AreApart : AreApart (dirs_of paths WorkItemKind.task)
task_dirs-AreApart = readable-AreApart (dirs_of paths WorkItemKind.task) read
  where
    read :
        (state : ItemState)
        → state_of (dirs_of paths WorkItemKind.task) (dirs_of paths WorkItemKind.task state) ≡ state
    read ItemState.queued = refl
    read ItemState.active = refl
    read ItemState.done = refl
    read ItemState.blocked = refl

enqueues_example : EnqueuesTask codecs paths files (task_of "c")
enqueues_example = enqueue_task-StandsAt codecs paths files (task_of "c") task_dirs-AreApart

abbrev more_files : Files
more_files = write files "tasks/queue" "c.md" (some "c")
