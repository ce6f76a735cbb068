-- ===== src/Runtime/BlockedRecovery/StrandedSound.antt =====
-- What the search for a task to retry finds.
use millrace_rs.Base.{
  String, ◌==◌, ◌≡◌, refl, ◌∙◌, ap, not, map_err, inl, inr, Bool, true, false, Option, Option-cases,
  none, some, List, [], ◌∷◌, any, Has, here, there, Has-cons, All, if◌then◌else◌, Result,
  Result-cases, ok, arith,
}
use millrace_rs.Base.Dict.{All-insert}
use millrace_rs.Base.Oldest.{oldest, oldest-least}
use millrace_rs.Base.Sort.{text_lt}
use millrace_rs.Base.TextOrder.{text_lt-asym, text_lt-not_trans}
use millrace_rs.Runtime.LaneState.{RuntimeJsonError}
use millrace_rs.Runtime.State.{Timestamp}
use millrace_rs.Workspace.Files.{Files}
use millrace_rs.Workspace.Queue.{WorkspacePaths, document_name}
use millrace_rs.Workspace.Claims.{Host}
use millrace_rs.Workspace.Claims.Documents.{TaskDocument, effective_root_spec_task}
use millrace_rs.Workspace.Claims.Found.{listed}
use millrace_rs.Runtime.BlockedRecovery.{Journal, invalid_record}
use millrace_rs.Runtime.BlockedRecovery.Stranded.{
  AutoRecoveryCandidate, CandidateParts, Candidates, Sides, add_dependent, add_candidate,
  root_mismatch, with_blocked, with_queued, read_task_document_or_none, markdown_stems,
  over_dependencies, over_queued, validate_dependency, validated_candidate, from_first, from_sides,
  build_auto_recovery_candidate, find_auto_recovery_candidate,
}

module _ (host : Host) (journal : Journal) (paths : WorkspacePaths) (files : Files) where
  -- A queued task waits for this blocked one, of its own lineage or of another.
  pub record IsStranding (other_lineage : Bool) (id : String) : Type 0 where
    pub name : String
    pub queued : TaskDocument
    pub blocked : TaskDocument
    pub is_listed : Has name (listed host paths.tasks_queue_dir files)
    pub waits :
        read_task_document_or_none host journal paths files paths.tasks_queue_dir name ≡ some queued
    pub depends : Has id queued.depends_on
    pub undone :
        any (λ c. c == id) (markdown_stems host journal paths files paths.tasks_done_dir) ≡ false
    pub stands :
        read_task_document_or_none host journal paths files paths.tasks_blocked_dir
          (document_name id)
        ≡ some blocked
    pub lineage :
        root_mismatch (effective_root_spec_task queued) (effective_root_spec_task blocked)
        ≡ other_lineage

  abbrev Strands : Bool → String × CandidateParts → Type 0
  Strands other_lineage (id, parts) = IsStranding other_lineage id

  AllStrand : Sides → Type 0
  AllStrand (compatible, incompatible) =
      All (Strands false) compatible × All (Strands true) incompatible

  add_dependent-All :
      (m : Bool) (id : String) (blocked_root queued_root : Option String) (queued_id : String)
      (candidates : Candidates)
      → IsStranding m id
      → All (Strands m) candidates
      → All (Strands m) (add_dependent id blocked_root queued_root queued_id candidates)
  unfolding add_dependent
  add_dependent-All m id blocked_root queued_root queued_id candidates s a =
      All-insert (Strands m) id _ candidates s a

  add_candidate-AllStrand :
      (id : String) (blocked_root queued_root : Option String) (queued_id : String) (sides : Sides)
      → IsStranding (root_mismatch queued_root blocked_root) id
      → AllStrand sides
      → AllStrand (add_candidate id blocked_root queued_root queued_id sides)
  unfolding add_candidate AllStrand
  add_candidate-AllStrand id blocked_root queued_root queued_id (compatible, incompatible) s
        (a, b) =
      on (root_mismatch queued_root blocked_root) s
    where
      on :
          (m : Bool)
          → IsStranding m id
          → AllStrand (
              if m
              then (compatible, add_dependent id blocked_root queued_root queued_id incompatible)
              else (add_dependent id blocked_root queued_root queued_id compatible, incompatible))
      on true s = (a, add_dependent-All true id blocked_root queued_root queued_id incompatible s b)
      on false s = (add_dependent-All false id blocked_root queued_root queued_id compatible s a, b)

  over_dependencies-AllStrand :
      (name : String) (queued : TaskDocument) (ids : List String) (sides : Sides)
      → Has name (listed host paths.tasks_queue_dir files)
      → read_task_document_or_none host journal paths files paths.tasks_queue_dir name ≡ some queued
      → ((id : String) → Has id ids → Has id queued.depends_on)
      → AllStrand sides
      → AllStrand (
          over_dependencies host journal paths files
            (markdown_stems host journal paths files paths.tasks_done_dir)
            queued
            ids
            sides)
  unfolding over_dependencies
  over_dependencies-AllStrand name queued [] sides l w sub a = a
  over_dependencies-AllStrand name queued (id ∷ ids) sides l w sub a =
      over_dependencies-AllStrand name queued ids _ l w (λ i h. sub i (there h)) on_id
    where
      on_blocked :
          (o : Option TaskDocument)
          → read_task_document_or_none host journal paths files paths.tasks_blocked_dir
              (document_name id)
            ≡ o
          → any (λ c. c == id) (markdown_stems host journal paths files paths.tasks_done_dir)
            ≡ false
          → AllStrand (with_blocked host journal paths files queued id o sides)
      on_blocked none b d = a
      on_blocked (some blocked) b d =
          add_candidate-AllStrand id _ _ queued.task_id sides
            (record {
              name = name;
              queued = queued;
              blocked = blocked;
              is_listed = l;
              waits = w;
              depends = sub id here;
              undone = d;
              stands = b;
              lineage = refl;
            })
            a

      on_done :
          (done : Bool)
          → any (λ c. c == id) (markdown_stems host journal paths files paths.tasks_done_dir) ≡ done
          → AllStrand (
              if done
              then sides
              else with_blocked host journal paths files queued id
                  (read_task_document_or_none host journal paths files paths.tasks_blocked_dir
                    (document_name id))
                  sides)
      on_done true d = a
      on_done false d = on_blocked _ refl d

      on_id : AllStrand (
          if any (λ c. c == id) (markdown_stems host journal paths files paths.tasks_done_dir)
          then sides
          else with_blocked host journal paths files queued id
              (read_task_document_or_none host journal paths files paths.tasks_blocked_dir
                (document_name id))
              sides)
      on_id = on_done _ refl

  over_queued-AllStrand :
      (names : List String) (sides : Sides)
      → ((name : String) → Has name names → Has name (listed host paths.tasks_queue_dir files))
      → AllStrand sides
      → AllStrand (
          over_queued host journal paths files
            (markdown_stems host journal paths files paths.tasks_done_dir)
            names
            sides)
  unfolding over_queued
  over_queued-AllStrand [] sides sub a = a
  over_queued-AllStrand (name ∷ names) sides sub a =
      over_queued-AllStrand names _ (λ n h. sub n (there h)) (on _ refl)
    where
      on :
          (o : Option TaskDocument)
          → read_task_document_or_none host journal paths files paths.tasks_queue_dir name ≡ o
          → AllStrand (
              with_queued host journal paths files
                (markdown_stems host journal paths files paths.tasks_done_dir)
                o
                sides)
      on none w = a
      on (some queued) w =
          over_dependencies-AllStrand name queued queued.depends_on sides (sub name here) w
            (λ i h. h) a

  All-Has :
      (m : Bool) (c : String × CandidateParts) (candidates : Candidates)
      → All (Strands m) candidates
      → Has c candidates
      → Strands m c
  All-Has m c [] a h = elim h [ ]
  All-Has m c (d ∷ candidates) (s, a) h = elim (Has-cons c d candidates h) [
    | inl e ↦ rw e s
    | inr n ↦ All-Has m c candidates a n
  ]

  module _ (parse_time : String → Timestamp → Result RuntimeJsonError (Unit {0})) where
    Fits : AutoRecoveryCandidate → Type 0
    Fits c = IsStranding (not c.lineage_compatible) c.dependency.blocked_task_id

    validated-Fits :
        (made c : AutoRecoveryCandidate)
        → validated_candidate host journal paths files parse_time made ≡ ok (some c)
        → Fits made
        → Fits c
    validated-Fits made c h f =
        elim (Result-cases
          (map_err invalid_record (validate_dependency parse_time made.dependency))) [
            | inl (_, v) ↦ let same : made ≡ c = ground (arith, rw v at h) in rw (← same) f
            | inr (e, v) ↦ absurd (ground (arith, rw v at h))
          ]

    build-Fits :
        (candidates : Candidates) (compatible : Bool) (c : AutoRecoveryCandidate)
        → build_auto_recovery_candidate host journal paths files parse_time candidates compatible
          ≡ ok (some c)
        → All (Strands (not compatible)) candidates
        → Fits c
    unfolding build_auto_recovery_candidate Fits
    build-Fits candidates compatible c h a = on _ refl h
      where
        on :
            (o : Option (String × CandidateParts))
            → oldest (λ a b. text_lt a.0 b.0) candidates ≡ o
            → from_first host journal paths files parse_time o compatible ≡ ok (some c)
            → Fits c
        on none e k = absurd (ground arith)
        on (some (id, parts)) e k = validated-Fits _ c k (
            All-Has (not compatible) (id, parts) candidates a
              (oldest-least (λ a b. text_lt a.0 b.0) (λ a b. text_lt-asym a.0 b.0)
                (λ a b d. text_lt-not_trans a.0 b.0 d.0) candidates (id, parts) e).0)

    sides-Fits :
        (sides : Sides) (c : AutoRecoveryCandidate)
        → from_sides host journal paths files parse_time sides ≡ ok (some c)
        → AllStrand sides
        → Fits c
    unfolding AllStrand
    sides-Fits (compatible, incompatible) c h (a, b) =
        elim (Result-cases
          (build_auto_recovery_candidate host journal paths files parse_time compatible true)) [
            | inr (e, k) ↦ absurd (ground (arith, rw k at h))
            | inl (o, k) ↦ elim (Option-cases o) [
              | inl n ↦ build-Fits incompatible false c (rw (k, n) at h) b
              | inr (d, n) ↦ build-Fits compatible true c (k ∙ ap ok n ∙ (rw (k, n) at h)) a
            ]
          ]

    -- The task that the search finds stands among the blocked ones, and a queued task depends on it that is of the same
    -- lineage exactly if the search says so.
    pub find-IsStranding :
        (c : AutoRecoveryCandidate)
        → find_auto_recovery_candidate host journal paths files parse_time ≡ ok (some c)
        → IsStranding (not c.lineage_compatible) c.dependency.blocked_task_id
    unfolding find_auto_recovery_candidate AllStrand Fits
    find-IsStranding c h = sides-Fits _ c h (
        over_queued-AllStrand (listed host paths.tasks_queue_dir files) ([], []) (λ n h. h)
          (tt, tt))
