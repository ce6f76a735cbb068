-- ===== src/Runtime/BlockedRecovery/FindSame.antt =====
-- The two searches for a blocked task that strands queued ones.
use millrace_rs.Base.{
  String, ◌==◌, ◌≡◌, refl, ◌∙◌, ap, inl, inr, Bool, true, false, not, Option, Option-cases, none,
  some, List, [], ◌∷◌, any, filter, if◌then◌else◌, Result, Result-cases, ok, map_err, arith,
}
use millrace_rs.Base.Oldest.{oldest}
use millrace_rs.Runtime.LaneState.{RuntimeJsonError}
use millrace_rs.Runtime.State.{Timestamp}
use millrace_rs.Workspace.Files.{Files}
use millrace_rs.Workspace.Queue.{WorkspacePaths, document_name}
use millrace_rs.Workspace.Claims.{Host}
use millrace_rs.Workspace.Claims.Documents.{TaskDocument}
use millrace_rs.Workspace.Claims.Found.{listed}
use millrace_rs.Runtime.BlockedRecovery.{Journal, invalid_record}
use millrace_rs.Runtime.BlockedRecovery.Stranded.{
  AutoRecoveryCandidate, CandidateParts, Sides, StrandedBlockedDependency, with_blocked,
  with_queued, read_task_document_or_none, markdown_stems, over_dependencies, over_queued,
  validate_dependency, validated_candidate, from_first, from_sides, build_auto_recovery_candidate,
  find_auto_recovery_candidate,
}
use millrace_rs.Runtime.BlockedRecovery.Find.{
  Gathered, over_missing, gather_blocked, gather_queued, gather_all, validated, stranded_of,
  find_stranded_blocked_dependency,
}
use millrace_rs.Runtime.BlockedRecovery.Dependents.{
  dependents_of, gather-add_candidate, dependents_first, id_before, oldest-dependents_of,
}

module _ (host : Host) (journal : Journal) (paths : WorkspacePaths) (files : Files) where
  over-Same :
      (completed : List String) (queued : TaskDocument) (ids : List String) (g : Gathered)
      (sides : Sides)
      → g.dependents ≡ dependents_of sides.0
      → (over_missing host journal paths files queued
          (filter (λ d. not (any (λ c. c == d) completed)) ids)
          g).dependents
        ≡ dependents_of (over_dependencies host journal paths files completed queued ids sides).0
  unfolding over_missing over_dependencies filter
  over-Same completed queued [] g sides h = h
  over-Same completed queued (id ∷ ids) g sides h =
      step (λ g sides h. over-Same completed queued ids g sides h) (any (λ c. c == id) completed)
    where
      left : List String
      left = filter (λ d. not (any (λ c. c == d) completed)) ids

      on :
          (o : Option TaskDocument)
          → (gather_blocked host journal paths files queued id o g).dependents
            ≡ dependents_of (with_blocked host journal paths files queued id o sides).0
      on none = h
      on (some blocked) = gather-add_candidate id _ _ queued.task_id g sides h

      step :
          ((g : Gathered) (sides : Sides)
            → g.dependents ≡ dependents_of sides.0
            → (over_missing host journal paths files queued left g).dependents
              ≡ dependents_of
                  (over_dependencies host journal paths files completed queued ids sides).0)
          → (done : Bool)
          → (over_missing host journal paths files queued
              (if not done then id ∷ left else left)
              g).dependents
            ≡ dependents_of
                (over_dependencies host journal paths files completed queued ids (
                  if done
                  then sides
                  else with_blocked host journal paths files queued id
                      (read_task_document_or_none host journal paths files paths.tasks_blocked_dir
                        (document_name id))
                      sides)).0
      step later true = later g sides h
      step later false = later _ _ (on _)

  gather_all-Same :
      (completed names : List String) (g : Gathered) (sides : Sides)
      → g.dependents ≡ dependents_of sides.0
      → (gather_all host journal paths files completed names g).dependents
        ≡ dependents_of (over_queued host journal paths files completed names sides).0
  unfolding gather_all over_queued
  gather_all-Same completed [] g sides h = h
  gather_all-Same completed (name ∷ names) g sides h =
      gather_all-Same completed names _ _
        (on (read_task_document_or_none host journal paths files paths.tasks_queue_dir name))
    where
      on :
          (o : Option TaskDocument)
          → (gather_queued host journal paths files completed o g).dependents
            ≡ dependents_of (with_queued host journal paths files completed o sides).0
      on none = h
      on (some queued) = over-Same completed queued queued.depends_on g sides h

  module _ (parse_time : String → Timestamp → Result RuntimeJsonError (Unit {0})) where
    validated-eq :
        (made d : StrandedBlockedDependency)
        → validated host journal paths files parse_time made ≡ ok (some d)
        → made ≡ d
    validated-eq made d h =
        elim (Result-cases (map_err invalid_record (validate_dependency parse_time made))) [
          | inl (_, v) ↦ ground (arith, rw v at h)
          | inr (e, v) ↦ absurd (ground (arith, rw v at h))
        ]

    candidate-eq :
        (made c : AutoRecoveryCandidate)
        → validated_candidate host journal paths files parse_time made ≡ ok (some c)
        → made ≡ c
    candidate-eq made c h =
        elim (Result-cases
          (map_err invalid_record (validate_dependency parse_time made.dependency))) [
            | inl (_, v) ↦ ground (arith, rw v at h)
            | inr (e, v) ↦ absurd (ground (arith, rw v at h))
          ]

    -- What both searches tell of the task.
    IsSame : AutoRecoveryCandidate → StrandedBlockedDependency → Type 0
    IsSame c d =
        (c.lineage_compatible ≡ true)
        × (c.dependency.blocked_task_id ≡ d.blocked_task_id)
        × (c.dependency.queued_dependent_ids ≡ d.queued_dependent_ids)
        × (c.dependency.metadata ≡ d.metadata)

    sides-Same :
        (g : Gathered) (sides : Sides) (c : AutoRecoveryCandidate) (d : StrandedBlockedDependency)
        → g.dependents ≡ dependents_of sides.0
        → stranded_of host journal paths files parse_time g ≡ ok (some d)
        → from_sides host journal paths files parse_time sides ≡ ok (some c)
        → IsSame c d
    unfolding build_auto_recovery_candidate IsSame
    sides-Same g (compatible, incompatible) c d h s f =
        on (oldest id_before compatible) refl
          (ap (λ l. oldest id_before l) h ∙ oldest-dependents_of compatible)
      where
        on :
            (o : Option (String × CandidateParts))
            → oldest id_before compatible ≡ o
            → oldest id_before g.dependents ≡ dependents_first (oldest id_before compatible)
            → IsSame c d
        on none e k = absurd (ground (arith, rw (k, e) at s))
        on (some (id, parts)) e k =
            let made = validated-eq _ d (rw (k, e) at s) in
            elim (Result-cases
              (from_first host journal paths files parse_time (some (id, parts)) true)) [
                | inr (x, v) ↦ absurd (ground (arith, rw (e, v) at f))
                | inl (o, v) ↦ elim (Option-cases o) [
                  | inl n ↦ absurd (ground arith)
                  | inr (x, n) ↦
                      let same = candidate-eq _ x (v ∙ ap ok n) in
                      let is_c : x ≡ c = ground (arith, rw (e, v, n) at f) in
                      rw (← is_c, ← same, ← made) (refl, refl, refl, refl)
                ]
              ]

    -- The read-only search and the search of the daemon name the same blocked task, with the same queued tasks that wait for
    -- it and the same metadata, and then the daemon's candidate is of their lineage.
    pub find-eq-find_auto :
        (c : AutoRecoveryCandidate) (d : StrandedBlockedDependency)
        → find_stranded_blocked_dependency host journal paths files parse_time ≡ ok (some d)
        → find_auto_recovery_candidate host journal paths files parse_time ≡ ok (some c)
        → (c.lineage_compatible ≡ true)
          × (c.dependency.blocked_task_id ≡ d.blocked_task_id)
          × (c.dependency.queued_dependent_ids ≡ d.queued_dependent_ids)
          × (c.dependency.metadata ≡ d.metadata)
    unfolding find_stranded_blocked_dependency find_auto_recovery_candidate IsSame dependents_of
    find-eq-find_auto c d s f =
        sides-Same _ _ c d
          (gather_all-Same (markdown_stems host journal paths files paths.tasks_done_dir)
            (listed host paths.tasks_queue_dir files) (record { dependents = []; roots = [] })
            ([], []) refl)
          s f
