-- ===== src/Runtime/LaneDispatch/Beside.antt =====
-- A run starts only beside lanes with which its own lane is compatible.
use millrace_rs.Base.{
  String, ◌==◌, eq_iff, ◌≡◌, refl, sym, ◌∙◌, ◌≢◌, ◌⊎◌, inl, inr, true, not, ◌||◌, Bool-cases,
  Option, none, some, Option-cases, List, [], ◌∷◌, find-Has, Has, here, there, leb, arith,
}
use millrace_rs.Contracts.Enums.{Plane}
use millrace_rs.Runtime.SchedulerPolicy.{
  WorkflowLaneDefinition, WorkflowPlaneSchedulerPolicyDefinition,
}
use millrace_rs.Runtime.Dispatch.{PlaneConcurrencyPolicyDefinition}
use millrace_rs.Runtime.Dispatch.Compatible.{IsCompatible, can_dispatch-IsCompatible}
use millrace_rs.Runtime.LaneDispatch.{
  lane_policy_allows, active_ids, same_lane_count, lane_by_id, beside, active_planes,
  dispatch_beside, dispatch_on, can_dispatch_lane,
}

-- The lane policy lets the two lanes run together, whichever is named first.
abbrev pub BothAllow : WorkflowPlaneSchedulerPolicyDefinition → String → String → Type 0
BothAllow policy first_lane_id second_lane_id =
    (lane_policy_allows policy first_lane_id second_lane_id ≡ true)
    × (lane_policy_allows policy second_lane_id first_lane_id ≡ true)

-- An active lane beside which the candidate may run, with its plane among the collected ones.
abbrev pub RunsBeside :
    WorkflowPlaneSchedulerPolicyDefinition
    → String
    → WorkflowLaneDefinition
    → String
    → (Plane → Type 0)
    → Type 0
RunsBeside policy candidate candidate_lane lane_id OfPlane =
    (active_lane : WorkflowLaneDefinition) × (lane_by_id policy lane_id ≡ some active_lane)
    × ((lane_id ≡ candidate)
        ⊎ (BothAllow policy candidate_lane.lane_id active_lane.lane_id × OfPlane active_lane.plane))

lane_by_id-eq :
    (policy : WorkflowPlaneSchedulerPolicyDefinition) (lane_id : String)
    (lane : WorkflowLaneDefinition)
    → lane_by_id policy lane_id ≡ some lane
    → lane.lane_id ≡ lane_id
unfolding lane_by_id
lane_by_id-eq policy lane_id lane h =
    (eq_iff lane.lane_id lane_id).0
      (find-Has (λ (l : WorkflowLaneDefinition). l.lane_id == lane_id) policy.lanes lane h).1

module _ (policy : WorkflowPlaneSchedulerPolicyDefinition) (candidate : String)
    (candidate_lane : WorkflowLaneDefinition) where
  -- A round that goes on keeps the planes of the later rounds.
  beside-keeps :
      (active_lane : Option WorkflowLaneDefinition) (later : Option (List Plane))
      (planes : List Plane)
      → beside policy candidate candidate_lane active_lane later ≡ some planes
      → (rest : List Plane) × (later ≡ some rest) × ((p : Plane) → Has p rest → Has p planes)
  unfolding beside
  beside-keeps none later planes h = absurd (ground arith)
  beside-keeps (some active_lane) none planes h = absurd (ground arith)
  beside-keeps (some active_lane) (some rest) planes h =
      elim (Bool-cases (active_lane.lane_id == candidate)) [
        | inl e ↦ let same : rest ≡ planes = ground arith in (rest, refl, λ p m. rw (← same) m)
        | inr e ↦
            elim (Bool-cases (
              not (lane_policy_allows policy candidate_lane.lane_id active_lane.lane_id)
              || not (lane_policy_allows policy active_lane.lane_id candidate_lane.lane_id))) [
                | inl n ↦ absurd (ground (arith, rw (e, n) at h))
                | inr n ↦
                    let same : active_lane.plane ∷ rest ≡ planes = ground (arith, rw (e, n) at h) in
                    (rest, refl, λ p m. rw (← same) (there m))
              ]
      ]

  -- What a round that goes on has found.
  beside-found :
      (lane_id : String) (later : Option (List Plane)) (planes : List Plane)
      → beside policy candidate candidate_lane (lane_by_id policy lane_id) later ≡ some planes
      → RunsBeside policy candidate candidate_lane lane_id (λ p. Has p planes)
  unfolding beside
  beside-found lane_id none planes h = elim (Option-cases (lane_by_id policy lane_id)) [
    | inl e ↦ absurd (ground (arith, rw e at h))
    | inr (active_lane, e) ↦ absurd (ground (arith, rw e at h))
  ]
  beside-found lane_id (some rest) planes h = elim (Option-cases (lane_by_id policy lane_id)) [
    | inl e ↦ absurd (ground (arith, rw e at h))
    | inr (active_lane, e) ↦ (
      active_lane,
      e,
      on_lane active_lane (lane_by_id-eq policy lane_id active_lane e) (rw e at h),
    )
  ]
    where
      on_lane :
          (active_lane : WorkflowLaneDefinition)
          → active_lane.lane_id ≡ lane_id
          → beside policy candidate candidate_lane (some active_lane) (some rest) ≡ some planes
          → (lane_id ≡ candidate)
            ⊎ (BothAllow policy candidate_lane.lane_id active_lane.lane_id
                × Has active_lane.plane planes)
      on_lane active_lane named k = elim (Bool-cases (active_lane.lane_id == candidate)) [
        | inl e ↦ inl (sym named ∙ (eq_iff active_lane.lane_id candidate).0 e)
        | inr e ↦
            elim (Bool-cases (
              not (lane_policy_allows policy candidate_lane.lane_id active_lane.lane_id)
              || not (lane_policy_allows policy active_lane.lane_id candidate_lane.lane_id))) [
                | inl n ↦ absurd (ground (arith, rw (e, n) at k))
                | inr n ↦
                    let same : active_lane.plane ∷ rest ≡ planes = ground (arith, rw (e, n) at k) in
                    inr ((ground arith, ground arith), rw (← same) here)
              ]
      ]

  active_planes-Has :
      (lane_ids : List String) (planes : List Plane) (lane_id : String)
      → active_planes policy candidate candidate_lane lane_ids ≡ some planes
      → Has lane_id lane_ids
      → RunsBeside policy candidate candidate_lane lane_id (λ p. Has p planes)
  unfolding active_planes
  active_planes-Has [] planes lane_id h m = elim m [ ]
  active_planes-Has (x ∷ xs) planes _ h here =
      beside-found x (active_planes policy candidate candidate_lane xs) planes h
  active_planes-Has (x ∷ xs) planes lane_id h (there m) =
      let (rest, e, keeps) =
        beside-keeps (lane_by_id policy x) (active_planes policy candidate candidate_lane xs) planes
          h in
      let (active_lane, found, how) = active_planes-Has xs rest lane_id e m in
      (
        active_lane,
        found,
        elim how [ inl same ↦ inl same | inr (allow, k) ↦ inr (allow, keeps active_lane.plane k) ],
      )

-- When the test lets a run start on a lane, each active lane is declared, and is either the lane of the
-- candidate itself, or one with which the lane policy lets the candidate's lane run in both directions,
-- on another plane with which the plane of the candidate is compatible.
pub can_dispatch_lane-RunsBeside :
    (policy : WorkflowPlaneSchedulerPolicyDefinition)
    (concurrency : PlaneConcurrencyPolicyDefinition) (lane_ids : List String) (candidate : String)
    (lane : WorkflowLaneDefinition) (lane_id : String)
    → lane_by_id policy candidate ≡ some lane
    → can_dispatch_lane (some policy) (some concurrency) lane_ids candidate ≡ true
    → Has lane_id (active_ids lane_ids)
    → RunsBeside policy candidate lane lane_id
        (λ p. (lane.plane ≢ p) × IsCompatible concurrency lane.plane p)
unfolding can_dispatch_lane dispatch_on dispatch_beside
can_dispatch_lane-RunsBeside policy concurrency lane_ids candidate lane lane_id found h m =
    elim (Bool-cases (leb lane.max_active_runs (same_lane_count candidate (active_ids lane_ids)))) [
      | inl full ↦ absurd (ground (arith, rw (found, full) at h))
      | inr free ↦ elim (Option-cases (active_planes policy candidate lane (active_ids lane_ids))) [
        | inl e ↦ absurd (ground (arith, rw (found, free, e) at h))
        | inr (planes, e) ↦
            let (active_lane, known, how) =
              active_planes-Has policy candidate lane (active_ids lane_ids) planes lane_id e m in
            (
              active_lane,
              known,
              elim how [
                | inl same ↦ inl same
                | inr (allow, k) ↦ inr (
                  allow,
                  can_dispatch-IsCompatible concurrency planes lane.plane active_lane.plane
                      (rw (found, free, e) at h) k,
                )
              ],
            )
      ]
    ]
