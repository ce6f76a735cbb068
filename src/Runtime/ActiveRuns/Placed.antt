-- ===== src/Runtime/ActiveRuns/Placed.antt =====
-- Each active run stands on its lane, and a plane whose run has ended is free.
use millrace_rs.Base.{
  String, ◌==◌, eq_iff, ◌≡◌, refl, sym, ap, ◌∙◌, ◌≢◌, inl, inr, false, Bool-cases, Option, none,
  some, Option-cases, List, [], Has, Has-filter, not, here, arith,
}
use millrace_rs.Base.Dict.{lookup, insert, lookup-insert, lookup-insert_self}
use millrace_rs.Contracts.Enums.{Plane, Plane-discrete}
use millrace_rs.Runtime.PlaneMap
use millrace_rs.Runtime.PlaneMap.{PlaneMap}
use millrace_rs.Runtime.Router.{active_run_for_plane, legacy_active_run_for_plane}
use millrace_rs.Runtime.Foreground.Projection.{IsKeyed, active_run-project}
use millrace_rs.Runtime.State.{ActiveRunState, LaneRuntimeState, RuntimeSnapshot, Timestamp}
use millrace_rs.Runtime.Foreground.{project_foreground_active_run}
use millrace_rs.Runtime.Lanes.{
  lane_id_of_run, lane_state_for_active_runs, snapshot_with_lane_active_run, without_run,
  snapshot_without_lane_active_run,
}
use millrace_rs.Runtime.ActiveRuns.{snapshot_with_active_run, released, clear_active_plane}

-- The lane of the run lists it.
abbrev pub IsPlaced : List (String × LaneRuntimeState) → ActiveRunState → Type 0
IsPlaced lanes run =
    (lane : LaneRuntimeState) × (lookup (lane_id_of_run run) lanes ≡ some lane)
    × Has run.run_id lane.active_run_ids

abbrev pub AllPlaced : RuntimeSnapshot → Type 0
AllPlaced s =
    (plane : Plane) (run : ActiveRunState)
    → PlaneMap.get s.active_runs_by_plane plane ≡ some run
    → IsPlaced s.lanes_by_id run

-- The runs of other planes are not on the lane.
abbrev pub LaneIsFree : RuntimeSnapshot → Plane → String → Type 0
LaneIsFree s plane lane_id =
    (other : Plane) (run : ActiveRunState)
    → plane ≢ other
    → PlaneMap.get s.active_runs_by_plane other ≡ some run
    → lane_id_of_run run ≢ lane_id

not_eq : (s t : String) → s ≢ t → (s == t) ≡ false
not_eq s t h = elim (Bool-cases (s == t)) [ inl e ↦ absurd (h ((eq_iff s t).0 e)) | inr e ↦ e ]

IsPlaced-insert :
    (lanes : List (String × LaneRuntimeState)) (lane_id : String) (lane : LaneRuntimeState)
    (run : ActiveRunState)
    → lane_id_of_run run ≢ lane_id
    → IsPlaced lanes run
    → IsPlaced (insert lane_id lane lanes) run
IsPlaced-insert lanes lane_id lane run apart (old, e, m) = (
  old,
  lookup-insert lane_id (lane_id_of_run run) lane lanes
      ∙ rw (not_eq lane_id (lane_id_of_run run) (λ k. apart (sym k))) e,
  m,
)

-- Starting a run on a lane that no run of another plane uses puts the run on its lane, and leaves the
-- runs of the other planes on theirs.
pub snapshot_with_active_run-AllPlaced :
    (run : ActiveRunState) (now : Timestamp) (s : RuntimeSnapshot)
    → LaneIsFree s run.plane (lane_id_of_run run)
    → AllPlaced s
    → AllPlaced (snapshot_with_active_run run now s)
unfolding snapshot_with_active_run project_foreground_active_run snapshot_with_lane_active_run
    lane_state_for_active_runs
snapshot_with_active_run-AllPlaced run now s free placed plane found h =
    elim (Plane-discrete run.plane plane) [
      | yes e ↦
          let at_plane =
            ap (PlaneMap.get (PlaneMap.insert s.active_runs_by_plane run.plane run)) (sym e) in
          let same : run ≡ found = ground (
            arith,
            sym (PlaneMap.get-insert_self s.active_runs_by_plane run.plane run) ∙ sym at_plane ∙ h,
          ) in
          rw (← same) (
            lane_state_for_active_runs (lane_id_of_run run) run.plane run [],
            lookup-insert_self (lane_id_of_run run) _ s.lanes_by_id,
            here,
          )
      | no n ↦
          let old = sym (PlaneMap.get-insert_ne s.active_runs_by_plane run.plane plane run n) ∙ h in
          IsPlaced-insert s.lanes_by_id (lane_id_of_run run)
            (lane_state_for_active_runs (lane_id_of_run run) run.plane run []) found
            (free plane found n old) (placed plane found old)
    ]

-- The runs of other planes have other ids.
abbrev pub HasOwnId : RuntimeSnapshot → Plane → String → Type 0
HasOwnId s plane run_id =
    (other : Plane) (run : ActiveRunState)
    → plane ≢ other
    → PlaneMap.get s.active_runs_by_plane other ≡ some run
    → run.run_id ≢ run_id

-- A run stays listed when another leaves the lane.
stays_listed :
    (run_id other : String) (now : Timestamp) (lane : LaneRuntimeState)
    → other ≢ run_id
    → Has other lane.active_run_ids
    → Has other (without_run run_id now none lane).active_run_ids
unfolding without_run
stays_listed run_id other now lane apart m =
    let differs = not_eq other run_id apart in
    Has-filter (λ active_id. not (active_id == run_id)) lane.active_run_ids other m
      (rw differs refl)

released-IsPlaced :
    (now : Timestamp) (s : RuntimeSnapshot) (run found : ActiveRunState)
    → found.run_id ≢ run.run_id
    → IsPlaced s.lanes_by_id found
    → IsPlaced
        (snapshot_without_lane_active_run (lane_id_of_run run) run.run_id now none s).lanes_by_id
        found
unfolding snapshot_without_lane_active_run
released-IsPlaced now s run found own (old, e, m) =
    elim (Option-cases (lookup (lane_id_of_run run) s.lanes_by_id)) [
      | inl k ↦ rw k (old, e, m)
      | inr (lane, k) ↦ rw k (elim (Bool-cases (lane_id_of_run run == lane_id_of_run found)) [
        | inr n ↦ (
          old,
          lookup-insert (lane_id_of_run run) (lane_id_of_run found)
                (without_run run.run_id now none lane) s.lanes_by_id
              ∙ rw n e,
          m,
        )
        | inl n ↦
            let at_lane = (eq_iff (lane_id_of_run run) (lane_id_of_run found)).0 n in
            let same : lane ≡ old =
              ground (arith, sym k ∙ ap (λ id. lookup id s.lanes_by_id) at_lane ∙ e) in
            (
              without_run run.run_id now none lane,
              lookup-insert (lane_id_of_run run) (lane_id_of_run found)
                    (without_run run.run_id now none lane) s.lanes_by_id
                  ∙ rw n refl,
              stays_listed run.run_id found.run_id now lane own (rw same m),
            )
      ])
    ]

-- Ending the run of a plane leaves the runs of the other planes on their lanes, also on the lane that the run leaves. The
-- runs of other planes have other ids than the run that ends.
pub clear_active_plane-AllPlaced :
    (plane : Plane) (failure_class : Option String) (now : Timestamp) (s : RuntimeSnapshot)
    → ((run : ActiveRunState)
        → PlaneMap.get s.active_runs_by_plane plane ≡ some run
        → HasOwnId s plane run.run_id)
    → AllPlaced s
    → AllPlaced (clear_active_plane plane failure_class now s)
unfolding clear_active_plane project_foreground_active_run snapshot_without_lane_active_run
clear_active_plane-AllPlaced plane failure_class now s own placed other found h =
    elim (Option-cases (PlaneMap.get s.active_runs_by_plane plane)) [
      | inl e ↦ rw e (placed other found (rw e at h))
      | inr (run, e) ↦ rw e (stays run e (rw e at h))
    ]
  where
    gone :
        (run : ActiveRunState)
        → plane ≡ other
        → PlaneMap.get (PlaneMap.remove s.active_runs_by_plane plane) other ≡ some found
        → ⊥
    gone run e k =
        let cleared = ap (PlaneMap.get (PlaneMap.remove s.active_runs_by_plane plane)) e in
        let removed = PlaneMap.get-remove_self s.active_runs_by_plane plane in cc

    stays :
        (run : ActiveRunState)
        → PlaneMap.get s.active_runs_by_plane plane ≡ some run
        → PlaneMap.get (PlaneMap.remove s.active_runs_by_plane plane) other ≡ some found
        → IsPlaced
            (snapshot_without_lane_active_run (lane_id_of_run run) run.run_id now none (record s {
              active_runs_by_plane = PlaneMap.remove s.active_runs_by_plane plane;
            })).lanes_by_id
            found
    stays run e k = elim (Plane-discrete plane other) [
      | yes same ↦ absurd (gone run same k)
      | no n ↦
          let old = sym (PlaneMap.get-remove_ne s.active_runs_by_plane plane other n) ∙ k in
          released-IsPlaced now
            (record s { active_runs_by_plane = PlaneMap.remove s.active_runs_by_plane plane }) run
            found (own run e other found n old) (placed other found old)
    ]

IsKeyed-without :
    (runs : PlaneMap ActiveRunState) (plane : Plane)
    → IsKeyed runs
    → IsKeyed (PlaneMap.remove runs plane)
IsKeyed-without runs plane keyed other run h = elim (Plane-discrete plane other) [
  | yes e ↦
      let cleared = ap (PlaneMap.get (PlaneMap.remove runs plane)) e in
      let removed = PlaneMap.get-remove_self runs plane in
      absurd (ground (arith, sym removed ∙ cleared ∙ h))
  | no n ↦ keyed other run (sym (PlaneMap.get-remove_ne runs plane other n) ∙ h)
]

released_runs :
    (plane : Plane) (now : Timestamp) (s : RuntimeSnapshot)
    → (released plane now (PlaneMap.get s.active_runs_by_plane plane) s).active_runs_by_plane
      ≡ PlaneMap.remove s.active_runs_by_plane plane
unfolding released snapshot_without_lane_active_run PlaneMap.remove PlaneMap.get
released_runs Plane.execution now s = elim (Option-cases s.active_runs_by_plane.at_execution) [
  | inl e ↦ rw (e, released) (ground arith)
  | inr (run, e) ↦ rw (e, released) refl
]
released_runs Plane.planning now s = elim (Option-cases s.active_runs_by_plane.at_planning) [
  | inl e ↦ rw (e, released) (ground arith)
  | inr (run, e) ↦ rw (e, released) refl
]
released_runs Plane.learning now s = elim (Option-cases s.active_runs_by_plane.at_learning) [
  | inl e ↦ rw (e, released) (ground arith)
  | inr (run, e) ↦ rw (e, released) refl
]

-- Once the run of a plane has ended, the plane has no active run, also not by way of the foreground fields.
pub clear_active_plane-none :
    (plane : Plane) (failure_class : Option String) (now : Timestamp) (s : RuntimeSnapshot)
    → IsKeyed s.active_runs_by_plane
    → active_run_for_plane (clear_active_plane plane failure_class now s) plane ≡ none
unfolding clear_active_plane active_run_for_plane legacy_active_run_for_plane
clear_active_plane-none plane failure_class now s keyed =
    let left = released plane now (PlaneMap.get s.active_runs_by_plane plane) s in
    let runs = released_runs plane now s in
    active_run-project left plane (rw runs (IsKeyed-without s.active_runs_by_plane plane keyed))
    ∙ (ap (λ (m : PlaneMap ActiveRunState). PlaneMap.get m plane) runs
        ∙ PlaneMap.get-remove_self s.active_runs_by_plane plane)
