-- ===== src/Runtime/Foreground/Projection.antt =====
-- The foreground fields never show a plane as active that has no run of its own.
use millrace_rs.Base.{
  ◌≡◌, refl, sym, ap, ◌≢◌, ◌∙◌, inl, inr, false, none, some, Option-cases, List, [], ◌∷◌, test,
  arith,
}
use millrace_rs.Contracts.Enums.{Plane, Plane-discrete}
use millrace_rs.Runtime.PlaneMap
use millrace_rs.Runtime.PlaneMap.{PlaneMap}
use millrace_rs.Runtime.State.{ActiveRunState, RuntimeSnapshot}
use millrace_rs.Runtime.Router.{
  ◌and_then◌, is_plane, active_run_for_plane, legacy_active_run_for_plane,
}
use millrace_rs.Runtime.Foreground.{
  first_active, foreground_order, show, project_foreground_active_run,
}

-- Each run stands under its own plane.
abbrev pub IsKeyed : PlaneMap ActiveRunState → Type 0
IsKeyed runs =
    (plane : Plane) (run : ActiveRunState) → PlaneMap.get runs plane ≡ some run → run.plane ≡ plane

legacy-other :
    (s : RuntimeSnapshot) (plane : Plane)
    → is_plane s.active_plane plane ≡ false
    → legacy_active_run_for_plane s plane ≡ none
unfolding legacy_active_run_for_plane
legacy-other s plane h = rw h refl

test-apart : (p q : Plane) → p ≢ q → test (Plane-discrete p q) ≡ false
test-apart p q h = elim (Plane-discrete p q) as (λ t. test t ≡ false) [
  | yes e ↦ absurd (h e)
  | no _ ↦ refl
]

some-none : {run : ActiveRunState} → some run ≡ none → ⊥
some-none e = ground arith

first_active-other :
    (runs : PlaneMap ActiveRunState) (plane : Plane)
    → IsKeyed runs
    → PlaneMap.get runs plane ≡ none
    → (planes : List Plane)
    → is_plane (first_active planes runs and_then λ run. some run.plane) plane ≡ false
unfolding first_active
first_active-other runs plane keyed h [] = refl
first_active-other runs plane keyed h (q ∷ planes) = elim (Option-cases (PlaneMap.get runs q)) [
  | inl e ↦ rw e (first_active-other runs plane keyed h planes)
  | inr found ↦ shown found.0 found.1
]
  where
    shown :
        (run : ActiveRunState)
        → PlaneMap.get runs q ≡ some run
        → is_plane (first_active (q ∷ planes) runs and_then λ x. some x.plane) plane ≡ false
    shown run e =
        let apart : run.plane ≢ plane = λ same.
          let at_plane = sym (keyed q run e) ∙ same in
          absurd (some-none (sym e ∙ ap (PlaneMap.get runs) at_plane ∙ h)) in
        rw e (test-apart run.plane plane apart)

-- Once the foreground fields are projected, each plane's active run is the one that the table of
-- active runs holds for it, and a plane without a run there has none: the fallback on the foreground
-- fields never makes one up. The table holds each run under its own plane.
pub active_run-project :
    (s : RuntimeSnapshot) (plane : Plane)
    → IsKeyed s.active_runs_by_plane
    → active_run_for_plane (project_foreground_active_run s) plane
      ≡ PlaneMap.get s.active_runs_by_plane plane
unfolding active_run_for_plane project_foreground_active_run
active_run-project s plane keyed = elim (Option-cases (PlaneMap.get s.active_runs_by_plane plane)) [
  | inr found ↦ rw found.1 refl
  | inl e ↦
      let other =
        legacy-other (show (first_active foreground_order s.active_runs_by_plane) s) plane
          (first_active-other s.active_runs_by_plane plane keyed e foreground_order) in
      rw e other
]
