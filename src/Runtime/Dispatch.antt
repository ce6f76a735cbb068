-- ===== src/Runtime/Dispatch.antt =====
-- runtime/supervisor.rs: whether a stage of one plane may start beside the planes that already run.
use millrace_rs.Base.{
  ℕ, Bool, true, false, not, ◌&&◌, ◌||◌, Option, none, some, List, [], ◌∷◌, ◌++◌, length, is_empty,
  any, leb, contains, test, if◌then◌else◌,
}
pub mod Compatible
pub mod Symmetry
use millrace_rs.Contracts.Enums.{Plane, Plane-discrete}

-- compiler/contracts.rs
pub record PlaneConcurrencyPolicyDefinition : Type 0 where
  pub mutually_exclusive_planes : List (List Plane)
  pub may_run_concurrently : List (List Plane)

-- The body of the closure in `pair_in_groups`.
unfoldable pub pair_in_group : Plane → Plane → List Plane → Bool
pair_in_group candidate active_plane group =
    contains Plane-discrete group candidate
    && contains Plane-discrete group active_plane
    && (test (Plane-discrete candidate active_plane) || leb 2 (length group))

unfoldable pub pair_in_groups : Plane → Plane → List (List Plane) → Bool
pair_in_groups candidate active_plane groups = any (pair_in_group candidate active_plane) groups

-- The first loop: the active planes in their order, without repeats.
unfoldable pub active_plane_set : List Plane → List Plane → List Plane
active_plane_set seen [] = seen
active_plane_set seen (plane ∷ planes) =
    active_plane_set (if contains Plane-discrete seen plane then seen else (seen ++ plane ∷ []))
      planes

-- The second loop, over the active planes.
unfoldable pub all_compatible : PlaneConcurrencyPolicyDefinition → Plane → List Plane → Bool
all_compatible policy candidate [] = true
all_compatible policy candidate (active_plane ∷ planes) =
    let rest = all_compatible policy candidate planes in
    if pair_in_groups candidate active_plane policy.mutually_exclusive_planes
    then false
    else if not (pair_in_groups candidate active_plane policy.may_run_concurrently)
    then false
    else rest

unfoldable pub allowed_beside : Option PlaneConcurrencyPolicyDefinition → Plane → List Plane → Bool
allowed_beside none candidate planes = false
allowed_beside (some policy) candidate planes = all_compatible policy candidate planes

unfoldable pub can_dispatch_plane :
    Option PlaneConcurrencyPolicyDefinition → List Plane → Plane → Bool
can_dispatch_plane policy active_planes candidate =
    let planes = active_plane_set [] active_planes in
    if contains Plane-discrete planes candidate
    then false
    else if is_empty planes
    then true
    else allowed_beside policy candidate planes
