-- ===== src/Runtime/Dispatch/Compatible.antt =====
-- What the dispatch test of runtime/supervisor.rs decides, whatever the order of the active planes.
use millrace_rs.Base.{
  ◌≡◌, refl, ◌≢◌, ◌⊎◌, inl, inr, true, false, Bool-cases, Option, some, List, [], ◌∷◌, ◌++◌,
  is_empty, Has, here, there, Has-append, Has-append_left, Has-append_right, contains, contains-Has,
  Has-contains, if◌then◌else◌, arith,
}
use millrace_rs.Contracts.Enums.{Plane, Plane-discrete}
use millrace_rs.Runtime.Dispatch.{
  PlaneConcurrencyPolicyDefinition, pair_in_groups, active_plane_set, all_compatible,
  allowed_beside, can_dispatch_plane,
}

-- A policy lets two planes run together: some group names both, and no exclusion does.
abbrev pub IsCompatible : PlaneConcurrencyPolicyDefinition → Plane → Plane → Type 0
IsCompatible policy p q =
    (pair_in_groups p q policy.mutually_exclusive_planes ≡ false)
    × (pair_in_groups p q policy.may_run_concurrently ≡ true)

added : List Plane → Plane → List Plane
added seen p = if contains Plane-discrete seen p then seen else (seen ++ p ∷ [])

Has-added_old : (seen : List Plane) (p x : Plane) → Has x seen → Has x (added seen p)
unfolding added
Has-added_old seen p x m = elim (Bool-cases (contains Plane-discrete seen p)) [
  | inl e ↦ rw e m
  | inr e ↦ rw e (Has-append_left seen _ x m)
]

Has-added_new : (seen : List Plane) (p : Plane) → Has p (added seen p)
unfolding added
Has-added_new seen p = elim (Bool-cases (contains Plane-discrete seen p)) [
  | inl e ↦ rw e (contains-Has Plane-discrete seen p e)
  | inr e ↦ rw e (Has-append_right seen _ p here)
]

Has-added : (seen : List Plane) (p x : Plane) → Has x (added seen p) → Has x seen ⊎ Has x (p ∷ [])
unfolding added
Has-added seen p x m = elim (Bool-cases (contains Plane-discrete seen p)) [
  | inl e ↦ inl (rw e at m)
  | inr e ↦ Has-append seen _ x (rw e at m)
]

Has-head : (p : Plane) (planes : List Plane) (x : Plane) → Has x (p ∷ []) → Has x (p ∷ planes)
Has-head p planes _ here = here
Has-head p planes x (there m) = elim m [ ]

pub active_plane_set-Has :
    (seen planes : List Plane) (x : Plane)
    → Has x (active_plane_set seen planes)
    → Has x seen ⊎ Has x planes
unfolding active_plane_set added
active_plane_set-Has seen [] x m = inl m
active_plane_set-Has seen (p ∷ planes) x m = elim (active_plane_set-Has (added seen p) planes x m) [
  | inr k ↦ inr (there k)
  | inl k ↦ elim (Has-added seen p x k) [ inl l ↦ inl l | inr n ↦ inr (Has-head p planes x n) ]
]

pub Has-active_plane_set :
    (seen planes : List Plane) (x : Plane)
    → Has x seen ⊎ Has x planes
    → Has x (active_plane_set seen planes)
unfolding active_plane_set added
Has-active_plane_set seen [] x (inl m) = m
Has-active_plane_set seen [] x (inr m) = elim m [ ]
Has-active_plane_set seen (p ∷ planes) x (inl m) =
    Has-active_plane_set (added seen p) planes x (inl (Has-added_old seen p x m))
Has-active_plane_set seen (p ∷ planes) _ (inr here) =
    Has-active_plane_set (added seen p) planes p (inl (Has-added_new seen p))
Has-active_plane_set seen (p ∷ planes) x (inr (there m)) =
    Has-active_plane_set (added seen p) planes x (inr m)

all_compatible-IsCompatible :
    (policy : PlaneConcurrencyPolicyDefinition) (c : Plane) (planes : List Plane)
    → all_compatible policy c planes ≡ true
    → (x : Plane) → Has x planes
    → IsCompatible policy c x
unfolding all_compatible
all_compatible-IsCompatible policy c [] h x m = elim m [ ]
all_compatible-IsCompatible policy c (p ∷ planes) h _ here = (ground arith, ground arith)
all_compatible-IsCompatible policy c (p ∷ planes) h x (there m) =
    all_compatible-IsCompatible policy c planes (ground arith) x m

IsCompatible-all_compatible :
    (policy : PlaneConcurrencyPolicyDefinition) (c : Plane) (planes : List Plane)
    → ((x : Plane) → Has x planes → IsCompatible policy c x)
    → all_compatible policy c planes ≡ true
unfolding all_compatible
IsCompatible-all_compatible policy c [] h = refl
IsCompatible-all_compatible policy c (p ∷ planes) h =
    let first = h p here in
    let rest = IsCompatible-all_compatible policy c planes (λ x m. h x (there m)) in
    ground (arith, first, rest)

no_planes : (planes : List Plane) → is_empty planes ≡ true → planes ≡ []
no_planes [] h = refl
no_planes (p ∷ planes) h = absurd (ground arith)

not_empty : (planes : List Plane) (x : Plane) → Has x planes → is_empty planes ≡ false
not_empty [] x m = elim m [ ]
not_empty (p ∷ planes) x m = refl

dispatched :
    (policy : Option PlaneConcurrencyPolicyDefinition) (c : Plane) (planes : List Plane)
    → (if contains Plane-discrete planes c
        then false
        else if is_empty planes
        then true
        else allowed_beside policy c planes)
      ≡ true
    → (contains Plane-discrete planes c ≡ false)
      × ((is_empty planes ≡ true) ⊎ (allowed_beside policy c planes ≡ true))
dispatched policy c planes h = elim (Bool-cases (contains Plane-discrete planes c)) [
  | inl e ↦ absurd (ground arith)
  | inr e ↦ elim (Bool-cases (is_empty planes)) [
    | inl z ↦ (e, inl z)
    | inr z ↦ (e, inr (ground arith))
  ]
]

-- A stage that may start on a plane is not on a plane that already runs; and if a policy is there,
-- it lets the plane run together with each plane that runs.
pub can_dispatch-IsCompatible :
    (policy : PlaneConcurrencyPolicyDefinition) (active : List Plane) (c x : Plane)
    → can_dispatch_plane (some policy) active c ≡ true
    → Has x active
    → (c ≢ x) × IsCompatible policy c x
unfolding can_dispatch_plane allowed_beside
can_dispatch-IsCompatible policy active c x h m =
    let (free, rest) = dispatched (some policy) c (active_plane_set [] active) h in
    let here' = Has-active_plane_set [] active x (inr m) in
    (λ e. apart (rw (← e) at here') free, both here' rest)
  where
    apart :
        Has c (active_plane_set [] active)
        → contains Plane-discrete (active_plane_set [] active) c ≡ false
        → ⊥
    apart k f = let t = Has-contains Plane-discrete _ c k in ground arith

    both :
        Has x (active_plane_set [] active)
        → (is_empty (active_plane_set [] active) ≡ true)
          ⊎ (allowed_beside (some policy) c (active_plane_set [] active) ≡ true)
        → IsCompatible policy c x
    both k (inl z) = let f = not_empty _ x k in absurd (ground arith)
    both k (inr a) = all_compatible-IsCompatible policy c _ a x k

-- A stage may start on a plane if the plane does not run yet and the policy lets it run together
-- with each plane that runs.
pub IsCompatible-can_dispatch :
    (policy : PlaneConcurrencyPolicyDefinition) (active : List Plane) (c : Plane)
    → ((x : Plane) → Has x active → (c ≢ x) × IsCompatible policy c x)
    → can_dispatch_plane (some policy) active c ≡ true
unfolding can_dispatch_plane allowed_beside
IsCompatible-can_dispatch policy active c h =
    elim (Bool-cases (contains Plane-discrete (active_plane_set [] active) c)) [
      | inl e ↦ absurd ((h c (runs c (contains-Has Plane-discrete _ c e))).0 refl)
      | inr e ↦
          let ok' =
            IsCompatible-all_compatible policy c (active_plane_set [] active)
              (λ x m. (h x (runs x m)).1) in
          ground arith
    ]
  where
    runs : (x : Plane) → Has x (active_plane_set [] active) → Has x active
    runs x m = elim (active_plane_set-Has [] active x m) [ inl n ↦ absurd (elim n [ ]) | inr n ↦ n ]
