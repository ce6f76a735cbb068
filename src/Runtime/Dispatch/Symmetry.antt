-- ===== src/Runtime/Dispatch/Symmetry.antt =====
-- The dispatch test depends on neither the order of the active planes nor on which plane came first.
use millrace_rs.Base.{
  ◌≡◌, refl, sym, ◌∙◌, ◌≢◌, inl, inr, Bool, true, false, ◌&&◌, ◌||◌, Bool-cases, some, List, [],
  ◌∷◌, Has, here, there, any, length, leb, contains, test, arith,
}
use millrace_rs.Contracts.Enums.{Plane, Plane-discrete}
use millrace_rs.Runtime.Dispatch.{
  PlaneConcurrencyPolicyDefinition, pair_in_group, pair_in_groups, can_dispatch_plane,
}
use millrace_rs.Runtime.Dispatch.Compatible.{
  IsCompatible, can_dispatch-IsCompatible, IsCompatible-can_dispatch,
}

test-sym : (p q : Plane) → test (Plane-discrete p q) ≡ test (Plane-discrete q p)
test-sym p q = elim (Plane-discrete p q) as (λ t. test t ≡ test (Plane-discrete q p)) [
  | yes e ↦ elim (Plane-discrete q p) as (λ t. true ≡ test t) [
    | yes _ ↦ refl
    | no n ↦ absurd (n (sym e))
  ]
  | no n ↦ elim (Plane-discrete q p) as (λ t. false ≡ test t) [
    | yes e ↦ absurd (n (sym e))
    | no _ ↦ refl
  ]
]

swap : (a b c d : Bool) → c ≡ d → (a && b && c) ≡ (b && a && d)
swap a b c d h = ground arith

pair_in_group-sym :
    (p q : Plane) (group : List Plane) → pair_in_group p q group ≡ pair_in_group q p group
unfolding pair_in_group
pair_in_group-sym p q group =
    swap (contains Plane-discrete group p) (contains Plane-discrete group q)
      (test (Plane-discrete p q) || leb 2 (length group))
      (test (Plane-discrete q p) || leb 2 (length group)) (rw (test-sym p q) refl)

pair_in_groups-sym :
    (p q : Plane) (groups : List (List Plane))
    → pair_in_groups p q groups ≡ pair_in_groups q p groups
unfolding pair_in_groups any
pair_in_groups-sym p q [] = refl
pair_in_groups-sym p q (group ∷ groups) =
    rw (pair_in_group-sym p q group, pair_in_groups-sym p q groups) refl

IsCompatible-sym :
    (policy : PlaneConcurrencyPolicyDefinition) (p q : Plane)
    → IsCompatible policy p q
    → IsCompatible policy q p
IsCompatible-sym policy p q h = (
  pair_in_groups-sym q p policy.mutually_exclusive_planes ∙ h.0,
  pair_in_groups-sym q p policy.may_run_concurrently ∙ h.1,
)

-- If a policy lets a plane start beside another that runs, it lets the other start beside it.
pub can_dispatch-sym :
    (policy : PlaneConcurrencyPolicyDefinition) (p q : Plane)
    → can_dispatch_plane (some policy) (q ∷ []) p ≡ true
    → can_dispatch_plane (some policy) (p ∷ []) q ≡ true
can_dispatch-sym policy p q h = IsCompatible-can_dispatch policy (p ∷ []) q beside
  where
    beside : (x : Plane) → Has x (p ∷ []) → (q ≢ x) × IsCompatible policy q x
    beside _ here =
        let (apart, compatible) = can_dispatch-IsCompatible policy (q ∷ []) p q h here in
        (λ e. apart (sym e), IsCompatible-sym policy p q compatible)
    beside x (there m) = elim m [ ]

dispatch_within :
    (policy : PlaneConcurrencyPolicyDefinition) (xs ys : List Plane) (c : Plane)
    → ((x : Plane) → Has x ys → Has x xs)
    → can_dispatch_plane (some policy) xs c ≡ true
    → can_dispatch_plane (some policy) ys c ≡ true
dispatch_within policy xs ys c within h =
    IsCompatible-can_dispatch policy ys c
      (λ x m. can_dispatch-IsCompatible policy xs c x h (within x m))

-- Under a policy, two lists of the same active planes, in any order and with any repeats, allow the
-- same planes to start.
pub can_dispatch-same_planes :
    (policy : PlaneConcurrencyPolicyDefinition) (xs ys : List Plane) (c : Plane)
    → ((x : Plane) → Has x xs → Has x ys)
    → ((x : Plane) → Has x ys → Has x xs)
    → can_dispatch_plane (some policy) xs c ≡ can_dispatch_plane (some policy) ys c
can_dispatch-same_planes policy xs ys c into from =
    elim (Bool-cases (can_dispatch_plane (some policy) xs c)) [
      | inl e ↦ e ∙ sym (dispatch_within policy xs ys c from e)
      | inr e ↦ elim (Bool-cases (can_dispatch_plane (some policy) ys c)) [
        | inl f ↦ dispatch_within policy ys xs c into f ∙ sym f
        | inr f ↦ e ∙ sym f
      ]
    ]
