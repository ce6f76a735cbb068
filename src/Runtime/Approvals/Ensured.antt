-- ===== src/Runtime/Approvals/Ensured.antt =====
-- Asking for an approval twice asks the operator once.
use millrace_rs.Base.{
  String, ◌==◌, eq_iff, ◌≡◌, refl, inl, inr, true, Option, none, some, Option-cases, List, [], ◌∷◌,
  ◌++◌, find, find-none, Has, here, there, Has-append_left, Result, ok, ◌>>=◌, >>=-eq-ok,
  Bool-cases, arith,
}
use millrace_rs.Base.Dict.{insert}
use millrace_rs.Base.Sort.{Has-sort_by}
use millrace_rs.Contracts.Capabilities.{CapabilityContractError, ExecutionCapabilityGrant}
use millrace_rs.Runtime.State.{Timestamp}
use millrace_rs.Runtime.Approvals.{
  ApprovalStorageResult, ExecutionCapabilityApproval, ExecutionCapabilityApprovalRequest,
  ApprovalStore, validate, list_approvals_in_dir, list_execution_capability_approvals, is_for,
  by_id, find_approval_for_grant, store_pending, ensure_found, pending_approval,
  ensure_execution_capability_approval,
}

module _
    (validate_grant : ExecutionCapabilityGrant → Result CapabilityContractError (Unit {0})) where
  -- A valid record that is written to a directory is listed with the others.
  listed-insert :
      (files : List (String × ExecutionCapabilityApproval))
      (approvals : List ExecutionCapabilityApproval) (key : String)
      (approval : ExecutionCapabilityApproval)
      → list_approvals_in_dir validate_grant files ≡ ok approvals
      → validate validate_grant approval ≡ ok tt
      → (listed : List ExecutionCapabilityApproval) × (list_approvals_in_dir validate_grant
            (insert key approval files)
          ≡ ok listed)
        × Has approval listed
  unfolding list_approvals_in_dir insert
  listed-insert [] approvals key approval h valid = (approval ∷ [], rw valid refl, here)
  listed-insert (file ∷ files) approvals key approval h valid =
      let (u, e, k) = >>=-eq-ok (validate validate_grant file.1) _ approvals h in
      let (rest, f, l) = >>=-eq-ok (list_approvals_in_dir validate_grant files) _ approvals k in
      let (listed, g, m) = listed-insert files rest key approval f valid in
      elim (Bool-cases (file.0 == key)) [
        | inl b ↦ (approval ∷ rest, rw (b, valid, f) refl, here)
        | inr b ↦ (file.1 ∷ listed, rw (b, e, g) refl, there m)
      ]

  -- Once an approval for the key is among the pending ones, the search finds one.
  found_after :
      (store : ApprovalStore) (run_id request_id grant_id key : String)
      (approvals : List ExecutionCapabilityApproval) (approval : ExecutionCapabilityApproval)
      → list_execution_capability_approvals validate_grant store ≡ ok approvals
      → validate validate_grant approval ≡ ok tt
      → is_for validate_grant run_id request_id grant_id approval ≡ true
      → (again : ExecutionCapabilityApproval) × (find_approval_for_grant validate_grant
            (record store { pending_dir = insert key approval store.pending_dir })
            run_id
            request_id
            grant_id
          ≡ ok (some again))
  unfolding find_approval_for_grant list_execution_capability_approvals
  found_after store run_id request_id grant_id key approvals approval h valid keyed =
      let (waiting, e, k) =
        >>=-eq-ok (list_approvals_in_dir validate_grant store.pending_dir) _ approvals h in
      let (resolved, f, l) =
        >>=-eq-ok (list_approvals_in_dir validate_grant store.resolved_dir) _ approvals k in
      let (listed, g, m) = listed-insert store.pending_dir waiting key approval e valid in
      let all = by_id validate_grant listed ++ by_id validate_grant resolved in
      let present : Has approval all =
        Has-append_left (by_id validate_grant listed) (by_id validate_grant resolved) approval
          (Has-sort_by (λ (a : ExecutionCapabilityApproval). a.approval_id) approval listed m) in
      elim (Option-cases (find (is_for validate_grant run_id request_id grant_id) all)) [
        | inl n ↦
            let no =
              find-none (is_for validate_grant run_id request_id grant_id) all n approval present in
            absurd (ground arith)
        | inr (again, n) ↦ (again, rw (g, f, n) refl)
      ]

  pending-keyed :
      (request : ExecutionCapabilityApprovalRequest) (approval_id workspace_id : String)
      (expiry : Option Timestamp)
      → is_for validate_grant request.run_id request.request_id request.grant.grant_id
          (pending_approval request approval_id workspace_id expiry)
        ≡ true
  unfolding is_for pending_approval
  pending-keyed request approval_id workspace_id expiry = ground (
    arith,
    (eq_iff request.run_id request.run_id).1 refl,
    (eq_iff request.request_id request.request_id).1 refl,
    (eq_iff request.grant.grant_id request.grant.grant_id).1 refl,
  )

  -- Once an approval was ensured for a grant of a request, ensuring it again finds an approval and leaves
  -- the store as it is, whatever identifier and time of expiry it would now give to a new one.
  pub ensure_twice :
      (store store' : ApprovalStore) (request : ExecutionCapabilityApprovalRequest)
      (approval_id workspace_id : String) (expires_at : ApprovalStorageResult (Option Timestamp))
      (approval : ExecutionCapabilityApproval) (approval_id' : String)
      (expires_at' : ApprovalStorageResult (Option Timestamp))
      → ensure_execution_capability_approval validate_grant store request approval_id workspace_id
          expires_at
        ≡ ok (approval, store')
      → (again : ExecutionCapabilityApproval) × (ensure_execution_capability_approval validate_grant
            store' request approval_id' workspace_id expires_at'
          ≡ ok (again, store'))
  unfolding ensure_execution_capability_approval ensure_found store_pending find_approval_for_grant
  ensure_twice store store' request approval_id workspace_id expires_at approval approval_id'
        expires_at' h =
      let (found, e, k) =
        >>=-eq-ok
          (find_approval_for_grant validate_grant store request.run_id request.request_id
            request.grant.grant_id)
          _ (approval, store') h in
      by_found found e k
    where
      by_found :
          (found : Option ExecutionCapabilityApproval)
          → find_approval_for_grant validate_grant store request.run_id request.request_id
              request.grant.grant_id
            ≡ ok found
          → ensure_found validate_grant store
              (expires_at >>= λ expiry.
                ok (pending_approval request approval_id workspace_id expiry))
              found
            ≡ ok (approval, store')
          → (again : ExecutionCapabilityApproval) × (ensure_execution_capability_approval
                validate_grant store' request approval_id' workspace_id expires_at'
              ≡ ok (again, store'))
      by_found (some existing) e k =
          let same : store ≡ store' = ground arith in (existing, rw (← same, e) refl)
      by_found none e k =
          let (fresh, f, l) =
            >>=-eq-ok
              (expires_at >>= λ expiry.
                ok (pending_approval request approval_id workspace_id expiry))
              (store_pending validate_grant store) (approval, store') k in
          let (expiry, f', made) = >>=-eq-ok expires_at _ fresh f in
          let (u, valid, l') = >>=-eq-ok (validate validate_grant fresh) _ (approval, store') l in
          let (approvals, listed, n) =
            >>=-eq-ok (list_execution_capability_approvals validate_grant store) _ none e in
          let is_fresh : pending_approval request approval_id workspace_id expiry ≡ fresh =
            ground arith in
          let keyed : is_for validate_grant request.run_id request.request_id request.grant.grant_id
                fresh
              ≡ true =
            rw (← is_fresh) (pending-keyed request approval_id workspace_id expiry) in
          let (again, o) =
            found_after store request.run_id request.request_id request.grant.grant_id
              fresh.approval_id approvals fresh listed valid keyed in
          let left : record store { pending_dir = insert fresh.approval_id fresh store.pending_dir }
              ≡ store' =
            ground arith in
          (again, rw (← left, o) refl)
