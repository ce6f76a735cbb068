-- ===== src/Runtime/Approvals/Resolved.antt =====
-- An approval is decided once.
use millrace_rs.Base.{
  String, ◌≡◌, refl, sym, ap, inl, inr, Bool-cases, none, some, Result, ok, err, ok_or, >>=-eq-ok,
  arith,
}
use millrace_rs.Base.Text.{concat, trim, is_blank}
use millrace_rs.Base.Dict.{lookup, insert, remove, lookup-insert_self, lookup-remove_self}
use millrace_rs.Contracts.Capabilities.{CapabilityContractError, ExecutionCapabilityGrant}
use millrace_rs.Runtime.State.{Timestamp}
use millrace_rs.Runtime.Approvals.{
  ApprovalStorageError, not_found, invalid, ExecutionCapabilityApprovalStatus,
  ExecutionCapabilityApproval, ApprovalStore, require_value, validate, decide, resolve_approval,
}

module _
    (validate_grant : ExecutionCapabilityGrant → Result CapabilityContractError (Unit {0})) where
  -- A decision on an approval that is not pending is refused.
  resolve-absent :
      (store : ApprovalStore) (approval_id decided_by reason : String)
      (status : ExecutionCapabilityApprovalStatus) (now : Timestamp)
      → lookup approval_id store.pending_dir ≡ none
      → (e : ApprovalStorageError) × (resolve_approval validate_grant store approval_id status
            decided_by reason now
          ≡ err e)
  unfolding resolve_approval require_value
  resolve-absent store approval_id decided_by reason status now gone =
      elim (Bool-cases (is_blank (trim approval_id))) [
        | inl e ↦ (invalid (concat "approval_id" " is required"), rw e refl)
        | inr e ↦ elim (Bool-cases (is_blank (trim decided_by))) [
          | inl f ↦ (invalid (concat "decided_by" " is required"), rw (e, f) refl)
          | inr f ↦ elim (Bool-cases (is_blank (trim reason))) [
            | inl g ↦ (invalid (concat "reason" " is required"), rw (e, f, g) refl)
            | inr g ↦ (not_found approval_id, rw (e, f, g, gone) refl)
          ]
        ]
      ]

  -- When an operator's decision is stored, the approval has the operator's status, it stands under its id
  -- with the resolved approvals and no longer with the pending ones, and every later decision on the id
  -- is refused.
  pub resolve_once :
      (store store' : ApprovalStore) (approval_id decided_by reason : String)
      (status : ExecutionCapabilityApprovalStatus) (now : Timestamp)
      (approval : ExecutionCapabilityApproval)
      → resolve_approval validate_grant store approval_id status decided_by reason now
        ≡ ok (approval, store')
      → (approval.status ≡ status)
        × (lookup approval_id store'.resolved_dir ≡ some approval)
        × (lookup approval_id store'.pending_dir ≡ none)
        × ((again : ExecutionCapabilityApprovalStatus) (by why : String) (later : Timestamp)
            → (e : ApprovalStorageError) × (resolve_approval validate_grant store' approval_id again
                  by why later
                ≡ err e))
  unfolding resolve_approval decide
  resolve_once store store' approval_id decided_by reason status now approval h =
      let (u, e, k) = >>=-eq-ok (require_value "approval_id" approval_id) _ (approval, store') h in
      let (u', e', k') = >>=-eq-ok (require_value "decided_by" decided_by) _ (approval, store') k in
      let (u'', e'', k'') = >>=-eq-ok (require_value "reason" reason) _ (approval, store') k' in
      let (found, f, l) =
        >>=-eq-ok (ok_or (lookup approval_id store.pending_dir) (not_found approval_id)) _
          (approval, store') k'' in
      let (v, g, l') = >>=-eq-ok (validate validate_grant found) _ (approval, store') l in
      let (v', g', l'') =
        >>=-eq-ok
          (validate validate_grant (decide validate_grant status decided_by reason now found)) _
          (approval, store') l' in
      let same : decide validate_grant status decided_by reason now found ≡ approval =
        ground arith in
      let left : remove approval_id store.pending_dir ≡ store'.pending_dir = ground arith in
      let kept : insert approval_id approval store.resolved_dir ≡ store'.resolved_dir =
        ground arith in
      let gone : lookup approval_id store'.pending_dir ≡ none =
        rw (← left) (lookup-remove_self approval_id store.pending_dir) in
      (
        ap (λ (a : ExecutionCapabilityApproval). a.status) (sym same),
        rw (← kept) (lookup-insert_self approval_id approval store.resolved_dir),
        gone,
        λ again by why later. resolve-absent store' approval_id by why again later gone,
      )
