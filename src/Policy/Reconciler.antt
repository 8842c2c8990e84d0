-- ===== src/Policy/Reconciler.antt =====
-- Reconcile of internal/controller/accesspolicy_controller.go
use garage_storage_controlle.Prelude.{
  Bool, not, ◌&&◌, ◌||◌, Option, none, some, nonempty, if◌then◌else◌,
}
use garage_storage_controlle.Errors.{Err, wrap, is, resource_not_found, dependency_not_ready}
use garage_storage_controlle.Exec.{
  Exec, pure, fail, deref, ◌>>=◌, ◌>>◌, Outcome, returned, failed, attempt, Run, outside,
  the_object, modify, run, CtrlResult, no_requeue, requeue_seconds,
}
use garage_storage_controlle.S3.{no_permissions}
use garage_storage_controlle.Api.{NamespacedName, AccessPolicy, AccessPolicyStatus}
use garage_storage_controlle.Kube.{Libraries}
use garage_storage_controlle.Conditions.{finalizer_name}
use garage_storage_controlle.Policy.Conditions.{
  initialize_policy_conditions, update_access_policy_condition,
}
use garage_storage_controlle.Policy.Types.{ensure_labels, AccessPolicyReconciler}
use garage_storage_controlle.Policy.Assign.{reconcile_policy}

module _ {S : Type 0} (lib : Libraries) (r : AccessPolicyReconciler S) where
  -- Removing the permissions in the finalizer: what is already deleted in Garage is no failure.
  unfoldable pub withdraw_permissions : Exec (Run AccessPolicy S) (Unit {0})
  withdraw_permissions = do
    policy ← the_object
    if nonempty policy.status.access_key_id && nonempty policy.status.bucket_id
        then (do
          revoked ← attempt (
              outside (
                r.admin_client.set_permissions policy.status.access_key_id policy.status.bucket_id
                  no_permissions))
          elim revoked [
            | failed e ↦ if is e resource_not_found then pure tt else fail e
            | returned _ ↦ pure tt
          ])
        else pure tt

  -- the branch of Reconcile for a policy that is being deleted
  unfoldable pub finalize : Exec (Run AccessPolicy S) CtrlResult
  unfolding withdraw_permissions
  finalize = do
    policy ← the_object
    if not (lib.contains_finalizer policy.meta finalizer_name) then pure no_requeue else (do
      withdraw_permissions
      let (unfinalized, _) = lib.remove_finalizer policy.meta finalizer_name
      modify (λ p. record p { meta = unfinalized })
      released ← the_object
      outside (r.client.update_access_policy released)
      pure no_requeue)

  unfoldable pub save_meta : Exec (Run AccessPolicy S) CtrlResult
  save_meta = do
    policy ← the_object
    saved ← attempt (outside (r.client.update_access_policy policy))
    elim saved [
      | failed e ↦
          if lib.is_conflict e then pure no_requeue else fail (wrap "updating object meta: " e "")
      | returned _ ↦ pure no_requeue
    ]

  -- the switch on the error of reconcilePolicy: the result, and the error that is returned with it
  unfoldable pub classify : Outcome (Unit {0}) → CtrlResult × Option Err
  classify (returned _) = (no_requeue, none)
  classify (failed e) =
      if lib.is_not_found e
      then (requeue_seconds 15, none)
      else if is e dependency_not_ready
      then (requeue_seconds 10, none)
      else (no_requeue, some e)

  -- `return result, resultErr`
  abbrev pub finish : CtrlResult × Option Err → Exec (Run AccessPolicy S) CtrlResult
  finish (result, none) = pure result
  finish (result, some e) = fail e

  unfoldable pub patch_status :
      AccessPolicyStatus → CtrlResult × Option Err → Exec (Run AccessPolicy S) CtrlResult
  patch_status old (result, result_err) = do
    policy ← the_object
    if lib.access_policy_status_equal old policy.status then finish (result, result_err) else (do
      patched ← attempt (outside (r.client.patch_access_policy_status policy))
      elim patched [
        | failed e ↦
            if lib.is_conflict e
            then pure no_requeue
            else elim result_err [ none ↦ fail e | some f ↦ fail f ]
        | returned _ ↦ finish (result, result_err)
      ])

  unfoldable pub reconcile_status : Exec (Run AccessPolicy S) CtrlResult
  unfolding classify patch_status
  reconcile_status = do
    policy ← the_object
    let old = policy.status
    modify (initialize_policy_conditions lib)
    reconciled ← attempt (reconcile_policy lib r)
    updated ← the_object
    settled ← deref (update_access_policy_condition lib updated)
    modify (λ _. settled)
    patch_status old (classify reconciled)

  unfoldable pub reconcile_live : Bool → Exec (Run AccessPolicy S) CtrlResult
  unfolding save_meta
  reconcile_live labels_changed = do
    policy ← the_object
    let present = lib.contains_finalizer policy.meta finalizer_name
    let (finalized, modified) = lib.add_finalizer policy.meta finalizer_name
    modify (λ p. if present then p else record p { meta = finalized })
    if labels_changed || (not present && modified) then save_meta else reconcile_status

  unfoldable pub reconcile_found : Exec (Run AccessPolicy S) CtrlResult
  unfolding finalize reconcile_live
  reconcile_found = do
    policy ← the_object
    let (labelled, labels_changed) = ensure_labels policy
    modify (λ _. labelled)
    elim policy.meta.deletion_timestamp [ some _ ↦ finalize | none ↦ reconcile_live labels_changed ]

  unfoldable pub reconcile : NamespacedName → Exec S CtrlResult
  unfolding reconcile_found
  reconcile req = do
    got ← attempt (r.client.get_access_policy req)
    elim got [
      | failed e ↦ if lib.is_not_found e then pure no_requeue else fail e
      | returned policy ↦ run policy reconcile_found
    ]
