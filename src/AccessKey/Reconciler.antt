-- ===== src/AccessKey/Reconciler.antt =====
-- internal/controller/accesskey_controller.go
use garage_storage_controlle.Prelude.{
  ◌++◌, Bool, false, not, ◌&&◌, Option, none, some, str_eq, nonempty, ◌==◌, if◌then◌else◌,
}
use garage_storage_controlle.Errors.{Err, wrap, is, text, resource_not_found, name_conflict}
use garage_storage_controlle.Exec.{
  Exec, pure, fail, deref, ◌>>=◌, ◌>>◌, Outcome, returned, failed, attempt, Run, outside,
  the_object, modify, tell, run, CtrlResult, no_requeue,
}
use garage_storage_controlle.S3
use garage_storage_controlle.Api.{NamespacedName, is_true, AccessKey, AccessKeyStatus}
use garage_storage_controlle.Kube.{Libraries}
use garage_storage_controlle.Conditions.{finalizer_name}
use garage_storage_controlle.AccessKey.Conditions.{
  reason_secret_name_conflict, reason_secret_setup_failed, initialize_conditions,
  mark_access_key_ready, mark_access_key_not_ready, mark_secret_ready, mark_secret_not_ready,
  external_key_ready_stat, update_access_key_condition,
}
use garage_storage_controlle.AccessKey.Types.{
  reason_secret_access_forbidden, rbac_remedy_msg, AccessKeyReconciler, set_access_key_id,
  set_secret_name,
}
use garage_storage_controlle.AccessKey.External.{
  cleanup_old_secret, resolve_ext_key_id, ensure_external_key, ensure_secret,
}

module _ (lib : Libraries) where
  -- the first test of reconcileAccessKey; `none` is the panic in externalKeyReadyStat
  unfoldable pub is_settled : AccessKey → Option Bool
  unfolding external_key_ready_stat
  is_settled k =
      if k.status.observed_generation == k.meta.generation
      then elim (external_key_ready_stat lib k) [
        | none ↦ none
        | some status ↦ some (is_true status && nonempty k.status.access_key_id)
      ]
      else some false

module _ {S : Type 0} (lib : Libraries) (r : AccessKeyReconciler S) where
  -- what follows a failure of ensureSecret
  unfoldable pub secret_failed : Err → Exec (Run AccessKey S) (Unit {0})
  secret_failed e = do
    key ← the_object
    if is e name_conflict
        then modify (mark_secret_not_ready lib reason_secret_name_conflict ("Conflict: " ++ text e))
        else if lib.is_forbidden e
        then (do
          let message =
              "Cannot access Secrets in namespace "
              ++ (lib.quote key.meta.namespace ++ (": " ++ text e))
          tell (
              r.recorder.eventf key.meta "Warning" reason_secret_access_forbidden
                (message ++ (". " ++ rbac_remedy_msg)))
          modify (mark_secret_not_ready lib reason_secret_access_forbidden message)
          fail e)
        else (do
          modify (
              mark_secret_not_ready lib reason_secret_setup_failed
                ("Failed to set up secret for credentials: " ++ text e))
          fail e)

  -- the secret is there: the one of an earlier spec goes, and the status names the new one
  unfoldable pub replace_old_secret : Exec (Run AccessKey S) (Unit {0})
  unfolding cleanup_old_secret
  replace_old_secret = do
    key ← the_object
    cleaned ← attempt (
        if nonempty key.status.secret_name
          && not (str_eq key.status.secret_name key.spec.secret_name)
        then outside (cleanup_old_secret lib r key.status.secret_name key.meta.namespace)
        else pure tt)
    elim cleaned [
      | failed e ↦ do
        modify (
            mark_secret_not_ready lib "SecretCleanupFailed" (
              "New secret created but failed to delete old secret "
              ++ (lib.quote key.status.secret_name ++ (": " ++ text e))))
        fail e
      | returned _ ↦ do
        modify (set_secret_name key.spec.secret_name)
        modify (mark_secret_ready lib)
    ]

  -- the part of reconcileAccessKey that has an external key
  unfoldable pub provide_secret : S3.AccessKey → Exec (Run AccessKey S) (Unit {0})
  unfolding secret_failed replace_old_secret
  provide_secret external_key = do
    modify (set_access_key_id external_key.id)
    modify (mark_access_key_ready lib)
    key ← the_object
    ensured ← attempt (outside (ensure_secret lib r key external_key.secret))
    elim ensured [ failed e ↦ secret_failed e | returned _ ↦ replace_old_secret ]

  unfoldable pub provision : Exec (Run AccessKey S) (Unit {0})
  provision = do
    key ← the_object
    external ← attempt (outside (ensure_external_key lib r key))
    elim external [
      | failed e ↦ do
        modify (
            mark_access_key_not_ready lib "AccessKeyUnknown"
              ("Failed to verify external access key: " ++ text e))
        fail e
      | returned external_key ↦ provide_secret external_key
    ]

  unfoldable pub reconcile_access_key : Exec (Run AccessKey S) (Unit {0})
  reconcile_access_key = do
    key ← the_object
    settled ← deref (is_settled lib key)
    if settled then pure tt else provision

  unfoldable pub update_status : NamespacedName → AccessKeyStatus → Exec S (Unit {0})
  update_status name status = do
    got ← attempt (r.client.get_access_key name)
    elim got [
      | failed e ↦ fail (wrap "re-reading access key for status update: " e "")
      | returned latest ↦ r.client.update_access_key_status (record latest { status = status })
    ]

  -- the branch of Reconcile for a key that is being deleted
  unfoldable pub finalize : Exec (Run AccessKey S) CtrlResult
  unfolding resolve_ext_key_id
  finalize = do
    key ← the_object
    if not (lib.contains_finalizer key.meta finalizer_name) then pure no_requeue else (do
      id ← outside (resolve_ext_key_id lib r key)
      deleted ← attempt (if nonempty id then outside (r.access_key.delete id) else pure tt)
      elim deleted [
        | failed e ↦ if is e resource_not_found then pure tt else fail e
        | returned _ ↦ pure tt
      ]
      modify (λ k. record k { meta = (lib.remove_finalizer k.meta finalizer_name).0 })
      unfinalized ← the_object
      outside (r.client.update_access_key unfinalized)
      pure no_requeue)

  -- AddFinalizer and the patch, whose answer replaces the object
  unfoldable pub ensure_finalizer : Exec (Run AccessKey S) (Unit {0})
  ensure_finalizer = do
    key ← the_object
    if lib.contains_finalizer key.meta finalizer_name then pure tt else (do
      patched ← outside (
          r.client.patch_access_key key
            (record key { meta = (lib.add_finalizer key.meta finalizer_name).0 }))
      modify (λ _. patched))

  -- `return ctrl.Result{}, err`
  abbrev pub finish : Outcome (Unit {0}) → Exec (Run AccessKey S) CtrlResult
  finish (returned _) = pure no_requeue
  finish (failed e) = fail e

  unfoldable pub save_status :
      NamespacedName → AccessKeyStatus → Outcome (Unit {0}) → Exec (Run AccessKey S) CtrlResult
  unfolding update_status
  save_status req orig reconciled = do
    key ← the_object
    if lib.access_key_status_equal orig key.status then finish reconciled else (do
      saved ← attempt (outside (update_status req key.status))
      elim saved [
        | failed e ↦
            if lib.is_conflict e
            then pure no_requeue
            else elim reconciled [ returned _ ↦ fail e | failed f ↦ fail f ]
        | returned _ ↦ finish reconciled
      ])

  unfoldable pub reconcile_status : NamespacedName → Exec (Run AccessKey S) CtrlResult
  unfolding save_status
  reconcile_status req = do
    key ← the_object
    let orig = key.status
    modify (initialize_conditions lib)
    reconciled ← attempt reconcile_access_key
    updated ← the_object
    shown ← deref (update_access_key_condition lib updated)
    modify (λ _. shown)
    save_status req orig reconciled

  unfoldable pub reconcile_found : NamespacedName → Exec (Run AccessKey S) CtrlResult
  unfolding finalize ensure_finalizer reconcile_status
  reconcile_found req = do
    key ← the_object
    elim key.meta.deletion_timestamp [
      | some _ ↦ finalize
      | none ↦ do ensure_finalizer; reconcile_status req
    ]

  unfoldable pub reconcile : NamespacedName → Exec S CtrlResult
  unfolding reconcile_found
  reconcile req = do
    got ← attempt (r.client.get_access_key req)
    elim got [
      | failed e ↦ if lib.is_not_found e then pure no_requeue else fail e
      | returned key ↦ run key (reconcile_found req)
    ]
