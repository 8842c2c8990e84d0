-- ===== src/Policy/Assign.antt =====
-- reconcilePolicy, checkBucket and checkAccessKey of internal/controller/accesspolicy_controller.go
use garage_storage_controlle.Prelude.{◌++◌, ◌&&◌, nonempty, if◌then◌else◌}
use garage_storage_controlle.Errors.{Err, sentinel, wrap, join, text, dependency_not_ready}
use garage_storage_controlle.Exec.{
  Exec, pure, fail, ◌>>=◌, ◌>>◌, Outcome, returned, failed, attempt, Run, outside, the_object,
  modify, tell,
}
use garage_storage_controlle.S3.{no_permissions}
use garage_storage_controlle.Api.{Bucket, AccessKey, AccessPolicy}
use garage_storage_controlle.Kube.{Libraries}
use garage_storage_controlle.Conditions.{ready}
use garage_storage_controlle.Policy.Conditions.{
  policy_assignment_ready, policy_bucket_ready, policy_access_key_ready, reason_access_key_missing,
  reason_bucket_missing, reason_dependencies_not_ready, mark_policy_condition_not_ready,
  mark_policy_key_ready, mark_policy_bucket_ready, mark_policy_assignment_ready,
}
use garage_storage_controlle.Policy.Types.{
  reason_policy_assignment_failed, AccessPolicyReconciler, wanted_permissions, set_bucket_id,
  set_access_key_id, not_met, message_of,
}

module _ {S : Type 0} (lib : Libraries) (r : AccessPolicyReconciler S) where
  unfoldable pub check_bucket : Exec (Run AccessPolicy S) Bucket
  check_bucket = do
    policy ← the_object
    got ← attempt (
        outside (
          r.client.get_bucket
            (record { namespace = policy.meta.namespace; name = policy.spec.bucket })))
    elim got [
      | failed e ↦
          if lib.is_not_found e
          then (do
            modify (
                mark_policy_condition_not_ready lib policy_bucket_ready reason_bucket_missing
                  ("Bucket not found in namespace: " ++ text e))
            fail (wrap ("retrieve bucket " ++ (policy.spec.bucket ++ ": ")) e ""))
          else fail (wrap "unexpected error getting bucket: " e "")
      | returned bucket ↦ do
        modify (set_bucket_id bucket.status.bucket_id)
        let cond = lib.find_status_condition bucket.status.conditions ready
        if not_met cond
            then (do
              modify (
                  mark_policy_condition_not_ready lib policy_bucket_ready
                    reason_dependencies_not_ready (message_of "Bucket condition not met" cond))
              fail (wrap "bucket not ready: " (sentinel dependency_not_ready) ""))
            else (do modify (mark_policy_bucket_ready lib); pure bucket)
    ]

  unfoldable pub check_access_key : Exec (Run AccessPolicy S) AccessKey
  check_access_key = do
    policy ← the_object
    got ← attempt (
        outside (
          r.client.get_access_key
            (record { namespace = policy.meta.namespace; name = policy.spec.access_key })))
    elim got [
      | failed e ↦
          if lib.is_not_found e
          then (do
            modify (
                mark_policy_condition_not_ready lib policy_access_key_ready
                  reason_access_key_missing ("Access key not found in namespace: " ++ text e))
            fail (wrap ("retrieve access key " ++ (policy.spec.access_key ++ ": ")) e ""))
          else fail (wrap "unexpected error gettig access key: " e "")
      | returned key ↦ do
        modify (set_access_key_id key.status.access_key_id)
        let cond = lib.find_status_condition key.status.conditions ready
        if not_met cond
            then (do
              modify (
                  mark_policy_condition_not_ready lib policy_access_key_ready
                    reason_dependencies_not_ready (message_of "AccessKey condition not met" cond))
              fail (wrap "access key not ready: " (sentinel dependency_not_ready) ""))
            else (do modify (mark_policy_key_ready lib); pure key)
    ]

  -- `_ = r.adminClient.SetPermissions(ctx, …, s3.Permissions{})` with the identifiers of the status
  unfoldable pub revoke_permissions : Exec (Run AccessPolicy S) (Unit {0})
  revoke_permissions = do
    policy ← the_object
    attempt (
        outside (
          r.admin_client.set_permissions policy.status.access_key_id policy.status.bucket_id
            no_permissions))
    pure tt

  unfoldable pub bucket_failed : Err → Exec (Run AccessPolicy S) (Unit {0})
  unfolding revoke_permissions
  bucket_failed e = do
    policy ← the_object
    if lib.is_not_found e && nonempty policy.status.bucket_id
        then (do revoke_permissions; modify (set_bucket_id ""))
        else pure tt

  unfoldable pub access_key_failed : Err → Exec (Run AccessPolicy S) (Unit {0})
  unfolding revoke_permissions
  access_key_failed e = do
    policy ← the_object
    if lib.is_not_found e && nonempty policy.status.access_key_id
        then (do revoke_permissions; modify (set_access_key_id ""))
        else pure tt

  -- the call of SetPermissions with the wanted permissions, and what follows it
  unfoldable pub assign_permissions : Bucket → AccessKey → Exec (Run AccessPolicy S) (Unit {0})
  assign_permissions bucket key = do
    policy ← the_object
    done ← attempt (
        outside (
          r.admin_client.set_permissions key.status.access_key_id bucket.status.bucket_id
            (wanted_permissions policy)))
    elim done [
      | failed e ↦ do
        let message = "Failed to apply access policy to Garage: " ++ text e
        tell (r.recorder.eventf policy.meta "Warning" reason_policy_assignment_failed message)
        modify (
            mark_policy_condition_not_ready lib policy_assignment_ready
              reason_policy_assignment_failed message)
        fail (wrap "applying access policy: " e "")
      | returned _ ↦ modify (mark_policy_assignment_ready lib)
    ]

  -- the first and the second part of reconcilePolicy: a check, and what its failure brings
  unfoldable pub examine_bucket : Exec (Run AccessPolicy S) (Outcome Bucket)
  unfolding check_bucket bucket_failed
  examine_bucket = do
    bucket ← attempt check_bucket
    elim bucket [ failed e ↦ bucket_failed e | returned _ ↦ pure tt ]
    pure bucket

  unfoldable pub examine_access_key : Exec (Run AccessPolicy S) (Outcome AccessKey)
  unfolding check_access_key access_key_failed
  examine_access_key = do
    key ← attempt check_access_key
    elim key [ failed e ↦ access_key_failed e | returned _ ↦ pure tt ]
    pure key

  -- `if len(errs) > 0 { return errors.Join(errs...) }`, and the assignment
  unfoldable pub conclude :
      Outcome Bucket → Outcome AccessKey → Exec (Run AccessPolicy S) (Unit {0})
  unfolding assign_permissions
  conclude (failed e) (failed f) = fail (join e f)
  conclude (failed e) (returned _) = fail e
  conclude (returned _) (failed f) = fail f
  conclude (returned bucket) (returned key) = assign_permissions bucket key

  unfoldable pub reconcile_policy : Exec (Run AccessPolicy S) (Unit {0})
  reconcile_policy = do bucket ← examine_bucket; key ← examine_access_key; conclude bucket key
