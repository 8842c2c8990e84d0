-- ===== src/Bucket/Reconciler.antt =====
-- Reconcile and reconcileBucket of internal/controller/bucket_controller.go.
use garage_storage_controlle.Prelude.{String, ◌++◌, none, some, pos, str_eq, if◌then◌else◌}
use garage_storage_controlle.Errors.{Err, wrap, is, text, name_conflict}
use garage_storage_controlle.Exec.{
  Exec, pure, fail, deref, ◌>>=◌, ◌>>◌, Outcome, returned, failed, attempt, Run, outside,
  the_object, modify, tell, run, CtrlResult, no_requeue,
}
use garage_storage_controlle.S3
use garage_storage_controlle.Api.{
  NamespacedName, ExistingBucketSpec, condition_true, condition_false, Bucket, BucketStatus,
}
use garage_storage_controlle.Kube.{Libraries}
use garage_storage_controlle.Backoff.{owner_secret_backoff}
use garage_storage_controlle.AccessKey.Types.{rbac_remedy_msg}
use garage_storage_controlle.Bucket.Conditions.{
  reason_config_map_name_conflict, reason_config_map_create_error, initialize_bucket_conditions,
  mark_bucket_not_ready, mark_bucket_ready, update_bucket_cm_condition,
  update_bucket_ready_condition,
}
use garage_storage_controlle.Bucket.Types.{
  reason_config_map_access_forbidden, max_requeue_interval, BucketReconciler, wanted_quotas,
  compare_spec,
}
use garage_storage_controlle.Bucket.Resolve.{resolve_new_bucket, resolve_existing_bucket}
use garage_storage_controlle.Bucket.ConfigMaps.{ensure_config_map, delete_stale_config_map}

-- The identifier and the name are recorded where the status has none.
unfoldable pub record_identity : S3.Bucket → String → Bucket → Bucket
record_identity s3_bucket alias b = record b {
  status = record b.status {
    bucket_id = if str_eq b.status.bucket_id "" then s3_bucket.id else b.status.bucket_id;
    bucket_name = if str_eq b.status.bucket_name "" then alias else b.status.bucket_name;
  };
}

module _ {S : Type 0} (lib : Libraries) (r : BucketReconciler S) where
  -- the update of the quotas where they differ from the spec
  unfoldable pub apply_spec : S3.Bucket → Exec (Run Bucket S) (Unit {0})
  apply_spec s3_bucket = do
    bucket ← the_object
    if compare_spec lib s3_bucket bucket.spec
        then (do
          updated ← attempt (outside (r.bucket.update s3_bucket.id (wanted_quotas lib bucket.spec)))
          elim updated [
            | failed e ↦ do
              modify (
                  mark_bucket_not_ready lib "Update Failed"
                    ("Failed to update bucket configuration: " ++ text e))
              fail (wrap "updating external bucket to spec: " e "")
            | returned _ ↦ pure tt
          ])
        else pure tt

  -- what follows a failure of ensureConfigMap
  unfoldable pub config_map_failed : Err → Exec (Run Bucket S) CtrlResult
  config_map_failed e = do
    bucket ← the_object
    if is e name_conflict
        then (do
          modify (
              update_bucket_cm_condition lib condition_false reason_config_map_name_conflict
                ("Unable to use existing ConfigMap for bucket details: " ++ text e))
          pure no_requeue)
        else if lib.is_forbidden e
        then (do
          let message =
              "Cannot access ConfigMaps in namespace "
              ++ (lib.quote bucket.meta.namespace ++ (": " ++ text e))
          tell (
              r.recorder.eventf bucket.meta "Warning" reason_config_map_access_forbidden
                (message ++ (". " ++ rbac_remedy_msg)))
          modify (
              update_bucket_cm_condition lib condition_false reason_config_map_access_forbidden
                message)
          fail e)
        else (do
          modify (
              update_bucket_cm_condition lib condition_false reason_config_map_create_error
                ("Unable to create ConfigMap: " ++ text e))
          fail e)

  -- reconcileBucket once the bucket of Garage is known
  unfoldable pub configure_bucket : S3.Bucket → String → Exec (Run Bucket S) CtrlResult
  unfolding record_identity apply_spec config_map_failed
  configure_bucket s3_bucket alias = do
    modify (record_identity s3_bucket alias)
    apply_spec s3_bucket
    modify (mark_bucket_ready lib)
    bucket ← the_object
    ensured ← attempt (outside (ensure_config_map lib r bucket r.s3_api_endpoint))
    elim ensured [
      | failed e ↦ config_map_failed e
      | returned _ ↦ do
        modify (
            update_bucket_cm_condition lib condition_true "ConfigMapReady"
              "ConfigMap with external bucket details is ready")
        shown ← the_object
        outside (delete_stale_config_map lib r shown)
        pure no_requeue
    ]

  -- the interval after an owner could not be verified
  unfoldable pub retry_later : Exec (Run Bucket S) CtrlResult
  retry_later = do
    bucket ← the_object
    age ← outside (r.client.time_since bucket.meta.creation_timestamp)
    interval ← deref (owner_secret_backoff age r.base_requeue_interval (pos max_requeue_interval))
    pure (record { requeue_after = interval })

  unfoldable pub reconcile_existing : ExistingBucketSpec → Exec (Run Bucket S) CtrlResult
  reconcile_existing spec = do
    resolved ← attempt (resolve_existing_bucket lib r spec)
    elim resolved [
      | failed _ ↦ retry_later
      | returned (s3_bucket, alias) ↦ configure_bucket s3_bucket alias
    ]

  unfoldable pub reconcile_new : Exec (Run Bucket S) CtrlResult
  reconcile_new = do (s3_bucket, alias) ← resolve_new_bucket lib r; configure_bucket s3_bucket alias

  unfoldable pub reconcile_bucket : Exec (Run Bucket S) CtrlResult
  reconcile_bucket = do
    bucket ← the_object
    elim bucket.spec.existing_bucket [ some spec ↦ reconcile_existing spec | none ↦ reconcile_new ]

  -- `return result, err`
  abbrev pub finish : Outcome CtrlResult → Exec (Run Bucket S) CtrlResult
  finish (returned result) = pure result
  finish (failed e) = fail e

  unfoldable pub patch_status : BucketStatus → Outcome CtrlResult → Exec (Run Bucket S) CtrlResult
  patch_status orig reconciled = do
    bucket ← the_object
    if lib.bucket_status_equal orig bucket.status then finish reconciled else (do
      patched ← attempt (outside (r.client.patch_bucket_status bucket))
      elim patched [
        | failed e ↦
            if lib.is_conflict e
            then pure no_requeue
            else elim reconciled [ returned _ ↦ fail e | failed f ↦ fail f ]
        | returned _ ↦ finish reconciled
      ])

  unfoldable pub reconcile_found : Exec (Run Bucket S) CtrlResult
  unfolding patch_status
  reconcile_found = do
    bucket ← the_object
    let orig = bucket.status
    modify (initialize_bucket_conditions lib)
    reconciled ← attempt reconcile_bucket
    modify (update_bucket_ready_condition lib)
    patch_status orig reconciled

  unfoldable pub reconcile : NamespacedName → Exec S CtrlResult
  unfolding reconcile_found
  reconcile req = do
    got ← attempt (r.client.get_bucket req)
    elim got [
      | failed e ↦ if lib.is_not_found e then pure no_requeue else fail e
      | returned bucket ↦ run bucket reconcile_found
    ]
