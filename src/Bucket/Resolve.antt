-- ===== src/Bucket/Resolve.antt =====
-- resolveNewBucket and resolveExistingBucket of internal/controller/bucket_controller.go.
use garage_storage_controlle.Prelude.{String, ◌++◌, not, if◌then◌else◌}
use garage_storage_controlle.Errors.{plain, wrap, is, text, resource_not_found}
use garage_storage_controlle.Exec.{
  Exec, pure, fail, ◌>>=◌, ◌>>◌, returned, failed, attempt, Run, outside, the_object, modify, tell,
}
use garage_storage_controlle.S3
use garage_storage_controlle.Api.{Bucket, ExistingBucketSpec}
use garage_storage_controlle.Kube.{Libraries}
use garage_storage_controlle.Naming.{suffixed_resource_name}
use garage_storage_controlle.Policy.Types.{label_value}
use garage_storage_controlle.AccessKey.Types.{
  secret_key_access_key_id, reason_secret_access_forbidden, rbac_remedy_msg,
}
use garage_storage_controlle.Bucket.Conditions.{
  mark_bucket_not_ready, reason_owner_key_secret_not_found, reason_ownership_verification_failed,
}
use garage_storage_controlle.Bucket.Types.{
  reason_bucket_created, reason_bucket_create_failed, BucketReconciler,
}

module _ {S : Type 0} (lib : Libraries) (r : BucketReconciler S) where
  -- the call of Create, and what follows it
  unfoldable pub create_bucket : String → Exec (Run Bucket S) S3.Bucket
  create_bucket alias = do
    bucket ← the_object
    created ← attempt (outside (r.bucket.create alias))
    elim created [
      | failed e ↦ do
        modify (
            mark_bucket_not_ready lib "CreateFailed"
              ("Failed to create bucket '" ++ (alias ++ ("': " ++ text e))))
        tell (
            r.recorder.eventf bucket.meta "Warning" reason_bucket_create_failed
              ("Failed to create Garage bucket " ++ (lib.quote alias ++ (": " ++ text e))))
        fail (wrap "create new bucket: " e "")
      | returned s3_bucket ↦ do
        tell (
            r.recorder.eventf bucket.meta "Normal" reason_bucket_created
              ("Created Garage bucket " ++ lib.quote alias))
        pure s3_bucket
    ]

  unfoldable pub resolve_new_bucket : Exec (Run Bucket S) (S3.Bucket × String)
  unfolding create_bucket
  resolve_new_bucket = do
    bucket ← the_object
    let alias = suffixed_resource_name lib bucket.spec.name bucket.meta
    got ← attempt (outside (r.bucket.get alias))
    s3_bucket ← elim got [
      | failed e ↦ if is e resource_not_found then create_bucket alias else (do
        modify (mark_bucket_not_ready lib "UnknownState" ("S3 API error: " ++ text e))
        fail (wrap "retrieving existing bucket: " e ""))
      | returned found ↦ pure found
    ]
    pure (s3_bucket, alias)

  -- the first part of resolveExistingBucket: the identifier of the owner's key
  unfoldable pub owner_key_id : ExistingBucketSpec → Exec (Run Bucket S) String
  owner_key_id spec = do
    bucket ← the_object
    got ← attempt (
        outside (
          r.client.get_secret
            (record { namespace = bucket.meta.namespace; name = spec.owner_key_secret })))
    elim got [
      | failed e ↦
          if lib.is_forbidden e
          then (do
            tell (
                r.recorder.eventf bucket.meta "Warning" reason_secret_access_forbidden (
                  "Cannot access Secrets in namespace "
                  ++ (lib.quote bucket.meta.namespace
                      ++ (": " ++ (text e ++ (". " ++ rbac_remedy_msg))))))
            modify (
                mark_bucket_not_ready lib reason_secret_access_forbidden (
                  "Cannot access Secret " ++ (lib.quote spec.owner_key_secret ++ (": " ++ text e))))
            fail (wrap "get owner key secret: " e ""))
          else (do
            modify (
                mark_bucket_not_ready lib reason_owner_key_secret_not_found
                  ("Secret " ++ (lib.quote spec.owner_key_secret ++ (" not found: " ++ text e))))
            fail (wrap "get owner key secret: " e ""))
      | returned secret ↦ pure (label_value secret_key_access_key_id secret.contents)
    ]

  -- its last part: the key owns the bucket in Garage
  unfoldable pub verify_ownership :
      ExistingBucketSpec → String → S3.Bucket → Exec (Run Bucket S) (Unit {0})
  verify_ownership spec key_id s3_bucket = do
    asked ← attempt (outside (r.ownership.get_permissions key_id s3_bucket.id))
    elim asked [
      | failed e ↦ do
        modify (
            mark_bucket_not_ready lib reason_ownership_verification_failed
              ("Failed to verify ownership: " ++ text e))
        fail (wrap "verify ownership: " e "")
      | returned perms ↦
          if not perms.owner
          then (do
            modify (
                mark_bucket_not_ready lib reason_ownership_verification_failed (
                  "Key "
                  ++ (lib.quote key_id
                      ++ (" does not have owner permission on bucket " ++ lib.quote spec.name))))
            fail (plain "ownership check failed: key does not have owner permission"))
          else pure tt
    ]

  -- the rest of resolveExistingBucket, once the key is known
  unfoldable pub find_owned_bucket :
      ExistingBucketSpec → String → Exec (Run Bucket S) (S3.Bucket × String)
  unfolding verify_ownership
  find_owned_bucket spec key_id = do
    got ← attempt (outside (r.bucket.get spec.name))
    s3_bucket ← elim got [
      | failed e ↦ do
        modify (
            mark_bucket_not_ready lib "BucketNotFound"
              ("Bucket " ++ (lib.quote spec.name ++ (" not found in Garage: " ++ text e))))
        fail (wrap "get existing bucket: " e "")
      | returned found ↦ pure found
    ]
    verify_ownership spec key_id s3_bucket
    pure (s3_bucket, spec.name)

  unfoldable pub resolve_existing_bucket :
      ExistingBucketSpec → Exec (Run Bucket S) (S3.Bucket × String)
  unfolding owner_key_id find_owned_bucket
  resolve_existing_bucket spec = do key_id ← owner_key_id spec; find_owned_bucket spec key_id
