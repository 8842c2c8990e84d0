-- ===== src/Bucket/Identity.antt =====
-- The bucket that a resource stands for: it does not change once recorded, and it is not touched
-- without the owner's permission.
use garage_storage_controlle.Prelude.{
  ℤ, Option-cases, inl, inr, String, ◌≡◌, true, false, some, pos, arith, nonempty,
}
use garage_storage_controlle.Exec.{
  ok, Exec, attempt, attempt-keeps, bind-keeps, CtrlResult, Run, Outcome, returned, failed,
}
use garage_storage_controlle.S3
use garage_storage_controlle.Api.{Bucket, ExistingBucketSpec}
use garage_storage_controlle.Kube.{Libraries, Secret}
use garage_storage_controlle.Policy.Types.{label_value}
use garage_storage_controlle.AccessKey.Types.{secret_key_access_key_id}
use garage_storage_controlle.Bucket.Conditions.{
  mark_bucket_not_ready, mark_bucket_ready, update_bucket_cm_condition,
}
use garage_storage_controlle.Bucket.Types.{BucketReconciler, max_requeue_interval}
use garage_storage_controlle.Backoff.{owner_secret_backoff}
use garage_storage_controlle.Bucket.Resolve.{resolve_new_bucket, resolve_existing_bucket}
use garage_storage_controlle.Bucket.Reconciler.{
  configure_bucket, retry_later, reconcile_existing, reconcile_new, reconcile_bucket,
}

-- the bucket still has this identifier, and this name in Garage
abbrev pub IsKnownAs : String → String → Bucket → Type 0
IsKnownAs id name b = (b.status.bucket_id ≡ id) × (b.status.bucket_name ≡ name)

module _ {S : Type 0} (lib : Libraries) (r : BucketReconciler S) (id name : String) where
  abbrev Keeps : {A : Type 0} → Exec (Run Bucket S) A → Type 0
  Keeps m = (s : Run Bucket S) → IsKnownAs id name s.object → IsKnownAs id name (m s).1.object

  resolve_new_bucket-Keeps : Keeps (resolve_new_bucket lib r)
  unfolding resolve_new_bucket mark_bucket_not_ready
  resolve_new_bucket-Keeps s h = ground arith

  resolve_existing_bucket-Keeps :
      (spec : ExistingBucketSpec) → Keeps (resolve_existing_bucket lib r spec)
  unfolding resolve_existing_bucket mark_bucket_not_ready
  resolve_existing_bucket-Keeps spec s h = ground arith

  retry_later-Keeps : Keeps (retry_later lib r)
  unfolding retry_later
  retry_later-Keeps s h = ground arith

  configure_bucket-Keeps :
      nonempty id ≡ true
      → nonempty name ≡ true
      → (x : S3.Bucket) (alias : String) → Keeps (configure_bucket lib r x alias)
  unfolding configure_bucket mark_bucket_not_ready mark_bucket_ready update_bucket_cm_condition
  configure_bucket-Keeps known named x alias s h = ground arith

  reconcile_new-Keeps : nonempty id ≡ true → nonempty name ≡ true → Keeps (reconcile_new lib r)
  unfolding reconcile_new
  reconcile_new-Keeps known named s h =
      bind-keeps (λ t. IsKnownAs id name t.object) (resolve_new_bucket lib r)
        (λ (x, alias). configure_bucket lib r x alias) s (resolve_new_bucket-Keeps s h)
        (λ x t g. configure_bucket-Keeps known named x.0 x.1 t g)

  reconcile_existing-Keeps :
      nonempty id ≡ true
      → nonempty name ≡ true
      → (spec : ExistingBucketSpec) → Keeps (reconcile_existing lib r spec)
  unfolding reconcile_existing
  reconcile_existing-Keeps known named spec s h =
      bind-keeps (λ t. IsKnownAs id name t.object) (attempt (resolve_existing_bucket lib r spec))
        (λ resolved. elim resolved [
          | failed _ ↦ retry_later lib r
          | returned (x, alias) ↦ configure_bucket lib r x alias
        ])
        s
        (attempt-keeps (λ t. IsKnownAs id name t.object) (resolve_existing_bucket lib r spec) s
          (resolve_existing_bucket-Keeps spec s h))
        go
    where
      go :
          (o : Outcome (S3.Bucket × String)) (t : Run Bucket S)
          → IsKnownAs id name t.object
          → IsKnownAs id name
              ((elim o as (λ _. Exec (Run Bucket S) CtrlResult) [
                | failed _ ↦ retry_later lib r
                | returned (x, alias) ↦ configure_bucket lib r x alias
              ])
                t).1.object
      go (failed e) t g = retry_later-Keeps t g
      go (returned (x, alias)) t g = configure_bucket-Keeps known named x alias t g

  -- Once a bucket's identifier and name are recorded, no way through reconcileBucket changes them.
  pub reconcile_bucket-IsKnownAs :
      nonempty id ≡ true
      → nonempty name ≡ true
      → (s : Run Bucket S) → IsKnownAs id name s.object
      → IsKnownAs id name (reconcile_bucket lib r s).1.object
  unfolding reconcile_bucket
  reconcile_bucket-IsKnownAs known named s h = elim (Option-cases s.object.spec.existing_bucket) [
    | inl e ↦ ground (arith, reconcile_new-Keeps known named s h)
    | inr (spec, e) ↦ ground (arith, reconcile_existing-Keeps known named spec s h)
  ]

-- what reconcileBucket asks, in this order, before it uses an existing bucket
module _ {S : Type 0} (lib : Libraries) (r : BucketReconciler S) (b : Bucket)
    (spec : ExistingBucketSpec) (secret : Secret) (x : S3.Bucket) (perms : S3.Permissions)
    (w w₁ w₂ w₃ : S) (imported : b.spec.existing_bucket ≡ some spec)
    (got_secret : r.client.get_secret
        (record { namespace = b.meta.namespace; name = spec.owner_key_secret })
        w
      ≡ (ok secret, w₁))
    (got_bucket : r.bucket.get spec.name w₁ ≡ (ok x, w₂))
    (verified : r.ownership.get_permissions
        (label_value secret_key_access_key_id secret.contents)
        x.id
        w₂
      ≡ (ok perms, w₃)) where
  -- The key of the owner's secret does not own the existing bucket: Garage's bucket is not updated,
  -- no ConfigMap is written or deleted (the age is all that is asked after the permissions), the
  -- status names no new bucket, and a later retry after the backoff is the result.
  pub reconcile_bucket_unowned :
      (age interval : ℤ) (w₄ : S)
      → perms.owner ≡ false
      → r.client.time_since b.meta.creation_timestamp w₃ ≡ (ok age, w₄)
      → owner_secret_backoff age r.base_requeue_interval (pos max_requeue_interval) ≡ some interval
      → let (result, after) = reconcile_bucket lib r (record { object = b; world = w }) in
        (result ≡ ok (record { requeue_after = interval }))
        × (after.world ≡ w₄)
        × (after.object.status.bucket_id ≡ b.status.bucket_id)
        × (after.object.status.bucket_name ≡ b.status.bucket_name)
  unfolding reconcile_bucket reconcile_existing resolve_existing_bucket retry_later
      mark_bucket_not_ready
  reconcile_bucket_unowned age interval w₄ unowned since backoff =
      (ground arith, ground arith, ground arith, ground arith)
