-- ===== src/Bucket/Calls.antt =====
-- How many calls Reconcile of a Bucket makes.
use garage_storage_controlle.Prelude.{
  ℕ, zero, suc, ◌+◌, ◌≤◌, ◌≡◌, arith, String, List, [], ◌∷◌, Option, none, some,
}
use garage_storage_controlle.Errors.{Err}
use garage_storage_controlle.Exec.{Run, Result, Outcome, returned, failed, CtrlResult, ok}
use garage_storage_controlle.Exec.Costs.{IsWithin}
use garage_storage_controlle.S3
use garage_storage_controlle.Api.{
  NamespacedName, ObjectMeta, Bucket, BucketStatus, ExistingBucketSpec,
}
use garage_storage_controlle.Kube.{Libraries, ConfigMap}
use garage_storage_controlle.Bucket.Types.{BucketReconciler}
use garage_storage_controlle.Bucket.Resolve.{
  create_bucket, resolve_new_bucket, owner_key_id, verify_ownership, find_owned_bucket,
  resolve_existing_bucket,
}
use garage_storage_controlle.Bucket.ConfigMaps.{
  ensure_config_map, delete_config_map, delete_all_stale, delete_stale_config_map,
}
use garage_storage_controlle.Bucket.Reconciler.{
  apply_spec, config_map_failed, configure_bucket, retry_later, reconcile_existing, reconcile_new,
  reconcile_bucket, patch_status, reconcile,
}
use garage_storage_controlle.Prelude

abbrev pub length {ℓ} : {A : Type ℓ} → List A → ℕ
length [] = 0
length (x ∷ xs) = suc (length xs)

-- A clock that every call to the API server and to Garage moves by one at most, and an event or a
-- look at the time not at all; controllerutil.CreateOrUpdate counts as one call.
pub record IsClock {S : Type 0} (r : BucketReconciler S) (clock : S → ℕ) : Type 0 where
  pub get_bucket : (n : NamespacedName) → IsWithin clock 1 (r.client.get_bucket n)
  pub patch_bucket_status : (b : Bucket) → IsWithin clock 1 (r.client.patch_bucket_status b)
  pub list_config_maps :
      (namespace label value : String)
      → IsWithin clock 1 (r.client.list_config_maps namespace label value)
  pub create_or_update_config_map :
      (cm : ConfigMap) (f : ConfigMap → Result ConfigMap)
      → IsWithin clock 1 (r.client.create_or_update_config_map cm f)
  pub delete_config_map : (cm : ConfigMap) → IsWithin clock 1 (r.client.delete_config_map cm)
  pub get_secret : (n : NamespacedName) → IsWithin clock 1 (r.client.get_secret n)
  pub time_since : (t : Prelude.ℤ) → IsWithin clock 0 (r.client.time_since t)
  pub create : (alias : String) → IsWithin clock 1 (r.bucket.create alias)
  pub get : (alias : String) → IsWithin clock 1 (r.bucket.get alias)
  pub update : (id : String) (quotas : S3.Quotas) → IsWithin clock 1 (r.bucket.update id quotas)
  pub get_permissions :
      (key bucket : String) → IsWithin clock 1 (r.ownership.get_permissions key bucket)
  pub eventf :
      (o : ObjectMeta) (type reason message : String) (s : S)
      → clock (r.recorder.eventf o type reason message s) ≤ clock s

-- No list of ConfigMaps that the API server answers with is longer than n.
unfoldable pub ListsAtMost : {S : Type 0} → BucketReconciler S → ℕ → Type 0
ListsAtMost {S} r n =
    (namespace label value : String) (s : S) (cms : List ConfigMap)
    → (r.client.list_config_maps namespace label value s).0 ≡ ok cms
    → length cms ≤ n

module _ {S : Type 0} (lib : Libraries) (r : BucketReconciler S) (clock : S → ℕ)
    (counts : IsClock r clock) where
  abbrev inside : Run Bucket S → ℕ
  inside s = clock s.world

  create_bucket-IsWithin : (alias : String) → IsWithin inside 1 (create_bucket lib r alias)
  unfolding create_bucket
  create_bucket-IsWithin alias s = grind (arith, counts.create, counts.eventf)

  resolve_new_bucket-IsWithin : IsWithin inside 2 (resolve_new_bucket lib r)
  unfolding resolve_new_bucket
  resolve_new_bucket-IsWithin s = grind (arith, counts.get, create_bucket-IsWithin)

  owner_key_id-IsWithin : (e : ExistingBucketSpec) → IsWithin inside 1 (owner_key_id lib r e)
  unfolding owner_key_id
  owner_key_id-IsWithin e s = grind (arith, counts.get_secret, counts.eventf)

  verify_ownership-IsWithin :
      (e : ExistingBucketSpec) (key : String) (b : S3.Bucket)
      → IsWithin inside 1 (verify_ownership lib r e key b)
  unfolding verify_ownership
  verify_ownership-IsWithin e key b s = grind (arith, counts.get_permissions)

  find_owned_bucket-IsWithin :
      (e : ExistingBucketSpec) (key : String) → IsWithin inside 2 (find_owned_bucket lib r e key)
  unfolding find_owned_bucket
  find_owned_bucket-IsWithin e key s = grind (arith, counts.get, verify_ownership-IsWithin)

  resolve_existing_bucket-IsWithin :
      (e : ExistingBucketSpec) → IsWithin inside 3 (resolve_existing_bucket lib r e)
  unfolding resolve_existing_bucket
  resolve_existing_bucket-IsWithin e s =
      grind (arith, owner_key_id-IsWithin, find_owned_bucket-IsWithin)

  ensure_config_map-IsWithin :
      (b : Bucket) (endpoint : String) → IsWithin clock 1 (ensure_config_map lib r b endpoint)
  unfolding ensure_config_map
  ensure_config_map-IsWithin b endpoint s = grind (arith, counts.create_or_update_config_map)

  delete_config_map-IsWithin : (cm : ConfigMap) → IsWithin clock 1 (delete_config_map lib r cm)
  unfolding delete_config_map
  delete_config_map-IsWithin cm s = grind (arith, counts.delete_config_map)

  delete_all_stale-IsWithin :
      (b : Bucket) (cms : List ConfigMap)
      → IsWithin clock (length cms) (delete_all_stale lib r b cms)
  unfolding delete_all_stale
  delete_all_stale-IsWithin b [] s = omega arith
  delete_all_stale-IsWithin b (cm ∷ cms) s =
      grind (arith, delete_config_map-IsWithin, delete_all_stale-IsWithin b cms)

  apply_spec-IsWithin : (b : S3.Bucket) → IsWithin inside 1 (apply_spec lib r b)
  unfolding apply_spec
  apply_spec-IsWithin b s = grind (arith, counts.update)

  config_map_failed-IsWithin : (e : Err) → IsWithin inside 0 (config_map_failed lib r e)
  unfolding config_map_failed
  config_map_failed-IsWithin e s = grind (arith, counts.eventf)

  retry_later-IsWithin : IsWithin inside 0 (retry_later lib r)
  unfolding retry_later
  retry_later-IsWithin s = grind (arith, counts.time_since)

  patch_status-IsWithin :
      (old : BucketStatus) (x : Outcome CtrlResult) → IsWithin inside 1 (patch_status lib r old x)
  unfolding patch_status
  patch_status-IsWithin old (returned x) s = grind (arith, counts.patch_bucket_status)
  patch_status-IsWithin old (failed e) s = grind (arith, counts.patch_bucket_status)

  module _ (n : ℕ) (few : ListsAtMost r n) where
    delete_stale_config_map-IsWithin :
        (b : Bucket) → IsWithin clock (1 + n) (delete_stale_config_map lib r b)
    unfolding delete_stale_config_map ListsAtMost
    delete_stale_config_map-IsWithin b s =
        grind (arith, counts.list_config_maps, delete_all_stale-IsWithin, few)

    configure_bucket-IsWithin :
        (b : S3.Bucket) (alias : String) → IsWithin inside (3 + n) (configure_bucket lib r b alias)
    unfolding configure_bucket
    configure_bucket-IsWithin b alias s = grind (
      arith, apply_spec-IsWithin, ensure_config_map-IsWithin, config_map_failed-IsWithin,
      delete_stale_config_map-IsWithin,
    )

    reconcile_existing-IsWithin :
        (e : ExistingBucketSpec) → IsWithin inside (6 + n) (reconcile_existing lib r e)
    unfolding reconcile_existing
    reconcile_existing-IsWithin e s =
        grind
          (arith, resolve_existing_bucket-IsWithin, retry_later-IsWithin, configure_bucket-IsWithin)

    reconcile_new-IsWithin : IsWithin inside (5 + n) (reconcile_new lib r)
    unfolding reconcile_new
    reconcile_new-IsWithin s = grind (arith, resolve_new_bucket-IsWithin, configure_bucket-IsWithin)

    reconcile_bucket-IsWithin : IsWithin inside (6 + n) (reconcile_bucket lib r)
    unfolding reconcile_bucket
    reconcile_bucket-IsWithin s = grind (arith, reconcile_existing-IsWithin, reconcile_new-IsWithin)

    -- By a clock that every call to the API server and to Garage moves by one at most, and an event
    -- or a look at the time not at all, where CreateOrUpdate is one call: if no list of ConfigMaps is
    -- longer than n, Reconcile of a Bucket ends after at most n + 8 calls, however they answer and
    -- whatever the world is.
    pub reconcile_bucket_calls :
        (name : NamespacedName) (s : S) → clock (reconcile lib r name s).1 ≤ 8 + n + clock s
    unfolding reconcile
    reconcile_bucket_calls name s =
        grind (arith, counts.get_bucket, reconcile_bucket-IsWithin, patch_status-IsWithin)
