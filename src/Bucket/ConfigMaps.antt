-- ===== src/Bucket/ConfigMaps.antt =====
-- ensureConfigMap and deleteStaleConfigMap of internal/controller/bucket_controller.go.
use garage_storage_controlle.Prelude.{
  String, ◌++◌, Bool, not, ◌&&◌, List, [], ◌∷◌, str_eq, nonempty, if◌then◌else◌,
}
use garage_storage_controlle.Errors.{Err, sentinel, wrap, name_conflict}
use garage_storage_controlle.Exec.{
  Result, ok, err, panic, Exec, pure, fail, ◌>>=◌, ◌>>◌, returned, failed, attempt,
}
use garage_storage_controlle.Api.{Bucket, ObjectMeta}
use garage_storage_controlle.Kube.{Libraries, ConfigMap}
use garage_storage_controlle.Policy.Types.{set_label}
use garage_storage_controlle.AccessKey.Types.{new_meta}
use garage_storage_controlle.Bucket.Types.{
  config_map_key_bucket_name, config_map_key_endpoint, label_bucket_name, BucketReconciler,
  desired_name,
}

-- the part of the mutate function after the owner is set
abbrev pub fill_config_map : Bucket → String → ObjectMeta → ConfigMap
fill_config_map bucket endpoint owned = record {
  meta = record owned { labels = set_label label_bucket_name bucket.meta.name owned.labels };
  contents =
      (config_map_key_bucket_name, bucket.status.bucket_name)
      ∷ (config_map_key_endpoint, endpoint)
      ∷ [];
}

-- the error for a ConfigMap that exists and belongs to something else
abbrev pub conflict_error : Bucket → ConfigMap → Err
conflict_error bucket cm =
    wrap
      ("conflict for ConfigMap "
        ++ (cm.meta.namespace
            ++ ("/"
                ++ (cm.meta.name
                    ++ (": resource already exists and is not owned by Bucket "
                        ++ (bucket.meta.name ++ ": "))))))
      (sentinel name_conflict) ""

-- The mutate function of ensureConfigMap, on the ConfigMap as the API server has it.
unfoldable pub mutate_config_map : Libraries → Bucket → String → ConfigMap → Result ConfigMap
mutate_config_map lib bucket endpoint cm =
    if nonempty cm.meta.uid && not (lib.is_controlled_by cm.meta bucket.meta)
    then err (conflict_error bucket cm)
    else elim (lib.set_controller_reference bucket.meta cm.meta) [
      | ok owned ↦ ok (fill_config_map bucket endpoint owned)
      | err e ↦ err e
      | panic ↦ panic
    ]

module _ {S : Type 0} (lib : Libraries) (r : BucketReconciler S) where
  unfoldable pub ensure_config_map : Bucket → String → Exec S (Unit {0})
  unfolding mutate_config_map desired_name
  ensure_config_map bucket endpoint = do
    r.client.create_or_update_config_map
        (record { meta = new_meta (desired_name bucket) bucket.meta.namespace []; contents = [] })
        (mutate_config_map lib bucket endpoint)
    pure tt

  -- `cm.Name != desiredName && metav1.IsControlledBy(&cm, &bucket)`
  unfoldable pub is_stale : Bucket → ConfigMap → Bool
  unfolding desired_name
  is_stale bucket cm =
      not (str_eq cm.meta.name (desired_name bucket)) && lib.is_controlled_by cm.meta bucket.meta

  unfoldable pub delete_config_map : ConfigMap → Exec S (Unit {0})
  delete_config_map cm = do
    deleted ← attempt (r.client.delete_config_map cm)
    elim deleted [
      | failed e ↦
          if lib.is_not_found e
          then pure tt
          else fail (wrap ("deleting stale configmap " ++ (cm.meta.name ++ ": ")) e "")
      | returned _ ↦ pure tt
    ]

  -- the loop of deleteStaleConfigMap
  unfoldable pub delete_all_stale : Bucket → List ConfigMap → Exec S (Unit {0})
  delete_all_stale bucket [] = pure tt
  delete_all_stale bucket (cm ∷ cms) =
      let rest = delete_all_stale bucket cms in
      if is_stale bucket cm then delete_config_map cm >> rest else rest

  unfoldable pub delete_stale_config_map : Bucket → Exec S (Unit {0})
  unfolding delete_all_stale
  delete_stale_config_map bucket = do
    listed ←
        attempt (r.client.list_config_maps bucket.meta.namespace label_bucket_name bucket.meta.name)
    elim listed [
      | failed e ↦ fail (wrap "retrieving ConfigMaps by Bucket label: " e "")
      | returned config_maps ↦ delete_all_stale bucket config_maps
    ]
