-- ===== src/Bucket/Owned.antt =====
-- ensureConfigMap's mutate function: whose ConfigMap it writes, and what.
use garage_storage_controlle.Prelude.{
  String, ◌≡◌, refl, true, false, not, ◌&&◌, [], ◌∷◌, nonempty, arith,
}
use garage_storage_controlle.Errors.{is, name_conflict}
use garage_storage_controlle.Exec.{Result, ok, err, panic}
use garage_storage_controlle.Api.{Bucket, ObjectMeta}
use garage_storage_controlle.Kube.{Libraries, ConfigMap}
use garage_storage_controlle.Bucket.Types.{config_map_key_bucket_name, config_map_key_endpoint}
use garage_storage_controlle.Bucket.ConfigMaps.{conflict_error, mutate_config_map}

module _ (lib : Libraries) (bucket : Bucket) (endpoint : String) (cm : ConfigMap) where
  -- What is written: the bucket owns it, it keeps its name, and it holds the bucket's recorded name
  -- and the endpoint, nothing else.
  abbrev pub IsWrittenBy : ObjectMeta → ConfigMap → Type 0
  IsWrittenBy owned cm' =
      (cm'.meta.owner_references ≡ owned.owner_references)
      × (cm'.meta.name ≡ owned.name)
      × (cm'.contents
          ≡ (config_map_key_bucket_name, bucket.status.bucket_name)
            ∷ (config_map_key_endpoint, endpoint)
            ∷ [])

  mutate_config_map_owned :
      (cm' : ConfigMap) (x : Result ObjectMeta)
      → lib.set_controller_reference bucket.meta cm.meta ≡ x
      → mutate_config_map lib bucket endpoint cm ≡ ok cm'
      → (owned : ObjectMeta) × (lib.set_controller_reference bucket.meta cm.meta ≡ ok owned)
        × IsWrittenBy owned cm'
  unfolding mutate_config_map
  mutate_config_map_owned cm' (ok owned) e h =
      (owned, e, (ground arith, ground arith, ground arith))
  mutate_config_map_owned cm' (err _) e h = ground arith
  mutate_config_map_owned cm' panic e h = ground arith

  -- A ConfigMap that ensureConfigMap writes is new (it has no uid) or was the bucket's before; it
  -- gets the owner that SetControllerReference answers and keeps that answer's name, and it holds
  -- the bucket's recorded name and the endpoint alone.
  pub mutate_config_map_writes :
      (cm' : ConfigMap)
      → mutate_config_map lib bucket endpoint cm ≡ ok cm'
      → ((nonempty cm.meta.uid && not (lib.is_controlled_by cm.meta bucket.meta)) ≡ false)
        × ((owned : ObjectMeta) × (lib.set_controller_reference bucket.meta cm.meta ≡ ok owned)
            × IsWrittenBy owned cm')
  unfolding mutate_config_map
  mutate_config_map_writes cm' h = (ground arith, mutate_config_map_owned cm' _ refl h)

  -- A ConfigMap that exists and that the bucket does not control is refused, with an error in which
  -- `errors.Is` finds errNameConflict.
  pub mutate_config_map_refuses :
      nonempty cm.meta.uid ≡ true
      → lib.is_controlled_by cm.meta bucket.meta ≡ false
      → (mutate_config_map lib bucket endpoint cm ≡ err (conflict_error bucket cm))
        × (is (conflict_error bucket cm) name_conflict ≡ true)
  unfolding mutate_config_map is
  mutate_config_map_refuses exists foreign = (ground arith, refl)
