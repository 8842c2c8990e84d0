-- ===== src/Examples/Buckets.antt =====
-- Runs of the bucket reconciler.
use garage_storage_controlle.Prelude.{
  ℕ, suc, String, ◌≡◌, refl, sym, arith, true, false, some, [], ◌∷◌, pos, List,
}
use garage_storage_controlle.Errors.{Err}
use garage_storage_controlle.Exec.{panic, ok, err}
use garage_storage_controlle.S3
use garage_storage_controlle.Api.{Bucket, ExistingBucketSpec}
use garage_storage_controlle.Bucket.Conditions.{
  condition_of, bucket_ready, bucket_config_map_ready, update_bucket_ready_condition,
}
use garage_storage_controlle.Bucket.Ready.{update_bucket_ready_condition_lem}
use garage_storage_controlle.Api.{Condition, condition_true, condition_false, is_true}
use garage_storage_controlle.Kube.{updated, ConfigMap}
use garage_storage_controlle.Policy.Types.{label_value}
use garage_storage_controlle.Backoff.{owner_secret_backoff, bit_len, bit_len_from, to_int64}
use garage_storage_controlle.Bucket.Types.{BucketReconciler}
use garage_storage_controlle.Bucket.ConfigMaps.{conflict_error, delete_all_stale}
use garage_storage_controlle.Bucket.Claims.{IsIdentified, IdentifierLaws}
use garage_storage_controlle.Bucket.Identified.{reconcile_found-IsIdentified}
use garage_storage_controlle.Bucket.Reconciler.{reconcile_found, reconcile_bucket}
use garage_storage_controlle.Bucket.Identity.{
  IsKnownAs, reconcile_bucket-IsKnownAs, reconcile_bucket_unowned,
}
use garage_storage_controlle.Bucket.Stale.{delete_each, IsSelection, delete_all_stale_lem}
use garage_storage_controlle.Examples.Fixtures.{
  condition_laws, lib, client, recorder, photos, meta_of, credentials,
}

abbrev garage_photos : S3.Bucket
garage_photos = record {
  id = "b9";
  global_aliases = "photos" ∷ [];
  quotas = record { max_objects = pos 0; max_size = pos 0 };
}

abbrev storing : BucketReconciler ℕ
storing = record {
  client = client;
  bucket = record {
    create = λ _ w. (ok garage_photos, suc w);
    get = λ _ w. (ok garage_photos, suc w);
    update = λ _ _ w. (ok tt, suc w);
  };
  s3_api_endpoint = "https://s3.example";
  ownership = record {
    get_permissions = λ _ _ w. (ok (record { owner = false; read = true; write = true }), suc w);
  };
  recorder = recorder;
  base_requeue_interval = 5000000000;
}

reconcile_bucket-IsKnownAs_example :
    IsKnownAs "b1" "photos-abab"
      (reconcile_bucket lib storing (record { object = photos; world = 0 })).1.object
reconcile_bucket-IsKnownAs_example =
    reconcile_bucket-IsKnownAs lib storing "b1" "photos-abab" refl refl
      (record { object = photos; world = 0 }) (refl, refl)

abbrev import_spec : ExistingBucketSpec
import_spec = record { name = "photos"; owner_key_secret = "reader-credentials" }

abbrev imported : Bucket
imported = record photos { spec = record photos.spec { existing_bucket = some import_spec } }

-- A minute after the creation, 64 ... of the base of 5 seconds is below the cap.
reconcile_bucket_unowned_example :
    let (result, after) = reconcile_bucket lib storing (record { object = imported; world = 0 }) in
    (result ≡ ok (record { requeue_after = pos 40000000000 }))
    × (after.world ≡ 3)
    × (after.object.status.bucket_id ≡ "b1")
    × (after.object.status.bucket_name ≡ "photos-abab")
unfolding label_value owner_secret_backoff bit_len bit_len_from to_int64
reconcile_bucket_unowned_example =
    reconcile_bucket_unowned lib storing imported import_spec credentials garage_photos
      (record { owner = false; read = true; write = true }) 0 1 2 3 refl refl refl refl
      (pos 60000000000) (pos 40000000000) 3 refl refl refl

abbrev config_map : String → ConfigMap
config_map name = record {
  meta = record (meta_of name) {
    owner_references = record { uid = "uid-photos"; controller = true } ∷ [];
  };
  contents = [];
}

abbrev foreign_config_map : ConfigMap
foreign_config_map = record { meta = meta_of "photos"; contents = [] }

-- the one that the spec asks for, and an old one
abbrev listed : List ConfigMap
listed = config_map "photos" ∷ config_map "old-photos" ∷ foreign_config_map ∷ []

delete_all_stale_lem_example :
    (deleted : List ConfigMap) × IsSelection lib storing photos listed deleted
    × ((w : ℕ)
        → delete_all_stale lib storing photos listed w ≡ delete_each lib storing photos deleted w)
delete_all_stale_lem_example = delete_all_stale_lem lib storing photos listed

abbrev written : ConfigMap
written = record {
  meta = record (meta_of "photos") {
    uid = "";
    owner_references = record { uid = "uid-photos"; controller = true } ∷ [];
    labels = ("garage.getclustered.net/bucket", "photos") ∷ [];
  };
  contents = ("bucket-name", "photos-abab") ∷ ("s3-endpoint", "https://s3.example") ∷ [];
}

-- a ConfigMap that is not stored yet
abbrev new_config_map : ConfigMap
new_config_map = record { meta = record (meta_of "photos") { uid = "" }; contents = [] }

abbrev half_ready : Bucket
half_ready = record photos {
  status = record photos.status {
    conditions =
        condition_of 3 bucket_ready condition_true "BucketReady" "Bucket resource is ready"
        ∷ condition_of 3 bucket_config_map_ready condition_false "ConfigMapCreateError" "refused"
        ∷ [];
    observed_generation = 2;
  };
}

update_bucket_ready_condition_lem_example :
    (c : Condition) × (lib.find_status_condition
        (update_bucket_ready_condition lib half_ready).status.conditions
        "Ready"
      ≡ some c)
    × (is_true c.status ≡ false)
    × (c.reason ≡ "ConfigMapCreateError")
    × ((update_bucket_ready_condition lib half_ready).status.observed_generation ≡ 2)
update_bucket_ready_condition_lem_example =
    update_bucket_ready_condition_lem condition_laws half_ready
      (condition_of 3 bucket_ready condition_true "BucketReady" "Bucket resource is ready")
      (condition_of 3 bucket_config_map_ready condition_false "ConfigMapCreateError" "refused") refl
      refl

-- Garage's bucket with the quotas of the spec
abbrev matching : S3.Bucket
matching = record garage_photos { quotas = record { max_objects = pos 10; max_size = pos 1024 } }

-- the API server has a ConfigMap of another owner under the name
abbrev crowded : BucketReconciler ℕ
crowded = record storing {
  client = record client {
    create_or_update_config_map = λ _ f w. elim (f foreign_config_map) [
      | ok _ ↦ (ok updated, suc w)
      | err e ↦ (err e, suc w)
      | panic ↦ (panic, suc w)
    ];
  };
}

abbrev taken_name : Err
taken_name = conflict_error photos foreign_config_map

storing_identifies : IdentifierLaws storing
storing_identifies = record {
  get_identified =
      λ alias w w' x h. let same : garage_photos ≡ x = ground arith in rw (sym same) refl;
  create_identified =
      λ alias w w' x h. let same : garage_photos ≡ x = ground arith in rw (sym same) refl;
}

reconcile_found-IsIdentified_example :
    IsIdentified lib (reconcile_found lib storing (record { object = photos; world = 0 })).1.object
reconcile_found-IsIdentified_example =
    reconcile_found-IsIdentified condition_laws storing storing_identifies
      (record { object = photos; world = 0 }) (refl, refl)
