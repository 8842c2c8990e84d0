-- ===== src/Bucket/Types.antt =====
-- The types and constants of internal/controller/bucket_controller.go, and compareSpec.
use garage_storage_controlle.Prelude.{
  ℕ, String, Bool, true, false, not, ◌||◌, eqb_ℤ, str_eq, if◌then◌else◌,
}
use garage_storage_controlle.Exec.{Exec}
use garage_storage_controlle.S3
use garage_storage_controlle.Api.{Bucket, BucketSpec}
use garage_storage_controlle.Kube.{Client, EventRecorder, Libraries}

abbrev pub config_map_key_bucket_name : String
config_map_key_bucket_name = "bucket-name"

abbrev pub config_map_key_endpoint : String
config_map_key_endpoint = "s3-endpoint"

abbrev pub label_bucket_name : String
label_bucket_name = "garage.getclustered.net/bucket"

abbrev pub reason_bucket_created : String
reason_bucket_created = "BucketCreated"

abbrev pub reason_bucket_create_failed : String
reason_bucket_create_failed = "BucketCreateFailed"

abbrev pub reason_config_map_access_forbidden : String
reason_config_map_access_forbidden = "ConfigMapAccessForbidden"

-- 15 minutes, in nanoseconds
abbrev pub max_requeue_interval : ℕ
max_requeue_interval = 900000000000

-- the interface BucketClient
pub record BucketClient (S : Type 0) : Type 0 where
  pub create : String → Exec S S3.Bucket
  pub get : String → Exec S S3.Bucket
  pub update : String → S3.Quotas → Exec S (Unit {0})

-- the interface OwnershipVerifier
pub record OwnershipVerifier (S : Type 0) : Type 0 where
  pub get_permissions : String → String → Exec S S3.Permissions

pub record BucketReconciler (S : Type 0) : Type 0 where
  pub client : Client S
  pub bucket : BucketClient S
  pub s3_api_endpoint : String
  pub ownership : OwnershipVerifier S
  pub recorder : EventRecorder S
  pub base_requeue_interval : ℕ

-- 5 seconds, in nanoseconds
abbrev pub initial_requeue_interval : ℕ
initial_requeue_interval = 5000000000

-- NewBucketReconciler
abbrev pub new_bucket_reconciler :
    {S : Type 0}
    → Client S
    → BucketClient S
    → String
    → OwnershipVerifier S
    → EventRecorder S
    → BucketReconciler S
new_bucket_reconciler api_client s3_client s3_api_endpoint ownership_verifier recorder = record {
  client = api_client;
  bucket = s3_client;
  s3_api_endpoint = s3_api_endpoint;
  ownership = ownership_verifier;
  recorder = recorder;
  base_requeue_interval = initial_requeue_interval;
}

-- the quotas of the spec, in bytes and objects
abbrev pub wanted_quotas : Libraries → BucketSpec → S3.Quotas
wanted_quotas lib spec = record {
  max_objects = spec.max_objects;
  max_size = lib.quantity_value spec.max_size;
}

unfoldable pub compare_spec : Libraries → S3.Bucket → BucketSpec → Bool
compare_spec lib bucket spec =
    if not (eqb_ℤ bucket.quotas.max_objects spec.max_objects)
      || not (eqb_ℤ bucket.quotas.max_size (lib.quantity_value spec.max_size))
    then true
    else false

-- the name of the ConfigMap, in ensureConfigMap and in deleteStaleConfigMap
unfoldable pub desired_name : Bucket → String
desired_name bucket =
    if str_eq bucket.spec.config_map_name "" then bucket.meta.name else bucket.spec.config_map_name
