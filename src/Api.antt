-- ===== src/Api.antt =====
-- api/v1alpha1: the custom resources, with the fields of Kubernetes' metadata and conditions that
-- the controller reads or writes.
use garage_storage_controlle.Prelude.{ℕ, String, ℤ, Bool, true, false, Option, List}

pub record NamespacedName : Type 0 where
  pub namespace : String
  pub name : String

pub record OwnerReference : Type 0 where
  pub uid : String
  pub controller : Bool

-- Of metav1.ObjectMeta. Times are nanoseconds, and a nil deletion timestamp is `none`.
pub record ObjectMeta : Type 0 where
  pub name : String
  pub namespace : String
  pub uid : String
  pub generation : ℕ
  pub labels : List (String × String)
  pub finalizers : List String
  pub owner_references : List OwnerReference
  pub creation_timestamp : ℤ
  pub deletion_timestamp : Option ℤ

pub data ConditionStatus : Type 0 where
  condition_true condition_false condition_unknown : ConditionStatus

-- comparisons with metav1.ConditionTrue and metav1.ConditionFalse
abbrev pub is_true : ConditionStatus → Bool
is_true condition_true = true
is_true condition_false = false
is_true condition_unknown = false

abbrev pub is_false : ConditionStatus → Bool
is_false condition_true = false
is_false condition_false = true
is_false condition_unknown = false

pub record Condition : Type 0 where
  pub type : String
  pub status : ConditionStatus
  pub observed_generation : ℕ
  pub last_transition_time : ℤ
  pub reason : String
  pub message : String

pub record ExistingBucketSpec : Type 0 where
  pub name : String
  pub owner_key_secret : String

-- `max_size` is the text of a resource.Quantity.
pub record BucketSpec : Type 0 where
  pub name : String
  pub existing_bucket : Option ExistingBucketSpec
  pub max_size : String
  pub max_objects : ℤ
  pub config_map_name : String

pub record BucketStatus : Type 0 where
  pub observed_generation : ℕ
  pub conditions : List Condition
  pub bucket_id : String
  pub bucket_name : String
  pub last_sync : Option ℤ

pub record Bucket : Type 0 where
  pub meta : ObjectMeta
  pub spec : BucketSpec
  pub status : BucketStatus

pub record AccessKeySpec : Type 0 where
  pub secret_name : String

pub record AccessKeyStatus : Type 0 where
  pub conditions : List Condition
  pub observed_generation : ℕ
  pub access_key_id : String
  pub secret_name : String

pub record AccessKey : Type 0 where
  pub meta : ObjectMeta
  pub spec : AccessKeySpec
  pub status : AccessKeyStatus

pub record Permissions : Type 0 where
  pub read : Bool
  pub write : Bool
  pub owner : Bool

pub record AccessPolicySpec : Type 0 where
  pub access_key : String
  pub bucket : String
  pub permissions : Permissions

pub record AccessPolicyStatus : Type 0 where
  pub conditions : List Condition
  pub observed_generation : ℕ
  pub bucket_id : String
  pub access_key_id : String

pub record AccessPolicy : Type 0 where
  pub meta : ObjectMeta
  pub spec : AccessPolicySpec
  pub status : AccessPolicyStatus
