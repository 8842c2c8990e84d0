-- ===== src/DeepCopy/Types.antt =====
-- The structs of api/v1alpha1 as they lie in memory, where a slice or a pointer is an address: what
-- `Api` describes by its content. Structs without references are those of `Api`.
use garage_storage_controlle.Prelude.{ℕ, String, ℤ, Option, List}
use garage_storage_controlle.Api.{ExistingBucketSpec, AccessKeySpec, AccessPolicySpec, Permissions}

-- The memory types of k8s.io/apimachinery: ObjectMeta, ListMeta, Condition, resource.Quantity and
-- *metav1.Time, and the variables that these refer to; `ListContent` is what a ListMeta says.
pub record Layout : Type 1 where
  pub ObjectMeta : Type 0
  pub ListMeta : Type 0
  pub ListContent : Type 0
  pub Condition : Type 0
  pub Quantity : Type 0
  pub Time : Type 0
  pub Variable : Type 0

pub record TypeMeta : Type 0 where
  pub kind : String
  pub api_version : String

-- The address of the backing array, and the length; a nil slice is the `none` of an Option.
pub record Slice : Type 0 where
  pub array : ℕ
  pub length : ℕ

-- A list type of the API: its items are a slice of structs.
pub record ListStruct (l : Layout) : Type 0 where
  pub type_meta : TypeMeta
  pub meta : l.ListMeta
  pub items : Option Slice

pub record AccessKeyStatusStruct : Type 0 where
  pub conditions : Option Slice
  pub observed_generation : ℕ
  pub access_key_id : String
  pub secret_name : String

pub record AccessKeyStruct (l : Layout) : Type 0 where
  pub type_meta : TypeMeta
  pub meta : l.ObjectMeta
  pub spec : AccessKeySpec
  pub status : AccessKeyStatusStruct

pub record AccessPolicyStatusStruct : Type 0 where
  pub conditions : Option Slice
  pub observed_generation : ℕ
  pub bucket_id : String
  pub access_key_id : String

pub record AccessPolicyStruct (l : Layout) : Type 0 where
  pub type_meta : TypeMeta
  pub meta : l.ObjectMeta
  pub spec : AccessPolicySpec
  pub status : AccessPolicyStatusStruct

-- `existing_bucket` is a pointer to an ExistingBucketSpec.
pub record BucketSpecStruct (l : Layout) : Type 0 where
  pub name : String
  pub existing_bucket : Option ℕ
  pub max_size : l.Quantity
  pub max_objects : ℤ
  pub config_map_name : String

pub record BucketStatusStruct (l : Layout) : Type 0 where
  pub observed_generation : ℕ
  pub conditions : Option Slice
  pub bucket_id : String
  pub bucket_name : String
  pub last_sync : Option l.Time

pub record BucketStruct (l : Layout) : Type 0 where
  pub type_meta : TypeMeta
  pub meta : l.ObjectMeta
  pub spec : BucketSpecStruct l
  pub status : BucketStatusStruct l

-- What a variable holds: a backing array, or a struct that `new` made room for.
pub data Cell (l : Layout) : Type 0 where
  unused : Cell l
  foreign : l.Variable → Cell l
  condition_array : List l.Condition → Cell l
  access_key_array : List (AccessKeyStruct l) → Cell l
  access_policy_array : List (AccessPolicyStruct l) → Cell l
  bucket_array : List (BucketStruct l) → Cell l
  access_key_list access_policy_list bucket_list : ListStruct l → Cell l
  access_key : AccessKeyStruct l → Cell l
  access_key_spec : AccessKeySpec → Cell l
  access_key_status : AccessKeyStatusStruct → Cell l
  access_policy : AccessPolicyStruct l → Cell l
  access_policy_spec : AccessPolicySpec → Cell l
  access_policy_status : AccessPolicyStatusStruct → Cell l
  bucket : BucketStruct l → Cell l
  bucket_spec : BucketSpecStruct l → Cell l
  bucket_status : BucketStatusStruct l → Cell l
  existing_bucket_spec : ExistingBucketSpec → Cell l
  permissions : Permissions → Cell l
