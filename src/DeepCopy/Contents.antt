-- ===== src/DeepCopy/Contents.antt =====
-- What the structs say, as the custom resources of `Api`.
use garage_storage_controlle.Prelude.{Option, List}
use garage_storage_controlle.Api.{
  Condition, AccessKeyStatus, AccessKey, AccessPolicyStatus, AccessPolicy, BucketSpec, BucketStatus,
  Bucket,
}
use garage_storage_controlle.DeepCopy.Types.{
  Layout, TypeMeta, Slice, ListStruct, AccessKeyStatusStruct, AccessKeyStruct,
  AccessPolicyStatusStruct, AccessPolicyStruct, BucketSpecStruct, BucketStatusStruct, BucketStruct,
}
use garage_storage_controlle.DeepCopy.Memory.{Heap}
use garage_storage_controlle.DeepCopy.Cells.{Variable, conditions, an_existing_bucket_spec}
use garage_storage_controlle.DeepCopy.Reads.{read_slice, read_pointer, read_option, read_plain}
use garage_storage_controlle.DeepCopy.Library.{Machinery}

-- A struct of the API with its TypeMeta.
pub record Content (A : Type 0) : Type 0 where
  pub type_meta : TypeMeta
  pub object : A

pub record ListContent (M A : Type 0) : Type 0 where
  pub type_meta : TypeMeta
  pub meta : M
  pub items : List A

module _ {l : Layout} (m : Machinery l) where
  abbrev pub read_conditions : Heap l → Option Slice → List Condition
  read_conditions = read_slice conditions m.read_condition

  abbrev pub read_access_key_status : Heap l → AccessKeyStatusStruct → AccessKeyStatus
  read_access_key_status h s = record {
    conditions = read_conditions h s.conditions;
    observed_generation = s.observed_generation;
    access_key_id = s.access_key_id;
    secret_name = s.secret_name;
  }

  abbrev pub read_access_policy_status : Heap l → AccessPolicyStatusStruct → AccessPolicyStatus
  read_access_policy_status h s = record {
    conditions = read_conditions h s.conditions;
    observed_generation = s.observed_generation;
    bucket_id = s.bucket_id;
    access_key_id = s.access_key_id;
  }

  abbrev pub read_bucket_spec : Heap l → BucketSpecStruct l → BucketSpec
  read_bucket_spec h s = record {
    name = s.name;
    existing_bucket = read_pointer an_existing_bucket_spec read_plain h s.existing_bucket;
    max_size = m.read_quantity h s.max_size;
    max_objects = s.max_objects;
    config_map_name = s.config_map_name;
  }

  abbrev pub read_bucket_status : Heap l → BucketStatusStruct l → BucketStatus
  read_bucket_status h s = record {
    observed_generation = s.observed_generation;
    conditions = read_conditions h s.conditions;
    bucket_id = s.bucket_id;
    bucket_name = s.bucket_name;
    last_sync = read_option m.read_time h s.last_sync;
  }

  abbrev pub read_access_key : Heap l → AccessKeyStruct l → Content AccessKey
  read_access_key h x = record {
    type_meta = x.type_meta;
    object = record {
      meta = m.read_object_meta h x.meta;
      spec = x.spec;
      status = read_access_key_status h x.status;
    };
  }

  abbrev pub read_access_policy : Heap l → AccessPolicyStruct l → Content AccessPolicy
  read_access_policy h x = record {
    type_meta = x.type_meta;
    object = record {
      meta = m.read_object_meta h x.meta;
      spec = x.spec;
      status = read_access_policy_status h x.status;
    };
  }

  abbrev pub read_bucket : Heap l → BucketStruct l → Content Bucket
  read_bucket h x = record {
    type_meta = x.type_meta;
    object = record {
      meta = m.read_object_meta h x.meta;
      spec = read_bucket_spec h x.spec;
      status = read_bucket_status h x.status;
    };
  }

  abbrev pub read_list :
      {T V : Type 0}
      → Variable l (List T)
      → (Heap l → T → V)
      → Heap l
      → ListStruct l
      → ListContent l.ListContent V
  read_list array read h x = record {
    type_meta = x.type_meta;
    meta = m.read_list_meta h x.meta;
    items = read_slice array read h x.items;
  }
