-- ===== src/DeepCopy/Kinds.antt =====
-- The types that have a DeepCopy method, with the method, and what a pointer to the type says.
use garage_storage_controlle.Prelude.{ℕ, Option}
use garage_storage_controlle.Api.{
  AccessKeyStatus, AccessKeySpec, AccessKey, AccessPolicyStatus, AccessPolicySpec, AccessPolicy,
  BucketSpec, BucketStatus, Bucket, ExistingBucketSpec, Permissions,
}
use garage_storage_controlle.DeepCopy.Types.{Layout}
use garage_storage_controlle.DeepCopy.Memory.{Heap, Alloc}
use garage_storage_controlle.DeepCopy.Cells.{
  access_keys, access_policies, buckets, an_access_key_list, an_access_policy_list, a_bucket_list,
  an_access_key, an_access_key_spec, an_access_key_status, an_access_policy, an_access_policy_spec,
  an_access_policy_status, a_bucket, a_bucket_spec, a_bucket_status, an_existing_bucket_spec,
  some_permissions,
}
use garage_storage_controlle.DeepCopy.Reads.{read_pointer, read_plain}
use garage_storage_controlle.DeepCopy.Library.{Machinery, IsDeep}
use garage_storage_controlle.DeepCopy.Copied.{IsCopier}
use garage_storage_controlle.DeepCopy.Contents.{
  Content, ListContent, read_access_key_status, read_access_policy_status, read_bucket_spec,
  read_bucket_status, read_access_key, read_access_policy, read_bucket, read_list,
}
use garage_storage_controlle.DeepCopy.Keys.{
  copy_access_key_spec, copy_access_key_status, copy_access_key, copy_access_key_list,
}
use garage_storage_controlle.DeepCopy.Policies.{
  copy_permissions, copy_access_policy_spec, copy_access_policy_status, copy_access_policy,
  copy_access_policy_list,
}
use garage_storage_controlle.DeepCopy.Buckets.{
  copy_existing_bucket_spec, copy_bucket_spec, copy_bucket_status, copy_bucket, copy_bucket_list,
}
use garage_storage_controlle.DeepCopy.KeyCopies.{
  copy_access_key_spec-IsCopier, copy_access_key_status-IsCopier, copy_access_key-IsCopier,
  copy_access_key_list-IsCopier,
}
use garage_storage_controlle.DeepCopy.PolicyCopies.{
  copy_permissions-IsCopier, copy_access_policy_spec-IsCopier, copy_access_policy_status-IsCopier,
  copy_access_policy-IsCopier, copy_access_policy_list-IsCopier,
}
use garage_storage_controlle.DeepCopy.BucketCopies.{
  copy_existing_bucket_spec-IsCopier, copy_bucket_spec-IsCopier, copy_bucket_status-IsCopier,
  copy_bucket-IsCopier, copy_bucket_list-IsCopier,
}

pub data Kind : Type 0 where
  access_key_type access_key_list_type access_key_spec_type access_key_status_type
        access_policy_type :
      Kind
  access_policy_list_type access_policy_spec_type access_policy_status_type bucket_type
        bucket_list_type :
      Kind
  bucket_spec_type bucket_status_type existing_bucket_spec_type permissions_type : Kind

abbrev pub Says : Layout → Kind → Type 0
Says l access_key_type = Content AccessKey
Says l access_key_list_type = ListContent l.ListContent (Content AccessKey)
Says l access_key_spec_type = AccessKeySpec
Says l access_key_status_type = AccessKeyStatus
Says l access_policy_type = Content AccessPolicy
Says l access_policy_list_type = ListContent l.ListContent (Content AccessPolicy)
Says l access_policy_spec_type = AccessPolicySpec
Says l access_policy_status_type = AccessPolicyStatus
Says l bucket_type = Content Bucket
Says l bucket_list_type = ListContent l.ListContent (Content Bucket)
Says l bucket_spec_type = BucketSpec
Says l bucket_status_type = BucketStatus
Says l existing_bucket_spec_type = ExistingBucketSpec
Says l permissions_type = Permissions

module _ {l : Layout} (m : Machinery l) where
  abbrev pub deep_copy : Kind → Option ℕ → Alloc l (Option ℕ)
  deep_copy access_key_type = copy_access_key m
  deep_copy access_key_list_type = copy_access_key_list m
  deep_copy access_key_spec_type = copy_access_key_spec
  deep_copy access_key_status_type = copy_access_key_status m
  deep_copy access_policy_type = copy_access_policy m
  deep_copy access_policy_list_type = copy_access_policy_list m
  deep_copy access_policy_spec_type = copy_access_policy_spec
  deep_copy access_policy_status_type = copy_access_policy_status m
  deep_copy bucket_type = copy_bucket m
  deep_copy bucket_list_type = copy_bucket_list m
  deep_copy bucket_spec_type = copy_bucket_spec m
  deep_copy bucket_status_type = copy_bucket_status m
  deep_copy existing_bucket_spec_type = copy_existing_bucket_spec
  deep_copy permissions_type = copy_permissions

  abbrev pub says : (kind : Kind) → Heap l → Option ℕ → Option (Says l kind)
  says access_key_type = read_pointer an_access_key (read_access_key m)
  says access_key_list_type =
      read_pointer an_access_key_list (read_list m access_keys (read_access_key m))
  says access_key_spec_type = read_pointer an_access_key_spec read_plain
  says access_key_status_type = read_pointer an_access_key_status (read_access_key_status m)
  says access_policy_type = read_pointer an_access_policy (read_access_policy m)
  says access_policy_list_type =
      read_pointer an_access_policy_list (read_list m access_policies (read_access_policy m))
  says access_policy_spec_type = read_pointer an_access_policy_spec read_plain
  says access_policy_status_type =
      read_pointer an_access_policy_status (read_access_policy_status m)
  says bucket_type = read_pointer a_bucket (read_bucket m)
  says bucket_list_type = read_pointer a_bucket_list (read_list m buckets (read_bucket m))
  says bucket_spec_type = read_pointer a_bucket_spec (read_bucket_spec m)
  says bucket_status_type = read_pointer a_bucket_status (read_bucket_status m)
  says existing_bucket_spec_type = read_pointer an_existing_bucket_spec read_plain
  says permissions_type = read_pointer some_permissions read_plain

  pub deep_copy-IsCopier : IsDeep m → (kind : Kind) → IsCopier (says kind) (deep_copy kind)
  deep_copy-IsCopier deep access_key_type = copy_access_key-IsCopier m deep
  deep_copy-IsCopier deep access_key_list_type = copy_access_key_list-IsCopier m deep
  deep_copy-IsCopier deep access_key_spec_type = copy_access_key_spec-IsCopier
  deep_copy-IsCopier deep access_key_status_type = copy_access_key_status-IsCopier m deep
  deep_copy-IsCopier deep access_policy_type = copy_access_policy-IsCopier m deep
  deep_copy-IsCopier deep access_policy_list_type = copy_access_policy_list-IsCopier m deep
  deep_copy-IsCopier deep access_policy_spec_type = copy_access_policy_spec-IsCopier
  deep_copy-IsCopier deep access_policy_status_type = copy_access_policy_status-IsCopier m deep
  deep_copy-IsCopier deep bucket_type = copy_bucket-IsCopier m deep
  deep_copy-IsCopier deep bucket_list_type = copy_bucket_list-IsCopier m deep
  deep_copy-IsCopier deep bucket_spec_type = copy_bucket_spec-IsCopier m deep
  deep_copy-IsCopier deep bucket_status_type = copy_bucket_status-IsCopier m deep
  deep_copy-IsCopier deep existing_bucket_spec_type = copy_existing_bucket_spec-IsCopier
  deep_copy-IsCopier deep permissions_type = copy_permissions-IsCopier
