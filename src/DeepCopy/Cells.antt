-- ===== src/DeepCopy/Cells.antt =====
-- What a variable of each type is written as, and how it is read back. A variable of another type
-- reads as none: Go's types leave no such address.
use garage_storage_controlle.Prelude.{◌≡◌, refl, Option, none, some, List}
use garage_storage_controlle.Api.{ExistingBucketSpec, AccessKeySpec, AccessPolicySpec, Permissions}
use garage_storage_controlle.DeepCopy.Types.{
  Layout, ListStruct, AccessKeyStatusStruct, AccessKeyStruct, AccessPolicyStatusStruct,
  AccessPolicyStruct, BucketSpecStruct, BucketStatusStruct, BucketStruct, Cell, unused,
  condition_array, access_key_array, access_policy_array, bucket_array, access_key_list,
  access_policy_list, bucket_list, access_key, access_key_spec, access_key_status, access_policy,
  access_policy_spec, access_policy_status, bucket, bucket_spec, bucket_status,
  existing_bucket_spec, permissions,
}

pub record Variable (l : Layout) (T : Type 0) : Type 0 where
  pub write : T → Cell l
  pub read : Cell l → Option T
  pub read-write : (x : T) → read (write x) ≡ some x
  pub read-unused : read unused ≡ none

module _ {l : Layout} where
  abbrev pub conditions : Variable l (List l.Condition)
  conditions = record {
    write = condition_array;
    read = λ c. elim c [ condition_array x ↦ some x | _ ↦ none ];
    read-write = λ x. refl;
    read-unused = refl;
  }

  abbrev pub access_keys : Variable l (List (AccessKeyStruct l))
  access_keys = record {
    write = access_key_array;
    read = λ c. elim c [ access_key_array x ↦ some x | _ ↦ none ];
    read-write = λ x. refl;
    read-unused = refl;
  }

  abbrev pub access_policies : Variable l (List (AccessPolicyStruct l))
  access_policies = record {
    write = access_policy_array;
    read = λ c. elim c [ access_policy_array x ↦ some x | _ ↦ none ];
    read-write = λ x. refl;
    read-unused = refl;
  }

  abbrev pub buckets : Variable l (List (BucketStruct l))
  buckets = record {
    write = bucket_array;
    read = λ c. elim c [ bucket_array x ↦ some x | _ ↦ none ];
    read-write = λ x. refl;
    read-unused = refl;
  }

  abbrev pub an_access_key_list : Variable l (ListStruct l)
  an_access_key_list = record {
    write = access_key_list;
    read = λ c. elim c [ access_key_list x ↦ some x | _ ↦ none ];
    read-write = λ x. refl;
    read-unused = refl;
  }

  abbrev pub an_access_policy_list : Variable l (ListStruct l)
  an_access_policy_list = record {
    write = access_policy_list;
    read = λ c. elim c [ access_policy_list x ↦ some x | _ ↦ none ];
    read-write = λ x. refl;
    read-unused = refl;
  }

  abbrev pub a_bucket_list : Variable l (ListStruct l)
  a_bucket_list = record {
    write = bucket_list;
    read = λ c. elim c [ bucket_list x ↦ some x | _ ↦ none ];
    read-write = λ x. refl;
    read-unused = refl;
  }

  abbrev pub an_access_key : Variable l (AccessKeyStruct l)
  an_access_key = record {
    write = access_key;
    read = λ c. elim c [ access_key x ↦ some x | _ ↦ none ];
    read-write = λ x. refl;
    read-unused = refl;
  }

  abbrev pub an_access_key_spec : Variable l AccessKeySpec
  an_access_key_spec = record {
    write = access_key_spec;
    read = λ c. elim c [ access_key_spec x ↦ some x | _ ↦ none ];
    read-write = λ x. refl;
    read-unused = refl;
  }

  abbrev pub an_access_key_status : Variable l AccessKeyStatusStruct
  an_access_key_status = record {
    write = access_key_status;
    read = λ c. elim c [ access_key_status x ↦ some x | _ ↦ none ];
    read-write = λ x. refl;
    read-unused = refl;
  }

  abbrev pub an_access_policy : Variable l (AccessPolicyStruct l)
  an_access_policy = record {
    write = access_policy;
    read = λ c. elim c [ access_policy x ↦ some x | _ ↦ none ];
    read-write = λ x. refl;
    read-unused = refl;
  }

  abbrev pub an_access_policy_spec : Variable l AccessPolicySpec
  an_access_policy_spec = record {
    write = access_policy_spec;
    read = λ c. elim c [ access_policy_spec x ↦ some x | _ ↦ none ];
    read-write = λ x. refl;
    read-unused = refl;
  }

  abbrev pub an_access_policy_status : Variable l AccessPolicyStatusStruct
  an_access_policy_status = record {
    write = access_policy_status;
    read = λ c. elim c [ access_policy_status x ↦ some x | _ ↦ none ];
    read-write = λ x. refl;
    read-unused = refl;
  }

  abbrev pub a_bucket : Variable l (BucketStruct l)
  a_bucket = record {
    write = bucket;
    read = λ c. elim c [ bucket x ↦ some x | _ ↦ none ];
    read-write = λ x. refl;
    read-unused = refl;
  }

  abbrev pub a_bucket_spec : Variable l (BucketSpecStruct l)
  a_bucket_spec = record {
    write = bucket_spec;
    read = λ c. elim c [ bucket_spec x ↦ some x | _ ↦ none ];
    read-write = λ x. refl;
    read-unused = refl;
  }

  abbrev pub a_bucket_status : Variable l (BucketStatusStruct l)
  a_bucket_status = record {
    write = bucket_status;
    read = λ c. elim c [ bucket_status x ↦ some x | _ ↦ none ];
    read-write = λ x. refl;
    read-unused = refl;
  }

  abbrev pub an_existing_bucket_spec : Variable l ExistingBucketSpec
  an_existing_bucket_spec = record {
    write = existing_bucket_spec;
    read = λ c. elim c [ existing_bucket_spec x ↦ some x | _ ↦ none ];
    read-write = λ x. refl;
    read-unused = refl;
  }

  abbrev pub some_permissions : Variable l Permissions
  some_permissions = record {
    write = permissions;
    read = λ c. elim c [ permissions x ↦ some x | _ ↦ none ];
    read-write = λ x. refl;
    read-unused = refl;
  }
