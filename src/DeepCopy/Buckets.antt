-- ===== src/DeepCopy/Buckets.antt =====
-- The methods of Bucket, BucketList, BucketSpec, BucketStatus and ExistingBucketSpec.
use garage_storage_controlle.Prelude.{ℕ, Option}
use garage_storage_controlle.Api.{ExistingBucketSpec}
use garage_storage_controlle.DeepCopy.Types.{
  Layout, ListStruct, BucketSpecStruct, BucketStatusStruct, BucketStruct,
}
use garage_storage_controlle.DeepCopy.Memory.{Alloc, pure, ◌>>=◌}
use garage_storage_controlle.DeepCopy.Cells.{
  conditions, buckets, a_bucket_list, a_bucket, a_bucket_spec, a_bucket_status,
  an_existing_bucket_spec,
}
use garage_storage_controlle.DeepCopy.Shapes.{copy_slice, new_copy, copy_option}
use garage_storage_controlle.DeepCopy.Library.{Machinery}
use garage_storage_controlle.DeepCopy.Objects.{Interface, an_object, of_bucket, of_bucket_list}

module _ {l : Layout} where
  unfoldable pub copy_existing_bucket_spec_into : ExistingBucketSpec → Alloc l ExistingBucketSpec
  copy_existing_bucket_spec_into x = pure x

  unfoldable pub copy_existing_bucket_spec : Option ℕ → Alloc l (Option ℕ)
  copy_existing_bucket_spec = new_copy an_existing_bucket_spec copy_existing_bucket_spec_into

module _ {l : Layout} (m : Machinery l) where
  unfoldable pub copy_bucket_spec_into : BucketSpecStruct l → Alloc l (BucketSpecStruct l)
  copy_bucket_spec_into x = do
    existing ← new_copy an_existing_bucket_spec pure x.existing_bucket
    max_size ← m.copy_quantity x.max_size
    pure (record x { existing_bucket = existing; max_size = max_size })

  unfoldable pub copy_bucket_spec : Option ℕ → Alloc l (Option ℕ)
  copy_bucket_spec = new_copy a_bucket_spec copy_bucket_spec_into

  unfoldable pub copy_bucket_status_into : BucketStatusStruct l → Alloc l (BucketStatusStruct l)
  copy_bucket_status_into x = do
    conditions ← copy_slice conditions m.copy_condition x.conditions
    last_sync ← copy_option m.copy_time x.last_sync
    pure (record x { conditions = conditions; last_sync = last_sync })

  unfoldable pub copy_bucket_status : Option ℕ → Alloc l (Option ℕ)
  copy_bucket_status = new_copy a_bucket_status copy_bucket_status_into

  unfoldable pub copy_bucket_into : BucketStruct l → Alloc l (BucketStruct l)
  copy_bucket_into x = do
    meta ← m.copy_object_meta x.meta
    spec ← copy_bucket_spec_into x.spec
    status ← copy_bucket_status_into x.status
    pure (record x { type_meta = x.type_meta; meta = meta; spec = spec; status = status })

  unfoldable pub copy_bucket : Option ℕ → Alloc l (Option ℕ)
  copy_bucket = new_copy a_bucket copy_bucket_into

  unfoldable pub copy_bucket_list_into : ListStruct l → Alloc l (ListStruct l)
  copy_bucket_list_into x = do
    meta ← m.copy_list_meta x.meta
    items ← copy_slice buckets copy_bucket_into x.items
    pure (record x { type_meta = x.type_meta; meta = meta; items = items })

  unfoldable pub copy_bucket_list : Option ℕ → Alloc l (Option ℕ)
  copy_bucket_list = new_copy a_bucket_list copy_bucket_list_into

  unfoldable pub copy_bucket_object : Option ℕ → Alloc l Interface
  copy_bucket_object p = do c ← copy_bucket p; pure (an_object of_bucket c)

  unfoldable pub copy_bucket_list_object : Option ℕ → Alloc l Interface
  copy_bucket_list_object p = do c ← copy_bucket_list p; pure (an_object of_bucket_list c)
