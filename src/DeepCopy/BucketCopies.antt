-- ===== src/DeepCopy/BucketCopies.antt =====
-- The methods of the Bucket types make deep copies.
use garage_storage_controlle.Prelude.{some, refl}
use garage_storage_controlle.DeepCopy.Types.{Layout}
use garage_storage_controlle.DeepCopy.Memory.{pure}
use garage_storage_controlle.DeepCopy.Cells.{
  conditions, buckets, a_bucket_list, a_bucket, a_bucket_spec, a_bucket_status,
  an_existing_bucket_spec,
}
use garage_storage_controlle.DeepCopy.Reads.{
  read_slice, read_pointer, read_option, read_plain, read_both,
}
use garage_storage_controlle.DeepCopy.Library.{Machinery, IsDeep}
use garage_storage_controlle.DeepCopy.Contents.{
  read_conditions, read_bucket_spec, read_bucket_status, read_bucket, read_list,
}
use garage_storage_controlle.DeepCopy.Copied.{IsCopier, Copied-both, Copied-struct, Copied-plain}
use garage_storage_controlle.DeepCopy.Shaped.{copy_option-IsCopier, new_copy-IsCopier}
use garage_storage_controlle.DeepCopy.Sliced.{copy_slice-IsCopier}
use garage_storage_controlle.DeepCopy.Buckets.{
  copy_existing_bucket_spec_into, copy_existing_bucket_spec, copy_bucket_spec_into,
  copy_bucket_spec, copy_bucket_status_into, copy_bucket_status, copy_bucket_into, copy_bucket,
  copy_bucket_list_into, copy_bucket_list,
}

module _ {l : Layout} where
  pub copy_existing_bucket_spec_into-IsCopier :
      IsCopier {l = l} read_plain copy_existing_bucket_spec_into
  unfolding copy_existing_bucket_spec_into
  copy_existing_bucket_spec_into-IsCopier x h = Copied-plain h x (λ k. refl)

  pub copy_existing_bucket_spec-IsCopier :
      IsCopier {l = l} (read_pointer an_existing_bucket_spec read_plain) copy_existing_bucket_spec
  unfolding copy_existing_bucket_spec
  copy_existing_bucket_spec-IsCopier =
      new_copy-IsCopier read_plain an_existing_bucket_spec copy_existing_bucket_spec_into
        copy_existing_bucket_spec_into-IsCopier

  pure-IsCopier : {T : Type 0} → IsCopier {l = l} {T = T} read_plain pure
  pure-IsCopier x h = Copied-plain h x (λ k. refl)

module _ {l : Layout} (m : Machinery l) (deep : IsDeep m) where
  pub copy_bucket_spec_into-IsCopier : IsCopier (read_bucket_spec m) (copy_bucket_spec_into m)
  unfolding copy_bucket_spec_into
  copy_bucket_spec_into-IsCopier x h =
      Copied-struct
        {read_part = read_both (read_pointer an_existing_bucket_spec read_plain) m.read_quantity}
        (λ v. record (read_bucket_spec m h x) { existing_bucket = v.0; max_size = v.1 })
        (λ v. some (v.existing_bucket, v.max_size)) (λ k. refl) (λ k. refl) (λ v. refl)
        (Copied-both
          (new_copy-IsCopier read_plain an_existing_bucket_spec pure pure-IsCopier x.existing_bucket
            h)
          (deep.quantity x.max_size _))

  pub copy_bucket_spec-IsCopier :
      IsCopier (read_pointer a_bucket_spec (read_bucket_spec m)) (copy_bucket_spec m)
  unfolding copy_bucket_spec
  copy_bucket_spec-IsCopier =
      new_copy-IsCopier (read_bucket_spec m) a_bucket_spec (copy_bucket_spec_into m)
        copy_bucket_spec_into-IsCopier

  pub copy_bucket_status_into-IsCopier : IsCopier (read_bucket_status m) (copy_bucket_status_into m)
  unfolding copy_bucket_status_into
  copy_bucket_status_into-IsCopier x h =
      Copied-struct {read_part = read_both (read_conditions m) (read_option m.read_time)}
        (λ v. record (read_bucket_status m h x) { conditions = v.0; last_sync = v.1 })
        (λ v. some (v.conditions, v.last_sync)) (λ k. refl) (λ k. refl) (λ v. refl)
        (Copied-both
          (copy_slice-IsCopier m.read_condition conditions m.copy_condition deep.condition
            x.conditions h)
          (copy_option-IsCopier m.read_time m.copy_time deep.time x.last_sync _))

  pub copy_bucket_status-IsCopier :
      IsCopier (read_pointer a_bucket_status (read_bucket_status m)) (copy_bucket_status m)
  unfolding copy_bucket_status
  copy_bucket_status-IsCopier =
      new_copy-IsCopier (read_bucket_status m) a_bucket_status (copy_bucket_status_into m)
        copy_bucket_status_into-IsCopier

  pub copy_bucket_into-IsCopier : IsCopier (read_bucket m) (copy_bucket_into m)
  unfolding copy_bucket_into
  copy_bucket_into-IsCopier x h =
      Copied-struct
        {read_part = read_both m.read_object_meta
          (read_both (read_bucket_spec m) (read_bucket_status m))}
        (λ v. record {
          type_meta = x.type_meta;
          object = record { meta = v.0; spec = v.1.0; status = v.1.1 };
        })
        (λ v. some (v.object.meta, (v.object.spec, v.object.status))) (λ k. refl) (λ k. refl)
        (λ v. refl)
        (Copied-both (deep.object_meta x.meta h) (
          Copied-both (copy_bucket_spec_into-IsCopier x.spec _)
            (copy_bucket_status_into-IsCopier x.status _)))

  pub copy_bucket-IsCopier : IsCopier (read_pointer a_bucket (read_bucket m)) (copy_bucket m)
  unfolding copy_bucket
  copy_bucket-IsCopier =
      new_copy-IsCopier (read_bucket m) a_bucket (copy_bucket_into m) copy_bucket_into-IsCopier

  pub copy_bucket_list_into-IsCopier :
      IsCopier (read_list m buckets (read_bucket m)) (copy_bucket_list_into m)
  unfolding copy_bucket_list_into
  copy_bucket_list_into-IsCopier x h =
      Copied-struct {read_part = read_both m.read_list_meta (read_slice buckets (read_bucket m))}
        (λ v. record { type_meta = x.type_meta; meta = v.0; items = v.1 })
        (λ v. some (v.meta, v.items)) (λ k. refl) (λ k. refl) (λ v. refl)
        (Copied-both (deep.list_meta x.meta h) (
          copy_slice-IsCopier (read_bucket m) buckets (copy_bucket_into m) copy_bucket_into-IsCopier
            x.items (m.copy_list_meta x.meta h).1))

  pub copy_bucket_list-IsCopier :
      IsCopier
        (read_pointer a_bucket_list (read_list m buckets (read_bucket m)))
        (copy_bucket_list m)
  unfolding copy_bucket_list
  copy_bucket_list-IsCopier =
      new_copy-IsCopier (read_list m buckets (read_bucket m)) a_bucket_list
        (copy_bucket_list_into m) copy_bucket_list_into-IsCopier
