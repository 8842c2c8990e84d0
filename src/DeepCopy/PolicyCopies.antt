-- ===== src/DeepCopy/PolicyCopies.antt =====
-- The methods of the AccessPolicy types make deep copies.
use garage_storage_controlle.Prelude.{some, refl}
use garage_storage_controlle.DeepCopy.Types.{Layout}
use garage_storage_controlle.DeepCopy.Cells.{
  conditions, access_policies, an_access_policy_list, an_access_policy, an_access_policy_spec,
  an_access_policy_status, some_permissions,
}
use garage_storage_controlle.DeepCopy.Reads.{read_slice, read_pointer, read_plain, read_both}
use garage_storage_controlle.DeepCopy.Library.{Machinery, IsDeep}
use garage_storage_controlle.DeepCopy.Shapes.{copy_slice}
use garage_storage_controlle.DeepCopy.Contents.{
  read_conditions, read_access_policy_status, read_access_policy, read_list,
}
use garage_storage_controlle.DeepCopy.Copied.{IsCopier, Copied-both, Copied-struct, Copied-plain}
use garage_storage_controlle.DeepCopy.Shaped.{new_copy-IsCopier}
use garage_storage_controlle.DeepCopy.Sliced.{copy_slice-IsCopier}
use garage_storage_controlle.DeepCopy.Policies.{
  copy_permissions_into, copy_permissions, copy_access_policy_spec_into, copy_access_policy_spec,
  copy_access_policy_status_into, copy_access_policy_status, copy_access_policy_into,
  copy_access_policy, copy_access_policy_list_into, copy_access_policy_list,
}

module _ {l : Layout} where
  pub copy_permissions_into-IsCopier : IsCopier {l = l} read_plain copy_permissions_into
  unfolding copy_permissions_into
  copy_permissions_into-IsCopier x h = Copied-plain h x (λ k. refl)

  pub copy_permissions-IsCopier :
      IsCopier {l = l} (read_pointer some_permissions read_plain) copy_permissions
  unfolding copy_permissions
  copy_permissions-IsCopier =
      new_copy-IsCopier read_plain some_permissions copy_permissions_into
        copy_permissions_into-IsCopier

  pub copy_access_policy_spec_into-IsCopier :
      IsCopier {l = l} read_plain copy_access_policy_spec_into
  unfolding copy_access_policy_spec_into
  copy_access_policy_spec_into-IsCopier x h = Copied-plain h x (λ k. refl)

  pub copy_access_policy_spec-IsCopier :
      IsCopier {l = l} (read_pointer an_access_policy_spec read_plain) copy_access_policy_spec
  unfolding copy_access_policy_spec
  copy_access_policy_spec-IsCopier =
      new_copy-IsCopier read_plain an_access_policy_spec copy_access_policy_spec_into
        copy_access_policy_spec_into-IsCopier

module _ {l : Layout} (m : Machinery l) (deep : IsDeep m) where
  conditions-IsCopier : IsCopier (read_conditions m) (copy_slice conditions m.copy_condition)
  conditions-IsCopier =
      copy_slice-IsCopier m.read_condition conditions m.copy_condition deep.condition

  pub copy_access_policy_status_into-IsCopier :
      IsCopier (read_access_policy_status m) (copy_access_policy_status_into m)
  unfolding copy_access_policy_status_into
  copy_access_policy_status_into-IsCopier x h =
      Copied-struct (λ v. record (read_access_policy_status m h x) { conditions = v })
        (λ v. some v.conditions) (λ k. refl) (λ k. refl) (λ v. refl)
        (conditions-IsCopier x.conditions h)

  pub copy_access_policy_status-IsCopier :
      IsCopier
        (read_pointer an_access_policy_status (read_access_policy_status m))
        (copy_access_policy_status m)
  unfolding copy_access_policy_status
  copy_access_policy_status-IsCopier =
      new_copy-IsCopier (read_access_policy_status m) an_access_policy_status
        (copy_access_policy_status_into m) copy_access_policy_status_into-IsCopier

  pub copy_access_policy_into-IsCopier : IsCopier (read_access_policy m) (copy_access_policy_into m)
  unfolding copy_access_policy_into
  copy_access_policy_into-IsCopier x h =
      Copied-struct {read_part = read_both m.read_object_meta (read_access_policy_status m)}
        (λ v. record {
          type_meta = x.type_meta;
          object = record { meta = v.0; spec = x.spec; status = v.1 };
        })
        (λ v. some (v.object.meta, v.object.status)) (λ k. refl) (λ k. refl) (λ v. refl)
        (Copied-both (deep.object_meta x.meta h)
          (copy_access_policy_status_into-IsCopier x.status (m.copy_object_meta x.meta h).1))

  pub copy_access_policy-IsCopier :
      IsCopier (read_pointer an_access_policy (read_access_policy m)) (copy_access_policy m)
  unfolding copy_access_policy
  copy_access_policy-IsCopier =
      new_copy-IsCopier (read_access_policy m) an_access_policy (copy_access_policy_into m)
        copy_access_policy_into-IsCopier

  pub copy_access_policy_list_into-IsCopier :
      IsCopier (read_list m access_policies (read_access_policy m)) (copy_access_policy_list_into m)
  unfolding copy_access_policy_list_into
  copy_access_policy_list_into-IsCopier x h =
      Copied-struct
        {read_part = read_both m.read_list_meta (read_slice access_policies (read_access_policy m))}
        (λ v. record { type_meta = x.type_meta; meta = v.0; items = v.1 })
        (λ v. some (v.meta, v.items)) (λ k. refl) (λ k. refl) (λ v. refl)
        (Copied-both (deep.list_meta x.meta h) (
          copy_slice-IsCopier (read_access_policy m) access_policies (copy_access_policy_into m)
            copy_access_policy_into-IsCopier x.items (m.copy_list_meta x.meta h).1))

  pub copy_access_policy_list-IsCopier :
      IsCopier
        (read_pointer an_access_policy_list (read_list m access_policies (read_access_policy m)))
        (copy_access_policy_list m)
  unfolding copy_access_policy_list
  copy_access_policy_list-IsCopier =
      new_copy-IsCopier (read_list m access_policies (read_access_policy m)) an_access_policy_list
        (copy_access_policy_list_into m) copy_access_policy_list_into-IsCopier
