-- ===== src/DeepCopy/Policies.antt =====
-- The methods of AccessPolicy, AccessPolicyList, AccessPolicySpec, AccessPolicyStatus and
-- Permissions.
use garage_storage_controlle.Prelude.{ℕ, Option}
use garage_storage_controlle.Api.{AccessPolicySpec, Permissions}
use garage_storage_controlle.DeepCopy.Types.{
  Layout, ListStruct, AccessPolicyStatusStruct, AccessPolicyStruct,
}
use garage_storage_controlle.DeepCopy.Memory.{Alloc, pure, ◌>>=◌}
use garage_storage_controlle.DeepCopy.Cells.{
  conditions, access_policies, an_access_policy_list, an_access_policy, an_access_policy_spec,
  an_access_policy_status, some_permissions,
}
use garage_storage_controlle.DeepCopy.Shapes.{copy_slice, new_copy}
use garage_storage_controlle.DeepCopy.Library.{Machinery}
use garage_storage_controlle.DeepCopy.Objects.{
  Interface, an_object, of_access_policy, of_access_policy_list,
}

module _ {l : Layout} where
  unfoldable pub copy_permissions_into : Permissions → Alloc l Permissions
  copy_permissions_into x = pure x

  unfoldable pub copy_permissions : Option ℕ → Alloc l (Option ℕ)
  copy_permissions = new_copy some_permissions copy_permissions_into

  unfoldable pub copy_access_policy_spec_into : AccessPolicySpec → Alloc l AccessPolicySpec
  copy_access_policy_spec_into x = pure (record x { permissions = x.permissions })

  unfoldable pub copy_access_policy_spec : Option ℕ → Alloc l (Option ℕ)
  copy_access_policy_spec = new_copy an_access_policy_spec copy_access_policy_spec_into

module _ {l : Layout} (m : Machinery l) where
  unfoldable pub copy_access_policy_status_into :
      AccessPolicyStatusStruct → Alloc l AccessPolicyStatusStruct
  copy_access_policy_status_into x = do
    conditions ← copy_slice conditions m.copy_condition x.conditions
    pure (record x { conditions = conditions })

  unfoldable pub copy_access_policy_status : Option ℕ → Alloc l (Option ℕ)
  copy_access_policy_status = new_copy an_access_policy_status copy_access_policy_status_into

  unfoldable pub copy_access_policy_into : AccessPolicyStruct l → Alloc l (AccessPolicyStruct l)
  copy_access_policy_into x = do
    meta ← m.copy_object_meta x.meta
    status ← copy_access_policy_status_into x.status
    pure (record x { type_meta = x.type_meta; meta = meta; spec = x.spec; status = status })

  unfoldable pub copy_access_policy : Option ℕ → Alloc l (Option ℕ)
  copy_access_policy = new_copy an_access_policy copy_access_policy_into

  unfoldable pub copy_access_policy_list_into : ListStruct l → Alloc l (ListStruct l)
  copy_access_policy_list_into x = do
    meta ← m.copy_list_meta x.meta
    items ← copy_slice access_policies copy_access_policy_into x.items
    pure (record x { type_meta = x.type_meta; meta = meta; items = items })

  unfoldable pub copy_access_policy_list : Option ℕ → Alloc l (Option ℕ)
  copy_access_policy_list = new_copy an_access_policy_list copy_access_policy_list_into

  unfoldable pub copy_access_policy_object : Option ℕ → Alloc l Interface
  copy_access_policy_object p = do c ← copy_access_policy p; pure (an_object of_access_policy c)

  unfoldable pub copy_access_policy_list_object : Option ℕ → Alloc l Interface
  copy_access_policy_list_object p = do
    c ← copy_access_policy_list p
    pure (an_object of_access_policy_list c)
