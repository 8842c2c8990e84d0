-- ===== src/DeepCopy/Keys.antt =====
-- The methods of AccessKey, AccessKeyList, AccessKeySpec and AccessKeyStatus.
use garage_storage_controlle.Prelude.{ℕ, Option}
use garage_storage_controlle.Api.{AccessKeySpec}
use garage_storage_controlle.DeepCopy.Types.{
  Layout, ListStruct, AccessKeyStatusStruct, AccessKeyStruct,
}
use garage_storage_controlle.DeepCopy.Memory.{Alloc, pure, ◌>>=◌}
use garage_storage_controlle.DeepCopy.Cells.{
  conditions, access_keys, an_access_key_list, an_access_key, an_access_key_spec,
  an_access_key_status,
}
use garage_storage_controlle.DeepCopy.Shapes.{copy_slice, new_copy}
use garage_storage_controlle.DeepCopy.Library.{Machinery}
use garage_storage_controlle.DeepCopy.Objects.{
  Interface, an_object, of_access_key, of_access_key_list,
}

module _ {l : Layout} where
  unfoldable pub copy_access_key_spec_into : AccessKeySpec → Alloc l AccessKeySpec
  copy_access_key_spec_into x = pure x

  unfoldable pub copy_access_key_spec : Option ℕ → Alloc l (Option ℕ)
  copy_access_key_spec = new_copy an_access_key_spec copy_access_key_spec_into

module _ {l : Layout} (m : Machinery l) where
  unfoldable pub copy_access_key_status_into : AccessKeyStatusStruct → Alloc l AccessKeyStatusStruct
  copy_access_key_status_into x = do
    conditions ← copy_slice conditions m.copy_condition x.conditions
    pure (record x { conditions = conditions })

  unfoldable pub copy_access_key_status : Option ℕ → Alloc l (Option ℕ)
  copy_access_key_status = new_copy an_access_key_status copy_access_key_status_into

  unfoldable pub copy_access_key_into : AccessKeyStruct l → Alloc l (AccessKeyStruct l)
  copy_access_key_into x = do
    meta ← m.copy_object_meta x.meta
    status ← copy_access_key_status_into x.status
    pure (record x { type_meta = x.type_meta; meta = meta; spec = x.spec; status = status })

  unfoldable pub copy_access_key : Option ℕ → Alloc l (Option ℕ)
  copy_access_key = new_copy an_access_key copy_access_key_into

  unfoldable pub copy_access_key_list_into : ListStruct l → Alloc l (ListStruct l)
  copy_access_key_list_into x = do
    meta ← m.copy_list_meta x.meta
    items ← copy_slice access_keys copy_access_key_into x.items
    pure (record x { type_meta = x.type_meta; meta = meta; items = items })

  unfoldable pub copy_access_key_list : Option ℕ → Alloc l (Option ℕ)
  copy_access_key_list = new_copy an_access_key_list copy_access_key_list_into

  unfoldable pub copy_access_key_object : Option ℕ → Alloc l Interface
  copy_access_key_object p = do c ← copy_access_key p; pure (an_object of_access_key c)

  unfoldable pub copy_access_key_list_object : Option ℕ → Alloc l Interface
  copy_access_key_list_object p = do
    c ← copy_access_key_list p
    pure (an_object of_access_key_list c)
