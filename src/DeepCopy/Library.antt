-- ===== src/DeepCopy/Library.antt =====
-- The deep copies of k8s.io/apimachinery that the generated methods call, and what its types say.
use garage_storage_controlle.Prelude.{String, ℤ}
use garage_storage_controlle.Api.{ObjectMeta, Condition}
use garage_storage_controlle.DeepCopy.Types.{Layout}
use garage_storage_controlle.DeepCopy.Memory.{Heap, Alloc}
use garage_storage_controlle.DeepCopy.Copied.{IsCopier}

-- ObjectMeta.DeepCopyInto, ListMeta.DeepCopyInto, Condition.DeepCopyInto, Quantity.DeepCopy and
-- (*Time).DeepCopy
pub record Machinery (l : Layout) : Type 0 where
  pub copy_object_meta : l.ObjectMeta → Alloc l l.ObjectMeta
  pub copy_list_meta : l.ListMeta → Alloc l l.ListMeta
  pub copy_condition : l.Condition → Alloc l l.Condition
  pub copy_quantity : l.Quantity → Alloc l l.Quantity
  pub copy_time : l.Time → Alloc l l.Time
  pub read_object_meta : Heap l → l.ObjectMeta → ObjectMeta
  pub read_list_meta : Heap l → l.ListMeta → l.ListContent
  pub read_condition : Heap l → l.Condition → Condition
  pub read_quantity : Heap l → l.Quantity → String
  pub read_time : Heap l → l.Time → ℤ

-- What their documentation promises: each makes a deep copy of its receiver.
pub record IsDeep {l : Layout} (m : Machinery l) : Type 0 where
  pub object_meta : IsCopier m.read_object_meta m.copy_object_meta
  pub list_meta : IsCopier m.read_list_meta m.copy_list_meta
  pub condition : IsCopier m.read_condition m.copy_condition
  pub quantity : IsCopier m.read_quantity m.copy_quantity
  pub time : IsCopier m.read_time m.copy_time
