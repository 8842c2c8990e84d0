-- ===== src/Examples/Copies.antt =====
-- Copies of a bucket's status and of a list, in memories of a few variables. The metadata of lists
-- are a pointer here, so that copying them allocates; the other types of the machinery are plain.
use garage_storage_controlle.Prelude.{
  ℕ, String, ℤ, ◌≡◌, refl, ap, ◌∙◌, Option, none, some, [], ◌∷◌, map, inl, inr, pos, arith, ◌==◌,
  if◌then◌else◌,
}
use mathlib.Core.Option
use garage_storage_controlle.Api.{ObjectMeta, Condition, condition_false}
use garage_storage_controlle.DeepCopy.Types.{
  Layout, foreign, unused, condition_array, bucket_status, BucketStatusStruct,
}
use garage_storage_controlle.DeepCopy.Memory.{store, reserve, Heap, pure, IsSettled}
use garage_storage_controlle.DeepCopy.Cells.{Variable, a_bucket_status, conditions}
use garage_storage_controlle.DeepCopy.Contents.{read_bucket_status}
use garage_storage_controlle.DeepCopy.Shapes.{fill, new_copy, take, or_empty}
use garage_storage_controlle.DeepCopy.Reads.{read_pointer, read_plain}
use garage_storage_controlle.DeepCopy.Library.{Machinery, IsDeep}
use garage_storage_controlle.DeepCopy.Copied.{IsCopier, Copied-plain}
use garage_storage_controlle.DeepCopy.Shaped.{new_copy-IsCopier}
use garage_storage_controlle.DeepCopy.Buckets.{copy_bucket_status}
use garage_storage_controlle.DeepCopy.Kinds.{says, deep_copy, bucket_status_type}
use garage_storage_controlle.DeepCopy.Runs.{done, write}
use garage_storage_controlle.DeepCopy.Snapshots.{deep_copy_independent}
use garage_storage_controlle.DeepCopy.ObjectKinds.{
  deep_copy_object, deep_copy_object_type, type_of, object_of, bucket_list_kind,
}
use garage_storage_controlle.Examples.Fixtures.{ready_true}

abbrev layout : Layout
layout = record {
  ObjectMeta = ObjectMeta;
  ListMeta = Option ℕ;
  ListContent = Option String;
  Condition = Condition;
  Quantity = String;
  Time = ℤ;
  Variable = String;
}

abbrev version : Variable layout String
version = record {
  write = foreign;
  read = λ c. elim c [ foreign x ↦ some x | _ ↦ none ];
  read-write = λ x. refl;
  read-unused = refl;
}

abbrev machinery : Machinery layout
machinery = record {
  copy_object_meta = pure;
  copy_list_meta = new_copy version pure;
  copy_condition = pure;
  copy_quantity = pure;
  copy_time = pure;
  read_object_meta = read_plain;
  read_list_meta = read_pointer version read_plain;
  read_condition = read_plain;
  read_quantity = read_plain;
  read_time = read_plain;
}

pure-IsCopier : {T : Type 0} → IsCopier {l = layout} {T = T} read_plain pure
pure-IsCopier x h = Copied-plain h x (λ k. refl)

machinery-IsDeep : IsDeep machinery
machinery-IsDeep = record {
  object_meta = pure-IsCopier;
  list_meta = new_copy-IsCopier read_plain version pure pure-IsCopier;
  condition = pure-IsCopier;
  quantity = pure-IsCopier;
  time = pure-IsCopier;
}

-- A status at address 1 with one condition, in the array at address 0.
abbrev status : BucketStatusStruct layout
status = record {
  observed_generation = 3;
  conditions = some (record { array = 0; length = 1 });
  bucket_id = "b1";
  bucket_name = "photos";
  last_sync = some (pos 7);
}

abbrev memory : Heap layout
memory = record {
  next = 2;
  cell = λ a.
      if a == 0
      then condition_array (ready_true ∷ [])
      else if a == 1
      then bucket_status status
      else unused;
}

memory-IsSettled : IsSettled (says machinery bucket_status_type) memory (some 1)
memory-IsSettled k e =
    let at_status : k.cell 1 ≡ bucket_status status = e.1 1 (omega arith) (omega arith) in
    let at_conditions : k.cell 0 ≡ condition_array (ready_true ∷ []) =
      e.1 0 (omega arith) (omega arith) in
    ap (λ c. Option.map (read_bucket_status machinery k) (a_bucket_status.read c)) at_status
    ∙ ap
        (λ c. some (record (read_bucket_status machinery memory status) {
          conditions = map (machinery.read_condition k) (take 1 (or_empty (conditions.read c)));
        }))
        at_conditions

-- the memory after the copy, and after SetStatusCondition has written to the original's array
abbrev copied : Heap layout
copied = (deep_copy machinery bucket_status_type (some 1) memory).1

abbrev turned : Condition
turned = record ready_true { status = condition_false; reason = "Gone" }

-- the copy's array is at address 3, the original's at address 0
abbrev original_written : Heap layout
original_written = (store 0 (condition_array (turned ∷ [])) copied).1

abbrev copy_written : Heap layout
copy_written = (store 3 (condition_array (turned ∷ [])) copied).1

deep_copy_independent_example :
    (says machinery bucket_status_type original_written (some 2)
      ≡ says machinery bucket_status_type memory (some 1))
    × (says machinery bucket_status_type copy_written (some 1)
        ≡ says machinery bucket_status_type memory (some 1))
unfolding store copy_bucket_status new_copy fill reserve
deep_copy_independent_example =
    deep_copy_independent machinery machinery-IsDeep bucket_status_type (some 1) memory
      original_written copy_written memory-IsSettled
      (write copied original_written 0 (condition_array (turned ∷ [])) (inl (omega arith))
        (done original_written))
      (write copied copy_written 3 (condition_array (turned ∷ [])) (inr (omega arith))
        (done copy_written))

deep_copy_object_type_example :
    ((deep_copy_object machinery bucket_list_kind (some 0) memory).0
      ≡ some (object_of bucket_list_kind (some 2)))
    × ((deep_copy_object machinery bucket_list_kind (some 0) memory).1
        ≡ (deep_copy machinery (type_of bucket_list_kind) (some 0) memory).1)
deep_copy_object_type_example = deep_copy_object_type machinery bucket_list_kind (some 0) memory

-- A copy without a new array, as *out = *in alone makes it, would see the write.
shallow_changes :
    says machinery bucket_status_type (store 0 (condition_array (turned ∷ [])) memory).1 (some 1)
    ≡ some (record (read_bucket_status machinery memory status) { conditions = turned ∷ [] })
unfolding store
shallow_changes = refl
