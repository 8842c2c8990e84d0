-- ===== src/DeepCopy/ObjectKinds.antt =====
-- The types that are runtime.Objects, with their DeepCopyObject methods.
use garage_storage_controlle.Prelude.{ℕ, ◌≡◌, refl, ap, ◌∙◌, Option, none, some}
use mathlib.Core.Option
use garage_storage_controlle.DeepCopy.Types.{Layout}
use garage_storage_controlle.DeepCopy.Memory.{Heap, Alloc, reserve, load}
use garage_storage_controlle.DeepCopy.Cells.{Variable}
use garage_storage_controlle.DeepCopy.Shapes.{new_copy}
use garage_storage_controlle.DeepCopy.Objects.{
  RuntimeObject, Interface, an_object, of_access_key, of_access_key_list, of_access_policy,
  of_access_policy_list, of_bucket, of_bucket_list,
}
use garage_storage_controlle.DeepCopy.Library.{Machinery}
use garage_storage_controlle.DeepCopy.Kinds.{
  Kind, deep_copy, access_key_type, access_key_list_type, access_policy_type,
  access_policy_list_type, bucket_type, bucket_list_type,
}
use garage_storage_controlle.DeepCopy.Keys.{
  copy_access_key, copy_access_key_list, copy_access_key_object, copy_access_key_list_object,
}
use garage_storage_controlle.DeepCopy.Policies.{
  copy_access_policy, copy_access_policy_list, copy_access_policy_object,
  copy_access_policy_list_object,
}
use garage_storage_controlle.DeepCopy.Buckets.{
  copy_bucket, copy_bucket_list, copy_bucket_object, copy_bucket_list_object,
}

pub data ObjectKind : Type 0 where
  access_key_kind access_key_list_kind access_policy_kind access_policy_list_kind : ObjectKind
  bucket_kind bucket_list_kind : ObjectKind

abbrev pub type_of : ObjectKind → Kind
type_of access_key_kind = access_key_type
type_of access_key_list_kind = access_key_list_type
type_of access_policy_kind = access_policy_type
type_of access_policy_list_kind = access_policy_list_type
type_of bucket_kind = bucket_type
type_of bucket_list_kind = bucket_list_type

abbrev pub object_of : ObjectKind → Option ℕ → RuntimeObject
object_of access_key_kind = of_access_key
object_of access_key_list_kind = of_access_key_list
object_of access_policy_kind = of_access_policy
object_of access_policy_list_kind = of_access_policy_list
object_of bucket_kind = of_bucket
object_of bucket_list_kind = of_bucket_list

an_object-map :
    (type : Option ℕ → RuntimeObject) (n : ℕ) (p : Option ℕ)
    → an_object type (Option.map (λ _. n) p) ≡ Option.map (λ _. type (some n)) p
unfolding an_object
an_object-map type n none = refl
an_object-map type n (some p) = refl

module _ {l : Layout} where
  new_copy_pointer :
      {T : Type 0} (variable : Variable l T) (copy : T → Alloc l T) (p : Option ℕ) (h : Heap l)
      → (new_copy variable copy p h).0 ≡ Option.map (λ _. h.next) p
  unfolding new_copy reserve load
  new_copy_pointer variable copy none h = refl
  new_copy_pointer variable copy (some p) h = refl

module _ {l : Layout} (m : Machinery l) where
  abbrev pub deep_copy_object : ObjectKind → Option ℕ → Alloc l Interface
  deep_copy_object access_key_kind = copy_access_key_object m
  deep_copy_object access_key_list_kind = copy_access_key_list_object m
  deep_copy_object access_policy_kind = copy_access_policy_object m
  deep_copy_object access_policy_list_kind = copy_access_policy_list_object m
  deep_copy_object bucket_kind = copy_bucket_object m
  deep_copy_object bucket_list_kind = copy_bucket_list_object m

  deep_copy_pointer :
      (o : ObjectKind) (p : Option ℕ) (h : Heap l)
      → (deep_copy m (type_of o) p h).0 ≡ Option.map (λ _. h.next) p
  unfolding copy_access_key copy_access_key_list copy_access_policy copy_access_policy_list
      copy_bucket copy_bucket_list
  deep_copy_pointer access_key_kind p h = new_copy_pointer _ _ p h
  deep_copy_pointer access_key_list_kind p h = new_copy_pointer _ _ p h
  deep_copy_pointer access_policy_kind p h = new_copy_pointer _ _ p h
  deep_copy_pointer access_policy_list_kind p h = new_copy_pointer _ _ p h
  deep_copy_pointer bucket_kind p h = new_copy_pointer _ _ p h
  deep_copy_pointer bucket_list_kind p h = new_copy_pointer _ _ p h

  object_is_copy :
      (o : ObjectKind) (p : Option ℕ) (h : Heap l)
      → ((deep_copy_object o p h).0 ≡ an_object (object_of o) (deep_copy m (type_of o) p h).0)
        × ((deep_copy_object o p h).1 ≡ (deep_copy m (type_of o) p h).1)
  unfolding copy_access_key_object copy_access_key_list_object copy_access_policy_object
      copy_access_policy_list_object copy_bucket_object copy_bucket_list_object
  object_is_copy access_key_kind p h = (refl, refl)
  object_is_copy access_key_list_kind p h = (refl, refl)
  object_is_copy access_policy_kind p h = (refl, refl)
  object_is_copy access_policy_list_kind p h = (refl, refl)
  object_is_copy bucket_kind p h = (refl, refl)
  object_is_copy bucket_list_kind p h = (refl, refl)

  -- DeepCopyObject of a nil pointer is the nil interface value, never an interface that holds a nil
  -- pointer; of any other pointer it is an interface of the receiver's own type that holds the
  -- address of a new variable, and memory is left as DeepCopy leaves it.
  pub deep_copy_object_type :
      (o : ObjectKind) (p : Option ℕ) (h : Heap l)
      → ((deep_copy_object o p h).0 ≡ Option.map (λ _. object_of o (some h.next)) p)
        × ((deep_copy_object o p h).1 ≡ (deep_copy m (type_of o) p h).1)
  deep_copy_object_type o p h = (
    (object_is_copy o p h).0
        ∙ ap (an_object (object_of o)) (deep_copy_pointer o p h)
        ∙ an_object-map (object_of o) h.next p,
    (object_is_copy o p h).1,
  )
