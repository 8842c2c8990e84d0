-- ===== src/DeepCopy/Objects.antt =====
-- The runtime.Object values that DeepCopyObject returns.
use garage_storage_controlle.Prelude.{ℕ, Option, none, some}

-- The dynamic type of an interface value, and its pointer, which may be nil.
pub data RuntimeObject : Type 0 where
  of_access_key of_access_key_list of_access_policy of_access_policy_list : Option ℕ → RuntimeObject
  of_bucket of_bucket_list : Option ℕ → RuntimeObject

-- A nil interface value has no dynamic type.
abbrev pub Interface : Type 0
Interface = Option RuntimeObject

-- if c := in.DeepCopy(); c != nil { return c }; return nil
unfoldable pub an_object : (Option ℕ → RuntimeObject) → Option ℕ → Interface
an_object type none = none
an_object type (some p) = some (type (some p))
