-- ===== src/DeepCopy/Shapes.antt =====
-- The statements that the generated methods are made of: the loop over a slice, the new variable
-- behind a pointer, and the call on a pointer that may be nil. Beside each, what it leads to.
use garage_storage_controlle.Prelude.{ℕ, zero, suc, Option, none, some, List, [], ◌∷◌}
use garage_storage_controlle.DeepCopy.Types.{Layout, Slice}
use garage_storage_controlle.DeepCopy.Memory.{Heap, Alloc, pure, ◌>>=◌, ◌>>◌, reserve, store, load}
use garage_storage_controlle.DeepCopy.Cells.{Variable}

abbrev pub take {ℓ} : {A : Type ℓ} → ℕ → List A → List A
take zero xs = []
take (suc n) [] = []
take (suc n) (x ∷ xs) = x ∷ take n xs

-- a pointer's variable, or a slice's backing array
abbrev pub or_empty {ℓ} : {A : Type ℓ} → Option (List A) → List A
or_empty none = []
or_empty (some xs) = xs

module _ {l : Layout} {T : Type 0} where
  -- for i := range *in { (*in)[i].DeepCopyInto(&(*out)[i]) }
  unfoldable pub copy_all : (T → Alloc l T) → List T → Alloc l (List T)
  copy_all copy [] = pure []
  copy_all copy (x ∷ xs) = do y ← copy x; ys ← copy_all copy xs; pure (y ∷ ys)

  -- the elements of a slice
  abbrev pub elements : Variable l (List T) → Heap l → Slice → List T
  elements array h s = take s.length (or_empty (array.read (h.cell s.array)))

  -- if in.F != nil { *out = make([]T, len(*in)); for ... }
  unfoldable pub copy_slice :
      Variable l (List T) → (T → Alloc l T) → Option Slice → Alloc l (Option Slice)
  copy_slice array copy none = pure none
  copy_slice array copy (some s) = do
    out ← reserve
    cell ← load s.array
    ys ← copy_all copy (take s.length (or_empty (array.read cell)))
    store out (array.write ys)
    pure (some (record { array = out; length = s.length }))

  -- in.DeepCopyInto(out), or **out = **in, at the address of `out`
  unfoldable pub fill : Variable l T → (T → Alloc l T) → ℕ → Option T → Alloc l (Unit {0})
  fill variable copy out none = pure tt
  fill variable copy out (some x) = do y ← copy x; store out (variable.write y)

  -- if in == nil { return nil }; out := new(T); in.DeepCopyInto(out); return out
  unfoldable pub new_copy : Variable l T → (T → Alloc l T) → Option ℕ → Alloc l (Option ℕ)
  new_copy variable copy none = pure none
  new_copy variable copy (some p) = do
    out ← reserve
    cell ← load p
    fill variable copy out (variable.read cell)
    pure (some out)

  -- if in.F != nil { *out = (*in).DeepCopy() }
  unfoldable pub copy_option : (T → Alloc l T) → Option T → Alloc l (Option T)
  copy_option copy none = pure none
  copy_option copy (some x) = do y ← copy x; pure (some y)
