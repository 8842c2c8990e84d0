-- ===== src/DeepCopy/Reads.antt =====
-- What slices and pointers say: the content that the methods have to keep.
use garage_storage_controlle.Prelude.{ℕ, Option, none, some, List, [], map}
use mathlib.Core.Option
use garage_storage_controlle.DeepCopy.Types.{Layout, Slice}
use garage_storage_controlle.DeepCopy.Memory.{Heap}
use garage_storage_controlle.DeepCopy.Cells.{Variable}
use garage_storage_controlle.DeepCopy.Shapes.{elements}

module _ {l : Layout} {T V : Type 0} where
  -- a nil slice and an empty one both read as no elements
  abbrev pub read_slice : Variable l (List T) → (Heap l → T → V) → Heap l → Option Slice → List V
  read_slice array read h none = []
  read_slice array read h (some s) = map (read h) (elements array h s)

  abbrev pub read_pointer : Variable l T → (Heap l → T → V) → Heap l → Option ℕ → Option V
  read_pointer variable read h none = none
  read_pointer variable read h (some p) = Option.map (read h) (variable.read (h.cell p))

  abbrev pub read_option : (Heap l → T → V) → Heap l → Option T → Option V
  read_option read h none = none
  read_option read h (some x) = some (read h x)

-- a struct without references
abbrev pub read_plain : {l : Layout} {T : Type 0} → Heap l → T → T
read_plain h x = x

abbrev pub read_both :
    {l : Layout} {A B VA VB : Type 0}
    → (Heap l → A → VA)
    → (Heap l → B → VB)
    → Heap l
    → A × B
    → VA × VB
read_both read_a read_b h x = (read_a h x.0, read_b h x.1)
