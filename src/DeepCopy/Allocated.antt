-- ===== src/DeepCopy/Allocated.antt =====
-- What `new` and a write to the new variable leave of a memory.
use garage_storage_controlle.Prelude.{ℕ, suc, ◌≤◌, ◌≡◌, refl, ap, ◌∙◌, none, some, arith}
use garage_storage_controlle.DeepCopy.Types.{Layout, unused}
use garage_storage_controlle.DeepCopy.Memory.{
  Heap, AgreeOn, Extends, reserve, store, update, update_same, update_other,
}
use garage_storage_controlle.DeepCopy.Cells.{Variable}
use garage_storage_controlle.DeepCopy.Copied.{Copied}

pub none-some : {A : Type 0} {x : A} → ¬ (none ≡ some x)
none-some e = absurd (ground arith)

-- a memory without the variable at an address that is not allocated
abbrev pub forget : {l : Layout} → Heap l → ℕ → Heap l
forget h p = record h { cell = update h.cell p unused }

pub forget-Extends :
    {l : Layout} (h k : Heap l) (p : ℕ) → Extends h k → h.next ≤ p → Extends h (forget k p)
forget-Extends h k p e out = (e.0, λ a lo hi. ground (arith, e.1 a lo hi, out, hi))

pub reserve-Extends : {l : Layout} (h : Heap l) → Extends h (reserve h).1
unfolding reserve
reserve-Extends h = (omega arith, λ a lo hi. ground (arith, hi))

pub reserve-unused : {l : Layout} (h : Heap l) → (reserve h).1.cell h.next ≡ unused
unfolding reserve
reserve-unused h = ground arith

pub reserved-read :
    {l : Layout} {T : Type 0} (variable : Variable l T) (h k : Heap l)
    → AgreeOn h.next (reserve h).1.next (reserve h).1 k
    → variable.read (k.cell h.next) ≡ none
unfolding reserve
reserved-read variable h k s =
    ap variable.read (s h.next (omega arith) (omega arith) ∙ reserve-unused h)
    ∙ variable.read-unused

module _ {l : Layout} {T V : Type 0} (read : Heap l → T → V) where
  -- a new variable at the next address, filled with a deep copy
  module _ (variable : Variable l T) (h h₂ : Heap l) (x y : T)
      (c : Copied read (reserve h).1 x y h₂) where
    abbrev pub filled : Heap l
    filled = (store h.next (variable.write y) h₂).1

    pub filled-Extends : Extends h filled
    unfolding reserve store
    filled-Extends =
        (omega (arith, c.grows), λ a lo hi. ground (arith, c.keeps a lo (omega (arith, hi))))

    pub filled-owns :
        (k : Heap l)
        → AgreeOn h.next filled.next filled k
        → (variable.read (k.cell h.next) ≡ some y) × (read k y ≡ read h₂ y)
    unfolding reserve store
    filled-owns k s =
        let grown : suc h.next ≤ h₂.next = c.grows in
        let at_out : k.cell h.next ≡ variable.write y =
          s h.next (omega arith) (omega (arith, grown))
          ∙ update_same h₂.cell h.next (variable.write y) in
        (
          ap variable.read at_out ∙ variable.read-write y,
          c.owns k (λ a lo hi.
              s a (omega (arith, lo)) hi ∙ update_other h₂.cell h.next _ a (omega (arith, lo))),
        )

    -- what its address is read as, when the rest of the memory is as it was
    pub filled-reads : (variable.read (filled.cell h.next) ≡ some y) × (read filled y ≡ read h₂ y)
    filled-reads = filled-owns filled (λ a lo hi. refl)
