-- ===== src/DeepCopy/Shaped.antt =====
-- The loop over elements, and the calls behind pointers, copy deeply where the calls in them do.
use garage_storage_controlle.Prelude.{
  ℕ, ◌≤◌, ◌≡◌, refl, sym, ap, ◌∙◌, Option, none, some, List, [], ◌∷◌, map, arith,
}
use mathlib.Core.Option
use garage_storage_controlle.DeepCopy.Types.{Layout, unused}
use garage_storage_controlle.DeepCopy.Memory.{Heap, Alloc, IsSettled, reserve, load, update_same}
use garage_storage_controlle.DeepCopy.Cells.{Variable}
use garage_storage_controlle.DeepCopy.Shapes.{copy_all, fill, new_copy, copy_option}
use garage_storage_controlle.DeepCopy.Reads.{read_pointer, read_option, read_both}
use garage_storage_controlle.DeepCopy.Copied.{
  Copied, IsCopier, Extends-trans, Copied-both, Copied-struct, Copied-plain, some_inj,
}
use garage_storage_controlle.DeepCopy.Allocated.{
  none-some, forget, forget-Extends, reserve-Extends, reserved-read, filled-Extends, filled-owns,
  filled-reads,
}

module _ {l : Layout} {T V : Type 0} (read : Heap l → T → V) where
  abbrev pub read_all : Heap l → List T → List V
  read_all h xs = map (read h) xs

  module _ (copy : T → Alloc l T) (copies : IsCopier read copy) where
    pub copy_option-IsCopier : IsCopier (read_option read) (copy_option copy)
    unfolding copy_option
    copy_option-IsCopier none h = Copied-plain h none (λ k. refl)
    copy_option-IsCopier (some x) h =
        Copied-struct some (λ v. v) (λ k. refl) (λ k. refl) (λ v. refl) (copies x h)

    pub copy_all-IsCopier : IsCopier read_all (copy_all copy)
    unfolding copy_all
    copy_all-IsCopier [] h = Copied-plain h [] (λ k. refl)
    copy_all-IsCopier (x ∷ xs) h =
        Copied-struct {read_part = read_both read read_all} (λ v. v.0 ∷ v.1)
          (λ vs. elim vs [ [] ↦ none | v ∷ rest ↦ some (v, rest) ]) (λ k. refl) (λ k. refl)
          (λ v. refl) (Copied-both (copies x h) (copy_all-IsCopier xs (copy x h).1))

-- Of a settled pointer, and a memory with one more variable, which reads the pointer's as x.
module _ {l : Layout} {T V : Type 0} (read : Heap l → T → V) (variable : Variable l T) (h : Heap l)
    (p : ℕ) (x : T) (s : IsSettled (read_pointer variable read) h (some p))
    (e : variable.read ((reserve h).1.cell p) ≡ some x) where
  abbrev grown : Heap l
  grown = (reserve h).1

  pointee_reads : some (read grown x) ≡ read_pointer variable read h (some p)
  pointee_reads = sym (ap (Option.map (read grown)) e) ∙ s grown (reserve-Extends h)

  pointer_allocated : ¬ (h.next ≤ p)
  pointer_allocated out =
      let k = forget grown p in
      let unset : variable.read (k.cell p) ≡ none =
        ap variable.read (update_same grown.cell p unused) ∙ variable.read-unused in
      let gone : none ≡ read_pointer variable read h (some p) =
        sym (ap (Option.map (read k)) unset)
        ∙ s k (forget-Extends h grown p (reserve-Extends h) out) in
      none-some (gone ∙ sym pointee_reads)

  -- and its variable is settled after a `new`
  pointee-IsSettled : IsSettled read grown x
  unfolding reserve
  pointee-IsSettled k f =
      let kept : variable.read (k.cell p) ≡ some x =
        ap variable.read (f.1 p (omega arith) (omega (arith, pointer_allocated))) ∙ e in
      some_inj (
        sym (ap (Option.map (read k)) kept)
        ∙ s k (Extends-trans (reserve-Extends h) f)
        ∙ sym pointee_reads)

module _ {l : Layout} {T V : Type 0} (read : Heap l → T → V) (variable : Variable l T)
    (copy : T → Alloc l T) (copies : IsCopier read copy) where
  new_copy-filled :
      (h : Heap l) (p : ℕ) (o : Option T)
      → variable.read ((reserve h).1.cell p) ≡ o
      → Copied
          (read_pointer variable read)
          h
          (some p)
          (some h.next)
          (fill variable copy h.next o (reserve h).1).1
  unfolding fill
  new_copy-filled h p none e = record {
    grows = (reserve-Extends h).0;
    keeps = (reserve-Extends h).1;
    owns = λ k s.
        ap (Option.map (read k)) (reserved-read variable h k s)
        ∙ sym (
            ap (Option.map (read (reserve h).1))
              (reserved-read variable h (reserve h).1 (λ a lo hi. refl)));
    reads = λ s.
        ap (Option.map (read (reserve h).1))
          (reserved-read variable h (reserve h).1 (λ a lo hi. refl))
        ∙ sym (ap (Option.map (read (reserve h).1)) e)
        ∙ s (reserve h).1 (reserve-Extends h);
  }
  new_copy-filled h p (some x) e =
      let c = copies x (reserve h).1 in
      let y = (copy x (reserve h).1).0 in
      let h₂ = (copy x (reserve h).1).1 in
      let after : (k : Heap l)
          → (variable.read (k.cell h.next) ≡ some y) × (read k y ≡ read h₂ y)
          → read_pointer variable read k (some h.next) ≡ some (read h₂ y) =
        λ k r. ap (Option.map (read k)) r.0 ∙ ap some r.1 in
      let reads = after _ (filled-reads read variable h h₂ x y c) in
      record {
        grows = (filled-Extends read variable h h₂ x y c).0;
        keeps = (filled-Extends read variable h h₂ x y c).1;
        owns = λ k s. after k (filled-owns read variable h h₂ x y c k s) ∙ sym reads;
        reads = λ s.
            reads
            ∙ ap some (c.reads (pointee-IsSettled read variable h p x s e))
            ∙ pointee_reads read variable h p x s e;
      }

  pub new_copy-IsCopier : IsCopier (read_pointer variable read) (new_copy variable copy)
  unfolding new_copy load reserve
  new_copy-IsCopier none h = Copied-plain h none (λ k. refl)
  new_copy-IsCopier (some p) h = new_copy-filled h p (variable.read ((reserve h).1.cell p)) refl
