-- ===== src/DeepCopy/Sliced.antt =====
-- So does the copy of a slice.
use garage_storage_controlle.Prelude.{
  ℕ, zero, suc, leb, inl, inr, ◌⊎◌, ◌≤◌, ◌≡◌, refl, sym, ap, ◌∙◌, none, some, List, [], ◌∷◌, map,
  arith, Bool-cases, true, false,
}
use garage_storage_controlle.DeepCopy.Types.{Layout, Slice, unused}
use garage_storage_controlle.DeepCopy.Memory.{
  Heap, Alloc, IsSettled, reserve, store, load, update_same,
}
use garage_storage_controlle.DeepCopy.Cells.{Variable}
use garage_storage_controlle.DeepCopy.Shapes.{copy_all, elements, copy_slice, take, or_empty}
use garage_storage_controlle.DeepCopy.Reads.{read_slice}
use garage_storage_controlle.DeepCopy.Copied.{IsCopier, Extends-trans, Copied-plain}
use garage_storage_controlle.DeepCopy.Allocated.{
  forget, forget-Extends, reserve-Extends, filled-Extends, filled-owns, filled-reads,
}
use garage_storage_controlle.DeepCopy.Shaped.{read_all, copy_all-IsCopier}

map_empty : {A B : Type 0} (f : A → B) (xs : List A) → map f xs ≡ [] → xs ≡ []
map_empty f [] e = refl
map_empty f (x ∷ xs) e = absurd (ground arith)

take_empty : {A : Type 0} (n : ℕ) → take {A = A} n [] ≡ []
take_empty zero = refl
take_empty (suc n) = refl

module _ {l : Layout} {T V : Type 0} (read : Heap l → T → V) (array : Variable l (List T))
    (h : Heap l) (slice : Slice) (s : IsSettled (read_slice array read) h (some slice)) where
  abbrev in_grown : List T
  in_grown = elements array (reserve h).1 slice

  elements-empty : h.next ≤ slice.array → in_grown ≡ []
  elements-empty out =
      let k = forget (reserve h).1 slice.array in
      let unset : array.read (k.cell slice.array) ≡ none =
        ap array.read (update_same (reserve h).1.cell slice.array unused) ∙ array.read-unused in
      map_empty (read (reserve h).1) in_grown (
        s (reserve h).1 (reserve-Extends h)
        ∙ sym (s k (forget-Extends h (reserve h).1 slice.array (reserve-Extends h) out))
        ∙ ap (λ o. map (read k) (take slice.length (or_empty o))) unset
        ∙ ap (map (read k)) (take_empty slice.length))

  elements-IsSettled : IsSettled (read_all read) (reserve h).1 in_grown
  unfolding reserve
  elements-IsSettled k f = by_bound (Bool-cases (leb h.next slice.array))
    where
      by_bound :
          (leb h.next slice.array ≡ true) ⊎ (leb h.next slice.array ≡ false)
          → map (read k) in_grown ≡ map (read (reserve h).1) in_grown
      by_bound (inl out) =
          let empty = elements-empty (ground (arith, out)) in
          ap (map (read k)) empty ∙ sym (ap (map (read (reserve h).1)) empty)
      by_bound (inr below) =
          let kept : k.cell slice.array ≡ (reserve h).1.cell slice.array =
            f.1 slice.array (omega arith) (ground (arith, below)) in
          sym (ap (λ c. map (read k) (take slice.length (or_empty (array.read c)))) kept)
          ∙ s k (Extends-trans (reserve-Extends h) f)
          ∙ sym (s (reserve h).1 (reserve-Extends h))

module _ {l : Layout} {T V : Type 0} (read : Heap l → T → V) (array : Variable l (List T))
    (copy : T → Alloc l T) (copies : IsCopier read copy) where
  -- the copies of a slice's elements are as many as its length allows
  take-copy_all :
      (n : ℕ) (xs : List T) (h : Heap l)
      → take n (copy_all copy (take n xs) h).0 ≡ (copy_all copy (take n xs) h).0
  unfolding copy_all
  take-copy_all zero xs h = refl
  take-copy_all (suc n) [] h = refl
  take-copy_all (suc n) (x ∷ xs) h = ap (◌∷◌ (copy x h).0) (take-copy_all n xs (copy x h).1)

  pub copy_slice-IsCopier : IsCopier (read_slice array read) (copy_slice array copy)
  unfolding copy_slice load reserve store
  copy_slice-IsCopier none h = Copied-plain h none (λ k. refl)
  copy_slice-IsCopier (some slice) h =
      let xs = elements array (reserve h).1 slice in
      let c = copy_all-IsCopier read copy copies xs (reserve h).1 in
      let ys = (copy_all copy xs (reserve h).1).0 in
      let h₂ = (copy_all copy xs (reserve h).1).1 in
      let out : Slice = record { array = h.next; length = slice.length } in
      let after : (k : Heap l)
          → (array.read (k.cell h.next) ≡ some ys) × (map (read k) ys ≡ map (read h₂) ys)
          → read_slice array read k (some out) ≡ map (read h₂) ys =
        λ k r.
          ap (λ o. map (read k) (take slice.length (or_empty o))) r.0
          ∙ ap (map (read k)) (
              take-copy_all slice.length (or_empty (array.read ((reserve h).1.cell slice.array)))
                (reserve h).1)
          ∙ r.1 in
      let reads = after _ (filled-reads (read_all read) array h h₂ xs ys c) in
      record {
        grows = (filled-Extends (read_all read) array h h₂ xs ys c).0;
        keeps = (filled-Extends (read_all read) array h h₂ xs ys c).1;
        owns = λ k s. after k (filled-owns (read_all read) array h h₂ xs ys c k s) ∙ sym reads;
        reads = λ s.
            reads
            ∙ c.reads (elements-IsSettled read array h slice s)
            ∙ s (reserve h).1 (reserve-Extends h);
      }
