-- ===== src/DeepCopy/Copied.antt =====
-- What it means that a struct was copied deeply, and the lemmas that compose such copies.
use garage_storage_controlle.Prelude.{Option, none, some, ◌≤◌, ◌≡◌, refl, sym, ap, ◌∙◌, arith}
use garage_storage_controlle.DeepCopy.Types.{Layout}
use garage_storage_controlle.DeepCopy.Reads.{read_both}
use garage_storage_controlle.DeepCopy.Memory.{Heap, Alloc, AgreeOn, Extends, IsSettled}

-- In memory h the struct x was copied to y, which left memory h': the copy reads as the original
-- did, no variable that x can refer to was written, and all that y refers to is new.
pub record Copied {l : Layout} {T V : Type 0} (read : Heap l → T → V) (h : Heap l) (x y : T)
    (h' : Heap l) : Type 0 where
  pub grows : h.next ≤ h'.next
  pub keeps : AgreeOn 0 h.next h h'
  pub owns : (k : Heap l) → AgreeOn h.next h'.next h' k → read k y ≡ read h' y
  pub reads : IsSettled read h x → read h' y ≡ read h x

abbrev pub IsCopier : {l : Layout} {T V : Type 0} → (Heap l → T → V) → (T → Alloc l T) → Type 0
IsCopier {l} {T} read copy = (x : T) (h : Heap l) → Copied read h x (copy x h).0 (copy x h).1

pub some_inj {ℓ} : {A : Type ℓ} {x y : A} → some x ≡ some y → x ≡ y
some_inj {x = x} e = ap (λ o. elim o [ none ↦ x | some z ↦ z ]) e

module _ {l : Layout} where
  pub Extends-trans : {h h' h'' : Heap l} → Extends h h' → Extends h' h'' → Extends h h''
  Extends-trans e f = (
    omega (arith, e.0, f.0),
    λ a lo hi. f.1 a (omega arith) (omega (arith, e.0, hi)) ∙ e.1 a lo hi,
  )

  -- what is settled stays settled, and says the same
  pub IsSettled-Extends :
      {T V : Type 0} (read : Heap l → T → V) {h h' : Heap l} {x : T}
      → Extends h h'
      → IsSettled read h x
      → IsSettled read h' x
  IsSettled-Extends read {h} {h'} e s k f = s k (Extends-trans e f) ∙ sym (s h' e)

  module _ {T V : Type 0} (read : Heap l → T → V) {x y : T} where
    pub Copied-Extends : {h h' : Heap l} → Copied read h x y h' → Extends h h'
    Copied-Extends c = (c.grows, c.keeps)

    -- whatever is allocated after the copy or before it
    pub Copied-later :
        {h h₁ h₂ : Heap l} → Copied read h x y h₁ → Extends h₁ h₂ → Copied read h x y h₂
    Copied-later {h} {h₁} {h₂} c e = record {
      grows = omega (arith, c.grows, e.0);
      keeps = (Extends-trans (Copied-Extends c) e).1;
      owns = λ k s.
          c.owns k (λ a lo hi. s a lo (omega (arith, hi, e.0)) ∙ e.1 a (omega arith) hi)
          ∙ sym (c.owns h₂ (λ a lo hi. e.1 a (omega arith) hi));
      reads = λ s. c.owns h₂ (λ a lo hi. e.1 a (omega arith) hi) ∙ c.reads s;
    }

    pub Copied-earlier :
        {h h₁ h₂ : Heap l} → Extends h h₁ → Copied read h₁ x y h₂ → Copied read h x y h₂
    Copied-earlier {h} {h₁} {h₂} e c = record {
      grows = omega (arith, c.grows, e.0);
      keeps = (Extends-trans e (Copied-Extends c)).1;
      owns = λ k s. c.owns k (λ a lo hi. s a (omega (arith, lo, e.0)) hi);
      reads = λ s. c.reads (IsSettled-Extends read e s) ∙ s h₁ e;
    }

  module _ {A B VA VB : Type 0} {read_a : Heap l → A → VA} {read_b : Heap l → B → VB} {a a' : A}
      {b b' : B} where
    pub Copied-both :
        {h h₁ h₂ : Heap l}
        → Copied read_a h a a' h₁
        → Copied read_b h₁ b b' h₂
        → Copied (read_both read_a read_b) h (a, b) (a', b') h₂
    Copied-both {h} {h₁} {h₂} c' d' =
        let c = Copied-later read_a c' (Copied-Extends read_b d') in
        let d = Copied-earlier read_b (Copied-Extends read_a c') d' in
        record {
          grows = c.grows;
          keeps = c.keeps;
          owns = λ k s.
              ap (λ z. (z, read_b k b')) (c.owns k s) ∙ ap (λ z. (read_a h₂ a', z)) (d.owns k s);
          reads = λ s.
              ap (λ z. (z, read_b h₂ b')) (c.reads (λ k e. ap (λ z. z.0) (s k e)))
              ∙ ap (λ z. (read_a h a, z)) (d.reads (λ k e. ap (λ z. z.1) (s k e)));
        }

  -- a struct whose references are those of a part of it, the rest being equal in the copy
  module _ {P S VP VS : Type 0} {read_part : Heap l → P → VP} {read : Heap l → S → VS} {p p' : P}
      {x y : S} (join : VP → VS) (part : VS → Option VP) where
    pub Copied-struct :
        {h h' : Heap l}
        → ((k : Heap l) → read k x ≡ join (read_part k p))
        → ((k : Heap l) → read k y ≡ join (read_part k p'))
        → ((v : VP) → part (join v) ≡ some v)
        → Copied read_part h p p' h'
        → Copied read h x y h'
    Copied-struct {h} {h'} in_x in_y part-join c = record {
      grows = c.grows;
      keeps = c.keeps;
      owns = λ k s. in_y k ∙ ap join (c.owns k s) ∙ sym (in_y h');
      reads = λ s.
          in_y h'
          ∙ ap join (
              c.reads (λ k e. some_inj (
                sym (part-join (read_part k p))
                ∙ ap part (sym (in_x k) ∙ s k e ∙ in_x h)
                ∙ part-join (read_part h p))))
          ∙ sym (in_x h);
    }

  -- what reads the same in every memory, and nothing allocated
  pub Copied-plain :
      {T V : Type 0} {read : Heap l → T → V} (h : Heap l) (x : T)
      → ((k : Heap l) → read k x ≡ read h x)
      → Copied read h x x h
  Copied-plain h x same = record {
    grows = omega arith;
    keeps = λ a lo hi. refl;
    owns = λ k s. same k;
    reads = λ s. refl;
  }
