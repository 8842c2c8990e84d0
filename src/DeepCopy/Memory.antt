-- ===== src/DeepCopy/Memory.antt =====
-- The memory that the copies are made in: variables by address, and the next free address.
use garage_storage_controlle.Prelude.{ℕ, suc, ◌≤◌, ◌<◌, ◌==◌, ◌≡◌, if◌then◌else◌, arith}
use garage_storage_controlle.DeepCopy.Types.{Layout, Cell, unused}

pub record Heap (l : Layout) : Type 0 where
  pub next : ℕ
  pub cell : ℕ → Cell l

abbrev pub Alloc : Layout → Type 0 → Type 0
Alloc l A = Heap l → A × Heap l

module _ {l : Layout} where
  abbrev pub pure : {A : Type 0} → A → Alloc l A
  pure x h = (x, h)

  infixl 5 ◌>>=◌ ◌>>◌
  abbrev pub ◌>>=◌ : {A B : Type 0} → Alloc l A → (A → Alloc l B) → Alloc l B
  ◌>>=◌ m f h = f (m h).0 (m h).1

  abbrev pub ◌>>◌ : {B : Type 0} → Alloc l (Unit {0}) → Alloc l B → Alloc l B
  m >> k = m >>= λ _. k

  abbrev pub update : (ℕ → Cell l) → ℕ → Cell l → ℕ → Cell l
  update f p c a = if p == a then c else f a

  pub update_same : (f : ℕ → Cell l) (p : ℕ) (c : Cell l) → update f p c p ≡ c
  update_same f p c = ground arith

  pub update_other : (f : ℕ → Cell l) (p : ℕ) (c : Cell l) (a : ℕ) → p < a → update f p c a ≡ f a
  update_other f p c a h = ground arith

  -- `new` and `make`: a variable that nothing has been written to
  unfoldable pub reserve : Alloc l ℕ
  reserve h = (h.next, record h { next = suc h.next; cell = update h.cell h.next unused })

  unfoldable pub store : ℕ → Cell l → Alloc l (Unit {0})
  store p c h = (tt, record h { cell = update h.cell p c })

  unfoldable pub load : ℕ → Alloc l (Cell l)
  load p h = (h.cell p, h)

  -- Two memories that hold the same at the addresses from lo to hi.
  abbrev pub AgreeOn : ℕ → ℕ → Heap l → Heap l → Type 0
  AgreeOn lo hi h h' = (a : ℕ) → lo ≤ a → a < hi → h'.cell a ≡ h.cell a

  -- A later memory in which what was allocated is as it was.
  abbrev pub Extends : Heap l → Heap l → Type 0
  Extends h h' = (h.next ≤ h'.next) × AgreeOn 0 h.next h h'

  -- A value whose content only allocated variables decide.
  abbrev pub IsSettled : {T V : Type 0} → (Heap l → T → V) → Heap l → T → Type 0
  IsSettled read h x = (h' : Heap l) → Extends h h' → read h' x ≡ read h x
