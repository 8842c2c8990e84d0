-- ===== src/DeepCopy/Snapshots.antt =====
-- What the callers of DeepCopy rely on. The three Reconcile functions keep Status.DeepCopy() of the
-- object and compare the status with it at the end; the objects read from a cache are copied before
-- they are changed.
use garage_storage_controlle.Prelude.{arith, ℕ, ◌≡◌, ◌∙◌, Option}
use garage_storage_controlle.DeepCopy.Types.{Layout}
use garage_storage_controlle.DeepCopy.Memory.{Heap, IsSettled}
use garage_storage_controlle.DeepCopy.Library.{Machinery, IsDeep}
use garage_storage_controlle.DeepCopy.Kinds.{Kind, deep_copy, says, deep_copy-IsCopier}
use garage_storage_controlle.DeepCopy.Runs.{Run, Run-AgreeOn, Run-next}

module _ {l : Layout} (m : Machinery l) (deep : IsDeep m) (kind : Kind) (p : Option ℕ)
    (h k : Heap l) (settled : IsSettled (says m kind) h p) where
  snapshot :
      Run h.next (deep_copy m kind p h).1.next (deep_copy m kind p h).1 k
      → says m kind k (deep_copy m kind p h).0 ≡ says m kind h p
  snapshot run =
      let c = deep_copy-IsCopier m deep kind p h in
      c.owns k (Run-AgreeOn _ _ _ k run) ∙ c.reads settled

  original_kept : Run 0 h.next (deep_copy m kind p h).1 k → says m kind k p ≡ says m kind h p
  original_kept run =
      let c = deep_copy-IsCopier m deep kind p h in
      let grown = Run-next 0 h.next _ k run in
      let kept = Run-AgreeOn 0 h.next _ k run in
      settled k (omega (arith, c.grows, grown), λ a from to. kept a from to ∙ c.keeps a from to)

module _ {l : Layout} (m : Machinery l) (deep : IsDeep m) where
  -- DeepCopy of each of the fourteen types, on a pointer whose content is allocated, with the deep
  -- copies of apimachinery as documented. Whatever is written afterwards to other variables than
  -- those of the copy, the original's among them, and whatever is allocated, the copy says what the
  -- original said when it was made; and whatever is written to the copy, and to variables that are
  -- allocated after it, the original says what it said before.
  pub deep_copy_independent :
      (kind : Kind) (p : Option ℕ) (h k k' : Heap l)
      → IsSettled (says m kind) h p
      → Run h.next (deep_copy m kind p h).1.next (deep_copy m kind p h).1 k
      → Run 0 h.next (deep_copy m kind p h).1 k'
      → (says m kind k (deep_copy m kind p h).0 ≡ says m kind h p)
        × (says m kind k' p ≡ says m kind h p)
  deep_copy_independent kind p h k k' settled run run' =
      (snapshot m deep kind p h k settled run, original_kept m deep kind p h k' settled run')
