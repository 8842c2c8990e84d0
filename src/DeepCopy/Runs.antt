-- ===== src/DeepCopy/Runs.antt =====
-- What a program does to memory between two moments, as the writes and allocations in order.
use garage_storage_controlle.Prelude.{ℕ, ◌≤◌, ◌<◌, ◌⊎◌, inl, inr, refl, ◌∙◌, arith}
use garage_storage_controlle.DeepCopy.Types.{Layout, Cell}
use garage_storage_controlle.DeepCopy.Memory.{Heap, AgreeOn, reserve, store}

-- Writes to any variables but those with addresses from lo to hi, and allocations beyond hi.
pub data Run {l : Layout} (lo hi : ℕ) : Heap l → Heap l → Type 0 where
  done : (h : Heap l) → Run lo hi h h
  write :
      (h k : Heap l) (p : ℕ) (c : Cell l)
      → ((p < lo) ⊎ (hi ≤ p))
      → Run lo hi (store p c h).1 k
      → Run lo hi h k
  allocate : (h k : Heap l) → hi ≤ h.next → Run lo hi (reserve h).1 k → Run lo hi h k

module _ {l : Layout} (lo hi : ℕ) where
  store-AgreeOn :
      (h : Heap l) (p : ℕ) (c : Cell l) → ((p < lo) ⊎ (hi ≤ p)) → AgreeOn lo hi h (store p c h).1
  unfolding store
  store-AgreeOn h p c (inl below) a from to = ground (arith, below, from)
  store-AgreeOn h p c (inr beyond) a from to = ground (arith, beyond, to)

  reserve-AgreeOn : (h : Heap l) → hi ≤ h.next → AgreeOn lo hi h (reserve h).1
  unfolding reserve
  reserve-AgreeOn h beyond a from to = ground (arith, beyond, to)

  pub Run-AgreeOn : (h k : Heap l) → Run lo hi h k → AgreeOn lo hi h k
  Run-AgreeOn h k (done _) a from to = refl
  Run-AgreeOn h k (write _ _ p c outside rest) a from to =
      Run-AgreeOn (store p c h).1 k rest a from to ∙ store-AgreeOn h p c outside a from to
  Run-AgreeOn h k (allocate _ _ beyond rest) a from to =
      Run-AgreeOn (reserve h).1 k rest a from to ∙ reserve-AgreeOn h beyond a from to

  pub Run-next : (h k : Heap l) → Run lo hi h k → h.next ≤ k.next
  unfolding store reserve
  Run-next h k (done _) = omega arith
  Run-next h k (write _ _ p c outside rest) = Run-next (store p c h).1 k rest
  Run-next h k (allocate _ _ beyond rest) =
      let rest_next = Run-next (reserve h).1 k rest in omega (arith, rest_next)
