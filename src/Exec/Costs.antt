-- ===== src/Exec/Costs.antt =====
-- How many calls a part of the program makes at most, by a clock that each call moves by one.
use garage_storage_controlle.Prelude.{ℕ, ◌+◌, ◌≤◌, arith}
use garage_storage_controlle.Exec.{Result, ok, err, panic, Exec, ◌>>=◌, attempt}

module _ {S : Type 0} (clock : S → ℕ) where
  -- However it ends, it moves the clock by n at most.
  abbrev pub IsWithin : {A : Type 0} → ℕ → Exec S A → Type 0
  IsWithin n m = (s : S) → clock (m s).1 ≤ n + clock s

  pub bind-IsWithin :
      {A B : Type 0} (i j : ℕ) (m : Exec S A) (f : A → Exec S B)
      → IsWithin i m
      → ((a : A) → IsWithin j (f a))
      → IsWithin (i + j) (m >>= f)
  bind-IsWithin {A} {B} i j m f h k s = after (m s) (h s)
    where
      after :
          (x : Result A × S)
          → clock x.1 ≤ i + clock s
          → clock (((λ _. x) >>= f) s).1 ≤ i + j + clock s
      after (ok a, t) g = let rest = k a t in omega (arith, rest, g)
      after (err e, t) g = omega (arith, g)
      after (panic, t) g = omega (arith, g)

  pub attempt-IsWithin : {A : Type 0} (n : ℕ) (m : Exec S A) → IsWithin n m → IsWithin n (attempt m)
  attempt-IsWithin {A} n m h s = after (m s) (h s)
    where
      after :
          (x : Result A × S)
          → clock x.1 ≤ n + clock s
          → clock (attempt {S = S} (λ _. x) s).1 ≤ n + clock s
      after (ok a, t) g = g
      after (err e, t) g = g
      after (panic, t) g = g
