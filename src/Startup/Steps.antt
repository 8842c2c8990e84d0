-- ===== src/Startup/Steps.antt =====
-- What the steps of `main` were answered where it went on after them, and where it ended the process.
use garage_storage_controlle.Prelude.{ℕ, String, ◌≡◌, refl, List, arith, ◌⊎◌, inl, inr}
use garage_storage_controlle.Errors.{Err}
use garage_storage_controlle.Exec.{Result, ok, err, panic, Exec}
use garage_storage_controlle.Kube.Manager.{Exit, continues, exits, crashes, Logger, LogValue}
use garage_storage_controlle.Startup.Process.{Process, ◌>>=◌, or_exit, unchecked}

-- Two steps that go on do so one after the other.
pub bind-continues :
    {S A B : Type 0} (m : Process S A) (f : A → Process S B) (w w' : S) (b : B)
    → (m >>= f) w ≡ (continues b, w')
    → (a : A) × (u : S) × (m w ≡ (continues a, u)) × (f a u ≡ (continues b, w'))
bind-continues {S} {A} {B} m f w w' b h = after (m w) refl h
  where
    after :
        (x : Exit A × S)
        → m w ≡ x
        → ((λ _. x) >>= f) w ≡ (continues b, w')
        → (a : A) × (u : S) × (m w ≡ (continues a, u)) × (f a u ≡ (continues b, w'))
    after (continues a, u) e g = (a, u, e, g)
    after (exits code, u) e g = cc
    after (crashes, u) e g = cc

module _ {S A : Type 0} (log : Logger S) (message : String) (pairs : List (String × LogValue))
    (m : Exec S A) (w : S) where
  -- a step whose error ends the process went on because there was none
  pub or_exit-continues :
      (a : A) (w' : S) → or_exit log message pairs m w ≡ (continues a, w') → m w ≡ (ok a, w')
  unfolding or_exit
  or_exit-continues a w' h = after (m w) refl h
    where
      after :
          (x : Result A × S)
          → m w ≡ x
          → or_exit log message pairs (λ _. x) w ≡ (continues a, w')
          → m w ≡ (ok a, w')
      after (ok b, u) e g = ground arith
      after (err f, u) e g = cc
      after (panic, u) e g = cc

-- Of two steps the first ends the process, or it goes on and the second does.
pub bind-exits :
    {S A B : Type 0} (m : Process S A) (f : A → Process S B) (w w' : S) (code : ℕ)
    → (m >>= f) w ≡ (exits code, w')
    → (m w ≡ (exits code, w'))
      ⊎ ((a : A) × (u : S) × (m w ≡ (continues a, u)) × (f a u ≡ (exits code, w')))
bind-exits {S} {A} {B} m f w w' code h = after (m w) refl h
  where
    after :
        (x : Exit A × S)
        → m w ≡ x
        → ((λ _. x) >>= f) w ≡ (exits code, w')
        → (m w ≡ (exits code, w'))
          ⊎ ((a : A) × (u : S) × (m w ≡ (continues a, u)) × (f a u ≡ (exits code, w')))
    after (continues a, u) e g = inr (a, u, e, g)
    after (exits d, u) e g = inl (ground arith)
    after (crashes, u) e g = cc

-- where the step ends the process, this holds of the code and of the state
abbrev pub ExitsBy : {S A : Type 0} → (ℕ → S → Type 0) → Process S A → Type 0
ExitsBy {S} P m = (w w' : S) (code : ℕ) → m w ≡ (exits code, w') → P code w'

module _ {S : Type 0} (P : ℕ → S → Type 0) where
  pub bind-ExitsBy :
      {A B : Type 0} (m : Process S A) (f : A → Process S B)
      → ExitsBy P m
      → ((a : A) → ExitsBy P (f a))
      → ExitsBy P (m >>= f)
  bind-ExitsBy m f first rest w w' code h = elim (bind-exits m f w w' code h) [
    | inl ended ↦ first w w' code ended
    | inr (a, u, _, ended) ↦ rest a u w' code ended
  ]

  pub unchecked-ExitsBy : (m : Exec S (Unit {0})) → ExitsBy P (unchecked m)
  unchecked-ExitsBy m w w' code h = after (m w) h
    where
      after : (x : Result (Unit {0}) × S) → unchecked (λ _. x) w ≡ (exits code, w') → P code w'
      after (ok b, u) g = cc
      after (err f, u) g = cc
      after (panic, u) g = cc

-- The process ends with code 1, right after a log line: the call had the error of that line, and left
-- the state in which the line is logged.
abbrev pub IsReported :
    {S A : Type 0} → Logger S → String → List (String × LogValue) → Exec S A → S → ℕ → S → Type 0
IsReported {S} log message pairs m w code w' =
    (code ≡ 1) × ((e : Err) × (v : S) × (m w ≡ (err e, v)) × (w' ≡ log.error e message pairs v))

pub reported :
    {S A : Type 0} (log : Logger S) (message : String) (pairs : List (String × LogValue))
    (m : Exec S A) (w w' : S) (code : ℕ)
    → or_exit log message pairs m w ≡ (exits code, w')
    → IsReported log message pairs m w code w'
unfolding or_exit
reported {S} {A} log message pairs m w w' code h = after (m w) refl h
  where
    after :
        (x : Result A × S)
        → m w ≡ x
        → or_exit log message pairs (λ _. x) w ≡ (exits code, w')
        → IsReported log message pairs m w code w'
    after (ok b, u) e g = cc
    after (err f, u) e g = (ground arith, (f, u, e, ground arith))
    after (panic, u) e g = cc
