-- ===== src/Startup/Process.antt =====
-- The steps of `main`: each has a state, and goes on, ends the process or panics.
use garage_storage_controlle.Prelude.{String, List}
use garage_storage_controlle.Exec.{ok, err, panic, Exec}
use garage_storage_controlle.Kube.Manager.{Exit, continues, exits, crashes, Logger, LogValue}

abbrev pub Process : Type 0 → Type 0 → Type 0
Process S A = S → Exit A × S

module _ {S A : Type 0} where
  abbrev pub go_on : A → Process S A
  go_on a w = (continues a, w)

  -- a call without an error
  abbrev pub call : (S → A × S) → Process S A
  call f w = let (a, w') = f w in (continues a, w')

infixl 5 ◌>>=◌ ◌>>◌
abbrev pub ◌>>=◌ : {S A B : Type 0} → Process S A → (A → Process S B) → Process S B
◌>>=◌ m f w =
    let (r, w') = m w in
    elim r [ continues a ↦ f a w' | exits code ↦ (exits code, w') | crashes ↦ (crashes, w') ]

abbrev pub ◌>>◌ : {S A B : Type 0} → Process S A → Process S B → Process S B
m >> k = m >>= λ _. k

abbrev pub write : {S : Type 0} → (S → S) → Process S (Unit {0})
write f w = (continues tt, f w)

-- `if err := m(); err != nil { setupLog.Error(err, message, pairs...); os.Exit(1) }`
unfoldable pub or_exit :
    {S A : Type 0} → Logger S → String → List (String × LogValue) → Exec S A → Process S A
or_exit setup_log message pairs m w =
    let (r, w') = m w in
    elim r [
      | ok a ↦ (continues a, w')
      | err e ↦ (exits 1, setup_log.error e message pairs w')
      | panic ↦ (crashes, w')
    ]

-- a call that has no error to look at
abbrev pub unchecked : {S : Type 0} → Exec S (Unit {0}) → Process S (Unit {0})
unchecked m w =
    let (r, w') = m w in
    elim r [ ok _ ↦ (continues tt, w') | err _ ↦ (continues tt, w') | panic ↦ (crashes, w') ]
