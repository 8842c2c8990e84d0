-- ===== src/Exec.antt =====
-- Go calls with effects: a state goes in and comes back, beside a value, an error or a panic. What
-- was done before an error stays done.
pub mod Costs
use garage_storage_controlle.Prelude.{◌≡◌, refl, ap, ℕ, ◌*◌, ℤ, pos, Option, none, some}
use garage_storage_controlle.Errors.{Err}

pub data Result {ℓ} (A : Type ℓ) : Type ℓ where
  ok : A → Result A
  err : Err → Result A
  panic : Result A

abbrev pub Exec {ℓ} : Type ℓ → Type ℓ → Type ℓ
Exec S A = S → Result A × S

module _ {ℓ} {S A : Type ℓ} where
  abbrev pub pure : A → Exec S A
  pure a s = (ok a, s)

  abbrev pub fail : Err → Exec S A
  fail e s = (err e, s)

  -- a nil pointer that is not nil goes on, and a nil one panics
  abbrev pub deref : Option A → Exec S A
  deref none s = (panic, s)
  deref (some a) s = (ok a, s)

infixl 5 ◌>>=◌ ◌>>◌
abbrev pub ◌>>=◌ {ℓ} : {S A B : Type ℓ} → Exec S A → (A → Exec S B) → Exec S B
◌>>=◌ m f s =
    let (r, s') = m s in elim r [ ok a ↦ f a s' | err e ↦ (err e, s') | panic ↦ (panic, s') ]

abbrev pub ◌>>◌ {ℓ} : {S A B : Type ℓ} → Exec S A → Exec S B → Exec S B
m >> k = m >>= λ _. k

-- `v, err := m()`, where the code goes on and looks at `err`.
pub data Outcome {ℓ} (A : Type ℓ) : Type ℓ where
  returned : A → Outcome A
  failed : Err → Outcome A

abbrev pub attempt {ℓ} : {S A : Type ℓ} → Exec S A → Exec S (Outcome A)
attempt m s =
    let (r, s') = m s in
    elim r [ ok a ↦ (ok (returned a), s') | err e ↦ (ok (failed e), s') | panic ↦ (panic, s') ]

-- The object that a reconciler holds a pointer to, and the world outside.
pub record Run (O S : Type 0) : Type 0 where
  pub object : O
  pub world : S

module _ {O S : Type 0} where
  abbrev pub outside : {A : Type 0} → Exec S A → Exec (Run O S) A
  outside m s = let (r, w) = m s.world in (r, record s { world = w })

  abbrev pub the_object : Exec (Run O S) O
  the_object s = (ok s.object, s)

  abbrev pub modify : (O → O) → Exec (Run O S) (Unit {0})
  modify f s = (ok tt, record s { object = f s.object })

  abbrev pub tell : (S → S) → Exec (Run O S) (Unit {0})
  tell f s = (ok tt, record s { world = f s.world })

  abbrev pub run : {A : Type 0} → O → Exec (Run O S) A → Exec S A
  run o m w = let (r, s) = m (record { object = o; world = w }) in (r, s.world)

-- ctrl.Result; durations are nanoseconds.
pub record CtrlResult : Type 0 where
  pub requeue_after : ℤ

-- ctrl.Result{}
abbrev pub no_requeue : CtrlResult
no_requeue = record { requeue_after = pos 0 }

abbrev pub requeue_seconds : ℕ → CtrlResult
requeue_seconds n = record { requeue_after = pos (n * 1000000000) }

-- What the first part keeps, and the rest for each value that it returns, the whole keeps.
pub bind-keeps :
    {S A B : Type 0} (P : S → Type 0) (m : Exec S A) (f : A → Exec S B) (s : S)
    → P (m s).1
    → ((a : A) (t : S) → P t → P (f a t).1)
    → P ((m >>= f) s).1
bind-keeps {S} {A} {B} P m f s h k = after (m s) h
  where
    after : (x : Result A × S) → P x.1 → P (((λ _. x) >>= f) x.1).1
    after (ok a, t) g = k a t g
    after (err e, t) g = g
    after (panic, t) g = g

-- A call whose answer is known is followed by the rest.
pub bind-ok :
    {S A B : Type 0} (m : Exec S A) (f : A → Exec S B) {s t : S} {a : A}
    → m s ≡ (ok a, t)
    → (m >>= f) s ≡ f a t
bind-ok {S} {A} {B} m f {s} e = ap (λ (x : Result A × S). ((λ _. x) >>= f) s) e

pub attempt-keeps :
    {S A : Type 0} (P : S → Type 0) (m : Exec S A) (s : S) → P (m s).1 → P (attempt m s).1
attempt-keeps {S} {A} P m s h = after (m s) h
  where
    after : (x : Result A × S) → P x.1 → P (attempt (λ _. x) x.1).1
    after (ok a, t) g = g
    after (err e, t) g = g
    after (panic, t) g = g

-- A call that succeeds in two parts succeeds in each.
pub bind-eq-ok :
    {S A B : Type 0} (m : Exec S A) (f : A → Exec S B) (s t : S) (b : B)
    → (m >>= f) s ≡ (ok b, t)
    → (a : A) × (u : S) × (m s ≡ (ok a, u)) × (f a u ≡ (ok b, t))
bind-eq-ok {S} {A} {B} m f s t b h = after (m s) refl h
  where
    after :
        (x : Result A × S)
        → m s ≡ x
        → ((λ _. x) >>= f) s ≡ (ok b, t)
        → (a : A) × (u : S) × (m s ≡ (ok a, u)) × (f a u ≡ (ok b, t))
    after (ok a, u) e g = (a, u, e, g)
    after (err f, u) e g = cc
    after (panic, u) e g = cc
