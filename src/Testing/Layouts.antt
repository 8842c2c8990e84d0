-- ===== src/Testing/Layouts.antt =====
-- When the layout is set up, and what random names are made of.
use garage_storage_controlle.Prelude.{
  ℕ, zero, suc, ◌+◌, ◌≤◌, ◌<◌, String, ◌≡◌, ap, ◌∙◌, refl, inl, inr, Option-cases, none, List, [],
  ◌∷◌, arith,
}
use garage_storage_controlle.Exec.{◌>>=◌, pure, ok, err, panic, Exec, bind-eq-ok}
use garage_storage_controlle.Testing.{
  applied_layout, assigned_layout, identified_node, Output, ExecFunc, node_id_command,
  assign_command, apply_command, init_garage_layout, rand_alpha,
}
use mathlib.Core.Path.{subst}

module _ {S : Type 0} (split : String → String → List String) (exec : ExecFunc S) where
  applied_ran :
      (o : Output) (w t : S) → applied_layout o w ≡ (ok tt, t) → (o.error ≡ none) × (w ≡ t)
  unfolding applied_layout
  applied_ran o w t h = elim (Option-cases o.error) [
    | inl quiet ↦ (quiet, ground arith)
    | inr (e, printed) ↦ absurd (ground arith)
  ]

  assigned_ran :
      (o : Output) (w t : S)
      → assigned_layout exec o w ≡ (ok tt, t)
      → (o.error ≡ none) × ((exec apply_command >>= applied_layout) w ≡ (ok tt, t))
  unfolding assigned_layout
  assigned_ran o w t h = elim (Option-cases o.error) [
    | inl quiet ↦ (quiet, ground arith)
    | inr (e, printed) ↦ absurd (ground arith)
  ]

  identified_parts :
      (o : Output) (w t : S)
      → identified_node split exec o w ≡ (ok tt, t)
      → o.error ≡ none
      → (parts : List String) → split o.stdout "@" ≡ parts
      → (node_id : String) × (rest : List String) × (split o.stdout "@" ≡ node_id ∷ rest)
        × ((exec (assign_command node_id) >>= assigned_layout exec) w ≡ (ok tt, t))
  unfolding identified_node
  identified_parts o w t h quiet [] e = absurd (ground (arith, e))
  identified_parts o w t h quiet (node_id ∷ rest) e = (node_id, rest, e, ground (arith, e))

  identified_ran :
      (o : Output) (w t : S)
      → identified_node split exec o w ≡ (ok tt, t)
      → (o.error ≡ none)
        × (node_id : String) × (rest : List String) × (split o.stdout "@" ≡ node_id ∷ rest)
        × ((exec (assign_command node_id) >>= assigned_layout exec) w ≡ (ok tt, t))
  unfolding identified_node
  identified_ran o w t h = elim (Option-cases o.error) [
    | inl quiet ↦
        let (node_id, rest, parts, assigning) =
          identified_parts o w t h quiet (split o.stdout "@") refl in
        (quiet, node_id, rest, parts, assigning)
    | inr (e, printed) ↦ absurd (ground arith)
  ]

  -- Where the layout is set up without an error, the three commands ran in order and without one,
  -- and the layout was assigned to the first part of what the first of them printed.
  pub init_garage_layout_ran :
      (w t : S)
      → init_garage_layout split exec w ≡ (ok tt, t)
      → (id assigned applied : Output) × (node_id : String) × (rest : List String) × (w₁ w₂ : S)
        × (exec node_id_command w ≡ (ok id, w₁))
        × (id.error ≡ none)
        × (split id.stdout "@" ≡ node_id ∷ rest)
        × (exec (assign_command node_id) w₁ ≡ (ok assigned, w₂))
        × (assigned.error ≡ none)
        × (exec apply_command w₂ ≡ (ok applied, t))
        × (applied.error ≡ none)
  unfolding init_garage_layout
  init_garage_layout_ran w t h =
      let (id, w₁, identified, after_id) =
        bind-eq-ok (exec node_id_command) (identified_node split exec) w t tt h in
      let (id_quiet, node_id, rest, parts, assigning) = identified_ran id w₁ t after_id in
      let (assigned, w₂, assignment, after_assignment) =
        bind-eq-ok (exec (assign_command node_id)) (assigned_layout exec) w₁ t tt assigning in
      let (assigned_quiet, applying) = assigned_ran assigned w₂ t after_assignment in
      let (applied, w₃, application, after_application) =
        bind-eq-ok (exec apply_command) applied_layout w₂ t tt applying in
      let (applied_quiet, same) = applied_ran applied w₃ t after_application in
      (
        id,
        assigned,
        applied,
        node_id,
        rest,
        w₁,
        w₂,
        identified,
        id_quiet,
        parts,
        assignment,
        assigned_quiet,
        application ∙ ap (λ v. (ok applied, v)) same,
        applied_quiet,
      )

-- every byte is a lowercase letter
abbrev pub AreLetters : List ℕ → Type 0
AreLetters [] = Unit
AreLetters (b ∷ bs) = (97 ≤ b) × (b ≤ 122) × AreLetters bs

abbrev length : List ℕ → ℕ
length [] = 0
length (b ∷ bs) = suc (length bs)

-- With a random source whose numbers are below the bound that it is given, a random name has the
-- length that was asked for, and letters from a to z alone.
pub rand_alpha-AreLetters :
    {S : Type 0} (intn : ℕ → Exec S ℕ)
    → ((n i : ℕ) (w w' : S) → intn n w ≡ (ok i, w') → i < n)
    → (n : ℕ) (w w' : S) (bs : List ℕ) → rand_alpha intn n w ≡ (ok bs, w')
    → AreLetters bs × (length bs ≡ n)
unfolding rand_alpha
rand_alpha-AreLetters intn below zero w w' [] h = (tt, refl)
rand_alpha-AreLetters intn below zero w w' (b ∷ bs) h = absurd (ground arith)
rand_alpha-AreLetters intn below (suc n) w w' bs h =
    let (i, u, drawn, after) =
      bind-eq-ok (intn 26) (λ i. rand_alpha intn n >>= λ rest. pure ((97 + i) ∷ rest)) w w' bs h in
    let (rest, v, others, ended) =
      bind-eq-ok (rand_alpha intn n) (λ rest. pure ((97 + i) ∷ rest)) u w' bs after in
    let (letters, count) = rand_alpha-AreLetters intn below n u v rest others in
    let small = below 26 i w u drawn in
    subst (λ z. AreLetters z × (length z ≡ suc n))
      (ap (λ x. elim x.0 [ ok z ↦ z | err _ ↦ [] | panic ↦ [] ]) ended)
      ((omega arith, omega (arith, small), letters), ap suc count)
