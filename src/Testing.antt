-- ===== src/Testing.antt =====
-- The helpers of the tests against a running Garage: internal/tests/garageinit.go,
-- internal/tests/fixture/fixture.go and internal/garage/integrationtests/integrationtests.go.
pub mod Layouts
use garage_storage_controlle.Prelude.{
  ℕ, zero, suc, ◌+◌, String, ◌++◌, Option, none, some, List, [], ◌∷◌, ltb, if◌then◌else◌,
}
use garage_storage_controlle.Errors.{Err, plain, wrap}
use garage_storage_controlle.Exec.{
  Result, ok, err, panic, Exec, pure, fail, ◌>>=◌, ◌>>◌, Outcome, returned, failed, attempt,
}

-- What a command prints comes back beside its error, as in Go.
pub record Output : Type 0 where
  pub stdout : String
  pub error : Option Err

-- type ExecFunc
abbrev pub ExecFunc : Type 0 → Type 0
ExecFunc S = List String → Exec S Output

abbrev pub node_id_command : List String
node_id_command = "/garage" ∷ "node" ∷ "id" ∷ "--quiet" ∷ []

abbrev pub assign_command : String → List String
assign_command node_id =
    "/garage" ∷ "layout" ∷ "assign" ∷ "-z" ∷ "testenv" ∷ "-c" ∷ "100M" ∷ node_id ∷ []

abbrev pub apply_command : List String
apply_command = "/garage" ∷ "layout" ∷ "apply" ∷ "--version" ∷ "1" ∷ []

module _ {S : Type 0} where
  -- s[0] of a slice of strings
  abbrev pub first_of : List String → Exec S String
  first_of [] w = (panic, w)
  first_of (s ∷ _) w = (ok s, w)

  -- `if err != nil { return fmt.Errorf(...) }` after each of the three commands
  unfoldable pub applied_layout : Output → Exec S (Unit {0})
  applied_layout applied = elim applied.error [
    | some e ↦ fail (wrap "apply layout: " e (": " ++ applied.stdout))
    | none ↦ pure tt
  ]

  unfoldable pub assigned_layout : ExecFunc S → Output → Exec S (Unit {0})
  unfolding applied_layout
  assigned_layout exec assigned = elim assigned.error [
    | some e ↦ fail (wrap "assign layout: " e (" output: " ++ assigned.stdout))
    | none ↦ exec apply_command >>= applied_layout
  ]

  -- `split` is strings.Split.
  unfoldable pub identified_node :
      (String → String → List String) → ExecFunc S → Output → Exec S (Unit {0})
  unfolding assigned_layout
  identified_node split exec printed = elim printed.error [
    | some e ↦ fail (wrap "obtaining node ID: " e "")
    | none ↦ do
      node_id ← first_of (split printed.stdout "@")
      assigned ← exec (assign_command node_id)
      assigned_layout exec assigned
  ]

  unfoldable pub init_garage_layout :
      (String → String → List String) → ExecFunc S → Exec S (Unit {0})
  unfolding identified_node
  init_garage_layout split exec = exec node_id_command >>= identified_node split exec

  -- RandAlpha: each byte is 'a' and what rand.Intn(26) gives
  unfoldable pub rand_alpha : (ℕ → Exec S ℕ) → ℕ → Exec S (List ℕ)
  rand_alpha intn zero = pure []
  rand_alpha intn (suc length) = do
    offset ← intn 26
    rest ← rand_alpha intn length
    pure ((97 + offset) ∷ rest)

-- testcontainers-go and docker's stdcopy, crypto/rand and strings.TrimSpace; `show` is `%v`.
pub record Containers (S Container Reader : Type 0) : Type 0 where
  pub exec : Container → List String → Exec S (ℕ × Reader)
  pub std_copy : Reader → Result (String × String)
  pub trim_space : String → String
  pub rand_read : ℕ → Exec S (List ℕ)
  pub decimal : ℕ → String
  pub show : List String → String

module _ {S Container Reader : Type 0} (lib : Containers S Container Reader) where
  -- containerCmd; what is printed is kept beside the error of a command that failed, and exit codes
  -- are not negative
  unfoldable pub container_cmd : Container → ExecFunc S
  container_cmd c args = do
    ran ← attempt (lib.exec c args)
    elim ran [
      | failed e ↦
          pure (record { stdout = ""; error = some (wrap "execute container command: " e "") })
      | returned (code, reader) ↦ elim (lib.std_copy reader) [
        | panic ↦ λ w. (panic, w)
        | err e ↦ pure (record { stdout = ""; error = some (wrap "reading exec output: " e "") })
        | ok (stdout, stderr) ↦
            if ltb 0 code
            then pure (record {
              stdout = stdout;
              error = some (
                  plain (
                    "container exec: expected exit 0, got "
                    ++ (lib.decimal code ++ ("; command: " ++ lib.show args))));
            })
            else pure (record { stdout = lib.trim_space stdout; error = none })
      ]
    ]

  -- GenerateRandomString; log.Fatal ends the process, as a panic does here
  unfoldable pub generate_random_string : (List ℕ → String) → Exec S String
  generate_random_string encode = do
    read ← attempt (lib.rand_read 32)
    elim read [ failed _ ↦ λ w. (panic, w) | returned bytes ↦ pure (encode bytes) ]
