-- ===== src/Health/Transitions.antt =====
-- What the heartbeat records and logs.
use garage_storage_controlle.Prelude.{
  ◌≡◌, refl, ap, Bool, true, false, Option, none, some, List, [], ◌∷◌, map,
}
use garage_storage_controlle.Errors.{Err}
use garage_storage_controlle.Health.{
  Event, recorded, reachable, unreachable, is_up, transition, rounds, run,
}

-- the values given to `record`, in order
unfoldable pub records : List Event → List Bool
records [] = []
records (recorded b ∷ es) = b ∷ records es
records (reachable ∷ es) = records es
records (unreachable _ ∷ es) = records es

-- What a reader of the log lines alone believes, from what was believed before: `none` if a line
-- says what was believed already.
unfoldable pub believed : Bool → List Event → Option Bool
believed b [] = some b
believed b (recorded _ ∷ es) = believed b es
believed true (reachable ∷ es) = none
believed false (reachable ∷ es) = believed true es
believed true (unreachable _ ∷ es) = believed false es
believed false (unreachable _ ∷ es) = none

-- whether the last probe succeeded
abbrev pub last_state : Bool → List (Option Err) → Bool
last_state b [] = b
last_state b (e ∷ es) = last_state (is_up e) es

records-rounds : (b : Bool) (es : List (Option Err)) → records (rounds b es) ≡ map is_up es
unfolding rounds transition records
records-rounds b [] = refl
records-rounds true (none ∷ es) = ap (λ x. true ∷ x) (records-rounds true es)
records-rounds false (none ∷ es) = ap (λ x. true ∷ x) (records-rounds true es)
records-rounds true (some e ∷ es) = ap (λ x. false ∷ x) (records-rounds false es)
records-rounds false (some e ∷ es) = ap (λ x. false ∷ x) (records-rounds false es)

believed-rounds :
    (b : Bool) (es : List (Option Err)) → believed b (rounds b es) ≡ some (last_state b es)
unfolding rounds transition believed
believed-rounds b [] = refl
believed-rounds true (none ∷ es) = believed-rounds true es
believed-rounds false (none ∷ es) = believed-rounds true es
believed-rounds true (some e ∷ es) = believed-rounds false es
believed-rounds false (some e ∷ es) = believed-rounds false es

-- The heartbeat records the answer of every probe, in order, and its log lines are transitions: from
-- "reachable" on, no line repeats what the lines before it said, and after any number of probes
-- they say whether the last one succeeded.
pub run_lem :
    (es : List (Option Err))
    → (records (run es) ≡ map is_up es) × (believed true (run es) ≡ some (last_state true es))
unfolding run
run_lem es = (records-rounds true es, believed-rounds true es)
