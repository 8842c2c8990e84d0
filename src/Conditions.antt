-- ===== src/Conditions.antt =====
-- internal/controller/conditions.go: status conditions that all three resources share.
pub mod Laws
pub mod Claims
use garage_storage_controlle.Prelude.{ℕ, String, Option, none, some, List, [], ◌∷◌, pos}
use garage_storage_controlle.Api.{Condition, condition_false, condition_unknown}
use garage_storage_controlle.Kube.{Libraries}

abbrev pub ready : String
ready = "Ready"

abbrev pub finalizer_name : String
finalizer_name = "garage.getclustered.net/finalizer"

abbrev pub default_ready_reason : String
default_ready_reason = "Available"

abbrev pub default_ready_message : String
default_ready_message = "All conditions met"

-- the literal that the loop of initResourceConditions builds
abbrev pub pending : String → Condition
pending t = record {
  type = t;
  status = condition_unknown;
  observed_generation = 0;
  last_transition_time = pos 0;
  reason = "Pending";
  message = "Condition unknown";
}

-- the literal of markNotReady
abbrev pub not_ready_condition : ℕ → String → String → String → Condition
not_ready_condition generation cond_type reason message = record {
  type = cond_type;
  status = condition_false;
  observed_generation = generation;
  last_transition_time = pos 0;
  reason = reason;
  message = message;
}

module _ (lib : Libraries) where
  -- one round of that loop
  unfoldable pub init_condition : String → List Condition → List Condition
  init_condition t cs = elim (lib.find_status_condition cs t) [
    | none ↦ lib.set_status_condition cs (pending t)
    | some _ ↦ cs
  ]

  unfoldable pub init_resource_conditions : List String → List Condition → List Condition
  init_resource_conditions [] cs = cs
  init_resource_conditions (t ∷ ts) cs = init_resource_conditions ts (init_condition t cs)

  -- The object is needed for its generation, and the message comes formatted.
  unfoldable pub mark_not_ready : ℕ → List Condition → String → String → String → List Condition
  mark_not_ready generation cs cond_type reason message =
      lib.set_status_condition cs (not_ready_condition generation cond_type reason message)
