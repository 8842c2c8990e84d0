-- ===== src/Conditions/Claims.antt =====
-- Which conditions are True, and that initializing conditions makes none True.
use garage_storage_controlle.Prelude.{
  String, ◌≡◌, ◌∙◌, refl, eq_iff, Bool, false, none, some, List, [], ◌∷◌, arith, Option-cases, inl,
  inr,
}
use garage_storage_controlle.Api.{Condition, is_true}
use garage_storage_controlle.Kube.{Libraries}
use garage_storage_controlle.Kube.Laws.{ConditionLaws}
use garage_storage_controlle.Conditions.{init_condition, init_resource_conditions, pending}

-- the condition is there and True
abbrev pub claims : Libraries → String → List Condition → Bool
claims lib t cs = elim (lib.find_status_condition cs t) [ none ↦ false | some c ↦ is_true c.status ]

module _ {lib : Libraries} (laws : ConditionLaws lib) where
  claims-init_condition :
      (t u : String) (cs : List Condition)
      → claims lib u (init_condition lib t cs) ≡ claims lib u cs
  unfolding init_condition
  claims-init_condition t u cs = elim (Option-cases (lib.find_status_condition cs t)) [
    | inl e ↦
        ground
          (arith, laws.find_set cs (pending t) u, laws.stored_status cs (pending t), eq_iff t u)
    | inr (c, e) ↦ ground arith
  ]

  pub claims-init_resource_conditions :
      (u : String) (ts : List String) (cs : List Condition)
      → claims lib u (init_resource_conditions lib ts cs) ≡ claims lib u cs
  unfolding init_resource_conditions
  claims-init_resource_conditions u [] cs = refl
  claims-init_resource_conditions u (t ∷ ts) cs =
      claims-init_resource_conditions u ts (init_condition lib t cs) ∙ claims-init_condition t u cs
