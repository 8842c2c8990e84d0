-- ===== src/Conditions/Laws.antt =====
-- What `init_resource_conditions` and the setters do to the conditions that are looked up, from the
-- documented behaviour of apimachinery's helpers.
use garage_storage_controlle.Prelude.{
  String, ◌≡◌, true, some, List, [], ◌∷◌, Option-cases, arith, is_some, eq_refl, eq_iff, inl, inr,
}
use garage_storage_controlle.Api.{Condition}
use garage_storage_controlle.Kube.{Libraries}
use garage_storage_controlle.Kube.Laws.{ConditionLaws}
use garage_storage_controlle.Conditions.{pending, init_condition, init_resource_conditions}

-- every type of the list has a condition
abbrev pub HasConditions : Libraries → List String → List Condition → Type 0
HasConditions lib [] cs = Unit
HasConditions lib (t ∷ ts) cs =
    (is_some (lib.find_status_condition cs t) ≡ true) × HasConditions lib ts cs

module _ {lib : Libraries} (laws : ConditionLaws lib) where
  -- A condition that is there stays there when another is set.
  pub is_some-set :
      (cs : List Condition) (c : Condition) (t : String)
      → is_some (lib.find_status_condition cs t) ≡ true
      → is_some (lib.find_status_condition (lib.set_status_condition cs c) t) ≡ true
  is_some-set cs c t h = ground (arith, laws.find_set cs c t)

  pub set-HasConditions :
      (ts : List String) (cs : List Condition) (c : Condition)
      → HasConditions lib ts cs
      → HasConditions lib ts (lib.set_status_condition cs c)
  set-HasConditions [] cs c h = tt
  set-HasConditions (t ∷ ts) cs c h = (is_some-set cs c t h.0, set-HasConditions ts cs c h.1)

  find-init_condition_kept :
      (t : String) (cs : List Condition) (u : String) (c : Condition)
      → lib.find_status_condition cs u ≡ some c
      → lib.find_status_condition (init_condition lib t cs) u ≡ some c
  unfolding init_condition
  find-init_condition_kept t cs u c h = ground (arith, laws.find_set cs (pending t) u, eq_iff t u)

  pub find-init_kept :
      (ts : List String) (cs : List Condition) (u : String) (c : Condition)
      → lib.find_status_condition cs u ≡ some c
      → lib.find_status_condition (init_resource_conditions lib ts cs) u ≡ some c
  unfolding init_resource_conditions
  find-init_kept [] cs u c h = h
  find-init_kept (t ∷ ts) cs u c h =
      find-init_kept ts (init_condition lib t cs) u c (find-init_condition_kept t cs u c h)

  is_some-init_condition :
      (t : String) (cs : List Condition)
      → is_some (lib.find_status_condition (init_condition lib t cs) t) ≡ true
  unfolding init_condition
  is_some-init_condition t cs = ground (arith, laws.find_set cs (pending t) t, eq_refl t)

  is_some-init_kept :
      (ts : List String) (cs : List Condition) (u : String)
      → is_some (lib.find_status_condition cs u) ≡ true
      → is_some (lib.find_status_condition (init_resource_conditions lib ts cs) u) ≡ true
  is_some-init_kept ts cs u h = elim (Option-cases (lib.find_status_condition cs u)) [
    | inl e ↦ ground arith
    | inr (c, e) ↦ ground (arith, find-init_kept ts cs u c e)
  ]

  pub init-HasConditions :
      (ts : List String) (cs : List Condition)
      → HasConditions lib ts (init_resource_conditions lib ts cs)
  unfolding init_resource_conditions
  init-HasConditions [] cs = tt
  init-HasConditions (t ∷ ts) cs = (
    is_some-init_kept ts (init_condition lib t cs) t (is_some-init_condition t cs),
    init-HasConditions ts (init_condition lib t cs),
  )
