-- ===== src/Policy/Ready.antt =====
-- The conditions that reconcilePolicy leaves, and the Ready condition that is drawn from them.
use garage_storage_controlle.Prelude.{String, ◌≡◌, true, List, [], ◌∷◌, arith, is_some}
use garage_storage_controlle.Exec.{Exec, bind-keeps, ◌>>=◌, Run, Outcome, returned, failed}
use garage_storage_controlle.Api.{Bucket, AccessKey, AccessPolicy}
use garage_storage_controlle.Kube.{Libraries}
use garage_storage_controlle.Kube.Laws.{ConditionLaws}
use garage_storage_controlle.Conditions.{ready, mark_not_ready}
use garage_storage_controlle.Conditions.Laws.{HasConditions, set-HasConditions, init-HasConditions}
use garage_storage_controlle.Policy.Conditions.{
  policy_assignment_ready, policy_bucket_ready, policy_access_key_ready,
  initialize_policy_conditions, update_access_policy_condition, mark_policy_condition_not_ready,
  mark_policy_key_ready, mark_policy_bucket_ready, mark_policy_assignment_ready,
}
use garage_storage_controlle.Policy.Types.{AccessPolicyReconciler}
use garage_storage_controlle.Policy.Assign.{
  examine_bucket, examine_access_key, conclude, reconcile_policy,
}

abbrev policy_types : List String
policy_types = policy_access_key_ready ∷ policy_bucket_ready ∷ policy_assignment_ready ∷ []

abbrev pub IsInitialized : Libraries → AccessPolicy → Type 0
IsInitialized lib p = HasConditions lib policy_types p.status.conditions

module _ {S : Type 0} {lib : Libraries} (laws : ConditionLaws lib)
    (r : AccessPolicyReconciler S) where
  abbrev Keeps : {A : Type 0} → Exec (Run AccessPolicy S) A → Type 0
  Keeps m = (s : Run AccessPolicy S) → IsInitialized lib s.object → IsInitialized lib (m s).1.object

  examine_bucket-IsInitialized : Keeps (examine_bucket lib r)
  unfolding examine_bucket mark_policy_condition_not_ready mark_policy_bucket_ready mark_not_ready
  examine_bucket-IsInitialized s h = grind (arith, set-HasConditions laws policy_types)

  examine_access_key-IsInitialized : Keeps (examine_access_key lib r)
  unfolding examine_access_key mark_policy_condition_not_ready mark_policy_key_ready mark_not_ready
  examine_access_key-IsInitialized s h = grind (arith, set-HasConditions laws policy_types)

  conclude-IsInitialized : (b : Outcome Bucket) (k : Outcome AccessKey) → Keeps (conclude lib r b k)
  unfolding conclude mark_policy_condition_not_ready mark_policy_assignment_ready mark_not_ready
  conclude-IsInitialized (failed e) (failed f) s h = h
  conclude-IsInitialized (failed e) (returned _) s h = h
  conclude-IsInitialized (returned _) (failed f) s h = h
  conclude-IsInitialized (returned b) (returned k) s h =
      grind (arith, set-HasConditions laws policy_types)

  reconcile_policy-IsInitialized : Keeps (reconcile_policy lib r)
  unfolding reconcile_policy
  reconcile_policy-IsInitialized s h =
      bind-keeps (λ t. IsInitialized lib t.object) (examine_bucket lib r)
        (λ b. examine_access_key lib r >>= conclude lib r b) s (examine_bucket-IsInitialized s h)
        λ b t g.
          bind-keeps (λ u. IsInitialized lib u.object) (examine_access_key lib r) (conclude lib r b)
            t (examine_access_key-IsInitialized t g) (conclude-IsInitialized b)

  initialize-IsInitialized :
      (p : AccessPolicy) → IsInitialized lib (initialize_policy_conditions lib p)
  unfolding initialize_policy_conditions
  initialize-IsInitialized p =
      (init-HasConditions laws (ready ∷ policy_types) p.status.conditions).1

  update-is_some :
      (p : AccessPolicy)
      → IsInitialized lib p
      → is_some (update_access_policy_condition lib p) ≡ true
  unfolding update_access_policy_condition
  update-is_some p h = grind arith

  -- Once the conditions are initialized, no way through reconcilePolicy leaves the policy so that
  -- updateAccessPolicyCondition follows a nil pointer.
  pub update-reconcile_policy :
      (p : AccessPolicy) (w : S)
      → is_some (
          update_access_policy_condition lib
            (reconcile_policy lib r
              (record { object = initialize_policy_conditions lib p; world = w })).1.object)
        ≡ true
  update-reconcile_policy p w =
      let s : Run AccessPolicy S = record {
        object = initialize_policy_conditions lib p;
        world = w;
      } in
      update-is_some (reconcile_policy lib r s).1.object
        (reconcile_policy-IsInitialized s (initialize-IsInitialized p))
