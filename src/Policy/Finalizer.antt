-- ===== src/Policy/Finalizer.antt =====
-- Reconcile's branch for an AccessPolicy that is being deleted.
use garage_storage_controlle.Prelude.{
  ◌≡◌, Bool, true, false, arith, nonempty, Bool-cases, inl, inr, if◌then◌else◌,
}
use garage_storage_controlle.Errors.{is, resource_not_found}
use garage_storage_controlle.Exec.{ok, err, panic, Result, CtrlResult, no_requeue}
use garage_storage_controlle.S3.{no_permissions}
use garage_storage_controlle.Api.{AccessPolicy}
use garage_storage_controlle.Kube.{Libraries}
use garage_storage_controlle.Conditions.{finalizer_name}
use garage_storage_controlle.Policy.Types.{AccessPolicyReconciler}
use garage_storage_controlle.Policy.Reconciler.{finalize}

-- the policy without its finalizer
abbrev pub released : Libraries → AccessPolicy → AccessPolicy
released lib p = record p { meta = (lib.remove_finalizer p.meta finalizer_name).0 }

-- An answer to the withdrawal of permissions that lets the deletion go on: success, or that the key
-- or the bucket is no longer there.
abbrev pub tolerated : Result (Unit {0}) → Bool
tolerated (ok _) = true
tolerated (err e) = is e resource_not_found
tolerated panic = false

abbrev pub without_value : Result (Unit {0}) → Result CtrlResult
without_value (ok _) = ok no_requeue
without_value (err e) = err e
without_value panic = panic

-- the status names both a key and a bucket
abbrev pub IsAssigned : AccessPolicy → Type 0
IsAssigned p = (nonempty p.status.access_key_id ≡ true) × (nonempty p.status.bucket_id ≡ true)

module _ {S : Type 0} (lib : Libraries) (r : AccessPolicyReconciler S) (p : AccessPolicy) (w w' : S)
    (answer : Result (Unit {0})) (present : lib.contains_finalizer p.meta finalizer_name ≡ true)
    (assigned : IsAssigned p)
    (answered : r.admin_client.set_permissions p.status.access_key_id p.status.bucket_id
        no_permissions w
      ≡ (answer, w')) where
  pub finalize_blocked :
      tolerated answer ≡ false
      → finalize lib r (record { object = p; world = w })
        ≡ (without_value answer, record { object = p; world = w' })
  unfolding finalize
  finalize_blocked refused = ground arith

  pub finalize_releases :
      tolerated answer ≡ true
      → let (updated, w'') = r.client.update_access_policy (released lib p) w' in
        finalize lib r (record { object = p; world = w })
        ≡ (without_value updated, record { object = released lib p; world = w'' })
  unfolding finalize
  finalize_releases tolerable = ground arith

  -- A policy with a finalizer, a key and a bucket is being deleted: if Garage takes all permissions
  -- back, or says that the key or the bucket is gone, the policy is updated without the finalizer,
  -- and the outcome of that one update is the result; otherwise Garage's error is the result, the
  -- policy keeps its finalizer, and nothing else is called.
  pub finalize_policy_answers :
      let (updated, w'') = r.client.update_access_policy (released lib p) w' in
      finalize lib r (record { object = p; world = w }) ≡ (
        if tolerated answer
        then (without_value updated, record { object = released lib p; world = w'' })
        else (without_value answer, record { object = p; world = w' }))
  finalize_policy_answers = elim (Bool-cases (tolerated answer)) [
    | inl tolerable ↦ ground (arith, finalize_releases tolerable)
    | inr refused ↦ ground (arith, finalize_blocked refused)
  ]
