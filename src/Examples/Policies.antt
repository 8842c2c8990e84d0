-- ===== src/Examples/Policies.antt =====
-- Runs of the access policy reconciler.
use garage_storage_controlle.Prelude.{false, ℕ, suc, ◌≡◌, refl, true, some, none, [], is_some}
use garage_storage_controlle.Errors.{Err, plain, is, dependency_not_ready}
use garage_storage_controlle.Exec.{requeue_seconds, Result, ok, err, failed}
use garage_storage_controlle.Api
use garage_storage_controlle.Api.{AccessPolicy, condition_true, condition_false}
use garage_storage_controlle.Conditions.{default_ready_reason}
use garage_storage_controlle.Policy.Conditions.{
  initialize_policy_conditions, update_access_policy_condition,
}
use garage_storage_controlle.Policy.Types.{AccessPolicyReconciler}
use garage_storage_controlle.Policy.Assign.{reconcile_policy}
use garage_storage_controlle.Policy.Reconciler.{classify, finalize}
use garage_storage_controlle.Policy.Ready.{update-reconcile_policy}
use garage_storage_controlle.Policy.Grant.{ShowsReady, reconcile_policy_grants}
use garage_storage_controlle.Policy.Waits.{reconcile_policy_waits}
use garage_storage_controlle.Policy.Finalizer.{finalize_policy_answers}
use garage_storage_controlle.Examples.Fixtures.{
  lib, condition_laws, not_found_laws, client, recorder, photos, reader, policy, granted_policy,
}

-- Garage takes every permission over
abbrev accepting : AccessPolicyReconciler ℕ
accepting = record {
  client = client;
  admin_client = record { set_permissions = λ _ _ _ w. (ok tt, suc w) };
  recorder = recorder;
}

abbrev outage : Err
outage = plain "connection refused"

abbrev refusing : AccessPolicyReconciler ℕ
refusing = record accepting {
  admin_client = record { set_permissions = λ _ _ _ w. (err outage, suc w) };
}

reconcile_policy_grants_example :
    (q q' : AccessPolicy) × (reconcile_policy lib accepting (record { object = policy; world = 0 })
      ≡ (ok tt, record { object = q; world = 3 }))
    × (update_access_policy_condition lib q ≡ some q')
    × ShowsReady lib q' condition_true default_ready_reason
    × (q'.status.observed_generation ≡ 3)
    × (q'.status.bucket_id ≡ "b1")
    × (q'.status.access_key_id ≡ "GK1")
reconcile_policy_grants_example =
    reconcile_policy_grants condition_laws accepting policy photos reader 0 1 2 3 refl refl refl
      refl refl

update-reconcile_policy_example :
    is_some (
      update_access_policy_condition lib
        (reconcile_policy lib refusing
          (record { object = initialize_policy_conditions lib policy; world = 0 })).1.object)
    ≡ true
update-reconcile_policy_example = update-reconcile_policy condition_laws refusing policy 0

-- a bucket that has no condition yet
abbrev new_photos : Api.Bucket
new_photos = record photos { status = record photos.status { conditions = [] } }

abbrev early : AccessPolicyReconciler ℕ
early = record accepting { client = record client { get_bucket = λ _ w. (ok new_photos, suc w) } }

reconcile_policy_waits_example :
    let (result, after) = reconcile_policy lib early (record { object = policy; world = 0 }) in
    (e : Err) × (result ≡ err e)
    × (is e dependency_not_ready ≡ true)
    × (lib.is_not_found e ≡ false)
    × (classify lib early (failed e) ≡ (requeue_seconds 10, none))
    × (after.world ≡ 2)
reconcile_policy_waits_example =
    reconcile_policy_waits not_found_laws early policy new_photos reader 0 1 2 refl refl refl

abbrev new_policy : AccessPolicy
new_policy = record policy { meta = record policy.meta { finalizers = [] } }

finalize_policy_answers_example :
    finalize lib refusing (record { object = granted_policy; world = 0 })
    ≡ (err outage, record { object = granted_policy; world = 1 })
unfolding is
finalize_policy_answers_example =
    finalize_policy_answers lib refusing granted_policy 0 1 (err outage) refl (refl, refl) refl

abbrev no_answer : Result (Unit {0})
no_answer = err outage
