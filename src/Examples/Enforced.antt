-- ===== src/Examples/Enforced.antt =====
-- A run of the policy reconciler against the server of Examples.Admin.
use garage_storage_controlle.Prelude.{String, ◌≡◌, refl, sym, ap, [], ◌∷◌, true, false}
use garage_storage_controlle.S3
use garage_storage_controlle.Exec.{Result, ok, no_requeue}
use garage_storage_controlle.Kube.{Client, EventRecorder}
use garage_storage_controlle.Garage.Grant.{PermissionLaws}
use garage_storage_controlle.Policy.Converged.{IsEnforced, reconcile_enforces}
use garage_storage_controlle.Policy.Reconciler.{reconcile, reconcile_status}
use garage_storage_controlle.Api.{AccessPolicy}
use garage_storage_controlle.Policy.Types.{
  ensure_labels, ensure_label, label_value, AccessPolicyReconciler, new_access_policy_reconciler,
}
use garage_storage_controlle.Policy.Assign.{
  examine_bucket, examine_access_key, conclude, reconcile_policy,
}
use garage_storage_controlle.Policy.Conditions.{
  mark_policy_key_ready, mark_policy_bucket_ready, mark_policy_assignment_ready,
  initialize_policy_conditions, update_access_policy_condition,
}
use garage_storage_controlle.Conditions.{finalizer_name, init_condition, init_resource_conditions}
use garage_storage_controlle.Errors.{is}
use garage_storage_controlle.Garage.Http.{do_request, send, record_result}
use garage_storage_controlle.Garage.Permissions.{
  permission_client, set_permissions, allow_bucket_key, deny_bucket_key,
}
use garage_storage_controlle.Examples.Fixtures.{lib, condition_laws, client_over, policy}
use garage_storage_controlle.Examples.Admin.{admin, owner_only}

abbrev against_admin : AccessPolicyReconciler S3.Permissions
against_admin =
    new_access_policy_reconciler (client_over (λ w. w)) (permission_client admin)
      (record { eventf = λ _ _ _ _ w. w })

abbrev reconciled_policy : AccessPolicy
reconciled_policy =
    (reconcile_policy lib against_admin (record { object = policy; world = owner_only })).1.object

-- the same policy with its labels in place, as the API server has it
abbrev labelled_policy : AccessPolicy
labelled_policy = record policy {
  meta = record policy.meta {
    labels =
        ("garage.getclustered.net/accesskey-name", "reader")
        ∷ ("garage.getclustered.net/bucket-name", "photos")
        ∷ [];
  };
}

abbrev api : Client S3.Permissions
api = record (client_over (λ w. w)) { get_access_policy = λ _ w. (ok labelled_policy, w) }

-- the server takes every pair of identifiers for its key and its bucket
granted_to_all : (key_id bucket_id : String) → PermissionLaws admin key_id bucket_id
unfolding do_request send record_result
granted_to_all key_id bucket_id = record {
  permissions = λ w. w;
  allow_grants = λ p w w' resp h s. sym (ap (λ x. x.1) h);
  deny_revokes = λ p w w' resp h s. sym (ap (λ x. x.1) h);
}

abbrev silent : EventRecorder S3.Permissions
silent = record { eventf = λ _ _ _ _ w. w }

status_kept :
    (key_id bucket_id : String) (q : AccessPolicy) (v v' : S3.Permissions) (x : Result (Unit {0}))
    → api.patch_access_policy_status q v ≡ (x, v')
    → (granted_to_all key_id bucket_id).permissions v'
      ≡ (granted_to_all key_id bucket_id).permissions v
unfolding granted_to_all
status_kept key_id bucket_id q v v' x h = sym (ap (λ y. y.1) h)

labels_in_place : (ensure_labels labelled_policy) ≡ (labelled_policy, false)
unfolding ensure_labels ensure_label label_value
labels_in_place = refl

reconciled_once :
    reconcile lib
      (new_access_policy_reconciler api (permission_client admin) silent)
      (record { namespace = "team"; name = "read-photos" })
      owner_only
    ≡ (ok no_requeue, record { owner = false; read = true; write = false })
unfolding reconcile ensure_labels ensure_label label_value reconcile_status reconcile_policy
    examine_bucket examine_access_key conclude set_permissions deny_bucket_key allow_bucket_key
    do_request send record_result mark_policy_key_ready mark_policy_bucket_ready
    initialize_policy_conditions update_access_policy_condition init_resource_conditions is
    mark_policy_assignment_ready init_condition
reconciled_once = refl

reconcile_enforces_example :
    IsEnforced condition_laws api admin silent granted_to_all
      (λ q v. refl)
      status_kept
      labelled_policy
      owner_only
      (record { owner = false; read = true; write = false })
unfolding granted_to_all
reconcile_enforces_example =
    reconcile_enforces condition_laws api admin silent granted_to_all (λ q v. refl) status_kept
      (record { namespace = "team"; name = "read-photos" }) labelled_policy owner_only owner_only
      refl refl (ap (λ x. lib.contains_finalizer x.0.meta finalizer_name) labels_in_place)
      (ap (λ x. x.1) labels_in_place) (record { owner = false; read = true; write = false })
      reconciled_once
