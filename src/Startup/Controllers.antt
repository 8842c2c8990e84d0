-- ===== src/Startup/Controllers.antt =====
-- SetupWithManager of the three reconcilers, as what it gives to the builder.
use garage_storage_controlle.Prelude.{[], ◌∷◌}
use garage_storage_controlle.Kube.{Libraries}
use garage_storage_controlle.Kube.Manager.{
  Controller, bucket_kind, access_key_kind, access_policy_kind, watch_bucket, watch_access_key,
}
use garage_storage_controlle.Bucket.Types.{BucketReconciler}
use garage_storage_controlle.Bucket.Reconciler.{reconcile as reconcile_bucket_request}
use garage_storage_controlle.AccessKey.Types.{AccessKeyReconciler}
use garage_storage_controlle.AccessKey.Reconciler.{reconcile as reconcile_access_key_request}
use garage_storage_controlle.Policy.Types.{
  AccessPolicyReconciler, find_policies_for_access_key, find_policies_for_bucket,
}
use garage_storage_controlle.Policy.Reconciler.{reconcile as reconcile_access_policy_request}

module _ {S : Type 0} (lib : Libraries) where
  abbrev pub bucket_controller : BucketReconciler S → Controller S
  bucket_controller r = record {
    kind = bucket_kind;
    watches = [];
    name = "bucket";
    reconcile = reconcile_bucket_request lib r;
  }

  abbrev pub access_key_controller : AccessKeyReconciler S → Controller S
  access_key_controller r = record {
    kind = access_key_kind;
    watches = [];
    name = "accesskey";
    reconcile = reconcile_access_key_request lib r;
  }

  abbrev pub access_policy_controller : AccessPolicyReconciler S → Controller S
  access_policy_controller r = record {
    kind = access_policy_kind;
    watches =
        watch_access_key (find_policies_for_access_key r)
        ∷ watch_bucket (find_policies_for_bucket r)
        ∷ [];
    name = "accesspolicy";
    reconcile = reconcile_access_policy_request lib r;
  }
