-- ===== src/Examples/Labels.antt =====
-- Runs of the label helpers of the access policy reconciler.
use mathlib.Core.List.{Mem, mem-cons}
use mathlib.Core.Logic.Or
use garage_storage_controlle.Prelude.{ℕ, suc, String, ◌≡◌, refl, [], ◌∷◌, List}
use garage_storage_controlle.Exec.{ok}
use garage_storage_controlle.Api.{AccessPolicy, NamespacedName}
use garage_storage_controlle.Policy.Types.{
  AccessPolicyReconciler, ensure_labels, bucket_label, find_policies_for_bucket,
}
use garage_storage_controlle.Policy.Labels.{
  find_policies_for_bucket_complete, request_of, ListsByLabel,
}
use garage_storage_controlle.Examples.Fixtures.{client, recorder, photos, policy}

abbrev stored_policies : List AccessPolicy
stored_policies = (ensure_labels policy).0 ∷ []

abbrev listing : AccessPolicyReconciler ℕ
listing = record {
  client = record client { list_access_policies = λ _ _ _ w. (ok stored_policies, suc w) };
  admin_client = record { set_permissions = λ _ _ _ w. (ok tt, w) };
  recorder = recorder;
}

-- the selector that answers every stored policy
lists_all :
    (namespace label value : String)
    → ListsByLabel stored_policies namespace label value stored_policies
lists_all namespace label value p m _ _ = m

policy_stored : Mem (ensure_labels policy).0 stored_policies
policy_stored = mem-cons.1 (Or.inl refl)

find_policies_for_bucket_complete_example :
    (requests : List NamespacedName) × (find_policies_for_bucket listing photos 0
      ≡ (ok requests, 1))
    × Mem (request_of policy) requests
find_policies_for_bucket_complete_example =
    find_policies_for_bucket_complete listing photos 0 1 stored_policies stored_policies policy refl
      (lists_all "team" bucket_label "photos") policy_stored refl refl
