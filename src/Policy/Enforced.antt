-- ===== src/Policy/Enforced.antt =====
-- The policy reconciler together with the client of Garage's admin API.
use garage_storage_controlle.Prelude.{◌≡◌, ◌∙◌, sym, refl, false, arith}
use garage_storage_controlle.Exec.{Result, ok, err, panic, returned}
use garage_storage_controlle.S3
use garage_storage_controlle.Api.{Bucket, AccessKey, AccessPolicy}
use garage_storage_controlle.Kube.{Client, EventRecorder, Libraries}
use garage_storage_controlle.Kube.Laws.{ConditionLaws}
use garage_storage_controlle.Conditions.{ready}
use garage_storage_controlle.Policy.Conditions.{mark_policy_bucket_ready, mark_policy_key_ready}
use garage_storage_controlle.Policy.Types.{
  AccessPolicyReconciler, new_access_policy_reconciler, not_met, wanted_permissions,
}
use garage_storage_controlle.Policy.Assign.{conclude, reconcile_policy}
use garage_storage_controlle.Policy.Grant.{
  bucket_ref, access_key_ref, bucket_seen, key_seen, reconciled,
}
use garage_storage_controlle.Garage.Http.{AdminApiHttpClient}
use garage_storage_controlle.Garage.Permissions.{permission_client, set_permissions}
use garage_storage_controlle.Garage.Grant.{PermissionLaws, set_permissions_exact}

module _ {S : Type 0} {lib : Libraries} (laws : ConditionLaws lib) (client : Client S)
    (c : AdminApiHttpClient S) (recorder : EventRecorder S) (p : AccessPolicy) (b : Bucket)
    (k : AccessKey) (w w₁ w₂ w₃ : S)
    (granted : PermissionLaws c k.status.access_key_id b.status.bucket_id) where
  -- the reconciler as the program puts it together
  abbrev reconciler : AccessPolicyReconciler S
  reconciler = new_access_policy_reconciler client (permission_client c) recorder

  -- what the spec asks for, field by field
  abbrev pub wanted_by_spec : S3.Permissions
  wanted_by_spec = record {
    owner = p.spec.permissions.owner;
    read = p.spec.permissions.read;
    write = p.spec.permissions.write;
  }

  concluded_exact :
      (q : AccessPolicy) (x : Result (Unit {0}) × S)
      → set_permissions c k.status.access_key_id b.status.bucket_id (wanted_permissions p) w₂ ≡ x
      → conclude lib reconciler
          (returned b)
          (returned k)
          (record { object = key_seen lib k (bucket_seen lib b p); world = w₂ })
        ≡ (ok tt, record { object = q; world = w₃ })
      → granted.permissions w₃ ≡ wanted_permissions p
  unfolding conclude mark_policy_bucket_ready mark_policy_key_ready
  concluded_exact q (ok u, t) e h =
      ground (arith, set_permissions_exact granted (wanted_permissions p) w₂ t e)
  concluded_exact q (err f, t) e h = ground arith
  concluded_exact q (panic, t) e h = ground arith

  -- The policy reconciler with the client of Garage's admin API, as the program puts them together:
  -- where the bucket and the access key are there and Ready, and reconcilePolicy succeeds, the
  -- permissions of the key on the bucket in Garage are exactly those of the policy's spec, whatever
  -- they were before. The laws are the documented effects of Garage's two requests.
  pub reconcile_policy_enforces :
      (q : AccessPolicy)
      → client.get_bucket (bucket_ref p) w ≡ (ok b, w₁)
      → not_met (lib.find_status_condition b.status.conditions ready) ≡ false
      → client.get_access_key (access_key_ref p) w₁ ≡ (ok k, w₂)
      → not_met (lib.find_status_condition k.status.conditions ready) ≡ false
      → reconcile_policy lib reconciler (record { object = p; world = w })
        ≡ (ok tt, record { object = q; world = w₃ })
      → granted.permissions w₃ ≡ wanted_by_spec
  reconcile_policy_enforces q got_bucket bucket_ready got_key key_ready success =
      concluded_exact q _ refl (
        sym (reconciled laws reconciler p b k w w₁ w₂ w₃ got_bucket bucket_ready got_key key_ready)
        ∙ success)
