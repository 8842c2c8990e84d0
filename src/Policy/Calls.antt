-- ===== src/Policy/Calls.antt =====
-- How many calls Reconcile of an AccessPolicy makes.
use garage_storage_controlle.Prelude.{ℕ, ◌+◌, ◌≤◌, arith, Bool, String, Option, none, some}
use garage_storage_controlle.Errors.{Err}
use garage_storage_controlle.Exec.{
  Run, Result, ok, err, panic, Outcome, returned, failed, CtrlResult,
}
use garage_storage_controlle.Exec.Costs.{IsWithin}
use garage_storage_controlle.S3
use garage_storage_controlle.Api.{
  NamespacedName, ObjectMeta, AccessPolicy, Bucket, AccessKey, AccessPolicyStatus,
}
use garage_storage_controlle.Kube.{Libraries}
use garage_storage_controlle.Policy.Types.{AccessPolicyReconciler}
use garage_storage_controlle.Policy.Assign.{
  check_bucket, check_access_key, revoke_permissions, bucket_failed, access_key_failed,
  assign_permissions, examine_bucket, examine_access_key, conclude, reconcile_policy,
}
use garage_storage_controlle.Policy.Reconciler.{
  withdraw_permissions, finalize, save_meta, patch_status, reconcile_status, reconcile_live,
  reconcile_found, reconcile,
}

-- A clock that every call to the API server and every call of SetPermissions moves by one at most,
-- and an event not at all.
pub record IsClock {S : Type 0} (r : AccessPolicyReconciler S) (clock : S → ℕ) : Type 0 where
  pub get_access_policy : (n : NamespacedName) → IsWithin clock 1 (r.client.get_access_policy n)
  pub get_bucket : (n : NamespacedName) → IsWithin clock 1 (r.client.get_bucket n)
  pub get_access_key : (n : NamespacedName) → IsWithin clock 1 (r.client.get_access_key n)
  pub update_access_policy : (p : AccessPolicy) → IsWithin clock 1 (r.client.update_access_policy p)
  pub patch_access_policy_status :
      (p : AccessPolicy) → IsWithin clock 1 (r.client.patch_access_policy_status p)
  pub set_permissions :
      (key bucket : String) (wanted : S3.Permissions)
      → IsWithin clock 1 (r.admin_client.set_permissions key bucket wanted)
  pub eventf :
      (o : ObjectMeta) (type reason message : String) (s : S)
      → clock (r.recorder.eventf o type reason message s) ≤ clock s

abbrev spent : {A : Type 0} → Result (Outcome A) → ℕ
spent (ok (returned _)) = 1
spent (ok (failed _)) = 2
spent (err _) = 2
spent panic = 2

module _ {S : Type 0} (lib : Libraries) (r : AccessPolicyReconciler S) (clock : S → ℕ)
    (counts : IsClock r clock) where
  abbrev inside : Run AccessPolicy S → ℕ
  inside s = clock s.world

  check_bucket-IsWithin : IsWithin inside 1 (check_bucket lib r)
  unfolding check_bucket
  check_bucket-IsWithin s = ground (
    arith,
    counts.get_bucket (record { namespace = s.object.meta.namespace; name = s.object.spec.bucket })
        s.world,
  )

  check_access_key-IsWithin : IsWithin inside 1 (check_access_key lib r)
  unfolding check_access_key
  check_access_key-IsWithin s = ground (
    arith,
    counts.get_access_key
        (record { namespace = s.object.meta.namespace; name = s.object.spec.access_key }) s.world,
  )

  revoke_permissions-IsWithin : IsWithin inside 1 (revoke_permissions lib r)
  unfolding revoke_permissions
  revoke_permissions-IsWithin s = ground (
    arith,
    counts.set_permissions s.object.status.access_key_id s.object.status.bucket_id S3.no_permissions
        s.world,
  )

  bucket_failed-IsWithin : (e : Err) → IsWithin inside 1 (bucket_failed lib r e)
  unfolding bucket_failed
  bucket_failed-IsWithin e s = ground (arith, revoke_permissions-IsWithin s)

  access_key_failed-IsWithin : (e : Err) → IsWithin inside 1 (access_key_failed lib r e)
  unfolding access_key_failed
  access_key_failed-IsWithin e s = ground (arith, revoke_permissions-IsWithin s)

  assign_permissions-IsWithin :
      (b : Bucket) (k : AccessKey) → IsWithin inside 1 (assign_permissions lib r b k)
  unfolding assign_permissions
  assign_permissions-IsWithin b k s = grind (arith, counts.eventf, counts.set_permissions)

  -- a check that succeeds is not followed by a revocation
  spent-examine_bucket :
      (s : Run AccessPolicy S)
      → inside (examine_bucket lib r s).1 ≤ spent (examine_bucket lib r s).0 + inside s
  unfolding examine_bucket
  spent-examine_bucket s = grind (arith, check_bucket-IsWithin, bucket_failed-IsWithin)

  spent-examine_access_key :
      (s : Run AccessPolicy S)
      → inside (examine_access_key lib r s).1 ≤ spent (examine_access_key lib r s).0 + inside s
  unfolding examine_access_key
  spent-examine_access_key s = grind (arith, check_access_key-IsWithin, access_key_failed-IsWithin)

  -- and only two such checks by the assignment
  spent-conclude :
      (b : Outcome Bucket) (k : Outcome AccessKey) (s : Run AccessPolicy S)
      → spent (ok b) + (spent (ok k) + inside (conclude lib r b k s).1) ≤ 4 + inside s
  unfolding conclude
  spent-conclude (failed e) (failed f) s = omega arith
  spent-conclude (failed e) (returned k) s = omega arith
  spent-conclude (returned b) (failed f) s = omega arith
  spent-conclude (returned b) (returned k) s = omega (arith, assign_permissions-IsWithin b k s)

  reconcile_policy-IsWithin : IsWithin inside 4 (reconcile_policy lib r)
  unfolding reconcile_policy
  reconcile_policy-IsWithin s =
      grind (arith, spent-examine_bucket, spent-examine_access_key, spent-conclude)

  withdraw_permissions-IsWithin : IsWithin inside 1 (withdraw_permissions lib r)
  unfolding withdraw_permissions
  withdraw_permissions-IsWithin s = grind (arith, counts.set_permissions)

  finalize-IsWithin : IsWithin inside 2 (finalize lib r)
  unfolding finalize
  finalize-IsWithin s = grind (arith, withdraw_permissions-IsWithin, counts.update_access_policy)

  save_meta-IsWithin : IsWithin inside 1 (save_meta lib r)
  unfolding save_meta
  save_meta-IsWithin s = ground (arith, counts.update_access_policy s.object s.world)

  patch_status-IsWithin :
      (old : AccessPolicyStatus) (x : CtrlResult × Option Err)
      → IsWithin inside 1 (patch_status lib r old x)
  unfolding patch_status
  patch_status-IsWithin old (result, none) s =
      ground (arith, counts.patch_access_policy_status s.object s.world)
  patch_status-IsWithin old (result, some e) s =
      ground (arith, counts.patch_access_policy_status s.object s.world)

  reconcile_status-IsWithin : IsWithin inside 5 (reconcile_status lib r)
  unfolding reconcile_status
  reconcile_status-IsWithin s = grind (arith, reconcile_policy-IsWithin, patch_status-IsWithin)

  reconcile_live-IsWithin : (changed : Bool) → IsWithin inside 5 (reconcile_live lib r changed)
  unfolding reconcile_live
  reconcile_live-IsWithin changed s = grind (arith, save_meta-IsWithin, reconcile_status-IsWithin)

  reconcile_found-IsWithin : IsWithin inside 5 (reconcile_found lib r)
  unfolding reconcile_found
  reconcile_found-IsWithin s =
      grind (arith, finalize-IsWithin, save_meta-IsWithin, reconcile_status-IsWithin)

  -- By a clock that every call to the API server and every call of SetPermissions moves by one at
  -- most, and an event not at all, Reconcile of an AccessPolicy ends after at most six calls, however
  -- they answer and whatever the world is.
  pub reconcile_policy_calls :
      (n : NamespacedName) (s : S) → clock (reconcile lib r n s).1 ≤ 6 + clock s
  unfolding reconcile
  reconcile_policy_calls n s = grind (
    arith, finalize-IsWithin, save_meta-IsWithin, reconcile_status-IsWithin,
    counts.get_access_policy,
  )
