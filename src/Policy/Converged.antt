-- ===== src/Policy/Converged.antt =====
-- A whole Reconcile of an AccessPolicy that asks for no further one, with the client of Garage's
-- admin API.
use garage_storage_controlle.Prelude.{
  ◌≡◌, ◌∙◌, sym, ap, refl, String, true, false, none, some, arith, Option-cases, inl, inr,
}
use garage_storage_controlle.Exec.{Result, ok, err, panic, Run, no_requeue}
use garage_storage_controlle.S3
use garage_storage_controlle.Api.{Bucket, AccessKey, AccessPolicy, NamespacedName}
use garage_storage_controlle.Kube.{Client, EventRecorder, Libraries}
use garage_storage_controlle.Kube.Laws.{ConditionLaws}
use garage_storage_controlle.Conditions.{finalizer_name}
use garage_storage_controlle.Policy.Conditions.{
  initialize_policy_conditions, update_access_policy_condition,
}
use garage_storage_controlle.Policy.Types.{
  AccessPolicyReconciler, new_access_policy_reconciler, ensure_labels,
}
use garage_storage_controlle.Policy.Assign.{reconcile_policy}
use garage_storage_controlle.Policy.Reconciler.{reconcile_status, reconcile, patch_status}
use garage_storage_controlle.Policy.Ready.{update-reconcile_policy}
use garage_storage_controlle.Policy.Retry.{result_for, reconcile_status_answers}
use garage_storage_controlle.Policy.Enforced.{reconcile_policy_enforces}
use garage_storage_controlle.Garage.Http.{AdminApiHttpClient}
use garage_storage_controlle.Garage.Permissions.{permission_client}
use garage_storage_controlle.Garage.Grant.{PermissionLaws}
use garage_storage_controlle.Policy.Found.{SawBucket, SawKey, reconcile_policy-found}

-- what the spec of a policy asks for, field by field
abbrev pub spec_permissions : AccessPolicy → S3.Permissions
spec_permissions p = record {
  owner = p.spec.permissions.owner;
  read = p.spec.permissions.read;
  write = p.spec.permissions.write;
}

-- Only success and a panic leave reconcile_status without an error and without another try.
result_for-done :
    (lib : Libraries) (x : Result (Unit {0})) → result_for lib x ≡ ok no_requeue → x ≡ ok tt
result_for-done lib (ok u) h = refl
result_for-done lib (err e) h = absurd (ground arith)
result_for-done lib panic h = absurd (ground arith)

module _ {S : Type 0} {lib : Libraries} (laws : ConditionLaws lib) (client : Client S)
    (c : AdminApiHttpClient S) (recorder : EventRecorder S)
    (granted : (key_id bucket_id : String) → PermissionLaws c key_id bucket_id)
    (patches : (q : AccessPolicy) (v : S) → (client.patch_access_policy_status q v).0 ≡ ok tt)
    (keeps : (key_id bucket_id : String) (q : AccessPolicy) (v v' : S) (x : Result (Unit {0}))
      → client.patch_access_policy_status q v ≡ (x, v')
      → (granted key_id bucket_id).permissions v' ≡ (granted key_id bucket_id).permissions v) where
  abbrev pub reconciler : AccessPolicyReconciler S
  reconciler = new_access_policy_reconciler client (permission_client c) recorder

  -- the bucket and the access key of a policy, and the state in which the key has exactly the
  -- permissions of the policy's spec on the bucket
  abbrev pub IsEnforced : AccessPolicy → S → S → Type 0
  IsEnforced p w done =
      (b : Bucket) × (k : AccessKey) × (w₁ w₂ : S) × SawBucket lib reconciler p b w w₁
      × SawKey lib reconciler p k w₁ w₂
      × ((granted k.status.access_key_id b.status.bucket_id).permissions done ≡ spec_permissions p)

  reconcile_policy-IsEnforced :
      (p : AccessPolicy) (w : S) (t : Run AccessPolicy S)
      → reconcile_policy lib reconciler (record { object = p; world = w }) ≡ (ok tt, t)
      → IsEnforced p w t.world
  reconcile_policy-IsEnforced p w t h =
      let (b, k, w₁, w₂, (got_bucket, bucket_ready), (got_key, key_ready)) =
        reconcile_policy-found lib reconciler p w t h in
      (
        b,
        k,
        w₁,
        w₂,
        (got_bucket, bucket_ready),
        (got_key, key_ready),
        reconcile_policy_enforces laws client c recorder p b k w w₁ w₂ t.world
            (granted k.status.access_key_id b.status.bucket_id) t.object got_bucket bucket_ready
            got_key key_ready h,
      )

  -- what reconcile_status leaves of the permissions is what reconcilePolicy did
  reconcile_status_keeps :
      (key_id bucket_id : String) (p : AccessPolicy) (w : S)
      (x : Result (Unit {0}) × Run AccessPolicy S) (q : AccessPolicy)
      → reconcile_policy lib reconciler
          (record { object = initialize_policy_conditions lib p; world = w })
        ≡ x
      → update_access_policy_condition lib x.1.object ≡ some q
      → (granted key_id bucket_id).permissions
          (reconcile_status lib reconciler (record { object = p; world = w })).1.world
        ≡ (granted key_id bucket_id).permissions x.1.world
  unfolding reconcile_status patch_status
  reconcile_status_keeps key_id bucket_id p w (ok u, s) q answered updated =
      ground (arith, patches q s.world, keeps key_id bucket_id q s.world _ _ refl)
  reconcile_status_keeps key_id bucket_id p w (err e, s) q answered updated =
      ground (arith, patches q s.world, keeps key_id bucket_id q s.world _ _ refl)
  reconcile_status_keeps key_id bucket_id p w (panic, s) q answered updated = ground arith

  module _ (req : NamespacedName) (p : AccessPolicy) (w w₀ : S)
      (got : client.get_access_policy req w ≡ (ok p, w₀)) (alive : p.meta.deletion_timestamp ≡ none)
      (present : lib.contains_finalizer (ensure_labels p).0.meta finalizer_name ≡ true)
      (labelled : (ensure_labels p).1 ≡ false) where
    pub reconcile_with_metadata : reconcile lib reconciler req w ≡ (
      (reconcile_status lib reconciler (record { object = (ensure_labels p).0; world = w₀ })).0,
      (reconcile_status lib reconciler
          (record { object = (ensure_labels p).0; world = w₀ })).1.world,
    )
    unfolding reconcile
    reconcile_with_metadata = ground arith

    -- Reconcile of a live policy that has its finalizer and its labels, with the client of Garage's
    -- admin API and with status writes that succeed: if it returns no error and does not ask to be
    -- called again, then the policy's bucket and access key are there and Ready, and at the end the
    -- permissions of the key on the bucket in Garage are exactly those of the policy's spec. The laws
    -- are what Garage documents of its two requests; a write of a status changes no permission there.
    pub reconcile_enforces :
        (done : S) → reconcile lib reconciler req w ≡ (ok no_requeue, done) → IsEnforced p w₀ done
    unfolding ensure_labels initialize_policy_conditions
    reconcile_enforces done h =
        let q = (ensure_labels p).0 in
        let first = initialize_policy_conditions lib q in
        let x = reconcile_policy lib reconciler (record { object = first; world = w₀ }) in
        let ended = sym reconcile_with_metadata ∙ h in
        let succeeded : x.0 ≡ ok tt =
          result_for-done lib x.0
            (sym (reconcile_status_answers laws reconciler q w₀ patches) ∙ ap (λ y. y.0) ended) in
        elim (Option-cases (update_access_policy_condition lib x.1.object)) [
          | inl nil ↦ absurd (ground (arith, update-reconcile_policy laws reconciler q w₀))
          | inr (shown, updated) ↦
              let (b, k, w₁, w₂, bucket, key, exact) =
                reconcile_policy-IsEnforced first w₀ x.1 (ap (λ y. (y, x.1)) succeeded) in
              (
                b,
                k,
                w₁,
                w₂,
                bucket,
                key,
                ap (granted k.status.access_key_id b.status.bucket_id).permissions
                      (sym (ap (λ y. y.1) ended))
                    ∙ reconcile_status_keeps k.status.access_key_id b.status.bucket_id q w₀ x shown
                        refl updated
                    ∙ exact,
              )
        ]
