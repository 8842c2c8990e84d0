-- ===== src/Policy/Revoked.antt =====
-- The deletion of an AccessPolicy with the client of Garage's admin API.
use garage_storage_controlle.Prelude.{
  ◌≡◌, ◌∙◌, sym, refl, ap, true, ◌⊎◌, inl, inr, arith, Bool-cases,
}
use garage_storage_controlle.Errors.{Err, is, resource_not_found}
use garage_storage_controlle.Exec.{Result, ok, err, panic, Run, CtrlResult}
use garage_storage_controlle.S3.{no_permissions}
use garage_storage_controlle.Api.{AccessPolicy}
use garage_storage_controlle.Kube.{Client, EventRecorder, Libraries}
use garage_storage_controlle.Conditions.{finalizer_name}
use garage_storage_controlle.Policy.Types.{AccessPolicyReconciler, new_access_policy_reconciler}
use garage_storage_controlle.Policy.Reconciler.{finalize}
use garage_storage_controlle.Policy.Finalizer.{
  released, without_value, IsAssigned, finalize_blocked, finalize_releases,
}
use garage_storage_controlle.Garage.Http.{AdminApiHttpClient}
use garage_storage_controlle.Garage.Permissions.{permission_client, set_permissions}
use garage_storage_controlle.Garage.Grant.{PermissionLaws, set_permissions_exact}

module _ {S : Type 0} (lib : Libraries) (client : Client S) (c : AdminApiHttpClient S)
    (recorder : EventRecorder S) (p : AccessPolicy)
    (laws : PermissionLaws c p.status.access_key_id p.status.bucket_id) where
  abbrev reconciler : AccessPolicyReconciler S
  reconciler = new_access_policy_reconciler client (permission_client c) recorder

  -- Garage said that the key or the bucket is no longer there
  abbrev pub IsGone : S → Type 0
  IsGone w =
      (e : Err) × (v : S) × (set_permissions c p.status.access_key_id p.status.bucket_id
          no_permissions w
        ≡ (err e, v))
      × (is e resource_not_found ≡ true)

  module _ (present : lib.contains_finalizer p.meta finalizer_name ≡ true) (assigned : IsAssigned p)
      (keeps : (q : AccessPolicy) (v v' : S) (x : Result (Unit {0}))
        → client.update_access_policy q v ≡ (x, v')
        → laws.permissions v' ≡ laws.permissions v) where
    revoked_for :
        (w w' : S) (t : Run AccessPolicy S) (done : CtrlResult) (answer : Result (Unit {0}))
        → set_permissions c p.status.access_key_id p.status.bucket_id no_permissions w
          ≡ (answer, w')
        → finalize lib reconciler (record { object = p; world = w }) ≡ (ok done, t)
        → (laws.permissions t.world ≡ no_permissions) ⊎ IsGone w
    revoked_for w w' t done (ok u) e h =
        let updated : finalize lib reconciler (record { object = p; world = w }) ≡ (
          without_value (client.update_access_policy (released lib p) w').0,
          record {
            object = released lib p;
            world = (client.update_access_policy (released lib p) w').1;
          },
        ) =
          finalize_releases lib reconciler p w w' (ok u) present assigned e refl in
        inl (
          ap (λ x. laws.permissions x.1.world) (sym h ∙ updated)
          ∙ keeps (released lib p) w' _ _ refl
          ∙ set_permissions_exact laws no_permissions w w' e)
    revoked_for w w' t done (err f) e h = elim (Bool-cases (is f resource_not_found)) [
      | inl gone ↦ inr (f, w', e, gone)
      | inr other ↦
          absurd (
            ground (arith, finalize_blocked lib reconciler p w w' (err f) present assigned e other))
    ]
    revoked_for w w' t done panic e h =
        absurd
          (ground (arith, finalize_blocked lib reconciler p w w' panic present assigned e refl))

    -- A policy with a finalizer, a key and a bucket is being deleted, with the client of Garage's
    -- admin API: where Reconcile's branch for it succeeds, the key has no permission on the bucket
    -- in Garage any more, unless Garage said that the key or the bucket is gone. The laws are what
    -- Garage documents of its two requests; the update of the policy in the API server does not
    -- change permissions in Garage.
    pub finalize_revokes :
        (w : S) (t : Run AccessPolicy S) (done : CtrlResult)
        → finalize lib reconciler (record { object = p; world = w }) ≡ (ok done, t)
        → (laws.permissions t.world ≡ no_permissions) ⊎ IsGone w
    finalize_revokes w t done h = revoked_for w _ t done _ refl h
