-- ===== src/Policy/Stored.antt =====
-- A policy without its labels or its finalizer: the Reconcile that stores them, and the next one.
use garage_storage_controlle.Prelude.{
  ◌≡◌, ◌∙◌, sym, ap, String, Bool, true, false, not, ◌&&◌, none, arith, if◌then◌else◌, inl, inr,
  Bool-cases,
}
use garage_storage_controlle.Exec.{Result, ok, no_requeue}
use garage_storage_controlle.Api.{Bucket, AccessKey, AccessPolicy, NamespacedName}
use garage_storage_controlle.Kube.{Client, EventRecorder, Libraries}
use garage_storage_controlle.Kube.Laws.{ConditionLaws, FinalizerLaws}
use garage_storage_controlle.Conditions.{finalizer_name}
use garage_storage_controlle.Policy.Types.{
  wanted_permissions, not_met, AccessPolicyReconciler, new_access_policy_reconciler, ensure_labels,
  label_value, access_key_label, bucket_label,
}
use garage_storage_controlle.Policy.Reconciler.{reconcile, reconcile_status}
use garage_storage_controlle.Policy.Assign.{reconcile_policy}
use garage_storage_controlle.Policy.Conditions.{initialize_policy_conditions}
use garage_storage_controlle.Policy.Labels.{
  request_of, label_value-ensure_labels, ensure_labels_kept,
}
use garage_storage_controlle.Policy.Converged.{
  IsEnforced, reconcile_enforces, reconcile_with_metadata,
}
use garage_storage_controlle.Garage.Http.{AdminApiHttpClient}
use garage_storage_controlle.Garage.Permissions.{permission_client, set_permissions}
use garage_storage_controlle.Policy.Grant.{bucket_ref, access_key_ref, reconcile_policy_grants}
use garage_storage_controlle.Policy.Retry.{reconcile_status_answers, result_for}
use garage_storage_controlle.Conditions.{ready}
use garage_storage_controlle.Garage.Grant.{PermissionLaws}

-- the object that Reconcile gives to Update
abbrev pub with_metadata : Libraries → AccessPolicy → AccessPolicy
with_metadata lib p =
    let q = (ensure_labels p).0 in
    if lib.contains_finalizer q.meta finalizer_name
    then q
    else record q { meta = (lib.add_finalizer q.meta finalizer_name).0 }

-- a policy that has its labels and its finalizer
abbrev pub has_metadata : Libraries → AccessPolicy → Bool
has_metadata lib p =
    lib.contains_finalizer (ensure_labels p).0.meta finalizer_name && not (ensure_labels p).1

module _ {lib : Libraries} (laws : FinalizerLaws lib) (p : AccessPolicy) where
  with_metadata-labels : (with_metadata lib p).meta.labels ≡ (ensure_labels p).0.meta.labels
  with_metadata-labels = ground (arith, laws.labels-add (ensure_labels p).0.meta finalizer_name)

  with_metadata-spec : (with_metadata lib p).spec ≡ p.spec
  unfolding ensure_labels
  with_metadata-spec = ground arith

  with_metadata-kept : ensure_labels (with_metadata lib p) ≡ (with_metadata lib p, false)
  with_metadata-kept =
      ensure_labels_kept (with_metadata lib p)
        (ap (label_value access_key_label) with_metadata-labels
          ∙ label_value-ensure_labels p access_key_label
          ∙ ap (λ s. s.access_key) (sym with_metadata-spec))
        (ap (label_value bucket_label) with_metadata-labels
          ∙ label_value-ensure_labels p bucket_label
          ∙ ap (λ s. s.bucket) (sym with_metadata-spec))

  with_metadata-finalizer : lib.contains_finalizer (with_metadata lib p).meta finalizer_name ≡ true
  with_metadata-finalizer =
      elim (Bool-cases (lib.contains_finalizer (ensure_labels p).0.meta finalizer_name)) [
        | inl present ↦ ground (arith, present)
        | inr absent ↦
            ground (arith, absent, laws.contains-add (ensure_labels p).0.meta finalizer_name)
      ]

  with_metadata-alive :
      p.meta.deletion_timestamp ≡ none → (with_metadata lib p).meta.deletion_timestamp ≡ none
  unfolding ensure_labels
  with_metadata-alive alive =
      ground (arith, alive, laws.deletion-add (ensure_labels p).0.meta finalizer_name)

module _ {S : Type 0} {lib : Libraries} (finalizers : FinalizerLaws lib)
    (r : AccessPolicyReconciler S) (req : NamespacedName) (p : AccessPolicy) (w w₀ w₁ : S)
    (got : r.client.get_access_policy req w ≡ (ok p, w₀)) (alive : p.meta.deletion_timestamp ≡ none)
    (bare : has_metadata lib p ≡ false)
    (saved : r.client.update_access_policy (with_metadata lib p) w₀ ≡ (ok tt, w₁)) where
  -- the metadata are stored, and nothing else is done
  pub reconcile_stores : reconcile lib r req w ≡ (ok no_requeue, w₁)
  unfolding reconcile
  reconcile_stores =
      ground
        (arith, got, alive, bare, saved, finalizers.added (ensure_labels p).0.meta finalizer_name)

module _ {S : Type 0} {lib : Libraries} (laws : ConditionLaws lib) (finalizers : FinalizerLaws lib)
    (client : Client S) (c : AdminApiHttpClient S) (recorder : EventRecorder S)
    (granted : (key_id bucket_id : String) → PermissionLaws c key_id bucket_id)
    (patches : (q : AccessPolicy) (v : S) → (client.patch_access_policy_status q v).0 ≡ ok tt)
    (keeps : (key_id bucket_id : String) (q : AccessPolicy) (v v' : S) (x : Result (Unit {0}))
      → client.patch_access_policy_status q v ≡ (x, v')
      → (granted key_id bucket_id).permissions v' ≡ (granted key_id bucket_id).permissions v)
    (p : AccessPolicy) (w w₀ w₁ : S) (got : client.get_access_policy (request_of p) w ≡ (ok p, w₀))
    (alive : p.meta.deletion_timestamp ≡ none) (bare : has_metadata lib p ≡ false)
    (saved : client.update_access_policy (with_metadata lib p) w₀ ≡ (ok tt, w₁))
    (read_back : (client.get_access_policy (request_of p) w₁).0 ≡ ok (with_metadata lib p)) where
  abbrev r : AccessPolicyReconciler S
  r = new_access_policy_reconciler client (permission_client c) recorder

  -- the state after the read of the second Reconcile
  abbrev pub read_again : S
  read_again = (client.get_access_policy (request_of p) w₁).1

  stored : client.get_access_policy (request_of p) w₁ ≡ (ok (with_metadata lib p), read_again)
  stored = ap (λ x. (x, read_again)) read_back

  saved_policy-IsAlive : (with_metadata lib p).meta.deletion_timestamp ≡ none
  saved_policy-IsAlive = with_metadata-alive finalizers p alive

  saved_policy-HasFinalizer :
      lib.contains_finalizer (ensure_labels (with_metadata lib p)).0.meta finalizer_name ≡ true
  saved_policy-HasFinalizer =
      ap (λ x. lib.contains_finalizer x.0.meta finalizer_name) (with_metadata-kept finalizers p)
      ∙ with_metadata-finalizer finalizers p

  second_reconcile :
      (reconcile lib r (request_of p) w₁).0
      ≡ result_for lib
          (reconcile_policy lib r (record {
            object = initialize_policy_conditions lib (with_metadata lib p);
            world = read_again;
          })).0
  second_reconcile =
      let q = with_metadata lib p in
      let kept = with_metadata-kept finalizers p in
      ap (λ x. x.0)
        (reconcile_with_metadata laws client c recorder granted patches keeps (request_of p) q w₁
          read_again stored saved_policy-IsAlive saved_policy-HasFinalizer (ap (λ x. x.1) kept))
      ∙ ap (λ x. (reconcile_status lib r (record { object = x.0; world = read_again })).0) kept
      ∙ reconcile_status_answers laws r q read_again patches

  second_succeeds :
      (b : Bucket) (k : AccessKey) (w₂ w₃ w₄ : S)
      → client.get_bucket (bucket_ref (with_metadata lib p)) read_again ≡ (ok b, w₂)
      → not_met (lib.find_status_condition b.status.conditions ready) ≡ false
      → client.get_access_key (access_key_ref (with_metadata lib p)) w₂ ≡ (ok k, w₃)
      → not_met (lib.find_status_condition k.status.conditions ready) ≡ false
      → set_permissions c k.status.access_key_id b.status.bucket_id (wanted_permissions p) w₃
        ≡ (ok tt, w₄)
      → (reconcile lib r (request_of p) w₁).0 ≡ ok no_requeue
  unfolding initialize_policy_conditions
  second_succeeds b k w₂ w₃ w₄ got_bucket bucket_ready got_key key_ready accepted =
      let q = with_metadata lib p in
      let first = initialize_policy_conditions lib q in
      let wanted : set_permissions c k.status.access_key_id b.status.bucket_id
            (wanted_permissions first) w₃
          ≡ (ok tt, w₄) =
        ap
          (λ s.
            set_permissions c k.status.access_key_id b.status.bucket_id
              (record {
                owner = s.permissions.owner;
                read = s.permissions.read;
                write = s.permissions.write;
              })
              w₃)
          (with_metadata-spec finalizers p)
        ∙ accepted in
      let (done, shown, succeeded, _, _, _, _, _) =
        reconcile_policy_grants laws r first b k read_again w₂ w₃ w₄ got_bucket bucket_ready got_key
          key_ready wanted in
      second_reconcile ∙ ap (λ x. result_for lib x.0) succeeded

  -- A live policy without its labels or its finalizer, with the client of Garage's admin API: where
  -- AddFinalizer and Garage do as documented, no write of a status fails or changes permissions, and
  -- the Update with the policy's metadata succeeds and the read after it returns that object, the
  -- first Reconcile stores the metadata and does nothing else. If the bucket and the access key are then there and Ready and Garage
  -- accepts the permissions, the second succeeds and asks for no further one, and the permissions of
  -- the key on the bucket in Garage are exactly those of the policy's spec.
  pub reconcile_converges :
      (b : Bucket) (k : AccessKey) (w₂ w₃ w₄ : S)
      → client.get_bucket (bucket_ref (with_metadata lib p)) read_again ≡ (ok b, w₂)
      → not_met (lib.find_status_condition b.status.conditions ready) ≡ false
      → client.get_access_key (access_key_ref (with_metadata lib p)) w₂ ≡ (ok k, w₃)
      → not_met (lib.find_status_condition k.status.conditions ready) ≡ false
      → set_permissions c k.status.access_key_id b.status.bucket_id (wanted_permissions p) w₃
        ≡ (ok tt, w₄)
      → let second = reconcile lib r (request_of p) w₁ in
        (reconcile lib r (request_of p) w ≡ (ok no_requeue, w₁))
        × (second.0 ≡ ok no_requeue)
        × ((with_metadata lib p).spec ≡ p.spec)
        × IsEnforced laws client c recorder granted patches keeps
            (with_metadata lib p)
            read_again
            second.1
  reconcile_converges b k w₂ w₃ w₄ got_bucket bucket_ready got_key key_ready accepted =
      let succeeded =
        second_succeeds b k w₂ w₃ w₄ got_bucket bucket_ready got_key key_ready accepted in
      (
        reconcile_stores finalizers r (request_of p) p w w₀ w₁ got alive bare saved,
        succeeded,
        with_metadata-spec finalizers p,
        reconcile_enforces laws client c recorder granted patches keeps (request_of p)
            (with_metadata lib p) w₁ read_again stored saved_policy-IsAlive
            saved_policy-HasFinalizer (ap (λ x. x.1) (with_metadata-kept finalizers p))
            (reconcile lib r (request_of p) w₁).1
            (ap (λ x. (x, (reconcile lib r (request_of p) w₁).1)) succeeded),
      )
