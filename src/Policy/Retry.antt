-- ===== src/Policy/Retry.antt =====
-- When Reconcile is called again after a dependency was not Ready.
use garage_storage_controlle.Prelude.{
  ◌≡◌, true, ◌||◌, some, none, Option-cases, inl, inr, arith, refl, if◌then◌else◌,
}
use garage_storage_controlle.Errors.{Err, is, dependency_not_ready}
use garage_storage_controlle.Exec.{
  Result, ok, err, panic, CtrlResult, no_requeue, Run, failed, requeue_seconds,
}
use garage_storage_controlle.Api.{Bucket, AccessKey, AccessPolicy}
use garage_storage_controlle.Kube.{Libraries}
use garage_storage_controlle.Kube.Laws.{ConditionLaws, NotFoundLaws}
use garage_storage_controlle.Conditions.{ready}
use garage_storage_controlle.Policy.Conditions.{
  initialize_policy_conditions, update_access_policy_condition,
}
use garage_storage_controlle.Policy.Types.{AccessPolicyReconciler, not_met}
use garage_storage_controlle.Policy.Assign.{reconcile_policy}
use garage_storage_controlle.Policy.Reconciler.{classify, patch_status, reconcile_status}
use garage_storage_controlle.Policy.Ready.{update-reconcile_policy}
use garage_storage_controlle.Policy.Grant.{bucket_ref, access_key_ref}
use garage_storage_controlle.Policy.Waits.{reconcile_policy_waits}

-- every status patch succeeds
abbrev pub Patches : {S : Type 0} → AccessPolicyReconciler S → Type 0
Patches {S} r = (q : AccessPolicy) (v : S) → (r.client.patch_access_policy_status q v).0 ≡ ok tt

reconcile_status_retries :
    {S : Type 0} (lib : Libraries) (r : AccessPolicyReconciler S) (p q : AccessPolicy) (w : S)
    (e : Err) (s : Run AccessPolicy S)
    → Patches r
    → reconcile_policy lib r (record { object = initialize_policy_conditions lib p; world = w })
      ≡ (err e, s)
    → update_access_policy_condition lib s.object ≡ some q
    → classify lib r (failed e) ≡ (requeue_seconds 10, none)
    → (reconcile_status lib r (record { object = p; world = w })).0 ≡ ok (requeue_seconds 10)
unfolding reconcile_status patch_status
reconcile_status_retries lib r p q w e s patches refused updated waits =
    ground (arith, waits, patches q s.world)

-- The bucket and the access key are there, and one of them is not Ready: the part of Reconcile for a
-- live policy with its metadata in place ends without an error and asks to be called again after
-- ten seconds, if the status can be written.
pub reconcile_status_waits :
    {S : Type 0} {lib : Libraries} (laws : ConditionLaws lib) (errors : NotFoundLaws lib)
    (r : AccessPolicyReconciler S) (p : AccessPolicy) (b : Bucket) (k : AccessKey) (w w₁ w₂ : S)
    → Patches r
    → r.client.get_bucket (bucket_ref p) w ≡ (ok b, w₁)
    → r.client.get_access_key (access_key_ref p) w₁ ≡ (ok k, w₂)
    → (not_met (lib.find_status_condition b.status.conditions ready)
        || not_met (lib.find_status_condition k.status.conditions ready))
      ≡ true
    → (reconcile_status lib r (record { object = p; world = w })).0 ≡ ok (requeue_seconds 10)
unfolding initialize_policy_conditions
reconcile_status_waits {S} {lib} laws errors r p b k w w₁ w₂ patches got_bucket got_key waiting =
    let first = initialize_policy_conditions lib p in
    let s : Run AccessPolicy S =
      (reconcile_policy lib r (record { object = first; world = w })).1 in
    let (e, refused, _, _, waits, _) =
      reconcile_policy_waits errors r first b k w w₁ w₂ got_bucket got_key waiting in
    elim (Option-cases (update_access_policy_condition lib s.object)) [
      | inl nil ↦ ground (arith, update-reconcile_policy laws r p w)
      | inr (q, updated) ↦
          reconcile_status_retries lib r p q w e s patches (ground (arith, refused)) updated waits
    ]

-- The result of Reconcile for an answer of reconcilePolicy: a missing bucket or key is looked for
-- again after fifteen seconds, one that is not Ready after ten, and any other error is returned.
abbrev pub result_for : Libraries → Result (Unit {0}) → Result CtrlResult
result_for lib (ok _) = ok no_requeue
result_for lib (err e) =
    if lib.is_not_found e
    then ok (requeue_seconds 15)
    else if is e dependency_not_ready
    then ok (requeue_seconds 10)
    else err e
result_for lib panic = panic

reconcile_status_after :
    {S : Type 0} (lib : Libraries) (r : AccessPolicyReconciler S) (p q : AccessPolicy) (w : S)
    (x : Result (Unit {0}) × Run AccessPolicy S)
    → Patches r
    → reconcile_policy lib r (record { object = initialize_policy_conditions lib p; world = w }) ≡ x
    → update_access_policy_condition lib x.1.object ≡ some q
    → (reconcile_status lib r (record { object = p; world = w })).0 ≡ result_for lib x.0
unfolding reconcile_status patch_status classify
reconcile_status_after lib r p q w (ok u, s) patches answered updated =
    ground (arith, patches q s.world)
reconcile_status_after lib r p q w (err e, s) patches answered updated =
    ground (arith, patches q s.world)
reconcile_status_after lib r p q w (panic, s) patches answered updated = ground arith

pub reconcile_status_answers :
    {S : Type 0} {lib : Libraries} (laws : ConditionLaws lib) (r : AccessPolicyReconciler S)
    (p : AccessPolicy) (w : S)
    → Patches r
    → (reconcile_status lib r (record { object = p; world = w })).0
      ≡ result_for lib
          (reconcile_policy lib r
            (record { object = initialize_policy_conditions lib p; world = w })).0
reconcile_status_answers {S} {lib} laws r p w patches =
    let x =
      reconcile_policy lib r (record { object = initialize_policy_conditions lib p; world = w }) in
    elim (Option-cases (update_access_policy_condition lib x.1.object)) [
      | inl nil ↦ absurd (ground (arith, update-reconcile_policy laws r p w))
      | inr (q, updated) ↦ reconcile_status_after lib r p q w x patches refl updated
    ]
