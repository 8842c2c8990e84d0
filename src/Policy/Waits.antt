-- ===== src/Policy/Waits.antt =====
-- reconcilePolicy where the bucket or the key is not Ready.
use garage_storage_controlle.Prelude.{
  String, ◌≡◌, refl, true, false, Bool-cases, inl, inr, ap, ◌||◌, none, Bool, arith, ◌∙◌,
}
use garage_storage_controlle.Errors.{Err, is, wrap, join, sentinel, dependency_not_ready}
use garage_storage_controlle.Exec.{
  Result, ok, err, ◌>>=◌, bind-ok, Run, Outcome, returned, failed, requeue_seconds,
}
use garage_storage_controlle.Api.{Bucket, AccessKey, AccessPolicy}
use garage_storage_controlle.Kube.{Libraries}
use garage_storage_controlle.Kube.Laws.{NotFoundLaws}
use garage_storage_controlle.Conditions.{ready}
use garage_storage_controlle.Policy.Conditions.{
  mark_policy_condition_not_ready, mark_policy_bucket_ready, mark_policy_key_ready,
  policy_bucket_ready, policy_access_key_ready, reason_dependencies_not_ready,
}
use garage_storage_controlle.Policy.Grant.{bucket_ref, access_key_ref}
use garage_storage_controlle.Policy.Types.{
  AccessPolicyReconciler, not_met, message_of, set_bucket_id, set_access_key_id,
}
use garage_storage_controlle.Policy.Assign.{
  examine_bucket, examine_access_key, conclude, reconcile_policy,
}
use garage_storage_controlle.Policy.Reconciler.{classify}

-- the errors of checkBucket and checkAccessKey for a dependency that is there and not Ready
abbrev bucket_not_ready : Err
bucket_not_ready = wrap "bucket not ready: " (sentinel dependency_not_ready) ""

abbrev key_not_ready : Err
key_not_ready = wrap "access key not ready: " (sentinel dependency_not_ready) ""

abbrev verdict : {A : Type 0} → Bool → Err → A → Outcome A
verdict true e a = failed e
verdict false e a = returned a

module _ {S : Type 0} {lib : Libraries} (errors : NotFoundLaws lib) (r : AccessPolicyReconciler S)
    (p : AccessPolicy) where
  examined_bucket :
      (b : Bucket) (w w₁ : S)
      → r.client.get_bucket (bucket_ref p) w ≡ (ok b, w₁)
      → (q : AccessPolicy) × (access_key_ref q ≡ access_key_ref p)
        × (examine_bucket lib r (record { object = p; world = w }) ≡ (
          ok (
              verdict
                (not_met (lib.find_status_condition b.status.conditions ready))
                bucket_not_ready
                b),
          record { object = q; world = w₁ },
        ))
  unfolding examine_bucket mark_policy_condition_not_ready mark_policy_bucket_ready
  examined_bucket b w w₁ got =
      elim (Bool-cases (not_met (lib.find_status_condition b.status.conditions ready))) [
        | inl unmet ↦
            let no : lib.is_not_found bucket_not_ready ≡ false =
              errors.not_found_wrap _ _ _ ∙ errors.not_found_sentinel dependency_not_ready in
            (
              mark_policy_condition_not_ready lib policy_bucket_ready reason_dependencies_not_ready
                  (message_of "Bucket condition not met"
                    (lib.find_status_condition b.status.conditions ready))
                  (set_bucket_id b.status.bucket_id p),
              refl,
              ground arith,
            )
        | inr met ↦
            (mark_policy_bucket_ready lib (set_bucket_id b.status.bucket_id p), refl, ground arith)
      ]

  examined_key :
      (k : AccessKey) (w w₁ : S)
      → r.client.get_access_key (access_key_ref p) w ≡ (ok k, w₁)
      → (q : AccessPolicy) × (examine_access_key lib r (record { object = p; world = w }) ≡ (
        ok (
            verdict
              (not_met (lib.find_status_condition k.status.conditions ready))
              key_not_ready
              k),
        record { object = q; world = w₁ },
      ))
  unfolding examine_access_key
  examined_key k w w₁ got =
      elim (Bool-cases (not_met (lib.find_status_condition k.status.conditions ready))) [
        | inl unmet ↦
            let no : lib.is_not_found key_not_ready ≡ false =
              errors.not_found_wrap _ _ _ ∙ errors.not_found_sentinel dependency_not_ready in
            (
              mark_policy_condition_not_ready lib policy_access_key_ready
                  reason_dependencies_not_ready
                  (message_of "AccessKey condition not met"
                    (lib.find_status_condition k.status.conditions ready))
                  (set_access_key_id k.status.access_key_id p),
              ground arith,
            )
        | inr met ↦
            (mark_policy_key_ready lib (set_access_key_id k.status.access_key_id p), ground arith)
      ]

is_not_found-waiting :
    {lib : Libraries} (errors : NotFoundLaws lib) (pre : String)
    → lib.is_not_found (wrap pre (sentinel dependency_not_ready) "") ≡ false
is_not_found-waiting errors pre =
    errors.not_found_wrap _ _ _ ∙ errors.not_found_sentinel dependency_not_ready

-- an error that a dependency is not Ready, which classify answers by trying again
abbrev IsRetried :
    {S : Type 0}
    → Libraries
    → AccessPolicyReconciler S
    → Result (Unit {0}) × Run AccessPolicy S
    → S
    → Type 0
IsRetried lib r (result, after) w =
    (e : Err) × (result ≡ err e)
    × (is e dependency_not_ready ≡ true)
    × (lib.is_not_found e ≡ false)
    × (classify lib r (failed e) ≡ (requeue_seconds 10, none))
    × (after.world ≡ w)

classify_waits :
    {S : Type 0} (lib : Libraries) (r : AccessPolicyReconciler S) (e : Err)
    → is e dependency_not_ready ≡ true
    → lib.is_not_found e ≡ false
    → classify lib r (failed e) ≡ (requeue_seconds 10, none)
unfolding classify
classify_waits lib r e waiting found = ground arith

conclude_waits :
    {S : Type 0} {lib : Libraries} (errors : NotFoundLaws lib) (r : AccessPolicyReconciler S)
    (b : Bucket) (k : AccessKey) (x y : Bool) (s : Run AccessPolicy S)
    → (x || y) ≡ true
    → IsRetried lib r
        (conclude lib r (verdict x bucket_not_ready b) (verdict y key_not_ready k) s)
        s.world
unfolding conclude is
conclude_waits errors r b k true true s h = (
  join bucket_not_ready key_not_ready,
  refl,
  refl,
  errors.not_found_join bucket_not_ready key_not_ready (is_not_found-waiting errors _)
      (is_not_found-waiting errors _),
  classify_waits _ r _ refl (
      errors.not_found_join bucket_not_ready key_not_ready (is_not_found-waiting errors _)
        (is_not_found-waiting errors _)),
  refl,
)
conclude_waits errors r b k true false s h = (
  bucket_not_ready,
  refl,
  refl,
  is_not_found-waiting errors _,
  classify_waits _ r _ refl (is_not_found-waiting errors _),
  refl,
)
conclude_waits errors r b k false true s h = (
  key_not_ready,
  refl,
  refl,
  is_not_found-waiting errors _,
  classify_waits _ r _ refl (is_not_found-waiting errors _),
  refl,
)
conclude_waits errors r b k false false s h = cc

-- Where the bucket and the access key are there and one of them is not Ready, reconcilePolicy leaves
-- the world as the two lookups leave it, and returns an error e: errors.Is finds
-- errDependencyNotReady in e, IsNotFound is false of e, and the part of Reconcile that classifies
-- the answer makes of e a request to be called again after ten seconds and no error. The laws are
-- how IsNotFound answers for wrapped and joined errors.
pub reconcile_policy_waits :
    {S : Type 0} {lib : Libraries} (errors : NotFoundLaws lib) (r : AccessPolicyReconciler S)
    (p : AccessPolicy) (b : Bucket) (k : AccessKey) (w w₁ w₂ : S)
    → r.client.get_bucket (bucket_ref p) w ≡ (ok b, w₁)
    → r.client.get_access_key (access_key_ref p) w₁ ≡ (ok k, w₂)
    → (not_met (lib.find_status_condition b.status.conditions ready)
        || not_met (lib.find_status_condition k.status.conditions ready))
      ≡ true
    → let (result, after) = reconcile_policy lib r (record { object = p; world = w }) in
      (e : Err) × (result ≡ err e)
      × (is e dependency_not_ready ≡ true)
      × (lib.is_not_found e ≡ false)
      × (classify lib r (failed e) ≡ (requeue_seconds 10, none))
      × (after.world ≡ w₂)
unfolding reconcile_policy
reconcile_policy_waits {lib = lib} errors r p b k w w₁ w₂ got_bucket got_key waiting =
    let (q, same, at_bucket) = examined_bucket errors r p b w w₁ got_bucket in
    let (q', at_key) =
      examined_key errors r q k w₁ w₂ (ap (λ n. r.client.get_access_key n w₁) same ∙ got_key) in
    let bucket =
      verdict (not_met (lib.find_status_condition b.status.conditions ready)) bucket_not_ready b in
    let whole =
      bind-ok (examine_bucket lib r) (λ o. examine_access_key lib r >>= conclude lib r o) at_bucket
      ∙ bind-ok (examine_access_key lib r) (conclude lib r bucket) at_key in
    rw whole (conclude_waits errors r b k _ _ (record { object = q'; world = w₂ }) waiting)
