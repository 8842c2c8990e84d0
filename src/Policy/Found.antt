-- ===== src/Policy/Found.antt =====
-- What reconcilePolicy found where it succeeded.
use garage_storage_controlle.Prelude.{◌≡◌, ◌∙◌, sym, ap, refl, false, arith, Bool-cases, inl, inr}
use garage_storage_controlle.Exec.{
  Result, ok, err, panic, Run, Outcome, returned, failed, ◌>>=◌, bind-eq-ok,
}
use garage_storage_controlle.Api.{Bucket, AccessKey, AccessPolicy}
use garage_storage_controlle.Kube.{Libraries}
use garage_storage_controlle.Conditions.{ready}
use garage_storage_controlle.Policy.Conditions.{mark_policy_bucket_ready}
use garage_storage_controlle.Policy.Types.{AccessPolicyReconciler, not_met}
use garage_storage_controlle.Policy.Assign.{
  examine_bucket, examine_access_key, conclude, reconcile_policy,
}
use garage_storage_controlle.Policy.Grant.{bucket_ref, access_key_ref, bucket_seen}

module _ {S : Type 0} (lib : Libraries) (r : AccessPolicyReconciler S) where
  -- the bucket was found and is Ready
  abbrev pub SawBucket : AccessPolicy → Bucket → S → S → Type 0
  SawBucket p b w w₁ =
      (r.client.get_bucket (bucket_ref p) w ≡ (ok b, w₁))
      × (not_met (lib.find_status_condition b.status.conditions ready) ≡ false)

  abbrev pub SawKey : AccessPolicy → AccessKey → S → S → Type 0
  SawKey p k w w₁ =
      (r.client.get_access_key (access_key_ref p) w ≡ (ok k, w₁))
      × (not_met (lib.find_status_condition k.status.conditions ready) ≡ false)

  examine_bucket-returned :
      (p : AccessPolicy) (b : Bucket) (w : S) (t : Run AccessPolicy S) (x : Result Bucket × S)
      → r.client.get_bucket (bucket_ref p) w ≡ x
      → examine_bucket lib r (record { object = p; world = w }) ≡ (ok (returned b), t)
      → SawBucket p b w t.world × (access_key_ref t.object ≡ access_key_ref p)
  unfolding examine_bucket mark_policy_bucket_ready
  examine_bucket-returned p b w t (ok b', v) e h =
      elim (Bool-cases (not_met (lib.find_status_condition b'.status.conditions ready))) [
        | inl unmet ↦ absurd (ground arith)
        | inr met ↦
            let same : b' ≡ b = ground arith in
            let seen : bucket_seen lib b' p ≡ t.object = ground arith in
            (
              (
                e ∙ ground arith,
                ap (λ (x : Bucket). not_met (lib.find_status_condition x.status.conditions ready))
                      (sym same)
                    ∙ met,
              ),
              ap access_key_ref (sym seen),
            )
      ]
  examine_bucket-returned p b w t (err f, v) e h = absurd (ground arith)
  examine_bucket-returned p b w t (panic, v) e h = absurd (ground arith)

  examine_access_key-returned :
      (p : AccessPolicy) (k : AccessKey) (w : S) (t : Run AccessPolicy S) (x : Result AccessKey × S)
      → r.client.get_access_key (access_key_ref p) w ≡ x
      → examine_access_key lib r (record { object = p; world = w }) ≡ (ok (returned k), t)
      → SawKey p k w t.world
  unfolding examine_access_key
  examine_access_key-returned p k w t (ok k', v) e h =
      elim (Bool-cases (not_met (lib.find_status_condition k'.status.conditions ready))) [
        | inl unmet ↦ absurd (ground arith)
        | inr met ↦
            let same : k' ≡ k = ground arith in
            (
              e ∙ ground arith,
              ap (λ (x : AccessKey). not_met (lib.find_status_condition x.status.conditions ready))
                    (sym same)
                  ∙ met,
            )
      ]
  examine_access_key-returned p k w t (err f, v) e h = absurd (ground arith)
  examine_access_key-returned p k w t (panic, v) e h = absurd (ground arith)

  concluded-returned :
      (b : Outcome Bucket) (k : Outcome AccessKey) (s t : Run AccessPolicy S)
      → conclude lib r b k s ≡ (ok tt, t)
      → ((b' : Bucket) × (b ≡ returned b')) × ((k' : AccessKey) × (k ≡ returned k'))
  unfolding conclude
  concluded-returned (failed e) (failed f) s t h = absurd (ground arith)
  concluded-returned (failed e) (returned k) s t h = absurd (ground arith)
  concluded-returned (returned b) (failed f) s t h = absurd (ground arith)
  concluded-returned (returned b) (returned k) s t h = ((b, refl), (k, refl))

  -- what was found where reconcilePolicy succeeded
  pub reconcile_policy-found :
      (p : AccessPolicy) (w : S) (t : Run AccessPolicy S)
      → reconcile_policy lib r (record { object = p; world = w }) ≡ (ok tt, t)
      → (b : Bucket) × (k : AccessKey) × (w₁ w₂ : S) × SawBucket p b w w₁ × SawKey p k w₁ w₂
  unfolding reconcile_policy
  reconcile_policy-found p w t h =
      let s : Run AccessPolicy S = record { object = p; world = w } in
      let (b, s₁, e₁, h₁) =
        bind-eq-ok (examine_bucket lib r) (λ x. examine_access_key lib r >>= conclude lib r x) s t
          tt h in
      let (k, s₂, e₂, h₂) = bind-eq-ok (examine_access_key lib r) (conclude lib r b) s₁ t tt h₁ in
      let ((b', is_b), (k', is_k)) = concluded-returned b k s₂ t h₂ in
      let (saw_bucket, same) =
        examine_bucket-returned p b' w s₁ _ refl (e₁ ∙ ap (λ x. (ok x, s₁)) is_b) in
      let (got, key_ready) =
        examine_access_key-returned s₁.object k' s₁.world s₂ _ refl
          (e₂ ∙ ap (λ x. (ok x, s₂)) is_k) in
      (
        b',
        k',
        s₁.world,
        s₂.world,
        saw_bucket,
        (ap (λ ref. r.client.get_access_key ref s₁.world) (sym same) ∙ got, key_ready),
      )
