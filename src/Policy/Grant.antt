-- ===== src/Policy/Grant.antt =====
-- reconcilePolicy where the bucket and the access key are there, and what Ready then says.
use garage_storage_controlle.Prelude.{String, ◌++◌, ◌≡◌, ◌∙◌, refl, false, some, arith}
use garage_storage_controlle.Errors.{Err, text, wrap}
use garage_storage_controlle.Exec.{ok, err, ◌>>=◌, bind-ok, returned}
use garage_storage_controlle.Api.{
  Bucket, AccessKey, AccessPolicy, Condition, ConditionStatus, NamespacedName, condition_true,
  condition_false,
}
use garage_storage_controlle.Kube.{Libraries}
use garage_storage_controlle.Kube.Laws.{ConditionLaws}
use garage_storage_controlle.Conditions.{
  ready, default_ready_reason, mark_not_ready, not_ready_condition,
}
use garage_storage_controlle.Policy.Conditions.{
  policy_assignment_ready, Summary, available, blame, summary_condition, settle,
  update_access_policy_condition, mark_policy_condition_not_ready, mark_policy_key_ready,
  mark_policy_bucket_ready, mark_policy_assignment_ready,
}
use garage_storage_controlle.Policy.Types.{
  AccessPolicyReconciler, not_met, wanted_permissions, set_bucket_id, set_access_key_id,
  reason_policy_assignment_failed,
}
use garage_storage_controlle.Policy.Assign.{
  examine_bucket, examine_access_key, conclude, reconcile_policy,
}

abbrev pub bucket_ref : AccessPolicy → NamespacedName
bucket_ref p = record { namespace = p.meta.namespace; name = p.spec.bucket }

abbrev pub access_key_ref : AccessPolicy → NamespacedName
access_key_ref p = record { namespace = p.meta.namespace; name = p.spec.access_key }

-- The Ready condition has this status and reason.
abbrev pub ShowsReady : Libraries → AccessPolicy → ConditionStatus → String → Type 0
ShowsReady lib p status reason =
    (c : Condition) × (lib.find_status_condition p.status.conditions ready ≡ some c)
    × (c.status ≡ status)
    × (c.reason ≡ reason)

-- the policy after a check that found the bucket, or the key, Ready
abbrev pub bucket_seen : Libraries → Bucket → AccessPolicy → AccessPolicy
bucket_seen lib b p = mark_policy_bucket_ready lib (set_bucket_id b.status.bucket_id p)

abbrev pub key_seen : Libraries → AccessKey → AccessPolicy → AccessPolicy
key_seen lib k p = mark_policy_key_ready lib (set_access_key_id k.status.access_key_id p)

-- ... and after the assignment
abbrev pub assigned : Libraries → Bucket → AccessKey → AccessPolicy → AccessPolicy
assigned lib b k p = mark_policy_assignment_ready lib (key_seen lib k (bucket_seen lib b p))

abbrev refused : Libraries → Err → Bucket → AccessKey → AccessPolicy → AccessPolicy
refused lib e b k p =
    mark_policy_condition_not_ready lib policy_assignment_ready reason_policy_assignment_failed
      ("Failed to apply access policy to Garage: " ++ text e) (key_seen lib k (bucket_seen lib b p))

module _ {lib : Libraries} (laws : ConditionLaws lib) where
  settle-ShowsReady :
      (s : Summary) (p : AccessPolicy) → ShowsReady lib (settle lib s p) s.status s.reason
  unfolding settle
  settle-ShowsReady s p = (
    laws.stored p.status.conditions (summary_condition p.meta.generation s),
    laws.find_set p.status.conditions (summary_condition p.meta.generation s) ready,
    laws.stored_status p.status.conditions (summary_condition p.meta.generation s),
    laws.stored_reason p.status.conditions (summary_condition p.meta.generation s),
  )

  pub update-assigned :
      (b : Bucket) (k : AccessKey) (p : AccessPolicy)
      → update_access_policy_condition lib (assigned lib b k p)
        ≡ some (settle lib available (assigned lib b k p))
  unfolding update_access_policy_condition mark_policy_bucket_ready mark_policy_key_ready
      mark_policy_assignment_ready
  update-assigned b k p = grind (arith, laws.find_set, laws.stored_status)

  update-refused :
      (e : Err) (b : Bucket) (k : AccessKey) (p : AccessPolicy)
      → (q : AccessPolicy) × (update_access_policy_condition lib (refused lib e b k p) ≡ some q)
        × ShowsReady lib q condition_false reason_policy_assignment_failed
  unfolding update_access_policy_condition mark_policy_bucket_ready mark_policy_key_ready
      mark_policy_condition_not_ready mark_not_ready
  update-refused e b k p =
      let q = key_seen lib k (bucket_seen lib b p) in
      let c = laws.stored q.status.conditions (
        not_ready_condition p.meta.generation policy_assignment_ready
          reason_policy_assignment_failed
          ("Failed to apply access policy to Garage: " ++ text e)) in
      let s = blame "Policy assignment failed: " c in
      let (shown, at_ready, status, reason) = settle-ShowsReady s (refused lib e b k p) in
      (
        settle lib s (refused lib e b k p),
        grind (arith, laws.find_set, laws.stored_status),
        (shown, at_ready, status, reason ∙ laws.stored_reason _ _),
      )

module _ {S : Type 0} {lib : Libraries} (laws : ConditionLaws lib) (r : AccessPolicyReconciler S)
    (p : AccessPolicy) (b : Bucket) (k : AccessKey) (w w₁ w₂ w₃ : S)
    (got_bucket : r.client.get_bucket (bucket_ref p) w ≡ (ok b, w₁))
    (bucket_ready : not_met (lib.find_status_condition b.status.conditions ready) ≡ false)
    (got_key : r.client.get_access_key (access_key_ref p) w₁ ≡ (ok k, w₂))
    (key_ready : not_met (lib.find_status_condition k.status.conditions ready) ≡ false) where
  examined_bucket :
      examine_bucket lib r (record { object = p; world = w })
      ≡ (ok (returned b), record { object = bucket_seen lib b p; world = w₁ })
  unfolding examine_bucket
  examined_bucket = ground arith

  examined_key :
      examine_access_key lib r (record { object = bucket_seen lib b p; world = w₁ })
      ≡ (ok (returned k), record { object = key_seen lib k (bucket_seen lib b p); world = w₂ })
  unfolding examine_access_key mark_policy_bucket_ready
  examined_key = ground arith

  pub reconciled :
      reconcile_policy lib r (record { object = p; world = w })
      ≡ conclude lib r
          (returned b)
          (returned k)
          (record { object = key_seen lib k (bucket_seen lib b p); world = w₂ })
  unfolding reconcile_policy
  reconciled =
      bind-ok (examine_bucket lib r) (λ bucket. examine_access_key lib r >>= conclude lib r bucket)
        examined_bucket
      ∙ bind-ok (examine_access_key lib r) (conclude lib r (returned b)) examined_key

  -- The bucket and the access key are there and Ready. If Garage accepts the permissions of the
  -- spec for the key's and the bucket's identifiers, reconcilePolicy succeeds with no further call,
  -- and the policy records both identifiers, and it becomes Ready as Available for this generation.
  pub reconcile_policy_grants :
      r.admin_client.set_permissions k.status.access_key_id b.status.bucket_id
          (wanted_permissions p)
          w₂
        ≡ (ok tt, w₃)
      → (q q' : AccessPolicy) × (reconcile_policy lib r (record { object = p; world = w })
          ≡ (ok tt, record { object = q; world = w₃ }))
        × (update_access_policy_condition lib q ≡ some q')
        × ShowsReady lib q' condition_true default_ready_reason
        × (q'.status.observed_generation ≡ p.meta.generation)
        × (q'.status.bucket_id ≡ b.status.bucket_id)
        × (q'.status.access_key_id ≡ k.status.access_key_id)
  unfolding conclude settle mark_policy_bucket_ready mark_policy_key_ready
      mark_policy_assignment_ready
  reconcile_policy_grants accepted = (
    assigned lib b k p,
    settle lib available (assigned lib b k p),
    reconciled ∙ ground arith,
    update-assigned laws b k p,
    settle-ShowsReady laws available (assigned lib b k p),
    refl,
    refl,
    refl,
  )

  -- The bucket and the access key are there and Ready. If Garage refuses the permissions of the
  -- spec, its error is the cause of reconcilePolicy's error, the refusal is an event, and the policy
  -- is not Ready for the reason PolicyAssignmentFailed.
  pub reconcile_policy_refused :
      (e : Err)
      → r.admin_client.set_permissions k.status.access_key_id b.status.bucket_id
          (wanted_permissions p)
          w₂
        ≡ (err e, w₃)
      → (q q' : AccessPolicy) × (reconcile_policy lib r (record { object = p; world = w }) ≡ (
        err (wrap "applying access policy: " e ""),
        record {
          object = q;
          world =
              r.recorder.eventf p.meta "Warning" reason_policy_assignment_failed
                ("Failed to apply access policy to Garage: " ++ text e)
                w₃;
        },
      ))
        × (update_access_policy_condition lib q ≡ some q')
        × ShowsReady lib q' condition_false reason_policy_assignment_failed
  unfolding conclude mark_policy_bucket_ready mark_policy_key_ready
  reconcile_policy_refused e rejected =
      let (q', updated, shown) = update-refused laws e b k p in
      (refused lib e b k p, q', reconciled ∙ ground arith, updated, shown)
