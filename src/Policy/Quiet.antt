-- ===== src/Policy/Quiet.antt =====
-- Reconcile of an AccessPolicy that is granted already: nothing is left to be written.
use garage_storage_controlle.Prelude.{
  ◌≡◌, ◌∙◌, sym, ap, refl, false, some, arith, List, str_eq, eq_refl, ℕ,
}
use garage_storage_controlle.Exec.{ok, no_requeue}
use garage_storage_controlle.Api.{Condition, Bucket, AccessKey, AccessPolicy}
use garage_storage_controlle.Kube.{Libraries}
use garage_storage_controlle.Kube.Laws.{ConditionLaws, UnchangedLaws}
use garage_storage_controlle.Conditions.{ready, init_condition, init_resource_conditions}
use garage_storage_controlle.Policy.Conditions.{
  with_conditions, policy_assignment_ready, policy_bucket_ready, policy_access_key_ready,
  ready_condition, summary_condition, available, settle, initialize_policy_conditions,
  update_access_policy_condition, mark_policy_key_ready, mark_policy_bucket_ready,
  mark_policy_assignment_ready,
}
use garage_storage_controlle.Policy.Types.{AccessPolicyReconciler, wanted_permissions, not_met}
use garage_storage_controlle.Policy.Assign.{conclude, reconcile_policy}
use garage_storage_controlle.Policy.Reconciler.{reconcile_status, patch_status, classify}
use garage_storage_controlle.Policy.Grant.{
  bucket_ref, access_key_ref, assigned, reconciled, update-assigned,
}

-- There is a condition of c's type with the same content, except for the transition time.
abbrev pub IsShown : Libraries → List Condition → Condition → Type 0
IsShown lib cs c =
    (d : Condition) × (lib.find_status_condition cs c.type ≡ some d)
    × (d.status ≡ c.status)
    × (d.reason ≡ c.reason)
    × (d.message ≡ c.message)
    × (d.observed_generation ≡ c.observed_generation)

module _ {lib : Libraries} (laws : ConditionLaws lib) where
  set-IsShown :
      (cs : List Condition) (c : Condition) → IsShown lib (lib.set_status_condition cs c) c
  set-IsShown cs c = (
    laws.stored cs c,
    rw (laws.find_set cs c c.type, eq_refl c.type) refl,
    laws.stored_status cs c,
    laws.stored_reason cs c,
    laws.stored_message cs c,
    laws.stored_generation cs c,
  )

  set-IsShown_other :
      (cs : List Condition) (c e : Condition)
      → str_eq c.type e.type ≡ false
      → IsShown lib cs e
      → IsShown lib (lib.set_status_condition cs c) e
  set-IsShown_other cs c e other (d, found, status, reason, message, generation) =
      (d, rw (laws.find_set cs c e.type, other) found, status, reason, message, generation)

abbrev bucket_condition : ℕ → Condition
bucket_condition generation =
    ready_condition generation policy_bucket_ready "BucketReady" "Bucket is ready for assignment"

abbrev key_condition : ℕ → Condition
key_condition generation =
    ready_condition generation policy_access_key_ready "AccessKeyReady"
      "AccessKey is ready for assignment"

abbrev assignment_condition : ℕ → Condition
assignment_condition generation =
    ready_condition generation policy_assignment_ready "AccessPolicyAssigned"
      "Access policy configured in external system."

-- The status of a policy that was granted for this bucket, this key and its generation.
pub record IsQuiet (lib : Libraries) (b : Bucket) (k : AccessKey) (p : AccessPolicy) : Type 0 where
  pub bucket : IsShown lib p.status.conditions (bucket_condition p.meta.generation)
  pub key : IsShown lib p.status.conditions (key_condition p.meta.generation)
  pub assignment : IsShown lib p.status.conditions (assignment_condition p.meta.generation)
  pub ready : IsShown lib p.status.conditions (summary_condition p.meta.generation available)
  pub bucket_id : p.status.bucket_id ≡ b.status.bucket_id
  pub access_key_id : p.status.access_key_id ≡ k.status.access_key_id
  pub generation : p.status.observed_generation ≡ p.meta.generation

module _ {lib : Libraries} (laws : ConditionLaws lib) (b : Bucket) (k : AccessKey)
    (p : AccessPolicy) where
  settled-IsQuiet : IsQuiet lib b k (settle lib available (assigned lib b k p))
  unfolding settle mark_policy_bucket_ready mark_policy_key_ready mark_policy_assignment_ready
  settled-IsQuiet =
      let n = p.meta.generation in
      let first = lib.set_status_condition p.status.conditions (bucket_condition n) in
      let second = lib.set_status_condition first (key_condition n) in
      let third = lib.set_status_condition second (assignment_condition n) in
      let keep = set-IsShown_other laws in
      record {
        bucket = keep third (summary_condition n available) (bucket_condition n) refl (
            keep second (assignment_condition n) (bucket_condition n) refl (
              keep first (key_condition n) (bucket_condition n) refl
                (set-IsShown laws p.status.conditions (bucket_condition n))));
        key = keep third (summary_condition n available) (key_condition n) refl (
            keep second (assignment_condition n) (key_condition n) refl
              (set-IsShown laws first (key_condition n)));
        assignment =
            keep third (summary_condition n available) (assignment_condition n) refl
              (set-IsShown laws second (assignment_condition n));
        ready = set-IsShown laws third (summary_condition n available);
        bucket_id = refl;
        access_key_id = refl;
        generation = refl;
      }

module _ {lib : Libraries} (laws : ConditionLaws lib) (unchanged : UnchangedLaws lib) (b : Bucket)
    (k : AccessKey) (p : AccessPolicy) (quiet : IsQuiet lib b k p) where
  set_shown :
      (c : Condition)
      → IsShown lib p.status.conditions c
      → lib.set_status_condition p.status.conditions c ≡ p.status.conditions
  set_shown c (d, found, status, reason, message, generation) =
      unchanged.set_unchanged p.status.conditions c d found status reason message generation

  init_shown :
      (c : Condition)
      → IsShown lib p.status.conditions c
      → init_condition lib c.type p.status.conditions ≡ p.status.conditions
  unfolding init_condition
  init_shown c (d, found, status, reason, message, generation) = ground (arith, found)

  initialize_quiet : initialize_policy_conditions lib p ≡ p
  unfolding initialize_policy_conditions init_resource_conditions
  initialize_quiet = ap (with_conditions p) (
      rw
        (
          init_shown (summary_condition p.meta.generation available) quiet.ready,
          init_shown (key_condition p.meta.generation) quiet.key,
          init_shown (bucket_condition p.meta.generation) quiet.bucket,
          init_shown (assignment_condition p.meta.generation) quiet.assignment,
        )
        refl)

  assigned_quiet : assigned lib b k p ≡ p
  unfolding mark_policy_bucket_ready mark_policy_key_ready mark_policy_assignment_ready
  assigned_quiet =
      rw
        (
          set_shown (bucket_condition p.meta.generation) quiet.bucket,
          set_shown (key_condition p.meta.generation) quiet.key,
          set_shown (assignment_condition p.meta.generation) quiet.assignment,
          sym quiet.bucket_id,
          sym quiet.access_key_id,
        )
        refl

  settle_quiet : settle lib available p ≡ p
  unfolding settle
  settle_quiet =
      rw
        (
          set_shown (summary_condition p.meta.generation available) quiet.ready,
          sym quiet.generation,
        )
        refl

  updated_quiet : update_access_policy_condition lib p ≡ some p
  updated_quiet =
      ap (update_access_policy_condition lib) (sym assigned_quiet)
      ∙ update-assigned laws b k p
      ∙ ap (λ q. some (settle lib available q)) assigned_quiet
      ∙ ap some settle_quiet

module _ {S : Type 0} {lib : Libraries} (laws : ConditionLaws lib) (unchanged : UnchangedLaws lib)
    (r : AccessPolicyReconciler S) (b : Bucket) (k : AccessKey)
    (bucket_ready : not_met (lib.find_status_condition b.status.conditions ready) ≡ false)
    (key_ready : not_met (lib.find_status_condition k.status.conditions ready) ≡ false) where
  -- what reconcilePolicy and updateAccessPolicyCondition make of a policy that is granted
  granted :
      (p : AccessPolicy) (w w₁ w₂ w₃ : S)
      → r.client.get_bucket (bucket_ref p) w ≡ (ok b, w₁)
      → r.client.get_access_key (access_key_ref p) w₁ ≡ (ok k, w₂)
      → r.admin_client.set_permissions k.status.access_key_id b.status.bucket_id
          (wanted_permissions p)
          w₂
        ≡ (ok tt, w₃)
      → reconcile_policy lib r (record { object = p; world = w })
        ≡ (ok tt, record { object = assigned lib b k p; world = w₃ })
  unfolding conclude mark_policy_bucket_ready mark_policy_key_ready
  granted p w w₁ w₂ w₃ got_bucket got_key accepted =
      reconciled laws r p b k w w₁ w₂ w₃ got_bucket bucket_ready got_key key_ready ∙ ground arith

  -- a status that is as before is not written
  quiet_status :
      (p : AccessPolicy) (w w₁ w₂ w₃ : S)
      → IsQuiet lib b k p
      → r.client.get_bucket (bucket_ref p) w ≡ (ok b, w₁)
      → r.client.get_access_key (access_key_ref p) w₁ ≡ (ok k, w₂)
      → r.admin_client.set_permissions k.status.access_key_id b.status.bucket_id
          (wanted_permissions p)
          w₂
        ≡ (ok tt, w₃)
      → reconcile_status lib r (record { object = p; world = w })
        ≡ (ok no_requeue, record { object = p; world = w₃ })
  unfolding reconcile_status classify patch_status
  quiet_status p w w₁ w₂ w₃ quiet got_bucket got_key accepted =
      let same = initialize_quiet laws unchanged b k p quiet in
      let succeeded : reconcile_policy lib r
            (record { object = initialize_policy_conditions lib p; world = w })
          ≡ (ok tt, record { object = p; world = w₃ }) =
        ap (λ q. reconcile_policy lib r (record { object = q; world = w })) same
        ∙ granted p w w₁ w₂ w₃ got_bucket got_key accepted
        ∙ ap (λ q. (ok tt, record { object = q; world = w₃ }))
            (assigned_quiet laws unchanged b k p quiet) in
      ground (
        arith,
        succeeded,
        updated_quiet laws unchanged b k p quiet,
        unchanged.access_policy_status_same p.status,
      )

  shown_status :
      (p : AccessPolicy) (w w₁ w₂ w₃ : S)
      → r.client.get_bucket (bucket_ref p) w ≡ (ok b, w₁)
      → r.client.get_access_key (access_key_ref p) w₁ ≡ (ok k, w₂)
      → r.admin_client.set_permissions k.status.access_key_id b.status.bucket_id
          (wanted_permissions p)
          w₂
        ≡ (ok tt, w₃)
      → (reconcile_status lib r (record { object = p; world = w })).1.object
        ≡ settle lib available (assigned lib b k (initialize_policy_conditions lib p))
  unfolding reconcile_status classify patch_status initialize_policy_conditions
  shown_status p w w₁ w₂ w₃ got_bucket got_key accepted =
      let first = initialize_policy_conditions lib p in
      ground (
        arith,
        granted first w w₁ w₂ w₃ got_bucket got_key accepted,
        update-assigned laws b k first,
      )

  -- For a live policy with its metadata in place: where the bucket and the access key are there and
  -- Ready and Garage accepts the permissions, both when Reconcile deals with the status and when it
  -- does so again with the status that it left, the second time makes the two lookups and the call
  -- of SetPermissions alone, changes nothing in the policy and asks for no further call. The laws are
  -- the documented behaviour of the condition helpers and that a status equals itself.
  pub reconcile_status_quiet :
      (p : AccessPolicy) (w w₁ w₂ w₃ u u₁ u₂ u₃ : S)
      → r.client.get_bucket (bucket_ref p) w ≡ (ok b, w₁)
      → r.client.get_access_key (access_key_ref p) w₁ ≡ (ok k, w₂)
      → r.admin_client.set_permissions k.status.access_key_id b.status.bucket_id
          (wanted_permissions p)
          w₂
        ≡ (ok tt, w₃)
      → r.client.get_bucket (bucket_ref p) u ≡ (ok b, u₁)
      → r.client.get_access_key (access_key_ref p) u₁ ≡ (ok k, u₂)
      → r.admin_client.set_permissions k.status.access_key_id b.status.bucket_id
          (wanted_permissions p)
          u₂
        ≡ (ok tt, u₃)
      → let q = (reconcile_status lib r (record { object = p; world = w })).1.object in
        reconcile_status lib r (record { object = q; world = u })
        ≡ (ok no_requeue, record { object = q; world = u₃ })
  unfolding settle mark_policy_bucket_ready mark_policy_key_ready mark_policy_assignment_ready
      initialize_policy_conditions
  reconcile_status_quiet p w w₁ w₂ w₃ u u₁ u₂ u₃ bucket_first key_first accepted_first bucket_again
        key_again accepted_again =
      let first = initialize_policy_conditions lib p in
      let shown = shown_status p w w₁ w₂ w₃ bucket_first key_first accepted_first in
      rw shown (
        quiet_status (settle lib available (assigned lib b k first)) u u₁ u₂ u₃
          (settled-IsQuiet laws b k first) bucket_again key_again accepted_again)
