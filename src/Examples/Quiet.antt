-- ===== src/Examples/Quiet.antt =====
-- Two runs of the status part of Reconcile, with condition helpers that keep the transition time of
-- a condition whose status stays, and a comparison of statuses field by field.
use garage_storage_controlle.Prelude.{
  ℕ, suc, String, ◌≡◌, ◌∙◌, sym, ap, refl, Bool, true, false, ◌&&◌, none, some, List, [], ◌∷◌,
  str_eq, eq_refl, eq_iff, ◌==◌, arith, if◌then◌else◌,
}
use garage_storage_controlle.Exec.{ok, no_requeue}
use garage_storage_controlle.Api.{
  Condition, ConditionStatus, condition_true, condition_false, condition_unknown,
  AccessPolicyStatus,
}
use garage_storage_controlle.Kube.{Libraries}
use garage_storage_controlle.Kube.Laws.{ConditionLaws, UnchangedLaws}
use garage_storage_controlle.Policy.Types.{AccessPolicyReconciler}
use garage_storage_controlle.Policy.Reconciler.{reconcile_status}
use garage_storage_controlle.Policy.Quiet.{reconcile_status_quiet}
use garage_storage_controlle.Examples.Fixtures.{
  lib, find_condition, client, recorder, photos, reader, policy,
}

abbrev same_state : ConditionStatus → ConditionStatus → Bool
same_state condition_true condition_true = true
same_state condition_false condition_false = true
same_state condition_unknown condition_unknown = true
same_state _ _ = false

same_state_refl : (s : ConditionStatus) → same_state s s ≡ true
same_state_refl condition_true = refl
same_state_refl condition_false = refl
same_state_refl condition_unknown = refl

abbrev merge : Condition → Condition → Condition
merge d c = record c {
  last_transition_time =
      if same_state d.status c.status then d.last_transition_time else c.last_transition_time;
}

abbrev set_merged : List Condition → Condition → List Condition
set_merged [] c = c ∷ []
set_merged (d ∷ ds) c = if str_eq d.type c.type then merge d c ∷ ds else d ∷ set_merged ds c

abbrev merged : List Condition → Condition → Condition
merged cs c = elim (find_condition cs c.type) [ none ↦ c | some d ↦ merge d c ]

find_condition-set_merged :
    (cs : List Condition) (c : Condition) (t : String)
    → find_condition (set_merged cs c) t
      ≡ (if str_eq c.type t then some (merged cs c) else find_condition cs t)
find_condition-set_merged [] c t = refl
find_condition-set_merged (d ∷ ds) c t = ground (
  arith,
  eq_iff d.type c.type,
  eq_iff d.type t,
  eq_iff c.type t,
  find_condition-set_merged ds c t,
)

abbrev same_condition : Condition → Condition → Bool
same_condition c d =
    str_eq c.type d.type
    && (same_state c.status d.status
        && (c.observed_generation == d.observed_generation
            && (str_eq c.reason d.reason && str_eq c.message d.message)))

same_condition_refl : (c : Condition) → same_condition c c ≡ true
same_condition_refl c =
    ground (arith, eq_refl c.type, same_state_refl c.status, eq_refl c.reason, eq_refl c.message)

abbrev same_conditions : List Condition → List Condition → Bool
same_conditions [] [] = true
same_conditions (c ∷ cs) (d ∷ ds) = same_condition c d && same_conditions cs ds
same_conditions _ _ = false

same_conditions_refl : (cs : List Condition) → same_conditions cs cs ≡ true
same_conditions_refl [] = refl
same_conditions_refl (c ∷ cs) = rw (same_condition_refl c, same_conditions_refl cs) refl

abbrev same_status : AccessPolicyStatus → AccessPolicyStatus → Bool
same_status s t =
    same_conditions s.conditions t.conditions
    && (s.observed_generation == t.observed_generation
        && (str_eq s.bucket_id t.bucket_id && str_eq s.access_key_id t.access_key_id))

same_status_refl : (s : AccessPolicyStatus) → same_status s s ≡ true
same_status_refl s =
    ground (arith, same_conditions_refl s.conditions, eq_refl s.bucket_id, eq_refl s.access_key_id)

abbrev careful : Libraries
careful = record lib { set_status_condition = set_merged; access_policy_status_equal = same_status }

careful_laws : ConditionLaws careful
careful_laws = record {
  stored = merged;
  find_set = find_condition-set_merged;
  stored_status = λ cs c. ground arith;
  stored_reason = λ cs c. ground arith;
  stored_message = λ cs c. ground arith;
  stored_generation = λ cs c. ground arith;
}

merge_same :
    (d c : Condition)
    → str_eq d.type c.type ≡ true
    → d.status ≡ c.status
    → d.reason ≡ c.reason
    → d.message ≡ c.message
    → d.observed_generation ≡ c.observed_generation
    → merge d c ≡ d
merge_same d c type status reason message generation =
    let kept = ap (same_state d.status) (sym status) ∙ same_state_refl d.status in
    ground (arith, kept, eq_iff d.type c.type)

set_merged_same :
    (cs : List Condition) (c d : Condition)
    → find_condition cs c.type ≡ some d
    → d.status ≡ c.status
    → d.reason ≡ c.reason
    → d.message ≡ c.message
    → d.observed_generation ≡ c.observed_generation
    → set_merged cs c ≡ cs
set_merged_same [] c d found status reason message generation = absurd (ground arith)
set_merged_same (e ∷ es) c d found status reason message generation =
    ground (arith, merge_same d c, set_merged_same es c d, found)

careful_unchanged : UnchangedLaws careful
careful_unchanged = record {
  set_unchanged = set_merged_same;
  access_policy_status_same = same_status_refl;
}

abbrev accepting : AccessPolicyReconciler ℕ
accepting = record {
  client = client;
  admin_client = record { set_permissions = λ _ _ _ w. (ok tt, suc w) };
  recorder = recorder;
}

-- The second run begins where the world is 10, and makes two lookups and the call of SetPermissions.
reconcile_status_quiet_example :
    let q = (reconcile_status careful accepting (record { object = policy; world = 0 })).1.object in
    reconcile_status careful accepting (record { object = q; world = 10 })
    ≡ (ok no_requeue, record { object = q; world = 13 })
reconcile_status_quiet_example =
    reconcile_status_quiet careful_laws careful_unchanged accepting photos reader refl refl policy 0
      1 2 3 10 11 12 13 refl refl refl refl refl refl
