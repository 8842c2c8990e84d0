-- ===== src/Policy/Conditions.antt =====
-- internal/controller/accesspolicy_conditions.go
use garage_storage_controlle.Prelude.{
  ℕ, String, ◌++◌, ◌&&◌, Option, none, some, List, [], ◌∷◌, pos, if◌then◌else◌,
}
use garage_storage_controlle.Api.{
  Condition, ConditionStatus, condition_true, condition_false, is_true, is_false, AccessPolicy,
}
use garage_storage_controlle.Kube.{Libraries}
use garage_storage_controlle.Conditions.{
  ready, default_ready_reason, default_ready_message, init_resource_conditions, mark_not_ready,
}

abbrev pub policy_assignment_ready : String
policy_assignment_ready = "PolicyReady"

abbrev pub policy_bucket_ready : String
policy_bucket_ready = "PolicyBucketReady"

abbrev pub policy_access_key_ready : String
policy_access_key_ready = "PolicyAccessKeyReady"

abbrev pub reason_access_key_missing : String
reason_access_key_missing = "AccessKeyMissing"

abbrev pub reason_bucket_missing : String
reason_bucket_missing = "BucketMissing"

abbrev pub reason_dependencies_not_ready : String
reason_dependencies_not_ready = "DependenciesNotReady"

-- `p.Status.Conditions` is assigned through a pointer.
abbrev pub with_conditions : AccessPolicy → List Condition → AccessPolicy
with_conditions p cs = record p { status = record p.status { conditions = cs } }

-- what the three `mark…Ready` functions set
abbrev pub ready_condition : ℕ → String → String → String → Condition
ready_condition generation cond_type reason message = record {
  type = cond_type;
  status = condition_true;
  observed_generation = generation;
  last_transition_time = pos 0;
  reason = reason;
  message = message;
}

-- readyStat, readyReason and readyMessage of updateAccessPolicyCondition
pub record Summary : Type 0 where
  pub status : ConditionStatus
  pub reason : String
  pub message : String

abbrev pub available : Summary
available = record {
  status = condition_true;
  reason = default_ready_reason;
  message = default_ready_message;
}

abbrev pub waiting : Summary
waiting = record {
  status = condition_false;
  reason = reason_dependencies_not_ready;
  message = "Waiting for conditions PolicyAccessKeyReady and PolicyBucketReady";
}

abbrev pub blame : String → Condition → Summary
blame prefix c = record {
  status = condition_false;
  reason = c.reason;
  message = prefix ++ c.message;
}

abbrev pub summary_condition : ℕ → Summary → Condition
summary_condition generation s = record {
  type = ready;
  status = s.status;
  observed_generation = generation;
  last_transition_time = pos 0;
  reason = s.reason;
  message = s.message;
}

-- The conditions AccessKey, Bucket and Assignment, as FindStatusCondition returns them; `none` is
-- the panic of following a nil pointer.
unfoldable pub policy_summary :
    Option Condition → Option Condition → Option Condition → Option Summary
policy_summary (some key) (some bucket) (some policy) =
    if is_true key.status && (is_true bucket.status && is_true policy.status)
    then some available
    else if is_false bucket.status
    then some (blame "Bucket not ready: " bucket)
    else if is_false key.status
    then some (blame "Access key not ready: " key)
    else if is_false policy.status
    then some (blame "Policy assignment failed: " policy)
    else some waiting
policy_summary (some key) (some bucket) none =
    if is_true key.status && is_true bucket.status
    then none
    else if is_false bucket.status
    then some (blame "Bucket not ready: " bucket)
    else if is_false key.status
    then some (blame "Access key not ready: " key)
    else none
policy_summary (some _) none _ = none
policy_summary none _ _ = none

module _ (lib : Libraries) where
  unfoldable pub initialize_policy_conditions : AccessPolicy → AccessPolicy
  initialize_policy_conditions p = with_conditions p (
      init_resource_conditions lib
        (ready ∷ policy_access_key_ready ∷ policy_bucket_ready ∷ policy_assignment_ready ∷ [])
        p.status.conditions)

  unfoldable pub mark_policy_condition_not_ready :
      String → String → String → AccessPolicy → AccessPolicy
  mark_policy_condition_not_ready cond_type reason message p =
      with_conditions p
        (mark_not_ready lib p.meta.generation p.status.conditions cond_type reason message)

  unfoldable pub mark_policy_key_ready : AccessPolicy → AccessPolicy
  mark_policy_key_ready p = with_conditions p (
      lib.set_status_condition p.status.conditions (
        ready_condition p.meta.generation policy_access_key_ready "AccessKeyReady"
          "AccessKey is ready for assignment"))

  unfoldable pub mark_policy_bucket_ready : AccessPolicy → AccessPolicy
  mark_policy_bucket_ready p = with_conditions p (
      lib.set_status_condition p.status.conditions (
        ready_condition p.meta.generation policy_bucket_ready "BucketReady"
          "Bucket is ready for assignment"))

  unfoldable pub mark_policy_assignment_ready : AccessPolicy → AccessPolicy
  mark_policy_assignment_ready p = with_conditions p (
      lib.set_status_condition p.status.conditions (
        ready_condition p.meta.generation policy_assignment_ready "AccessPolicyAssigned"
          "Access policy configured in external system."))

  -- The Ready condition, and the generation where it is True.
  unfoldable pub settle : Summary → AccessPolicy → AccessPolicy
  settle s p =
      let cs =
        lib.set_status_condition p.status.conditions (summary_condition p.meta.generation s) in
      record p {
        status = record p.status {
          conditions = cs;
          observed_generation =
              if is_true s.status then p.meta.generation else p.status.observed_generation;
        };
      }

  unfoldable pub update_access_policy_condition : AccessPolicy → Option AccessPolicy
  unfolding policy_summary settle
  update_access_policy_condition p =
      elim (policy_summary (lib.find_status_condition p.status.conditions policy_access_key_ready)
        (lib.find_status_condition p.status.conditions policy_bucket_ready)
        (lib.find_status_condition p.status.conditions policy_assignment_ready)) [
          | none ↦ none
          | some s ↦ some (settle s p)
        ]
