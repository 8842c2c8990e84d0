-- ===== src/Bucket/Conditions.antt =====
-- internal/controller/bucket_conditions.go
use garage_storage_controlle.Prelude.{
  ℕ, String, ◌++◌, ◌&&◌, Option, none, some, List, [], ◌∷◌, pos, if◌then◌else◌,
}
use garage_storage_controlle.Api.{
  Condition, ConditionStatus, condition_true, condition_false, is_true, is_false, Bucket,
}
use garage_storage_controlle.Kube.{Libraries}
use garage_storage_controlle.Conditions.{
  ready, default_ready_reason, default_ready_message, init_resource_conditions, mark_not_ready,
}

abbrev pub bucket_ready : String
bucket_ready = "BucketReady"

abbrev pub bucket_config_map_ready : String
bucket_config_map_ready = "BucketConfigMapReady"

abbrev pub reason_config_map_name_conflict : String
reason_config_map_name_conflict = "ConfigMapNameConflict"

abbrev pub reason_config_map_create_error : String
reason_config_map_create_error = "ConfigMapCreateError"

abbrev pub reason_owner_key_secret_not_found : String
reason_owner_key_secret_not_found = "OwnerKeySecretNotFound"

abbrev pub reason_ownership_verification_failed : String
reason_ownership_verification_failed = "OwnershipVerificationFailed"

abbrev pub with_conditions : Bucket → List Condition → Bucket
with_conditions b cs = record b { status = record b.status { conditions = cs } }

abbrev pub condition_of : ℕ → String → ConditionStatus → String → String → Condition
condition_of generation cond_type status reason message = record {
  type = cond_type;
  status = status;
  observed_generation = generation;
  last_transition_time = pos 0;
  reason = reason;
  message = message;
}

-- readyStat, readyReason and readyMessage of updateBucketReadyCondition
pub record Summary : Type 0 where
  pub status : ConditionStatus
  pub reason : String
  pub message : String

abbrev pub available : Summary
available = record {
  status = condition_true;
  reason = default_ready_reason;
  message = default_ready_message;
}

abbrev pub waiting : Summary
waiting = record {
  status = condition_false;
  reason = "WaitingForBucket";
  message = "Waiting for " ++ bucket_ready;
}

abbrev pub blame : Condition → Summary
blame c = record { status = condition_false; reason = c.reason; message = c.message }

-- The conditions of the bucket and of its ConfigMap; `none` is the early return.
unfoldable pub bucket_summary : Option Condition → Option Condition → Option Summary
bucket_summary (some bucket) (some cm) =
    if is_true bucket.status && is_true cm.status
    then some available
    else if is_false bucket.status
    then some (blame bucket)
    else if is_false cm.status
    then some (blame cm)
    else some waiting
bucket_summary (some _) none = none
bucket_summary none _ = none

module _ (lib : Libraries) where
  unfoldable pub initialize_bucket_conditions : Bucket → Bucket
  initialize_bucket_conditions b = with_conditions b (
      init_resource_conditions lib (ready ∷ bucket_ready ∷ bucket_config_map_ready ∷ [])
        b.status.conditions)

  unfoldable pub mark_bucket_not_ready : String → String → Bucket → Bucket
  mark_bucket_not_ready reason message b =
      with_conditions b
        (mark_not_ready lib b.meta.generation b.status.conditions bucket_ready reason message)

  unfoldable pub mark_bucket_ready : Bucket → Bucket
  mark_bucket_ready b = with_conditions b (
      lib.set_status_condition b.status.conditions (
        condition_of b.meta.generation bucket_ready condition_true "BucketReady"
          "Bucket resource is ready"))

  unfoldable pub update_bucket_cm_condition : ConditionStatus → String → String → Bucket → Bucket
  update_bucket_cm_condition status reason message b = with_conditions b (
      lib.set_status_condition b.status.conditions
        (condition_of b.meta.generation bucket_config_map_ready status reason message))

  -- The Ready condition, and the generation where it is True.
  unfoldable pub settle : Summary → Bucket → Bucket
  settle s b =
      let cs =
        lib.set_status_condition b.status.conditions
          (condition_of b.meta.generation ready s.status s.reason s.message) in
      record b {
        status = record b.status {
          conditions = cs;
          observed_generation =
              if is_true s.status then b.meta.generation else b.status.observed_generation;
        };
      }

  unfoldable pub update_bucket_ready_condition : Bucket → Bucket
  unfolding bucket_summary settle
  update_bucket_ready_condition b =
      elim (bucket_summary (lib.find_status_condition b.status.conditions bucket_ready)
        (lib.find_status_condition b.status.conditions bucket_config_map_ready)) [
          | none ↦ b
          | some s ↦ settle s b
        ]
