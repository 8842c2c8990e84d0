-- ===== src/AccessKey/Conditions.antt =====
-- internal/controller/accesskey_conditions.go
use garage_storage_controlle.Prelude.{
  ℕ, String, Bool, false, ◌&&◌, ◌||◌, Option, none, some, List, [], ◌∷◌, pos, str_eq, if◌then◌else◌,
}
use garage_storage_controlle.Api.{
  Condition, ConditionStatus, condition_true, condition_false, is_true, is_false, AccessKey,
}
use garage_storage_controlle.Kube.{Libraries}
use garage_storage_controlle.Conditions.{
  ready, default_ready_reason, default_ready_message, init_resource_conditions, mark_not_ready,
  not_ready_condition,
}

abbrev pub access_key_ready : String
access_key_ready = "AccessKeyReady"

abbrev pub key_secret_ready : String
key_secret_ready = "KeySecretReady"

abbrev pub reason_secret_name_conflict : String
reason_secret_name_conflict = "SecretNameConflict"

abbrev pub reason_secret_setup_failed : String
reason_secret_setup_failed = "SecretSetupFailed"

abbrev pub with_conditions : AccessKey → List Condition → AccessKey
with_conditions k cs = record k { status = record k.status { conditions = cs } }

-- the literals of markAccessKeyReady and markSecretReady
abbrev pub ready_condition : ℕ → String → String → String → Condition
ready_condition generation cond_type reason message = record {
  type = cond_type;
  status = condition_true;
  observed_generation = generation;
  last_transition_time = pos 0;
  reason = reason;
  message = message;
}

-- readyStat, readyReason and readyMessage of updateAccessKeyCondition
pub record Summary : Type 0 where
  pub status : ConditionStatus
  pub reason : String
  pub message : String

abbrev pub available : Summary
available = record {
  status = condition_true;
  reason = default_ready_reason;
  message = default_ready_message;
}

abbrev pub waiting : Summary
waiting = record {
  status = condition_false;
  reason = "WaitingForResources";
  message = "Waiting for conditions AccessKeyReady and KeySecretReady";
}

abbrev pub blame : Condition → Summary
blame c = record { status = condition_false; reason = c.reason; message = c.message }

abbrev pub summary_condition : ℕ → Summary → Condition
summary_condition generation s = record {
  type = ready;
  status = s.status;
  observed_generation = generation;
  last_transition_time = pos 0;
  reason = s.reason;
  message = s.message;
}

-- The conditions of the key and of its secret, as FindStatusCondition returns them; `none` is the
-- panic of following a nil pointer.
unfoldable pub access_key_summary : Option Condition → Option Condition → Option Summary
access_key_summary (some key) (some secret) =
    if is_true key.status && is_true secret.status
    then some available
    else if is_false key.status
    then some (blame key)
    else if is_false secret.status
    then some (blame secret)
    else some waiting
access_key_summary (some key) none = if is_false key.status then some (blame key) else none
access_key_summary none _ = none

abbrev pub failure_reasons : List String
failure_reasons = reason_secret_name_conflict ∷ []

-- slices.Contains
unfoldable pub contains : List String → String → Bool
contains [] t = false
contains (s ∷ ss) t = str_eq s t || contains ss t

unfoldable pub is_permanent_failure : String → Bool
unfolding contains
is_permanent_failure reason = contains failure_reasons reason

module _ (lib : Libraries) where
  unfoldable pub initialize_conditions : AccessKey → AccessKey
  initialize_conditions k = with_conditions k (
      init_resource_conditions lib (ready ∷ access_key_ready ∷ key_secret_ready ∷ [])
        k.status.conditions)

  unfoldable pub mark_access_key_ready : AccessKey → AccessKey
  mark_access_key_ready k = with_conditions k (
      lib.set_status_condition k.status.conditions (
        ready_condition k.meta.generation access_key_ready "AccessKeyReady"
          "External access key is ready"))

  unfoldable pub mark_access_key_not_ready : String → String → AccessKey → AccessKey
  mark_access_key_not_ready reason message k =
      with_conditions k
        (mark_not_ready lib k.meta.generation k.status.conditions access_key_ready reason message)

  unfoldable pub mark_secret_not_ready : String → String → AccessKey → AccessKey
  mark_secret_not_ready reason message k = with_conditions k (
      lib.set_status_condition k.status.conditions
        (not_ready_condition k.meta.generation key_secret_ready reason message))

  unfoldable pub mark_secret_ready : AccessKey → AccessKey
  mark_secret_ready k = with_conditions k (
      lib.set_status_condition k.status.conditions (
        ready_condition k.meta.generation key_secret_ready "SecretReady"
          "Secret for external access key is ready"))

  -- `none` where the condition is missing, and the code follows a nil pointer
  unfoldable pub external_key_ready_stat : AccessKey → Option ConditionStatus
  external_key_ready_stat k =
      elim (lib.find_status_condition k.status.conditions access_key_ready) [
        | none ↦ none
        | some c ↦ some c.status
      ]

  -- The Ready condition, and the generation where it is True or the failure is permanent.
  unfoldable pub settle : Summary → AccessKey → AccessKey
  settle s k =
      let cs =
        lib.set_status_condition k.status.conditions (summary_condition k.meta.generation s) in
      record k {
        status = record k.status {
          conditions = cs;
          observed_generation =
              if is_true s.status || is_permanent_failure s.reason
              then k.meta.generation
              else k.status.observed_generation;
        };
      }

  unfoldable pub update_access_key_condition : AccessKey → Option AccessKey
  unfolding access_key_summary settle
  update_access_key_condition k =
      elim (access_key_summary (lib.find_status_condition k.status.conditions access_key_ready)
        (lib.find_status_condition k.status.conditions key_secret_ready)) [
          | none ↦ none
          | some s ↦ some (settle s k)
        ]
