-- ===== src/Policy/Types.antt =====
-- internal/controller/accesspolicy_controller.go: the reconciler's type, the labels of a policy and
-- the watches that use them.
use garage_storage_controlle.Prelude.{
  String, Bool, true, false, not, ◌||◌, Option, none, some, List, [], ◌∷◌, str_eq, if◌then◌else◌,
}
use garage_storage_controlle.Exec.{Exec, pure, ◌>>=◌, returned, failed, attempt}
use garage_storage_controlle.S3
use garage_storage_controlle.S3.{no_permissions}
use garage_storage_controlle.Api.{
  NamespacedName, Condition, is_true, Bucket, AccessKey, AccessPolicy, AccessPolicyStatus,
}
use garage_storage_controlle.Kube.{Client, EventRecorder}

abbrev pub access_key_label : String
access_key_label = "garage.getclustered.net/accesskey-name"

abbrev pub bucket_label : String
bucket_label = "garage.getclustered.net/bucket-name"

abbrev pub reason_policy_assignment_failed : String
reason_policy_assignment_failed = "PolicyAssignmentFailed"

-- `m[k]` of a Go map from strings to strings: a missing key reads as "".
unfoldable pub label_value : String → List (String × String) → String
label_value k [] = ""
label_value k ((j, v) ∷ m) = if str_eq j k then v else label_value k m

-- `m[k] = v`
unfoldable pub set_label : String → String → List (String × String) → List (String × String)
set_label k v [] = (k, v) ∷ []
set_label k v ((j, w) ∷ m) = if str_eq j k then (k, v) ∷ m else (j, w) ∷ set_label k v m

-- one of the two tests of ensureLabels
unfoldable pub ensure_label :
    String → String → List (String × String) → List (String × String) × Bool
ensure_label k v m = if str_eq (label_value k m) v then (m, false) else (set_label k v m, true)

unfoldable pub ensure_labels : AccessPolicy → AccessPolicy × Bool
ensure_labels p =
    let (first, changed_key) = ensure_label access_key_label p.spec.access_key p.meta.labels in
    let (second, changed_bucket) = ensure_label bucket_label p.spec.bucket first in
    (record p { meta = record p.meta { labels = second } }, changed_key || changed_bucket)

-- the interface PermissionClient
pub record PermissionClient (S : Type 0) : Type 0 where
  pub set_permissions : String → String → S3.Permissions → Exec S (Unit {0})

pub record AccessPolicyReconciler (S : Type 0) : Type 0 where
  pub client : Client S
  pub admin_client : PermissionClient S
  pub recorder : EventRecorder S

-- NewAccessPolicyReconciler
abbrev pub new_access_policy_reconciler :
    {S : Type 0} → Client S → PermissionClient S → EventRecorder S → AccessPolicyReconciler S
new_access_policy_reconciler c permissions recorder = record {
  client = c;
  admin_client = permissions;
  recorder = recorder;
}

-- The three fields of policy.Spec.Permissions, as an s3.Permissions.
abbrev pub wanted_permissions : AccessPolicy → S3.Permissions
wanted_permissions p = record {
  owner = p.spec.permissions.owner;
  read = p.spec.permissions.read;
  write = p.spec.permissions.write;
}

abbrev pub with_status : AccessPolicyStatus → AccessPolicy → AccessPolicy
with_status s p = record p { status = s }

abbrev pub set_bucket_id : String → AccessPolicy → AccessPolicy
set_bucket_id id p = with_status (record p.status { bucket_id = id }) p

abbrev pub set_access_key_id : String → AccessPolicy → AccessPolicy
set_access_key_id id p = with_status (record p.status { access_key_id = id }) p

-- `cond == nil || cond.Status != metav1.ConditionTrue`
abbrev pub not_met : Option Condition → Bool
not_met none = true
not_met (some c) = not (is_true c.status)

abbrev pub message_of : String → Option Condition → String
message_of default none = default
message_of default (some c) = c.message

-- the loop of the two find functions
unfoldable pub requests_for : List AccessPolicy → List NamespacedName
requests_for [] = []
requests_for (p ∷ ps) =
    record { namespace = p.meta.namespace; name = p.meta.name } ∷ requests_for ps

module _ {S : Type 0} (r : AccessPolicyReconciler S) where
  unfoldable pub find_policies_for_access_key : AccessKey → Exec S (List NamespacedName)
  unfolding requests_for
  find_policies_for_access_key key = do
    got ← attempt (r.client.list_access_policies key.meta.namespace access_key_label key.meta.name)
    elim got [ failed _ ↦ pure [] | returned policies ↦ pure (requests_for policies) ]

  unfoldable pub find_policies_for_bucket : Bucket → Exec S (List NamespacedName)
  unfolding requests_for
  find_policies_for_bucket bucket = do
    got ←
        attempt (r.client.list_access_policies bucket.meta.namespace bucket_label bucket.meta.name)
    elim got [ failed _ ↦ pure [] | returned policies ↦ pure (requests_for policies) ]
