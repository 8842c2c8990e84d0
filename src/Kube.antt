-- ===== src/Kube.antt =====
-- What the reconcilers call of Kubernetes' libraries and of Go's, none of which is in this
-- repository: the API client, helpers of apimachinery and controller-runtime, hashes and quoting.
pub mod Laws
pub mod Manager
use garage_storage_controlle.Prelude.{ℕ, String, ℤ, Bool, Option, List}
use garage_storage_controlle.Errors.{Err}
use garage_storage_controlle.Exec.{Result, Exec}
use garage_storage_controlle.Api.{
  NamespacedName, ObjectMeta, Condition, Bucket, BucketStatus, AccessKey, AccessKeyStatus,
  AccessPolicy, AccessPolicyStatus,
}

pub record ConfigMap : Type 0 where
  pub meta : ObjectMeta
  pub contents : List (String × String)

pub record Secret : Type 0 where
  pub meta : ObjectMeta
  pub type : String
  pub contents : List (String × String)

-- controllerutil.OperationResult
pub data OperationResult : Type 0 where
  unchanged created updated : OperationResult

-- client.Client, per kind of object. An operation that writes the server's answer back into the
-- object that it was given returns that object where the code reads it afterwards. The
-- `create_or_update` operations are controllerutil.CreateOrUpdate with their mutate function.
pub record Client (S : Type 0) : Type 0 where
  pub get_bucket : NamespacedName → Exec S Bucket
  pub patch_bucket_status : Bucket → Exec S (Unit {0})
  pub get_access_key : NamespacedName → Exec S AccessKey
  pub patch_access_key : AccessKey → AccessKey → Exec S AccessKey
  pub update_access_key : AccessKey → Exec S (Unit {0})
  pub update_access_key_status : AccessKey → Exec S (Unit {0})
  pub get_access_policy : NamespacedName → Exec S AccessPolicy
  pub update_access_policy : AccessPolicy → Exec S (Unit {0})
  pub patch_access_policy_status : AccessPolicy → Exec S (Unit {0})
  pub list_access_policies : String → String → String → Exec S (List AccessPolicy)
  pub list_config_maps : String → String → String → Exec S (List ConfigMap)
  pub create_or_update_config_map :
      ConfigMap → (ConfigMap → Result ConfigMap) → Exec S OperationResult
  pub delete_config_map : ConfigMap → Exec S (Unit {0})
  pub get_secret : NamespacedName → Exec S Secret
  pub create_or_update_secret : Secret → (Secret → Result Secret) → Exec S OperationResult
  pub delete_secret : Secret → Exec S (Unit {0})
  -- time.Since
  pub time_since : ℤ → Exec S ℤ

-- record.EventRecorder.Eventf: the object, the type, the reason and the formatted message.
pub record EventRecorder (S : Type 0) : Type 0 where
  pub eventf : ObjectMeta → String → String → String → S → S

-- Functions of apimachinery and controller-runtime that have no effects, and of Go's fmt (`%q`, and
-- `%v` of a struct) and crypto/sha256 (the bytes of the digest).
pub record Libraries : Type 0 where
  pub find_status_condition : List Condition → String → Option Condition
  pub set_status_condition : List Condition → Condition → List Condition
  pub is_controlled_by : ObjectMeta → ObjectMeta → Bool
  pub set_controller_reference : ObjectMeta → ObjectMeta → Result ObjectMeta
  pub contains_finalizer : ObjectMeta → String → Bool
  pub add_finalizer : ObjectMeta → String → ObjectMeta × Bool
  pub remove_finalizer : ObjectMeta → String → ObjectMeta × Bool
  pub is_not_found : Err → Bool
  pub is_conflict : Err → Bool
  pub is_forbidden : Err → Bool
  pub quantity_value : String → ℤ
  pub bucket_status_equal : BucketStatus → BucketStatus → Bool
  pub access_key_status_equal : AccessKeyStatus → AccessKeyStatus → Bool
  pub access_policy_status_equal : AccessPolicyStatus → AccessPolicyStatus → Bool
  pub quote : String → String
  pub show_meta : ObjectMeta → String
  pub sum256 : String → List ℕ
