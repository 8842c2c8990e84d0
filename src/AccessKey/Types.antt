-- ===== src/AccessKey/Types.antt =====
-- The types and constants of internal/controller/accesskey_controller.go, and the objects that it
-- declares.
use garage_storage_controlle.Prelude.{String, none, List, [], ◌∷◌, pos}
use garage_storage_controlle.Exec.{Result, ok, Exec}
use garage_storage_controlle.S3
use garage_storage_controlle.Api.{ObjectMeta, AccessKey}
use garage_storage_controlle.Kube.{Client, EventRecorder, Secret}

abbrev pub secret_key_access_key_id : String
secret_key_access_key_id = "access-key-id"

abbrev pub secret_key_secret_access_key : String
secret_key_secret_access_key = "secret-access-key"

abbrev pub reason_secret_access_forbidden : String
reason_secret_access_forbidden = "SecretAccessForbidden"

abbrev pub rbac_remedy_msg : String
rbac_remedy_msg = "Grant the controller namespace-access Role and RoleBinding."

-- the interface AccessKeyManager
pub record AccessKeyManager (S : Type 0) : Type 0 where
  pub create : String → Exec S S3.AccessKey
  pub get : String → Exec S S3.AccessKey
  pub lookup : String → Exec S S3.AccessKey
  pub delete : String → Exec S (Unit {0})

pub record AccessKeyReconciler (S : Type 0) : Type 0 where
  pub client : Client S
  pub access_key : AccessKeyManager S
  pub recorder : EventRecorder S

-- NewAccessKeyReconciler
abbrev pub new_access_key_reconciler :
    {S : Type 0} → Client S → AccessKeyManager S → EventRecorder S → AccessKeyReconciler S
new_access_key_reconciler c key_mgr recorder = record {
  client = c;
  access_key = key_mgr;
  recorder = recorder;
}

-- metav1.ObjectMeta with a name, a namespace and labels
abbrev pub new_meta : String → String → List (String × String) → ObjectMeta
new_meta name namespace labels = record {
  name = name;
  namespace = namespace;
  uid = "";
  generation = 0;
  labels = labels;
  finalizers = [];
  owner_references = [];
  creation_timestamp = pos 0;
  deletion_timestamp = none;
}

abbrev pub set_access_key_id : String → AccessKey → AccessKey
set_access_key_id id k = record k { status = record k.status { access_key_id = id } }

abbrev pub set_secret_name : String → AccessKey → AccessKey
set_secret_name name k = record k { status = record k.status { secret_name = name } }

-- the secret that ensureSecret declares, before its owner reference is set
abbrev pub new_secret : AccessKey → Secret
new_secret parent = record {
  meta =
      new_meta parent.spec.secret_name parent.meta.namespace
        (("garage.getclustered.net/owned-by", parent.meta.name) ∷ []);
  type = "Opaque";
  contents = [];
}

-- the mutate function of ensureSecret
abbrev pub fill_secret : AccessKey → String → Secret → Result Secret
fill_secret parent secret s = ok (record s {
  contents =
      (secret_key_access_key_id, parent.status.access_key_id)
      ∷ (secret_key_secret_access_key, secret)
      ∷ [];
})
