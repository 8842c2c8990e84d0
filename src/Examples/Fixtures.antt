-- ===== src/Examples/Fixtures.antt =====
-- Concrete functions for what the model takes as parameters, and test data. The world is a number
-- that counts the calls.
use garage_storage_controlle.Prelude.{
  ℕ, zero, suc, ◌<◌, String, ◌++◌, ◌≡◌, refl, Bool, true, false, ◌&&◌, ◌||◌, Option, none, some,
  List, [], ◌∷◌, pos, str_eq, nonempty, eq_iff, arith, if◌then◌else◌,
}
use garage_storage_controlle.Errors.{Err, sentinel, status, plain, wrap, wrap_both, join}
use garage_storage_controlle.Exec.{ok}
use garage_storage_controlle.Api
use garage_storage_controlle.Api.{
  OwnerReference, ObjectMeta, Condition, condition_true, condition_false,
}
use garage_storage_controlle.Kube.{Client, EventRecorder, Libraries, Secret, unchanged, created}
use garage_storage_controlle.Kube.Laws.{ConditionLaws, NotFoundLaws}
use garage_storage_controlle.Naming.Unique.{AreBytes, DigestLaws}
use garage_storage_controlle.Conditions.{finalizer_name}

abbrev pub find_condition : List Condition → String → Option Condition
find_condition [] t = none
find_condition (c ∷ cs) t = if str_eq c.type t then some c else find_condition cs t

abbrev pub set_condition : List Condition → Condition → List Condition
set_condition [] c = c ∷ []
set_condition (d ∷ ds) c = if str_eq d.type c.type then c ∷ ds else d ∷ set_condition ds c

abbrev pub owned_by : List OwnerReference → String → Bool
owned_by [] uid = false
owned_by (o ∷ os) uid = (str_eq o.uid uid && o.controller) || owned_by os uid

abbrev pub has_text : List String → String → Bool
has_text [] t = false
has_text (s ∷ ss) t = str_eq s t || has_text ss t

abbrev pub without_text : List String → String → List String
without_text [] t = []
without_text (s ∷ ss) t = let rest = without_text ss t in if str_eq s t then rest else s ∷ rest

-- an answer of the API server for this reason is inside the error
abbrev pub has_status : String → Err → Bool
has_status r (sentinel _) = false
has_status r (status reason _) = str_eq reason r
has_status r (plain _) = false
has_status r (wrap _ e _) = has_status r e
has_status r (wrap_both e _ f) = has_status r e || has_status r f
has_status r (join e f) = has_status r e || has_status r f

abbrev pub repeated : ℕ → ℕ → List ℕ
repeated zero b = []
repeated (suc n) b = b ∷ repeated n b

abbrev pub lib : Libraries
lib = record {
  find_status_condition = find_condition;
  set_status_condition = set_condition;
  is_controlled_by = λ m o. owned_by m.owner_references o.uid;
  set_controller_reference = λ o m. ok (record m {
    owner_references = record { uid = o.uid; controller = true } ∷ m.owner_references;
  });
  contains_finalizer = λ m f. has_text m.finalizers f;
  add_finalizer = λ m f.
      if has_text m.finalizers f
      then (m, false)
      else (record m { finalizers = f ∷ m.finalizers }, true);
  remove_finalizer =
      λ m f. (record m { finalizers = without_text m.finalizers f }, has_text m.finalizers f);
  is_not_found = has_status "NotFound";
  is_conflict = has_status "Conflict";
  is_forbidden = has_status "Forbidden";
  quantity_value = λ t. if str_eq t "1Ki" then pos 1024 else pos 0;
  bucket_status_equal = λ _ _. false;
  access_key_status_equal = λ _ _. false;
  access_policy_status_equal = λ _ _. false;
  quote = λ t. "\"" ++ (t ++ "\"");
  show_meta = λ m. m.name;
  sum256 = λ t. repeated 32 (if nonempty t then 171 else 205);
}

find_condition-set_condition :
    (cs : List Condition) (c : Condition) (t : String)
    → find_condition (set_condition cs c) t
      ≡ (if str_eq c.type t then some c else find_condition cs t)
find_condition-set_condition [] c t = refl
find_condition-set_condition (d ∷ ds) c t = ground (
  arith,
  eq_iff d.type c.type,
  eq_iff d.type t,
  eq_iff c.type t,
  find_condition-set_condition ds c t,
)

pub condition_laws : ConditionLaws lib
condition_laws = record {
  stored = λ cs c. c;
  find_set = find_condition-set_condition;
  stored_status = λ cs c. refl;
  stored_reason = λ cs c. refl;
  stored_message = λ cs c. refl;
  stored_generation = λ cs c. refl;
}

pub not_found_laws : NotFoundLaws lib
not_found_laws = record {
  not_found_sentinel = λ s. refl;
  not_found_wrap = λ pre e post. refl;
  not_found_join = λ e f h g. ground arith;
}

repeated-AreBytes : (n b : ℕ) → b < 256 → AreBytes (repeated n b)
repeated-AreBytes zero b h = tt
repeated-AreBytes (suc n) b h = (h, repeated-AreBytes n b h)

pub digest_laws : DigestLaws lib
digest_laws = record {
  sum256_bytes = λ t. repeated-AreBytes 32 (if nonempty t then 171 else 205) (ground arith);
  sum256_length = λ t. refl;
}

abbrev pub meta_of : String → ObjectMeta
meta_of name = record {
  name = name;
  namespace = "team";
  uid = "uid-" ++ name;
  generation = 3;
  labels = [];
  finalizers = finalizer_name ∷ [];
  owner_references = [];
  creation_timestamp = pos 0;
  deletion_timestamp = none;
}

abbrev pub ready_true : Condition
ready_true = record {
  type = "Ready";
  status = condition_true;
  observed_generation = 3;
  last_transition_time = pos 1;
  reason = "Available";
  message = "All conditions met";
}

abbrev pub photos : Api.Bucket
photos = record {
  meta = meta_of "photos";
  spec = record {
    name = "photos";
    existing_bucket = none;
    max_size = "1Ki";
    max_objects = pos 10;
    config_map_name = "";
  };
  status = record {
    observed_generation = 3;
    conditions = ready_true ∷ [];
    bucket_id = "b1";
    bucket_name = "photos-abab";
    last_sync = none;
  };
}

abbrev pub reader : Api.AccessKey
reader = record {
  meta = meta_of "reader";
  spec = record { secret_name = "reader-credentials" };
  status = record {
    conditions = ready_true ∷ [];
    observed_generation = 2;
    access_key_id = "GK1";
    secret_name = "";
  };
}

-- not reconciled yet
abbrev pub policy : Api.AccessPolicy
policy = record {
  meta = meta_of "read-photos";
  spec = record {
    access_key = "reader";
    bucket = "photos";
    permissions = record { read = true; write = false; owner = false };
  };
  status = record { conditions = []; observed_generation = 0; bucket_id = ""; access_key_id = "" };
}

-- the policy once it was granted
abbrev pub granted_policy : Api.AccessPolicy
granted_policy = record policy {
  status = record policy.status { bucket_id = "b1"; access_key_id = "GK1" };
}

abbrev pub credentials : Secret
credentials = record {
  meta = record (meta_of "reader-credentials") {
    owner_references = record { uid = "uid-reader"; controller = true } ∷ [];
  };
  type = "Opaque";
  contents = ("access-key-id", "GK1") ∷ [];
}

abbrev pub not_found : Err
not_found = status "NotFound" "not found"

-- `next` is what a call does to the world.
abbrev pub client_over : {S : Type 0} → (S → S) → Client S
client_over next = record {
  get_bucket = λ _ w. (ok photos, next w);
  patch_bucket_status = λ _ w. (ok tt, next w);
  get_access_key = λ _ w. (ok reader, next w);
  patch_access_key = λ _ k w. (ok k, next w);
  update_access_key = λ _ w. (ok tt, next w);
  update_access_key_status = λ _ w. (ok tt, next w);
  get_access_policy = λ _ w. (ok policy, next w);
  update_access_policy = λ _ w. (ok tt, next w);
  patch_access_policy_status = λ _ w. (ok tt, next w);
  list_access_policies = λ _ _ _ w. (ok [], next w);
  list_config_maps = λ _ _ _ w. (ok [], next w);
  create_or_update_config_map = λ _ _ w. (ok unchanged, next w);
  delete_config_map = λ _ w. (ok tt, next w);
  get_secret = λ _ w. (ok credentials, next w);
  create_or_update_secret = λ _ _ w. (ok created, next w);
  delete_secret = λ _ w. (ok tt, next w);
  time_since = λ _ w. (ok (pos 60000000000), w);
}

abbrev pub client : Client ℕ
client = client_over suc

abbrev pub recorder : EventRecorder ℕ
recorder = record { eventf = λ _ _ _ _ w. suc w }
