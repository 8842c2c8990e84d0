-- ===== src/Kube/Laws.antt =====
-- The documented behaviour of apimachinery's condition helpers, as hypotheses.
use garage_storage_controlle.Prelude.{String, ◌≡◌, true, false, some, List, str_eq, if◌then◌else◌}
use garage_storage_controlle.Errors.{Err, Sentinel, sentinel, wrap, join}
use garage_storage_controlle.Api.{Condition, ObjectMeta, AccessPolicyStatus}
use garage_storage_controlle.Kube.{Libraries}

-- SetStatusCondition adds the condition or replaces the one of its type, takes over every field
-- and settles the transition time; `stored` is what it writes. FindStatusCondition finds by type.
pub record ConditionLaws (lib : Libraries) : Type 0 where
  pub stored : List Condition → Condition → Condition
  pub find_set :
      (cs : List Condition) (c : Condition) (t : String)
      → lib.find_status_condition (lib.set_status_condition cs c) t
        ≡ (if str_eq c.type t then some (stored cs c) else lib.find_status_condition cs t)
  pub stored_status : (cs : List Condition) (c : Condition) → (stored cs c).status ≡ c.status
  pub stored_reason : (cs : List Condition) (c : Condition) → (stored cs c).reason ≡ c.reason
  pub stored_message : (cs : List Condition) (c : Condition) → (stored cs c).message ≡ c.message
  pub stored_generation :
      (cs : List Condition) (c : Condition)
      → (stored cs c).observed_generation ≡ c.observed_generation

-- IsNotFound looks through what wraps an error for an answer of the API server, so it is false of
-- an error that is not one.
pub record NotFoundLaws (lib : Libraries) : Type 0 where
  pub not_found_sentinel : (s : Sentinel) → lib.is_not_found (sentinel s) ≡ false
  pub not_found_wrap :
      (pre : String) (e : Err) (post : String)
      → lib.is_not_found (wrap pre e post) ≡ lib.is_not_found e
  pub not_found_join :
      (e f : Err)
      → lib.is_not_found e ≡ false
      → lib.is_not_found f ≡ false
      → lib.is_not_found (join e f) ≡ false

-- AddFinalizer adds the finalizer where it is not there, says so, and leaves the labels and the
-- deletion timestamp.
pub record FinalizerLaws (lib : Libraries) : Type 0 where
  pub contains-add :
      (m : ObjectMeta) (f : String) → lib.contains_finalizer (lib.add_finalizer m f).0 f ≡ true
  pub added :
      (m : ObjectMeta) (f : String)
      → lib.contains_finalizer m f ≡ false
      → (lib.add_finalizer m f).1 ≡ true
  pub labels-add : (m : ObjectMeta) (f : String) → (lib.add_finalizer m f).0.labels ≡ m.labels
  pub deletion-add :
      (m : ObjectMeta) (f : String)
      → (lib.add_finalizer m f).0.deletion_timestamp ≡ m.deletion_timestamp

-- SetStatusCondition changes nothing where the condition is there with the same content, and a
-- status is equal to itself.
pub record UnchangedLaws (lib : Libraries) : Type 0 where
  pub set_unchanged :
      (cs : List Condition) (c d : Condition)
      → lib.find_status_condition cs c.type ≡ some d
      → d.status ≡ c.status
      → d.reason ≡ c.reason
      → d.message ≡ c.message
      → d.observed_generation ≡ c.observed_generation
      → lib.set_status_condition cs c ≡ cs
  pub access_policy_status_same :
      (s : AccessPolicyStatus) → lib.access_policy_status_equal s s ≡ true
