-- ===== src/AccessKey/Calls.antt =====
-- How many calls Reconcile of an AccessKey makes.
use garage_storage_controlle.Prelude.{ℕ, ◌+◌, ◌≤◌, arith, String}
use garage_storage_controlle.Errors.{Err}
use garage_storage_controlle.Exec.{Run, Result, Outcome, returned, failed}
use garage_storage_controlle.Exec.Costs.{IsWithin}
use garage_storage_controlle.S3
use garage_storage_controlle.Api.{NamespacedName, ObjectMeta, AccessKey, AccessKeyStatus}
use garage_storage_controlle.Kube.{Libraries, Secret}
use garage_storage_controlle.Naming.{namespaced_resource_name}
use garage_storage_controlle.AccessKey.Types.{AccessKeyReconciler}
use garage_storage_controlle.AccessKey.External.{
  cleanup_old_secret, resolve_ext_key_id, ensure_external_key, write_secret, ensure_secret,
}
use garage_storage_controlle.AccessKey.Reconciler.{
  secret_failed, replace_old_secret, provide_secret, provision, reconcile_access_key, update_status,
  finalize, ensure_finalizer, save_status, reconcile_status, reconcile_found, reconcile,
}

-- A clock that every call to the API server and to the key manager moves by one at most, and an
-- event not at all; controllerutil.CreateOrUpdate counts as one call.
pub record IsClock {S : Type 0} (r : AccessKeyReconciler S) (clock : S → ℕ) : Type 0 where
  pub get_access_key : (n : NamespacedName) → IsWithin clock 1 (r.client.get_access_key n)
  pub patch_access_key : (k l : AccessKey) → IsWithin clock 1 (r.client.patch_access_key k l)
  pub update_access_key : (k : AccessKey) → IsWithin clock 1 (r.client.update_access_key k)
  pub update_access_key_status :
      (k : AccessKey) → IsWithin clock 1 (r.client.update_access_key_status k)
  pub get_secret : (n : NamespacedName) → IsWithin clock 1 (r.client.get_secret n)
  pub create_or_update_secret :
      (secret : Secret) (f : Secret → Result Secret)
      → IsWithin clock 1 (r.client.create_or_update_secret secret f)
  pub delete_secret : (secret : Secret) → IsWithin clock 1 (r.client.delete_secret secret)
  pub create : (name : String) → IsWithin clock 1 (r.access_key.create name)
  pub get : (id : String) → IsWithin clock 1 (r.access_key.get id)
  pub lookup : (name : String) → IsWithin clock 1 (r.access_key.lookup name)
  pub delete : (id : String) → IsWithin clock 1 (r.access_key.delete id)
  pub eventf :
      (o : ObjectMeta) (type reason message : String) (s : S)
      → clock (r.recorder.eventf o type reason message s) ≤ clock s

module _ {S : Type 0} (lib : Libraries) (r : AccessKeyReconciler S) (clock : S → ℕ)
    (counts : IsClock r clock) where
  abbrev inside : Run AccessKey S → ℕ
  inside s = clock s.world

  cleanup_old_secret-IsWithin :
      (secret namespace : String) → IsWithin clock 1 (cleanup_old_secret lib r secret namespace)
  unfolding cleanup_old_secret
  cleanup_old_secret-IsWithin secret namespace s = grind (arith, counts.delete_secret)

  resolve_ext_key_id-IsWithin : (k : AccessKey) → IsWithin clock 1 (resolve_ext_key_id lib r k)
  unfolding resolve_ext_key_id
  resolve_ext_key_id-IsWithin k s = grind (arith, counts.lookup)

  ensure_external_key-IsWithin : (k : AccessKey) → IsWithin clock 2 (ensure_external_key lib r k)
  unfolding ensure_external_key
  ensure_external_key-IsWithin k s =
      grind (arith, counts.lookup, counts.get, counts.create (namespaced_resource_name lib k.meta))

  write_secret-IsWithin :
      (k : AccessKey) (secret : String) → IsWithin clock 1 (write_secret lib r k secret)
  unfolding write_secret
  write_secret-IsWithin k secret s = grind (arith, counts.create_or_update_secret)

  ensure_secret-IsWithin :
      (k : AccessKey) (secret : String) → IsWithin clock 2 (ensure_secret lib r k secret)
  unfolding ensure_secret
  ensure_secret-IsWithin k secret s = grind (arith, counts.get_secret, write_secret-IsWithin)

  secret_failed-IsWithin : (e : Err) → IsWithin inside 0 (secret_failed lib r e)
  unfolding secret_failed
  secret_failed-IsWithin e s = grind (arith, counts.eventf)

  replace_old_secret-IsWithin : IsWithin inside 1 (replace_old_secret lib r)
  unfolding replace_old_secret
  replace_old_secret-IsWithin s = grind (arith, cleanup_old_secret-IsWithin)

  provide_secret-IsWithin : (k : S3.AccessKey) → IsWithin inside 3 (provide_secret lib r k)
  unfolding provide_secret
  provide_secret-IsWithin k s =
      grind (arith, ensure_secret-IsWithin, secret_failed-IsWithin, replace_old_secret-IsWithin)

  provision-IsWithin : IsWithin inside 5 (provision lib r)
  unfolding provision
  provision-IsWithin s = grind (arith, ensure_external_key-IsWithin, provide_secret-IsWithin)

  reconcile_access_key-IsWithin : IsWithin inside 5 (reconcile_access_key lib r)
  unfolding reconcile_access_key
  reconcile_access_key-IsWithin s = grind (arith, provision-IsWithin)

  update_status-IsWithin :
      (n : NamespacedName) (status : AccessKeyStatus)
      → IsWithin clock 2 (update_status lib r n status)
  unfolding update_status
  update_status-IsWithin n status s =
      grind (arith, counts.get_access_key, counts.update_access_key_status)

  save_status-IsWithin :
      (n : NamespacedName) (old : AccessKeyStatus) (x : Outcome (Unit {0}))
      → IsWithin inside 2 (save_status lib r n old x)
  unfolding save_status
  save_status-IsWithin n old (returned x) s = grind (arith, update_status-IsWithin)
  save_status-IsWithin n old (failed e) s = grind (arith, update_status-IsWithin)

  finalize-IsWithin : IsWithin inside 3 (finalize lib r)
  unfolding finalize
  finalize-IsWithin s =
      grind (arith, resolve_ext_key_id-IsWithin, counts.delete, counts.update_access_key)

  ensure_finalizer-IsWithin : IsWithin inside 1 (ensure_finalizer lib r)
  unfolding ensure_finalizer
  ensure_finalizer-IsWithin s = grind (arith, counts.patch_access_key)

  reconcile_status-IsWithin : (n : NamespacedName) → IsWithin inside 7 (reconcile_status lib r n)
  unfolding reconcile_status
  reconcile_status-IsWithin n s = grind (arith, reconcile_access_key-IsWithin, save_status-IsWithin)

  reconcile_found-IsWithin : (n : NamespacedName) → IsWithin inside 8 (reconcile_found lib r n)
  unfolding reconcile_found
  reconcile_found-IsWithin n s =
      grind (arith, finalize-IsWithin, ensure_finalizer-IsWithin, reconcile_status-IsWithin)

  -- By a clock that every call to the API server and to the key manager moves by one at most, and an
  -- event not at all, where CreateOrUpdate is one call, Reconcile of an AccessKey ends after at most
  -- nine calls, however they answer and whatever the world is.
  pub reconcile_access_key_calls :
      (n : NamespacedName) (s : S) → clock (reconcile lib r n s).1 ≤ 9 + clock s
  unfolding reconcile
  reconcile_access_key_calls n s = grind (arith, counts.get_access_key, reconcile_found-IsWithin)
