-- ===== src/AccessKey/Deletion.antt =====
-- The calls of Garage for the deletion of an access key, and what their answers mean.
use garage_storage_controlle.Prelude.{
  ◌≡◌, ◌∙◌, ap, Bool, true, false, arith, nonempty, Bool-cases, inl, inr, if◌then◌else◌,
}
use garage_storage_controlle.Errors.{Err, is, wrap, resource_not_found}
use garage_storage_controlle.Exec.{
  Result, ok, err, panic, Exec, pure, ◌>>=◌, CtrlResult, no_requeue,
}
use garage_storage_controlle.S3
use garage_storage_controlle.Api.{AccessKey}
use garage_storage_controlle.Kube.{Libraries}
use garage_storage_controlle.Conditions.{finalizer_name}
use garage_storage_controlle.Naming.{namespaced_resource_name}
use garage_storage_controlle.AccessKey.Types.{AccessKeyReconciler}
use garage_storage_controlle.AccessKey.External.{resolve_ext_key_id}

-- An answer to the deletion of a key that lets the deletion of the resource go on.
abbrev pub tolerated : Result (Unit {0}) → Bool
tolerated (ok _) = true
tolerated (err e) = is e resource_not_found
tolerated panic = false

abbrev pub without_value : {A : Type 0} → Result A → Result CtrlResult
without_value (ok _) = ok no_requeue
without_value (err e) = err e
without_value panic = panic

-- the access key without its finalizer
abbrev pub released : Libraries → AccessKey → AccessKey
released lib k = record k { meta = (lib.remove_finalizer k.meta finalizer_name).0 }

module _ {S : Type 0} (lib : Libraries) (r : AccessKeyReconciler S) (k : AccessKey) where
  -- What is deleted where Garage answers the lookup by name: the key that it found, and nothing where
  -- it says that there is none. Any other error is passed on, and nothing is deleted.
  abbrev pub delete_found : Result S3.AccessKey × S → Result (Unit {0}) × S
  delete_found (ok key, v) = if nonempty key.id then r.access_key.delete key.id v else (ok tt, v)
  delete_found (err e, v) =
      if is e resource_not_found
      then (ok tt, v)
      else (err (wrap "looking up key for deletion: " e ""), v)
  delete_found (panic, v) = (panic, v)

  -- The calls of Garage: the key that the status records is deleted, and without one the key that
  -- has the resource's name.
  abbrev pub deletion : Exec S (Unit {0})
  deletion w =
      if nonempty k.status.access_key_id
      then r.access_key.delete k.status.access_key_id w
      else delete_found (r.access_key.lookup (namespaced_resource_name lib k.meta) w)

  -- the same, composed as in the code
  abbrev pub resolved_deletion : Exec S (Unit {0})
  resolved_deletion = do
    id ← resolve_ext_key_id lib r k
    if nonempty id then r.access_key.delete id else pure tt

  pub resolved_deletion-deletion :
      (w : S) (x : Result S3.AccessKey × S)
      → r.access_key.lookup (namespaced_resource_name lib k.meta) w ≡ x
      → resolved_deletion w ≡ deletion w
  unfolding resolve_ext_key_id
  resolved_deletion-deletion w (ok key, v) h = ground arith
  resolved_deletion-deletion w (err e, v) h = ground arith
  resolved_deletion-deletion w (panic, v) h = ground arith

  -- an answer that leaves open whether there is a key is not that there is none
  pub resolve_ext_key_id-unsure :
      (w w₁ : S) (e : Err) (x : Result S3.AccessKey × S)
      → r.access_key.lookup (namespaced_resource_name lib k.meta) w ≡ x
      → resolve_ext_key_id lib r k w ≡ (err e, w₁)
      → is e resource_not_found ≡ false
  unfolding resolve_ext_key_id is
  resolve_ext_key_id-unsure w w₁ e (ok key, t) h g = ground arith
  resolve_ext_key_id-unsure w w₁ e (err f, t) h g = elim (Bool-cases (is f resource_not_found)) [
    | inl gone ↦ ground arith
    | inr other ↦
        let same : e ≡ wrap "looking up key for deletion: " f "" = ground arith in
        ap (λ y. is y resource_not_found) same ∙ other
  ]
  resolve_ext_key_id-unsure w w₁ e (panic, t) h g = ground arith
