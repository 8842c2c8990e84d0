-- ===== src/AccessKey/Ownership.antt =====
-- What the reconciler of access keys leaves alone: secrets of other owners, keys that Garage has,
-- and keys that it could not delete.
use garage_storage_controlle.Prelude.{
  String, ◌++◌, ◌≡◌, ◌∙◌, ap, refl, true, false, arith, nonempty, str_eq, Bool-cases, inl, inr,
  if◌then◌else◌,
}
use garage_storage_controlle.Errors.{Err, is, wrap, sentinel, name_conflict, resource_not_found}
use garage_storage_controlle.Exec.{Result, ok, err, panic, Run, CtrlResult}
use garage_storage_controlle.S3
use garage_storage_controlle.Api.{AccessKey, NamespacedName}
use garage_storage_controlle.Kube.{Libraries, Secret}
use garage_storage_controlle.Conditions.{finalizer_name}
use garage_storage_controlle.Naming.{namespaced_resource_name}
use garage_storage_controlle.AccessKey.Types.{AccessKeyReconciler}
use garage_storage_controlle.AccessKey.External.{
  ensure_external_key, ensure_secret, resolve_ext_key_id, cleanup_old_secret,
}
use garage_storage_controlle.AccessKey.Conditions.{mark_secret_not_ready}
use garage_storage_controlle.AccessKey.Reconciler.{finalize, replace_old_secret}
use garage_storage_controlle.AccessKey.Deletion.{
  tolerated, without_value, released, deletion, resolved_deletion, resolved_deletion-deletion,
  resolve_ext_key_id-unsure,
}

abbrev pub secret_ref : AccessKey → NamespacedName
secret_ref k = record { namespace = k.meta.namespace; name = k.spec.secret_name }

module _ {S : Type 0} (lib : Libraries) (r : AccessKeyReconciler S) (k : AccessKey) (w w₁ : S) where
  -- A secret of that name that the access key does not control is not written: the error is a name
  -- conflict, and looking the secret up is the only call.
  pub ensure_secret_foreign :
      (credentials : String) (s : Secret)
      → r.client.get_secret (secret_ref k) w ≡ (ok s, w₁)
      → lib.is_controlled_by s.meta k.meta ≡ false
      → let (result, w') = ensure_secret lib r k credentials w in
        (e : Err) × (result ≡ err e) × (is e name_conflict ≡ true) × (w' ≡ w₁)
  unfolding ensure_secret is
  ensure_secret_foreign credentials s got foreign = (
    wrap
        ("existing secret '"
          ++ (s.meta.name ++ ("' not owned by AccessKey '" ++ (lib.show_meta k.meta ++ "': "))))
        (sentinel name_conflict) "",
    ground arith,
    refl,
    ground arith,
  )

  -- Garage's answer to the one question that ensureExternalKey asks first: by the identifier of the
  -- status where there is one, and by name otherwise.
  abbrev pub first_answer : Result S3.AccessKey × S
  first_answer =
      if nonempty k.status.access_key_id
      then r.access_key.get k.status.access_key_id w
      else r.access_key.lookup (namespaced_resource_name lib k.meta) w

  -- No key is created where Garage's answer leaves open whether there is one: the error is passed
  -- on, wrapped, and asking is the only call.
  pub ensure_external_key_unsure :
      (e : Err)
      → first_answer ≡ (err e, w₁)
      → is e resource_not_found ≡ false
      → let (result, w') = ensure_external_key lib r k w in
        (pre : String) × (result ≡ err (wrap pre e "")) × (w' ≡ w₁)
  unfolding ensure_external_key
  ensure_external_key_unsure e failed other = (
    if nonempty k.status.access_key_id
        then "verifying existing key: "
        else "unable to check for existing remote key: ",
    ground arith,
    ground arith,
  )

module _ {S : Type 0} (lib : Libraries) (r : AccessKeyReconciler S) (k : AccessKey) where
  module _ (present : lib.contains_finalizer k.meta finalizer_name ≡ true) where
    -- what Reconcile makes of the answer: the result, the object and the world after it
    abbrev pub concluded : Result (Unit {0}) × S → Result CtrlResult × Run AccessKey S
    concluded (answer, v) =
        if tolerated answer
        then (
          without_value (r.client.update_access_key (released lib k) v).0,
          record {
            object = released lib k;
            world = (r.client.update_access_key (released lib k) v).1;
          },
        )
        else (without_value answer, record { object = k; world = v })

    -- It is not clear which key of Garage's is its own: the error is the result, no key is deleted,
    -- and the finalizer stays.
    finalize_unresolved :
        (w w₁ : S) (e : Err)
        → resolve_ext_key_id lib r k w ≡ (err e, w₁)
        → finalize lib r (record { object = k; world = w })
          ≡ (err e, record { object = k; world = w₁ })
    unfolding finalize
    finalize_unresolved w w₁ e unresolved = ground arith

    module _ (w w₁ w₂ : S) (id : String) (answer : Result (Unit {0}))
        (resolved : resolve_ext_key_id lib r k w ≡ (ok id, w₁)) (named : nonempty id ≡ true)
        (answered : r.access_key.delete id w₁ ≡ (answer, w₂)) where
      -- Garage does not delete its key, for another reason than that it is gone: that error is the
      -- result, the resource keeps its finalizer, and nothing else is called.
      finalize_key_blocked :
          tolerated answer ≡ false
          → finalize lib r (record { object = k; world = w })
            ≡ (without_value answer, record { object = k; world = w₂ })
      unfolding finalize
      finalize_key_blocked refused = ground arith

      -- Garage has deleted its key, or says that it is gone: the resource is updated without the
      -- finalizer, and the outcome of that one update is the result.
      finalize_key_releases :
          tolerated answer ≡ true
          → finalize lib r (record { object = k; world = w }) ≡ (
            without_value (r.client.update_access_key (released lib k) w₂).0,
            record {
              object = released lib k;
              world = (r.client.update_access_key (released lib k) w₂).1;
            },
          )
      unfolding finalize
      finalize_key_releases tolerable = ground arith

      finalize_named : finalize lib r (record { object = k; world = w }) ≡ concluded (answer, w₂)
      finalize_named = elim (Bool-cases (tolerated answer)) [
        | inl tolerable ↦ rw tolerable (finalize_key_releases tolerable)
        | inr refused ↦ rw refused (finalize_key_blocked refused)
      ]

    -- there is no key to delete
    finalize_unnamed :
        (w w₁ : S) (id : String)
        → resolve_ext_key_id lib r k w ≡ (ok id, w₁)
        → nonempty id ≡ false
        → finalize lib r (record { object = k; world = w }) ≡ concluded (ok tt, w₁)
    unfolding finalize
    finalize_unnamed w w₁ id resolved unnamed = ground arith

    finalize_resolved :
        (w : S) (x : Result String × S)
        → resolve_ext_key_id lib r k w ≡ x
        → finalize lib r (record { object = k; world = w })
          ≡ concluded (resolved_deletion lib r k w)
    unfolding finalize
    finalize_resolved w (ok id, w₁) resolved = elim (Bool-cases (nonempty id)) [
      | inl named ↦ ground (arith, finalize_named w w₁ _ id _ resolved named refl)
      | inr unnamed ↦ ground (arith, finalize_unnamed w w₁ id resolved unnamed)
    ]
    finalize_resolved w (err e, w₁) resolved = ground (
      arith,
      finalize_unresolved w w₁ e resolved,
      resolve_ext_key_id-unsure lib r k w w₁ e _ refl resolved,
    )
    finalize_resolved w (panic, w₁) resolved = ground arith

    -- Where an access key with the finalizer is being deleted, the key in Garage to delete is the one
    -- that the status records, and without one the key that Garage finds under the resource's name.
    -- If Garage deletes it or says that it is gone, or says that there is none of that name, the
    -- resource is updated without the finalizer and the outcome of that one update is the result.
    -- Otherwise the error of the deletion, or the wrapped error of the lookup, is the result, the
    -- resource keeps its finalizer, and nothing else is called.
    pub finalize_answers :
        (w : S)
        → let (answer, v) = deletion lib r k w in
          finalize lib r (record { object = k; world = w }) ≡ (
            if tolerated answer
            then (
              without_value (r.client.update_access_key (released lib k) v).0,
              record {
                object = released lib k;
                world = (r.client.update_access_key (released lib k) v).1;
              },
            )
            else (without_value answer, record { object = k; world = v }))
    finalize_answers w =
        finalize_resolved w _ refl ∙ ap concluded (resolved_deletion-deletion lib r k w _ refl)

-- After a change of the secret's name: if the old secret cannot be deleted, the error is returned
-- and the status still names the old secret, so that a later reconciliation deletes it; nothing
-- else is called.
pub replace_old_secret_keeps_name :
    {S : Type 0} (lib : Libraries) (r : AccessKeyReconciler S) (k : AccessKey) (w w' : S) (e : Err)
    → nonempty k.status.secret_name ≡ true
    → str_eq k.status.secret_name k.spec.secret_name ≡ false
    → cleanup_old_secret lib r k.status.secret_name k.meta.namespace w ≡ (err e, w')
    → let (result, after) = replace_old_secret lib r (record { object = k; world = w }) in
      (result ≡ err e)
      × (after.object.status.secret_name ≡ k.status.secret_name)
      × (after.world ≡ w')
unfolding replace_old_secret mark_secret_not_ready
replace_old_secret_keeps_name lib r k w w' e old renamed failed =
    (ground arith, ground arith, ground arith)
