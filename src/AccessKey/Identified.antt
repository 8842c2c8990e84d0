-- ===== src/AccessKey/Identified.antt =====
-- An access key that says that it is Ready has an identifier in its status: what the policy
-- reconciler relies on.
use garage_storage_controlle.Prelude.{
  ◌++◌, false, ◌≡◌, ◌∙◌, refl, sym, ap, true, Option, none, some, nonempty, arith, Bool-cases, inl,
  inr,
}
use garage_storage_controlle.Errors.{Err, text, is, resource_not_found}
use garage_storage_controlle.Exec.{
  Result, ok, err, panic, Exec, Run, Outcome, returned, failed, CtrlResult, ◌>>=◌, ◌>>◌, attempt,
  the_object, deref, modify,
}
use garage_storage_controlle.S3
use garage_storage_controlle.Api.{AccessKey, AccessKeyStatus, NamespacedName}
use garage_storage_controlle.Kube.{Libraries}
use garage_storage_controlle.Kube.Laws.{ConditionLaws}
use garage_storage_controlle.Naming.{namespaced_resource_name}
use garage_storage_controlle.AccessKey.Conditions.{
  initialize_conditions, mark_access_key_ready, mark_secret_ready, mark_secret_not_ready,
  update_access_key_condition,
}
use garage_storage_controlle.AccessKey.Types.{AccessKeyReconciler, set_access_key_id}
use garage_storage_controlle.AccessKey.External.{ensure_secret, ensure_external_key}
use garage_storage_controlle.AccessKey.Reconciler.{
  secret_failed, replace_old_secret, provide_secret, provision, reconcile_access_key, save_status,
  reconcile_status,
}
use garage_storage_controlle.AccessKey.Claims.{
  IsIdentified, IdentifierLaws, initialize-IsIdentified, not_ready-IsIdentified,
  update-IsIdentified,
}

module _ {S : Type 0} {lib : Libraries} (laws : ConditionLaws lib) (r : AccessKeyReconciler S)
    (ids : IdentifierLaws r) where
  identified : (k : AccessKey) → nonempty k.status.access_key_id ≡ true → IsIdentified lib k
  identified k h = (ground arith, ground arith)

  secret_failed_keeps :
      (e : Err) (s : Run AccessKey S)
      → (secret_failed lib r e s).1.object.status.access_key_id ≡ s.object.status.access_key_id
  unfolding secret_failed mark_secret_not_ready
  secret_failed_keeps e s = ground arith

  replace_old_secret_keeps :
      (s : Run AccessKey S)
      → (replace_old_secret lib r s).1.object.status.access_key_id ≡ s.object.status.access_key_id
  unfolding replace_old_secret mark_secret_not_ready mark_secret_ready
  replace_old_secret_keeps s = ground arith

  -- the key when its secret is asked for
  abbrev known : S3.AccessKey → AccessKey → AccessKey
  known x k = mark_access_key_ready lib (set_access_key_id x.id k)

  after_secret :
      (x : S3.AccessKey) (s : Run AccessKey S) (y : Result (Unit {0}) × S)
      → ensure_secret lib r (known x s.object) x.secret s.world ≡ y
      → (provide_secret lib r x s).1.object.status.access_key_id ≡ x.id
  unfolding provide_secret mark_access_key_ready
  after_secret x s (ok u, t) e =
      ground (arith, replace_old_secret_keeps (record { object = known x s.object; world = t }))
  after_secret x s (err f, t) e =
      ground (arith, secret_failed_keeps f (record { object = known x s.object; world = t }))
  after_secret x s (panic, t) e = ground arith

  gotten :
      (k : AccessKey) (x : S3.AccessKey) (w t : S) (y : Result S3.AccessKey × S)
      → nonempty k.status.access_key_id ≡ true
      → r.access_key.get k.status.access_key_id w ≡ y
      → ensure_external_key lib r k w ≡ (ok x, t)
      → nonempty x.id ≡ true
  unfolding ensure_external_key
  gotten k x w t (ok key, v) named e h =
      let same : key ≡ x = ground arith in ids.get_identified _ w v x (e ∙ ap (λ z. (ok z, v)) same)
  gotten k x w t (err f, v) named e h = elim (Bool-cases (is f resource_not_found)) [
    | inl absent ↦ ids.create_identified (namespaced_resource_name lib k.meta) v t x (ground arith)
    | inr other ↦ absurd (ground arith)
  ]
  gotten k x w t (panic, v) named e h = absurd (ground arith)

  looked_up :
      (k : AccessKey) (x : S3.AccessKey) (w t : S) (y : Result S3.AccessKey × S)
      → nonempty k.status.access_key_id ≡ false
      → r.access_key.lookup (namespaced_resource_name lib k.meta) w ≡ y
      → ensure_external_key lib r k w ≡ (ok x, t)
      → nonempty x.id ≡ true
  unfolding ensure_external_key
  looked_up k x w t (ok key, v) unnamed e h =
      let same : key ≡ x = ground arith in
      ids.lookup_identified _ w v x (e ∙ ap (λ z. (ok z, v)) same)
  looked_up k x w t (err f, v) unnamed e h = elim (Bool-cases (is f resource_not_found)) [
    | inl absent ↦ ids.create_identified (namespaced_resource_name lib k.meta) v t x (ground arith)
    | inr other ↦ absurd (ground arith)
  ]
  looked_up k x w t (panic, v) unnamed e h = absurd (ground arith)

  ensured :
      (k : AccessKey) (x : S3.AccessKey) (w t : S)
      → ensure_external_key lib r k w ≡ (ok x, t)
      → nonempty x.id ≡ true
  ensured k x w t h = elim (Bool-cases (nonempty k.status.access_key_id)) [
    | inl named ↦ gotten k x w t _ named refl h
    | inr unnamed ↦ looked_up k x w t _ unnamed refl h
  ]

  provision-IsIdentified :
      (s : Run AccessKey S) (y : Result S3.AccessKey × S)
      → ensure_external_key lib r s.object s.world ≡ y
      → IsIdentified lib s.object
      → IsIdentified lib (provision lib r s).1.object
  unfolding provision
  provision-IsIdentified s (ok x, v) e h =
      let s' : Run AccessKey S = record s { world = v } in
      let id : (provision lib r s).1.object.status.access_key_id ≡ x.id =
        ground (arith, after_secret x s' _ refl) in
      identified (provision lib r s).1.object (ap nonempty id ∙ ensured s.object x s.world v e)
  provision-IsIdentified s (err f, v) e h = (
    ground (
      arith,
      (not_ready-IsIdentified laws "AccessKeyUnknown"
          ("Failed to verify external access key: " ++ text f) s.object h).0,
    ),
    ground (
      arith,
      (not_ready-IsIdentified laws "AccessKeyUnknown"
          ("Failed to verify external access key: " ++ text f) s.object h).1,
    ),
  )
  provision-IsIdentified s (panic, v) e h = (ground arith, ground arith)

  reconcile_access_key-IsIdentified :
      (s : Run AccessKey S)
      → IsIdentified lib s.object
      → IsIdentified lib (reconcile_access_key lib r s).1.object
  unfolding reconcile_access_key
  reconcile_access_key-IsIdentified s h =
      let kept = provision-IsIdentified s _ refl h in
      (ground (arith, kept.0), ground (arith, kept.1))

  save_status_keeps :
      (req : NamespacedName) (orig : AccessKeyStatus) (o : Outcome (Unit {0})) (s : Run AccessKey S)
      → (save_status lib r req orig o s).1.object ≡ s.object
  unfolding save_status
  save_status_keeps req orig (returned x) s = ground arith
  save_status_keeps req orig (failed e) s = ground arith

  -- what follows reconcileAccessKey in Reconcile
  abbrev concluding :
      NamespacedName → AccessKeyStatus → Outcome (Unit {0}) → Exec (Run AccessKey S) CtrlResult
  concluding req orig o = do
    updated ← the_object
    shown ← deref (update_access_key_condition lib updated)
    modify (λ _. shown)
    save_status lib r req orig o

  concluding-IsIdentified :
      (req : NamespacedName) (orig : AccessKeyStatus) (o : Outcome (Unit {0})) (t : Run AccessKey S)
      (u : Option AccessKey)
      → update_access_key_condition lib t.object ≡ u
      → IsIdentified lib t.object
      → IsIdentified lib (concluding req orig o t).1.object
  concluding-IsIdentified req orig o t none e h = rw e h
  concluding-IsIdentified req orig o t (some q) e h = rw e (
      rw (save_status_keeps req orig o (record t { object = q }))
        (update-IsIdentified laws t.object q e h))

  -- An access key whose condition Ready or AccessKeyReady is True only if its identifier is recorded
  -- is left so by every way through Reconcile's part for the status. The laws are the documented
  -- behaviour of the helpers for conditions, and that Garage's identifiers are not empty.
  pub reconcile_status-IsIdentified :
      (req : NamespacedName) (s : Run AccessKey S)
      → IsIdentified lib s.object
      → IsIdentified lib (reconcile_status lib r req s).1.object
  unfolding reconcile_status
  reconcile_status-IsIdentified req s h = go (reconcile_access_key lib r first) refl
    where
      first : Run AccessKey S
      first = record s { object = initialize_conditions lib s.object }

      known_first : IsIdentified lib (reconcile_access_key lib r first).1.object
      known_first =
          reconcile_access_key-IsIdentified first (initialize-IsIdentified laws s.object h)

      go :
          (y : Result (Unit {0}) × Run AccessKey S)
          → reconcile_access_key lib r first ≡ y
          → IsIdentified lib ((attempt (λ _. y) >>= concluding req s.object.status) first).1.object
      go (ok x, t) e =
          concluding-IsIdentified req s.object.status (returned x) t _ refl
            (rw (ap (λ z. z.1.object) (sym e)) known_first)
      go (err f, t) e =
          concluding-IsIdentified req s.object.status (failed f) t _ refl
            (rw (ap (λ z. z.1.object) (sym e)) known_first)
      go (panic, t) e = rw (ap (λ z. z.1.object) (sym e)) known_first
