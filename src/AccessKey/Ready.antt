-- ===== src/AccessKey/Ready.antt =====
-- The conditions that reconcileAccessKey leaves, and the nil pointers that are not followed.
use garage_storage_controlle.Prelude.{String, ◌≡◌, refl, true, List, [], ◌∷◌, arith, is_some}
use garage_storage_controlle.Errors.{Err}
use garage_storage_controlle.Exec.{Exec, Run, Result, ok, err, panic}
use garage_storage_controlle.S3
use garage_storage_controlle.Api.{AccessKey}
use garage_storage_controlle.Kube.{Libraries}
use garage_storage_controlle.Kube.Laws.{ConditionLaws}
use garage_storage_controlle.Conditions.{ready, mark_not_ready}
use garage_storage_controlle.Conditions.Laws.{HasConditions, set-HasConditions, init-HasConditions}
use garage_storage_controlle.AccessKey.Conditions.{
  access_key_ready, key_secret_ready, initialize_conditions, mark_access_key_ready,
  mark_access_key_not_ready, mark_secret_ready, mark_secret_not_ready, external_key_ready_stat,
  update_access_key_condition,
}
use garage_storage_controlle.AccessKey.Types.{AccessKeyReconciler, set_access_key_id}
use garage_storage_controlle.AccessKey.External.{ensure_secret}
use garage_storage_controlle.AccessKey.Reconciler.{
  is_settled, secret_failed, replace_old_secret, provide_secret, provision, reconcile_access_key,
}

abbrev key_types : List String
key_types = access_key_ready ∷ key_secret_ready ∷ []

abbrev pub IsInitialized : Libraries → AccessKey → Type 0
IsInitialized lib k = HasConditions lib key_types k.status.conditions

module _ {S : Type 0} {lib : Libraries} (laws : ConditionLaws lib) (r : AccessKeyReconciler S) where
  abbrev Keeps : {A : Type 0} → Exec (Run AccessKey S) A → Type 0
  Keeps m = (s : Run AccessKey S) → IsInitialized lib s.object → IsInitialized lib (m s).1.object

  secret_failed-IsInitialized : (e : Err) → Keeps (secret_failed lib r e)
  unfolding secret_failed mark_secret_not_ready mark_not_ready
  secret_failed-IsInitialized e s h = grind (arith, set-HasConditions laws key_types)

  replace_old_secret-IsInitialized : Keeps (replace_old_secret lib r)
  unfolding replace_old_secret mark_secret_not_ready mark_secret_ready mark_not_ready
  replace_old_secret-IsInitialized s h = grind (arith, set-HasConditions laws key_types)

  -- the key when its secret is asked for
  abbrev known : S3.AccessKey → AccessKey → AccessKey
  known x k = mark_access_key_ready lib (set_access_key_id x.id k)

  known-IsInitialized :
      (x : S3.AccessKey) (k : AccessKey) → IsInitialized lib k → IsInitialized lib (known x k)
  unfolding mark_access_key_ready
  known-IsInitialized x k h = set-HasConditions laws key_types k.status.conditions _ h

  after_secret-IsInitialized :
      (x : S3.AccessKey) (s : Run AccessKey S) (y : Result (Unit {0}) × S)
      → ensure_secret lib r (known x s.object) x.secret s.world ≡ y
      → IsInitialized lib (known x s.object)
      → IsInitialized lib (provide_secret lib r x s).1.object
  unfolding provide_secret
  after_secret-IsInitialized x s (ok u, t) e h =
      let s' : Run AccessKey S = record { object = known x s.object; world = t } in
      ground (arith, replace_old_secret-IsInitialized s' h)
  after_secret-IsInitialized x s (err f, t) e h =
      let s' : Run AccessKey S = record { object = known x s.object; world = t } in
      ground (arith, secret_failed-IsInitialized f s' h)
  after_secret-IsInitialized x s (panic, t) e h = ground arith

  provide_secret-IsInitialized : (x : S3.AccessKey) → Keeps (provide_secret lib r x)
  provide_secret-IsInitialized x s h =
      after_secret-IsInitialized x s _ refl (known-IsInitialized x s.object h)

  provision-IsInitialized : Keeps (provision lib r)
  unfolding provision mark_access_key_not_ready mark_not_ready
  provision-IsInitialized s h =
      grind (arith, set-HasConditions laws key_types, provide_secret-IsInitialized)

  reconcile_access_key-IsInitialized : Keeps (reconcile_access_key lib r)
  unfolding reconcile_access_key
  reconcile_access_key-IsInitialized s h = ground (arith, provision-IsInitialized s h)

  initialize-IsInitialized : (k : AccessKey) → IsInitialized lib (initialize_conditions lib k)
  unfolding initialize_conditions
  initialize-IsInitialized k = (init-HasConditions laws (ready ∷ key_types) k.status.conditions).1

  update-is_some :
      (k : AccessKey) → IsInitialized lib k → is_some (update_access_key_condition lib k) ≡ true
  unfolding update_access_key_condition
  update-is_some k h = grind arith

  settled-is_some : (k : AccessKey) → IsInitialized lib k → is_some (is_settled lib k) ≡ true
  unfolding is_settled external_key_ready_stat
  settled-is_some k h = ground arith

  -- Once the conditions are initialized, reconcileAccessKey's own test of the AccessKeyReady condition
  -- follows no nil pointer, and no way through reconcileAccessKey leaves the key so that
  -- updateAccessKeyCondition follows one.
  pub update-reconcile_access_key :
      (k : AccessKey) (w : S)
      → (is_some (is_settled lib (initialize_conditions lib k)) ≡ true)
        × (is_some (
              update_access_key_condition lib
                (reconcile_access_key lib r
                  (record { object = initialize_conditions lib k; world = w })).1.object)
            ≡ true)
  update-reconcile_access_key k w =
      let s : Run AccessKey S = record { object = initialize_conditions lib k; world = w } in
      (
        settled-is_some (initialize_conditions lib k) (initialize-IsInitialized k),
        update-is_some (reconcile_access_key lib r s).1.object
            (reconcile_access_key-IsInitialized s (initialize-IsInitialized k)),
      )
