-- ===== src/AccessKey/Settled.antt =====
-- Which reconciliations of an access key are final: the next one makes no call.
use garage_storage_controlle.Prelude.{
  String, ◌++◌, ◌≡◌, ◌∙◌, refl, true, false, not, ◌&&◌, some, arith, nonempty, str_eq,
}
use garage_storage_controlle.Errors.{Err, text, is, name_conflict}
use garage_storage_controlle.Exec.{ok, err}
use garage_storage_controlle.S3
use garage_storage_controlle.Api.{
  AccessKey, Condition, ConditionStatus, condition_true, condition_false,
}
use garage_storage_controlle.Kube.{Libraries}
use garage_storage_controlle.Kube.Laws.{ConditionLaws}
use garage_storage_controlle.Conditions.{ready, default_ready_reason, not_ready_condition}
use garage_storage_controlle.AccessKey.Conditions.{
  Summary, available, blame, summary_condition, settle, update_access_key_condition,
  mark_access_key_ready, mark_secret_ready, mark_secret_not_ready, reason_secret_name_conflict,
  is_permanent_failure, key_secret_ready,
}
use garage_storage_controlle.AccessKey.Types.{
  AccessKeyReconciler, set_access_key_id, set_secret_name,
}
use garage_storage_controlle.AccessKey.External.{ensure_external_key, ensure_secret}
use garage_storage_controlle.AccessKey.Reconciler.{
  is_settled, reconcile_access_key, provision, provide_secret,
}

-- the key once Garage's key is known
abbrev pub key_known : Libraries → S3.AccessKey → AccessKey → AccessKey
key_known lib x k = mark_access_key_ready lib (set_access_key_id x.id k)

-- ... once the secret is there
abbrev pub provided : Libraries → S3.AccessKey → AccessKey → AccessKey
provided lib x k = mark_secret_ready lib (set_secret_name k.spec.secret_name (key_known lib x k))

-- ... if another owner has the secret's name
abbrev pub conflicting : Libraries → Err → S3.AccessKey → AccessKey → AccessKey
conflicting lib e x k =
    mark_secret_not_ready lib reason_secret_name_conflict ("Conflict: " ++ text e)
      (key_known lib x k)

-- The Ready condition has this status and reason.
abbrev pub ShowsReady : Libraries → AccessKey → ConditionStatus → String → Type 0
ShowsReady lib k status reason =
    (c : Condition) × (lib.find_status_condition k.status.conditions ready ≡ some c)
    × (c.status ≡ status)
    × (c.reason ≡ reason)

-- Reconciling the key again makes no call and changes nothing.
abbrev pub IsFinal : {S : Type 0} → Libraries → AccessKeyReconciler S → AccessKey → Type 0
IsFinal {S} lib r k =
    (v : S)
    → reconcile_access_key lib r (record { object = k; world = v })
      ≡ (ok tt, record { object = k; world = v })

settled-IsFinal :
    {S : Type 0} (lib : Libraries) (r : AccessKeyReconciler S) (k : AccessKey)
    → is_settled lib k ≡ some true
    → IsFinal lib r k
unfolding reconcile_access_key
settled-IsFinal lib r k h v = ground arith

conflict_IsPermanent :
    (reason : String) → reason ≡ reason_secret_name_conflict → is_permanent_failure reason ≡ true
unfolding is_permanent_failure
conflict_IsPermanent reason h = rw h

module _ {lib : Libraries} (laws : ConditionLaws lib) where
  settle-ShowsReady :
      (s : Summary) (k : AccessKey) → ShowsReady lib (settle lib s k) s.status s.reason
  unfolding settle
  settle-ShowsReady s k = (
    laws.stored k.status.conditions (summary_condition k.meta.generation s),
    laws.find_set k.status.conditions (summary_condition k.meta.generation s) ready,
    laws.stored_status k.status.conditions (summary_condition k.meta.generation s),
    laws.stored_reason k.status.conditions (summary_condition k.meta.generation s),
  )

  update-provided :
      (x : S3.AccessKey) (k : AccessKey)
      → update_access_key_condition lib (provided lib x k)
        ≡ some (settle lib available (provided lib x k))
  unfolding update_access_key_condition mark_access_key_ready mark_secret_ready
  update-provided x k = grind (arith, laws.find_set, laws.stored_status)

  abbrev conflict_literal : Err → S3.AccessKey → AccessKey → Condition
  conflict_literal e x k =
      not_ready_condition k.meta.generation key_secret_ready reason_secret_name_conflict
        ("Conflict: " ++ text e)

  -- the KeySecretReady condition that a conflict leaves
  abbrev conflict_condition : Err → S3.AccessKey → AccessKey → Condition
  conflict_condition e x k =
      laws.stored (key_known lib x k).status.conditions (conflict_literal e x k)

  conflict_observed :
      (e : Err) (x : S3.AccessKey) (k : AccessKey)
      → (settle lib
          (blame (conflict_condition e x k))
          (conflicting lib e x k)).status.observed_generation
        ≡ k.meta.generation
  unfolding settle mark_access_key_ready mark_secret_not_ready
  conflict_observed e x k = ground (
    arith,
    conflict_IsPermanent (blame (conflict_condition e x k)).reason
        (laws.stored_reason (key_known lib x k).status.conditions (conflict_literal e x k)),
  )

  -- the key with its Ready condition after a conflict
  abbrev given_up : Err → S3.AccessKey → AccessKey → AccessKey
  given_up e x k = settle lib (blame (conflict_condition e x k)) (conflicting lib e x k)

  update-conflicting :
      (e : Err) (x : S3.AccessKey) (k : AccessKey)
      → update_access_key_condition lib (conflicting lib e x k) ≡ some (given_up e x k)
  unfolding update_access_key_condition mark_access_key_ready mark_secret_not_ready
  update-conflicting e x k = grind (arith, laws.find_set, laws.stored_status)

  given_up-ShowsReady :
      (e : Err) (x : S3.AccessKey) (k : AccessKey)
      → ShowsReady lib (given_up e x k) condition_false reason_secret_name_conflict
  given_up-ShowsReady e x k =
      let s = blame (conflict_condition e x k) in
      let (shown, at_ready, status, reason) = settle-ShowsReady s (conflicting lib e x k) in
      (shown, at_ready, status, reason ∙ laws.stored_reason _ _)

  settled_conflicting :
      (e : Err) (x : S3.AccessKey) (k : AccessKey)
      → nonempty x.id ≡ true
      → is_settled lib (settle lib (blame (conflict_condition e x k)) (conflicting lib e x k))
        ≡ some true
  unfolding is_settled settle mark_access_key_ready mark_secret_not_ready
  settled_conflicting e x k known = grind (
    arith,
    laws.find_set,
    laws.stored_status,
    conflict_IsPermanent (blame (conflict_condition e x k)).reason
        (laws.stored_reason (key_known lib x k).status.conditions (conflict_literal e x k)),
  )

  settled_provided :
      (x : S3.AccessKey) (k : AccessKey)
      → nonempty x.id ≡ true
      → is_settled lib (settle lib available (provided lib x k)) ≡ some true
  unfolding is_settled settle mark_access_key_ready mark_secret_ready
  settled_provided x k known = grind (arith, laws.find_set, laws.stored_status)

module _ {S : Type 0} {lib : Libraries} (laws : ConditionLaws lib) (r : AccessKeyReconciler S)
    (k : AccessKey) (x : S3.AccessKey) (w w₁ w₂ : S) (unsettled : is_settled lib k ≡ some false)
    (named : nonempty x.id ≡ true) (found : ensure_external_key lib r k w ≡ (ok x, w₁)) where
  -- Garage has the key, and its secret is there under the name of the spec: reconcileAccessKey
  -- succeeds, the key becomes Ready as Available and records the key's identifier and the secret's
  -- name, and reconciling it again, in any state of the world, succeeds with no call and no change.
  pub reconcile_access_key_settles :
      ensure_secret lib r (key_known lib x k) x.secret w₁ ≡ (ok tt, w₂)
      → (nonempty k.status.secret_name && not (str_eq k.status.secret_name k.spec.secret_name))
        ≡ false
      → (q q' : AccessKey) × (reconcile_access_key lib r (record { object = k; world = w })
          ≡ (ok tt, record { object = q; world = w₂ }))
        × (update_access_key_condition lib q ≡ some q')
        × ShowsReady lib q' condition_true default_ready_reason
        × (q'.status.access_key_id ≡ x.id)
        × (q'.status.secret_name ≡ k.spec.secret_name)
        × IsFinal lib r q'
  unfolding reconcile_access_key provision provide_secret settle mark_access_key_ready
      mark_secret_ready
  reconcile_access_key_settles ensured same = (
    provided lib x k,
    settle lib available (provided lib x k),
    ground arith,
    update-provided laws x k,
    settle-ShowsReady laws available (provided lib x k),
    refl,
    refl,
    settled-IsFinal lib r (settle lib available (provided lib x k))
        (settled_provided laws x k named),
  )

  -- A secret of that name has another owner: reconcileAccessKey returns no error, so it is not tried
  -- again, the key is not Ready for the reason SecretNameConflict, and reconciling it again makes no
  -- call until the spec changes.
  pub reconcile_access_key_gives_up :
      (e : Err)
      → ensure_secret lib r (key_known lib x k) x.secret w₁ ≡ (err e, w₂)
      → is e name_conflict ≡ true
      → (q q' : AccessKey) × (reconcile_access_key lib r (record { object = k; world = w })
          ≡ (ok tt, record { object = q; world = w₂ }))
        × (update_access_key_condition lib q ≡ some q')
        × ShowsReady lib q' condition_false reason_secret_name_conflict
        × (q'.status.observed_generation ≡ k.meta.generation)
        × IsFinal lib r q'
  unfolding reconcile_access_key provision provide_secret mark_secret_not_ready
  reconcile_access_key_gives_up e taken conflict = (
    conflicting lib e x k,
    given_up laws e x k,
    ground arith,
    update-conflicting laws e x k,
    given_up-ShowsReady laws e x k,
    conflict_observed laws e x k,
    settled-IsFinal lib r (given_up laws e x k) (settled_conflicting laws e x k named),
  )
