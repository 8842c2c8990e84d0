-- ===== src/AccessKey/Single.antt =====
-- How many keys an AccessKey has in Garage, over repeated calls of ensureExternalKey whose status may
-- be saved or lost.
use garage_storage_controlle.Prelude.{
  suc, ◌+◌, ◌≤◌, String, ◌≡◌, ◌∙◌, sym, refl, ap, true, false, ◌⊎◌, inl, inr, nonempty, arith,
  Bool-cases, if◌then◌else◌,
}
use garage_storage_controlle.Errors.{is, resource_not_found, wrap}
use garage_storage_controlle.Exec.{Result, ok, err, panic}
use garage_storage_controlle.S3
use garage_storage_controlle.Api.{AccessKey}
use garage_storage_controlle.Kube.{Libraries}
use garage_storage_controlle.Naming.{namespaced_resource_name}
use garage_storage_controlle.AccessKey.KeyLaws.{KeyLaws}
use garage_storage_controlle.AccessKey.Types.{AccessKeyReconciler, set_access_key_id}
use garage_storage_controlle.AccessKey.External.{ensure_external_key}

module _ {S : Type 0} (lib : Libraries) (r : AccessKeyReconciler S) (k : AccessKey)
    (laws : KeyLaws r.access_key) where
  -- the name of the resource's key in Garage
  abbrev pub own_name : String
  own_name = namespaced_resource_name lib k.meta

  -- A call of ensureExternalKey with the identifier that the status records, and what the status
  -- records after it: the key's, or what it did before where the call failed or the update of the
  -- status is lost.
  pub data Step : String × S → String × S → Type 0 where
    lost :
        {recorded : String} {w w' : S} {x : Result S3.AccessKey}
        → ensure_external_key lib r (set_access_key_id recorded k) w ≡ (x, w')
        → Step (recorded, w) (recorded, w')
    saved :
        {recorded : String} {w w' : S} {key : S3.AccessKey}
        → ensure_external_key lib r (set_access_key_id recorded k) w ≡ (ok key, w')
        → Step (recorded, w) (key.id, w')

  -- any number of them
  pub data Steps : String × S → String × S → Type 0 where
    stop : {s : String × S} → Steps s s
    next : {s t u : String × S} → Step s t → Steps t u → Steps s u

  -- At most one key has the resource's name, and one that the status records is there.
  abbrev pub IsSingle : String × S → Type 0
  IsSingle (recorded, w) =
      (laws.count own_name w ≤ 1) × ((nonempty recorded ≡ false) ⊎ (laws.has recorded w ≡ true))

  -- what ensureExternalKey makes of the answer to its question
  abbrev decided : String → Result S3.AccessKey × S → Result S3.AccessKey × S
  decided pre (ok key, v) = (ok key, v)
  decided pre (err e, v) =
      if is e resource_not_found then r.access_key.create own_name v else (err (wrap pre e ""), v)
  decided pre (panic, v) = (panic, v)

  by_identifier :
      (id : String) (w : S) (x : Result S3.AccessKey × S)
      → nonempty id ≡ true
      → r.access_key.get id w ≡ x
      → ensure_external_key lib r (set_access_key_id id k) w ≡ decided "verifying existing key: " x
  unfolding ensure_external_key
  by_identifier id w (ok key, v) named e = ground arith
  by_identifier id w (err f, v) named e = ground arith
  by_identifier id w (panic, v) named e = ground arith

  by_name :
      (id : String) (w : S) (x : Result S3.AccessKey × S)
      → nonempty id ≡ false
      → r.access_key.lookup own_name w ≡ x
      → ensure_external_key lib r (set_access_key_id id k) w
        ≡ decided "unable to check for existing remote key: " x
  unfolding ensure_external_key
  by_name id w (ok key, v) unnamed e = ground arith
  by_name id w (err f, v) unnamed e = ground arith
  by_name id w (panic, v) unnamed e = ground arith

  -- what holds of a result and of the world after it
  abbrev IsSound : Result S3.AccessKey × S → Type 0
  IsSound (x, w) =
      (laws.count own_name w ≤ 1) × ((key : S3.AccessKey) → x ≡ ok key → laws.has key.id w ≡ true)

  created :
      (w : S) (x : Result S3.AccessKey × S)
      → r.access_key.create own_name w ≡ x
      → laws.count own_name w ≡ 0
      → IsSound x
  created w (x, v) e zero = (
    ground (arith, laws.create_may_add own_name w v x e),
    λ key h. (laws.create_adds own_name w v key (e ∙ ap (λ y. (y, v)) h)).1,
  )

  looked_up :
      (pre : String) (w : S) (x : Result S3.AccessKey × S)
      → r.access_key.lookup own_name w ≡ x
      → laws.count own_name w ≤ 1
      → IsSound (decided pre x)
  looked_up pre w (ok key, v) e one = (
    ground (arith, (laws.lookup_keeps own_name "" own_name w v (ok key) e).0),
    λ key' h. ground (
      arith,
      (laws.lookup_keeps own_name key'.id own_name w v (ok key) e).1,
      laws.lookup_finds own_name w v key e,
    ),
  )
  looked_up pre w (err f, v) e one = elim (Bool-cases (is f resource_not_found)) [
    | inl gone ↦
        let same : laws.count own_name v ≡ laws.count own_name w =
          (laws.lookup_keeps own_name "" own_name w v (err f) e).0 in
        rw gone (created v _ refl (same ∙ laws.lookup_misses own_name w v f e gone))
    | inr other ↦
        let same : laws.count own_name v ≡ laws.count own_name w =
          (laws.lookup_keeps own_name "" own_name w v (err f) e).0 in
        rw other (ground arith, λ key' h. ground arith)
  ]
  looked_up pre w (panic, v) e one = (
    ground (arith, (laws.lookup_keeps own_name "" own_name w v panic e).0),
    λ key' h. ground arith,
  )

  identified :
      (pre id : String) (w : S) (x : Result S3.AccessKey × S)
      → r.access_key.get id w ≡ x
      → laws.count own_name w ≤ 1
      → laws.has id w ≡ true
      → IsSound (decided pre x) × (laws.has id (decided pre x).1 ≡ true)
  identified pre id w (ok key, v) e one there =
      let (same, keeps) = laws.get_keeps own_name id id w v (ok key) e in
      (
        (ground (arith, same), λ key' h. ground (arith, keeps, there, laws.get_finds id w v key e)),
        keeps ∙ there,
      )
  identified pre id w (err f, v) e one there = elim (Bool-cases (is f resource_not_found)) [
    | inl gone ↦ absurd (ground (arith, laws.get_misses id w v f e gone))
    | inr other ↦
        let (same, keeps) = laws.get_keeps own_name id id w v (err f) e in
        rw other ((ground (arith, same), λ key' h. ground arith), keeps ∙ there)
  ]
  identified pre id w (panic, v) e one there =
      let (same, keeps) = laws.get_keeps own_name id id w v panic e in
      ((ground (arith, same), λ key' h. ground arith), keeps ∙ there)

  -- one call keeps to a single key, whatever its answer
  ensured :
      (id : String) (w : S)
      → IsSingle (id, w)
      → IsSound (ensure_external_key lib r (set_access_key_id id k) w)
        × IsSingle (id, (ensure_external_key lib r (set_access_key_id id k) w).1)
  ensured id w (one, known) = elim (Bool-cases (nonempty id)) [
    | inl named ↦
        let there : laws.has id w ≡ true = elim known [ inl unnamed ↦ cc | inr h ↦ h ] in
        let (sound, kept) = identified "verifying existing key: " id w _ refl one there in
        rw (by_identifier id w _ named refl) (sound, (sound.0, inr kept))
    | inr unnamed ↦
        let sound = looked_up "unable to check for existing remote key: " w _ refl one in
        rw (by_name id w _ unnamed refl) (sound, (sound.0, inl unnamed))
  ]

  ensured_so :
      (id : String) (w : S) (x : Result S3.AccessKey × S)
      → ensure_external_key lib r (set_access_key_id id k) w ≡ x
      → IsSingle (id, w)
      → IsSound x × IsSingle (id, x.1)
  ensured_so id w x e single = rw (sym e) (ensured id w single)

  Step-IsSingle : {s t : String × S} → Step s t → IsSingle s → IsSingle t
  Step-IsSingle (lost {recorded = id} {w = w} {x = x} answered) single =
      (ensured_so id w (x, _) answered single).1
  Step-IsSingle (saved {recorded = id} {w = w} {key = key} answered) single =
      let (sound, _) = ensured_so id w (ok key, _) answered single in
      (sound.0, inr (sound.1 key refl))

  -- However often ensureExternalKey is called, and whichever updates of the status are lost: if at
  -- first at most one key of Garage has the resource's name and the status records none, or one that
  -- is there, then this holds ever after. So no second key is created. The laws are what Garage
  -- documents of its keys; that nothing else creates or deletes them is part of the steps.
  pub ensure_external_key-IsSingle : {s t : String × S} → Steps s t → IsSingle s → IsSingle t
  ensure_external_key-IsSingle stop single = single
  ensure_external_key-IsSingle (next step rest) single =
      ensure_external_key-IsSingle rest (Step-IsSingle step single)

  stale_run :
      (id : String) (w w' : S) (key : S3.AccessKey) (x : Result S3.AccessKey × S)
      → nonempty id ≡ true
      → r.access_key.get id w ≡ x
      → laws.has id w ≡ false
      → ensure_external_key lib r (set_access_key_id id k) w ≡ (ok key, w')
      → laws.count own_name w' ≡ suc (laws.count own_name w)
  stale_run id w w' key (ok found, v) named e gone h =
      absurd (ground (arith, laws.get_finds id w v found e))
  stale_run id w w' key (err f, v) named e gone h = elim (Bool-cases (is f resource_not_found)) [
    | inl missing ↦
        let (same, _) = laws.get_keeps own_name id id w v (err f) e in
        let made : r.access_key.create own_name v ≡ (ok key, w') =
          ground (arith, by_identifier id w (err f, v) named e) in
        (laws.create_adds own_name v w' key made).0 ∙ ap suc same
    | inr other ↦ absurd (ground (arith, by_identifier id w (err f, v) named e))
  ]
  stale_run id w w' key (panic, v) named e gone h =
      absurd (ground (arith, by_identifier id w (panic, v) named e))

  -- The key that the status records is gone from Garage, and the update of the status is lost after
  -- each of two calls of ensureExternalKey that succeed: then each has created a key, so that two
  -- more have the resource's name, since with a recorded identifier none is looked up by name. The
  -- laws are what Garage documents of its keys.
  pub ensure_external_key_repeats :
      (id : String) (w w₁ w₂ : S) (first second : S3.AccessKey)
      → nonempty id ≡ true
      → laws.has id w ≡ false
      → ensure_external_key lib r (set_access_key_id id k) w ≡ (ok first, w₁)
      → laws.has id w₁ ≡ false
      → ensure_external_key lib r (set_access_key_id id k) w₁ ≡ (ok second, w₂)
      → laws.count own_name w₂ ≡ laws.count own_name w + 2
  ensure_external_key_repeats id w w₁ w₂ first second named gone h still g = ground (
    arith,
    stale_run id w w₁ first _ named refl gone h,
    stale_run id w₁ w₂ second _ named refl still g,
  )
