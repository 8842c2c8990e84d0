-- ===== src/Bucket/Stale.antt =====
-- Which ConfigMaps are written and which are deleted.
use garage_storage_controlle.Prelude.{
  String, ◌++◌, ◌≡◌, ◌≢◌, refl, false, true, List, [], ◌∷◌, arith, eq_iff, Bool-cases, inl, inr,
  ◌⊎◌, ◌∙◌, if◌then◌else◌,
}
use garage_storage_controlle.Errors.{wrap}
use garage_storage_controlle.Exec.{Result, ok, err, panic, Exec, ◌>>◌}
use garage_storage_controlle.Api.{Bucket}
use garage_storage_controlle.Kube.{Libraries, ConfigMap}
use garage_storage_controlle.Bucket.Types.{BucketReconciler, desired_name}
use garage_storage_controlle.Bucket.ConfigMaps.{is_stale, delete_config_map, delete_all_stale}

module _ {S : Type 0} (lib : Libraries) (r : BucketReconciler S) (bucket : Bucket) where
  -- the name is the one that the spec asks for, or the bucket's where the spec names none
  abbrev pub IsAskedFor : String → Type 0
  IsAskedFor name =
      ((bucket.spec.config_map_name ≢ "") × (name ≡ bucket.spec.config_map_name))
      ⊎ ((bucket.spec.config_map_name ≡ "") × (name ≡ bucket.meta.name))

  -- the bucket controls the ConfigMap, which has another name than the one that is asked for
  abbrev pub IsStale : ConfigMap → Type 0
  IsStale cm = (lib.is_controlled_by cm.meta bucket.meta ≡ true) × (¬ IsAskedFor cm.meta.name)

  -- The second list has those of the first that are stale, all of them and in the same order.
  pub data IsSelection : List ConfigMap → List ConfigMap → Type 0 where
    finished : IsSelection [] []
    stale :
        {cms deleted : List ConfigMap} (cm : ConfigMap)
        → IsStale cm
        → IsSelection cms deleted
        → IsSelection (cm ∷ cms) (cm ∷ deleted)
    kept :
        {cms deleted : List ConfigMap} (cm : ConfigMap)
        → ¬ IsStale cm
        → IsSelection cms deleted
        → IsSelection (cm ∷ cms) deleted

  -- What comes after an answer to a deletion: a ConfigMap that is gone already is no error.
  abbrev pub after_deletion :
      ConfigMap → Exec S (Unit {0}) → Result (Unit {0}) × S → Result (Unit {0}) × S
  after_deletion cm rest (ok _, w) = rest w
  after_deletion cm rest (err e, w) =
      if lib.is_not_found e
      then rest w
      else (err (wrap ("deleting stale configmap " ++ (cm.meta.name ++ ": ")) e ""), w)
  after_deletion cm rest (panic, w) = (panic, w)

  -- one after the other until one deletion fails
  abbrev pub delete_each : List ConfigMap → Exec S (Unit {0})
  delete_each [] w = (ok tt, w)
  delete_each (cm ∷ cms) w = after_deletion cm (delete_each cms) (r.client.delete_config_map cm w)

  desired_name-IsAskedFor : IsAskedFor (desired_name bucket)
  unfolding desired_name
  desired_name-IsAskedFor = ground (arith, eq_iff bucket.spec.config_map_name "")

  asked_for_unique : (name : String) → IsAskedFor name → name ≡ desired_name bucket
  unfolding desired_name
  asked_for_unique name asked = ground (arith, eq_iff bucket.spec.config_map_name "")

  is_stale-IsStale : (cm : ConfigMap) → is_stale lib r bucket cm ≡ true → IsStale cm
  unfolding is_stale
  is_stale-IsStale cm h = (
    ground arith,
    λ asked.
        ground
          (arith, asked_for_unique cm.meta.name asked, eq_iff cm.meta.name (desired_name bucket)),
  )

  is_stale_complete : (cm : ConfigMap) → is_stale lib r bucket cm ≡ false → ¬ IsStale cm
  unfolding is_stale
  is_stale_complete cm h (controlled, other) =
      let same : cm.meta.name ≡ desired_name bucket =
        ground (arith, eq_iff cm.meta.name (desired_name bucket)) in
      other (rw same desired_name-IsAskedFor)

  delete_config_map-after_deletion :
      (cm : ConfigMap) (rest : Exec S (Unit {0})) (w : S)
      → (delete_config_map lib r cm >> rest) w
        ≡ after_deletion cm rest (r.client.delete_config_map cm w)
  unfolding delete_config_map
  delete_config_map-after_deletion cm rest w = answered (r.client.delete_config_map cm w) refl
    where
      answered :
          (x : Result (Unit {0}) × S)
          → r.client.delete_config_map cm w ≡ x
          → (delete_config_map lib r cm >> rest) w ≡ after_deletion cm rest x
      answered (ok _, v) h = ground arith
      answered (err e, v) h = ground arith
      answered (panic, v) h = ground arith

  after_deletion_same :
      (cm : ConfigMap) (m n : Exec S (Unit {0})) (x : Result (Unit {0}) × S)
      → ((w : S) → m w ≡ n w)
      → after_deletion cm m x ≡ after_deletion cm n x
  after_deletion_same cm m n (ok _, w) same = same w
  after_deletion_same cm m n (err e, w) same = ground (arith, same w)
  after_deletion_same cm m n (panic, w) same = refl

  delete_all_stale_head :
      (cm : ConfigMap) (cms deleted : List ConfigMap)
      → ((w : S) → delete_all_stale lib r bucket cms w ≡ delete_each deleted w)
      → is_stale lib r bucket cm ≡ true
      → (w : S) → delete_all_stale lib r bucket (cm ∷ cms) w ≡ delete_each (cm ∷ deleted) w
  unfolding delete_all_stale
  delete_all_stale_head cm cms deleted same h w =
      rw h (delete_config_map-after_deletion cm (delete_all_stale lib r bucket cms) w)
      ∙ after_deletion_same cm (delete_all_stale lib r bucket cms) (delete_each deleted)
          (r.client.delete_config_map cm w) same

  -- The loop of deleteStaleConfigMap deletes exactly the listed ConfigMaps that the bucket controls and whose
  -- name is not the one that the spec asks for, or the bucket's where it asks for none: in the order
  -- of the list, one after the other, until one deletion has an error other than that the ConfigMap
  -- is gone, which is returned with the ConfigMap's name.
  pub delete_all_stale_lem :
      (cms : List ConfigMap)
      → (deleted : List ConfigMap) × IsSelection cms deleted
        × ((w : S) → delete_all_stale lib r bucket cms w ≡ delete_each deleted w)
  unfolding delete_all_stale
  delete_all_stale_lem [] = ([], finished, λ w. refl)
  delete_all_stale_lem (cm ∷ cms) =
      let (deleted, selected, same) = delete_all_stale_lem cms in
      elim (Bool-cases (is_stale lib r bucket cm)) [
        | inl h ↦ (
          cm ∷ deleted,
          stale cm (is_stale-IsStale cm h) selected,
          λ w. delete_all_stale_head cm cms deleted same h w,
        )
        | inr h ↦ (deleted, kept cm (is_stale_complete cm h) selected, λ w. rw h (same w))
      ]
