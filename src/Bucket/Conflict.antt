-- ===== src/Bucket/Conflict.antt =====
-- reconcileBucket where the ConfigMap's name is taken.
use garage_storage_controlle.Prelude.{String, ◌++◌, ◌≡◌, true, false, some, arith}
use garage_storage_controlle.Errors.{Err, is, text, name_conflict}
use garage_storage_controlle.Exec.{ok, err, no_requeue}
use garage_storage_controlle.S3
use garage_storage_controlle.Api.{Bucket, Condition, is_true, condition_true, condition_false}
use garage_storage_controlle.Kube.{Libraries}
use garage_storage_controlle.Kube.Laws.{ConditionLaws}
use garage_storage_controlle.Conditions.{ready}
use garage_storage_controlle.Bucket.Conditions.{
  bucket_ready, bucket_config_map_ready, reason_config_map_name_conflict, mark_bucket_ready,
  update_bucket_cm_condition, update_bucket_ready_condition, condition_of,
}
use garage_storage_controlle.Bucket.Ready.{update_bucket_ready_condition_lem}
use garage_storage_controlle.Bucket.Types.{BucketReconciler, compare_spec}
use garage_storage_controlle.Bucket.ConfigMaps.{ensure_config_map}
use garage_storage_controlle.Bucket.Reconciler.{
  record_identity, apply_spec, config_map_failed, configure_bucket,
}

-- the bucket when its ConfigMap is asked for, and once the name turned out to be taken
abbrev pub identified : Libraries → S3.Bucket → String → Bucket → Bucket
identified lib x alias b = mark_bucket_ready lib (record_identity x alias b)

abbrev pub conflicting : Libraries → Err → S3.Bucket → String → Bucket → Bucket
conflicting lib e x alias b =
    update_bucket_cm_condition lib condition_false reason_config_map_name_conflict
      ("Unable to use existing ConfigMap for bucket details: " ++ text e) (identified lib x alias b)

module _ {S : Type 0} {lib : Libraries} (laws : ConditionLaws lib) (r : BucketReconciler S)
    (b : Bucket) (x : S3.Bucket) (alias : String) (e : Err) (w w₁ : S) where
  -- the two conditions that are set, and what is stored of them
  abbrev seen : Condition
  seen =
      condition_of b.meta.generation bucket_ready condition_true "BucketReady"
        "Bucket resource is ready"

  abbrev taken : Condition
  taken =
      condition_of b.meta.generation bucket_config_map_ready condition_false
        reason_config_map_name_conflict
        ("Unable to use existing ConfigMap for bucket details: " ++ text e)

  abbrev after_seen : Bucket
  after_seen = identified lib x alias b

  abbrev stored_seen : Condition
  stored_seen = laws.stored (record_identity x alias b).status.conditions seen

  abbrev stored_taken : Condition
  stored_taken = laws.stored after_seen.status.conditions taken

  find-bucket_ready :
      lib.find_status_condition (conflicting lib e x alias b).status.conditions bucket_ready
      ≡ some stored_seen
  unfolding update_bucket_cm_condition mark_bucket_ready record_identity
  find-bucket_ready = grind (arith, laws.find_set)

  find-bucket_config_map_ready :
      lib.find_status_condition
        (conflicting lib e x alias b).status.conditions
        bucket_config_map_ready
      ≡ some stored_taken
  unfolding update_bucket_cm_condition mark_bucket_ready record_identity
  find-bucket_config_map_ready = grind (arith, laws.find_set)

  shown :
      (c : Condition) × (lib.find_status_condition
          (update_bucket_ready_condition lib (conflicting lib e x alias b)).status.conditions
          ready
        ≡ some c)
      × (is_true c.status ≡ false)
      × (c.reason ≡ reason_config_map_name_conflict)
  shown =
      let (c, at_ready, status, reason, _) =
        update_bucket_ready_condition_lem laws (conflicting lib e x alias b) stored_seen
          stored_taken find-bucket_ready find-bucket_config_map_ready in
      let yes = laws.stored_status (record_identity x alias b).status.conditions seen in
      let no = laws.stored_status after_seen.status.conditions taken in
      let cause = laws.stored_reason after_seen.status.conditions taken in
      (c, at_ready, ground arith, ground arith)

  -- Garage's bucket is there with the quotas of the spec, and the name of its ConfigMap is taken:
  -- reconcileBucket ends without an error, so it is not tried again, makes no call after the one for
  -- the ConfigMap, and Ready is then not True, for the reason ConfigMapNameConflict.
  pub configure_bucket_conflict :
      compare_spec lib x b.spec ≡ false
      → ensure_config_map lib r (identified lib x alias b) r.s3_api_endpoint w ≡ (err e, w₁)
      → is e name_conflict ≡ true
      → (configure_bucket lib r x alias (record { object = b; world = w })
          ≡ (ok no_requeue, record { object = conflicting lib e x alias b; world = w₁ }))
        × ((c : Condition) × (lib.find_status_condition
                (update_bucket_ready_condition lib (conflicting lib e x alias b)).status.conditions
                ready
              ≡ some c)
            × (is_true c.status ≡ false)
            × (c.reason ≡ reason_config_map_name_conflict))
  unfolding configure_bucket apply_spec config_map_failed record_identity
  configure_bucket_conflict same taken conflict = (ground arith, shown)
