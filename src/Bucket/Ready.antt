-- ===== src/Bucket/Ready.antt =====
-- What the Ready condition of a bucket says after updateBucketReadyCondition.
use garage_storage_controlle.Prelude.{String, ◌≡◌, ◌∙◌, ap, ◌&&◌, some, arith, if◌then◌else◌}
use garage_storage_controlle.Api.{Bucket, Condition, is_true, is_false}
use garage_storage_controlle.Kube.{Libraries}
use garage_storage_controlle.Kube.Laws.{ConditionLaws}
use garage_storage_controlle.Conditions.{ready, default_ready_reason}
use garage_storage_controlle.Bucket.Conditions.{
  bucket_ready, bucket_config_map_ready, Summary, available, waiting, blame, condition_of,
  bucket_summary, settle, update_bucket_ready_condition,
}

module _ {lib : Libraries} (laws : ConditionLaws lib) (b : Bucket) (x y : Condition) where
  -- The Ready condition and the generation that a bucket has, in terms of its two conditions.
  abbrev pub Reports : Bucket → Type 0
  Reports b' =
      (c : Condition) × (lib.find_status_condition b'.status.conditions ready ≡ some c)
      × (is_true c.status ≡ (is_true x.status && is_true y.status))
      × (c.reason ≡ (
          if is_true x.status && is_true y.status
          then default_ready_reason
          else if is_false x.status
          then x.reason
          else if is_false y.status
          then y.reason
          else "WaitingForBucket"))
      × (b'.status.observed_generation ≡ (
          if is_true x.status && is_true y.status
          then b.meta.generation
          else b.status.observed_generation))

  abbrev reason_of : String
  reason_of =
      if is_true x.status && is_true y.status
      then default_ready_reason
      else if is_false x.status
      then x.reason
      else if is_false y.status
      then y.reason
      else "WaitingForBucket"

  summarized :
      (s : Summary) × (bucket_summary (some x) (some y) ≡ some s)
      × (is_true s.status ≡ (is_true x.status && is_true y.status))
      × (s.reason ≡ reason_of)
  unfolding bucket_summary
  summarized = (
    if is_true x.status && is_true y.status
        then available
        else if is_false x.status
        then blame x
        else if is_false y.status
        then blame y
        else waiting,
    ground arith,
    ground arith,
    ground arith,
  )

  updated :
      (s : Summary)
      → bucket_summary (some x) (some y) ≡ some s
      → lib.find_status_condition b.status.conditions bucket_ready ≡ some x
      → lib.find_status_condition b.status.conditions bucket_config_map_ready ≡ some y
      → update_bucket_ready_condition lib b ≡ settle lib s b
  unfolding update_bucket_ready_condition
  updated s e at_bucket at_config_map = ground arith

  settled :
      (s : Summary)
      → is_true s.status ≡ (is_true x.status && is_true y.status)
      → s.reason ≡ reason_of
      → Reports (settle lib s b)
  unfolding settle
  settled s status reason =
      let c = condition_of b.meta.generation ready s.status s.reason s.message in
      (
        laws.stored b.status.conditions c,
        laws.find_set b.status.conditions c ready,
        ap is_true (laws.stored_status b.status.conditions c) ∙ status,
        laws.stored_reason b.status.conditions c ∙ reason,
        ground arith,
      )

  -- Where the conditions BucketReady and BucketConfigMapReady are there: after
  -- updateBucketReadyCondition, Ready is True exactly if both are True, and then for the reason
  -- Available and with the generation observed; otherwise the observed generation stays, and the
  -- reason is that of the first of the two that is False, or WaitingForBucket if neither is.
  pub update_bucket_ready_condition_lem :
      lib.find_status_condition b.status.conditions bucket_ready ≡ some x
      → lib.find_status_condition b.status.conditions bucket_config_map_ready ≡ some y
      → Reports (update_bucket_ready_condition lib b)
  update_bucket_ready_condition_lem at_bucket at_config_map =
      let (s, e, status, reason) = summarized in
      rw (updated s e at_bucket at_config_map) (settled s status reason)
