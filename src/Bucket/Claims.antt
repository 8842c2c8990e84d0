-- ===== src/Bucket/Claims.antt =====
-- What the conditions of a bucket claim, and how that changes with them.
use garage_storage_controlle.Prelude.{String, ◌≡◌, true, not, ◌||◌, nonempty, [], ◌∷◌, arith}
use garage_storage_controlle.Exec.{ok}
use garage_storage_controlle.S3
use garage_storage_controlle.Api.{Bucket}
use garage_storage_controlle.Kube.{Libraries}
use garage_storage_controlle.Kube.Laws.{ConditionLaws}
use garage_storage_controlle.Conditions.Claims.{claims, claims-init_resource_conditions}
use garage_storage_controlle.Conditions.{ready, mark_not_ready}
use garage_storage_controlle.Bucket.Conditions.{
  bucket_ready, bucket_config_map_ready, initialize_bucket_conditions, mark_bucket_not_ready,
  update_bucket_ready_condition,
}
use garage_storage_controlle.Bucket.Types.{BucketReconciler}

-- where one of the conditions Ready and BucketReady is True, the identifier is recorded
abbrev pub IsIdentified : Libraries → Bucket → Type 0
IsIdentified lib b =
    ((not (claims lib ready b.status.conditions) || nonempty b.status.bucket_id) ≡ true)
    × ((not (claims lib bucket_ready b.status.conditions) || nonempty b.status.bucket_id) ≡ true)

-- Garage's identifiers are not empty
pub record IdentifierLaws {S : Type 0} (r : BucketReconciler S) : Type 0 where
  pub get_identified :
      (alias : String) (w w' : S) (x : S3.Bucket)
      → r.bucket.get alias w ≡ (ok x, w')
      → nonempty x.id ≡ true
  pub create_identified :
      (alias : String) (w w' : S) (x : S3.Bucket)
      → r.bucket.create alias w ≡ (ok x, w')
      → nonempty x.id ≡ true

module _ {lib : Libraries} (laws : ConditionLaws lib) where
  pub initialize-IsIdentified :
      (b : Bucket) → IsIdentified lib b → IsIdentified lib (initialize_bucket_conditions lib b)
  unfolding initialize_bucket_conditions
  initialize-IsIdentified b h =
      let ts = ready ∷ bucket_ready ∷ bucket_config_map_ready ∷ [] in
      (
        rw (claims-init_resource_conditions laws ready ts b.status.conditions) h.0,
        rw (claims-init_resource_conditions laws bucket_ready ts b.status.conditions) h.1,
      )

  pub not_ready-IsIdentified :
      (reason message : String) (b : Bucket)
      → IsIdentified lib b
      → IsIdentified lib (mark_bucket_not_ready lib reason message b)
  unfolding mark_bucket_not_ready mark_not_ready
  not_ready-IsIdentified reason message b h = (
    grind (arith, laws.find_set, laws.stored_status),
    grind (arith, laws.find_set, laws.stored_status),
  )

  pub update-IsIdentified :
      (b : Bucket) → IsIdentified lib b → IsIdentified lib (update_bucket_ready_condition lib b)
  unfolding update_bucket_ready_condition
  update-IsIdentified b h = (
    grind (arith, laws.find_set, laws.stored_status),
    grind (arith, laws.find_set, laws.stored_status),
  )
