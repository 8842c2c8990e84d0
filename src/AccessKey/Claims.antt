-- ===== src/AccessKey/Claims.antt =====
-- What the conditions of an access key claim, and how that changes with them.
use garage_storage_controlle.Prelude.{String, ◌≡◌, true, not, ◌||◌, some, nonempty, [], ◌∷◌, arith}
use garage_storage_controlle.Exec.{ok}
use garage_storage_controlle.S3
use garage_storage_controlle.Api.{AccessKey}
use garage_storage_controlle.Kube.{Libraries}
use garage_storage_controlle.Kube.Laws.{ConditionLaws}
use garage_storage_controlle.Conditions.{ready, mark_not_ready}
use garage_storage_controlle.Conditions.Claims.{claims, claims-init_resource_conditions}
use garage_storage_controlle.AccessKey.Conditions.{
  access_key_ready, key_secret_ready, initialize_conditions, mark_access_key_not_ready,
  update_access_key_condition,
}
use garage_storage_controlle.AccessKey.Types.{AccessKeyReconciler}

-- where one of the conditions Ready and AccessKeyReady is True, the identifier is recorded
abbrev pub IsIdentified : Libraries → AccessKey → Type 0
IsIdentified lib k =
    ((not (claims lib ready k.status.conditions) || nonempty k.status.access_key_id) ≡ true)
    × ((not (claims lib access_key_ready k.status.conditions) || nonempty k.status.access_key_id)
        ≡ true)

-- Garage's identifiers are not empty
pub record IdentifierLaws {S : Type 0} (r : AccessKeyReconciler S) : Type 0 where
  pub get_identified :
      (id : String) (w w' : S) (x : S3.AccessKey)
      → r.access_key.get id w ≡ (ok x, w')
      → nonempty x.id ≡ true
  pub lookup_identified :
      (name : String) (w w' : S) (x : S3.AccessKey)
      → r.access_key.lookup name w ≡ (ok x, w')
      → nonempty x.id ≡ true
  pub create_identified :
      (name : String) (w w' : S) (x : S3.AccessKey)
      → r.access_key.create name w ≡ (ok x, w')
      → nonempty x.id ≡ true

module _ {lib : Libraries} (laws : ConditionLaws lib) where
  pub initialize-IsIdentified :
      (k : AccessKey) → IsIdentified lib k → IsIdentified lib (initialize_conditions lib k)
  unfolding initialize_conditions
  initialize-IsIdentified k h =
      let ts = ready ∷ access_key_ready ∷ key_secret_ready ∷ [] in
      (
        rw (claims-init_resource_conditions laws ready ts k.status.conditions) h.0,
        rw (claims-init_resource_conditions laws access_key_ready ts k.status.conditions) h.1,
      )

  pub not_ready-IsIdentified :
      (reason message : String) (k : AccessKey)
      → IsIdentified lib k
      → IsIdentified lib (mark_access_key_not_ready lib reason message k)
  unfolding mark_access_key_not_ready mark_not_ready
  not_ready-IsIdentified reason message k h = (
    grind (arith, laws.find_set, laws.stored_status),
    grind (arith, laws.find_set, laws.stored_status),
  )

  pub update-IsIdentified :
      (k q : AccessKey)
      → update_access_key_condition lib k ≡ some q
      → IsIdentified lib k
      → IsIdentified lib q
  unfolding update_access_key_condition
  update-IsIdentified k q e h = (
    grind (arith, laws.find_set, laws.stored_status),
    grind (arith, laws.find_set, laws.stored_status),
  )
