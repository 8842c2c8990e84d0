-- ===== src/Garage/Grant.antt =====
-- What SetPermissions does to the permissions in Garage, from the documented effect of its two
-- requests.
use garage_storage_controlle.Prelude.{
  String, ◌≡◌, refl, true, not, ◌&&◌, ◌||◌, ◌==◌, [], arith, Bool-cases, inl, inr,
}
use garage_storage_controlle.Exec.{Result, ok, err, panic}
use garage_storage_controlle.S3
use garage_storage_controlle.Garage.Http.{
  AdminApiHttpClient, Response, method_post, bucket_key, do_request,
}
use garage_storage_controlle.Garage.Permissions.{
  key_request, deny_permissions, allow_bucket_key, deny_bucket_key, set_permissions,
}

abbrev pub union : S3.Permissions → S3.Permissions → S3.Permissions
union p q = record {
  owner = p.owner || q.owner;
  read = p.read || q.read;
  write = p.write || q.write;
}

abbrev pub minus : S3.Permissions → S3.Permissions → S3.Permissions
minus p q = record {
  owner = p.owner && not q.owner;
  read = p.read && not q.read;
  write = p.write && not q.write;
}

-- Garage's documentation of AllowBucketKey and DenyBucketKey: the permissions that are set in the
-- request are granted, or taken away, and the others stay as they are. `permissions w` are those of
-- one key on one bucket in the state `w`.
pub record PermissionLaws {S : Type 0} (c : AdminApiHttpClient S) (key_id bucket_id : String)
    : Type 0 where
  pub permissions : S → S3.Permissions
  pub allow_grants :
      (p : S3.Permissions) (w w' : S) (resp : Response)
      → do_request c method_post "/v2/AllowBucketKey" []
          (bucket_key (key_request key_id bucket_id p))
          w
        ≡ (ok resp, w')
      → (resp.status_code == 200) ≡ true
      → permissions w' ≡ union (permissions w) p
  pub deny_revokes :
      (p : S3.Permissions) (w w' : S) (resp : Response)
      → do_request c method_post "/v2/DenyBucketKey" []
          (bucket_key (key_request key_id bucket_id p))
          w
        ≡ (ok resp, w')
      → (resp.status_code == 200) ≡ true
      → permissions w' ≡ minus (permissions w) p

module _ {S : Type 0} {c : AdminApiHttpClient S} {key_id bucket_id : String}
    (laws : PermissionLaws c key_id bucket_id) where
  denied_all :
      (p : S3.Permissions) (w w' : S) (x : Result Response × S)
      → do_request c method_post "/v2/DenyBucketKey" []
          (bucket_key (key_request key_id bucket_id p))
          w
        ≡ x
      → deny_bucket_key c key_id bucket_id p w ≡ (ok tt, w')
      → laws.permissions w' ≡ minus (laws.permissions w) p
  unfolding deny_bucket_key
  denied_all p w w' (ok resp, t) e h = elim (Bool-cases (resp.status_code == 200)) [
    | inl is_200 ↦ ground (arith, laws.deny_revokes p w t resp e is_200)
    | inr other ↦ ground arith
  ]
  denied_all p w w' (err e', t) e h = ground arith
  denied_all p w w' (panic, t) e h = ground arith

  granted_all :
      (p : S3.Permissions) (w w' : S) (x : Result Response × S)
      → do_request c method_post "/v2/AllowBucketKey" []
          (bucket_key (key_request key_id bucket_id p))
          w
        ≡ x
      → allow_bucket_key c key_id bucket_id p w ≡ (ok tt, w')
      → laws.permissions w' ≡ union (laws.permissions w) p
  unfolding allow_bucket_key
  granted_all p w w' (ok resp, t) e h = elim (Bool-cases (resp.status_code == 200)) [
    | inl is_200 ↦ ground (arith, laws.allow_grants p w t resp e is_200)
    | inr other ↦ ground arith
  ]
  granted_all p w w' (err e', t) e h = ground arith
  granted_all p w w' (panic, t) e h = ground arith

  union-minus : (q p : S3.Permissions) → union (minus q (deny_permissions p)) p ≡ p
  union-minus q p = ground arith

  minus_all :
      (q p : S3.Permissions)
      → (not p.owner && (not p.read && not p.write)) ≡ true
      → minus q (deny_permissions p) ≡ p
  minus_all q p h = ground arith

  after_deny :
      (p : S3.Permissions) (w w' : S) (x : Result (Unit {0}) × S)
      → deny_bucket_key c key_id bucket_id (deny_permissions p) w ≡ x
      → set_permissions c key_id bucket_id p w ≡ (ok tt, w')
      → laws.permissions w' ≡ p
  unfolding set_permissions
  after_deny p w w' (ok u, t) e h = elim (Bool-cases (not p.owner && (not p.read && not p.write))) [
    | inl nothing ↦ ground (
      arith,
      denied_all (deny_permissions p) w t _ refl e,
      minus_all (laws.permissions w) p nothing,
    )
    | inr something ↦ ground (
      arith,
      denied_all (deny_permissions p) w t _ refl e,
      granted_all p t w' _ refl,
      union-minus (laws.permissions w) p,
    )
  ]
  after_deny p w w' (err e', t) e h = ground arith
  after_deny p w w' (panic, t) e h = ground arith

  -- When SetPermissions returns without an error, the permissions of the key on the bucket are
  -- exactly those that it was given, whatever they were before: none is missing and none is left
  -- over. The hypotheses are what Garage documents of its two requests.
  pub set_permissions_exact :
      (p : S3.Permissions) (w w' : S)
      → set_permissions c key_id bucket_id p w ≡ (ok tt, w')
      → laws.permissions w' ≡ p
  set_permissions_exact p w w' h = after_deny p w w' _ refl h
