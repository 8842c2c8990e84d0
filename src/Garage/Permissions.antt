-- ===== src/Garage/Permissions.antt =====
-- PermissionClient of internal/garage/client.go
use garage_storage_controlle.Prelude.{
  String, ◌++◌, false, not, ◌&&◌, List, [], ◌∷◌, str_eq, ◌==◌, if◌then◌else◌,
}
use garage_storage_controlle.Errors.{plain, sentinel, wrap, resource_not_found}
use garage_storage_controlle.Exec.{Exec, pure, fail, ◌>>=◌, ◌>>◌, returned, failed, attempt}
use garage_storage_controlle.S3
use garage_storage_controlle.S3.{no_permissions}
use garage_storage_controlle.Policy.Types.{PermissionClient}
use garage_storage_controlle.Bucket.Types.{OwnershipVerifier}
use garage_storage_controlle.Garage.Types.{
  KeyInfoBucketResponse, AllowBucketKeyRequest, to_bucket_key_perm, to_permissions,
}
use garage_storage_controlle.Garage.Http.{AdminApiHttpClient, method_post, bucket_key, do_request}
use garage_storage_controlle.Garage.Keys.{get_key}

abbrev pub key_request : String → String → S3.Permissions → AllowBucketKeyRequest
key_request key_id bucket_id permissions = record {
  access_key_id = key_id;
  bucket_id = bucket_id;
  permissions = to_bucket_key_perm permissions;
}

-- the negation of each permission
abbrev pub deny_permissions : S3.Permissions → S3.Permissions
deny_permissions p = record { owner = not p.owner; read = not p.read; write = not p.write }

-- the loop of GetPermissions
unfoldable pub find_permissions : String → List KeyInfoBucketResponse → S3.Permissions
find_permissions bucket_id [] = no_permissions
find_permissions bucket_id (b ∷ bs) =
    if str_eq b.id bucket_id then to_permissions b.permissions else find_permissions bucket_id bs

module _ {S : Type 0} (c : AdminApiHttpClient S) where
  unfoldable pub allow_bucket_key : String → String → S3.Permissions → Exec S (Unit {0})
  allow_bucket_key key_id bucket_id permissions = do
    got ← attempt (
        do_request c method_post "/v2/AllowBucketKey" []
          (bucket_key (key_request key_id bucket_id permissions)))
    elim got [
      | failed e ↦ fail (wrap "allow bucket key request: " e "")
      | returned resp ↦
          if resp.status_code == 200
          then pure tt
          else fail (
              plain (
                "update bucket: unexpected status code "
                ++ (c.http.decimal resp.status_code ++ (": " ++ resp.body))))
    ]

  unfoldable pub deny_bucket_key : String → String → S3.Permissions → Exec S (Unit {0})
  deny_bucket_key key_id bucket_id denied = do
    got ← attempt (
        do_request c method_post "/v2/DenyBucketKey" []
          (bucket_key (key_request key_id bucket_id denied)))
    elim got [
      | failed e ↦ fail (wrap "deny bucket key request: " e "")
      | returned resp ↦
          if resp.status_code == 200
          then pure tt
          else if resp.status_code == 404
          then fail (wrap "" (sentinel resource_not_found) (": " ++ resp.body))
          else fail (
              plain (
                "deny bucket key: unexpected status code "
                ++ (c.http.decimal resp.status_code ++ (": " ++ resp.body))))
    ]

  unfoldable pub set_permissions : String → String → S3.Permissions → Exec S (Unit {0})
  set_permissions key_id bucket_id permissions = do
    deny_bucket_key key_id bucket_id (deny_permissions permissions)
    if not permissions.owner && (not permissions.read && not permissions.write)
        then pure tt
        else allow_bucket_key key_id bucket_id permissions

  unfoldable pub get_permissions : String → String → Exec S S3.Permissions
  unfolding find_permissions
  get_permissions key_id bucket_id = do
    key ← get_key c key_id "" false
    pure (find_permissions bucket_id key.buckets)

  -- PermissionClient as the two interfaces of the reconcilers
  abbrev pub permission_client : PermissionClient S
  permission_client = record { set_permissions = set_permissions }

  abbrev pub ownership_verifier : OwnershipVerifier S
  ownership_verifier = record { get_permissions = get_permissions }
