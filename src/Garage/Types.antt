-- ===== src/Garage/Types.antt =====
-- internal/garage/api_types.go
use garage_storage_controlle.Prelude.{
  String, Bool, List, Option, none, some, ℤ, pos, ltb_ℤ, if◌then◌else◌,
}
use garage_storage_controlle.S3

pub record AdminTokenInfo : Type 0 where
  pub name : String
  pub expired : Bool
  pub scope : List String
  pub expiration : Option String

pub record ErrorResponse : Type 0 where
  pub code : String
  pub message : String

pub record Quotas : Type 0 where
  pub max_objects : Option ℤ
  pub max_size : Option ℤ

pub record BucketUpdateRequest : Type 0 where
  pub quotas : Quotas

pub record BucketResponse : Type 0 where
  pub id : String
  pub global_aliases : List String
  pub quotas : Quotas

pub record CreateKeyRequest : Type 0 where
  pub name : String
  pub never_expires : Bool

pub record BucketKeyPerm : Type 0 where
  pub owner : Bool
  pub read : Bool
  pub write : Bool

pub record KeyInfoBucketResponse : Type 0 where
  pub id : String
  pub global_aliases : List String
  pub permissions : BucketKeyPerm

pub record AccessKeyResponse : Type 0 where
  pub access_key_id : String
  pub buckets : List KeyInfoBucketResponse
  pub secret_access_key : String
  pub name : String

pub record AllowBucketKeyRequest : Type 0 where
  pub access_key_id : String
  pub bucket_id : String
  pub permissions : BucketKeyPerm

-- `if n > 0 { field = &n }`
abbrev pub limit : ℤ → Option ℤ
limit n = if ltb_ℤ (pos 0) n then some n else none

-- `if field != nil { n = *field }`, where n is 0 before
abbrev pub limit_value : Option ℤ → ℤ
limit_value none = pos 0
limit_value (some n) = n

unfoldable pub quotas_from_s3 : S3.Quotas → Quotas
quotas_from_s3 q = record { max_objects = limit q.max_objects; max_size = limit q.max_size }

unfoldable pub quotas_to_s3 : Quotas → S3.Quotas
quotas_to_s3 q = record {
  max_objects = limit_value q.max_objects;
  max_size = limit_value q.max_size;
}

-- The conversions `BucketKeyPerm(p)` and `s3.Permissions(p)`.
abbrev pub to_bucket_key_perm : S3.Permissions → BucketKeyPerm
to_bucket_key_perm p = record { owner = p.owner; read = p.read; write = p.write }

abbrev pub to_permissions : BucketKeyPerm → S3.Permissions
to_permissions p = record { owner = p.owner; read = p.read; write = p.write }
