-- ===== src/S3.antt =====
-- internal/s3/bucket.go: the types that the reconcilers and the Garage client share.
use garage_storage_controlle.Prelude.{String, ℤ, Bool, false, List}

pub record Quotas : Type 0 where
  pub max_objects : ℤ
  pub max_size : ℤ

pub record Bucket : Type 0 where
  pub id : String
  pub global_aliases : List String
  pub quotas : Quotas

pub record AccessKey : Type 0 where
  pub id : String
  pub secret : String
  pub name : String

pub record Permissions : Type 0 where
  pub owner : Bool
  pub read : Bool
  pub write : Bool

-- s3.Permissions{}
abbrev pub no_permissions : Permissions
no_permissions = record { owner = false; read = false; write = false }
