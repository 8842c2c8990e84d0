-- ===== src/Garage/Client.antt =====
-- NewClient and its options, of internal/garage/client.go.
use garage_storage_controlle.Prelude.{String, none, some, List, [], ◌∷◌}
use garage_storage_controlle.Bucket.Types.{BucketClient, OwnershipVerifier}
use garage_storage_controlle.AccessKey.Types.{AccessKeyManager}
use garage_storage_controlle.Policy.Types.{PermissionClient}
use garage_storage_controlle.Garage.Http.{Transport, Metrics, AdminApiHttpClient}
use garage_storage_controlle.Garage.Keys.{key_manager}
use garage_storage_controlle.Garage.Buckets.{bucket_client}
use garage_storage_controlle.Garage.Permissions.{permission_client, ownership_verifier}

-- type Option
abbrev pub ClientOption : Type 0 → Type 0
ClientOption S = AdminApiHttpClient S → AdminApiHttpClient S

module _ {S : Type 0} where
  -- WithMetrics
  abbrev pub with_metrics : Metrics S → ClientOption S
  with_metrics m c = record c { metrics = some m }

  -- the loop over `opts`
  abbrev pub apply_options : List (ClientOption S) → AdminApiHttpClient S → AdminApiHttpClient S
  apply_options [] c = c
  apply_options (opt ∷ opts) c = apply_options opts (opt c)

-- type AdminClient: the four clients over one base client. The cluster client is the base client
-- itself, and the permission client has the interfaces of two reconcilers.
pub record AdminClient (S : Type 0) : Type 0 where
  pub cluster_client : AdminApiHttpClient S
  pub bucket_client : BucketClient S
  pub access_key_client : AccessKeyManager S
  pub permission_client : PermissionClient S
  pub ownership_verifier : OwnershipVerifier S

-- the clients that share `base_client`
abbrev clients_over : {S : Type 0} → AdminApiHttpClient S → AdminClient S
clients_over base_client = record {
  cluster_client = base_client;
  bucket_client = bucket_client base_client;
  access_key_client = key_manager base_client;
  permission_client = permission_client base_client;
  ownership_verifier = ownership_verifier base_client;
}

-- NewClient; the http.Client is the transport.
abbrev pub new_client :
    {S : Type 0} → Transport S → String → String → List (ClientOption S) → AdminClient S
new_client http api_addr token opts = clients_over (
    apply_options opts (record { http = http; token = token; base_url = api_addr; metrics = none }))
