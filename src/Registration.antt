-- ===== src/Registration.antt =====
-- api/v1alpha1/groupversion_info.go, the init functions of api/v1alpha1/*_types.go and that of
-- cmd/main.go: the types that the manager's scheme knows.
pub mod Known
use garage_storage_controlle.Prelude.{String, Bool, List, [], ◌∷◌}
use garage_storage_controlle.Exec.{Result, ok, err, panic, Exec, pure, ◌>>=◌, ◌>>◌}
use garage_storage_controlle.DeepCopy.ObjectKinds.{
  ObjectKind, access_key_kind, access_key_list_kind, access_policy_kind, access_policy_list_kind,
  bucket_kind, bucket_list_kind,
}

-- schema.GroupVersion
pub record GroupVersion : Type 0 where
  pub group : String
  pub version : String

abbrev pub group_version : GroupVersion
group_version = record { group = "garage.getclustered.net"; version = "v1alpha1" }

-- controller-runtime's scheme.Builder and apimachinery's runtime.Scheme. `known` are the objects of a
-- builder, `recognizes` those of a scheme, and `adds_client_go` is AddToScheme of client-go.
pub record Schemes (B Scheme : Type 0) : Type 0 where
  pub new_builder : GroupVersion → B
  pub register : List ObjectKind → B → B
  pub add_to_scheme : B → Scheme → Result Scheme
  pub add_client_go : Scheme → Result Scheme
  pub new_scheme : Scheme
  pub known : B → ObjectKind → Bool
  pub version_of : B → GroupVersion
  pub recognizes : Scheme → GroupVersion → ObjectKind → Bool

-- utilruntime.Must on what an AddToScheme makes of the scheme
unfoldable pub must : {Scheme : Type 0} → (Scheme → Result Scheme) → Exec Scheme (Unit {0})
must add s = elim (add s) [ ok t ↦ (ok tt, t) | err e ↦ (panic, s) | panic ↦ (panic, s) ]

module _ {B Scheme : Type 0} (lib : Schemes B Scheme) where
  -- var SchemeBuilder = &scheme.Builder{GroupVersion: GroupVersion}
  abbrev pub scheme_builder : B
  scheme_builder = lib.new_builder group_version

  -- func init() of accesskey_types.go, of accesspolicy_types.go and of bucket_types.go
  abbrev pub init_access_key_types : B → B
  init_access_key_types = lib.register (access_key_kind ∷ access_key_list_kind ∷ [])

  abbrev pub init_access_policy_types : B → B
  init_access_policy_types = lib.register (access_policy_kind ∷ access_policy_list_kind ∷ [])

  abbrev pub init_bucket_types : B → B
  init_bucket_types = lib.register (bucket_kind ∷ bucket_list_kind ∷ [])

  -- The builder once the package is initialized; Go runs the files' init functions by file name.
  unfoldable pub initialized_builder : B
  initialized_builder =
      init_bucket_types (init_access_policy_types (init_access_key_types scheme_builder))

  -- func init() of main.go, on the variable `scheme`
  unfoldable pub init_scheme : Exec Scheme (Unit {0})
  unfolding must
  init_scheme = do must lib.add_client_go; must (lib.add_to_scheme initialized_builder)

  -- the variable `scheme` when main begins
  unfoldable pub scheme : Result (Unit {0}) × Scheme
  unfolding init_scheme
  scheme = init_scheme lib.new_scheme
