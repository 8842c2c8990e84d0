-- ===== src/Config.antt =====
-- cmd/config.go: loadConfig. The environment is a function, as os.LookupEnv is.
use garage_storage_controlle.Prelude.{
  String, ◌++◌, ◌≡◌, ◌↔◌, Option, none, some, List, [], ◌∷◌, arith,
}
use garage_storage_controlle.Errors.{plain}
use garage_storage_controlle.Exec.{Result, ok, err}

pub record ControllerConfig : Type 0 where
  pub garage_api_token : String
  pub garage_api_endpoint : String
  pub garage_s3_endpoint : String

-- strings.Join
abbrev pub join : String → List String → String
join sep [] = ""
join sep (s ∷ []) = s
join sep (s ∷ t ∷ ss) = s ++ (sep ++ join sep (t ∷ ss))

-- `if !got { missing = append(missing, name) }`, before the names of the later ones
abbrev pub missing_name : Option String → String → List String → List String
missing_name none name rest = name ∷ rest
missing_name (some _) name rest = rest

-- `missing`, when all three were looked up
unfoldable pub missing_env : (String → Option String) → List String
missing_env env = missing_name (env "GARAGE_API_TOKEN") "GARAGE_API_TOKEN" (
    missing_name (env "GARAGE_API_ENDPOINT") "GARAGE_API_ENDPOINT"
      (missing_name (env "GARAGE_S3_API_ENDPOINT") "GARAGE_S3_API_ENDPOINT" []))

-- the value of LookupEnv for a name that is not set
abbrev pub value_or_empty : Option String → String
value_or_empty none = ""
value_or_empty (some s) = s

unfoldable pub load_config : (String → Option String) → Result ControllerConfig
unfolding missing_env
load_config env = elim (missing_env env) [
  | [] ↦ ok (record {
    garage_api_token = value_or_empty (env "GARAGE_API_TOKEN");
    garage_api_endpoint = value_or_empty (env "GARAGE_API_ENDPOINT");
    garage_s3_endpoint = value_or_empty (env "GARAGE_S3_API_ENDPOINT");
  })
  | name ∷ names ↦ err (plain ("missing required env: " ++ join ", " (name ∷ names)))
]

-- what the environment has for the three names
abbrev pub IsSetTo : (String → Option String) → ControllerConfig → Type 0
IsSetTo env cfg =
    (env "GARAGE_API_TOKEN" ≡ some cfg.garage_api_token)
    × (env "GARAGE_API_ENDPOINT" ≡ some cfg.garage_api_endpoint)
    × (env "GARAGE_S3_API_ENDPOINT" ≡ some cfg.garage_s3_endpoint)

-- loadConfig succeeds exactly if all three variables are set, empty ones included, and then the
-- configuration holds their values.
pub load_config_lem :
    (env : String → Option String) (cfg : ControllerConfig)
    → (load_config env ≡ ok cfg) ↔ IsSetTo env cfg
unfolding load_config missing_env
load_config_lem env cfg = (λ h. (ground arith, ground arith, ground arith), λ h. ground arith)
