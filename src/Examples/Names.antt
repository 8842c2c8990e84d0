-- ===== src/Examples/Names.antt =====
-- Runs of the naming helpers, the backoff, the heartbeat and the configuration.
use garage_storage_controlle.Prelude.{
  String, ◌≡◌, ◌↔◌, true, false, Option, some, none, List, [], ◌∷◌, str_eq, if◌then◌else◌,
}
use garage_storage_controlle.Errors.{Err, plain}
use garage_storage_controlle.Exec.{ok}
use garage_storage_controlle.Health.{run}
use garage_storage_controlle.Health.Transitions.{records, believed, run_lem}
use garage_storage_controlle.Config.{ControllerConfig, load_config, load_config_lem, IsSetTo}

abbrev outage : Err
outage = plain "connection refused"

-- up, down, up
abbrev probes : List (Option Err)
probes = none ∷ some outage ∷ none ∷ []

run_lem_example :
    (records (run probes) ≡ true ∷ false ∷ true ∷ []) × (believed true (run probes) ≡ some true)
run_lem_example = run_lem probes

abbrev environment : String → Option String
environment name = if str_eq name "GARAGE_HOME" then none else some "value"

abbrev configuration : ControllerConfig
configuration = record {
  garage_api_token = "value";
  garage_api_endpoint = "value";
  garage_s3_endpoint = "value";
}

load_config_lem_example :
    (load_config environment ≡ ok configuration) ↔ IsSetTo environment configuration
load_config_lem_example = load_config_lem environment configuration
