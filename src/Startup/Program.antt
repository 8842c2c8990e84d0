-- ===== src/Startup/Program.antt =====
-- `main` of cmd/main.go.
use garage_storage_controlle.Prelude.{[], ◌∷◌, pos, ℤ}
use garage_storage_controlle.Exec.{Exec}
use garage_storage_controlle.Kube.{Libraries}
use garage_storage_controlle.Kube.Manager.{log_text, Manager, Platform}
use garage_storage_controlle.Config.{ControllerConfig, load_config}
use garage_storage_controlle.Bucket.Types.{new_bucket_reconciler}
use garage_storage_controlle.AccessKey.Types.{new_access_key_reconciler}
use garage_storage_controlle.Policy.Types.{new_access_policy_reconciler}
use garage_storage_controlle.Garage.Http.{
  Transport, Metrics, set_api_up, health, current_token_info,
}
use garage_storage_controlle.Garage.Metrics.{Prometheus, new_metrics, collectors}
use garage_storage_controlle.Garage.Client.{AdminClient, new_client, with_metrics}
use garage_storage_controlle.Health.Preflight.{preflight_check}
use garage_storage_controlle.Startup.Process.{Process, ◌>>=◌, ◌>>◌, call, write, or_exit, unchecked}
use garage_storage_controlle.Startup.Flags.{Flags, string_flags, bool_flags, flags_of}
use garage_storage_controlle.Startup.Servers.{
  setup_log, webhook_server_options, announce_webhook, announce_metrics, manager_options,
}
use garage_storage_controlle.Startup.Controllers.{
  bucket_controller, access_key_controller, access_policy_controller,
}

-- 30 seconds, in nanoseconds
abbrev pub heartbeat_period : ℤ
heartbeat_period = pos 30000000000

module _ {S TlsConfig WebhookServer RestConfig : Type 0} (lib : Libraries)
    (platform : Platform S TlsConfig WebhookServer RestConfig) (prometheus : Prometheus S)
    (http : Transport S) where
  -- loadConfig over the environment of the process
  unfoldable pub configured : Exec S ControllerConfig
  configured w = (load_config (platform.lookup_env w), w)

  abbrev pub config_step : Process S ControllerConfig
  config_step = or_exit (setup_log platform) "loading controller config" [] configured

  abbrev pub manager_step : Flags → WebhookServer → RestConfig → Process S (Manager S)
  manager_step flags webhook_server rest_config =
      or_exit (setup_log platform) "unable to start manager" []
        (platform.new_manager rest_config (manager_options platform flags webhook_server))

  -- the servers' options and the manager
  unfoldable pub build_manager : Flags → Process S (Manager S)
  unfolding webhook_server_options announce_webhook announce_metrics manager_options
  build_manager flags = do
    write (announce_webhook platform flags)
    webhook_server ← call (platform.new_webhook_server (webhook_server_options platform flags))
    write (announce_metrics platform flags)
    rest_config ← platform.get_config_or_die
    manager_step flags webhook_server rest_config

  module _ (mgr : Manager S) (cfg : ControllerConfig) where
    -- garageMetrics
    abbrev pub garage_metrics : Metrics S
    garage_metrics = new_metrics prometheus

    -- garageClient
    abbrev pub garage_client : AdminClient S
    garage_client =
        new_client http cfg.garage_api_endpoint cfg.garage_api_token
          (with_metrics garage_metrics ∷ [])

    unfoldable pub set_up_bucket : Exec S (Unit {0})
    set_up_bucket = mgr.complete (
        bucket_controller lib (
          new_bucket_reconciler mgr.client garage_client.bucket_client cfg.garage_s3_endpoint
            garage_client.ownership_verifier (mgr.event_recorder_for "garage-bucket-controller")))

    unfoldable pub set_up_access_key : Exec S (Unit {0})
    set_up_access_key = mgr.complete (
        access_key_controller lib (
          new_access_key_reconciler mgr.client garage_client.access_key_client
            (mgr.event_recorder_for "garage-accesskey-controller")))

    unfoldable pub set_up_access_policy : Exec S (Unit {0})
    set_up_access_policy = mgr.complete (
        access_policy_controller lib (
          new_access_policy_reconciler mgr.client garage_client.permission_client
            (mgr.event_recorder_for "garage-accesspolicy-controller")))

    abbrev pub bucket_step : Process S (Unit {0})
    bucket_step =
        or_exit (setup_log platform) "unable to create controller"
          (("controller", log_text "Bucket") ∷ []) set_up_bucket

    abbrev pub access_key_step : Process S (Unit {0})
    access_key_step =
        or_exit (setup_log platform) "unable to create controller"
          (("controller", log_text "AccessKey") ∷ []) set_up_access_key

    abbrev pub access_policy_step : Process S (Unit {0})
    access_policy_step =
        or_exit (setup_log platform) "unable to create controller"
          (("controller", log_text "AccessPolicy") ∷ []) set_up_access_policy

    -- the three controllers, in this order
    unfoldable pub set_up_controllers : Process S (Unit {0})
    unfolding set_up_bucket set_up_access_key set_up_access_policy
    set_up_controllers = do bucket_step; access_key_step; access_policy_step

    abbrev pub healthz_step : Process S (Unit {0})
    healthz_step =
        or_exit (setup_log platform) "unable to set up health check" []
          (mgr.add_healthz_check "healthz")

    abbrev pub readyz_step : Process S (Unit {0})
    readyz_step =
        or_exit (setup_log platform) "unable to set up ready check" []
          (mgr.add_readyz_check "readyz")

    unfoldable pub set_up_checks : Process S (Unit {0})
    set_up_checks = do healthz_step; readyz_step

    -- the heartbeat beside the manager
    unfoldable pub start_manager : Process S (Unit {0})
    start_manager = do
      write (
          platform.go_heartbeat (health garage_client.cluster_client) (set_api_up garage_metrics)
            heartbeat_period)
      write ((setup_log platform).info "starting manager" [])
      or_exit (setup_log platform) "problem running manager" [] mgr.start

    -- the metrics, the client, the signals and the preflight check
    unfoldable pub prepare : Process S (Unit {0})
    unfolding preflight_check
    prepare = do
      prometheus.must_register (collectors garage_metrics)
      write platform.setup_signal_handler
      unchecked (
          preflight_check (platform.logger "preflight")
            (record { current_token_info = current_token_info garage_client.cluster_client }))

    -- everything once there is a manager
    unfoldable pub serve : Process S (Unit {0})
    unfolding prepare set_up_controllers set_up_checks start_manager
    serve = do prepare; set_up_controllers; set_up_checks; start_manager

  unfoldable pub main : Process S (Unit {0})
  unfolding configured build_manager serve
  main = do
    parsed ← platform.parse_flags string_flags bool_flags
    write platform.set_logger
    cfg ← config_step
    mgr ← build_manager (flags_of parsed)
    serve mgr cfg
