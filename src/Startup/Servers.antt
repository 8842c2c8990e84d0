-- ===== src/Startup/Servers.antt =====
-- The options of the webhook server, of the metrics server and of the manager, in cmd/main.go.
use garage_storage_controlle.Prelude.{String, true, false, List, [], ◌∷◌, nonempty, if◌then◌else◌}
use garage_storage_controlle.Kube.Manager.{
  Logger, log_text, TlsOption, Certificate, WebhookOptions, MetricsOptions, ManagerOptions,
  secret_kind, config_map_kind, Platform,
}
use garage_storage_controlle.Startup.Flags.{Flags}

-- the zero values of CertDir, CertName and KeyName
abbrev pub no_certificate : Certificate
no_certificate = record { cert_dir = ""; cert_name = ""; key_name = "" }

-- `if len(path) > 0`
unfoldable pub certificate : String → String → String → Certificate
certificate path name key =
    if nonempty path
    then record { cert_dir = path; cert_name = name; key_name = key }
    else no_certificate

module _ {S TlsConfig WebhookServer RestConfig : Type 0}
    (platform : Platform S TlsConfig WebhookServer RestConfig) where
  -- setupLog
  abbrev pub setup_log : Logger S
  setup_log = platform.logger "setup"

  unfoldable pub disable_http2 : TlsOption S TlsConfig
  disable_http2 c w =
      (platform.set_next_protos ("http/1.1" ∷ []) c, setup_log.info "disabling http/2" [] w)

  -- tlsOpts
  unfoldable pub tls_opts : Flags → List (TlsOption S TlsConfig)
  tls_opts flags = if flags.enable_http2 then [] else disable_http2 ∷ []

  unfoldable pub webhook_server_options : Flags → WebhookOptions S TlsConfig
  unfolding certificate tls_opts
  webhook_server_options flags = record {
    certificate =
        certificate flags.webhook_cert_path flags.webhook_cert_name flags.webhook_cert_key;
    tls_opts = tls_opts flags;
  }

  -- the log line about the certificate of the webhook server
  unfoldable pub announce_webhook : Flags → S → S
  announce_webhook flags w =
      if nonempty flags.webhook_cert_path
      then setup_log.info "Initializing webhook certificate watcher using provided certificates"
          (("webhook-cert-path", log_text flags.webhook_cert_path)
            ∷ ("webhook-cert-name", log_text flags.webhook_cert_name)
            ∷ ("webhook-cert-key", log_text flags.webhook_cert_key)
            ∷ [])
          w
      else w

  unfoldable pub metrics_server_options : Flags → MetricsOptions S TlsConfig
  unfolding certificate tls_opts
  metrics_server_options flags = record {
    bind_address = flags.metrics_addr;
    secure_serving = flags.secure_metrics;
    certificate =
        certificate flags.metrics_cert_path flags.metrics_cert_name flags.metrics_cert_key;
    tls_opts = tls_opts flags;
    authenticated = if flags.secure_metrics then true else false;
  }

  unfoldable pub announce_metrics : Flags → S → S
  announce_metrics flags w =
      if nonempty flags.metrics_cert_path
      then setup_log.info "Initializing metrics certificate watcher using provided certificates"
          (("metrics-cert-path", log_text flags.metrics_cert_path)
            ∷ ("metrics-cert-name", log_text flags.metrics_cert_name)
            ∷ ("metrics-cert-key", log_text flags.metrics_cert_key)
            ∷ [])
          w
      else w

  -- the options of NewManager
  unfoldable pub manager_options : Flags → WebhookServer → ManagerOptions S TlsConfig WebhookServer
  unfolding metrics_server_options
  manager_options flags webhook_server = record {
    metrics = metrics_server_options flags;
    webhook_server = webhook_server;
    health_probe_bind_address = flags.probe_addr;
    leader_election = flags.enable_leader_election;
    leader_election_id = "754171dd.getclustered.net";
    cache_disabled_for = secret_kind ∷ config_map_kind ∷ [];
  }
