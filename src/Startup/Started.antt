-- ===== src/Startup/Started.antt =====
-- What has been done where the manager of cmd/main.go ran and ended without an error.
use garage_storage_controlle.Prelude.{String, Bool, ◌≡◌, ap, some, []}
use garage_storage_controlle.Exec.{ok}
use garage_storage_controlle.Kube.{Libraries}
use garage_storage_controlle.Kube.Manager.{Manager, Platform, continues}
use garage_storage_controlle.Config.{ControllerConfig, IsSetTo, load_config_lem}
use garage_storage_controlle.Bucket.Types.{new_bucket_reconciler}
use garage_storage_controlle.AccessKey.Types.{new_access_key_reconciler}
use garage_storage_controlle.Policy.Types.{new_access_policy_reconciler}
use garage_storage_controlle.Garage.Http.{Transport, AdminApiHttpClient, set_api_up, health}
use garage_storage_controlle.Garage.Metrics.{Prometheus, new_metrics}
use garage_storage_controlle.Garage.Keys.{key_manager}
use garage_storage_controlle.Garage.Buckets.{bucket_client}
use garage_storage_controlle.Garage.Permissions.{permission_client, ownership_verifier}
use garage_storage_controlle.Startup.Servers.{
  setup_log, webhook_server_options, announce_webhook, announce_metrics, manager_options,
}
use garage_storage_controlle.Startup.Flags.{Flags, string_flags, bool_flags, flags_of}
use garage_storage_controlle.Startup.Controllers.{
  bucket_controller, access_key_controller, access_policy_controller,
}
use garage_storage_controlle.Startup.Program.{
  configured, config_step, manager_step, bucket_step, access_key_step, access_policy_step,
  healthz_step, readyz_step, build_manager, set_up_bucket, set_up_access_key, set_up_access_policy,
  set_up_controllers, set_up_checks, prepare, start_manager, serve, main, heartbeat_period,
}
use garage_storage_controlle.Startup.Process.{Process, write, ◌>>=◌, ◌>>◌}
use garage_storage_controlle.Startup.Steps.{bind-continues, or_exit-continues}

module _ {S TlsConfig WebhookServer RestConfig : Type 0} (lib : Libraries)
    (platform : Platform S TlsConfig WebhookServer RestConfig) (prometheus : Prometheus S)
    (http : Transport S) where
  -- the client of Garage's admin API for a configuration, recording into the program's metrics
  abbrev pub client_for : ControllerConfig → AdminApiHttpClient S
  client_for cfg = record {
    http = http;
    token = cfg.garage_api_token;
    base_url = cfg.garage_api_endpoint;
    metrics = some (new_metrics prometheus);
  }

  -- All of these succeeded, in this order: the set-up of the controllers for buckets, access keys
  -- and policies, each with the one client of Garage's admin API, the two checks, and the run of the
  -- manager up to the state `done`, before which the heartbeat was started.
  abbrev pub IsServedBy : Manager S → ControllerConfig → S → Type 0
  IsServedBy mgr cfg done =
      (u₀ u₁ u₂ u₃ u₄ u₅ : S) × (mgr.complete
          (bucket_controller lib (
            new_bucket_reconciler mgr.client (bucket_client (client_for cfg)) cfg.garage_s3_endpoint
              (ownership_verifier (client_for cfg))
              (mgr.event_recorder_for "garage-bucket-controller")))
          u₀
        ≡ (ok tt, u₁))
      × (mgr.complete
            (access_key_controller lib (
              new_access_key_reconciler mgr.client (key_manager (client_for cfg))
                (mgr.event_recorder_for "garage-accesskey-controller")))
            u₁
          ≡ (ok tt, u₂))
      × (mgr.complete
            (access_policy_controller lib (
              new_access_policy_reconciler mgr.client (permission_client (client_for cfg))
                (mgr.event_recorder_for "garage-accesspolicy-controller")))
            u₂
          ≡ (ok tt, u₃))
      × (mgr.add_healthz_check "healthz" u₃ ≡ (ok tt, u₄))
      × (mgr.add_readyz_check "readyz" u₄ ≡ (ok tt, u₅))
      × (mgr.start (
            (setup_log platform).info "starting manager" [] (
              platform.go_heartbeat (health (client_for cfg)) (set_api_up (new_metrics prometheus))
                heartbeat_period u₅))
          ≡ (ok tt, done))

  module _ (mgr : Manager S) (cfg : ControllerConfig) where
    set_up_controllers_complete :
        (w w' : S)
        → set_up_controllers lib platform prometheus http mgr cfg w ≡ (continues tt, w')
        → (u₁ u₂ : S) × (set_up_bucket lib platform prometheus http mgr cfg w ≡ (ok tt, u₁))
          × (set_up_access_key lib platform prometheus http mgr cfg u₁ ≡ (ok tt, u₂))
          × (set_up_access_policy lib platform prometheus http mgr cfg u₂ ≡ (ok tt, w'))
    unfolding set_up_controllers
    set_up_controllers_complete w w' h =
        let first = bucket_step lib platform prometheus http mgr cfg in
        let second = access_key_step lib platform prometheus http mgr cfg in
        let last = access_policy_step lib platform prometheus http mgr cfg in
        let (tt, u₁, e₁, h₁) = bind-continues first (λ _. second >> last) w w' tt h in
        let (tt, u₂, e₂, h₂) = bind-continues second (λ _. last) u₁ w' tt h₁ in
        (
          u₁,
          u₂,
          or_exit-continues _ _ _ _ w tt u₁ e₁,
          or_exit-continues _ _ _ _ u₁ tt u₂ e₂,
          or_exit-continues _ _ _ _ u₂ tt w' h₂,
        )

    set_up_checks_complete :
        (w w' : S)
        → set_up_checks lib platform prometheus http mgr cfg w ≡ (continues tt, w')
        → (u : S) × (mgr.add_healthz_check "healthz" w ≡ (ok tt, u))
          × (mgr.add_readyz_check "readyz" u ≡ (ok tt, w'))
    unfolding set_up_checks
    set_up_checks_complete w w' h =
        let last = readyz_step lib platform prometheus http mgr cfg in
        let (tt, u, e, g) =
          bind-continues (healthz_step lib platform prometheus http mgr cfg) (λ _. last) w w' tt
            h in
        (u, or_exit-continues _ _ _ _ w tt u e, or_exit-continues _ _ _ _ u tt w' g)

    serve-IsServedBy :
        (w done : S)
        → serve lib platform prometheus http mgr cfg w ≡ (continues tt, done)
        → IsServedBy mgr cfg done
    unfolding serve set_up_bucket set_up_access_key set_up_access_policy start_manager
    serve-IsServedBy w done h =
        let controllers = set_up_controllers lib platform prometheus http mgr cfg in
        let checks = set_up_checks lib platform prometheus http mgr cfg in
        let start = start_manager lib platform prometheus http mgr cfg in
        let (tt, u₀, _, h₀) =
          bind-continues (prepare lib platform prometheus http mgr cfg)
            (λ _. controllers >> (checks >> start)) w done tt h in
        let (tt, u₃, e₁, h₁) = bind-continues controllers (λ _. checks >> start) u₀ done tt h₀ in
        let (tt, u₅, e₂, h₂) = bind-continues checks (λ _. start) u₃ done tt h₁ in
        let (u₁, u₂, bucket, access_key, policy) = set_up_controllers_complete u₀ u₃ e₁ in
        let (u₄, healthz, readyz) = set_up_checks_complete u₃ u₅ e₂ in
        (
          u₀,
          u₁,
          u₂,
          u₃,
          u₄,
          u₅,
          bucket,
          access_key,
          policy,
          healthz,
          readyz,
          or_exit-continues (setup_log platform) "problem running manager" [] mgr.start _ tt done
              h₂,
        )

  -- the manager came from NewManager, with the options for these flags
  abbrev pub IsManagerFor : Flags → Manager S → S → Type 0
  IsManagerFor flags mgr v =
      (server : WebhookServer) × (rest_config : RestConfig) × (u : S) × (platform.new_manager
          rest_config (manager_options platform flags server) u
        ≡ (ok mgr, v))

  pub build_manager-IsManagerFor :
      (flags : Flags) (mgr : Manager S) (w v : S)
      → build_manager lib platform prometheus http flags w ≡ (continues mgr, v)
      → IsManagerFor flags mgr v
  unfolding build_manager
  build_manager-IsManagerFor flags mgr w v h =
      let server =
        platform.new_webhook_server (webhook_server_options platform flags)
          (announce_webhook platform flags w) in
      let (rest_config, u, _, g) =
        bind-continues platform.get_config_or_die
          (manager_step lib platform prometheus http flags server.0)
          (announce_metrics platform flags server.1) v mgr h in
      (server.0, rest_config, u, or_exit-continues _ _ _ _ u mgr v g)

  -- Where main returns, without having ended the process: the flags were parsed, all three
  -- environment variables are set, the manager is one that NewManager made for these flags, and the
  -- three controllers, with the clients of Garage for the configuration of these variables, the two
  -- checks, the heartbeat and the run of the manager came in this order, each without an error.
  pub main_serves :
      (w done : S)
      → main lib platform prometheus http w ≡ (continues tt, done)
      → (parsed : (String → String) × (String → Bool)) × (u v : S) × (cfg : ControllerConfig)
        × (mgr : Manager S) × (platform.parse_flags string_flags bool_flags w
            ≡ (continues parsed, u))
        × IsSetTo (platform.lookup_env (platform.set_logger u)) cfg
        × IsManagerFor (flags_of parsed) mgr v
        × IsServedBy mgr cfg done
  unfolding main configured
  main_serves w done h =
      let load = config_step lib platform prometheus http in
      let with_config : Flags → ControllerConfig → Process S (Unit {0}) = λ flags cfg.
        build_manager lib platform prometheus http flags >>= λ mgr.
        serve lib platform prometheus http mgr cfg in
      let (parsed, u, parsing, h₁) =
        bind-continues (platform.parse_flags string_flags bool_flags)
          (λ p. write platform.set_logger >> (load >>= with_config (flags_of p))) w done tt h in
      let (cfg, u₁, loading, h₂) =
        bind-continues load (with_config (flags_of parsed)) (platform.set_logger u) done tt h₁ in
      let (mgr, v, building, h₃) =
        bind-continues (build_manager lib platform prometheus http (flags_of parsed))
          (λ m. serve lib platform prometheus http m cfg) u₁ done tt h₂ in
      let loaded = or_exit-continues _ _ _ _ (platform.set_logger u) cfg u₁ loading in
      (
        parsed,
        u,
        v,
        cfg,
        mgr,
        parsing,
        (load_config_lem (platform.lookup_env (platform.set_logger u)) cfg).0
            (ap (λ x. x.0) loaded),
        build_manager-IsManagerFor (flags_of parsed) mgr u₁ v building,
        serve-IsServedBy mgr cfg v done h₃,
      )
