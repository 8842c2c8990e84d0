-- ===== src/Startup/Exits.antt =====
-- How cmd/main.go ends the process.
use garage_storage_controlle.Prelude.{ℕ, String, Bool, ◌≡◌, ◌≢◌, ap, [], ◌⊎◌, inl, inr}
use garage_storage_controlle.Kube.{Libraries}
use garage_storage_controlle.Kube.Manager.{exits, Platform, Manager}
use garage_storage_controlle.Config.{ControllerConfig, IsSetTo, load_config_lem}
use garage_storage_controlle.Garage.Http.{Transport, current_token_info}
use garage_storage_controlle.Garage.Metrics.{Prometheus, new_metrics, collectors}
use garage_storage_controlle.Startup.Process.{Process, ◌>>=◌, ◌>>◌, write, unchecked}
use garage_storage_controlle.Startup.Flags.{Flags, string_flags, bool_flags, flags_of}
use garage_storage_controlle.Startup.Servers.{
  setup_log, announce_metrics, announce_webhook, webhook_server_options,
}
use garage_storage_controlle.Startup.Started.{client_for, build_manager-IsManagerFor}
use garage_storage_controlle.Startup.Steps.{
  ExitsBy, bind-ExitsBy, unchecked-ExitsBy, bind-exits, or_exit-continues, reported,
}
use garage_storage_controlle.Startup.Failures.{
  IsParsed, IsPrepared, IsFailure, IsExplained, own, no_config, no_manager, no_bucket_controller,
  no_access_key_controller, no_access_policy_controller, no_health_check, no_ready_check,
  not_running,
}
use garage_storage_controlle.Health.Preflight.{preflight_check}
use garage_storage_controlle.Startup.Program.{
  configured, config_step, manager_step, bucket_step, access_key_step, access_policy_step,
  healthz_step, readyz_step, build_manager, prepare, set_up_controllers, set_up_checks,
  start_manager, serve, main,
}

module _ {S TlsConfig WebhookServer RestConfig : Type 0} (lib : Libraries)
    (platform : Platform S TlsConfig WebhookServer RestConfig) (prometheus : Prometheus S)
    (http : Transport S) (start : S) where
  abbrev IsExplainedFrom : ℕ → S → Type 0
  IsExplainedFrom = IsExplained lib platform prometheus http start

  build_manager-ExitsBy :
      (parsed : (String → String) × (String → Bool)) (u : S)
      → IsParsed lib platform prometheus http start parsed u
      → ExitsBy IsExplainedFrom (build_manager lib platform prometheus http (flags_of parsed))
  unfolding build_manager
  build_manager-ExitsBy parsed u parsing w =
      let flags = flags_of parsed in
      let server =
        platform.new_webhook_server (webhook_server_options platform flags)
          (announce_webhook platform flags w) in
      bind-ExitsBy IsExplainedFrom platform.get_config_or_die
        (manager_step lib platform prometheus http flags server.0) (λ v w' code h. inr (inr (v, h)))
        (λ rest_config.
          own lib platform prometheus http start _ _ _
            (λ _ v _. no_manager parsed u v server.0 rest_config parsing))
        (announce_metrics platform flags server.1)

  module _
      (panics_only : (w w' : S) (code : ℕ)
        → prometheus.must_register (collectors (new_metrics prometheus)) w ≢ (exits code, w'))
      (mgr : Manager S) (cfg : ControllerConfig)
      (prepared : IsPrepared lib platform prometheus http start mgr cfg) where
    prepare-ExitsBy : ExitsBy IsExplainedFrom (prepare lib platform prometheus http mgr cfg)
    unfolding prepare
    prepare-ExitsBy =
        let preflight = preflight_check (platform.logger "preflight") (record {
          current_token_info = current_token_info (client_for lib platform prometheus http cfg);
        }) in
        bind-ExitsBy IsExplainedFrom
          (prometheus.must_register (collectors (new_metrics prometheus)))
          (λ _. write platform.setup_signal_handler >> unchecked preflight)
          (λ w w' code h. absurd (panics_only w w' code h))
          (λ _ w. unchecked-ExitsBy IsExplainedFrom preflight (platform.setup_signal_handler w))

    set_up_controllers-ExitsBy :
        ExitsBy IsExplainedFrom (set_up_controllers lib platform prometheus http mgr cfg)
    unfolding set_up_controllers
    set_up_controllers-ExitsBy =
        let second = access_key_step lib platform prometheus http mgr cfg in
        let last = access_policy_step lib platform prometheus http mgr cfg in
        bind-ExitsBy IsExplainedFrom (bucket_step lib platform prometheus http mgr cfg)
          (λ _. second >> last)
          (own lib platform prometheus http start _ _ _
            (λ _ v _. no_bucket_controller mgr cfg v prepared))
          (λ _.
            bind-ExitsBy IsExplainedFrom second (λ _. last)
              (own lib platform prometheus http start _ _ _
                (λ _ v _. no_access_key_controller mgr cfg v prepared))
              (λ _.
                own lib platform prometheus http start _ _ _
                  (λ _ v _. no_access_policy_controller mgr cfg v prepared)))

    set_up_checks-ExitsBy :
        ExitsBy IsExplainedFrom (set_up_checks lib platform prometheus http mgr cfg)
    unfolding set_up_checks
    set_up_checks-ExitsBy =
        bind-ExitsBy IsExplainedFrom (healthz_step lib platform prometheus http mgr cfg)
          (λ _. readyz_step lib platform prometheus http mgr cfg)
          (own lib platform prometheus http start _ _ _
            (λ _ v _. no_health_check mgr cfg v prepared))
          (λ _.
            own lib platform prometheus http start _ _ _
              (λ _ v _. no_ready_check mgr cfg v prepared))

    start_manager-ExitsBy :
        ExitsBy IsExplainedFrom (start_manager lib platform prometheus http mgr cfg)
    unfolding start_manager
    start_manager-ExitsBy w =
        own lib platform prometheus http start "problem running manager" [] mgr.start
          (λ _ v _. not_running mgr cfg v prepared) _

    serve-ExitsBy : ExitsBy IsExplainedFrom (serve lib platform prometheus http mgr cfg)
    unfolding serve
    serve-ExitsBy =
        let controllers = set_up_controllers lib platform prometheus http mgr cfg in
        let checks = set_up_checks lib platform prometheus http mgr cfg in
        let run = start_manager lib platform prometheus http mgr cfg in
        bind-ExitsBy IsExplainedFrom (prepare lib platform prometheus http mgr cfg)
          (λ _. controllers >> (checks >> run)) prepare-ExitsBy
          (λ _.
            bind-ExitsBy IsExplainedFrom controllers (λ _. checks >> run) set_up_controllers-ExitsBy
              (λ _.
                bind-ExitsBy IsExplainedFrom checks (λ _. run) set_up_checks-ExitsBy
                  (λ _. start_manager-ExitsBy)))

  -- from the configuration on
  configured_exits :
      (panics_only : (w w' : S) (code : ℕ)
        → prometheus.must_register (collectors (new_metrics prometheus)) w ≢ (exits code, w'))
      (parsed : (String → String) × (String → Bool)) (u u₁ w' : S) (code : ℕ)
      (cfg : ControllerConfig)
      → IsParsed lib platform prometheus http start parsed u
      → IsSetTo (platform.lookup_env (platform.set_logger u)) cfg
      → (build_manager lib platform prometheus http (flags_of parsed) >>= λ mgr.
            serve lib platform prometheus http mgr cfg)
          u₁
        ≡ (exits code, w')
      → IsExplainedFrom code w'
  configured_exits panics_only parsed u u₁ w' code cfg parsing set h =
      let build = build_manager lib platform prometheus http (flags_of parsed) in
      elim (bind-exits build (λ mgr. serve lib platform prometheus http mgr cfg) u₁ w' code h) [
        | inl ended ↦ build_manager-ExitsBy parsed u parsing u₁ w' code ended
        | inr (mgr, v, building, rest) ↦
            let made =
              build_manager-IsManagerFor lib platform prometheus http (flags_of parsed) mgr u₁ v
                building in
            serve-ExitsBy panics_only mgr cfg (parsed, u, v, parsing, set, made) v w' code rest
      ]

  -- Where main ends the process, flag.Parse or GetConfigOrDie, which it calls, ended it, or it did so
  -- with the code 1 because one of its checked calls had an error: loadConfig over the environment,
  -- NewManager for the flags that were parsed, or, with that configuration and the manager that
  -- NewManager made, the set-up of one of the three controllers, the addition of one of the two
  -- checks, or the run of the manager. Then the last that was done was to log this error, with the
  -- message and the controller's name that belong to this call, in the state that the call left. The
  -- hypothesis is that MustRegister does not end the process; it panics instead.
  pub main_exits :
      (panics_only : (w w' : S) (code : ℕ)
        → prometheus.must_register (collectors (new_metrics prometheus)) w ≢ (exits code, w'))
      (w' : S) (code : ℕ)
      → main lib platform prometheus http start ≡ (exits code, w')
      → IsFailure lib platform prometheus http start code w'
        ⊎ ((platform.parse_flags string_flags bool_flags start ≡ (exits code, w'))
            ⊎ ((v : S) × (platform.get_config_or_die v ≡ (exits code, w'))))
  unfolding main configured
  main_exits panics_only w' code h =
      let load = config_step lib platform prometheus http in
      let with_config : Flags → ControllerConfig → Process S (Unit {0}) = λ flags cfg.
        build_manager lib platform prometheus http flags >>= λ mgr.
        serve lib platform prometheus http mgr cfg in
      elim (bind-exits (platform.parse_flags string_flags bool_flags)
        (λ p. write platform.set_logger >> (load >>= with_config (flags_of p))) start w' code h) [
          | inl ended ↦ inr (inl ended)
          | inr (parsed, u, parsing, h₁) ↦
              elim (bind-exits load (with_config (flags_of parsed)) (platform.set_logger u) w' code
                h₁) [
                  | inl ended ↦ inl (
                      no_config parsed u parsing (
                        reported (setup_log platform) "loading controller config" [] _
                          (platform.set_logger u) w' code ended))
                  | inr (cfg, u₁, loading, h₂) ↦
                      let loaded =
                        or_exit-continues _ _ _ _ (platform.set_logger u) cfg u₁ loading in
                      configured_exits panics_only parsed u u₁ w' code cfg parsing
                        ((load_config_lem (platform.lookup_env (platform.set_logger u)) cfg).0
                          (ap (λ x. x.0) loaded))
                        h₂
                ]
        ]
