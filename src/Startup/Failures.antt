-- ===== src/Startup/Failures.antt =====
-- What the log line of cmd/main.go before its `os.Exit(1)` is about.
use garage_storage_controlle.Prelude.{ℕ, String, Bool, ◌≡◌, List, [], ◌∷◌, ◌⊎◌, inl}
use garage_storage_controlle.Exec.{Exec}
use garage_storage_controlle.Kube.{Libraries}
use garage_storage_controlle.Kube.Manager.{continues, exits, log_text, LogValue, Platform, Manager}
use garage_storage_controlle.Config.{ControllerConfig, IsSetTo, load_config}
use garage_storage_controlle.Garage.Http.{Transport}
use garage_storage_controlle.Garage.Metrics.{Prometheus}
use garage_storage_controlle.Startup.Process.{or_exit}
use garage_storage_controlle.Startup.Flags.{string_flags, bool_flags, flags_of}
use garage_storage_controlle.Startup.Servers.{setup_log, manager_options}
use garage_storage_controlle.Startup.Started.{IsManagerFor}
use garage_storage_controlle.Startup.Steps.{ExitsBy, IsReported, reported}
use garage_storage_controlle.Startup.Program.{
  set_up_bucket, set_up_access_key, set_up_access_policy,
}

module _ {S TlsConfig WebhookServer RestConfig : Type 0} (lib : Libraries)
    (platform : Platform S TlsConfig WebhookServer RestConfig) (prometheus : Prometheus S)
    (http : Transport S) where
  -- the flags of a run of main that begins at `start`, and the state after they were parsed
  abbrev pub IsParsed : S → (String → String) × (String → Bool) → S → Type 0
  IsParsed start parsed u =
      platform.parse_flags string_flags bool_flags start ≡ (continues parsed, u)

  -- The configuration and the manager of such a run: what the environment's variables are set to,
  -- and what NewManager made for the flags.
  abbrev pub IsPrepared : S → Manager S → ControllerConfig → Type 0
  IsPrepared start mgr cfg =
      (parsed : (String → String) × (String → Bool)) × (u v : S) × IsParsed start parsed u
      × IsSetTo (platform.lookup_env (platform.set_logger u)) cfg
      × IsManagerFor lib platform prometheus http (flags_of parsed) mgr v

  -- The calls that main looks at the error of, each with the message and the pairs that it logs.
  pub data IsFailure (start : S) (code : ℕ) (w' : S) : Type 0 where
    no_config :
        (parsed : (String → String) × (String → Bool)) (u : S)
        → IsParsed start parsed u
        → IsReported
            (setup_log platform)
            "loading controller config"
            []
            (λ v. (load_config (platform.lookup_env v), v))
            (platform.set_logger u)
            code
            w'
        → IsFailure start code w'
    no_manager :
        (parsed : (String → String) × (String → Bool)) (u v : S) (server : WebhookServer)
        (rest_config : RestConfig)
        → IsParsed start parsed u
        → IsReported
            (setup_log platform)
            "unable to start manager"
            []
            (platform.new_manager rest_config (manager_options platform (flags_of parsed) server))
            v
            code
            w'
        → IsFailure start code w'
    no_bucket_controller :
        (mgr : Manager S) (cfg : ControllerConfig) (v : S)
        → IsPrepared start mgr cfg
        → IsReported
            (setup_log platform)
            "unable to create controller"
            (("controller", log_text "Bucket") ∷ [])
            (set_up_bucket lib platform prometheus http mgr cfg)
            v
            code
            w'
        → IsFailure start code w'
    no_access_key_controller :
        (mgr : Manager S) (cfg : ControllerConfig) (v : S)
        → IsPrepared start mgr cfg
        → IsReported
            (setup_log platform)
            "unable to create controller"
            (("controller", log_text "AccessKey") ∷ [])
            (set_up_access_key lib platform prometheus http mgr cfg)
            v
            code
            w'
        → IsFailure start code w'
    no_access_policy_controller :
        (mgr : Manager S) (cfg : ControllerConfig) (v : S)
        → IsPrepared start mgr cfg
        → IsReported
            (setup_log platform)
            "unable to create controller"
            (("controller", log_text "AccessPolicy") ∷ [])
            (set_up_access_policy lib platform prometheus http mgr cfg)
            v
            code
            w'
        → IsFailure start code w'
    no_health_check :
        (mgr : Manager S) (cfg : ControllerConfig) (v : S)
        → IsPrepared start mgr cfg
        → IsReported
            (setup_log platform)
            "unable to set up health check"
            []
            (mgr.add_healthz_check "healthz")
            v
            code
            w'
        → IsFailure start code w'
    no_ready_check :
        (mgr : Manager S) (cfg : ControllerConfig) (v : S)
        → IsPrepared start mgr cfg
        → IsReported
            (setup_log platform)
            "unable to set up ready check"
            []
            (mgr.add_readyz_check "readyz")
            v
            code
            w'
        → IsFailure start code w'
    not_running :
        (mgr : Manager S) (cfg : ControllerConfig) (v : S)
        → IsPrepared start mgr cfg
        → IsReported (setup_log platform) "problem running manager" [] mgr.start v code w'
        → IsFailure start code w'

  -- main ended the process itself and said why, or flag.Parse or GetConfigOrDie ended it
  abbrev pub IsExplained : S → ℕ → S → Type 0
  IsExplained start code w' =
      IsFailure start code w'
      ⊎ ((platform.parse_flags string_flags bool_flags start ≡ (exits code, w'))
          ⊎ ((v : S) × (platform.get_config_or_die v ≡ (exits code, w'))))

  -- a step of main's own that ends the process where a call has an error
  pub own :
      {A : Type 0} (start : S) (message : String) (pairs : List (String × LogValue)) (m : Exec S A)
      → ((code : ℕ) (w w' : S)
          → IsReported (setup_log platform) message pairs m w code w'
          → IsFailure start code w')
      → ExitsBy (IsExplained start) (or_exit (setup_log platform) message pairs m)
  own start message pairs m failure w w' code h =
      inl (failure code w w' (reported (setup_log platform) message pairs m w w' code h))
