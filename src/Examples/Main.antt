-- ===== src/Examples/Main.antt =====
-- Runs of `main`, and of a request whose metrics are recorded. The world is a number that counts.
use garage_storage_controlle.Prelude.{
  ℕ, suc, ◌+◌, String, ◌++◌, ◌≡◌, refl, Bool, false, some, List, [], ◌∷◌, pos, ◌⊎◌, arith,
}
use garage_storage_controlle.Errors.{Err, plain}
use garage_storage_controlle.Exec.{ok, err}
use garage_storage_controlle.Kube.Manager.{Platform, Manager, Logger, continues, exits}
use garage_storage_controlle.Config.{ControllerConfig, IsSetTo, load_config}
use garage_storage_controlle.Garage.Http.{
  Transport, AdminApiHttpClient, method_get, no_body, do_request, send, record_result,
  current_token_info,
}
use garage_storage_controlle.Garage.Metrics.{Prometheus, new_metrics}
use garage_storage_controlle.Garage.Recorded.{do_request_records}
use garage_storage_controlle.Startup.Flags.{flags_of, string_flags, bool_flags}
use garage_storage_controlle.Startup.Servers.{manager_options, webhook_server_options}
use garage_storage_controlle.Startup.Process.{or_exit}
use garage_storage_controlle.Startup.Program.{main}
use garage_storage_controlle.Startup.Protocols.{TlsLaws, configure, manager_options_protocols}
use garage_storage_controlle.Startup.Started.{IsManagerFor, IsServedBy, main_serves}
use garage_storage_controlle.Startup.Failures.{IsFailure}
use garage_storage_controlle.Startup.Exits.{main_exits}
use garage_storage_controlle.Examples.Fixtures.{lib, client, recorder}

abbrev refused : Err
refused = plain "connection refused"

abbrev transport : Transport ℕ
transport = record {
  round_trip = λ _ w. (ok (record { status_code = 204; body = "" }), suc w);
  join_path = λ base path. ok (base ++ path);
  parse_url = λ u. ok u;
  decode_bucket = λ _. err refused;
  decode_access_key = λ _. err refused;
  decode_error = λ _. err refused;
  decode_token = λ _. err refused;
  now = λ w. (pos 0, w);
  since = λ _ w. (pos 0, w);
  decimal = λ _. "204";
  quote = λ t. t;
}

abbrev prometheus : Prometheus ℕ
prometheus = record {
  new_counter_vec = λ _ _ _ w. suc w;
  new_histogram = λ _ _ w. suc w;
  new_gauge = λ _ _ w. suc w;
  must_register = λ _ w. (continues tt, suc w);
}

abbrev manager : Manager ℕ
manager = record {
  client = client;
  event_recorder_for = λ _. recorder;
  complete = λ _ w. (ok tt, suc w);
  add_healthz_check = λ _ w. (ok tt, suc w);
  add_readyz_check = λ _ w. (ok tt, suc w);
  start = λ w. (ok tt, suc w);
}

abbrev log : Logger ℕ
log = record { info = λ _ _ w. suc w; error = λ _ _ _ w. w + 100 }

abbrev given_flags : (String → String) × (String → Bool)
given_flags = (λ _. "", λ _. false)

-- TLS configurations are the list of their protocols
abbrev platform_with : Manager ℕ → Platform ℕ (List String) (Unit {0}) (Unit {0})
platform_with m = record {
  parse_flags = λ _ _ w. (continues given_flags, w);
  set_logger = λ w. w;
  setup_signal_handler = λ w. w;
  logger = λ _. log;
  lookup_env = λ _ _. some "garage";
  set_next_protos = λ ps _. ps;
  new_webhook_server = λ _ w. (tt, w);
  get_config_or_die = λ w. (continues tt, w);
  new_manager = λ _ _ w. (ok m, suc w);
  go_heartbeat = λ _ _ _ w. suc w;
}

abbrev platform : Platform ℕ (List String) (Unit {0}) (Unit {0})
platform = platform_with manager

-- the manager does not run
abbrev failing : Platform ℕ (List String) (Unit {0}) (Unit {0})
failing = platform_with (record manager { start = λ w. (err refused, suc w) })

main_serves_example :
    (parsed : (String → String) × (String → Bool)) × (u v : ℕ) × (cfg : ControllerConfig)
    × (mgr : Manager ℕ) × (platform.parse_flags string_flags bool_flags 0 ≡ (continues parsed, u))
    × IsSetTo (platform.lookup_env (platform.set_logger u)) cfg
    × IsManagerFor lib platform prometheus transport (flags_of parsed) mgr v
    × IsServedBy lib platform prometheus transport mgr cfg 14
unfolding main or_exit load_config current_token_info do_request send record_result
main_serves_example = main_serves lib platform prometheus transport 0 14 refl

main_exits_example :
    IsFailure lib failing prometheus transport 0 1 114
    ⊎ ((failing.parse_flags string_flags bool_flags 0 ≡ (exits 1, 114))
        ⊎ ((v : ℕ) × (failing.get_config_or_die v ≡ (exits 1, 114))))
unfolding main or_exit load_config current_token_info do_request send record_result
main_exits_example =
    main_exits lib failing prometheus transport 0 (λ w w' code h. ground arith) 114 1 refl

tls_laws : TlsLaws platform
tls_laws = record { next_protos = λ c. c; next_protos-set = λ ps c. refl }

manager_options_protocols_example :
    (tls_laws.next_protos
        (configure (webhook_server_options platform (flags_of given_flags)).tls_opts [] 0).0
      ≡ "http/1.1" ∷ [])
    × (tls_laws.next_protos
          (configure (manager_options platform (flags_of given_flags) tt).metrics.tls_opts [] 0).0
        ≡ "http/1.1" ∷ [])
    × ((manager_options platform (flags_of given_flags) tt).metrics.secure_serving ≡ false)
    × ((manager_options platform (flags_of given_flags) tt).metrics.authenticated ≡ false)
manager_options_protocols_example =
    manager_options_protocols tls_laws (flags_of given_flags) tt [] 0

abbrev measured : AdminApiHttpClient ℕ
measured = record {
  http = transport;
  token = "t";
  base_url = "http://garage";
  metrics = some (new_metrics prometheus);
}

do_request_records_example :
    do_request measured method_get "/v2/GetKeyInfo" [] no_body 0
    ≡ (ok (record { status_code = 204; body = "" }), 3)
unfolding send
do_request_records_example =
    do_request_records measured (new_metrics prometheus) refl method_get "/v2/GetKeyInfo" [] no_body
      0 (λ h. ground arith)
