-- ===== src/Kube/Manager.antt =====
-- What the program calls of controller-runtime to be started, and of Go's flag and os: the loggers,
-- the builder of controllers, the manager and its options.
use garage_storage_controlle.Prelude.{ℕ, String, Bool, Option, List, ℤ}
use garage_storage_controlle.Errors.{Err}
use garage_storage_controlle.Exec.{Exec, CtrlResult}
use garage_storage_controlle.Api.{NamespacedName, Bucket, AccessKey}
use garage_storage_controlle.Kube.{Client, EventRecorder}

-- the values of a structured log line
pub data LogValue : Type 0 where
  log_text : String → LogValue
  log_pointer : Option String → LogValue
  log_texts : List String → LogValue
  log_error : Err → LogValue

-- logr.Logger: the message and the pairs
pub record Logger (S : Type 0) : Type 0 where
  pub info : String → List (String × LogValue) → S → S
  pub error : Err → String → List (String × LogValue) → S → S

-- a kind of object with which a controller is built, or that the cache of the client leaves out
pub data Kind : Type 0 where
  bucket_kind access_key_kind access_policy_kind secret_kind config_map_kind : Kind

-- `Watches` with EnqueueRequestsFromMapFunc
pub data Watch (S : Type 0) : Type 0 where
  watch_bucket : (Bucket → Exec S (List NamespacedName)) → Watch S
  watch_access_key : (AccessKey → Exec S (List NamespacedName)) → Watch S

-- what is given to the builder: For, Watches, Named and the reconciler that Complete takes
pub record Controller (S : Type 0) : Type 0 where
  pub kind : Kind
  pub watches : List (Watch S)
  pub name : String
  pub reconcile : NamespacedName → Exec S CtrlResult

-- the function in TLSOpts: it may write log lines, and it changes the configuration
abbrev pub TlsOption : Type 0 → Type 0 → Type 0
TlsOption S TlsConfig = TlsConfig → S → TlsConfig × S

-- the certificate of a server: its directory and the names of its two files
pub record Certificate : Type 0 where
  pub cert_dir : String
  pub cert_name : String
  pub key_name : String

-- webhook.Options; fields that the program leaves out have their zero value
pub record WebhookOptions (S TlsConfig : Type 0) : Type 0 where
  pub certificate : Certificate
  pub tls_opts : List (TlsOption S TlsConfig)

-- metrics server.Options. `authenticated` says that FilterProvider is
-- filters.WithAuthenticationAndAuthorization and not nil.
pub record MetricsOptions (S TlsConfig : Type 0) : Type 0 where
  pub bind_address : String
  pub secure_serving : Bool
  pub certificate : Certificate
  pub tls_opts : List (TlsOption S TlsConfig)
  pub authenticated : Bool

-- ctrl.Options, as far as the program sets it
pub record ManagerOptions (S TlsConfig WebhookServer : Type 0) : Type 0 where
  pub metrics : MetricsOptions S TlsConfig
  pub webhook_server : WebhookServer
  pub health_probe_bind_address : String
  pub leader_election : Bool
  pub leader_election_id : String
  pub cache_disabled_for : List Kind

-- How the process goes on: with a value, by os.Exit with a code, or by a panic.
pub data Exit (A : Type 0) : Type 0 where
  continues : A → Exit A
  exits : ℕ → Exit A
  crashes : Exit A

-- The manager, with the methods that the program calls. The check is healthz.Ping for both.
pub record Manager (S : Type 0) : Type 0 where
  pub client : Client S
  pub event_recorder_for : String → EventRecorder S
  pub complete : Controller S → Exec S (Unit {0})
  pub add_healthz_check : String → Exec S (Unit {0})
  pub add_readyz_check : String → Exec S (Unit {0})
  pub start : Exec S (Unit {0})

-- The functions of the packages. `parse_flags` has the definitions of the text and the Boolean
-- flags with their defaults, and returns the value of each by its name; it may end the process.
pub record Platform (S TlsConfig WebhookServer RestConfig : Type 0) : Type 0 where
  pub parse_flags :
      List (String × String)
      → List (String × Bool)
      → S
      → Exit ((String → String) × (String → Bool)) × S
  pub set_logger : S → S
  pub setup_signal_handler : S → S
  pub logger : String → Logger S
  pub lookup_env : S → String → Option String
  pub set_next_protos : List String → TlsConfig → TlsConfig
  pub new_webhook_server : WebhookOptions S TlsConfig → S → WebhookServer × S
  pub get_config_or_die : S → Exit RestConfig × S
  pub new_manager : RestConfig → ManagerOptions S TlsConfig WebhookServer → Exec S (Manager S)
  -- `go health.Run` with the checker, the recorder and the interval
  pub go_heartbeat : Exec S (Unit {0}) → (Bool → S → S) → ℤ → S → S
