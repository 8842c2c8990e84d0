-- ===== src/Startup/Flags.antt =====
-- The command line flags of cmd/main.go.
use garage_storage_controlle.Prelude.{String, Bool, true, false, List, [], ◌∷◌}

pub record Flags : Type 0 where
  pub metrics_addr : String
  pub metrics_cert_path : String
  pub metrics_cert_name : String
  pub metrics_cert_key : String
  pub webhook_cert_path : String
  pub webhook_cert_name : String
  pub webhook_cert_key : String
  pub enable_leader_election : Bool
  pub probe_addr : String
  pub secure_metrics : Bool
  pub enable_http2 : Bool

-- the calls of StringVar: name and default
abbrev pub string_flags : List (String × String)
string_flags =
    ("metrics-bind-address", "0")
    ∷ ("health-probe-bind-address", ":8081")
    ∷ ("webhook-cert-path", "")
    ∷ ("webhook-cert-name", "tls.crt")
    ∷ ("webhook-cert-key", "tls.key")
    ∷ ("metrics-cert-path", "")
    ∷ ("metrics-cert-name", "tls.crt")
    ∷ ("metrics-cert-key", "tls.key")
    ∷ []

-- the calls of BoolVar
abbrev pub bool_flags : List (String × Bool)
bool_flags = ("leader-elect", false) ∷ ("metrics-secure", true) ∷ ("enable-http2", false) ∷ []

-- the variables that the flags are bound to, after Parse
abbrev pub flags_of : (String → String) × (String → Bool) → Flags
flags_of (string, bool) = record {
  metrics_addr = string "metrics-bind-address";
  metrics_cert_path = string "metrics-cert-path";
  metrics_cert_name = string "metrics-cert-name";
  metrics_cert_key = string "metrics-cert-key";
  webhook_cert_path = string "webhook-cert-path";
  webhook_cert_name = string "webhook-cert-name";
  webhook_cert_key = string "webhook-cert-key";
  enable_leader_election = bool "leader-elect";
  probe_addr = string "health-probe-bind-address";
  secure_metrics = bool "metrics-secure";
  enable_http2 = bool "enable-http2";
}
