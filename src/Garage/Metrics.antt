-- ===== src/Garage/Metrics.antt =====
-- NewMetrics and Collectors of internal/garage/metrics.go; prometheus is a parameter.
use garage_storage_controlle.Prelude.{ℕ, String, List, [], ◌∷◌, ℤ}
use garage_storage_controlle.Kube.Manager.{Exit}
use garage_storage_controlle.Garage.Http.{Metrics}

-- prometheus.Opts, which CounterOpts and GaugeOpts are. HistogramOpts has the buckets beside it,
-- which the program sets to the default ones.
pub record MetricOpts : Type 0 where
  pub namespace : String
  pub subsystem : String
  pub name : String
  pub help : String

-- prometheus.Collector, for the three that the program makes
pub data Collector (S : Type 0) : Type 0 where
  counter_vec : (String → S → S) → Collector S
  histogram : (ℤ → S → S) → Collector S
  gauge : (ℕ → S → S) → Collector S

-- The constructors of prometheus: each returns the method by which the program records a value (Inc
-- with the value of the one label, Observe, Set). MustRegister
-- panics where a collector cannot be registered. `new_histogram` has the default buckets.
pub record Prometheus (S : Type 0) : Type 0 where
  pub new_counter_vec : MetricOpts → List String → String → S → S
  pub new_histogram : MetricOpts → ℤ → S → S
  pub new_gauge : MetricOpts → ℕ → S → S
  pub must_register : List (Collector S) → S → Exit (Unit {0}) × S

abbrev pub metrics_namespace : String
metrics_namespace = "garage_controller"

abbrev pub metrics_subsystem : String
metrics_subsystem = "admin_api"

-- the options of one metric
abbrev opts : String → String → MetricOpts
opts name help = record {
  namespace = metrics_namespace;
  subsystem = metrics_subsystem;
  name = name;
  help = help;
}

module _ {S : Type 0} where
  abbrev pub new_metrics : Prometheus S → Metrics S
  new_metrics prometheus = record {
    inc_requests =
        prometheus.new_counter_vec
          (opts "requests_total"
            "Total Garage admin API requests by response status class (2xx/4xx/5xx or error).")
          ("status_class" ∷ []);
    observe_duration =
        prometheus.new_histogram
          (opts "request_duration_seconds" "Duration of Garage admin API requests in seconds.");
    set_up = prometheus.new_gauge (opts "up" "Gauge for the Garage admin API: 1 reachable, 0 not.");
  }

  abbrev pub collectors : Metrics S → List (Collector S)
  collectors m = counter_vec m.inc_requests ∷ histogram m.observe_duration ∷ gauge m.set_up ∷ []
