-- ===== src/Startup/Protocols.antt =====
-- The protocols that the two servers of cmd/main.go offer, and who may read the metrics.
use garage_storage_controlle.Prelude.{
  String, ◌≡◌, refl, List, [], ◌∷◌, arith, Bool-cases, inl, inr, if◌then◌else◌,
}
use garage_storage_controlle.Kube.Manager.{TlsOption, Platform}
use garage_storage_controlle.Startup.Flags.{Flags}
use garage_storage_controlle.Startup.Servers.{
  disable_http2, tls_opts, webhook_server_options, metrics_server_options, manager_options,
}

-- what a server does with its TLSOpts: it applies them in order
abbrev pub configure :
    {S TlsConfig : Type 0} → List (TlsOption S TlsConfig) → TlsConfig → S → TlsConfig × S
configure [] c w = (c, w)
configure (opt ∷ opts) c w = let (c', w') = opt c w in configure opts c' w'

-- the field NextProtos of tls.Config, and that setting it sets it
pub record TlsLaws {S TlsConfig WebhookServer RestConfig : Type 0}
    (platform : Platform S TlsConfig WebhookServer RestConfig) : Type 0 where
  pub next_protos : TlsConfig → List String
  pub next_protos-set :
      (ps : List String) (c : TlsConfig) → next_protos (platform.set_next_protos ps c) ≡ ps

-- For all flags, from any TLS configuration: both servers offer HTTP/1.1 alone, unless enable-http2
-- is given, which leaves the configuration's protocols as they are; and the metrics are served with
-- TLS, and only to authenticated and authorized readers, exactly if metrics-secure is set.
pub manager_options_protocols :
    {S TlsConfig WebhookServer RestConfig : Type 0}
    {platform : Platform S TlsConfig WebhookServer RestConfig} (laws : TlsLaws platform)
    (flags : Flags) (server : WebhookServer) (c : TlsConfig) (w : S)
    → let expected = if flags.enable_http2 then laws.next_protos c else "http/1.1" ∷ [] in
      let metrics = (manager_options platform flags server).metrics in
      (laws.next_protos (configure (webhook_server_options platform flags).tls_opts c w).0
        ≡ expected)
      × (laws.next_protos (configure metrics.tls_opts c w).0 ≡ expected)
      × (metrics.secure_serving ≡ flags.secure_metrics)
      × (metrics.authenticated ≡ flags.secure_metrics)
unfolding manager_options metrics_server_options webhook_server_options tls_opts disable_http2
manager_options_protocols laws flags server c w = elim (Bool-cases flags.enable_http2) [
  | inl given ↦ rw given (refl, refl, refl, ground arith)
  | inr default ↦
      rw default (laws.next_protos-set _ c, laws.next_protos-set _ c, refl, ground arith)
]
