-- ===== src/Manager/Servers.antt =====
-- How the servers of the manager are configured by the flags.
use hyperfleet_controller.Base.{
  text, ◌≡◌, Bool, true, false, not, ◌==◌, some, [], ◌∷◌, ◌++◌, if◌then◌else◌, arith,
}
use hyperfleet_controller.Path.{join}
use hyperfleet_controller.Manager.{
  Flags, TlsServerConfig, use_certificate, Watcher, apply_option, apply_options, tls_options,
  webhook_tls_options, metrics_options, manager_options, has_webhook_certificate,
  has_metrics_certificate, webhook_watcher, metrics_watcher,
}

-- What the options of a server make of its configuration.
pub record Serves (f : Flags) (has_certificate : Bool) (watcher : Watcher)
    (before after : TlsServerConfig) : Type 0 where
  pub protocols :
      after.next_protos ≡ (if f.enable_http2 then before.next_protos else text "http/1.1" ∷ [])
  pub certificate :
      after.get_certificate ≡ (if has_certificate then some watcher else before.get_certificate)

certificate-Serves :
    (f : Flags) (has_certificate : Bool) (watcher : Watcher) (c : TlsServerConfig)
    → Serves f has_certificate watcher c (
        apply_options
          (if has_certificate then tls_options f ++ use_certificate watcher ∷ [] else tls_options f)
          c)
unfolding apply_options apply_option tls_options
certificate-Serves f true watcher c = record {
  protocols = ground arith;
  certificate = ground arith;
}
certificate-Serves f false watcher c = record {
  protocols = ground arith;
  certificate = ground arith;
}

-- The TLS configurations of the webhook server and of the metrics server: without the flag for
-- HTTP/2 each offers HTTP/1.1 alone; each has the certificate of its own path and names if its path
-- is given, and what it had before if not.
pub manager_options-Serves :
    (f : Flags) (c : TlsServerConfig)
    → Serves f
        (not (f.webhook_cert_path == []))
        (record {
          cert_file = join f.webhook_cert_path f.webhook_cert_name;
          key_file = join f.webhook_cert_path f.webhook_cert_key;
        })
        c
        (apply_options (manager_options f).webhook_tls_opts c)
      × Serves f
          (not (f.metrics_cert_path == []))
          (record {
            cert_file = join f.metrics_cert_path f.metrics_cert_name;
            key_file = join f.metrics_cert_path f.metrics_cert_key;
          })
          c
          (apply_options (manager_options f).metrics.tls_opts c)
unfolding manager_options webhook_tls_options metrics_options has_webhook_certificate
    has_metrics_certificate webhook_watcher metrics_watcher
manager_options-Serves f c = (
  certificate-Serves f (not (f.webhook_cert_path == [])) _ c,
  certificate-Serves f (not (f.metrics_cert_path == [])) _ c,
)
