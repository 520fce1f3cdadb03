-- ===== src/Manager.antt =====
-- The manager's startup: cmd/main.go.
pub mod Servers
pub mod Startup
pub mod Scheme
mod Tests
use hyperfleet_controller.Base.{
  ℕ, Text, text, ◌==◌, Bool, true, false, not, Option, none, some, List, [], ◌∷◌, ◌++◌,
  if◌then◌else◌, Error, Err, M, done, check,
}
use hyperfleet_controller.Path.{join}
use hyperfleet_controller.Controller.Setup.{ControllerSpec, hypervisor_cluster_controller}

-- The flags.
pub record Flags : Type 0 where
  pub metrics_addr : Text
  pub probe_addr : Text
  pub enable_leader_election : Bool
  pub secure_metrics : Bool
  pub webhook_cert_path : Text
  pub webhook_cert_name : Text
  pub webhook_cert_key : Text
  pub metrics_cert_path : Text
  pub metrics_cert_name : Text
  pub metrics_cert_key : Text
  pub enable_http2 : Bool

abbrev pub default_flags : Flags
default_flags = record {
  metrics_addr = text "0";
  probe_addr = text ":8081";
  enable_leader_election = false;
  secure_metrics = true;
  webhook_cert_path = [];
  webhook_cert_name = text "tls.crt";
  webhook_cert_key = text "tls.key";
  metrics_cert_path = [];
  metrics_cert_name = text "tls.crt";
  metrics_cert_key = text "tls.key";
  enable_http2 = false;
}

-- A certificate watcher, by the files of its certificate and its key.
pub record Watcher : Type 0 where
  pub cert_file : Text
  pub key_file : Text

-- tls.Config, with the fields that the options set. GetCertificate is known by its watcher.
pub record TlsServerConfig : Type 0 where
  pub next_protos : List Text
  pub get_certificate : Option Watcher

-- The functions that main makes of type `func(*tls.Config)`.
pub data TlsOption : Type 0 where
  disable_http2 : TlsOption
  use_certificate : Watcher → TlsOption

unfoldable pub apply_option : TlsOption → TlsServerConfig → TlsServerConfig
apply_option disable_http2 c = record c { next_protos = text "http/1.1" ∷ [] }
apply_option (use_certificate w) c = record c { get_certificate = some w }

-- What the servers do with a list of options.
unfoldable pub apply_options : List TlsOption → TlsServerConfig → TlsServerConfig
apply_options [] c = c
apply_options (o ∷ rest) c = apply_options rest (apply_option o c)

unfoldable pub has_webhook_certificate : Flags → Bool
has_webhook_certificate f = not (f.webhook_cert_path == [])

unfoldable pub has_metrics_certificate : Flags → Bool
has_metrics_certificate f = not (f.metrics_cert_path == [])

unfoldable pub webhook_watcher : Flags → Watcher
webhook_watcher f = record {
  cert_file = join f.webhook_cert_path f.webhook_cert_name;
  key_file = join f.webhook_cert_path f.webhook_cert_key;
}

unfoldable pub metrics_watcher : Flags → Watcher
metrics_watcher f = record {
  cert_file = join f.metrics_cert_path f.metrics_cert_name;
  key_file = join f.metrics_cert_path f.metrics_cert_key;
}

-- tlsOpts
unfoldable pub tls_options : Flags → List TlsOption
tls_options f = if f.enable_http2 then [] else disable_http2 ∷ []

-- webhookTLSOpts. The slice that it is appended to has no room, so tlsOpts is not changed by it.
unfoldable pub webhook_tls_options : Flags → List TlsOption
webhook_tls_options f =
    if has_webhook_certificate f
    then tls_options f ++ use_certificate (webhook_watcher f) ∷ []
    else tls_options f

-- metricsserver.Options. FilterProvider is the one of controller-runtime, if it is set.
pub record MetricsOptions : Type 0 where
  pub bind_address : Text
  pub secure_serving : Bool
  pub tls_opts : List TlsOption
  pub has_filter : Bool

unfoldable pub metrics_options : Flags → MetricsOptions
metrics_options f = record {
  bind_address = f.metrics_addr;
  secure_serving = f.secure_metrics;
  tls_opts =
      if has_metrics_certificate f
      then tls_options f ++ use_certificate (metrics_watcher f) ∷ []
      else tls_options f;
  has_filter = if f.secure_metrics then true else false;
}

-- ctrl.Options
pub record ManagerOptions : Type 0 where
  pub metrics : MetricsOptions
  pub webhook_tls_opts : List TlsOption
  pub health_probe_bind_address : Text
  pub leader_election : Bool
  pub leader_election_id : Text

unfoldable pub manager_options : Flags → ManagerOptions
manager_options f = record {
  metrics = metrics_options f;
  webhook_tls_opts = webhook_tls_options f;
  health_probe_bind_address = f.probe_addr;
  leader_election = f.enable_leader_election;
  leader_election_id = text "2017f724.hyperfleet.io";
}

-- The calls of controller-runtime that may fail.
pub data SetupCall : Type 0 where
  new_watcher : Watcher → SetupCall
  get_config : SetupCall
  new_manager : ManagerOptions → SetupCall
  set_up_controller : ControllerSpec → SetupCall
  add_watcher : Watcher → SetupCall
  add_healthz_check add_readyz_check : SetupCall
  start : SetupCall

abbrev pub SetupEvent : Type 0
SetupEvent = SetupCall × Err

-- The calls so far, the newest first.
abbrev pub Log : Type 0
Log = List SetupEvent

module _ (answer : Log → SetupCall → Err) where
  unfoldable pub ask : SetupCall → M Log Err
  ask call log = let r = answer log call in (r, (call, r) ∷ log)

  -- `if err := call; err != nil { setupLog.Error(err, message); os.Exit(1) }`, where the error of
  -- the model stands for the exit.
  unfoldable pub require : Text → SetupCall → M Log Err → M Log Err
  require message call = check message (ask call)

  unfoldable pub require_if : Bool → Text → SetupCall → M Log Err → M Log Err
  require_if b message call k = if b then require message call k else k

  -- main, with the flags that were parsed.
  unfoldable pub start_manager : Flags → M Log Err
  start_manager f =
      require_if (has_webhook_certificate f)
        (text "Failed to initialize webhook certificate watcher") (new_watcher (webhook_watcher f))
        (require_if (has_metrics_certificate f) (text "to initialize metrics certificate watcher")
          (new_watcher (metrics_watcher f))
          (require (text "unable to get kubeconfig") get_config (
            require (text "unable to start manager") (new_manager (manager_options f)) (
              require (text "unable to create controller")
                (set_up_controller hypervisor_cluster_controller)
                (require_if (has_metrics_certificate f)
                  (text "unable to add metrics certificate watcher to manager")
                  (add_watcher (metrics_watcher f))
                  (require_if (has_webhook_certificate f)
                    (text "unable to add webhook certificate watcher to manager")
                    (add_watcher (webhook_watcher f))
                    (require (text "unable to set up health check") add_healthz_check (
                      require (text "unable to set up ready check") add_readyz_check
                        (require (text "problem running manager") start done)))))))))
