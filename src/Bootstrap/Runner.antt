-- ===== src/Bootstrap/Runner.antt =====
-- configureRunner and runAndMonitor (cmd/bootstrap-service/main.go).
use hyperfleet_controller.Base.{Text, text, List, [], ◌∷◌, join_with, Err, M}
use hyperfleet_controller.Path.{join}
use hyperfleet_controller.Bootstrap.Config.{
  RunnerConfig, install_path, work_dir, config_script, run_script,
}
use hyperfleet_controller.Bootstrap.System.{Command, run, Trace, Env, perform}

-- The arguments of the configuration script.
unfoldable pub config_args : RunnerConfig → List Text
unfolding work_dir
config_args config =
    text "--url"
    ∷ config.registration_url
    ∷ text "--token"
    ∷ config.runner_token
    ∷ text "--name"
    ∷ config.runner_name
    ∷ text "--labels"
    ∷ join_with (text ",") config.labels
    ∷ text "--work"
    ∷ work_dir config
    ∷ text "--unattended"
    ∷ text "--ephemeral"
    ∷ []

unfoldable pub config_command : RunnerConfig → Command
unfolding config_args install_path config_script
config_command config = record {
  name = join (install_path config) (config_script config);
  args = config_args config;
  dir = install_path config;
}

unfoldable pub run_command : RunnerConfig → Command
unfolding install_path run_script
run_command config = record {
  name = join (install_path config) (run_script config);
  args = [];
  dir = install_path config;
}

module _ (env : Env) where
  unfoldable pub configure_runner : RunnerConfig → M Trace Err
  configure_runner config = perform env (run (config_command config))

  unfoldable pub run_and_monitor : RunnerConfig → M Trace Err
  run_and_monitor config = perform env (run (run_command config))
