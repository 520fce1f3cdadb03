-- ===== src/Bootstrap/Samples.antt =====
-- Inputs for the tests of the bootstrap service.
use hyperfleet_controller.Base.{Text, text, false, none, some, [], ◌∷◌, Error, external, Err, ok}
use hyperfleet_controller.Bootstrap.Config.{Runner, RunnerConfig, Platform}
use hyperfleet_controller.Bootstrap.System.{Header, type_dir, type_reg, Env, Trace, Call}

abbrev pub linux : Platform
linux = record { getenv = λ _. []; goos = text "linux"; goarch = text "amd64" }

abbrev pub base : Text
base = text "/opt/runner"

abbrev pub runner : Runner
runner = record {
  download_url = [];
  install_path = base;
  work_dir = [];
  config_script = [];
  run_script = [];
  os = [];
  arch = [];
}

abbrev pub config : RunnerConfig
config = record {
  method = text "runner-token";
  platform = text "github-actions";
  runner_token = text "T";
  registration_url = text "https://github.com/o/r";
  runner_name = text "r1";
  labels = text "self-hosted" ∷ text "linux" ∷ [];
  expires_at = [];
  runner = runner;
  spiffe = record { join_token = []; spiffe_id = []; enabled = false };
}

abbrev pub folder : Header
folder = record { name = text "bin/"; typeflag = type_dir; mode = 0o755; content = [] }

abbrev pub script : Header
script = record { name = text "run.sh"; typeflag = type_reg; mode = 0o755; content = text "exec" }

-- An entry that climbs out of the installation path.
abbrev pub climbing : Header
climbing = record {
  name = text "../../etc/passwd";
  typeflag = type_reg;
  mode = 0o644;
  content = text "root";
}

abbrev pub refused : Error
refused = external (text "permission denied")

-- A machine with these answers, and one release on the server.
abbrev pub machine : (Trace → Call → Err) → Env
machine answer = record {
  platform = linux;
  answer = answer;
  response = λ _ _. record {
    status_code = 200;
    gzip_error = none;
    entries = folder ∷ script ∷ [];
    tar_error = none;
  };
  new_request = λ _. none;
  read_file = λ _. ok (text "{}");
  unmarshal = λ _. ok config;
}

-- All calls succeed.
abbrev pub healthy : Env
healthy = machine λ _ _. none

-- All calls fail.
abbrev pub broken : Env
broken = machine λ _ _. some refused

abbrev pub other_method : RunnerConfig
other_method = record config { method = text "password" }

-- A machine whose file holds a configuration with a method that is not known.
abbrev pub misconfigured : Env
misconfigured = record healthy { unmarshal = λ _. ok other_method }
