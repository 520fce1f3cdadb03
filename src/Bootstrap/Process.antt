-- ===== src/Bootstrap/Process.antt =====
-- Run, performSPIFFEAttestation, loadRunnerConfig and main (cmd/bootstrap-service/main.go).
pub mod Steps
pub mod Success
pub mod Calls
use hyperfleet_controller.Base.{ℕ, Text, text, ◌==◌, Bool, true, false, ◌&&◌, none, some, [], ◌++◌}
use hyperfleet_controller.Base.{if◌then◌else◌, errorf, wrap, error_text, Err, Result, ok, err}
use hyperfleet_controller.Base.{M, done, fail, check}
use hyperfleet_controller.Bootstrap.Config.{RunnerConfig, runner_token_method, join_token_method}
use hyperfleet_controller.Bootstrap.System.{Trace, Env}
use hyperfleet_controller.Bootstrap.Download.{download_github_runner}
use hyperfleet_controller.Bootstrap.Runner.{configure_runner, run_and_monitor}
use hyperfleet_controller.Bootstrap.Shutdown.{cleanup}

-- GitHubBootstrap.Run
unfoldable pub run_bootstrap : Env → RunnerConfig → M Trace Err
run_bootstrap env config =
    check (text "failed to download runner") (download_github_runner env config) (
      check (text "failed to configure runner") (configure_runner env config)
        (check (text "failed to run runner") (run_and_monitor env config) (cleanup env config)))

unfoldable pub perform_spiffe_attestation : RunnerConfig → Err
perform_spiffe_attestation config =
    if config.spiffe.join_token == [] && config.spiffe.spiffe_id == []
    then some (errorf (text "SPIFFE attestation enabled but no join token or SPIFFE ID provided"))
    else none

unfoldable pub load_runner_config : Env → Text → Result RunnerConfig
load_runner_config env path = elim (env.read_file path) [
  | err e ↦ err (wrap (text "failed to read config file") e)
  | ok bytes ↦ elim (env.unmarshal bytes) [
    | err e ↦ err (wrap (text "failed to parse config") e)
    | ok config ↦ ok config
  ]
]

-- How the process ends: main returns, or log.Fatalf prints a message.
pub data Exit : Type 0 where
  returned : Exit
  fatal : Text → Exit

-- The exit status. log.Fatalf ends with 1.
abbrev pub exit_code : Exit → ℕ
exit_code returned = 0
exit_code (fatal message) = 1

-- log.Fatalf(message + ": %v", err), unless the error is nil.
abbrev pub fatal_on : Text → Err → Exit
fatal_on message none = returned
fatal_on message (some e) = fatal (message ++ text ": " ++ error_text e)

-- The SPIFFE attestation of main, if enabled.
unfoldable pub attest : RunnerConfig → Err
attest config = if config.spiffe.enabled then perform_spiffe_attestation config else none

-- The case runnerTokenMethod of main.
unfoldable pub bootstrap_with_token : Env → RunnerConfig → M Trace Exit
bootstrap_with_token env config trace = elim (attest config) [
  | some e ↦ (fatal_on (text "SPIFFE attestation failed") (some e), trace)
  | none ↦
      let (r, trace') = run_bootstrap env config trace in
      (fatal_on (text "GitHub bootstrap failed") r, trace')
]

-- The switch on the method.
unfoldable pub dispatch : Env → RunnerConfig → M Trace Exit
dispatch env config trace =
    if config.method == runner_token_method
    then bootstrap_with_token env config trace
    else if config.method == join_token_method
    then (fatal (text "Pure SPIFFE/SPIRE bootstrap not yet implemented"), trace)
    else (fatal (text "Unsupported attestation method: " ++ config.method), trace)

unfoldable pub main : Env → Text → M Trace Exit
main env path trace = elim (load_runner_config env path) [
  | err e ↦ (fatal_on (text "Failed to load config") (some e), trace)
  | ok config ↦ dispatch env config trace
]
