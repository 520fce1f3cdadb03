-- ===== src/Bootstrap/ProcessTests.antt =====
-- The theorems on Run, main and the shutdown at concrete inputs, and runs of them.
use mathlib.Core.Path.{subst}
use hyperfleet_controller.Base.{
  if◌then◌else◌, ◌*◌, ◌≤◌, length, Costs, Ends, pos, arith, Text, ◌+◌, text, ◌==◌, ◌≡◌, ◌≢◌, ◌↔◌,
  refl, false, true, none, some, [], ◌∷◌, has_prefix, Emitted, Error, inl, ok, deferring, wrap,
}
use hyperfleet_controller.Path.{join}
use hyperfleet_controller.Bootstrap.Config.{
  RunnerConfig, install_path, work_dir, runner_token_method, cleanup_delay_seconds,
}
use hyperfleet_controller.Bootstrap.System.{
  Trace, run, sync, reboot, sleep, remove_all, perform, opens_of, closes_of,
}
use hyperfleet_controller.Bootstrap.Samples.{
  config, folder, script, refused, healthy, broken, other_method, misconfigured,
}
use hyperfleet_controller.Bootstrap.Archive.{extract, is_refused}
use hyperfleet_controller.Bootstrap.Download.{download_github_runner}
use hyperfleet_controller.Bootstrap.Runner.{
  config_command, run_command, configure_runner, run_and_monitor,
}
use hyperfleet_controller.Bootstrap.Shutdown.{
  power_off, power_state_file, disk_file, shutdown_commands, shutdown_via_syscall,
  shutdown_via_sysrq, shutdown_via_power_state, shutdown_via_command, try_commands, shutdown_vm,
  cleanup,
}
use hyperfleet_controller.Bootstrap.Shutdown.Methods.{Tried, shutdown_vm-fails, power_state_closes}
use hyperfleet_controller.Bootstrap.Process.{
  dispatch, bootstrap_with_token, run_bootstrap, attest, load_runner_config, main, returned,
  exit_code,
}
use hyperfleet_controller.Bootstrap.Protocol.{RunStep, begun}
use hyperfleet_controller.Bootstrap.Protocol.Run.{Concluded, run_bootstrap-Ends}
use hyperfleet_controller.Bootstrap.Process.Calls.{run_bootstrap-Costs}
use hyperfleet_controller.Bootstrap.Adapters.{second, sleep_nanoseconds, sleep_nanoseconds-exact}
use hyperfleet_controller.Bootstrap.Process.Success.{IsSound, run_bootstrap-works}
use hyperfleet_controller.Bootstrap.Process.Steps.{
  IsPreparation, run_bootstrap-failed, main-returned, main-refuses,
}

healthy_runs : (run_bootstrap healthy config []).0 ≡ none
unfolding run_bootstrap download_github_runner configure_runner run_and_monitor cleanup extract join
    text ◌==◌ has_prefix deferring perform shutdown_vm shutdown_via_syscall
healthy_runs = refl

broken_fails : (run_bootstrap broken config []).0 ≢ none
unfolding run_bootstrap download_github_runner deferring perform
broken_fails = λ e. cc

run_bootstrap-failed_example :
    Emitted (IsPreparation broken config) [] (run_bootstrap broken config []).1
run_bootstrap-failed_example = run_bootstrap-failed broken config [] broken_fails

loaded : load_runner_config healthy (text "config.json") ≡ ok config
unfolding load_runner_config
loaded = refl

runner_token : (config.method == runner_token_method) ≡ true
unfolding text ◌==◌
runner_token = refl

not_attested : attest config ≡ none
unfolding attest
not_attested = refl

healthy_returns : (main healthy (text "config.json") []).0 ≡ returned
unfolding main dispatch bootstrap_with_token load_runner_config attest
healthy_returns = rw (loaded, runner_token, not_attested, healthy_runs) refl

main-returned_example :
    (c : RunnerConfig) × (load_runner_config healthy (text "config.json") ≡ ok c)
    × ((c.method == runner_token_method) ≡ true)
    × (attest c ≡ none)
    × ((run_bootstrap healthy c []).0 ≡ none)
main-returned_example = main-returned healthy (text "config.json") [] healthy_returns

abbrev failure : Error
failure =
    wrap (text "failed to download runner")
      (wrap (text "failed to create install directory") refused)

broken_error : (run_bootstrap broken config []).0 ≡ some failure
unfolding run_bootstrap download_github_runner deferring perform
broken_error = refl

refused_method :
    (c : RunnerConfig)
    → load_runner_config misconfigured (text "config.json") ≡ ok c
    → (c.method == runner_token_method) ≡ false
unfolding load_runner_config text ◌==◌
refused_method c l =
    let same : other_method ≡ c = cc in
    subst (λ d. (d.method == runner_token_method) ≡ false) same refl

main-refuses_example :
    (exit_code (main misconfigured (text "config.json") []).0 ≡ 1)
    × ((main misconfigured (text "config.json") []).1 ≡ [])
main-refuses_example =
    main-refuses misconfigured (text "config.json") [] λ c l. inl (refused_method c l)

stays_up : (shutdown_vm broken []).0 ≢ none
unfolding shutdown_vm shutdown_via_syscall shutdown_via_sysrq shutdown_via_power_state
    shutdown_via_command try_commands deferring perform
stays_up = λ e. cc

shutdown_vm-fails_example :
    let t₁ = (shutdown_via_syscall broken []).1 in
    let t₂ = (shutdown_via_sysrq broken t₁).1 in
    let t₃ = (shutdown_via_power_state broken t₂).1 in
    ((shutdown_via_syscall broken []).0 ≢ none)
    × ((shutdown_via_sysrq broken t₁).0 ≢ none)
    × ((shutdown_via_power_state broken t₂).0 ≢ none)
    × Tried shutdown_commands t₃ (shutdown_vm broken []).1
shutdown_vm-fails_example = shutdown_vm-fails broken [] stays_up

power_state_closes_example :
    closes_of disk_file (shutdown_via_power_state healthy []).1 + opens_of disk_file []
    ≡ opens_of disk_file (shutdown_via_power_state healthy []).1
      + closes_of disk_file []
      + (if power_state_file == disk_file then 1 else 0)
power_state_closes_example = power_state_closes healthy [] disk_file refl

healthy_response : IsSound (install_path config) (record {
  status_code = 200;
  gzip_error = none;
  entries = folder ∷ script ∷ [];
  tar_error = none;
})
unfolding install_path is_refused join text ◌==◌ has_prefix
healthy_response = record { found = refl; gzip = refl; tar = refl; accepted = (refl, (refl, tt)) }

run_bootstrap-works_example : run_bootstrap healthy config [] ≡ (
  none,
  (reboot power_off, none)
      ∷ (sync, none)
      ∷ (sleep cleanup_delay_seconds, none)
      ∷ (remove_all (work_dir config), none)
      ∷ (remove_all (install_path config), none)
      ∷ (run (run_command config), none)
      ∷ (run (config_command config), none)
      ∷ (download_github_runner healthy config []).1,
)
run_bootstrap-works_example =
    run_bootstrap-works healthy (λ t c. refl) config refl (λ t. healthy_response) []

two_entries : (t : Trace) (url : Text) → length (healthy.response t url).entries ≤ 2
unfolding length
two_entries t url = omega arith

run_bootstrap-Costs_example : Costs 36 (run_bootstrap healthy config)
run_bootstrap-Costs_example = run_bootstrap-Costs healthy config 2 two_entries

sleep_nanoseconds-exact_example : (sleep_nanoseconds (pos 2) ≡ pos (2 * second)) ↔ (2 ≤ 9223372036)
sleep_nanoseconds-exact_example = sleep_nanoseconds-exact 2

run_bootstrap-Ends_example :
    Ends (RunStep config) begun [] Concluded (run_bootstrap healthy config [])
run_bootstrap-Ends_example = run_bootstrap-Ends healthy config []
