-- ===== src/Bootstrap/Process/Success.antt =====
-- A run of the bootstrap service in which everything succeeds.
use hyperfleet_controller.Base.{
  Text, ◌≡◌, ap, ◌∙◌, true, false, none, ◌∷◌, All, done, check_or, deferring, nat_eq, resume,
}
use hyperfleet_controller.Bootstrap.Config.{
  RunnerConfig, install_path, work_dir, cleanup_delay_seconds, build_download_url,
}
use hyperfleet_controller.Bootstrap.System.{
  run, remove_all, sleep, sync, reboot, Trace, Response, Env,
}
use hyperfleet_controller.Bootstrap.Works.{Works, check-works, ignoring-works}
use hyperfleet_controller.Bootstrap.Archive.{is_refused}
use hyperfleet_controller.Bootstrap.Archive.Success.{extract-none}
use hyperfleet_controller.Bootstrap.Download.{read_response, download_github_runner}
use hyperfleet_controller.Bootstrap.Runner.{config_command, run_command}
use hyperfleet_controller.Bootstrap.Shutdown.{power_off, cleanup}
use hyperfleet_controller.Bootstrap.Shutdown.Methods.{shutdown_vm-reboot}
use hyperfleet_controller.Bootstrap.Process.{run_bootstrap}
use hyperfleet_controller.Bootstrap.Process.Steps.{run_bootstrap-none, run_bootstrap-completed}

-- A response with an archive that can be read to its end, and of which no entry is refused.
pub record IsSound (base : Text) (r : Response) : Type 0 where
  pub found : nat_eq r.status_code 200 ≡ true
  pub gzip : r.gzip_error ≡ none
  pub tar : r.tar_error ≡ none
  pub accepted : All (λ h. is_refused base h.name ≡ false) r.entries

module _ (env : Env) (works : Works env) (config : RunnerConfig) where
  read_response-none :
      (r : Response) (t : Trace)
      → IsSound (install_path config) r
      → (read_response env (install_path config) r t).0 ≡ none
  unfolding read_response deferring
  read_response-none r t sound =
      rw (sound.found, sound.gzip, sound.tar)
        (extract-none env works (install_path config) r.entries t sound.accepted)

  download-none :
      env.new_request (build_download_url env.platform config) ≡ none
      → ((t : Trace)
          → IsSound (install_path config) (env.response t (build_download_url env.platform config)))
      → (t : Trace) → (download_github_runner env config t).0 ≡ none
  unfolding download_github_runner deferring check_or
  download-none request sound t =
      let url = build_download_url env.platform config in
      ap (λ o. o.0) (check-works env works _ _ _ t)
      ∙ rw request
          (ap (λ o. o.0) (check-works env works _ _ _ _) ∙ read_response-none _ _ (sound _))

  cleanup-works :
      (t : Trace)
      → cleanup env config t ≡ (
        none,
        (reboot power_off, none)
            ∷ (sync, none)
            ∷ (sleep cleanup_delay_seconds, none)
            ∷ (remove_all (work_dir config), none)
            ∷ (remove_all (install_path config), none)
            ∷ t,
      )
  unfolding cleanup done check_or
  cleanup-works t =
      ignoring-works env works _ _ t
      ∙ ignoring-works env works _ _ _
      ∙ ignoring-works env works _ _ _
      ∙ ap (λ o. resume (λ _. done) done o.0 o.1)
          (shutdown_vm-reboot env _ none (works _ sync) (works _ (reboot power_off)))

  -- On a machine where every call succeeds, with a download that can be requested and gives an
  -- archive of which no entry is refused: Run returns nil, and behind the download the runner is
  -- configured and run, both directories are removed, and after the delay the file systems are
  -- synced and the machine is powered off, once each and in this order.
  pub run_bootstrap-works :
      env.new_request (build_download_url env.platform config) ≡ none
      → ((t : Trace)
          → IsSound (install_path config) (env.response t (build_download_url env.platform config)))
      → (t : Trace)
      → run_bootstrap env config t ≡ (
        none,
        (reboot power_off, none)
            ∷ (sync, none)
            ∷ (sleep cleanup_delay_seconds, none)
            ∷ (remove_all (work_dir config), none)
            ∷ (remove_all (install_path config), none)
            ∷ (run (run_command config), none)
            ∷ (run (config_command config), none)
            ∷ (download_github_runner env config t).1,
      )
  run_bootstrap-works request sound t =
      run_bootstrap-completed env config t
        ((run_bootstrap-none env config t).1 (download-none request sound t, works _ _, works _ _))
      ∙ cleanup-works _
