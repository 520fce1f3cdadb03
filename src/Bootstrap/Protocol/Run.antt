-- ===== src/Bootstrap/Protocol/Run.antt =====
-- Run follows the protocol, with its result.
use hyperfleet_controller.Base.{
  ◌≡◌, refl, ◌⊎◌, inl, none, some, Err, Leads, Ends, Leads-at, Leads-map, Leads-weaken, Leads-check,
  Expect-check,
}
use hyperfleet_controller.Bootstrap.Config.{RunnerConfig}
use hyperfleet_controller.Bootstrap.System.{Env, Trace}
use hyperfleet_controller.Bootstrap.Runner.{configure_runner, run_and_monitor}
use hyperfleet_controller.Bootstrap.Process.{run_bootstrap}
use hyperfleet_controller.Bootstrap.Protocol.{
  Phase, begun, prepared, downloaded, configured, finished, stopped, RunStep, download, configure,
  not_configured, run_jobs, not_run,
}
use hyperfleet_controller.Bootstrap.Protocol.Steps.{Leads-perform}
use hyperfleet_controller.Bootstrap.Protocol.Download.{Downloaded, download-Leads}
use hyperfleet_controller.Bootstrap.Protocol.Shutdown.{CleanedUp, cleanup-Leads}

-- Where Run stops, by its result: behind a method of the shutdown that reported success or with every
-- method failed, or before the cleanup.
abbrev pub Concluded : Err → Phase → Type 0
Concluded none q = CleanedUp none q
Concluded (some e) q = (q ≡ stopped) ⊎ ((q ≡ prepared) ⊎ (q ≡ downloaded))

module _ (env : Env) (config : RunnerConfig) where
  run_bootstrap-Leads : Leads (RunStep config) begun (run_bootstrap env config) Concluded
  unfolding run_bootstrap configure_runner run_and_monitor
  run_bootstrap-Leads =
      Leads-check Downloaded _ _ _ (Leads-map (λ p q e. download) (download-Leads env config))
        (λ e q h. h)
        (λ q h. Leads-at h (
          Expect-check configured stopped _ _ _ (Leads-perform env _ configure not_configured)
            (λ e. inl refl)
            (Expect-check finished stopped _ _ _ (Leads-perform env _ run_jobs not_run)
              (λ e. inl refl) (Leads-weaken concluded (cleanup-Leads env config)))))
    where
      concluded : (r : Err) (q : Phase) → CleanedUp r q → Concluded r q
      concluded none q h = h
      concluded (some e) q h = elim h [ ]

  -- Whatever the calls return, those that Run adds are a walk of the protocol from its beginning. A
  -- Run that returns nil ends behind the one method of the shutdown that reported success (the
  -- reboot call; the SysRq trigger; the disk mode, which counts as success though it powers nothing
  -- off; or a command that returned nil) or with every method failed; one that returns an error
  -- ends in or behind the download, or at a script that failed. In the protocol a file of the
  -- archive that was opened is filled and closed by the next two calls, the response is closed
  -- before the scripts, each script is run at most once, the directories are removed only behind
  -- both scripts, and a method of the shutdown begins where the one before has failed.
  pub run_bootstrap-Ends :
      (t : Trace) → Ends (RunStep config) begun t Concluded (run_bootstrap env config t)
  run_bootstrap-Ends t = run_bootstrap-Leads.from t
