-- ===== src/Bootstrap/Process/Steps.antt =====
-- What the result of Run and of main says of the calls that were made.
use mathlib.Core.Path.{subst}
use hyperfleet_controller.Base.{
  Text, text, ◌==◌, ◌≡◌, ◌≢◌, refl, sym, ap, ◌⊎◌, inl, inr, ◌↔◌, true, false, none, some, ◌∷◌,
  arith, ◌++◌, error_text, Error, Err, Result, ok, err, M, check, check-cases, deferring, nat_eq,
  Emitted-trans, Emitted, Emits, Emits-check, Emits-deferring, Emits-pure, Emits-if, Emits-fail,
}
use hyperfleet_controller.Bootstrap.Config.{RunnerConfig, runner_token_method}
use hyperfleet_controller.Bootstrap.System.{
  mkdir_all, open_file, copy, close_file, http_get, remove_all, write_string, close_body,
  close_gzip, sync, run, reboot, sleep, Event, Trace, Response, Env, perform, Emits-perform,
}
use hyperfleet_controller.Bootstrap.Archive.{is_refused, create_flags}
use hyperfleet_controller.Bootstrap.Archive.Emission.{Permits, extract-Emits}
use hyperfleet_controller.Bootstrap.Download.{read_response, download_github_runner}
use hyperfleet_controller.Bootstrap.Runner.{
  config_command, run_command, configure_runner, run_and_monitor,
}
use hyperfleet_controller.Bootstrap.Shutdown.{cleanup}
use hyperfleet_controller.Bootstrap.Shutdown.Methods.{cleanup_lem}
use hyperfleet_controller.Bootstrap.Process.{
  run_bootstrap, attest, load_runner_config, bootstrap_with_token, dispatch, main, returned, fatal,
  exit_code,
}
use hyperfleet_controller.Bootstrap.Config.{build_download_url}
use hyperfleet_controller.Path.{join}

-- A call that installs or runs the runner: the request for its archive, those of the extraction,
-- which opens files only to write them anew, and the commands of the two scripts.
abbrev pub IsPreparation : Env → RunnerConfig → Event → Type 0
IsPreparation env config (mkdir_all p mode, r) = Unit
IsPreparation env config (open_file p flags mode, r) = flags ≡ create_flags
IsPreparation env config (copy p content, r) = Unit
IsPreparation env config (close_file p, r) = Unit
IsPreparation env config (http_get url, r) = url ≡ build_download_url env.platform config
IsPreparation env config (close_body, r) = Unit
IsPreparation env config (close_gzip, r) = Unit
IsPreparation env config (run c, r) = (c ≡ config_command config) ⊎ (c ≡ run_command config)
IsPreparation env config (remove_all p, r) = ⊥
IsPreparation env config (write_string p s, r) = ⊥
IsPreparation env config (sync, r) = ⊥
IsPreparation env config (reboot c, r) = ⊥
IsPreparation env config (sleep d, r) = ⊥

permits :
    (env : Env) (config : RunnerConfig) (base name : Text)
    → is_refused base name ≡ false
    → Permits (IsPreparation env config) (join base name)
permits env config base name e = record {
  create = λ mode r. tt;
  create_parent = λ mode r. tt;
  open_at = λ mode r. refl;
  copy_to = λ content r. tt;
  close_at = λ r. tt;
}

module _ (env : Env) (config : RunnerConfig) where
  read_response-IsPreparation :
      (target : Text) (response : Response)
      → Emits (IsPreparation env config) (read_response env target response)
  unfolding read_response
  read_response-IsPreparation target response =
      Emits-if (nat_eq response.status_code 200) _ _
        (λ _. Emits-check _ _ _ (Emits-pure response.gzip_error) (
          Emits-deferring _ _ (Emits-perform env close_gzip (λ r. tt)) (
            extract-Emits env target (permits env config target) response.entries
              response.tar_error)))
        (λ _. Emits-fail _)

  download-IsPreparation : Emits (IsPreparation env config) (download_github_runner env config)
  unfolding download_github_runner
  download-IsPreparation = Emits-check _ _ _ (Emits-perform env _ (λ r. tt)) (
      Emits-check _ _ _ (Emits-pure (env.new_request _)) (
        Emits-check _ _ _ (Emits-perform env _ (λ r. refl)) (record {
          from = λ t.
              (Emits-deferring _ _ (Emits-perform env close_body (λ r. tt))
                  (read_response-IsPreparation _ (env.response t _))).from
                t;
        })))

  cleanup-nil : (t : Trace) → (cleanup env config t).0 ≡ none
  cleanup-nil t = ap (λ o. o.0) (cleanup_lem env config t).3

  -- Run returns nil exactly if the download, the configuration script and the runner do, each after
  -- the one before.
  pub run_bootstrap-none :
      (t : Trace)
      → let t₁ = (download_github_runner env config t).1 in
        let t₂ : Trace = (run (config_command config), none) ∷ t₁ in
        ((run_bootstrap env config t).0 ≡ none)
        ↔ ((download_github_runner env config t).0 ≡ none)
          × (env.answer t₁ (run (config_command config)) ≡ none)
          × (env.answer t₂ (run (run_command config)) ≡ none)
  unfolding run_bootstrap configure_runner run_and_monitor deferring perform
  run_bootstrap-none t =
      let t₁ = (download_github_runner env config t).1 in
      let t₂ : Trace = (run (config_command config), none) ∷ t₁ in
      (λ h. ground arith, λ h. ground (arith, cleanup-nil ((run (run_command config), none) ∷ t₂)))

  -- After a Run that returns nil the trace is that of the download, the two scripts without error
  -- and cleanup.
  pub run_bootstrap-completed :
      (t : Trace)
      → (run_bootstrap env config t).0 ≡ none
      → run_bootstrap env config t
        ≡ cleanup env config (
            (run (run_command config), none)
            ∷ (run (config_command config), none)
            ∷ (download_github_runner env config t).1)
  unfolding run_bootstrap configure_runner run_and_monitor deferring perform
  run_bootstrap-completed t h = ground arith

  configure-IsPreparation : Emits (IsPreparation env config) (configure_runner env config)
  unfolding configure_runner
  configure-IsPreparation = Emits-perform env _ (λ r. inl refl)

  run-IsPreparation : Emits (IsPreparation env config) (run_and_monitor env config)
  unfolding run_and_monitor
  run-IsPreparation = Emits-perform env _ (λ r. inr refl)

  -- The part of Run before cleanup.
  prepared :
      (message : Text) (m k : M Trace Err) (t : Trace)
      → Emits (IsPreparation env config) m
      → ((k (m t).1).0 ≢ none → Emitted (IsPreparation env config) (m t).1 (k (m t).1).1)
      → (check message m k t).0 ≢ none
      → Emitted (IsPreparation env config) t (check message m k t).1
  prepared message m k t em ek h = elim (check-cases message m k t) [
    | inl e ↦ subst (Emitted (IsPreparation env config) t) (sym e) (em.from t)
    | inr e ↦
        subst (λ o. Emitted (IsPreparation env config) t o.1) (sym e)
          (Emitted-trans (IsPreparation env config) t (m t).1 _ (em.from t) (ek (rw e at h)))
  ]

  -- A Run that returns an error has removed nothing and has not tried to shut the machine down:
  -- each call that it added is the request for the runner's archive, one of the extraction, where a
  -- file is opened only to be written anew, or one of exactly two commands, the configuration
  -- script and the runner script with their arguments.
  pub run_bootstrap-failed :
      (t : Trace)
      → (run_bootstrap env config t).0 ≢ none
      → Emitted (IsPreparation env config) t (run_bootstrap env config t).1
  unfolding run_bootstrap
  run_bootstrap-failed t =
      prepared _ (download_github_runner env config) _ t download-IsPreparation (
        prepared _ (configure_runner env config) _ _ configure-IsPreparation (
          prepared _ (run_and_monitor env config) _ _ run-IsPreparation
            (λ h. absurd (h (cleanup-nil _)))))

  -- For a configuration that was loaded, names the method runner-token and passes the SPIFFE test,
  -- whatever step of Run fails, main ends with the error's message and status 1.
  pub main-run_failed :
      (path : Text) (t : Trace) (e : Error)
      → load_runner_config env path ≡ ok config
      → (config.method == runner_token_method) ≡ true
      → attest config ≡ none
      → (run_bootstrap env config t).0 ≡ some e
      → ((main env path t).0 ≡ fatal (text "GitHub bootstrap failed" ++ text ": " ++ error_text e))
        × (exit_code (main env path t).0 ≡ 1)
  unfolding main dispatch bootstrap_with_token
  main-run_failed path t e l m a r = ground arith

  refuses :
      (t : Trace)
      → ((config.method == runner_token_method) ≡ false) ⊎ (attest config ≢ none)
      → (exit_code (dispatch env config t).0 ≡ 1) × ((dispatch env config t).1 ≡ t)
  unfolding dispatch bootstrap_with_token
  refuses t (inl e) = ground arith
  refuses t (inr e) = ground arith

-- Where the configuration cannot be loaded, names another method than runner-token or fails the
-- SPIFFE test, main ends with status 1 and has made no call.
pub main-refuses :
    (env : Env) (path : Text) (t : Trace)
    → ((config : RunnerConfig)
        → load_runner_config env path ≡ ok config
        → ((config.method == runner_token_method) ≡ false) ⊎ (attest config ≢ none))
    → (exit_code (main env path t).0 ≡ 1) × ((main env path t).1 ≡ t)
unfolding main
main-refuses env path t h = split (load_runner_config env path) refl
  where
    split :
        (r : Result RunnerConfig)
        → load_runner_config env path ≡ r
        → (exit_code (main env path t).0 ≡ 1) × ((main env path t).1 ≡ t)
    split (err e) p = rw (p, main) (refl, refl)
    split (ok config) p = rw (p, main) (refuses env config t (h config p))

-- The process returns from main only if the configuration was loaded, names the method runner-token
-- and passes the SPIFFE test if that is enabled, and Run has returned nil for it.
pub main-returned :
    (env : Env) (path : Text) (t : Trace)
    → (main env path t).0 ≡ returned
    → (config : RunnerConfig) × (load_runner_config env path ≡ ok config)
      × ((config.method == runner_token_method) ≡ true)
      × (attest config ≡ none)
      × ((run_bootstrap env config t).0 ≡ none)
unfolding main dispatch bootstrap_with_token
main-returned env path t h = split (load_runner_config env path) refl
  where
    split :
        (r : Result RunnerConfig)
        → load_runner_config env path ≡ r
        → (config : RunnerConfig) × (load_runner_config env path ≡ ok config)
          × ((config.method == runner_token_method) ≡ true)
          × (attest config ≡ none)
          × ((run_bootstrap env config t).0 ≡ none)
    split (err e) p = ground arith
    split (ok config) p = (config, p, ground arith, ground arith, ground arith)
