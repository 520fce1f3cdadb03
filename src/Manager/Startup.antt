-- ===== src/Manager/Startup.antt =====
-- The order of the calls at startup.
use hyperfleet_controller.Base.{
  Text, ◌≡◌, refl, Bool, true, false, none, some, List, [], ◌∷◌, ◌⊎◌, inl, inr, if◌then◌else◌,
  Error, wrap, Err, M, resume, done, fail, check,
}
use hyperfleet_controller.Controller.Setup.{hypervisor_cluster_controller}
use hyperfleet_controller.Manager.{
  Flags, SetupCall, new_watcher, get_config, new_manager, set_up_controller, add_watcher,
  add_healthz_check, add_readyz_check, start, Log, ask, require, require_if, start_manager,
  has_webhook_certificate, has_metrics_certificate, webhook_watcher, metrics_watcher,
  manager_options,
}

-- The calls of a startup in which none fails.
abbrev pub startup_calls : Flags → List SetupCall
startup_calls f =
    let rest : List SetupCall = add_healthz_check ∷ add_readyz_check ∷ start ∷ [] in
    let with_webhook =
      if has_webhook_certificate f then add_watcher (webhook_watcher f) ∷ rest else rest in
    let with_metrics =
      if has_metrics_certificate f
      then add_watcher (metrics_watcher f) ∷ with_webhook
      else with_webhook in
    let manager =
      get_config
      ∷ new_manager (manager_options f)
      ∷ set_up_controller hypervisor_cluster_controller
      ∷ with_metrics in
    let metrics =
      if has_metrics_certificate f then new_watcher (metrics_watcher f) ∷ manager else manager in
    if has_webhook_certificate f then new_watcher (webhook_watcher f) ∷ metrics else metrics

-- Calls that are made in order from a log on: either each of them without error, with nil as the
-- result, or those up to the first that fails, with its error as the result.
abbrev pub Progress : List SetupCall → Log → Err × Log → Type 0
Progress [] log o = o ≡ (none, log)
Progress (c ∷ rest) log o =
    ((message : Text) × (e : Error) × (o ≡ (some (wrap message e), (c, some e) ∷ log)))
    ⊎ Progress rest ((c, none) ∷ log) o

module _ (answer : Log → SetupCall → Err) where
  record Follows (calls : List SetupCall) (m : M Log Err) : Type 0 where
    at : (log : Log) → Progress calls log (m log)

  Follows-require :
      (message : Text) (c : SetupCall) (rest : List SetupCall) (k : M Log Err)
      → Follows rest k
      → Follows (c ∷ rest) (require answer message c k)
  unfolding require check ask fail
  Follows-require message c rest k follows = record { at = λ log. answered log (answer log c) }
    where
      answered :
          (log : Log) (r : Err)
          → Progress (c ∷ rest) log (resume (λ e. fail (wrap message e)) k r ((c, r) ∷ log))
      answered log none = inr (follows.at _)
      answered log (some e) = inl (message, e, refl)

  Follows-require_if :
      (b : Bool) (message : Text) (c : SetupCall) (rest : List SetupCall) (k : M Log Err)
      → Follows rest k
      → Follows (if b then c ∷ rest else rest) (require_if answer b message c k)
  unfolding require_if
  Follows-require_if true message c rest k follows = Follows-require message c rest k follows
  Follows-require_if false message c rest k follows = follows

  Follows-done : Follows [] done
  unfolding done
  Follows-done = record { at = λ log. refl }

  start_manager-Follows : (f : Flags) → Follows (startup_calls f) (start_manager answer f)
  unfolding start_manager
  start_manager-Follows f = Follows-require_if _ _ _ _ _ (
      Follows-require_if _ _ _ _ _ (
        Follows-require _ _ _ _ (
          Follows-require _ _ _ _ (
            Follows-require _ _ _ _ (
              Follows-require_if _ _ _ _ _ (
                Follows-require_if _ _ _ _ _ (
                  Follows-require _ _ _ _
                    (Follows-require _ _ _ _ (Follows-require _ _ _ _ Follows-done)))))))))

  -- The startup makes its calls in one order: the certificate watchers whose paths are given, the
  -- manager, the cluster reconciler, the watchers in the manager, the two probes, and then the
  -- start. It ends in nil when each has succeeded, and at the first that fails with its error, and
  -- makes no call behind that one.
  pub start_manager-Progress :
      (f : Flags) (log : Log) → Progress (startup_calls f) log (start_manager answer f log)
  start_manager-Progress f log = (start_manager-Follows f).at log
