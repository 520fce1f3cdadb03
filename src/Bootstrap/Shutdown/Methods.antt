-- ===== src/Bootstrap/Shutdown/Methods.antt =====
-- The order of the shutdown methods, and what cleanup does whatever fails.
use mathlib.Core.Path.{subst}
use hyperfleet_controller.Base.{
  Text, ◌==◌, if◌then◌else◌, ◌+◌, ◌≡◌, ◌≢◌, refl, sym, ap, ◌∙◌, none, some, List, [], ◌∷◌, ◌++◌,
  arith, Error, Err, M, check_or, deferring, resume, fail, done,
}
use hyperfleet_controller.Bootstrap.Config.{
  RunnerConfig, install_path, work_dir, cleanup_delay_seconds,
}
use hyperfleet_controller.Bootstrap.System.{
  Command, remove_all, open_file, sync, run, reboot, sleep, Trace, Env, perform, opens, closes,
  opens_of, closes_of,
}
use hyperfleet_controller.Bootstrap.Shutdown.{
  power_off, write_only, power_state_file, shutdown_commands, shutdown_via_syscall,
  shutdown_via_sysrq, shutdown_via_power_state, try_commands, shutdown_via_command, shutdown_vm,
  cleanup,
}

-- Commands run one after the other, each with an error, from a trace to a later one.
pub data Tried : List Command → Trace → Trace → Type 0 where
  none_left : {t : Trace} → Tried [] t t
  tried :
      {rest : List Command} {t u : Trace} (c : Command) (e : Error)
      → Tried rest ((run c, some e) ∷ t) u
      → Tried (c ∷ rest) t u

-- The commands up to the first that succeeds.
pub record Stopped (commands : List Command) (t u : Trace) : Type 0 where
  pub before : List Command
  pub last : Command
  pub unused : List Command
  pub middle : Trace
  pub all : commands ≡ before ++ last ∷ unused
  pub failed : Tried before t middle
  pub succeeded : u ≡ (run last, none) ∷ middle

abbrev pub Outcome : List Command → Trace → Err × Trace → Type 0
Outcome commands t (none, u) = Stopped commands t u
Outcome commands t (some e, u) = Tried commands t u

outcome_failed :
    (commands : List Command) (t : Trace) (o : Err × Trace)
    → o.0 ≢ none
    → Outcome commands t o
    → Tried commands t o.1
outcome_failed commands t (none, u) h s = absurd (h refl)
outcome_failed commands t (some e, u) h s = s

module _ (env : Env) where
  try_first :
      (c : Command) (rest : List Command) (t : Trace) (r : Err)
      → ((e : Error)
          → Outcome rest
              ((run c, some e) ∷ t)
              (try_commands env rest (some e) ((run c, some e) ∷ t)))
      → Outcome (c ∷ rest) t (resume (λ e. try_commands env rest (some e)) done r ((run c, r) ∷ t))
  try_first c rest t none ih =
      unfold done in
      record {
        before = [];
        last = c;
        unused = rest;
        middle = t;
        all = refl;
        failed = none_left;
        succeeded = refl;
      }
  try_first c rest t (some e) ih =
      extend (try_commands env rest (some e) ((run c, some e) ∷ t)) (ih e)
    where
      extend : (o : Err × Trace) → Outcome rest ((run c, some e) ∷ t) o → Outcome (c ∷ rest) t o
      extend (none, u) s = record {
        before = c ∷ s.before;
        last = s.last;
        unused = s.unused;
        middle = s.middle;
        all = ap (λ x. c ∷ x) s.all;
        failed = tried c e s.failed;
        succeeded = s.succeeded;
      }
      extend (some x, u) h = tried c e h

  -- The loop over the commands runs them in order up to the first that succeeds, and then returns
  -- nil; it returns an error when each of them has been run and has failed.
  pub try_commands_outcome :
      (commands : List Command) (last : Err) (t : Trace)
      → Outcome commands t (try_commands env commands last t)
  unfolding try_commands check_or perform fail
  try_commands_outcome [] last t = none_left
  try_commands_outcome (c ∷ rest) last t =
      try_first c rest t (env.answer t (run c))
        (λ e. try_commands_outcome rest (some e) ((run c, some e) ∷ t))

  -- Where the reboot call succeeds, the file systems were synced before it and nothing else is done.
  pub shutdown_vm-reboot :
      (t : Trace) (r : Err)
      → env.answer t sync ≡ r
      → env.answer ((sync, r) ∷ t) (reboot power_off) ≡ none
      → shutdown_vm env t ≡ (none, (reboot power_off, none) ∷ (sync, r) ∷ t)
  unfolding shutdown_vm shutdown_via_syscall deferring perform
  shutdown_vm-reboot t r p q = ground arith

  -- A failing method is followed by the next one.
  fall_through :
      (handle : Error → M Trace Err) (m : M Trace Err) (t : Trace)
      → (check_or handle m done t).0 ≢ none
      → (e : Error) × ((m t).0 ≡ some e) × (check_or handle m done t ≡ handle e (m t).1)
  unfolding check_or
  fall_through handle m t h = after (m t).0 refl h
    where
      after :
          (r : Err)
          → (m t).0 ≡ r
          → (resume handle done (m t).0 (m t).1).0 ≢ none
          → (e : Error) × ((m t).0 ≡ some e)
            × (resume handle done (m t).0 (m t).1 ≡ handle e (m t).1)
      after none p k = unfold done in absurd (k (rw p))
      after (some e) p k = (e, p, rw p)

  -- An error of shutdownVM means that the reboot call, the SysRq trigger and the power state
  -- interface failed, in this order, and that then each of the eight commands was run in order and
  -- failed.
  pub shutdown_vm-fails :
      (t : Trace)
      → (shutdown_vm env t).0 ≢ none
      → let t₁ = (shutdown_via_syscall env t).1 in
        let t₂ = (shutdown_via_sysrq env t₁).1 in
        let t₃ = (shutdown_via_power_state env t₂).1 in
        ((shutdown_via_syscall env t).0 ≢ none)
        × ((shutdown_via_sysrq env t₁).0 ≢ none)
        × ((shutdown_via_power_state env t₂).0 ≢ none)
        × Tried shutdown_commands t₃ (shutdown_vm env t).1
  unfolding shutdown_vm shutdown_via_command
  shutdown_vm-fails t h =
      let (e, first, next) = fall_through _ (shutdown_via_syscall env) t h in
      let t₁ = (shutdown_via_syscall env t).1 in
      let (e', second, next') = fall_through _ (shutdown_via_sysrq env) t₁ (rw next at h) in
      let t₂ = (shutdown_via_sysrq env t₁).1 in
      let (e'', third, next'') =
        fall_through _ (shutdown_via_power_state env) t₂ (rw (next, next') at h) in
      let t₃ = (shutdown_via_power_state env t₂).1 in
      (
        λ n. cc,
        λ n. cc,
        λ n. cc,
        subst (λ o. Tried shutdown_commands t₃ o.1) (sym (next ∙ next' ∙ next''))
            (outcome_failed shutdown_commands t₃ (shutdown_via_command env t₃)
              (rw (next, next', next'') at h) (try_commands_outcome shutdown_commands none t₃)),
      )

  -- Both directories are removed, the delay is kept and then the shutdown is tried, whatever fails;
  -- and cleanup returns nil.
  pub cleanup_lem :
      (config : RunnerConfig) (t : Trace)
      → (removed emptied slept : Err) × (cleanup env config t ≡ (
        none,
        (shutdown_vm env (
            (sleep cleanup_delay_seconds, slept)
            ∷ (remove_all (work_dir config), emptied)
            ∷ (remove_all (install_path config), removed)
            ∷ t)).1,
      ))
  unfolding cleanup deferring perform
  cleanup_lem config t =
      let removed = env.answer t (remove_all (install_path config)) in
      let t₁ : Trace = (remove_all (install_path config), removed) ∷ t in
      let emptied = env.answer t₁ (remove_all (work_dir config)) in
      let t₂ : Trace = (remove_all (work_dir config), emptied) ∷ t₁ in
      let slept = env.answer t₂ (sleep cleanup_delay_seconds) in
      (removed, emptied, slept, ground arith)

  -- Once the power state file was opened, shutdownViaPowerState closes each path as often as it
  -- opens it, whatever fails behind it, but the power state file once more than it opens it.
  pub power_state_closes :
      (t : Trace) (path : Text)
      → env.answer t (open_file power_state_file write_only 0) ≡ none
      → closes_of path (shutdown_via_power_state env t).1 + opens_of path t
        ≡ opens_of path (shutdown_via_power_state env t).1
          + closes_of path t
          + (if power_state_file == path then 1 else 0)
  unfolding shutdown_via_power_state deferring perform opens_of closes_of
  power_state_closes t path h = ground arith

  pub sysrq_closes :
      (t : Trace)
      → closes (shutdown_via_sysrq env t).1 + opens t
        ≡ opens (shutdown_via_sysrq env t).1 + closes t
  unfolding shutdown_via_sysrq deferring perform opens closes
  sysrq_closes t = ground arith
