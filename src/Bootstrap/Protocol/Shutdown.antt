-- ===== src/Bootstrap/Protocol/Shutdown.antt =====
-- The shutdown and the cleanup follow their protocol.
use hyperfleet_controller.Base.{
  ◌≡◌, refl, ◌⊎◌, inl, inr, none, some, List, [], ◌∷◌, Error, Err, M, done, check_or, Leads,
  Leads-check_or, Leads-weaken, Leads-map, Leads-done, Leads-fail, Expect, Expect-check,
  Expect-check_or, Always-ignoring, Expect-deferring,
}
use hyperfleet_controller.Bootstrap.Config.{RunnerConfig}
use hyperfleet_controller.Bootstrap.System.{Env, Command, Trace}
use hyperfleet_controller.Bootstrap.Shutdown.{
  shutdown_commands, shutdown_via_syscall, shutdown_via_sysrq, shutdown_via_power_state,
  try_commands, shutdown_via_command, shutdown_vm, cleanup,
}
use hyperfleet_controller.Bootstrap.Protocol.{
  Phase, finished, uninstalled, emptied, waited, synced, not_rebooted, sysrq_open, sysrq_written,
  sysrq_failed, not_requested, state_open, state_closed, disk_open, disk_written, disk_failed,
  disk_done, no_disk, trying, off, power_requested, mode_set, ordered, ShutdownStep, flush,
  rebooted, reboot_fails, open_sysrq, no_sysrq, request, request_fails, close_sysrq, abandon_sysrq,
  open_state, no_state, close_state, open_disk, disk_missing, write_disk, not_written, close_disk,
  abandon_disk, close_state_again, abandon_state, command_works, command_fails, RunStep, uninstall,
  empty, wait, shut_down,
}
use hyperfleet_controller.Bootstrap.Protocol.Steps.{Leads-perform, Leads-anyway}

-- Where a shutdown stops, by its result: behind the method that reported success, or with every
-- method failed.
abbrev pub ShutDown : Err → Phase → Type 0
ShutDown none q = (q ≡ off) ⊎ ((q ≡ power_requested) ⊎ ((q ≡ mode_set) ⊎ (q ≡ ordered)))
ShutDown (some e) q = q ≡ trying []

abbrev pub CleanedUp : Err → Phase → Type 0
CleanedUp none q = ShutDown none q ⊎ (q ≡ trying [])
CleanedUp (some e) q = ⊥

module _ (env : Env) where
  shutdown_via_syscall-Leads :
      Leads ShutdownStep waited (shutdown_via_syscall env) (Expect off not_rebooted)
  unfolding shutdown_via_syscall
  shutdown_via_syscall-Leads = Always-ignoring synced _ _ (Leads-anyway env _ flush) (
      Expect-check off not_rebooted _ _ _ (Leads-perform env _ rebooted reboot_fails) (λ e. refl)
        (Leads-done refl))

  shutdown_via_sysrq-Leads :
      Leads ShutdownStep not_rebooted
        (shutdown_via_sysrq env)
        (Expect power_requested not_requested)
  unfolding shutdown_via_sysrq
  shutdown_via_sysrq-Leads =
      Expect-check sysrq_open not_requested _ _ _ (Leads-perform env _ open_sysrq no_sysrq)
        (λ e. refl)
        (Expect-deferring sysrq_written sysrq_failed power_requested not_requested _ _
          (Expect-check sysrq_written sysrq_failed _ _ _ (Leads-perform env _ request request_fails)
            (λ e. refl) (Leads-done refl))
          (Leads-anyway env _ close_sysrq) (Leads-anyway env _ abandon_sysrq))

  shutdown_via_power_state-Leads :
      Leads ShutdownStep not_requested
        (shutdown_via_power_state env)
        (Expect mode_set (trying shutdown_commands))
  unfolding shutdown_via_power_state
  shutdown_via_power_state-Leads =
      Expect-check state_open (trying shutdown_commands) _ _ _
        (Leads-perform env _ open_state no_state) (λ e. refl)
        (Expect-deferring disk_done no_disk mode_set (trying shutdown_commands) _ _
          (Always-ignoring state_closed _ _ (Leads-anyway env _ close_state) (
            Expect-check disk_open no_disk _ _ _ (Leads-perform env _ open_disk disk_missing)
              (λ e. refl)
              (Expect-deferring disk_written disk_failed disk_done no_disk _ _
                (Expect-check disk_written disk_failed _ _ _
                  (Leads-perform env _ write_disk not_written) (λ e. refl) (Leads-done refl))
                (Leads-anyway env _ close_disk) (Leads-anyway env _ abandon_disk))))
          (Leads-anyway env _ close_state_again) (Leads-anyway env _ abandon_state))

  try_commands-Leads :
      (commands : List Command) (last : Err)
      → Leads ShutdownStep
          (trying commands)
          (try_commands env commands last)
          (Expect ordered (trying []))
  unfolding try_commands
  try_commands-Leads [] last = Leads-fail _ refl
  try_commands-Leads (c ∷ rest) last =
      Expect-check_or ordered (trying rest) _ _ _
        (Leads-perform env _ (command_works c rest) (command_fails c rest))
        (λ e. try_commands-Leads rest (some e)) (Leads-done refl)

  or_else :
      {p a b : Phase} (handle : Error → M Trace Err) (m : M Trace Err)
      → Leads ShutdownStep p m (Expect a b)
      → ShutDown none a
      → ((e : Error) → Leads ShutdownStep b (handle e) ShutDown)
      → Leads ShutdownStep p (check_or handle m done) ShutDown
  or_else {p} {a} {b} handle m first h failed =
      Expect-check_or a b handle m done first failed (Leads-done h)

  commands-ShutDown : (r : Err) (q : Phase) → Expect ordered (trying []) r q → ShutDown r q
  commands-ShutDown none q h = inr (inr (inr h))
  commands-ShutDown (some e) q h = h

  -- The methods are tried in order, each only where the one before has failed.
  shutdown_vm-Leads : Leads ShutdownStep waited (shutdown_vm env) ShutDown
  unfolding shutdown_vm shutdown_via_command
  shutdown_vm-Leads = or_else _ _ shutdown_via_syscall-Leads (inl refl) (λ _.
      or_else _ _ shutdown_via_sysrq-Leads (inr (inl refl)) (λ _.
        or_else _ _ shutdown_via_power_state-Leads (inr (inr (inl refl)))
          (λ _. Leads-weaken commands-ShutDown (try_commands-Leads shutdown_commands none))))

  pub cleanup-Leads :
      (config : RunnerConfig) → Leads (RunStep config) finished (cleanup env config) CleanedUp
  unfolding cleanup
  cleanup-Leads config = Always-ignoring uninstalled _ _ (Leads-anyway env _ uninstall) (
      Always-ignoring emptied _ _ (Leads-anyway env _ empty) (
        Always-ignoring waited _ _ (Leads-anyway env _ wait) (
          Leads-check_or ShutDown _ _ _ (Leads-map (λ p q e. shut_down) shutdown_vm-Leads)
            (λ _ _ h. Leads-done (inr h)) (λ _ h. Leads-done (inl h)))))
