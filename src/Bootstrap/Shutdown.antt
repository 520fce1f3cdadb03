-- ===== src/Bootstrap/Shutdown.antt =====
-- The four ways to shut the machine down, and cleanup (cmd/bootstrap-service/main.go).
pub mod Methods
use hyperfleet_controller.Base.{ℕ, Text, text, List, [], ◌∷◌, none, some}
use hyperfleet_controller.Base.{Error, errorf, wrap, Err, M, done, fail, check_or, check, ignoring}
use hyperfleet_controller.Base.{deferring}
use hyperfleet_controller.Bootstrap.Config.{
  RunnerConfig, install_path, work_dir, cleanup_delay_seconds,
}
use hyperfleet_controller.Bootstrap.System.{
  Command, remove_all, open_file, write_string, close_file, sync, run, reboot, sleep, Trace, Env,
  perform,
}

-- syscall.LINUX_REBOOT_CMD_POWER_OFF
abbrev pub power_off : ℕ
power_off = 0x4321fedc

-- os.O_WRONLY
abbrev pub write_only : ℕ
write_only = 1

abbrev pub sysrq_file : Text
sysrq_file = text "/proc/sysrq-trigger"

abbrev pub power_state_file : Text
power_state_file = text "/sys/power/state"

abbrev pub disk_file : Text
disk_file = text "/sys/power/disk"

abbrev command : List Text → Command
command [] = record { name = []; args = []; dir = [] }
command (name ∷ args) = record { name = name; args = args; dir = [] }

-- shutdownCommands, in order of preference
abbrev pub shutdown_commands : List Command
shutdown_commands =
    command (text "sudo" ∷ text "shutdown" ∷ text "-h" ∷ text "now" ∷ [])
    ∷ command (text "shutdown" ∷ text "-h" ∷ text "now" ∷ [])
    ∷ command (text "sudo" ∷ text "poweroff" ∷ [])
    ∷ command (text "poweroff" ∷ [])
    ∷ command (text "sudo" ∷ text "halt" ∷ text "-p" ∷ [])
    ∷ command (text "halt" ∷ text "-p" ∷ [])
    ∷ command (text "sudo" ∷ text "systemctl" ∷ text "poweroff" ∷ [])
    ∷ command (text "systemctl" ∷ text "poweroff" ∷ [])
    ∷ []

-- The error behind the loop over the commands.
abbrev pub all_failed : Err → Error
all_failed none = errorf (text "all shutdown methods failed, last error: %!w(<nil>)")
all_failed (some e) = wrap (text "all shutdown methods failed, last error") e

module _ (env : Env) where
  unfoldable pub shutdown_via_syscall : M Trace Err
  shutdown_via_syscall =
      ignoring (perform env sync)
        (check (text "syscall reboot failed") (perform env (reboot power_off)) done)

  unfoldable pub shutdown_via_sysrq : M Trace Err
  shutdown_via_sysrq =
      check (text "failed to open sysrq-trigger") (perform env (open_file sysrq_file write_only 0))
        (deferring (perform env (close_file sysrq_file)) (
          check (text "failed to write to sysrq-trigger")
            (perform env (write_string sysrq_file (text "o"))) done))

  unfoldable pub shutdown_via_power_state : M Trace Err
  shutdown_via_power_state =
      check (text "failed to open power state file")
        (perform env (open_file power_state_file write_only 0))
        (deferring (perform env (close_file power_state_file)) (
          ignoring (perform env (close_file power_state_file)) (
            check (text "failed to open power disk file")
              (perform env (open_file disk_file write_only 0))
              (deferring (perform env (close_file disk_file)) (
                check (text "failed to write to power disk file")
                  (perform env (write_string disk_file (text "shutdown"))) done)))))

  -- The loop over the commands, with lastErr.
  unfoldable pub try_commands : List Command → Err → M Trace Err
  try_commands [] last = fail (all_failed last)
  try_commands (c ∷ rest) last =
      check_or (λ e. try_commands rest (some e)) (perform env (run c)) done

  unfoldable pub shutdown_via_command : M Trace Err
  shutdown_via_command = try_commands shutdown_commands none

  -- Each method is tried only if those before it failed.
  unfoldable pub shutdown_vm : M Trace Err
  shutdown_vm =
      check_or
        (λ _.
          check_or (λ _. check_or (λ _. shutdown_via_command) shutdown_via_power_state done)
            shutdown_via_sysrq done)
        shutdown_via_syscall done

  unfoldable pub cleanup : RunnerConfig → M Trace Err
  cleanup config = ignoring (perform env (remove_all (install_path config))) (
      ignoring (perform env (remove_all (work_dir config))) (
        ignoring (perform env (sleep cleanup_delay_seconds))
          (check_or (λ _. done) shutdown_vm done)))
