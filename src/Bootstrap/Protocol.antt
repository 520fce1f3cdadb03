-- ===== src/Bootstrap/Protocol.antt =====
-- The protocol of the calls of Run (cmd/bootstrap-service/main.go), as a step relation on phases.
pub mod Steps
pub mod Download
pub mod Shutdown
pub mod Run
use hyperfleet_controller.Base.{ℕ, Text, text, none, some, List, ◌∷◌, Error, Err}
use hyperfleet_controller.Bootstrap.Config.{
  RunnerConfig, install_path, work_dir, cleanup_delay_seconds, dir_permissions,
}
use hyperfleet_controller.Bootstrap.System.{
  Command, mkdir_all, remove_all, open_file, write_string, copy, close_file, http_get, close_body,
  close_gzip, sync, run, reboot, sleep, Event,
}
use hyperfleet_controller.Bootstrap.Archive.{create_flags}
use hyperfleet_controller.Bootstrap.Runner.{config_command, run_command}
use hyperfleet_controller.Bootstrap.Shutdown.{
  power_off, write_only, sysrq_file, power_state_file, disk_file, shutdown_commands,
}

-- What has been done, and which files are open. The machine is `off` behind a reboot call without
-- error, `power_requested` behind the SysRq trigger, `mode_set` behind the disk mode, which powers
-- nothing off, and `ordered` behind a command that returned nil.
pub data Phase : Type 0 where
  begun prepared receiving broken drained downloaded configured : Phase
  writing written unwritten : Text → Phase
  stopped : Phase
  finished uninstalled emptied waited synced : Phase
  not_rebooted sysrq_open sysrq_written sysrq_failed not_requested : Phase
  state_open state_closed disk_open disk_written disk_failed disk_done no_disk : Phase
  trying : List Command → Phase
  off power_requested mode_set ordered : Phase

module _ (config : RunnerConfig) where
  -- The download: an entry that fails breaks it, and then only what is open is closed.
  pub data DownloadStep : Phase → Event → Phase → Type 0 where
    prepare : DownloadStep begun (mkdir_all (install_path config) dir_permissions, none) prepared
    not_prepared :
        (e : Error)
        → DownloadStep begun (mkdir_all (install_path config) dir_permissions, some e) stopped
    respond : (url : Text) → DownloadStep prepared (http_get url, none) receiving
    not_responded : (url : Text) (e : Error) → DownloadStep prepared (http_get url, some e) stopped
    make : (p : Text) (mode : ℕ) → DownloadStep receiving (mkdir_all p mode, none) receiving
    not_made :
        (p : Text) (mode : ℕ) (e : Error) → DownloadStep receiving (mkdir_all p mode, some e) broken
    create :
        (p : Text) (mode : ℕ)
        → DownloadStep receiving (open_file p create_flags mode, none) (writing p)
    not_created :
        (p : Text) (mode : ℕ) (e : Error)
        → DownloadStep receiving (open_file p create_flags mode, some e) broken
    fill : (p content : Text) → DownloadStep (writing p) (copy p content, none) (written p)
    not_filled :
        (p content : Text) (e : Error)
        → DownloadStep (writing p) (copy p content, some e) (unwritten p)
    close : (p : Text) → DownloadStep (written p) (close_file p, none) receiving
    not_closed : (p : Text) (e : Error) → DownloadStep (written p) (close_file p, some e) broken
    abandon : (p : Text) (r : Err) → DownloadStep (unwritten p) (close_file p, r) broken
    end_archive : (r : Err) → DownloadStep receiving (close_gzip, r) drained
    end_broken : (r : Err) → DownloadStep broken (close_gzip, r) drained
    end_response : (r : Err) → DownloadStep drained (close_body, r) downloaded
    refuse_response : (r : Err) → DownloadStep receiving (close_body, r) downloaded

-- The shutdown: each method begins where the one before has failed.
pub data ShutdownStep : Phase → Event → Phase → Type 0 where
  flush : (r : Err) → ShutdownStep waited (sync, r) synced
  rebooted : ShutdownStep synced (reboot power_off, none) off
  reboot_fails : (e : Error) → ShutdownStep synced (reboot power_off, some e) not_rebooted
  open_sysrq : ShutdownStep not_rebooted (open_file sysrq_file write_only 0, none) sysrq_open
  no_sysrq :
      (e : Error)
      → ShutdownStep not_rebooted (open_file sysrq_file write_only 0, some e) not_requested
  request : ShutdownStep sysrq_open (write_string sysrq_file (text "o"), none) sysrq_written
  request_fails :
      (e : Error)
      → ShutdownStep sysrq_open (write_string sysrq_file (text "o"), some e) sysrq_failed
  close_sysrq : (r : Err) → ShutdownStep sysrq_written (close_file sysrq_file, r) power_requested
  abandon_sysrq : (r : Err) → ShutdownStep sysrq_failed (close_file sysrq_file, r) not_requested
  open_state : ShutdownStep not_requested (open_file power_state_file write_only 0, none) state_open
  no_state :
      (e : Error)
      → ShutdownStep not_requested
          (open_file power_state_file write_only 0, some e)
          (trying shutdown_commands)
  close_state : (r : Err) → ShutdownStep state_open (close_file power_state_file, r) state_closed
  open_disk : ShutdownStep state_closed (open_file disk_file write_only 0, none) disk_open
  disk_missing :
      (e : Error) → ShutdownStep state_closed (open_file disk_file write_only 0, some e) no_disk
  write_disk : ShutdownStep disk_open (write_string disk_file (text "shutdown"), none) disk_written
  not_written :
      (e : Error)
      → ShutdownStep disk_open (write_string disk_file (text "shutdown"), some e) disk_failed
  close_disk : (r : Err) → ShutdownStep disk_written (close_file disk_file, r) disk_done
  abandon_disk : (r : Err) → ShutdownStep disk_failed (close_file disk_file, r) no_disk
  close_state_again : (r : Err) → ShutdownStep disk_done (close_file power_state_file, r) mode_set
  abandon_state :
      (r : Err) → ShutdownStep no_disk (close_file power_state_file, r) (trying shutdown_commands)
  command_works :
      (c : Command) (rest : List Command) → ShutdownStep (trying (c ∷ rest)) (run c, none) ordered
  command_fails :
      (c : Command) (rest : List Command) (e : Error)
      → ShutdownStep (trying (c ∷ rest)) (run c, some e) (trying rest)

-- Run as a whole: the scripts behind a download, the cleanup behind both scripts.
pub data RunStep (config : RunnerConfig) : Phase → Event → Phase → Type 0 where
  download : {p q : Phase} {e : Event} → DownloadStep config p e q → RunStep config p e q
  configure : RunStep config downloaded (run (config_command config), none) configured
  not_configured :
      (e : Error) → RunStep config downloaded (run (config_command config), some e) stopped
  run_jobs : RunStep config configured (run (run_command config), none) finished
  not_run : (e : Error) → RunStep config configured (run (run_command config), some e) stopped
  uninstall : (r : Err) → RunStep config finished (remove_all (install_path config), r) uninstalled
  empty : (r : Err) → RunStep config uninstalled (remove_all (work_dir config), r) emptied
  wait : (r : Err) → RunStep config emptied (sleep cleanup_delay_seconds, r) waited
  shut_down : {p q : Phase} {e : Event} → ShutdownStep p e q → RunStep config p e q
