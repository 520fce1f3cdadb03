-- ===== src/Bootstrap/Process/Calls.antt =====
-- How many calls the service makes at most.
use hyperfleet_controller.Base.{
  ℕ, ◌+◌, ◌*◌, ◌≤◌, length, Text, none, some, List, [], ◌∷◌, arith, Err, fail, nat_eq, Costs,
  Costs-pure, Costs-done, Costs-fail, Costs-more, Costs-check_or, Costs-check, Costs-ignoring,
  Costs-deferring, Costs-if,
}
use hyperfleet_controller.Bootstrap.Config.{RunnerConfig, build_download_url}
use hyperfleet_controller.Bootstrap.System.{
  Call, Command, Trace, Typeflag, type_dir, type_reg, type_other, Header, Response, Env, perform,
  close_gzip, close_body,
}
use hyperfleet_controller.Bootstrap.Archive.{
  copy_and_close, extract_file, extract_at, extract_entry, extract, is_refused,
}
use hyperfleet_controller.Bootstrap.Download.{read_response, download_github_runner}
use hyperfleet_controller.Bootstrap.Runner.{configure_runner, run_and_monitor}
use hyperfleet_controller.Bootstrap.Shutdown.{
  shutdown_via_syscall, shutdown_via_sysrq, shutdown_via_power_state, try_commands,
  shutdown_via_command, shutdown_commands, shutdown_vm, cleanup,
}
use hyperfleet_controller.Bootstrap.Process.{run_bootstrap}

module _ (env : Env) where
  one_call : (call : Call) → Costs 1 (perform env call)
  unfolding perform length
  one_call call = record { bound = λ t. omega arith }

  copy_and_close-Costs : (target content : Text) → Costs 2 (copy_and_close env target content)
  unfolding copy_and_close
  copy_and_close-Costs target content =
      Costs-check_or 1 1 _ _ _ (λ e. Costs-ignoring 1 0 _ _ (one_call _) (Costs-fail 0 _))
        (one_call _) (Costs-check 1 0 _ _ _ (one_call _) (Costs-done 0))

  extract_at-Costs :
      (target : Text) (header : Header) (flag : Typeflag)
      → Costs 4 (extract_at env target header flag)
  unfolding extract_at extract_file
  extract_at-Costs target header type_dir =
      Costs-more 1 4 _ (omega arith) (Costs-check 1 0 _ _ _ (one_call _) (Costs-done 0))
  extract_at-Costs target header type_reg =
      Costs-check 1 3 _ _ _ (one_call _)
        (Costs-check 1 2 _ _ _ (one_call _) (copy_and_close-Costs target header.content))
  extract_at-Costs target header (type_other flag) = Costs-done 4

  module _ (base : Text) where
    extract_entry-Costs : (header : Header) → Costs 4 (extract_entry env base header)
    unfolding extract_entry
    extract_entry-Costs header =
        Costs-if 4 (is_refused base header.name) _ _ (Costs-fail 4 _)
          (extract_at-Costs _ header header.typeflag)

    extract-Costs :
        (entries : List Header) (tar_error : Err)
        → Costs (4 * length entries) (extract env base entries tar_error)
    unfolding extract length
    extract-Costs [] none = Costs-done 0
    extract-Costs [] (some e) = Costs-fail 0 _
    extract-Costs (header ∷ rest) tar_error = Costs-more (4 + 4 * length rest) _ _ (omega arith) (
        Costs-check_or 4 (4 * length rest) fail _ _ (Costs-fail _) (extract_entry-Costs header)
          (extract-Costs rest tar_error))

    read_response-Costs :
        (response : Response)
        → Costs (1 + 4 * length response.entries) (read_response env base response)
    unfolding read_response
    read_response-Costs response =
        let n = 4 * length response.entries in
        Costs-if (1 + n) (nat_eq response.status_code 200) _ _
          (Costs-more (0 + (1 + n)) (1 + n) _ (omega arith) (
            Costs-check 0 (1 + n) _ _ _ (Costs-pure 0 response.gzip_error) (
              Costs-deferring 1 n _ _ (one_call close_gzip)
                (extract-Costs response.entries response.tar_error))))
          (Costs-fail (1 + n) _)

  shutdown_via_syscall-Costs : Costs 2 (shutdown_via_syscall env)
  unfolding shutdown_via_syscall
  shutdown_via_syscall-Costs =
      Costs-ignoring 1 1 _ _ (one_call _) (Costs-check 1 0 _ _ _ (one_call _) (Costs-done 0))

  shutdown_via_sysrq-Costs : Costs 3 (shutdown_via_sysrq env)
  unfolding shutdown_via_sysrq
  shutdown_via_sysrq-Costs =
      Costs-check 1 2 _ _ _ (one_call _)
        (Costs-deferring 1 1 _ _ (one_call _) (Costs-check 1 0 _ _ _ (one_call _) (Costs-done 0)))

  shutdown_via_power_state-Costs : Costs 6 (shutdown_via_power_state env)
  unfolding shutdown_via_power_state
  shutdown_via_power_state-Costs = Costs-check 1 5 _ _ _ (one_call _) (
      Costs-deferring 1 4 _ _ (one_call _) (
        Costs-ignoring 1 3 _ _ (one_call _) (
          Costs-check 1 2 _ _ _ (one_call _) (
            Costs-deferring 1 1 _ _ (one_call _)
              (Costs-check 1 0 _ _ _ (one_call _) (Costs-done 0))))))

  try_commands-Costs :
      (commands : List Command) (last : Err)
      → Costs (length commands) (try_commands env commands last)
  unfolding try_commands length
  try_commands-Costs [] last = Costs-fail 0 _
  try_commands-Costs (c ∷ rest) last = Costs-more (1 + length rest) _ _ (omega arith) (
      Costs-check_or 1 (length rest) _ _ _ (λ e. try_commands-Costs rest (some e)) (one_call _)
        (Costs-done _))

  shutdown_via_command-Costs : Costs 8 (shutdown_via_command env)
  unfolding shutdown_via_command length
  shutdown_via_command-Costs = try_commands-Costs shutdown_commands none

  shutdown_vm-Costs : Costs 19 (shutdown_vm env)
  unfolding shutdown_vm
  shutdown_vm-Costs =
      Costs-check_or 2 17 _ _ _
        (λ _.
          Costs-check_or 3 14 _ _ _
            (λ _.
              Costs-check_or 6 8 _ _ _ (λ _. shutdown_via_command-Costs)
                shutdown_via_power_state-Costs (Costs-done 8))
            shutdown_via_sysrq-Costs (Costs-done 14))
        shutdown_via_syscall-Costs (Costs-done 17)

  module _ (config : RunnerConfig) where
    cleanup-Costs : Costs 22 (cleanup env config)
    unfolding cleanup
    cleanup-Costs = Costs-ignoring 1 21 _ _ (one_call _) (
        Costs-ignoring 1 20 _ _ (one_call _) (
          Costs-ignoring 1 19 _ _ (one_call _)
            (Costs-check_or 19 0 _ _ _ (λ _. Costs-done 0) shutdown_vm-Costs (Costs-done 0))))

    module _ (n : ℕ)
        (few : (t : Trace) (url : Text) → length (env.response t url).entries ≤ n) where
      download-Costs : Costs (4 + 4 * n) (download_github_runner env config)
      unfolding download_github_runner
      download-Costs = Costs-more (1 + (0 + (1 + (1 + (1 + 4 * n))))) (4 + 4 * n) _ (omega arith) (
          Costs-check 1 _ _ _ _ (one_call _) (
            Costs-check 0 _ _ _ _ (Costs-pure 0 (env.new_request _)) (
              Costs-check 1 _ _ _ _ (one_call _) (record {
                bound = λ t.
                    let url = build_download_url env.platform config in
                    let size = few t url in
                    (Costs-deferring 1 (1 + 4 * n) _ _ (one_call close_body) (
                        Costs-more (1 + 4 * length (env.response t url).entries) (1 + 4 * n) _
                          (omega arith) (read_response-Costs _ (env.response t url)))).bound
                      t;
              }))))

      -- Where no archive has more than n entries, Run makes at most 28 + 4 n calls, whatever they
      -- return.
      pub run_bootstrap-Costs : Costs (28 + 4 * n) (run_bootstrap env config)
      unfolding run_bootstrap configure_runner run_and_monitor
      run_bootstrap-Costs = Costs-more ((4 + 4 * n) + 24) (28 + 4 * n) _ (omega arith) (
          Costs-check (4 + 4 * n) 24 _ _ _ download-Costs (
            Costs-check 1 23 _ _ _ (one_call _)
              (Costs-check 1 22 _ _ _ (one_call _) cleanup-Costs)))
