-- ===== src/Bootstrap/Adapters.antt =====
-- The adapters of the operating system (cmd/bootstrap-service/implementations.go), over Go's
-- standard library.
use hyperfleet_controller.Base.{
  ℕ, suc, ◌-◌, ◌*◌, ◌%◌, ◌^◌, ◌≤◌, Text, ◌≡◌, ◌↔◌, List, [], Option, none, some, arith, Err, Result,
  M, ℤ, pos, negsuc, if◌then◌else◌, leb,
}

-- An int64 from its bits.
unfoldable pub int64 : ℕ → ℤ
int64 n =
    let bits = n % 2 ^ 64 in if leb bits (2 ^ 63 - 1) then pos bits else negsuc (2 ^ 64 - 1 - bits)

-- time.Second, in nanoseconds
abbrev pub second : ℕ
second = 1000000000

-- `time.Duration(duration) * time.Second`, with the wrap-around of int64
unfoldable pub sleep_nanoseconds : ℤ → ℤ
sleep_nanoseconds (pos n) = int64 (n * second)
sleep_nanoseconds (negsuc n) = int64 (2 ^ 64 - suc n * second % 2 ^ 64)

-- exec.Cmd, with the fields that are set. A stream is known by its name.
pub record Cmd : Type 0 where
  pub name : Text
  pub args : List Text
  pub dir : Text
  pub stdout : Option Text
  pub stderr : Option Text

-- CommandContext, and the setters of RealCommand.
unfoldable pub command_context : Text → List Text → Cmd
command_context name args = record {
  name = name;
  args = args;
  dir = [];
  stdout = none;
  stderr = none;
}

unfoldable pub set_dir : Text → Cmd → Cmd
set_dir dir cmd = record cmd { dir = dir }

unfoldable pub set_stdout : Text → Cmd → Cmd
set_stdout stdout cmd = record cmd { stdout = some stdout }

unfoldable pub set_stderr : Text → Cmd → Cmd
set_stderr stderr cmd = record cmd { stderr = some stderr }

-- What the adapters call: the packages os, os/exec, syscall, time, net/http and log. A file is
-- of type `F`; one that is an io.StringWriter has its own WriteString. A timeout and a pause are in
-- nanoseconds.
pub record Standard (W F Q R : Type 0) : Type 0 where
  pub send : ℤ → Q → M W (Result R)
  pub mkdir_all : Text → ℕ → M W Err
  pub remove_all : Text → M W Err
  pub open_file : Text → ℕ → ℕ → M W (Result F)
  pub string_writer : F → Option (Text → M W (Result ℕ))
  pub write : F → Text → M W (Result ℕ)
  pub run : Cmd → M W Err
  pub sync : W → W
  pub reboot : ℕ → M W Err
  pub sleep : ℤ → W → W
  pub print : Text → Text → W → W

pub record RealHttpClient : Type 0 where
  pub timeout : ℤ

pub record RealLogger : Type 0 where
  pub prefix : Text

unfoldable pub new_real_http_client : ℤ → RealHttpClient
new_real_http_client timeout = record { timeout = timeout }

unfoldable pub new_real_logger : Text → RealLogger
new_real_logger prefix = record { prefix = prefix }

module _ {W F Q R : Type 0} (lib : Standard W F Q R) where
  unfoldable pub http_do : RealHttpClient → Q → M W (Result R)
  http_do client request = lib.send client.timeout request

  unfoldable pub fs_mkdir_all : Text → ℕ → M W Err
  fs_mkdir_all path perm = lib.mkdir_all path perm

  unfoldable pub fs_remove_all : Text → M W Err
  fs_remove_all path = lib.remove_all path

  unfoldable pub fs_open_file : Text → ℕ → ℕ → M W (Result F)
  fs_open_file name flag perm = lib.open_file name flag perm

  unfoldable pub fs_write_string : F → Text → M W (Result ℕ)
  fs_write_string file content = elim (lib.string_writer file) [
    | some write_string ↦ write_string content
    | none ↦ lib.write file content
  ]

  unfoldable pub command_run : Cmd → M W Err
  command_run cmd = lib.run cmd

  unfoldable pub system_sync : W → W
  system_sync w = lib.sync w

  unfoldable pub system_reboot : ℕ → M W Err
  system_reboot cmd = lib.reboot cmd

  unfoldable pub system_sleep : ℤ → W → W
  system_sleep duration = lib.sleep (sleep_nanoseconds duration)

  unfoldable pub logger_printf : RealLogger → Text → W → W
  logger_printf logger line = lib.print logger.prefix line

-- The pause of Sleep is the number of seconds that is asked for, in nanoseconds, exactly if this
-- number is at most 9223372036: above it the product wraps around.
pub sleep_nanoseconds-exact :
    (n : ℕ) → (sleep_nanoseconds (pos n) ≡ pos (n * second)) ↔ (n ≤ 9223372036)
unfolding sleep_nanoseconds int64
sleep_nanoseconds-exact n = ground arith
