-- ===== src/Bootstrap/Config.antt =====
-- The configuration of the bootstrap service, its defaults and the download URL
-- (cmd/bootstrap-service/main.go).
pub mod Url
use hyperfleet_controller.Base.{ℕ, Text, text, ◌==◌, Bool, List, [], ◌++◌, if◌then◌else◌}

abbrev pub default_download_url : Text
default_download_url =
    text
      "https://github.com/actions/runner/releases/download/v2.311.0/actions-runner-linux-x64-2.311.0.tar.gz"

abbrev pub default_install_path : Text
default_install_path = text "/tmp/hyperfleet"

abbrev pub default_work_dir : Text
default_work_dir = text "/tmp/hyperfleet-work"

abbrev pub default_config_path : Text
default_config_path = text "/etc/hyperfleet/runner-config.json"

abbrev pub default_config_script : Text
default_config_script = text "config.sh"

abbrev pub default_run_script : Text
default_run_script = text "run.sh"

abbrev pub dir_permissions : ℕ
dir_permissions = 0o755

abbrev pub cleanup_delay_seconds : ℕ
cleanup_delay_seconds = 2

abbrev pub runner_token_method : Text
runner_token_method = text "runner-token"

abbrev pub join_token_method : Text
join_token_method = text "join-token"

pub record Runner : Type 0 where
  pub download_url : Text
  pub install_path : Text
  pub work_dir : Text
  pub config_script : Text
  pub run_script : Text
  pub os : Text
  pub arch : Text

pub record Spiffe : Type 0 where
  pub join_token : Text
  pub spiffe_id : Text
  pub enabled : Bool

pub record RunnerConfig : Type 0 where
  pub method : Text
  pub platform : Text
  pub runner_token : Text
  pub registration_url : Text
  pub runner_name : Text
  pub labels : List Text
  pub expires_at : Text
  pub runner : Runner
  pub spiffe : Spiffe

-- `if value == "" { value = fallback }`
abbrev pub or_default : Text → Text → Text
or_default value fallback = if value == [] then fallback else value

unfoldable pub install_path : RunnerConfig → Text
install_path config = or_default config.runner.install_path default_install_path

unfoldable pub work_dir : RunnerConfig → Text
work_dir config = or_default config.runner.work_dir default_work_dir

unfoldable pub config_script : RunnerConfig → Text
config_script config = or_default config.runner.config_script default_config_script

unfoldable pub run_script : RunnerConfig → Text
run_script config = or_default config.runner.run_script default_run_script

-- What the process is given: its environment variables and the platform of the build.
pub record Platform : Type 0 where
  pub getenv : Text → Text
  pub goos : Text
  pub goarch : Text

-- getOSArch
unfoldable pub get_os_arch : Platform → RunnerConfig → Text × Text
get_os_arch p config = (
  or_default config.runner.os (or_default (p.getenv (text "GOOS")) p.goos),
  or_default config.runner.arch (or_default (p.getenv (text "GOARCH")) p.goarch),
)

-- archMap, with its fallback
unfoldable pub runner_arch : Text → Text
runner_arch arch =
    if arch == text "amd64"
    then text "x64"
    else if arch == text "arm64"
    then text "arm64"
    else if arch == text "386"
    then text "x86"
    else arch

-- osMap, with its fallback
unfoldable pub runner_os : Text → Text
runner_os os =
    if os == text "linux"
    then text "linux"
    else if os == text "darwin"
    then text "osx"
    else if os == text "windows"
    then text "win"
    else os

-- The file name and the URL, from GitHub's names of the platform.
unfoldable pub release_url : Text → Text → Text
release_url os arch =
    text "https://github.com/actions/runner/releases/download/"
    ++ (text "v2.311.0"
        ++ (text "/"
            ++ (text "actions-runner-"
                ++ (os
                    ++ (text "-" ++ (arch ++ (text "-" ++ (text "2.311.0" ++ text ".tar.gz"))))))))

-- buildDownloadURL
unfoldable pub build_download_url : Platform → RunnerConfig → Text
unfolding get_os_arch runner_os runner_arch release_url
build_download_url p config =
    if config.runner.download_url == []
    then (let (os, arch) = get_os_arch p config in release_url (runner_os os) (runner_arch arch))
    else config.runner.download_url
