-- ===== src/Bootstrap/Config/Url.antt =====
-- Which release buildDownloadURL names.
use hyperfleet_controller.Base.{Text, text, ◌==◌, ◌≡◌, refl, ap, ◌∙◌, []}
use hyperfleet_controller.Bootstrap.Config.{
  RunnerConfig, Platform, default_download_url, get_os_arch, runner_os, runner_arch, release_url,
  build_download_url,
}

-- The release for a system and an architecture.
abbrev release_for : Text × Text → Text
release_for (os, arch) = release_url (runner_os os) (runner_arch arch)

build_download_url-release :
    (p : Platform) (config : RunnerConfig)
    → config.runner.download_url ≡ []
    → build_download_url p config ≡ release_for (get_os_arch p config)
unfolding build_download_url ◌==◌
build_download_url-release p config h = rw h refl

release_for-default : release_for (text "linux", text "amd64") ≡ default_download_url
unfolding release_url runner_os runner_arch text ◌==◌
release_for-default = refl

-- The default URL is that of the release for 64-bit Linux: a configuration without a download URL,
-- on a machine whose system and architecture are found to be `linux` and `amd64`, leads to it.
pub build_download_url-default :
    (p : Platform) (config : RunnerConfig)
    → config.runner.download_url ≡ []
    → get_os_arch p config ≡ (text "linux", text "amd64")
    → build_download_url p config ≡ default_download_url
build_download_url-default p config none found =
    build_download_url-release p config none ∙ ap release_for found ∙ release_for-default
