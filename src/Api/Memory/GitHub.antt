-- ===== src/Api/Memory/GitHub.antt =====
-- The GitHub types of a template in memory, with their deep copies.
use hyperfleet_controller.Base.{ℕ, Text, refl}
use hyperfleet_controller.Api.Meta.{SecretKeySelector}
use hyperfleet_controller.Api.Template.{GitHubAppConfig}
use hyperfleet_controller.Api.Memory.{
  Pointer, Slice, Alloc, Copier, flat, new_copy, copy_slice, pointer, slice,
}
use hyperfleet_controller.Api.Memory.Deep.{
  IsDeep, flat-IsDeep, pointer-IsDeep, slice-IsDeep, pair-IsDeep, struct-IsDeep,
}

pub record StoredGitHubRunnerConfig : Type 0 where
  pub download_url : Text
  pub install_path : Text
  pub work_dir : Text
  pub labels : Slice Text

unfoldable pub into_github_runner_config : StoredGitHubRunnerConfig → Alloc StoredGitHubRunnerConfig
into_github_runner_config x n =
    let (labels, n₁) = copy_slice (flat Text) x.labels n in (record x { labels = labels }, n₁)

unfoldable pub erase_github_runner_config : StoredGitHubRunnerConfig → StoredGitHubRunnerConfig
erase_github_runner_config x = record x { labels = (slice (flat Text)).erase x.labels }

unfoldable pub GitHubRunnerConfigRefs : (ℕ → Type 0) → StoredGitHubRunnerConfig → Type 0
GitHubRunnerConfigRefs P x = (slice (flat Text)).Refs P x.labels

abbrev pub github_runner_config : Copier StoredGitHubRunnerConfig
github_runner_config = record {
  into = into_github_runner_config;
  erase = erase_github_runner_config;
  Refs = GitHubRunnerConfigRefs;
}

abbrev pub deep_copy_github_runner_config :
    Pointer StoredGitHubRunnerConfig → Alloc (Pointer StoredGitHubRunnerConfig)
deep_copy_github_runner_config = new_copy github_runner_config

pub record StoredGitHubConfig : Type 0 where
  pub app : Pointer GitHubAppConfig
  pub pat : Pointer SecretKeySelector
  pub url : Text
  pub runner : StoredGitHubRunnerConfig

unfoldable pub into_github_config : StoredGitHubConfig → Alloc StoredGitHubConfig
into_github_config x n =
    let (app, n₁) = new_copy (flat GitHubAppConfig) x.app n in
    let (pat, n₂) = new_copy (flat SecretKeySelector) x.pat n₁ in
    let (runner, n₃) = into_github_runner_config x.runner n₂ in
    (record x { app = app; pat = pat; runner = runner }, n₃)

unfoldable pub erase_github_config : StoredGitHubConfig → StoredGitHubConfig
erase_github_config x = record x {
  app = (pointer (flat GitHubAppConfig)).erase x.app;
  pat = (pointer (flat SecretKeySelector)).erase x.pat;
  runner = github_runner_config.erase x.runner;
}

unfoldable pub GitHubConfigRefs : (ℕ → Type 0) → StoredGitHubConfig → Type 0
GitHubConfigRefs P x =
    (pointer (flat GitHubAppConfig)).Refs P x.app
    × ((pointer (flat SecretKeySelector)).Refs P x.pat × (github_runner_config.Refs P x.runner))

abbrev pub github_config : Copier StoredGitHubConfig
github_config = record {
  into = into_github_config;
  erase = erase_github_config;
  Refs = GitHubConfigRefs;
}

abbrev pub deep_copy_github_config : Pointer StoredGitHubConfig → Alloc (Pointer StoredGitHubConfig)
deep_copy_github_config = new_copy github_config

pub github_runner_config-IsDeep : IsDeep github_runner_config
unfolding into_github_runner_config erase_github_runner_config GitHubRunnerConfigRefs
github_runner_config-IsDeep =
    struct-IsDeep (slice-IsDeep (flat Text) (flat-IsDeep Text)) github_runner_config (λ x. x.labels)
      (λ x a. record x { labels = a })
      (record {
        into = λ x n. refl;
        erase_set = λ x a. refl;
        erase = λ x. refl;
        refs_set = λ P x a h. h;
      })

pub github_config-IsDeep : IsDeep github_config
unfolding into_github_config erase_github_config GitHubConfigRefs
github_config-IsDeep =
    struct-IsDeep
      (pair-IsDeep (pointer-IsDeep (flat GitHubAppConfig) (flat-IsDeep GitHubAppConfig)) (
        pair-IsDeep (pointer-IsDeep (flat SecretKeySelector) (flat-IsDeep SecretKeySelector))
          github_runner_config-IsDeep))
      github_config (λ x. (x.app, (x.pat, x.runner)))
      (λ x a. record x { app = a.0; pat = a.1.0; runner = a.1.1 })
      (record {
        into = λ x n. refl;
        erase_set = λ x a. refl;
        erase = λ x. refl;
        refs_set = λ P x a h. h;
      })
