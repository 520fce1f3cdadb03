-- ===== src/Api/Memory/Bootstrap.antt =====
-- The bootstrap types of a template in memory, with their deep copies.
use hyperfleet_controller.Base.{ℕ, Text, refl}
use hyperfleet_controller.Api.Memory.{Pointer, Alloc, Copier, new_copy, pointer}
use hyperfleet_controller.Api.Memory.Deep.{IsDeep, pointer-IsDeep, struct-IsDeep}
use hyperfleet_controller.Api.Memory.GitHub.{
  StoredGitHubConfig, github_config, github_config-IsDeep,
}

pub record StoredBootstrapConfig : Type 0 where
  pub github : Pointer StoredGitHubConfig

unfoldable pub into_bootstrap_config : StoredBootstrapConfig → Alloc StoredBootstrapConfig
into_bootstrap_config x n =
    let (github, n₁) = new_copy github_config x.github n in (record x { github = github }, n₁)

unfoldable pub erase_bootstrap_config : StoredBootstrapConfig → StoredBootstrapConfig
erase_bootstrap_config x = record x { github = (pointer github_config).erase x.github }

unfoldable pub BootstrapConfigRefs : (ℕ → Type 0) → StoredBootstrapConfig → Type 0
BootstrapConfigRefs P x = (pointer github_config).Refs P x.github

abbrev pub bootstrap_config : Copier StoredBootstrapConfig
bootstrap_config = record {
  into = into_bootstrap_config;
  erase = erase_bootstrap_config;
  Refs = BootstrapConfigRefs;
}

abbrev pub deep_copy_bootstrap_config :
    Pointer StoredBootstrapConfig → Alloc (Pointer StoredBootstrapConfig)
deep_copy_bootstrap_config = new_copy bootstrap_config

pub record StoredBootstrapSpec : Type 0 where
  pub method : Text
  pub config : StoredBootstrapConfig

unfoldable pub into_bootstrap_spec : StoredBootstrapSpec → Alloc StoredBootstrapSpec
into_bootstrap_spec x n =
    let (config, n₁) = into_bootstrap_config x.config n in (record x { config = config }, n₁)

unfoldable pub erase_bootstrap_spec : StoredBootstrapSpec → StoredBootstrapSpec
erase_bootstrap_spec x = record x { config = bootstrap_config.erase x.config }

unfoldable pub BootstrapSpecRefs : (ℕ → Type 0) → StoredBootstrapSpec → Type 0
BootstrapSpecRefs P x = bootstrap_config.Refs P x.config

abbrev pub bootstrap_spec : Copier StoredBootstrapSpec
bootstrap_spec = record {
  into = into_bootstrap_spec;
  erase = erase_bootstrap_spec;
  Refs = BootstrapSpecRefs;
}

abbrev pub deep_copy_bootstrap_spec :
    Pointer StoredBootstrapSpec → Alloc (Pointer StoredBootstrapSpec)
deep_copy_bootstrap_spec = new_copy bootstrap_spec

pub bootstrap_config-IsDeep : IsDeep bootstrap_config
unfolding into_bootstrap_config erase_bootstrap_config BootstrapConfigRefs
bootstrap_config-IsDeep =
    struct-IsDeep (pointer-IsDeep github_config github_config-IsDeep) bootstrap_config
      (λ x. x.github) (λ x a. record x { github = a })
      (record {
        into = λ x n. refl;
        erase_set = λ x a. refl;
        erase = λ x. refl;
        refs_set = λ P x a h. h;
      })

pub bootstrap_spec-IsDeep : IsDeep bootstrap_spec
unfolding into_bootstrap_spec erase_bootstrap_spec BootstrapSpecRefs
bootstrap_spec-IsDeep =
    struct-IsDeep bootstrap_config-IsDeep bootstrap_spec (λ x. x.config)
      (λ x a. record x { config = a })
      (record {
        into = λ x n. refl;
        erase_set = λ x a. refl;
        erase = λ x. refl;
        refs_set = λ P x a h. h;
      })
