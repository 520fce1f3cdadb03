-- ===== src/Api/Memory/Credentials.antt =====
-- HypervisorCredentials and TLSConfig in memory, with their deep copies.
use hyperfleet_controller.Base.{ℕ, Bool, refl}
use hyperfleet_controller.Api.Memory.{Pointer, Alloc, Copier, new_copy, pointer, Kubernetes}
use hyperfleet_controller.Api.Memory.Deep.{
  IsDeep, pointer-IsDeep, pair-IsDeep, struct-IsDeep, IsKubernetes,
}

module _ (K : Kubernetes) where
  pub record StoredHypervisorCredentials : Type 0 where
    pub token_id : Pointer K.SecretSelector
    pub token_secret : Pointer K.SecretSelector
    pub username : Pointer K.SecretSelector
    pub password : Pointer K.SecretSelector

  unfoldable pub into_hypervisor_credentials :
      StoredHypervisorCredentials → Alloc StoredHypervisorCredentials
  into_hypervisor_credentials x n =
      let (token_id, n₁) = new_copy K.secret_selector x.token_id n in
      let (token_secret, n₂) = new_copy K.secret_selector x.token_secret n₁ in
      let (username, n₃) = new_copy K.secret_selector x.username n₂ in
      let (password, n₄) = new_copy K.secret_selector x.password n₃ in
      (
        record x {
          token_id = token_id;
          token_secret = token_secret;
          username = username;
          password = password;
        },
        n₄,
      )

  unfoldable pub erase_hypervisor_credentials :
      StoredHypervisorCredentials → StoredHypervisorCredentials
  erase_hypervisor_credentials x = record x {
    token_id = (pointer K.secret_selector).erase x.token_id;
    token_secret = (pointer K.secret_selector).erase x.token_secret;
    username = (pointer K.secret_selector).erase x.username;
    password = (pointer K.secret_selector).erase x.password;
  }

  unfoldable pub HypervisorCredentialsRefs : (ℕ → Type 0) → StoredHypervisorCredentials → Type 0
  HypervisorCredentialsRefs P x =
      (pointer K.secret_selector).Refs P x.token_id
      × ((pointer K.secret_selector).Refs P x.token_secret
          × ((pointer K.secret_selector).Refs P x.username
              × ((pointer K.secret_selector).Refs P x.password)))

  abbrev pub hypervisor_credentials : Copier StoredHypervisorCredentials
  hypervisor_credentials = record {
    into = into_hypervisor_credentials;
    erase = erase_hypervisor_credentials;
    Refs = HypervisorCredentialsRefs;
  }

  abbrev pub deep_copy_hypervisor_credentials :
      Pointer StoredHypervisorCredentials → Alloc (Pointer StoredHypervisorCredentials)
  deep_copy_hypervisor_credentials = new_copy hypervisor_credentials

  pub record StoredTlsConfig : Type 0 where
    pub insecure_skip_verify : Bool
    pub ca_certificate : Pointer K.SecretSelector

  unfoldable pub into_tls_config : StoredTlsConfig → Alloc StoredTlsConfig
  into_tls_config x n =
      let (ca_certificate, n₁) = new_copy K.secret_selector x.ca_certificate n in
      (record x { ca_certificate = ca_certificate }, n₁)

  unfoldable pub erase_tls_config : StoredTlsConfig → StoredTlsConfig
  erase_tls_config x = record x {
    ca_certificate = (pointer K.secret_selector).erase x.ca_certificate;
  }

  unfoldable pub TlsConfigRefs : (ℕ → Type 0) → StoredTlsConfig → Type 0
  TlsConfigRefs P x = (pointer K.secret_selector).Refs P x.ca_certificate

  abbrev pub tls_config : Copier StoredTlsConfig
  tls_config = record { into = into_tls_config; erase = erase_tls_config; Refs = TlsConfigRefs }

  abbrev pub deep_copy_tls_config : Pointer StoredTlsConfig → Alloc (Pointer StoredTlsConfig)
  deep_copy_tls_config = new_copy tls_config

module _ (K : Kubernetes) (laws : IsKubernetes K) where
  pub hypervisor_credentials-IsDeep : IsDeep (hypervisor_credentials K)
  unfolding into_hypervisor_credentials erase_hypervisor_credentials HypervisorCredentialsRefs
  hypervisor_credentials-IsDeep =
      struct-IsDeep
        (pair-IsDeep (pointer-IsDeep K.secret_selector laws.secret_selector) (
          pair-IsDeep (pointer-IsDeep K.secret_selector laws.secret_selector) (
            pair-IsDeep (pointer-IsDeep K.secret_selector laws.secret_selector)
              (pointer-IsDeep K.secret_selector laws.secret_selector))))
        (hypervisor_credentials K) (λ x. (x.token_id, (x.token_secret, (x.username, x.password))))
        (λ x a. record x {
          token_id = a.0;
          token_secret = a.1.0;
          username = a.1.1.0;
          password = a.1.1.1;
        })
        (record {
          into = λ x n. refl;
          erase_set = λ x a. refl;
          erase = λ x. refl;
          refs_set = λ P x a h. h;
        })

  pub tls_config-IsDeep : IsDeep (tls_config K)
  unfolding into_tls_config erase_tls_config TlsConfigRefs
  tls_config-IsDeep =
      struct-IsDeep (pointer-IsDeep K.secret_selector laws.secret_selector) (tls_config K)
        (λ x. x.ca_certificate) (λ x a. record x { ca_certificate = a })
        (record {
          into = λ x n. refl;
          erase_set = λ x a. refl;
          erase = λ x. refl;
          refs_set = λ P x a h. h;
        })
