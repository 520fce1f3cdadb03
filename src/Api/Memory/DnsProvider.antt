-- ===== src/Api/Memory/DnsProvider.antt =====
-- The DNS provider of a cluster in memory, with its deep copies.
use hyperfleet_controller.Base.{ℕ, Text, refl}
use hyperfleet_controller.Api.Memory.{Pointer, Alloc, Copier, new_copy, pointer, Kubernetes}
use hyperfleet_controller.Api.Memory.Deep.{
  IsDeep, pointer-IsDeep, pair-IsDeep, struct-IsDeep, IsKubernetes,
}

module _ (K : Kubernetes) where
  pub record StoredDnsProviderCredentials : Type 0 where
    pub access_key_id : Pointer K.SecretSelector
    pub secret_access_key : Pointer K.SecretSelector
    pub api_token : Pointer K.SecretSelector

  unfoldable pub into_dns_provider_credentials :
      StoredDnsProviderCredentials → Alloc StoredDnsProviderCredentials
  into_dns_provider_credentials x n =
      let (access_key_id, n₁) = new_copy K.secret_selector x.access_key_id n in
      let (secret_access_key, n₂) = new_copy K.secret_selector x.secret_access_key n₁ in
      let (api_token, n₃) = new_copy K.secret_selector x.api_token n₂ in
      (
        record x {
          access_key_id = access_key_id;
          secret_access_key = secret_access_key;
          api_token = api_token;
        },
        n₃,
      )

  unfoldable pub erase_dns_provider_credentials :
      StoredDnsProviderCredentials → StoredDnsProviderCredentials
  erase_dns_provider_credentials x = record x {
    access_key_id = (pointer K.secret_selector).erase x.access_key_id;
    secret_access_key = (pointer K.secret_selector).erase x.secret_access_key;
    api_token = (pointer K.secret_selector).erase x.api_token;
  }

  unfoldable pub DnsProviderCredentialsRefs : (ℕ → Type 0) → StoredDnsProviderCredentials → Type 0
  DnsProviderCredentialsRefs P x =
      (pointer K.secret_selector).Refs P x.access_key_id
      × ((pointer K.secret_selector).Refs P x.secret_access_key
          × ((pointer K.secret_selector).Refs P x.api_token))

  abbrev pub dns_provider_credentials : Copier StoredDnsProviderCredentials
  dns_provider_credentials = record {
    into = into_dns_provider_credentials;
    erase = erase_dns_provider_credentials;
    Refs = DnsProviderCredentialsRefs;
  }

  abbrev pub deep_copy_dns_provider_credentials :
      Pointer StoredDnsProviderCredentials → Alloc (Pointer StoredDnsProviderCredentials)
  deep_copy_dns_provider_credentials = new_copy dns_provider_credentials

  pub record StoredDnsProviderConfig : Type 0 where
    pub type : Text
    pub credentials : StoredDnsProviderCredentials

  unfoldable pub into_dns_provider_config : StoredDnsProviderConfig → Alloc StoredDnsProviderConfig
  into_dns_provider_config x n =
      let (credentials, n₁) = into_dns_provider_credentials x.credentials n in
      (record x { credentials = credentials }, n₁)

  unfoldable pub erase_dns_provider_config : StoredDnsProviderConfig → StoredDnsProviderConfig
  erase_dns_provider_config x = record x {
    credentials = dns_provider_credentials.erase x.credentials;
  }

  unfoldable pub DnsProviderConfigRefs : (ℕ → Type 0) → StoredDnsProviderConfig → Type 0
  DnsProviderConfigRefs P x = dns_provider_credentials.Refs P x.credentials

  abbrev pub dns_provider_config : Copier StoredDnsProviderConfig
  dns_provider_config = record {
    into = into_dns_provider_config;
    erase = erase_dns_provider_config;
    Refs = DnsProviderConfigRefs;
  }

  abbrev pub deep_copy_dns_provider_config :
      Pointer StoredDnsProviderConfig → Alloc (Pointer StoredDnsProviderConfig)
  deep_copy_dns_provider_config = new_copy dns_provider_config

module _ (K : Kubernetes) (laws : IsKubernetes K) where
  pub dns_provider_credentials-IsDeep : IsDeep (dns_provider_credentials K)
  unfolding into_dns_provider_credentials erase_dns_provider_credentials DnsProviderCredentialsRefs
  dns_provider_credentials-IsDeep =
      struct-IsDeep
        (pair-IsDeep (pointer-IsDeep K.secret_selector laws.secret_selector) (
          pair-IsDeep (pointer-IsDeep K.secret_selector laws.secret_selector)
            (pointer-IsDeep K.secret_selector laws.secret_selector)))
        (dns_provider_credentials K) (λ x. (x.access_key_id, (x.secret_access_key, x.api_token)))
        (λ x a. record x { access_key_id = a.0; secret_access_key = a.1.0; api_token = a.1.1 })
        (record {
          into = λ x n. refl;
          erase_set = λ x a. refl;
          erase = λ x. refl;
          refs_set = λ P x a h. h;
        })

  pub dns_provider_config-IsDeep : IsDeep (dns_provider_config K)
  unfolding into_dns_provider_config erase_dns_provider_config DnsProviderConfigRefs
  dns_provider_config-IsDeep =
      struct-IsDeep dns_provider_credentials-IsDeep (dns_provider_config K) (λ x. x.credentials)
        (λ x a. record x { credentials = a })
        (record {
          into = λ x n. refl;
          erase_set = λ x a. refl;
          erase = λ x. refl;
          refs_set = λ P x a h. h;
        })
