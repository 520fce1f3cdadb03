-- ===== src/Api/Memory/Dns.antt =====
-- DNSConfig in memory, with its deep copy.
use hyperfleet_controller.Base.{ℕ, Bool, Text, refl}
use hyperfleet_controller.Api.Memory.{
  Pointer, Slice, Alloc, Copier, flat, new_copy, copy_slice, pointer, slice, Kubernetes,
}
use hyperfleet_controller.Api.Memory.Deep.{
  IsDeep, flat-IsDeep, pointer-IsDeep, slice-IsDeep, pair-IsDeep, struct-IsDeep, IsKubernetes,
}
use hyperfleet_controller.Api.Memory.DnsProvider.{
  StoredDnsProviderConfig, dns_provider_config, dns_provider_config-IsDeep,
}

module _ (K : Kubernetes) where
  pub record StoredDnsConfig : Type 0 where
    pub domain : Text
    pub servers : Slice Text
    pub register_vms : Bool
    pub dns_provider : Pointer (StoredDnsProviderConfig K)

  unfoldable pub into_dns_config : StoredDnsConfig → Alloc StoredDnsConfig
  into_dns_config x n =
      let (servers, n₁) = copy_slice (flat Text) x.servers n in
      let (dns_provider, n₂) = new_copy (dns_provider_config K) x.dns_provider n₁ in
      (record x { servers = servers; dns_provider = dns_provider }, n₂)

  unfoldable pub erase_dns_config : StoredDnsConfig → StoredDnsConfig
  erase_dns_config x = record x {
    servers = (slice (flat Text)).erase x.servers;
    dns_provider = (pointer (dns_provider_config K)).erase x.dns_provider;
  }

  unfoldable pub DnsConfigRefs : (ℕ → Type 0) → StoredDnsConfig → Type 0
  DnsConfigRefs P x =
      (slice (flat Text)).Refs P x.servers
      × ((pointer (dns_provider_config K)).Refs P x.dns_provider)

  abbrev pub dns_config : Copier StoredDnsConfig
  dns_config = record { into = into_dns_config; erase = erase_dns_config; Refs = DnsConfigRefs }

  abbrev pub deep_copy_dns_config : Pointer StoredDnsConfig → Alloc (Pointer StoredDnsConfig)
  deep_copy_dns_config = new_copy dns_config

module _ (K : Kubernetes) (laws : IsKubernetes K) where
  pub dns_config-IsDeep : IsDeep (dns_config K)
  unfolding into_dns_config erase_dns_config DnsConfigRefs
  dns_config-IsDeep =
      struct-IsDeep
        (pair-IsDeep (slice-IsDeep (flat Text) (flat-IsDeep Text))
          (pointer-IsDeep (dns_provider_config K) (dns_provider_config-IsDeep K laws)))
        (dns_config K) (λ x. (x.servers, x.dns_provider))
        (λ x a. record x { servers = a.0; dns_provider = a.1 })
        (record {
          into = λ x n. refl;
          erase_set = λ x a. refl;
          erase = λ x. refl;
          refs_set = λ P x a h. h;
        })
