-- ===== src/Api/Memory/ClusterSpec.antt =====
-- HypervisorClusterSpec in memory, with its deep copy.
use hyperfleet_controller.Base.{ℕ, Text, refl}
use hyperfleet_controller.Api.Memory.{
  Pointer, Slice, Map, Alloc, Copier, flat, new_copy, copy_slice, copy_map, pointer, slice, map,
  Kubernetes,
}
use hyperfleet_controller.Api.Memory.Deep.{
  IsDeep, flat-IsDeep, pointer-IsDeep, slice-IsDeep, map-IsDeep, pair-IsDeep, struct-IsDeep,
  IsKubernetes,
}
use hyperfleet_controller.Api.Memory.Credentials.{
  StoredHypervisorCredentials, into_hypervisor_credentials, hypervisor_credentials,
  hypervisor_credentials-IsDeep, StoredTlsConfig, tls_config, tls_config-IsDeep,
}
use hyperfleet_controller.Api.Memory.Dns.{StoredDnsConfig, dns_config, dns_config-IsDeep}

module _ (K : Kubernetes) where
  pub record StoredHypervisorClusterSpec : Type 0 where
    pub provider : Text
    pub endpoint : Text
    pub credentials : StoredHypervisorCredentials K
    pub tls : Pointer (StoredTlsConfig K)
    pub nodes : Slice Text
    pub default_storage : Text
    pub default_network : Text
    pub dns : Pointer (StoredDnsConfig K)
    pub tags : Map

  unfoldable pub into_hypervisor_cluster_spec :
      StoredHypervisorClusterSpec → Alloc StoredHypervisorClusterSpec
  into_hypervisor_cluster_spec x n =
      let (credentials, n₁) = into_hypervisor_credentials K x.credentials n in
      let (tls, n₂) = new_copy (tls_config K) x.tls n₁ in
      let (nodes, n₃) = copy_slice (flat Text) x.nodes n₂ in
      let (dns, n₄) = new_copy (dns_config K) x.dns n₃ in
      let (tags, n₅) = copy_map x.tags n₄ in
      (record x { credentials = credentials; tls = tls; nodes = nodes; dns = dns; tags = tags }, n₅)

  unfoldable pub erase_hypervisor_cluster_spec :
      StoredHypervisorClusterSpec → StoredHypervisorClusterSpec
  erase_hypervisor_cluster_spec x = record x {
    credentials = (hypervisor_credentials K).erase x.credentials;
    tls = (pointer (tls_config K)).erase x.tls;
    nodes = (slice (flat Text)).erase x.nodes;
    dns = (pointer (dns_config K)).erase x.dns;
    tags = map.erase x.tags;
  }

  unfoldable pub HypervisorClusterSpecRefs : (ℕ → Type 0) → StoredHypervisorClusterSpec → Type 0
  HypervisorClusterSpecRefs P x =
      (hypervisor_credentials K).Refs P x.credentials
      × ((pointer (tls_config K)).Refs P x.tls
          × ((slice (flat Text)).Refs P x.nodes
              × ((pointer (dns_config K)).Refs P x.dns × (map.Refs P x.tags))))

  abbrev pub hypervisor_cluster_spec : Copier StoredHypervisorClusterSpec
  hypervisor_cluster_spec = record {
    into = into_hypervisor_cluster_spec;
    erase = erase_hypervisor_cluster_spec;
    Refs = HypervisorClusterSpecRefs;
  }

  abbrev pub deep_copy_hypervisor_cluster_spec :
      Pointer StoredHypervisorClusterSpec → Alloc (Pointer StoredHypervisorClusterSpec)
  deep_copy_hypervisor_cluster_spec = new_copy hypervisor_cluster_spec

module _ (K : Kubernetes) (laws : IsKubernetes K) where
  pub hypervisor_cluster_spec-IsDeep : IsDeep (hypervisor_cluster_spec K)
  unfolding into_hypervisor_cluster_spec erase_hypervisor_cluster_spec HypervisorClusterSpecRefs
  hypervisor_cluster_spec-IsDeep =
      struct-IsDeep
        (pair-IsDeep (hypervisor_credentials-IsDeep K laws) (
          pair-IsDeep (pointer-IsDeep (tls_config K) (tls_config-IsDeep K laws)) (
            pair-IsDeep (slice-IsDeep (flat Text) (flat-IsDeep Text))
              (pair-IsDeep (pointer-IsDeep (dns_config K) (dns_config-IsDeep K laws)) map-IsDeep))))
        (hypervisor_cluster_spec K) (λ x. (x.credentials, (x.tls, (x.nodes, (x.dns, x.tags)))))
        (λ x a. record x {
          credentials = a.0;
          tls = a.1.0;
          nodes = a.1.1.0;
          dns = a.1.1.1.0;
          tags = a.1.1.1.1;
        })
        (record {
          into = λ x n. refl;
          erase_set = λ x a. refl;
          erase = λ x. refl;
          refs_set = λ P x a h. h;
        })
