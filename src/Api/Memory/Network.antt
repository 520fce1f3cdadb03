-- ===== src/Api/Memory/Network.antt =====
-- NetworkSpec and TemplateSpec in memory, with their deep copies.
use hyperfleet_controller.Base.{ℕ, Text, refl}
use hyperfleet_controller.Api.Template.{ProxmoxTemplateSpec, DhcpConfig}
use hyperfleet_controller.Api.Memory.{
  Pointer, Slice, Alloc, Copier, flat, new_copy, copy_slice, pointer, slice,
}
use hyperfleet_controller.Api.Memory.Deep.{
  IsDeep, flat-IsDeep, pointer-IsDeep, slice-IsDeep, pair-IsDeep, struct-IsDeep,
}

pub record StoredStaticNetworkConfig : Type 0 where
  pub ip : Text
  pub gateway : Text
  pub dns : Slice Text

unfoldable pub into_static_network_config :
    StoredStaticNetworkConfig → Alloc StoredStaticNetworkConfig
into_static_network_config x n =
    let (dns, n₁) = copy_slice (flat Text) x.dns n in (record x { dns = dns }, n₁)

unfoldable pub erase_static_network_config : StoredStaticNetworkConfig → StoredStaticNetworkConfig
erase_static_network_config x = record x { dns = (slice (flat Text)).erase x.dns }

unfoldable pub StaticNetworkConfigRefs : (ℕ → Type 0) → StoredStaticNetworkConfig → Type 0
StaticNetworkConfigRefs P x = (slice (flat Text)).Refs P x.dns

abbrev pub static_network_config : Copier StoredStaticNetworkConfig
static_network_config = record {
  into = into_static_network_config;
  erase = erase_static_network_config;
  Refs = StaticNetworkConfigRefs;
}

abbrev pub deep_copy_static_network_config :
    Pointer StoredStaticNetworkConfig → Alloc (Pointer StoredStaticNetworkConfig)
deep_copy_static_network_config = new_copy static_network_config

pub record StoredNetworkSpec : Type 0 where
  pub mode : Text
  pub static_config : Pointer StoredStaticNetworkConfig
  pub dhcp : Pointer DhcpConfig

unfoldable pub into_network_spec : StoredNetworkSpec → Alloc StoredNetworkSpec
into_network_spec x n =
    let (static_config, n₁) = new_copy static_network_config x.static_config n in
    let (dhcp, n₂) = new_copy (flat DhcpConfig) x.dhcp n₁ in
    (record x { static_config = static_config; dhcp = dhcp }, n₂)

unfoldable pub erase_network_spec : StoredNetworkSpec → StoredNetworkSpec
erase_network_spec x = record x {
  static_config = (pointer static_network_config).erase x.static_config;
  dhcp = (pointer (flat DhcpConfig)).erase x.dhcp;
}

unfoldable pub NetworkSpecRefs : (ℕ → Type 0) → StoredNetworkSpec → Type 0
NetworkSpecRefs P x =
    (pointer static_network_config).Refs P x.static_config
    × ((pointer (flat DhcpConfig)).Refs P x.dhcp)

abbrev pub network_spec : Copier StoredNetworkSpec
network_spec = record {
  into = into_network_spec;
  erase = erase_network_spec;
  Refs = NetworkSpecRefs;
}

abbrev pub deep_copy_network_spec : Pointer StoredNetworkSpec → Alloc (Pointer StoredNetworkSpec)
deep_copy_network_spec = new_copy network_spec

pub record StoredTemplateSpec : Type 0 where
  pub proxmox : Pointer ProxmoxTemplateSpec

unfoldable pub into_template_spec : StoredTemplateSpec → Alloc StoredTemplateSpec
into_template_spec x n =
    let (proxmox, n₁) = new_copy (flat ProxmoxTemplateSpec) x.proxmox n in
    (record x { proxmox = proxmox }, n₁)

unfoldable pub erase_template_spec : StoredTemplateSpec → StoredTemplateSpec
erase_template_spec x = record x { proxmox = (pointer (flat ProxmoxTemplateSpec)).erase x.proxmox }

unfoldable pub TemplateSpecRefs : (ℕ → Type 0) → StoredTemplateSpec → Type 0
TemplateSpecRefs P x = (pointer (flat ProxmoxTemplateSpec)).Refs P x.proxmox

abbrev pub template_spec : Copier StoredTemplateSpec
template_spec = record {
  into = into_template_spec;
  erase = erase_template_spec;
  Refs = TemplateSpecRefs;
}

abbrev pub deep_copy_template_spec : Pointer StoredTemplateSpec → Alloc (Pointer StoredTemplateSpec)
deep_copy_template_spec = new_copy template_spec

pub static_network_config-IsDeep : IsDeep static_network_config
unfolding into_static_network_config erase_static_network_config StaticNetworkConfigRefs
static_network_config-IsDeep =
    struct-IsDeep (slice-IsDeep (flat Text) (flat-IsDeep Text)) static_network_config (λ x. x.dns)
      (λ x a. record x { dns = a })
      (record {
        into = λ x n. refl;
        erase_set = λ x a. refl;
        erase = λ x. refl;
        refs_set = λ P x a h. h;
      })

pub network_spec-IsDeep : IsDeep network_spec
unfolding into_network_spec erase_network_spec NetworkSpecRefs
network_spec-IsDeep =
    struct-IsDeep
      (pair-IsDeep (pointer-IsDeep static_network_config static_network_config-IsDeep)
        (pointer-IsDeep (flat DhcpConfig) (flat-IsDeep DhcpConfig)))
      network_spec (λ x. (x.static_config, x.dhcp))
      (λ x a. record x { static_config = a.0; dhcp = a.1 })
      (record {
        into = λ x n. refl;
        erase_set = λ x a. refl;
        erase = λ x. refl;
        refs_set = λ P x a h. h;
      })

pub template_spec-IsDeep : IsDeep template_spec
unfolding into_template_spec erase_template_spec TemplateSpecRefs
template_spec-IsDeep =
    struct-IsDeep (pointer-IsDeep (flat ProxmoxTemplateSpec) (flat-IsDeep ProxmoxTemplateSpec))
      template_spec (λ x. x.proxmox) (λ x a. record x { proxmox = a })
      (record {
        into = λ x n. refl;
        erase_set = λ x a. refl;
        erase = λ x. refl;
        refs_set = λ P x a h. h;
      })
