-- ===== src/Api/Memory/TemplateContent.antt =====
-- HypervisorMachineTemplateSpec in memory, with its deep copy.
use hyperfleet_controller.Base.{ℕ, refl}
use hyperfleet_controller.Api.Meta.{ObjectReference}
use hyperfleet_controller.Api.Template.{CloudInitSpec, ResourceRequirements, AttestationSpec}
use hyperfleet_controller.Api.Memory.{Pointer, Alloc, Copier, flat, new_copy, pointer}
use hyperfleet_controller.Api.Memory.Deep.{
  IsDeep, flat-IsDeep, pointer-IsDeep, pair-IsDeep, struct-IsDeep,
}
use hyperfleet_controller.Api.Memory.Bootstrap.{
  StoredBootstrapSpec, into_bootstrap_spec, bootstrap_spec, bootstrap_spec-IsDeep,
}
use hyperfleet_controller.Api.Memory.Network.{
  StoredNetworkSpec, into_network_spec, network_spec, network_spec-IsDeep, StoredTemplateSpec,
  into_template_spec, template_spec, template_spec-IsDeep,
}

pub record StoredHypervisorMachineTemplateSpec : Type 0 where
  pub hypervisor_cluster_ref : ObjectReference
  pub template : StoredTemplateSpec
  pub resources : ResourceRequirements
  pub attestation : AttestationSpec
  pub bootstrap : StoredBootstrapSpec
  pub network : StoredNetworkSpec
  pub cloud_init : Pointer CloudInitSpec

unfoldable pub into_hypervisor_machine_template_spec :
    StoredHypervisorMachineTemplateSpec → Alloc StoredHypervisorMachineTemplateSpec
into_hypervisor_machine_template_spec x n =
    let (template, n₁) = into_template_spec x.template n in
    let (bootstrap, n₂) = into_bootstrap_spec x.bootstrap n₁ in
    let (network, n₃) = into_network_spec x.network n₂ in
    let (cloud_init, n₄) = new_copy (flat CloudInitSpec) x.cloud_init n₃ in
    (
      record x {
        hypervisor_cluster_ref = x.hypervisor_cluster_ref;
        template = template;
        resources = x.resources;
        attestation = x.attestation;
        bootstrap = bootstrap;
        network = network;
        cloud_init = cloud_init;
      },
      n₄,
    )

unfoldable pub erase_hypervisor_machine_template_spec :
    StoredHypervisorMachineTemplateSpec → StoredHypervisorMachineTemplateSpec
erase_hypervisor_machine_template_spec x = record x {
  template = template_spec.erase x.template;
  bootstrap = bootstrap_spec.erase x.bootstrap;
  network = network_spec.erase x.network;
  cloud_init = (pointer (flat CloudInitSpec)).erase x.cloud_init;
}

unfoldable pub HypervisorMachineTemplateSpecRefs :
    (ℕ → Type 0) → StoredHypervisorMachineTemplateSpec → Type 0
HypervisorMachineTemplateSpecRefs P x =
    template_spec.Refs P x.template
    × (bootstrap_spec.Refs P x.bootstrap
        × (network_spec.Refs P x.network × ((pointer (flat CloudInitSpec)).Refs P x.cloud_init)))

abbrev pub hypervisor_machine_template_spec : Copier StoredHypervisorMachineTemplateSpec
hypervisor_machine_template_spec = record {
  into = into_hypervisor_machine_template_spec;
  erase = erase_hypervisor_machine_template_spec;
  Refs = HypervisorMachineTemplateSpecRefs;
}

abbrev pub deep_copy_hypervisor_machine_template_spec :
    Pointer StoredHypervisorMachineTemplateSpec
    → Alloc (Pointer StoredHypervisorMachineTemplateSpec)
deep_copy_hypervisor_machine_template_spec = new_copy hypervisor_machine_template_spec

pub hypervisor_machine_template_spec-IsDeep : IsDeep hypervisor_machine_template_spec
unfolding into_hypervisor_machine_template_spec erase_hypervisor_machine_template_spec
    HypervisorMachineTemplateSpecRefs
hypervisor_machine_template_spec-IsDeep =
    struct-IsDeep
      (pair-IsDeep template_spec-IsDeep (
        pair-IsDeep bootstrap_spec-IsDeep (
          pair-IsDeep network_spec-IsDeep
            (pointer-IsDeep (flat CloudInitSpec) (flat-IsDeep CloudInitSpec)))))
      hypervisor_machine_template_spec (λ x. (x.template, (x.bootstrap, (x.network, x.cloud_init))))
      (λ x a. record x {
        template = a.0;
        bootstrap = a.1.0;
        network = a.1.1.0;
        cloud_init = a.1.1.1;
      })
      (record {
        into = λ x n. refl;
        erase_set = λ x a. refl;
        erase = λ x. refl;
        refs_set = λ P x a h. h;
      })
