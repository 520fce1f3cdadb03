-- ===== src/Api/Memory/Flat.antt =====
-- The types without pointers: `*out = *in` copies them whole.
use hyperfleet_controller.Api.Meta.{ObjectReference, SecretKeySelector}
use hyperfleet_controller.Api.Template.{
  ProxmoxTemplateSpec, CloudInitSpec, DhcpConfig, GitHubAppConfig, ResourceRequirements,
  AttestationSpec, AttestationConfig,
}
use hyperfleet_controller.Api.Claims.{
  MachineClaimSpec, RunnerPoolSpec, MachineClaimStatus, RunnerPoolStatus,
}
use hyperfleet_controller.Api.Memory.{Pointer, Alloc, Copier, new_copy}

abbrev pub into_attestation_config : AttestationConfig → Alloc AttestationConfig
into_attestation_config x n = (x, n)

abbrev pub attestation_config : Copier AttestationConfig
attestation_config = record { into = into_attestation_config; erase = λ x. x; Refs = λ P x. Unit }

abbrev pub deep_copy_attestation_config :
    Pointer AttestationConfig → Alloc (Pointer AttestationConfig)
deep_copy_attestation_config = new_copy attestation_config

abbrev pub into_attestation_spec : AttestationSpec → Alloc AttestationSpec
into_attestation_spec x n = (record x { config = x.config }, n)

abbrev pub attestation_spec : Copier AttestationSpec
attestation_spec = record { into = into_attestation_spec; erase = λ x. x; Refs = λ P x. Unit }

abbrev pub deep_copy_attestation_spec : Pointer AttestationSpec → Alloc (Pointer AttestationSpec)
deep_copy_attestation_spec = new_copy attestation_spec

abbrev pub into_cloud_init_spec : CloudInitSpec → Alloc CloudInitSpec
into_cloud_init_spec x n = (x, n)

abbrev pub cloud_init_spec : Copier CloudInitSpec
cloud_init_spec = record { into = into_cloud_init_spec; erase = λ x. x; Refs = λ P x. Unit }

abbrev pub deep_copy_cloud_init_spec : Pointer CloudInitSpec → Alloc (Pointer CloudInitSpec)
deep_copy_cloud_init_spec = new_copy cloud_init_spec

abbrev pub into_dhcp_config : DhcpConfig → Alloc DhcpConfig
into_dhcp_config x n = (x, n)

abbrev pub dhcp_config : Copier DhcpConfig
dhcp_config = record { into = into_dhcp_config; erase = λ x. x; Refs = λ P x. Unit }

abbrev pub deep_copy_dhcp_config : Pointer DhcpConfig → Alloc (Pointer DhcpConfig)
deep_copy_dhcp_config = new_copy dhcp_config

abbrev pub into_github_app_config : GitHubAppConfig → Alloc GitHubAppConfig
into_github_app_config x n = (
  record x { app_id = x.app_id; private_key = x.private_key; installation_id = x.installation_id },
  n,
)

abbrev pub github_app_config : Copier GitHubAppConfig
github_app_config = record { into = into_github_app_config; erase = λ x. x; Refs = λ P x. Unit }

abbrev pub deep_copy_github_app_config : Pointer GitHubAppConfig → Alloc (Pointer GitHubAppConfig)
deep_copy_github_app_config = new_copy github_app_config

abbrev pub into_machine_claim_spec : MachineClaimSpec → Alloc MachineClaimSpec
into_machine_claim_spec x n = (x, n)

abbrev pub machine_claim_spec : Copier MachineClaimSpec
machine_claim_spec = record { into = into_machine_claim_spec; erase = λ x. x; Refs = λ P x. Unit }

abbrev pub deep_copy_machine_claim_spec :
    Pointer MachineClaimSpec → Alloc (Pointer MachineClaimSpec)
deep_copy_machine_claim_spec = new_copy machine_claim_spec

abbrev pub into_machine_claim_status : MachineClaimStatus → Alloc MachineClaimStatus
into_machine_claim_status x n = (x, n)

abbrev pub machine_claim_status : Copier MachineClaimStatus
machine_claim_status = record {
  into = into_machine_claim_status;
  erase = λ x. x;
  Refs = λ P x. Unit;
}

abbrev pub deep_copy_machine_claim_status :
    Pointer MachineClaimStatus → Alloc (Pointer MachineClaimStatus)
deep_copy_machine_claim_status = new_copy machine_claim_status

abbrev pub into_object_reference : ObjectReference → Alloc ObjectReference
into_object_reference x n = (x, n)

abbrev pub object_reference : Copier ObjectReference
object_reference = record { into = into_object_reference; erase = λ x. x; Refs = λ P x. Unit }

abbrev pub deep_copy_object_reference : Pointer ObjectReference → Alloc (Pointer ObjectReference)
deep_copy_object_reference = new_copy object_reference

abbrev pub into_proxmox_template_spec : ProxmoxTemplateSpec → Alloc ProxmoxTemplateSpec
into_proxmox_template_spec x n = (x, n)

abbrev pub proxmox_template_spec : Copier ProxmoxTemplateSpec
proxmox_template_spec = record {
  into = into_proxmox_template_spec;
  erase = λ x. x;
  Refs = λ P x. Unit;
}

abbrev pub deep_copy_proxmox_template_spec :
    Pointer ProxmoxTemplateSpec → Alloc (Pointer ProxmoxTemplateSpec)
deep_copy_proxmox_template_spec = new_copy proxmox_template_spec

abbrev pub into_resource_requirements : ResourceRequirements → Alloc ResourceRequirements
into_resource_requirements x n = (x, n)

abbrev pub resource_requirements : Copier ResourceRequirements
resource_requirements = record {
  into = into_resource_requirements;
  erase = λ x. x;
  Refs = λ P x. Unit;
}

abbrev pub deep_copy_resource_requirements :
    Pointer ResourceRequirements → Alloc (Pointer ResourceRequirements)
deep_copy_resource_requirements = new_copy resource_requirements

abbrev pub into_runner_pool_spec : RunnerPoolSpec → Alloc RunnerPoolSpec
into_runner_pool_spec x n = (x, n)

abbrev pub runner_pool_spec : Copier RunnerPoolSpec
runner_pool_spec = record { into = into_runner_pool_spec; erase = λ x. x; Refs = λ P x. Unit }

abbrev pub deep_copy_runner_pool_spec : Pointer RunnerPoolSpec → Alloc (Pointer RunnerPoolSpec)
deep_copy_runner_pool_spec = new_copy runner_pool_spec

abbrev pub into_runner_pool_status : RunnerPoolStatus → Alloc RunnerPoolStatus
into_runner_pool_status x n = (x, n)

abbrev pub runner_pool_status : Copier RunnerPoolStatus
runner_pool_status = record { into = into_runner_pool_status; erase = λ x. x; Refs = λ P x. Unit }

abbrev pub deep_copy_runner_pool_status :
    Pointer RunnerPoolStatus → Alloc (Pointer RunnerPoolStatus)
deep_copy_runner_pool_status = new_copy runner_pool_status

abbrev pub into_secret_key_selector : SecretKeySelector → Alloc SecretKeySelector
into_secret_key_selector x n = (x, n)

abbrev pub secret_key_selector : Copier SecretKeySelector
secret_key_selector = record { into = into_secret_key_selector; erase = λ x. x; Refs = λ P x. Unit }

abbrev pub deep_copy_secret_key_selector :
    Pointer SecretKeySelector → Alloc (Pointer SecretKeySelector)
deep_copy_secret_key_selector = new_copy secret_key_selector
