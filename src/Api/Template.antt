-- ===== src/Api/Template.antt =====
-- HypervisorMachineTemplate (api/v1alpha1/hypervisormachinetemplate_types.go).
use hyperfleet_controller.Base.{Text, Bool, ℤ, List, Option}
use hyperfleet_controller.Api.Meta.{Time, Condition, ObjectMeta, ObjectReference, SecretKeySelector}

pub record ProxmoxTemplateSpec : Type 0 where
  pub template_id : ℤ
  pub clone : Bool
  pub linked_clone : Bool

pub record TemplateSpec : Type 0 where
  pub proxmox : Option ProxmoxTemplateSpec

pub record ResourceRequirements : Type 0 where
  pub cpu : ℤ
  pub memory : Text
  pub disk : Text

pub record AttestationConfig : Type 0 where
  pub join_token_ttl : Text
  pub tpm_device : Text

pub record AttestationSpec : Type 0 where
  pub method : Text
  pub config : AttestationConfig

pub record GitHubAppConfig : Type 0 where
  pub app_id : SecretKeySelector
  pub private_key : SecretKeySelector
  pub installation_id : SecretKeySelector

pub record GitHubRunnerConfig : Type 0 where
  pub download_url : Text
  pub install_path : Text
  pub work_dir : Text
  pub labels : List Text

pub record GitHubConfig : Type 0 where
  pub app : Option GitHubAppConfig
  pub pat : Option SecretKeySelector
  pub url : Text
  pub runner : GitHubRunnerConfig

pub record BootstrapConfig : Type 0 where
  pub github : Option GitHubConfig

pub record BootstrapSpec : Type 0 where
  pub method : Text
  pub config : BootstrapConfig

pub record StaticNetworkConfig : Type 0 where
  pub ip : Text
  pub gateway : Text
  pub dns : List Text

pub record DhcpConfig : Type 0 where
  pub send_hostname : Bool
  pub request_static_lease : Bool
  pub client_identifier : Text

pub record NetworkSpec : Type 0 where
  pub mode : Text
  pub static_config : Option StaticNetworkConfig
  pub dhcp : Option DhcpConfig

pub record CloudInitSpec : Type 0 where
  pub user_data : Text
  pub meta_data : Text

pub record HypervisorMachineTemplateSpec : Type 0 where
  pub hypervisor_cluster_ref : ObjectReference
  pub template : TemplateSpec
  pub resources : ResourceRequirements
  pub attestation : AttestationSpec
  pub bootstrap : BootstrapSpec
  pub network : NetworkSpec
  pub cloud_init : Option CloudInitSpec

pub record HypervisorMachineTemplateStatus : Type 0 where
  pub conditions : List Condition
  pub template_available : Bool
  pub validation_status : Text
  pub last_validated : Option Time

pub record HypervisorMachineTemplate : Type 0 where
  pub meta : ObjectMeta
  pub spec : HypervisorMachineTemplateSpec
  pub status : HypervisorMachineTemplateStatus
