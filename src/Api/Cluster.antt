-- ===== src/Api/Cluster.antt =====
-- HypervisorCluster (api/v1alpha1/hypervisorcluster_types.go).
use hyperfleet_controller.Base.{Text, Bool, ℤ, List, Option}
use hyperfleet_controller.Api.Meta.{Time, Condition, ObjectMeta, SecretSelector}

pub record HypervisorCredentials : Type 0 where
  pub token_id : Option SecretSelector
  pub token_secret : Option SecretSelector
  pub username : Option SecretSelector
  pub password : Option SecretSelector

pub record TlsConfig : Type 0 where
  pub insecure_skip_verify : Bool
  pub ca_certificate : Option SecretSelector

pub record DnsProviderCredentials : Type 0 where
  pub access_key_id : Option SecretSelector
  pub secret_access_key : Option SecretSelector
  pub api_token : Option SecretSelector

pub record DnsProviderConfig : Type 0 where
  pub type : Text
  pub credentials : DnsProviderCredentials

pub record DnsConfig : Type 0 where
  pub domain : Text
  pub servers : List Text
  pub register_vms : Bool
  pub dns_provider : Option DnsProviderConfig

pub record HypervisorClusterSpec : Type 0 where
  pub provider : Text
  pub endpoint : Text
  pub credentials : HypervisorCredentials
  pub tls : Option TlsConfig
  pub nodes : List Text
  pub default_storage : Text
  pub default_network : Text
  pub dns : Option DnsConfig
  pub tags : List (Text × Text)

-- The quantities are kept as their text.
pub record ResourceSummary : Type 0 where
  pub cpu : Option Text
  pub memory : Option Text
  pub storage : Option Text

pub record HypervisorClusterStatus : Type 0 where
  pub conditions : List Condition
  pub connected_nodes : ℤ
  pub available_resources : Option ResourceSummary
  pub last_sync_time : Option Time

pub record HypervisorCluster : Type 0 where
  pub meta : ObjectMeta
  pub spec : HypervisorClusterSpec
  pub status : HypervisorClusterStatus
