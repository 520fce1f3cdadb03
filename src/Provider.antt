-- ===== src/Provider.antt =====
-- The hypervisor clients: internal/provider.
pub mod Proxmox
pub mod Factory
pub mod Requests
pub mod Mock
pub mod Mocked
mod Tests
use hyperfleet_controller.Base.{ℕ, Text, Bool, List, Option, Err, Result, M}

-- ConnectionInfo
pub record ConnectionInfo : Type 0 where
  pub version : Text
  pub metadata : List (Text × Text)

-- tls.Config, with the one field that the program sets.
pub record TlsClientConfig : Type 0 where
  pub insecure_skip_verify : Bool

-- ClientConfig. The timeout is in seconds.
pub record ClientConfig : Type 0 where
  pub endpoint : Text
  pub tls_config : Option TlsClientConfig
  pub timeout : ℕ

-- AuthConfig
pub record AuthConfig : Type 0 where
  pub type : Text
  pub token_id : Text
  pub token_secret : Text
  pub username : Text
  pub password : Text

-- HypervisorClient and ClientFactory, over the state `W` of what lies outside. A nil pointer is
-- `none`.
pub record HypervisorClient (W : Type 0) : Type 0 where
  pub test_connection : M W (Result ConnectionInfo)
  pub close : M W Err

pub record ClientFactory (W : Type 0) : Type 0 where
  pub create_client :
      Text → Option ClientConfig → Option AuthConfig → M W (Result (HypervisorClient W))
