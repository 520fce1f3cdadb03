-- ===== src/Provider/Factory.antt =====
-- DefaultClientFactory (internal/provider/factory.go).
use hyperfleet_controller.Base.{
  Text, text, ◌==◌, to_lower, Option, ◌++◌, if◌then◌else◌, errorf, Result, err, M,
}
use hyperfleet_controller.Provider.{ClientConfig, AuthConfig, HypervisorClient, ClientFactory}
use hyperfleet_controller.Provider.Proxmox.{ProxmoxApi, new_proxmox_client}

module _ {W C : Type 0} (api : ProxmoxApi W C) where
  unfoldable pub default_create_client :
      Text → Option ClientConfig → Option AuthConfig → M W (Result (HypervisorClient W))
  default_create_client provider config auth w =
      if to_lower provider == text "proxmox"
      then new_proxmox_client api config auth w
      else (err (errorf (text "unsupported hypervisor provider: " ++ provider)), w)

  -- NewClientFactory
  unfoldable pub new_client_factory : ClientFactory W
  new_client_factory = record { create_client = default_create_client }
