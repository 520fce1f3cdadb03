-- ===== src/Provider/Proxmox.antt =====
-- ProxmoxClient (internal/provider/proxmox.go), over the Proxmox library.
use hyperfleet_controller.Base.{
  ℕ, Text, text, ◌==◌, Option, none, some, [], ◌∷◌, ◌++◌, if◌then◌else◌, errorf, wrap, Err, Result,
  ok, err, M,
}
use hyperfleet_controller.Provider.{
  ConnectionInfo, TlsClientConfig, ClientConfig, AuthConfig, HypervisorClient,
}

-- github.com/Telmate/proxmox-api-go, as far as it is called: NewClient with the endpoint, the TLS
-- configuration and the timeout, SetAPIToken, Login, and GetVersion with String.
pub record ProxmoxApi (W C : Type 0) : Type 0 where
  pub new_client : Text → Option TlsClientConfig → ℕ → M W (Result C)
  pub set_api_token : C → Text → Text → W → W
  pub login : C → Text → Text → M W Err
  pub get_version : C → M W (Result Text)

module _ {W C : Type 0} (api : ProxmoxApi W C) where
  -- The request for the version, behind the authentication.
  unfoldable pub version_info : C → M W (Result ConnectionInfo)
  version_info client w =
      let (r, w') = api.get_version client w in
      elim r [
        | err e ↦ (err (wrap (text "failed to get Proxmox version") e), w')
        | ok version ↦ (
          ok (record {
            version = version;
            metadata = (text "provider", text "proxmox") ∷ (text "type", text "pve") ∷ [];
          }),
          w',
        )
      ]

  -- The case "password".
  unfoldable pub login_and_test : C → AuthConfig → M W (Result ConnectionInfo)
  login_and_test client auth w =
      let (r, w') = api.login client auth.username auth.password w in
      elim r [
        | some e ↦ (err (wrap (text "failed to login to Proxmox") e), w')
        | none ↦ version_info client w'
      ]

  unfoldable pub proxmox_test_connection : C → AuthConfig → M W (Result ConnectionInfo)
  proxmox_test_connection client auth w =
      if auth.type == text "token"
      then version_info client (api.set_api_token client auth.token_id auth.token_secret w)
      else if auth.type == text "password"
      then login_and_test client auth w
      else (err (errorf (text "unsupported authentication type: " ++ auth.type)), w)

  unfoldable pub proxmox_close : M W Err
  proxmox_close w = (none, w)

  -- A ProxmoxClient, as a HypervisorClient.
  unfoldable pub proxmox_client : C → AuthConfig → HypervisorClient W
  proxmox_client client auth = record {
    test_connection = proxmox_test_connection client auth;
    close = proxmox_close;
  }

  -- The call of the library in NewProxmoxClient.
  unfoldable pub create_proxmox_client :
      ClientConfig → AuthConfig → M W (Result (HypervisorClient W))
  create_proxmox_client config auth w =
      let (r, w') = api.new_client config.endpoint config.tls_config config.timeout w in
      elim r [
        | err e ↦ (err (wrap (text "failed to create Proxmox client") e), w')
        | ok client ↦ (ok (proxmox_client client auth), w')
      ]

  unfoldable pub new_proxmox_client :
      Option ClientConfig → Option AuthConfig → M W (Result (HypervisorClient W))
  new_proxmox_client none auth w = (err (errorf (text "client config is required")), w)
  new_proxmox_client (some config) none w = (err (errorf (text "auth config is required")), w)
  new_proxmox_client (some config) (some auth) w = create_proxmox_client config auth w
