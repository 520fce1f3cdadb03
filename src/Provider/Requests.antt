-- ===== src/Provider/Requests.antt =====
-- What a client of the factory has asked of Proxmox when it answers
-- (internal/provider/factory.go and proxmox.go).
use hyperfleet_controller.Base.{
  Text, text, ◌==◌, ==_iff, to_lower, ◌≡◌, refl, Option, none, some, arith, Bool-cases, inl, inr,
  Result, ok, err,
}
use hyperfleet_controller.Provider.{ConnectionInfo, ClientConfig, AuthConfig, HypervisorClient}
use hyperfleet_controller.Provider.Proxmox.{
  ProxmoxApi, version_info, login_and_test, proxmox_test_connection, proxmox_client,
  create_proxmox_client, new_proxmox_client,
}
use hyperfleet_controller.Provider.Factory.{default_create_client}

module _ {W C : Type 0} (api : ProxmoxApi W C) where
  -- The two ways to authenticate a client of the library, and the world behind each.
  pub data Authenticated (client : C) (auth : AuthConfig) (w : W) : W → Type 0 where
    by_token :
        auth.type ≡ text "token"
        → Authenticated client auth w (api.set_api_token client auth.token_id auth.token_secret w)
    by_login :
        auth.type ≡ text "password"
        → (api.login client auth.username auth.password w).0 ≡ none
        → Authenticated client auth w (api.login client auth.username auth.password w).1

  -- A client is authenticated, and has then answered the request for its version.
  pub record Answers (client : C) (auth : AuthConfig) (w : W) (info : ConnectionInfo) (after : W)
      : Type 0 where
    pub logged_in : W
    pub authenticated : Authenticated client auth w logged_in
    pub version : api.get_version client logged_in ≡ (ok info.version, after)

  version_info-ok :
      (client : C) (w : W) (info : ConnectionInfo) (after : W)
      → version_info api client w ≡ (ok info, after)
      → api.get_version client w ≡ (ok info.version, after)
  unfolding version_info
  version_info-ok client w info after h = ground arith

  login_and_test-ok :
      (client : C) (auth : AuthConfig) (w : W) (info : ConnectionInfo) (after : W)
      → login_and_test api client auth w ≡ (ok info, after)
      → ((api.login client auth.username auth.password w).0 ≡ none)
        × (version_info api client (api.login client auth.username auth.password w).1
            ≡ (ok info, after))
  unfolding login_and_test
  login_and_test-ok client auth w info after h = ground arith

  -- A Proxmox client that answers a connection test was authenticated before, by its API token or
  -- by a login that succeeded, as its type of authentication says, and has then answered the
  -- request for the version that it returns.
  pub proxmox_test_connection-Answers :
      (client : C) (auth : AuthConfig) (w : W) (info : ConnectionInfo) (after : W)
      → proxmox_test_connection api client auth w ≡ (ok info, after)
      → Answers client auth w info after
  unfolding proxmox_test_connection
  proxmox_test_connection-Answers client auth w info after h =
      elim (Bool-cases (auth.type == text "token")) [
        | inl t ↦ record {
          logged_in = api.set_api_token client auth.token_id auth.token_secret w;
          authenticated = by_token ((==_iff auth.type (text "token")).0 t);
          version = version_info-ok client _ info after (ground arith);
        }
        | inr t ↦
            let (accepted, answered) = login_and_test-ok client auth w info after (ground arith) in
            record {
              logged_in = (api.login client auth.username auth.password w).1;
              authenticated =
                  by_login (ground (arith, ==_iff auth.type (text "password"))) accepted;
              version = version_info-ok client _ info after answered;
            }
      ]

  -- What a client of the factory is made of.
  pub record Creates (provider : Text) (config : Option ClientConfig) (auth : Option AuthConfig)
      (w : W) (client : HypervisorClient W) (after : W) : Type 0 where
    pub settings : ClientConfig
    pub credentials : AuthConfig
    pub handle : C
    pub is_proxmox : to_lower provider ≡ text "proxmox"
    pub has_config : config ≡ some settings
    pub has_auth : auth ≡ some credentials
    pub created :
        api.new_client settings.endpoint settings.tls_config settings.timeout w ≡ (ok handle, after)
    pub same : client ≡ proxmox_client api handle credentials

  create_proxmox_client-Creates :
      (provider : Text) (config : ClientConfig) (auth : AuthConfig) (w : W)
      (client : HypervisorClient W) (after : W)
      → to_lower provider ≡ text "proxmox"
      → (r : Result C × W) → api.new_client config.endpoint config.tls_config config.timeout w ≡ r
      → create_proxmox_client api config auth w ≡ (ok client, after)
      → Creates provider (some config) (some auth) w client after
  unfolding create_proxmox_client
  create_proxmox_client-Creates provider config auth w client after e (ok handle, u) p h = record {
    settings = config;
    credentials = auth;
    handle = handle;
    is_proxmox = e;
    has_config = refl;
    has_auth = refl;
    created = ground arith;
    same = ground arith;
  }
  create_proxmox_client-Creates provider config auth w client after e (err x, u) p h = ground arith

  new_proxmox_client-Creates :
      (provider : Text) (config : Option ClientConfig) (auth : Option AuthConfig) (w : W)
      (client : HypervisorClient W) (after : W)
      → to_lower provider ≡ text "proxmox"
      → new_proxmox_client api config auth w ≡ (ok client, after)
      → Creates provider config auth w client after
  unfolding new_proxmox_client
  new_proxmox_client-Creates provider none auth w client after e h = cc
  new_proxmox_client-Creates provider (some config) none w client after e h = cc
  new_proxmox_client-Creates provider (some config) (some auth) w client after e h =
      create_proxmox_client-Creates provider config auth w client after e _ refl h

  -- The factory returns a client only for a provider that is `proxmox` in some mixture of cases, a
  -- configuration and an authentication that are both given, and a client that the library has
  -- created for this endpoint, these TLS settings and this timeout; it is a Proxmox client with
  -- this authentication, and no other call has been made.
  pub default_create_client-Creates :
      (provider : Text) (config : Option ClientConfig) (auth : Option AuthConfig) (w : W)
      (client : HypervisorClient W) (after : W)
      → default_create_client api provider config auth w ≡ (ok client, after)
      → Creates provider config auth w client after
  unfolding default_create_client
  default_create_client-Creates provider config auth w client after h =
      elim (Bool-cases (to_lower provider == text "proxmox")) [
        | inl e ↦
            new_proxmox_client-Creates provider config auth w client after
              ((==_iff (to_lower provider) (text "proxmox")).0 e) (ground arith)
        | inr e ↦ ground arith
      ]
