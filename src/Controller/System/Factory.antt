-- ===== src/Controller/System/Factory.antt =====
-- A factory of Proxmox clients leaves the objects of the API server alone when the Proxmox library
-- does.
use mathlib.Core.Path.{subst}
use hyperfleet_controller.Base.{
  ℕ, Text, text, ◌==◌, to_lower, ◌≡◌, refl, sym, arith, Bool, true, false, Option, none, some, Err,
  Result, ok, err,
}
use hyperfleet_controller.Provider.{TlsClientConfig, ClientConfig, AuthConfig}
use hyperfleet_controller.Provider.Proxmox.{
  ProxmoxApi, proxmox_client, proxmox_test_connection, proxmox_close, version_info, login_and_test,
  new_proxmox_client, create_proxmox_client,
}
use hyperfleet_controller.Provider.Factory.{default_create_client, new_client_factory}
use hyperfleet_controller.Controller.Kube.{KubeClient}
use hyperfleet_controller.Controller.Store.{SameObjects, LeavesObjects, ClientLeaves, FactoryLeaves}
use hyperfleet_controller.Controller.System.Preserves.{SameObjects-refl, SameObjects-trans}

module _ {W C : Type 0} (k : KubeClient W) (api : ProxmoxApi W C) where
  -- The calls of the library leave the stored objects alone.
  pub record ApiLeaves : Type 0 where
    pub new_client :
        (endpoint : Text) (tls : Option TlsClientConfig) (timeout : ℕ) (w : W)
        → SameObjects k w (api.new_client endpoint tls timeout w).1
    pub set_api_token :
        (client : C) (id secret : Text) (w : W)
        → SameObjects k w (api.set_api_token client id secret w)
    pub login :
        (client : C) (user pass : Text) (w : W) → SameObjects k w (api.login client user pass w).1
    pub get_version : (client : C) (w : W) → SameObjects k w (api.get_version client w).1

  version_info-world :
      (client : C) (w : W) → (version_info api client w).1 ≡ (api.get_version client w).1
  unfolding version_info
  version_info-world client w = ground arith

  create_proxmox_client-world :
      (config : ClientConfig) (auth : AuthConfig) (w : W)
      → (create_proxmox_client api config auth w).1
        ≡ (api.new_client config.endpoint config.tls_config config.timeout w).1
  unfolding create_proxmox_client
  create_proxmox_client-world config auth w = ground arith

  module _ (leaves : ApiLeaves) where
    version_info-SameObjects : (client : C) (w : W) → SameObjects k w (version_info api client w).1
    version_info-SameObjects client w =
        subst (SameObjects k w) (sym (version_info-world client w)) (leaves.get_version client w)

    login_and_test-SameObjects :
        (client : C) (auth : AuthConfig) (w : W)
        → SameObjects k w (login_and_test api client auth w).1
    unfolding login_and_test
    login_and_test-SameObjects client auth w = by_answer _ refl
      where
        by_answer :
            (r : Err)
            → (api.login client auth.username auth.password w).0 ≡ r
            → SameObjects k w (login_and_test api client auth w).1
        by_answer none p =
            let w' = (api.login client auth.username auth.password w).1 in
            rw (login_and_test, p)
              (SameObjects-trans k w w' _ (leaves.login client auth.username auth.password w)
                (version_info-SameObjects client w'))
        by_answer (some e) p =
            rw (login_and_test, p) (leaves.login client auth.username auth.password w)

    proxmox_test_connection-SameObjects :
        (client : C) (auth : AuthConfig) (w : W)
        → SameObjects k w (proxmox_test_connection api client auth w).1
    unfolding proxmox_test_connection
    proxmox_test_connection-SameObjects client auth w = by_type _ _ refl refl
      where
        by_type :
            (token password : Bool)
            → (auth.type == text "token") ≡ token
            → (auth.type == text "password") ≡ password
            → SameObjects k w (proxmox_test_connection api client auth w).1
        by_type true password p q =
            let authenticated = api.set_api_token client auth.token_id auth.token_secret w in
            rw (proxmox_test_connection, p)
              (SameObjects-trans k w authenticated _
                (leaves.set_api_token client auth.token_id auth.token_secret w)
                (version_info-SameObjects client authenticated))
        by_type false true p q =
            rw (proxmox_test_connection, p, q) (login_and_test-SameObjects client auth w)
        by_type false false p q = rw (proxmox_test_connection, p, q) (SameObjects-refl k w)

    proxmox_client-LeavesObjects :
        (client : C) (auth : AuthConfig) → LeavesObjects k (proxmox_client api client auth)
    unfolding proxmox_client proxmox_close
    proxmox_client-LeavesObjects client auth = record {
      test = proxmox_test_connection-SameObjects client auth;
      close = SameObjects-refl k;
    }

    create_proxmox_client-ClientLeaves :
        (config : ClientConfig) (auth : AuthConfig) (w : W)
        → ClientLeaves k (create_proxmox_client api config auth w).0
    unfolding create_proxmox_client
    create_proxmox_client-ClientLeaves config auth w = by_answer _ _ refl
      where
        by_answer :
            (r : Result C) (w' : W)
            → api.new_client config.endpoint config.tls_config config.timeout w ≡ (r, w')
            → ClientLeaves k (create_proxmox_client api config auth w).0
        by_answer (ok client) w' p =
            rw (create_proxmox_client, p) (proxmox_client-LeavesObjects client auth)
        by_answer (err e) w' p = rw (create_proxmox_client, p) tt

    new_proxmox_client-leaves :
        (config : Option ClientConfig) (auth : Option AuthConfig) (w : W)
        → SameObjects k w (new_proxmox_client api config auth w).1
          × ClientLeaves k (new_proxmox_client api config auth w).0
    unfolding new_proxmox_client
    new_proxmox_client-leaves none auth w = (SameObjects-refl k w, tt)
    new_proxmox_client-leaves (some config) none w = (SameObjects-refl k w, tt)
    new_proxmox_client-leaves (some config) (some auth) w = (
      subst (SameObjects k w) (sym (create_proxmox_client-world config auth w))
          (leaves.new_client config.endpoint config.tls_config config.timeout w),
      create_proxmox_client-ClientLeaves config auth w,
    )

    default_create_client-leaves :
        (provider : Text) (config : Option ClientConfig) (auth : Option AuthConfig) (w : W)
        → SameObjects k w (default_create_client api provider config auth w).1
          × ClientLeaves k (default_create_client api provider config auth w).0
    unfolding default_create_client
    default_create_client-leaves provider config auth w = by_provider _ refl
      where
        by_provider :
            (b : Bool)
            → (to_lower provider == text "proxmox") ≡ b
            → SameObjects k w (default_create_client api provider config auth w).1
              × ClientLeaves k (default_create_client api provider config auth w).0
        by_provider true p = rw (default_create_client, p) (new_proxmox_client-leaves config auth w)
        by_provider false p = rw (default_create_client, p) (SameObjects-refl k w, tt)

    pub new_client_factory-FactoryLeaves : FactoryLeaves k (new_client_factory api)
    unfolding new_client_factory
    new_client_factory-FactoryLeaves = record {
      create = λ provider config auth w. (default_create_client-leaves provider config auth w).0;
      client = λ provider config auth w. (default_create_client-leaves provider config auth w).1;
    }
