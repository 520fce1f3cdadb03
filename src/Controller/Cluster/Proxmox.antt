-- ===== src/Controller/Cluster/Proxmox.antt =====
-- The connection test of a cluster with the factory of internal/provider.
use mathlib.Core.Path.{subst}
use hyperfleet_controller.Base.{text, to_lower, ◌≡◌, sym, ap, ◌∙◌, true, none, some, ok}
use hyperfleet_controller.Api.Meta.{Time}
use hyperfleet_controller.Api.Cluster.{HypervisorCluster}
use hyperfleet_controller.Provider.{ConnectionInfo, AuthConfig, HypervisorClient}
use hyperfleet_controller.Provider.Proxmox.{
  ProxmoxApi, proxmox_client, proxmox_close, proxmox_test_connection,
}
use hyperfleet_controller.Provider.Factory.{new_client_factory}
use hyperfleet_controller.Provider.Requests.{
  Answers, Creates, default_create_client-Creates, proxmox_test_connection-Answers,
}
use hyperfleet_controller.Controller.Kube.{KubeClient}
use hyperfleet_controller.Controller.Cluster.{
  ConnectionResult, client_config, connected, test_connection,
}
use hyperfleet_controller.Controller.Cluster.Credentials.{AuthFrom, load_credentials-AuthFrom}
use hyperfleet_controller.Controller.Cluster.Connection.{Connects, test_connection-Connects}

module _ {W C : Type 0} (k : KubeClient W) (api : ProxmoxApi W C) (cluster : HypervisorCluster)
    (now : Time) (w : W) where
  -- The credentials of the cluster, a client of the library for its settings, and what it answers.
  pub record Reached (result : ConnectionResult × W) : Type 0 where
    pub auth : AuthConfig
    pub handle : C
    pub created : W
    pub info : ConnectionInfo
    pub after : W
    pub from_secrets : AuthFrom k cluster w auth
    pub is_proxmox : to_lower cluster.spec.provider ≡ text "proxmox"
    pub client :
        api.new_client cluster.spec.endpoint
          (client_config cluster).tls_config
          (client_config cluster).timeout
          w
        ≡ (ok handle, created)
    pub answers : Answers api handle auth created info after
    pub outcome : result ≡ (connected now cluster, after)

  closed :
      (handle : C) (auth : AuthConfig) (client : HypervisorClient W) (created : W)
      (info : ConnectionInfo)
      → client ≡ proxmox_client api handle auth
      → (client.test_connection created).0 ≡ ok info
      → let after = (client.close (client.test_connection created).1).1 in
        proxmox_test_connection api handle auth created ≡ (ok info, after)
  unfolding proxmox_client proxmox_close
  closed handle auth client created info same h =
      subst
        (λ x.
          (x.test_connection created).0 ≡ ok info
          → proxmox_test_connection api handle auth created
            ≡ (ok info, (x.close (x.test_connection created).1).1))
        (sym same) (λ e. ap (λ r. (r, (proxmox_test_connection api handle auth created).1)) e) h

  reached :
      (c : Connects k
        (new_client_factory api)
        none
        cluster
        now
        w
        (test_connection k (new_client_factory api) none cluster now w))
      → Creates api cluster.spec.provider
          (some (client_config cluster))
          (some c.auth)
          w
          c.client
          c.created
      → Reached (test_connection k (new_client_factory api) none cluster now w)
  unfolding client_config
  reached c m =
      let config : m.settings ≡ client_config cluster = cc in
      let auth : m.credentials ≡ c.auth = cc in
      let same : c.client ≡ proxmox_client api m.handle c.auth =
        m.same ∙ ap (proxmox_client api m.handle) auth in
      record {
        auth = c.auth;
        handle = m.handle;
        created = c.created;
        info = c.info;
        after = (c.client.close (c.client.test_connection c.created).1).1;
        from_secrets = (load_credentials-AuthFrom k cluster w c.auth).0 c.loaded;
        is_proxmox = m.is_proxmox;
        client =
            subst
              (λ s. api.new_client s.endpoint s.tls_config s.timeout w ≡ (ok m.handle, c.created))
              config m.created;
        answers =
            proxmox_test_connection-Answers api m.handle c.auth c.created c.info _
              (closed m.handle c.auth c.client c.created c.info same c.answered);
        outcome = c.outcome;
      }

  -- A reconciler without a ClientFactory of its own reports a connection only after it has reached
  -- Proxmox: with the credentials that the cluster's secrets hold, at the cluster's endpoint, with a
  -- client of the library that was authenticated and that then answered the request for its version.
  pub test_connection-Reached :
      (test_connection k (new_client_factory api) none cluster now w).0.success ≡ true
      → Reached (test_connection k (new_client_factory api) none cluster now w)
  unfolding new_client_factory
  test_connection-Reached h =
      let c = test_connection-Connects k (new_client_factory api) none cluster now w h in
      reached c
        (default_create_client-Creates api cluster.spec.provider _ _ w c.client c.created c.create)
