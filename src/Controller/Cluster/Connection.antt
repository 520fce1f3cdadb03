-- ===== src/Controller/Cluster/Connection.antt =====
-- The connection test of a cluster.
use hyperfleet_controller.Base.{
  text, ◌≡◌, refl, ◌++◌, true, Option, some, arith, Error, error_text, Result, ok, err,
}
use hyperfleet_controller.Api.Meta.{Time}
use hyperfleet_controller.Api.Cluster.{HypervisorCluster, TlsConfig}
use hyperfleet_controller.Provider.{
  ConnectionInfo, TlsClientConfig, AuthConfig, HypervisorClient, ClientFactory,
}
use hyperfleet_controller.Controller.Kube.{KubeClient}
use hyperfleet_controller.Controller.Cluster.{
  ConnectionResult, client_config, insecure_skip_verify, failed, connected, factory_of,
  load_credentials, probe, use_client, connect, test_connection,
}

-- Certificates are not verified only if the cluster asks for it.
pub client_config-insecure :
    (cluster : HypervisorCluster) (tls : TlsClientConfig)
    → (client_config cluster).tls_config ≡ some tls
    → tls.insecure_skip_verify ≡ true
    → (asked : TlsConfig) × (cluster.spec.tls ≡ some asked) × (asked.insecure_skip_verify ≡ true)
unfolding client_config insecure_skip_verify
client_config-insecure cluster tls h k = ground arith

module _ {W : Type 0} (k : KubeClient W) (default : ClientFactory W)
    (factory : Option (ClientFactory W)) where
  module _ (cluster : HypervisorCluster) (now : Time) (w : W) where
    -- Each step of a test that succeeds: credentials, a client for them, and its answer. The world
    -- is the one that closing the client leaves.
    pub record Connects (result : ConnectionResult × W) : Type 0 where
      pub auth : AuthConfig
      pub client : HypervisorClient W
      pub info : ConnectionInfo
      pub created : W
      pub loaded : load_credentials k cluster w ≡ ok auth
      pub create :
          (factory_of default factory).create_client cluster.spec.provider
            (some (client_config cluster))
            (some auth)
            w
          ≡ (ok client, created)
      pub answered : (client.test_connection created).0 ≡ ok info
      pub outcome :
          result ≡ (connected now cluster, (client.close (client.test_connection created).1).1)

    module _ (auth : AuthConfig) (loaded : load_credentials k cluster w ≡ ok auth) where
      abbrev attempt : Result (HypervisorClient W) × W
      attempt =
          (factory_of default factory).create_client cluster.spec.provider
            (some (client_config cluster)) (some auth) w

      probe-Connects :
          (client : HypervisorClient W) (created : W)
          → attempt ≡ (ok client, created)
          → (r : Result ConnectionInfo) → (client.test_connection created).0 ≡ r
          → (probe k client cluster now created).0.success ≡ true
          → Connects (probe k client cluster now created)
      unfolding probe
      probe-Connects client created c (err e) p h = ground arith
      probe-Connects client created c (ok info) p h = record {
        auth = auth;
        client = client;
        info = info;
        created = created;
        loaded = loaded;
        create = c;
        answered = p;
        outcome = ground arith;
      }

      use_client-Connects :
          (r : Result (HypervisorClient W)) (created : W)
          → attempt ≡ (r, created)
          → (use_client k cluster now r created).0.success ≡ true
          → Connects (use_client k cluster now r created)
      unfolding use_client
      use_client-Connects (err e) created p h = cc
      use_client-Connects (ok client) created p h = probe-Connects client created p _ refl h

      connect-Connects :
          (connect k (factory_of default factory) cluster auth now w).0.success ≡ true
          → Connects (connect k (factory_of default factory) cluster auth now w)
      unfolding connect
      connect-Connects h = use_client-Connects attempt.0 attempt.1 refl h

    from_load :
        (r : Result AuthConfig)
        → load_credentials k cluster w ≡ r
        → (test_connection k default factory cluster now w).0.success ≡ true
        → Connects (test_connection k default factory cluster now w)
    unfolding test_connection
    from_load (err e) p h = ground arith
    from_load (ok auth) p h = rw (p, test_connection) (connect-Connects auth p (ground arith))

    -- A connection test succeeds only after each of its steps did: credentials were loaded, the
    -- factory made a client for them and for the cluster's configuration, and the client answered.
    pub test_connection-Connects :
        (test_connection k default factory cluster now w).0.success ≡ true
        → Connects (test_connection k default factory cluster now w)
    test_connection-Connects h = from_load _ refl h

    -- Without credentials nothing outside is called.
    pub test_connection-no_credentials :
        (e : Error)
        → load_credentials k cluster w ≡ err e
        → test_connection k default factory cluster now w
          ≡ (failed now (text "Credential loading failed: " ++ error_text e), w)
    unfolding test_connection
    test_connection-no_credentials e h = ground arith

    -- A client that was created is closed after its test, whatever the test returns.
    pub test_connection-closes :
        (auth : AuthConfig) (client : HypervisorClient W) (created : W)
        → load_credentials k cluster w ≡ ok auth
        → (factory_of default factory).create_client cluster.spec.provider
            (some (client_config cluster))
            (some auth)
            w
          ≡ (ok client, created)
        → (test_connection k default factory cluster now w).1
          ≡ (client.close (client.test_connection created).1).1
    unfolding test_connection connect use_client probe
    test_connection-closes auth client created h c = ground arith
