-- ===== src/Controller/Tests.antt =====
-- The theorems of the cluster reconciler at concrete inputs, and a run of it.
use hyperfleet_controller.Base.{
  error_text, is_not_found, text, ◌==◌, ◌≡◌, refl, ◌↔◌, true, false, none, some, [], ◌∷◌, to_lower,
  ok,
}
use hyperfleet_controller.Api.Meta.{condition_false, NamespacedName}
use hyperfleet_controller.Api.Conditions.{set_condition, find_condition, NodupTypes}
use hyperfleet_controller.Api.Cluster.{HypervisorCluster}
use hyperfleet_controller.Provider.{ConnectionInfo, AuthConfig, HypervisorClient, ClientFactory}
use hyperfleet_controller.Provider.Proxmox.{
  proxmox_client, proxmox_test_connection, version_info, login_and_test, proxmox_close,
  new_proxmox_client, create_proxmox_client,
}
use hyperfleet_controller.Provider.Factory.{default_create_client, new_client_factory}
use hyperfleet_controller.Provider.Requests.{
  Answers, Creates, proxmox_test_connection-Answers, default_create_client-Creates,
}
use hyperfleet_controller.Controller.Samples.{
  World, server, proxmox, ready_condition_of, cluster_with, fresh,
}
use hyperfleet_controller.Controller.SampleStore.{server-IsLawful}
use hyperfleet_controller.Controller.Kube.{key_of, ReconcileResult}
use hyperfleet_controller.Controller.Cluster.{
  token_auth, load_credentials, get_secret_value, load_token, load_from, client_config,
  requeue_interval, test_connection, connect, use_client, probe, reconcile, sync_cluster,
  update_status, value_of, load_password, with_result, ready_condition, insecure_skip_verify,
}
use hyperfleet_controller.Controller.Cluster.Credentials.{AuthFrom, load_credentials-AuthFrom}
use hyperfleet_controller.Controller.Cluster.Connection.{test_connection-closes}
use hyperfleet_controller.Controller.Cluster.Status.{Records, reconcile-Records}
use hyperfleet_controller.Controller.Cluster.Proxmox.{Reached, test_connection-Reached}
use hyperfleet_controller.Controller.Template.{is_cluster_ready}
use hyperfleet_controller.Controller.Readiness.{reconcile-is_cluster_ready}

abbrev cluster : HypervisorCluster
cluster = cluster_with (ready_condition_of condition_false ∷ [])

abbrev key : NamespacedName
key = key_of cluster.meta

abbrev world : World
world = record fresh { cluster = cluster }

abbrev factory : ClientFactory World
factory = new_client_factory proxmox

abbrev auth : AuthConfig
auth = token_auth (text "u@pam!t") (text "s3cret")

one_condition : NodupTypes cluster.status.conditions
unfolding find_condition
one_condition = (refl, tt)

load_credentials-AuthFrom_example :
    (load_credentials server cluster world ≡ ok auth) ↔ AuthFrom server cluster world auth
load_credentials-AuthFrom_example = load_credentials-AuthFrom server cluster world auth

loads : load_credentials server cluster world ≡ ok auth
unfolding load_credentials load_from load_token get_secret_value value_of text ◌==◌
loads = refl

connects : (test_connection server factory none cluster 7 world).0.success ≡ true
unfolding test_connection load_credentials load_from load_token get_secret_value value_of text ◌==◌
    connect use_client probe new_client_factory default_create_client to_lower new_proxmox_client
    create_proxmox_client proxmox_client proxmox_test_connection version_info
connects = refl

test_connection-Reached_example :
    Reached server proxmox cluster 7 world
      (test_connection server (new_client_factory proxmox) none cluster 7 world)
test_connection-Reached_example = test_connection-Reached server proxmox cluster 7 world connects

abbrev client : HypervisorClient World
client = proxmox_client proxmox (text "https://pve:8006") auth

creates :
    default_create_client proxmox (text "Proxmox") (some (client_config cluster)) (some auth) world
    ≡ (ok client, world)
unfolding default_create_client to_lower text ◌==◌ new_proxmox_client create_proxmox_client
    client_config
creates = refl

test_connection-closes_example :
    (test_connection server factory none cluster 7 world).1
    ≡ (client.close (client.test_connection world).1).1
unfolding new_client_factory
test_connection-closes_example =
    test_connection-closes server factory none cluster 7 world auth client world loads creates

default_create_client-Creates_example :
    Creates proxmox (text "Proxmox") (some (client_config cluster)) (some auth) world client world
default_create_client-Creates_example =
    default_create_client-Creates proxmox (text "Proxmox") (some (client_config cluster))
      (some auth) world client world creates

abbrev info : ConnectionInfo
info = record {
  version = text "8.1";
  metadata = (text "provider", text "proxmox") ∷ (text "type", text "pve") ∷ [];
}

answers :
    proxmox_test_connection proxmox (text "https://pve:8006") auth world
    ≡ (ok info, record world { requests = 1 })
unfolding proxmox_test_connection version_info text ◌==◌
answers = refl

proxmox_test_connection-Answers_example :
    Answers proxmox (text "https://pve:8006") auth world info (record world { requests = 1 })
proxmox_test_connection-Answers_example =
    proxmox_test_connection-Answers proxmox (text "https://pve:8006") auth world info
      (record world { requests = 1 }) answers

abbrev insecure : HypervisorCluster
insecure = record cluster {
  spec = record (cluster.spec) {
    tls = some (record { insecure_skip_verify = true; ca_certificate = none });
  };
}

abbrev requeued : ReconcileResult
requeued = record { requeue = false; requeue_after = requeue_interval }

found : server.get_cluster key world ≡ ok cluster
unfolding text ◌==◌
found = refl

reconciles : (reconcile server factory none key 7 world).0 ≡ ok requeued
unfolding reconcile sync_cluster update_status with_result test_connection load_credentials
    load_from load_token get_secret_value value_of connect use_client probe client_config
    insecure_skip_verify load_password ready_condition text ◌==◌ new_client_factory
    default_create_client to_lower new_proxmox_client create_proxmox_client proxmox_client
    proxmox_test_connection version_info set_condition error_text is_not_found login_and_test
    proxmox_close
reconciles = refl

reconcile-Records_example :
    (requeued ≡ requeued)
    × ((d : HypervisorCluster) × (server.get_cluster
            (key_of cluster.meta)
            (reconcile server factory none key 7 world).1
          ≡ ok d)
        × Records (test_connection server factory none cluster 7 world).0 cluster d.status)
reconcile-Records_example =
    reconcile-Records server factory none server-IsLawful key 7 world cluster found one_condition
      requeued reconciles

reconcile-is_cluster_ready_example :
    (d : HypervisorCluster) × (server.get_cluster
        (key_of cluster.meta)
        (reconcile server factory none key 7 world).1
      ≡ ok d)
    × (is_cluster_ready d ≡ (test_connection server factory none cluster 7 world).0.success)
reconcile-is_cluster_ready_example =
    reconcile-is_cluster_ready server server-IsLawful factory none key 7 world cluster found
      one_condition requeued reconciles
