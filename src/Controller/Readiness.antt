-- ===== src/Controller/Readiness.antt =====
-- What the two reconcilers share: the Ready condition that the cluster's writes and the template's
-- reads.
use hyperfleet_controller.Base.{text, ◌≡◌, refl, false, Option, ok}
use hyperfleet_controller.Api.Meta.{Time, NamespacedName}
use hyperfleet_controller.Api.Conditions.{NodupTypes}
use hyperfleet_controller.Api.Cluster.{HypervisorCluster}
use hyperfleet_controller.Api.Template.{HypervisorMachineTemplate}
use hyperfleet_controller.Provider.{ClientFactory}
use hyperfleet_controller.Controller.Kube.{KubeClient, IsLawful, key_of, ReconcileResult}
use hyperfleet_controller.Controller.Cluster.{test_connection}
use hyperfleet_controller.Controller.Cluster.Status.{reconcile-Records}
use hyperfleet_controller.Controller.Template.{
  is_cluster_ready, cluster_key, validate_template, validate_against, returns, rejected,
}
use hyperfleet_controller.Controller.Cluster

module _ {W : Type 0} (k : KubeClient W) (law : IsLawful k) (default : ClientFactory W)
    (factory : Option (ClientFactory W)) (key : NamespacedName) (now : Time) (w : W)
    (cluster : HypervisorCluster) (found : k.get_cluster key w ≡ ok cluster)
    (nodup : NodupTypes cluster.status.conditions) (result : ReconcileResult)
    (succeeded : (Cluster.reconcile k default factory key now w).0 ≡ ok result) where
  abbrev after : W
  after = (Cluster.reconcile k default factory key now w).1

  -- With a lawful API server and distinct condition types: once a cluster was reconciled without
  -- error, the template reconciler takes the stored cluster as ready exactly if the connection test
  -- succeeded.
  pub reconcile-is_cluster_ready :
      (d : HypervisorCluster) × (k.get_cluster (key_of cluster.meta) after ≡ ok d)
      × (is_cluster_ready d ≡ (test_connection k default factory cluster now w).0.success)
  unfolding is_cluster_ready
  reconcile-is_cluster_ready =
      let (same, (d, get, records)) =
        reconcile-Records k default factory law key now w cluster found nodup result succeeded in
      (d, get, records.ready)

  -- With a lawful API server and distinct condition types: once a connection test failed and its
  -- result was stored, each template that refers to the cluster is rejected as long as nothing else
  -- was done, and its provider is not called.
  pub validate_template-unreachable :
      (template : HypervisorMachineTemplate) (time : Time) (templates : Option (ClientFactory W))
      → cluster_key template ≡ key_of cluster.meta
      → (test_connection k default factory cluster now w).0.success ≡ false
      → validate_template k templates template time after ≡ (
        returns (
            rejected time
              (text "ClusterNotReady")
              (text "Referenced HypervisorCluster is not ready")
              template),
        after,
      )
  unfolding validate_template validate_against
  validate_template-unreachable template time templates refers failed =
      let (d, get, ready) = reconcile-is_cluster_ready in
      rw (validate_template, refers, get, validate_against, ready, failed) refl
