-- ===== src/Controller/Cluster/Status.antt =====
-- The status that a reconciliation stores.
use mathlib.Core.Path.{subst}
use hyperfleet_controller.Base.{
  Text, ◌==◌, ◌≡◌, refl, sym, ◌∙◌, false, Option, none, some, arith, if◌then◌else◌, Error, ok, err,
  is_not_found,
}
use hyperfleet_controller.Api.Meta.{Time, NamespacedName}
use hyperfleet_controller.Api.Conditions.{
  is_true, find_condition, holds, NodupTypes, find_condition-set_condition,
  set_condition-NodupTypes, holds-set_condition,
}
use hyperfleet_controller.Api.Cluster.{HypervisorCluster, HypervisorClusterStatus}
use hyperfleet_controller.Provider.{ClientFactory}
use hyperfleet_controller.Controller.Kube.{
  KubeClient, IsLawful, key_of, ReconcileResult, no_requeue,
}
use hyperfleet_controller.Controller.Cluster.{
  ConnectionResult, condition_ready, requeue_interval, ready_condition, with_result,
  test_connection, update_status, sync_cluster, reconcile,
}

-- What a status holds of the result of a connection test, and what it keeps of the status before.
pub record Records (result : ConnectionResult) (cluster : HypervisorCluster)
    (new : HypervisorClusterStatus) : Type 0 where
  pub ready : holds condition_ready new.conditions ≡ result.success
  pub found :
      (type : Text)
      → find_condition type new.conditions ≡ (
          if condition_ready == type
          then some (ready_condition cluster result)
          else find_condition type cluster.status.conditions)
  pub nodup : NodupTypes new.conditions
  pub synced : new.last_sync_time ≡ some result.tested_at
  pub nodes : new.connected_nodes ≡ cluster.status.connected_nodes
  pub resources : new.available_resources ≡ cluster.status.available_resources

status_is_true :
    (cluster : HypervisorCluster) (result : ConnectionResult)
    → is_true (ready_condition cluster result).status ≡ result.success
unfolding ready_condition
status_is_true cluster result = ground arith

pub with_result-Records :
    (cluster : HypervisorCluster) (result : ConnectionResult)
    → NodupTypes cluster.status.conditions
    → Records result cluster (with_result cluster result).status
unfolding with_result ready_condition
with_result-Records cluster result h =
    let c = ready_condition cluster result in
    let xs = cluster.status.conditions in
    record {
      ready = holds-set_condition c xs h ∙ status_is_true cluster result;
      found = λ type. find_condition-set_condition type c xs;
      nodup = set_condition-NodupTypes c xs h;
      synced = refl;
      nodes = refl;
      resources = refl;
    }

module _ {W : Type 0} (k : KubeClient W) (default : ClientFactory W)
    (factory : Option (ClientFactory W)) where
  -- A cluster that is gone ends the reconciliation with no error, no requeue and no call; any other
  -- error of Get is returned, with no call either.
  pub reconcile-not_read :
      (key : NamespacedName) (now : Time) (w : W) (e : Error)
      → k.get_cluster key w ≡ err e
      → reconcile k default factory key now w
        ≡ ((if is_not_found e then ok no_requeue else err e), w)
  unfolding reconcile
  reconcile-not_read key now w e h = ground arith

  module _ (law : IsLawful k) (key : NamespacedName) (now : Time) (w : W)
      (cluster : HypervisorCluster) where
    -- The update that a reconciliation without error made.
    reconcile-ok :
        k.get_cluster key w ≡ ok cluster
        → (result : ReconcileResult) → (reconcile k default factory key now w).0 ≡ ok result
        → let o = test_connection k default factory cluster now w in
          let u = k.update_cluster_status (with_result cluster o.0) o.1 in
          (u.0 ≡ none)
          × (result ≡ record { requeue = false; requeue_after = requeue_interval })
          × ((reconcile k default factory key now w).1 ≡ u.1)
    unfolding reconcile sync_cluster update_status
    reconcile-ok found result h = ground arith

    -- With a lawful API server and distinct condition types, a reconciliation without error asks to
    -- be called again after the interval, and the cluster that is stored then has a status that
    -- records the connection test: its Ready condition, its sync time, the other conditions and the
    -- rest as before.
    pub reconcile-Records :
        k.get_cluster key w ≡ ok cluster
        → NodupTypes cluster.status.conditions
        → (result : ReconcileResult) → (reconcile k default factory key now w).0 ≡ ok result
        → (result ≡ record { requeue = false; requeue_after = requeue_interval })
          × ((d : HypervisorCluster) × (k.get_cluster
                  (key_of cluster.meta)
                  (reconcile k default factory key now w).1
                ≡ ok d)
              × Records (test_connection k default factory cluster now w).0 cluster d.status)
    unfolding with_result
    reconcile-Records found nodup result h =
        let o = test_connection k default factory cluster now w in
        let new = with_result cluster o.0 in
        let (stored, same, left) = reconcile-ok found result h in
        let (d, get, status) = law.cluster_status_stored new o.1 stored in
        (
          same,
          (
            d,
            rw left get,
            subst (Records o.0 cluster) (sym status) (with_result-Records cluster o.0 nodup),
          ),
        )
