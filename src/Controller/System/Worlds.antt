-- ===== src/Controller/System/Worlds.antt =====
-- The world that each way through Reconcile leaves, in both controllers.
use hyperfleet_controller.Base.{
  none, Text, ◌≡◌, refl, Bool, true, false, Option, List, arith, Error, ok, err,
}
use hyperfleet_controller.Api.Meta.{Time, NamespacedName}
use hyperfleet_controller.Api.Cluster.{HypervisorCluster}
use hyperfleet_controller.Api.Template.{HypervisorMachineTemplate}
use hyperfleet_controller.Provider.{ClientFactory}
use hyperfleet_controller.Controller.Kube.{KubeClient, FinalizerUtil, ReconcileResult}
use hyperfleet_controller.Controller.Cluster.{factory_of, with_result, test_connection}
use hyperfleet_controller.Controller.Cluster
use hyperfleet_controller.Controller.Template.{
  returns, finalizer_name, is_zero, validate_template, update_status,
}
use hyperfleet_controller.Controller.Template.Lifecycle.{with_finalizers}
use hyperfleet_controller.Controller.Template.Reconcile.{
  finish, update_then, handle_deletion, add_finalizer, reconcile_template,
}
use hyperfleet_controller.Controller.Template.Reconcile

module _ {W : Type 0} (k : KubeClient W) (default : ClientFactory W)
    (factory : Option (ClientFactory W)) (key : NamespacedName) (now : Time) (w : W) where
  pub cluster_not_read :
      (e : Error)
      → k.get_cluster key w ≡ err e
      → (Cluster.reconcile k default factory key now w).1 ≡ w
  unfolding Cluster.reconcile
  cluster_not_read e h = ground arith

  pub cluster_stored :
      (c : HypervisorCluster)
      → k.get_cluster key w ≡ ok c
      → let o = test_connection k default factory c now w in
        (Cluster.reconcile k default factory key now w).1
        ≡ (k.update_cluster_status (with_result c o.0) o.1).1
  unfolding Cluster.reconcile Cluster.sync_cluster Cluster.update_status
  cluster_stored c h = ground arith

  pub cluster_returned :
      (c : HypervisorCluster)
      → k.get_cluster key w ≡ ok c
      → let o = test_connection k default factory c now w in
        (k.update_cluster_status (with_result c o.0) o.1).0 ≡ none
        → (Cluster.reconcile k default factory key now w).0
          ≡ ok (record { requeue = false; requeue_after = Cluster.requeue_interval })
  unfolding Cluster.reconcile Cluster.sync_cluster Cluster.update_status
  cluster_returned c h stored = ground arith

module _ {W : Type 0} (k : KubeClient W) (factory : Option (ClientFactory W)) where
  pub update_then_world :
      (r : ReconcileResult) (t : HypervisorMachineTemplate) (w : W)
      → (update_then k factory r t w).1 ≡ (k.update_template t w).1
  unfolding update_then
  update_then_world r t w = ground arith

  pub finish_world :
      (r : ReconcileResult) (t : HypervisorMachineTemplate) (now : Time) (w : W)
      → (finish k factory (returns (ok (r, t))) now w).1 ≡ (update_status k factory t now w).1
  unfolding finish
  finish_world r t now w = ground arith

  module _ (util : FinalizerUtil) (key : NamespacedName) (checked validated : Time) (w : W) where
    pub template_not_read :
        (e : Error)
        → k.get_template key w ≡ err e
        → (Reconcile.reconcile k factory util key checked validated w).1 ≡ w
    unfolding Reconcile.reconcile
    template_not_read e h = ground arith

    pub template_was_read :
        (t : HypervisorMachineTemplate)
        → k.get_template key w ≡ ok t
        → Reconcile.reconcile k factory util key checked validated w
          ≡ reconcile_template k factory util t checked validated w
    unfolding Reconcile.reconcile
    template_was_read t found = ground arith

    -- What a reconciliation does with a template that it has read.
    pub data Handled (t : HypervisorMachineTemplate) : W → Type 0 where
      changes_finalizers :
          (finalizers : List Text)
          → Handled t (k.update_template (with_finalizers t finalizers) w).1
      validates :
          Handled t
            (finish k factory
              (validate_template k factory t checked w).0
              validated
              (validate_template k factory t checked w).1).1

    pub template-Handled :
        (t : HypervisorMachineTemplate)
        → k.get_template key w ≡ ok t
        → Handled t (Reconcile.reconcile k factory util key checked validated w).1
    unfolding Reconcile.reconcile reconcile_template add_finalizer handle_deletion
    template-Handled t found =
        rw (Reconcile.reconcile, found) (by_deletion (is_zero t.meta.deletion_timestamp) refl)
      where
        by_finalizer :
            is_zero t.meta.deletion_timestamp ≡ true
            → (b : Bool) → util.contains t.meta.finalizers finalizer_name ≡ b
            → Handled t (reconcile_template k factory util t checked validated w).1
        by_finalizer alive true p = rw (reconcile_template, alive, p) validates
        by_finalizer alive false p =
            rw (reconcile_template, alive, p, add_finalizer, update_then_world)
              (changes_finalizers (util.add t.meta.finalizers finalizer_name))

        by_deletion :
            (b : Bool)
            → is_zero t.meta.deletion_timestamp ≡ b
            → Handled t (reconcile_template k factory util t checked validated w).1
        by_deletion false p =
            rw (reconcile_template, p, handle_deletion, update_then_world)
              (changes_finalizers (util.remove t.meta.finalizers finalizer_name))
        by_deletion true p = by_finalizer p _ refl
