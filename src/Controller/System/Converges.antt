-- ===== src/Controller/System/Converges.antt =====
-- From a new template to a valid one: three reconciliations.
use mathlib.Core.Path.{subst}
use hyperfleet_controller.Base.{
  ◌≡◌, refl, sym, ap, ◌∙◌, inl, inr, true, false, Option, none, some, Result, ok,
}
use hyperfleet_controller.Api.Meta.{Time, NamespacedName}
use hyperfleet_controller.Api.Cluster.{HypervisorCluster}
use hyperfleet_controller.Api.Template.{HypervisorMachineTemplate}
use hyperfleet_controller.Provider.{ClientFactory}
use hyperfleet_controller.Controller.Kube.{
  KubeClient, IsLawful, FinalizerUtil, FinalizerLaws, ReconcileResult, key_of,
}
use hyperfleet_controller.Controller.Store.{SameObjects, IsStore, FactoryLeaves}
use hyperfleet_controller.Controller.Cluster.{factory_of, with_result, test_connection}
use hyperfleet_controller.Controller.Cluster
use hyperfleet_controller.Controller.Readiness.{reconcile-is_cluster_ready}
use hyperfleet_controller.Controller.Template.{
  Outcome, returns, finalizer_name, cluster_key, check_template, validate_template, update_status,
}
use hyperfleet_controller.Controller.Template.Validation.{Passes}
use hyperfleet_controller.Controller.Template.Lifecycle.{
  needs_finalizer, with_finalizers, reconcile-twice, reconcile-adds,
}
use hyperfleet_controller.Controller.Template.Reconcile.{finish}
use hyperfleet_controller.Controller.Template.Reconcile
use hyperfleet_controller.Controller.System.{
  AllSound, here, next, cluster_reconciled, template_reconciled,
}
use hyperfleet_controller.Controller.System.Preserves.{test_connection-SameObjects}
use hyperfleet_controller.Controller.System.Soundness.{ok-injective, check_template-spec}
use hyperfleet_controller.Controller.System.Worlds.{cluster_stored, cluster_returned}
use hyperfleet_controller.Controller.System.Invariant.{Reach-AllSound}
use hyperfleet_controller.Controller.System.Passing.{
  Accepts, IsValid, accepted, cluster_key-same, validates, finish-stored,
}

module _ {W : Type 0} (k : KubeClient W) (law : IsLawful k) (store : IsStore k)
    (util : FinalizerUtil) (util_laws : FinalizerLaws util) (default : ClientFactory W)
    (cluster_factory : Option (ClientFactory W))
    (cluster_leaves : FactoryLeaves k (factory_of default cluster_factory))
    (factory : ClientFactory W) (leaves : FactoryLeaves k factory) (now checked validated : Time)
    (w : W) (c : HypervisorCluster) (t : HypervisorMachineTemplate) where
  abbrev tested : W
  tested = (Cluster.reconcile k default cluster_factory (key_of c.meta) now w).1

  abbrev protected : W
  protected = (Reconcile.reconcile k (some factory) util (key_of t.meta) checked validated tested).1

  abbrev checked_twice : Outcome (Result ReconcileResult) × W
  checked_twice =
      Reconcile.reconcile k (some factory) util (key_of t.meta) checked validated protected

  module _ (cluster_found : k.get_cluster (key_of c.meta) w ≡ ok c) where
    abbrev test : Cluster.ConnectionResult × W
    test = test_connection k default cluster_factory c now w

    left_same : SameObjects k w test.1
    left_same = test_connection-SameObjects k default cluster_factory cluster_leaves c now w

    stored_at : tested ≡ (k.update_cluster_status (with_result c test.0) test.1).1
    stored_at = cluster_stored k default cluster_factory (key_of c.meta) now w c cluster_found

    cluster_spec :
        (d : HypervisorCluster) → k.get_cluster (key_of c.meta) tested ≡ ok d → d.spec ≡ c.spec
    cluster_spec d e =
        let key = key_of c.meta in
        let stored = ap (k.get_cluster key) (sym stored_at) ∙ e in
        let found = left_same.clusters key ∙ cluster_found in
        elim (store.cluster_status (with_result c test.0) test.1 key).1 [
          | inl same ↦ ap (λ x. x.spec) (ok-injective (sym stored ∙ same ∙ found))
          | inr written ↦
              ap (λ x. x.spec) (ok-injective (sym stored ∙ written.left))
              ∙ written.spec
              ∙ ap (λ x. x.spec) (ok-injective (sym written.found ∙ found))
        ]

    module _ (template_found : k.get_template (key_of t.meta) w ≡ ok t) where
      template_kept : k.get_template (key_of t.meta) tested ≡ ok t
      template_kept =
          let key = key_of t.meta in
          ap (k.get_template key) stored_at
          ∙ (store.cluster_status (with_result c test.0) test.1 key).0
          ∙ left_same.templates key
          ∙ template_found

      module _ (alive : t.meta.deletion_timestamp ≡ none)
          (absent : util.contains t.meta.finalizers finalizer_name ≡ false) where
        module _
            (cluster_accepted : (k.update_cluster_status (with_result c test.0) test.1).0 ≡ none)
            (finalizer_accepted : (k.update_template
                (with_finalizers t (util.add t.meta.finalizers finalizer_name))
                tested).0
              ≡ none)
            (status_accepted : (d after : HypervisorMachineTemplate) (result : ReconcileResult)
              → k.get_template (key_of t.meta) protected ≡ ok d
              → (validate_template k (some factory) d checked protected).0
                ≡ returns (ok (result, after))
              → (update_status k
                  (some factory)
                  after
                  validated
                  (validate_template k (some factory) d checked protected).1).0
                ≡ none) where
          first_returned :
              (Cluster.reconcile k default cluster_factory (key_of c.meta) now w).0
              ≡ ok (record { requeue = false; requeue_after = Cluster.requeue_interval })
          unfolding with_result
          first_returned =
              cluster_returned k default cluster_factory (key_of c.meta) now w c cluster_found
                cluster_accepted

          finalizer_set :
              ((Reconcile.reconcile k
                  (some factory)
                  util
                  (key_of t.meta)
                  checked
                  validated
                  tested).0
                ≡ returns (ok needs_finalizer))
              × ((key : NamespacedName) → k.get_cluster key protected ≡ k.get_cluster key tested)
          finalizer_set =
              let made =
                reconcile-adds k (some factory) util checked validated util_laws (key_of t.meta)
                  tested t template_kept (rw alive refl) absent in
              (
                ap (λ r. r.0) made ∙ rw finalizer_accepted refl,
                λ key.
                    ap (λ r. k.get_cluster key r.1) made ∙ (store.template_update _ tested key).0,
              )

          -- With a lawful API server and sound statuses: a template that is not being deleted,
          -- lacks the finalizer and passes the tests, of a cluster whose connection test succeeds
          -- and whose provider the factory has clients for, is valid and available after three
          -- reconciliations, one of the cluster and two of the template, if the API server refuses
          -- none of their three updates: the one of the cluster's status, the one that sets the
          -- finalizer, and the one of the template's status behind the validation. The third
          -- reconciliation returns no error.
          pub three_reconciliations :
              AllSound k w
              → cluster_key t ≡ key_of c.meta
              → check_template t ≡ none
              → Accepts factory c.spec.provider
              → test.0.success ≡ true
              → (result : ReconcileResult) × (checked_twice.0 ≡ returns (ok result))
                × (d : HypervisorMachineTemplate) × (k.get_template (key_of t.meta) checked_twice.1
                    ≡ ok d)
                × IsValid d
          three_reconciliations sound refers check accepts connected =
              let sound' =
                Reach-AllSound k store default cluster_factory (some factory) util cluster_leaves
                  leaves w protected
                  (next (next here (cluster_reconciled (key_of c.meta) now))
                    (template_reconciled (key_of t.meta) checked validated))
                  sound in
              let (dc, cluster_read, ready) =
                reconcile-is_cluster_ready k law default cluster_factory (key_of c.meta) now w c
                  cluster_found (sound.clusters (key_of c.meta) c cluster_found) _ first_returned in
              let (d, read, spec, present, same) =
                reconcile-twice k (some factory) util checked validated util_laws law tested t
                  template_kept alive absent finalizer_set.0 in
              let named = store.template_name (key_of t.meta) protected d read in
              let provider =
                subst (Accepts factory) (ap (λ x. x.provider) (sym (cluster_spec dc cluster_read)))
                  accepts in
              let passes : Passes k (some factory) d protected = record {
                cluster = dc;
                found =
                    ap (λ x. k.get_cluster x protected) (cluster_key-same d t spec named ∙ refers)
                    ∙ finalizer_set.1 (key_of c.meta)
                    ∙ cluster_read;
                ready = ready ∙ connected;
                accepted =
                    accepted factory d dc protected provider (check_template-spec d t spec ∙ check);
              } in
              let (r, after, outcome, is_valid, meta) =
                validates k factory d checked protected
                  (sound'.templates (key_of t.meta) d read).nodup passes in
              let world = (validate_template k (some factory) d checked protected).1 in
              let key = ap key_of meta ∙ named in
              let (returned, e, stored, final) =
                finish-stored k factory law r after validated world checked_twice is_valid
                  (status_accepted d after r read outcome)
                  (same ∙ ap (λ o. finish k (some factory) o validated world) outcome) in
              (r, returned, e, ap (λ x. k.get_template x checked_twice.1) (sym key) ∙ stored, final)
