-- ===== src/Controller/System/Invariant.antt =====
-- The invariant of the two reconcilers over every sequence of steps.
use mathlib.Core.Path.{subst}
use hyperfleet_controller.Base.{◌≡◌, refl, sym, ◌∙◌, false, Option, some, Result, ok, err}
use hyperfleet_controller.Api.Meta.{Time, NamespacedName}
use hyperfleet_controller.Api.Conditions.{NodupTypes, holds}
use hyperfleet_controller.Api.Cluster.{HypervisorCluster}
use hyperfleet_controller.Api.Template.{HypervisorMachineTemplate}
use hyperfleet_controller.Provider.{ClientFactory}
use hyperfleet_controller.Controller.Kube.{KubeClient, FinalizerUtil}
use hyperfleet_controller.Controller.Store.{SameObjects, IsStore, FactoryLeaves}
use hyperfleet_controller.Controller.Cluster.{factory_of, with_result, test_connection}
use hyperfleet_controller.Controller.Cluster
use hyperfleet_controller.Controller.Cluster.Status.{with_result-Records}
use hyperfleet_controller.Controller.Template.{
  Outcome, returns, panics, Validated, condition_template_valid, validate_template, update_status,
  check_template,
}
use hyperfleet_controller.Controller.Template.Validation.{Concludes, validate_template-Concludes}
use hyperfleet_controller.Controller.Template.Reconcile.{
  finish, update_then, handle_deletion, add_finalizer, reconcile_template,
}
use hyperfleet_controller.Controller.Template.Reconcile
use hyperfleet_controller.Controller.System.{
  IsKnownTemplate, IsKnownCluster, kept, created, UserChange, Step, cluster_reconciled,
  template_reconciled, user, Reach, here, next, IsSound, AllSound,
}
use hyperfleet_controller.Controller.System.Preserves.{
  OptionLeaves, test_connection-SameObjects, validate_template-SameObjects,
}
use hyperfleet_controller.Controller.System.Worlds.{
  cluster_not_read, cluster_stored, finish_world, template_not_read, Handled, changes_finalizers,
  validates, template-Handled,
}
use hyperfleet_controller.Controller.System.Soundness.{
  IsSound-same, Concludes-IsSound, last_validated-IsSound, AllSound-same, AllSound-cluster_status,
  AllSound-template_update, AllSound-template_status,
}

pub UserChange-AllSound :
    {W : Type 0} (k : KubeClient W) (w w' : W) → UserChange k w w' → AllSound k w → AllSound k w'
UserChange-AllSound k w w' change h = record {
  templates = λ key t e. known_template key t (change.templates key t e);
  clusters = λ key c e. known_cluster key c (change.clusters key c e);
}
  where
    known_template :
        (key : NamespacedName) (t : HypervisorMachineTemplate)
        → IsKnownTemplate k key w t
        → IsSound t
    known_template key t (kept old found spec status) =
        IsSound-same old t spec status (h.templates key old found)
    known_template key t (created conditions available) = record {
      nodup = rw conditions tt;
      valid = λ e.
          let not_held : holds condition_template_valid t.status.conditions ≡ false =
            rw conditions (unfold holds in refl) in
          cc;
      available = λ e. cc;
    }

    known_cluster :
        (key : NamespacedName) (c : HypervisorCluster)
        → IsKnownCluster k key w c
        → NodupTypes c.status.conditions
    known_cluster key c (kept old found status) =
        subst (λ s. NodupTypes s.conditions) (sym status) (h.clusters key old found)
    known_cluster key c (created conditions) = rw conditions tt

module _ {W : Type 0} (k : KubeClient W) (store : IsStore k) (default : ClientFactory W)
    (cluster_factory template_factory : Option (ClientFactory W)) (util : FinalizerUtil)
    (cluster_leaves : FactoryLeaves k (factory_of default cluster_factory))
    (template_leaves : OptionLeaves k template_factory) where
  module _ (w : W) (h : AllSound k w) where
    cluster_step :
        (key : NamespacedName) (now : Time) (r : Result HypervisorCluster)
        → k.get_cluster key w ≡ r
        → AllSound k (Cluster.reconcile k default cluster_factory key now w).1
    cluster_step key now (err e) p =
        subst (AllSound k) (sym (cluster_not_read k default cluster_factory key now w e p)) h
    cluster_step key now (ok c) p =
        let o = test_connection k default cluster_factory c now w in
        let tested =
          AllSound-same k store w o.1
            (test_connection-SameObjects k default cluster_factory cluster_leaves c now w) h in
        let nodup = (with_result-Records c o.0 (h.clusters key c p)).nodup in
        subst (AllSound k) (sym (cluster_stored k default cluster_factory key now w c p))
          (AllSound-cluster_status k store (with_result c o.0) o.1 nodup tested)

    module _ (key : NamespacedName) (checked validated : Time) (t : HypervisorMachineTemplate)
        (found : k.get_template key w ≡ ok t) where
      finish-AllSound :
          (o : Outcome Validated) (w' : W)
          → Concludes k template_factory t w o
          → SameObjects k w w'
          → AllSound k (finish k template_factory o validated w').1
      unfolding check_template
      finish-AllSound panics w' c same = unfold finish in AllSound-same k store w w' same h
      finish-AllSound (returns (err x)) w' c same =
          unfold finish in AllSound-same k store w w' same h
      finish-AllSound (returns (ok (r, a))) w' c same =
          let (sound, spec, meta) =
            Concludes-IsSound k template_factory t w (h.templates key t found) r a c in
          let new = record a { status = record (a.status) { last_validated = some validated } } in
          let marked = last_validated-IsSound a validated sound in
          subst (AllSound k) (sym (finish_world k template_factory r a validated w')) (
            unfold update_status in
            AllSound-template_status k store key w' t (same.templates key ∙ found)
              (AllSound-same k store w w' same h) new spec meta marked)

      Handled-AllSound :
          (w' : W) → Handled k template_factory util key checked validated w t w' → AllSound k w'
      Handled-AllSound _ (changes_finalizers finalizers) =
          AllSound-template_update k store key w t found h finalizers
      Handled-AllSound _ validates =
          finish-AllSound (validate_template k template_factory t checked w).0
            (validate_template k template_factory t checked w).1
            (validate_template-Concludes k template_factory t w checked
              (h.templates key t found).nodup)
            (validate_template-SameObjects k template_factory template_leaves t checked w)

    template_step :
        (key : NamespacedName) (checked validated : Time) (r : Result HypervisorMachineTemplate)
        → k.get_template key w ≡ r
        → AllSound k (Reconcile.reconcile k template_factory util key checked validated w).1
    template_step key checked validated (err e) p =
        subst (AllSound k)
          (sym (template_not_read k template_factory util key checked validated w e p)) h
    template_step key checked validated (ok t) p =
        Handled-AllSound key checked validated t p _
          (template-Handled k template_factory util key checked validated w t p)

  Step-AllSound :
      (w u : W)
      → Step k default cluster_factory template_factory util w u
      → AllSound k w
      → AllSound k u
  Step-AllSound w _ (cluster_reconciled key now) h = cluster_step w h key now _ refl
  Step-AllSound w _ (template_reconciled key checked validated) h =
      template_step w h key checked validated _ refl
  Step-AllSound w _ (user w' change) h = UserChange-AllSound k w w' change h

  -- Whatever the two reconcilers and the users do, in any order: if every stored status is sound at
  -- the start, it is at the end. A status is sound if no condition type occurs in it twice and, for
  -- a template whose condition TemplateValid is True or that is marked available, the tests on its
  -- template ID and its resources accept its spec. The users create, delete and relabel objects and
  -- edit clusters, but write no status and edit no spec of a template; the API server writes of an
  -- object what an update is for; the clients leave the API server alone.
  pub Reach-AllSound :
      (w u : W)
      → Reach k default cluster_factory template_factory util w u
      → AllSound k w
      → AllSound k u
  Reach-AllSound w _ here h = h
  Reach-AllSound w _ (next r step) h = Step-AllSound _ _ step (Reach-AllSound w _ r h)
