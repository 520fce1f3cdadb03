-- ===== src/Controller/Template/Panics.antt =====
-- Where Reconcile of a template panics (internal/controller/hypervisormachinetemplate_controller.go).
use hyperfleet_controller.Base.{
  ◌≡◌, ◌≢◌, ◌↔◌, ap, refl, true, Bool-cases, Option, none, some, Result, ok, err, arith, inl, inr,
}
use hyperfleet_controller.Api.Meta.{Time, NamespacedName}
use hyperfleet_controller.Api.Cluster.{HypervisorCluster}
use hyperfleet_controller.Api.Template.{HypervisorMachineTemplate}
use hyperfleet_controller.Provider.{ClientFactory}
use hyperfleet_controller.Controller.Kube.{KubeClient, FinalizerUtil, ReconcileResult}
use hyperfleet_controller.Controller.Template.{
  finalizer_name, Outcome, Validated, returns, panics, is_zero, is_cluster_ready, cluster_key,
  validate_with_provider, validate_against, validate_template,
}
use hyperfleet_controller.Controller.Template.Reconcile.{
  update_then, handle_deletion, add_finalizer, finish, reconcile_template, reconcile,
}

provider-panics :
    {W : Type 0} (factory : Option (ClientFactory W)) (template : HypervisorMachineTemplate)
    (cluster : HypervisorCluster) (w : W)
    → (validate_with_provider factory template cluster w).0 ≡ panics
    → factory ≡ none
unfolding validate_with_provider
provider-panics none template cluster w h = refl
provider-panics (some factory) template cluster w h = absurd (cc h)

module _ {W : Type 0} (k : KubeClient W) (factory : Option (ClientFactory W)) where
  -- A reconciler without a factory meets a template that refers to a ready cluster.
  pub record Unprovided (template : HypervisorMachineTemplate) (w : W) : Type 0 where
    pub no_factory : factory ≡ none
    pub cluster : HypervisorCluster
    pub read : k.get_cluster (cluster_key template) w ≡ ok cluster
    pub ready : is_cluster_ready cluster ≡ true

  module _ (util : FinalizerUtil) where
    -- The template is read, is not being deleted and has the finalizer.
    pub record Panicking (key : NamespacedName) (w : W) : Type 0 where
      pub template : HypervisorMachineTemplate
      pub found : k.get_template key w ≡ ok template
      pub alive : is_zero template.meta.deletion_timestamp ≡ true
      pub present : util.contains template.meta.finalizers finalizer_name ≡ true
      pub unprovided : Unprovided template w

  against-panics :
      (template : HypervisorMachineTemplate) (cluster : HypervisorCluster) (now : Time) (w : W)
      → (validate_against k factory template cluster now w).0 ≡ panics
      → (is_cluster_ready cluster ≡ true) × (factory ≡ none)
  unfolding validate_against
  against-panics template cluster now w h =
      ground (arith, provider-panics factory template cluster w)

  validation-panics :
      (template : HypervisorMachineTemplate) (now : Time) (w : W)
      → (validate_template k factory template now w).0 ≡ panics
      → Unprovided template w
  unfolding validate_template
  validation-panics template now w h = split (k.get_cluster (cluster_key template) w) refl
    where
      split :
          (r : Result HypervisorCluster)
          → k.get_cluster (cluster_key template) w ≡ r
          → Unprovided template w
      split (err e) p = absurd (ground arith)
      split (ok cluster) p =
          let (ready, no_factory) =
            against-panics template cluster now w (rw (validate_template, p) at h) in
          record { no_factory = no_factory; cluster = cluster; read = p; ready = ready }

  finish-panics :
      (o : Outcome Validated) (now : Time) (w : W)
      → (finish k factory o now w).0 ≡ panics
      → o ≡ panics
  unfolding finish
  finish-panics panics now w h = refl
  finish-panics (returns (err e)) now w h = absurd (cc h)
  finish-panics (returns (ok v)) now w h = absurd (ground arith)

  update-returns :
      (result : ReconcileResult) (template : HypervisorMachineTemplate) (w : W)
      → (update_then k factory result template w).0 ≢ panics
  unfolding update_then
  update-returns result template w h = ground arith

  module _ (util : FinalizerUtil) (checked validated : Time) where
    template-panics :
        (template : HypervisorMachineTemplate) (w : W)
        → (reconcile_template k factory util template checked validated w).0 ≡ panics
        → (is_zero template.meta.deletion_timestamp ≡ true)
          × (util.contains template.meta.finalizers finalizer_name ≡ true)
          × Unprovided template w
    unfolding reconcile_template handle_deletion add_finalizer
    template-panics template w h = elim (Bool-cases (is_zero template.meta.deletion_timestamp)) [
      | inr e ↦ absurd (update-returns _ _ w (rw e at h))
      | inl alive ↦ elim (Bool-cases (util.contains template.meta.finalizers finalizer_name)) [
        | inr e ↦ absurd (update-returns _ _ w (rw (alive, e) at h))
        | inl present ↦ (
          alive,
          present,
          validation-panics template checked w
              (finish-panics _ validated _ (rw (alive, present) at h)),
        )
      ]
    ]

    -- A reconciliation of a template panics exactly if the reconciler has no ProviderFactory, the
    -- template is read, is not being deleted and has the finalizer, and the cluster that it refers
    -- to is read and is ready. Then the world is left as it was.
    pub reconcile-panics :
        (key : NamespacedName) (w : W)
        → ((reconcile k factory util key checked validated w).0 ≡ panics ↔ Panicking util key w)
          × (Panicking util key w → (reconcile k factory util key checked validated w).1 ≡ w)
    unfolding reconcile reconcile_template validate_template validate_against validate_with_provider
        finish
    reconcile-panics key w = (
      (λ h. reads h (k.get_template key w) refl, λ p. ap (λ o. o.0) (panicking p)),
      λ p. ap (λ o. o.1) (panicking p),
    )
      where
        reads :
            (reconcile k factory util key checked validated w).0 ≡ panics
            → (r : Result HypervisorMachineTemplate) → k.get_template key w ≡ r
            → Panicking util key w
        reads h (err e) p = absurd (ground arith)
        reads h (ok template) p =
            let (alive, present, unprovided) =
              template-panics template w (rw (reconcile, p) at h) in
            record {
              template = template;
              found = p;
              alive = alive;
              present = present;
              unprovided = unprovided;
            }

        panicking :
            Panicking util key w → reconcile k factory util key checked validated w ≡ (panics, w)
        panicking p =
            rw
              (
                reconcile, p.found, reconcile_template, p.alive, p.present, validate_template,
                p.unprovided.read, validate_against, p.unprovided.ready, p.unprovided.no_factory,
                validate_with_provider, finish,
              )
              refl
