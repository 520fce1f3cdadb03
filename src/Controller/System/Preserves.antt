-- ===== src/Controller/System/Preserves.antt =====
-- What a connection test and a validation leave alone.
use mathlib.Core.Path.{subst}
use hyperfleet_controller.Base.{
  sym, ◌≡◌, refl, ◌∙◌, Bool, true, false, Option, none, some, Result, ok, err, arith,
}
use hyperfleet_controller.Api.Meta.{Time}
use hyperfleet_controller.Api.Cluster.{HypervisorCluster}
use hyperfleet_controller.Api.Template.{HypervisorMachineTemplate}
use hyperfleet_controller.Provider.{AuthConfig, ClientFactory, HypervisorClient}
use hyperfleet_controller.Controller.Kube.{KubeClient}
use hyperfleet_controller.Controller.Store.{SameObjects, LeavesObjects, ClientLeaves, FactoryLeaves}
use hyperfleet_controller.Controller.Cluster.{
  client_config, factory_of, load_credentials, probe, use_client, connect, test_connection,
}
use hyperfleet_controller.Controller.Template.{
  provider_config, provider_auth, check_with_client, validate_with_provider, validate_against,
  validate_template, is_cluster_ready, cluster_key,
}

module _ {W : Type 0} (k : KubeClient W) where
  pub SameObjects-refl : (w : W) → SameObjects k w w
  SameObjects-refl w = record { clusters = λ key. refl; templates = λ key. refl }

  pub SameObjects-trans : (a b c : W) → SameObjects k a b → SameObjects k b c → SameObjects k a c
  SameObjects-trans a b c p q = record {
    clusters = λ key. q.clusters key ∙ p.clusters key;
    templates = λ key. q.templates key ∙ p.templates key;
  }

  module _ (default : ClientFactory W) (factory : Option (ClientFactory W))
      (leaves : FactoryLeaves k (factory_of default factory)) (cluster : HypervisorCluster)
      (now : Time) where
    probe-world :
        (client : HypervisorClient W) (w : W)
        → (probe k client cluster now w).1 ≡ (client.close (client.test_connection w).1).1
    unfolding probe
    probe-world client w = ground arith

    probe-SameObjects :
        (client : HypervisorClient W) (w : W)
        → LeavesObjects k client
        → SameObjects k w (probe k client cluster now w).1
    probe-SameObjects client w l =
        let tested = (client.test_connection w).1 in
        subst (SameObjects k w) (sym (probe-world client w))
          (SameObjects-trans w tested _ (l.test w) (l.close tested))

    use_client-SameObjects :
        (r : Result (HypervisorClient W)) (w : W)
        → ClientLeaves k r
        → SameObjects k w (use_client k cluster now r w).1
    unfolding use_client
    use_client-SameObjects (ok client) w l = probe-SameObjects client w l
    use_client-SameObjects (err e) w l = SameObjects-refl w

    connect-SameObjects :
        (auth : AuthConfig) (w : W)
        → SameObjects k w (connect k (factory_of default factory) cluster auth now w).1
    unfolding connect
    connect-SameObjects auth w =
        let config = some (client_config cluster) in
        let made =
          (factory_of default factory).create_client cluster.spec.provider config (some auth) w in
        SameObjects-trans w made.1 _ (leaves.create cluster.spec.provider config (some auth) w) (
          use_client-SameObjects made.0 made.1
            (leaves.client cluster.spec.provider config (some auth) w))

    pub test_connection-SameObjects :
        (w : W) → SameObjects k w (test_connection k default factory cluster now w).1
    unfolding test_connection
    test_connection-SameObjects w = by_load _ refl
      where
        by_load :
            (r : Result AuthConfig)
            → load_credentials k cluster w ≡ r
            → SameObjects k w (test_connection k default factory cluster now w).1
        by_load (err e) p = rw (test_connection, p) (SameObjects-refl w)
        by_load (ok auth) p = rw (test_connection, p) (connect-SameObjects auth w)

  -- The factory of a reconciler, if it has one.
  abbrev pub OptionLeaves : Option (ClientFactory W) → Type 0
  OptionLeaves none = Unit
  OptionLeaves (some factory) = FactoryLeaves k factory

  check_with_client-SameObjects :
      (template : HypervisorMachineTemplate) (r : Result (HypervisorClient W)) (w : W)
      → ClientLeaves k r
      → SameObjects k w (check_with_client template r w).1
  unfolding check_with_client
  check_with_client-SameObjects template (ok client) w l = l.close w
  check_with_client-SameObjects template (err e) w l = SameObjects-refl w

  validate_with_provider-SameObjects :
      (factory : Option (ClientFactory W)) (template : HypervisorMachineTemplate)
      (cluster : HypervisorCluster) (w : W)
      → OptionLeaves factory
      → SameObjects k w (validate_with_provider factory template cluster w).1
  unfolding validate_with_provider
  validate_with_provider-SameObjects none template cluster w l = SameObjects-refl w
  validate_with_provider-SameObjects (some factory) template cluster w l =
      let config = some (provider_config cluster) in
      let made = factory.create_client cluster.spec.provider config (some provider_auth) w in
      SameObjects-trans w made.1 _ (l.create cluster.spec.provider config (some provider_auth) w) (
        check_with_client-SameObjects template made.0 made.1
          (l.client cluster.spec.provider config (some provider_auth) w))

  module _ (factory : Option (ClientFactory W)) (leaves : OptionLeaves factory)
      (template : HypervisorMachineTemplate) (now : Time) (w : W) where
    validate_against-SameObjects :
        (cluster : HypervisorCluster)
        → (b : Bool) → is_cluster_ready cluster ≡ b
        → SameObjects k w (validate_against k factory template cluster now w).1
    unfolding validate_against
    validate_against-SameObjects cluster true p =
        rw p (validate_with_provider-SameObjects factory template cluster w leaves)
    validate_against-SameObjects cluster false p = rw p (SameObjects-refl w)

    pub validate_template-SameObjects :
        SameObjects k w (validate_template k factory template now w).1
    unfolding validate_template
    validate_template-SameObjects = by_cluster _ refl
      where
        by_cluster :
            (r : Result HypervisorCluster)
            → k.get_cluster (cluster_key template) w ≡ r
            → SameObjects k w (validate_template k factory template now w).1
        by_cluster (err e) p = rw (validate_template, p) (SameObjects-refl w)
        by_cluster (ok cluster) p =
            rw (validate_template, p) (validate_against-SameObjects cluster _ refl)
