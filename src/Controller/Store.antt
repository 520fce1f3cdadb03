-- ===== src/Controller/Store.antt =====
-- What an update at the API server does to every object that it stores, beside what `IsLawful` says
-- of the object itself.
use hyperfleet_controller.Base.{Text, Option, ◌≡◌, ◌⊎◌, Error, Result, ok, err}
use hyperfleet_controller.Api.Meta.{NamespacedName}
use hyperfleet_controller.Api.Cluster.{HypervisorCluster}
use hyperfleet_controller.Api.Template.{HypervisorMachineTemplate}
use hyperfleet_controller.Provider.{ClientFactory, HypervisorClient, ClientConfig, AuthConfig}
use hyperfleet_controller.Controller.Kube.{KubeClient, key_of}

module _ {W : Type 0} (k : KubeClient W) where
  -- The stored objects are the same.
  pub record SameObjects (w w' : W) : Type 0 where
    pub clusters : (key : NamespacedName) → k.get_cluster key w' ≡ k.get_cluster key w
    pub templates : (key : NamespacedName) → k.get_template key w' ≡ k.get_template key w

  -- The status of the cluster at a key is written, the rest of it is kept.
  pub record ClusterWritten (c : HypervisorCluster) (key : NamespacedName) (w w' : W) : Type 0 where
    pub named : key_of c.meta ≡ key
    pub before : HypervisorCluster
    pub after : HypervisorCluster
    pub found : k.get_cluster key w ≡ ok before
    pub left : k.get_cluster key w' ≡ ok after
    pub spec : after.spec ≡ before.spec
    pub status : after.status ≡ c.status

  -- The status of the template at a key is written, its spec is kept.
  pub record StatusWritten (t : HypervisorMachineTemplate) (key : NamespacedName) (w w' : W)
      : Type 0 where
    pub named : key_of t.meta ≡ key
    pub before : HypervisorMachineTemplate
    pub after : HypervisorMachineTemplate
    pub found : k.get_template key w ≡ ok before
    pub left : k.get_template key w' ≡ ok after
    pub spec : after.spec ≡ before.spec
    pub status : after.status ≡ t.status

  -- What is not the status of the template at a key is written.
  pub record TemplateWritten (t : HypervisorMachineTemplate) (key : NamespacedName) (w w' : W)
      : Type 0 where
    pub named : key_of t.meta ≡ key
    pub before : HypervisorMachineTemplate
    pub after : HypervisorMachineTemplate
    pub found : k.get_template key w ≡ ok before
    pub left : k.get_template key w' ≡ ok after
    pub spec : after.spec ≡ t.spec
    pub status : after.status ≡ before.status

  -- The object at a key is gone, as a deleted one is without its last finalizer.
  pub record TemplateGone (key : NamespacedName) (w : W) : Type 0 where
    pub error : Error
    pub gone : k.get_template key w ≡ err error

  pub record IsStore : Type 0 where
    pub template_name :
        (key : NamespacedName) (w : W) (t : HypervisorMachineTemplate)
        → k.get_template key w ≡ ok t
        → key_of t.meta ≡ key
    pub cluster_name :
        (key : NamespacedName) (w : W) (c : HypervisorCluster)
        → k.get_cluster key w ≡ ok c
        → key_of c.meta ≡ key
    pub cluster_status :
        (c : HypervisorCluster) (w : W) (key : NamespacedName)
        → let w' = (k.update_cluster_status c w).1 in
          (k.get_template key w' ≡ k.get_template key w)
          × ((k.get_cluster key w' ≡ k.get_cluster key w) ⊎ ClusterWritten c key w w')
    pub template_status :
        (t : HypervisorMachineTemplate) (w : W) (key : NamespacedName)
        → let w' = (k.update_template_status t w).1 in
          (k.get_cluster key w' ≡ k.get_cluster key w)
          × ((k.get_template key w' ≡ k.get_template key w) ⊎ StatusWritten t key w w')
    pub template_update :
        (t : HypervisorMachineTemplate) (w : W) (key : NamespacedName)
        → let w' = (k.update_template t w).1 in
          (k.get_cluster key w' ≡ k.get_cluster key w)
          × ((k.get_template key w' ≡ k.get_template key w)
              ⊎ (TemplateWritten t key w w' ⊎ TemplateGone key w'))

  -- The hypervisor is not the API server: calls of its clients leave the stored objects alone.
  pub record LeavesObjects (client : HypervisorClient W) : Type 0 where
    pub test : (w : W) → SameObjects w (client.test_connection w).1
    pub close : (w : W) → SameObjects w (client.close w).1

  -- What a call of the factory returns.
  abbrev pub ClientLeaves : Result (HypervisorClient W) → Type 0
  ClientLeaves (ok client) = LeavesObjects client
  ClientLeaves (err e) = Unit

  pub record FactoryLeaves (factory : ClientFactory W) : Type 0 where
    pub create :
        (provider : Text) (config : Option ClientConfig) (auth : Option AuthConfig) (w : W)
        → SameObjects w (factory.create_client provider config auth w).1
    pub client :
        (provider : Text) (config : Option ClientConfig) (auth : Option AuthConfig) (w : W)
        → ClientLeaves (factory.create_client provider config auth w).0
