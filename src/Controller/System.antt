-- ===== src/Controller/System.antt =====
-- The reconcilers at work on one API server, in any order, with users that create and delete.
pub mod Preserves
pub mod Soundness
pub mod Worlds
pub mod Factory
pub mod Invariant
pub mod Passing
pub mod Converges
use hyperfleet_controller.Base.{◌≡◌, ◌⊎◌, Bool, false, true, Option, List, [], Result, ok, none}
use hyperfleet_controller.Api.Meta.{Time, NamespacedName}
use hyperfleet_controller.Api.Conditions.{NodupTypes, holds}
use hyperfleet_controller.Api.Cluster.{HypervisorCluster}
use hyperfleet_controller.Api.Template.{HypervisorMachineTemplate}
use hyperfleet_controller.Provider.{ClientFactory}
use hyperfleet_controller.Controller.Kube.{KubeClient, FinalizerUtil}
use hyperfleet_controller.Controller.Template.{condition_template_valid, check_template}
use hyperfleet_controller.Controller.Cluster
use hyperfleet_controller.Controller.Template.Reconcile

-- A template that was stored before, with its spec and status, or a new one.
pub data IsKnownTemplate {W : Type 0} (k : KubeClient W) (key : NamespacedName) (w : W)
    (t : HypervisorMachineTemplate) : Type 0 where
  kept :
      (old : HypervisorMachineTemplate)
      → k.get_template key w ≡ ok old
      → t.spec ≡ old.spec
      → t.status ≡ old.status
      → IsKnownTemplate k key w t
  created :
      t.status.conditions ≡ [] → t.status.template_available ≡ false → IsKnownTemplate k key w t

-- A cluster that was stored before, with its status, or a new one. Its spec may be another one.
pub data IsKnownCluster {W : Type 0} (k : KubeClient W) (key : NamespacedName) (w : W)
    (c : HypervisorCluster) : Type 0 where
  kept :
      (old : HypervisorCluster)
      → k.get_cluster key w ≡ ok old
      → c.status ≡ old.status
      → IsKnownCluster k key w c
  created : c.status.conditions ≡ [] → IsKnownCluster k key w c

-- What users do: they create, delete and relabel templates and clusters, and edit clusters. They
-- write no status and edit no spec of a template.
pub record UserChange {W : Type 0} (k : KubeClient W) (w w' : W) : Type 0 where
  pub templates :
      (key : NamespacedName) (t : HypervisorMachineTemplate)
      → k.get_template key w' ≡ ok t
      → IsKnownTemplate k key w t
  pub clusters :
      (key : NamespacedName) (c : HypervisorCluster)
      → k.get_cluster key w' ≡ ok c
      → IsKnownCluster k key w c

module _ {W : Type 0} (k : KubeClient W) (default : ClientFactory W)
    (cluster_factory template_factory : Option (ClientFactory W)) (util : FinalizerUtil) where
  pub data Step (w : W) : W → Type 0 where
    cluster_reconciled :
        (key : NamespacedName) (now : Time)
        → Step w (Cluster.reconcile k default cluster_factory key now w).1
    template_reconciled :
        (key : NamespacedName) (checked validated : Time)
        → Step w (Reconcile.reconcile k template_factory util key checked validated w).1
    user : (w' : W) → UserChange k w w' → Step w w'

  pub data Reach (w : W) : W → Type 0 where
    here : Reach w w
    next : {u v : W} → Reach w u → Step u v → Reach w v

-- What the status says of a template is true of its spec, and no condition type occurs twice.
pub record IsSound (t : HypervisorMachineTemplate) : Type 0 where
  pub nodup : NodupTypes t.status.conditions
  pub valid : holds condition_template_valid t.status.conditions ≡ true → check_template t ≡ none
  pub available : t.status.template_available ≡ true → check_template t ≡ none

pub record AllSound {W : Type 0} (k : KubeClient W) (w : W) : Type 0 where
  pub templates :
      (key : NamespacedName) (t : HypervisorMachineTemplate)
      → k.get_template key w ≡ ok t
      → IsSound t
  pub clusters :
      (key : NamespacedName) (c : HypervisorCluster)
      → k.get_cluster key w ≡ ok c
      → NodupTypes c.status.conditions
