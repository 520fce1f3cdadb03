-- ===== src/Controller/Kube.antt =====
-- What the reconcilers take from Kubernetes' client and controllerutil, and what they return.
use hyperfleet_controller.Base.{
  ℕ, ◌*◌, ◌^◌, Text, ◌==◌, ◌≡◌, Bool, true, false, List, none, Err, Result, ok, M, if◌then◌else◌,
}
use hyperfleet_controller.Api.Meta.{NamespacedName, ObjectMeta, Secret}
use hyperfleet_controller.Api.Cluster.{HypervisorCluster}
use hyperfleet_controller.Api.Template.{HypervisorMachineTemplate}

-- client.Client, over the state `W` of what lies outside. Get reads the manager's cache and
-- changes nothing. A status update is `Status().Update`.
pub record KubeClient (W : Type 0) : Type 0 where
  pub get_cluster : NamespacedName → W → Result HypervisorCluster
  pub get_template : NamespacedName → W → Result HypervisorMachineTemplate
  pub get_secret : NamespacedName → W → Result Secret
  pub update_cluster_status : HypervisorCluster → M W Err
  pub update_template : HypervisorMachineTemplate → M W Err
  pub update_template_status : HypervisorMachineTemplate → M W Err

abbrev pub key_of : ObjectMeta → NamespacedName
key_of m = record { namespace = m.namespace; name = m.name }

-- What the API documents of its updates: a Get after an update that succeeded finds what the update
-- wrote. An update of the status writes the status, another one what is not the status.
pub record IsLawful {W : Type 0} (k : KubeClient W) : Type 0 where
  pub cluster_status_stored :
      (c : HypervisorCluster) (w : W)
      → (k.update_cluster_status c w).0 ≡ none
      → (d : HypervisorCluster) × (k.get_cluster (key_of c.meta) (k.update_cluster_status c w).1
          ≡ ok d)
        × (d.status ≡ c.status)
  pub template_stored :
      (t : HypervisorMachineTemplate) (w : W)
      → (k.update_template t w).0 ≡ none
      → t.meta.deletion_timestamp ≡ none
      → (d : HypervisorMachineTemplate) × (k.get_template (key_of t.meta) (k.update_template t w).1
          ≡ ok d)
        × (d.meta.finalizers ≡ t.meta.finalizers)
        × (d.meta.deletion_timestamp ≡ none)
        × (d.spec ≡ t.spec)
  pub template_status_stored :
      (t : HypervisorMachineTemplate) (w : W)
      → (k.update_template_status t w).0 ≡ none
      → (d : HypervisorMachineTemplate) × (k.get_template
            (key_of t.meta)
            (k.update_template_status t w).1
          ≡ ok d)
        × (d.status ≡ t.status)

-- controllerutil.ContainsFinalizer, AddFinalizer and RemoveFinalizer, on the list of finalizers.
pub record FinalizerUtil : Type 0 where
  pub contains : List Text → Text → Bool
  pub add : List Text → Text → List Text
  pub remove : List Text → Text → List Text

-- What they document.
pub record FinalizerLaws (u : FinalizerUtil) : Type 0 where
  pub contains-add :
      (fs : List Text) (f g : Text)
      → u.contains (u.add fs f) g ≡ (if f == g then true else u.contains fs g)
  pub contains-remove :
      (fs : List Text) (f g : Text)
      → u.contains (u.remove fs f) g ≡ (if f == g then false else u.contains fs g)

-- ctrl.Result. The delay is in nanoseconds.
pub record ReconcileResult : Type 0 where
  pub requeue : Bool
  pub requeue_after : ℕ

abbrev pub no_requeue : ReconcileResult
no_requeue = record { requeue = false; requeue_after = 0 }

-- 5 * time.Minute
abbrev pub five_minutes : ℕ
five_minutes = 5 * (60 * 10 ^ 9)
