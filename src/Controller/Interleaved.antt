-- ===== src/Controller/Interleaved.antt =====
-- The workers of the two controllers between the calls that they make: each reads an object, tests
-- or validates it, and writes it later, while others act on the same API server.
pub mod Jobs
pub mod Late
pub mod Invariant
use hyperfleet_controller.Base.{
  ℕ, ◌≤◌, ◌<◌, ◌≡◌, ◌≢◌, ◌⊎◌, true, false, Option, Result, ok, err, if◌then◌else◌, nat_eq,
}
use hyperfleet_controller.Api.Meta.{Time, NamespacedName}
use hyperfleet_controller.Api.Cluster.{HypervisorCluster}
use hyperfleet_controller.Api.Template.{HypervisorMachineTemplate}
use hyperfleet_controller.Provider.{ClientFactory}
use hyperfleet_controller.Controller.Kube.{KubeClient, FinalizerUtil, key_of}
use hyperfleet_controller.Controller.Store.{SameObjects}
use hyperfleet_controller.Controller.Cluster.{ConnectionResult, test_connection}
use hyperfleet_controller.Controller.Cluster
use hyperfleet_controller.Controller.Template.{
  finalizer_name, is_zero, Outcome, returns, panics, Validated, validate_template, update_status,
}
use hyperfleet_controller.Controller.Template.Reconcile.{handle_deletion, add_finalizer}
use hyperfleet_controller.Controller.System.{UserChange}

-- Where a worker is in its Reconcile, with the object in its hands.
pub data Job : Type 0 where
  idle : Job
  template_read template_validated : HypervisorMachineTemplate → Job
  cluster_read : HypervisorCluster → Job
  cluster_tested : HypervisorCluster → ConnectionResult → Job

abbrev pub Jobs : Type 0
Jobs = ℕ → Job

abbrev pub with_job : Jobs → ℕ → Job → Jobs
with_job jobs i job j = if nat_eq i j then job else jobs j

-- A reconciliation ends where validateTemplate returns an error or panics.
abbrev pub after_validation : Outcome Validated → Job
after_validation (returns (ok (result, template))) = template_validated template
after_validation (returns (err e)) = idle
after_validation panics = idle

module _ {W : Type 0} (k : KubeClient W) where
  -- What the API server documents of resource versions: an update with another version than the
  -- stored one is a conflict, and changes nothing.
  pub record IsOptimistic : Type 0 where
    pub template :
        (t d : HypervisorMachineTemplate) (w : W)
        → k.get_template (key_of t.meta) w ≡ ok d
        → d.meta.resource_version ≢ t.meta.resource_version
        → SameObjects k w (k.update_template t w).1
    pub template_status :
        (t d : HypervisorMachineTemplate) (w : W)
        → k.get_template (key_of t.meta) w ≡ ok d
        → d.meta.resource_version ≢ t.meta.resource_version
        → SameObjects k w (k.update_template_status t w).1

  -- Between the revisions `n` and `n'`: a template that is not stored as before has a version that
  -- is newer than `n`.
  pub record Assigned (n n' : ℕ) (w w' : W) : Type 0 where
    pub grows : n ≤ n'
    pub versions :
        (key : NamespacedName) (d : HypervisorMachineTemplate)
        → k.get_template key w' ≡ ok d
        → (k.get_template key w ≡ ok d)
          ⊎ ((n < d.meta.resource_version) × (d.meta.resource_version ≤ n'))

pub record State (W : Type 0) : Type 0 where
  pub world : W
  pub revision : ℕ
  pub jobs : Jobs

module _ {W : Type 0} (k : KubeClient W) (default : ClientFactory W)
    (cluster_factory template_factory : Option (ClientFactory W)) (util : FinalizerUtil) where
  -- A move of one worker, which goes on where it stopped, or of the users.
  pub data Move (s : State W) : State W → Type 0 where
    read_template :
        (i : ℕ) (key : NamespacedName) (t : HypervisorMachineTemplate)
        → s.jobs i ≡ idle
        → k.get_template key s.world ≡ ok t
        → Move s (record s { jobs = with_job s.jobs i (template_read t) })
    delete_template :
        (i n : ℕ) (t : HypervisorMachineTemplate)
        → s.jobs i ≡ template_read t
        → is_zero t.meta.deletion_timestamp ≡ false
        → Assigned k s.revision n s.world (handle_deletion k template_factory util t s.world).1
        → Move s (record {
          world = (handle_deletion k template_factory util t s.world).1;
          revision = n;
          jobs = with_job s.jobs i idle;
        })
    protect_template :
        (i n : ℕ) (t : HypervisorMachineTemplate)
        → s.jobs i ≡ template_read t
        → is_zero t.meta.deletion_timestamp ≡ true
        → util.contains t.meta.finalizers finalizer_name ≡ false
        → Assigned k s.revision n s.world (add_finalizer k template_factory util t s.world).1
        → Move s (record {
          world = (add_finalizer k template_factory util t s.world).1;
          revision = n;
          jobs = with_job s.jobs i idle;
        })
    validate :
        (i : ℕ) (t : HypervisorMachineTemplate) (checked : Time)
        → s.jobs i ≡ template_read t
        → is_zero t.meta.deletion_timestamp ≡ true
        → util.contains t.meta.finalizers finalizer_name ≡ true
        → Move s (record s {
          world = (validate_template k template_factory t checked s.world).1;
          jobs =
              with_job s.jobs i
                (after_validation (validate_template k template_factory t checked s.world).0);
        })
    store_template_status :
        (i n : ℕ) (t : HypervisorMachineTemplate) (validated : Time)
        → s.jobs i ≡ template_validated t
        → Assigned k s.revision n s.world (update_status k template_factory t validated s.world).1
        → Move s (record {
          world = (update_status k template_factory t validated s.world).1;
          revision = n;
          jobs = with_job s.jobs i idle;
        })
    read_cluster :
        (i : ℕ) (key : NamespacedName) (c : HypervisorCluster)
        → s.jobs i ≡ idle
        → k.get_cluster key s.world ≡ ok c
        → Move s (record s { jobs = with_job s.jobs i (cluster_read c) })
    test :
        (i : ℕ) (c : HypervisorCluster) (now : Time)
        → s.jobs i ≡ cluster_read c
        → Move s (record s {
          world = (test_connection k default cluster_factory c now s.world).1;
          jobs =
              with_job s.jobs i
                (cluster_tested c (test_connection k default cluster_factory c now s.world).0);
        })
    store_cluster_status :
        (i : ℕ) (c : HypervisorCluster) (result : ConnectionResult)
        → s.jobs i ≡ cluster_tested c result
        → Move s (record s {
          world = (Cluster.update_status k c result s.world).1;
          jobs = with_job s.jobs i idle;
        })
    users :
        (n : ℕ) (w : W)
        → UserChange k s.world w
        → Assigned k s.revision n s.world w
        → Move s (record s { world = w; revision = n })

  pub data Moves (s : State W) : State W → Type 0 where
    none_yet : Moves s s
    and_then : {u v : State W} → Moves s u → Move u v → Moves s v
