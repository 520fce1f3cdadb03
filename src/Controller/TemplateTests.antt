-- ===== src/Controller/TemplateTests.antt =====
-- The theorems of the template reconciler at concrete inputs.
use hyperfleet_controller.Base.{
  ◌↔◌, error_text, is_not_found, Text, text, ◌==◌, ◌≡◌, refl, true, false, none, some, List, [],
  ◌∷◌, if◌then◌else◌, to_lower, ok,
}
use hyperfleet_controller.Api.Conditions.{holds, set_condition}
use hyperfleet_controller.Api.Cluster.{HypervisorCluster}
use hyperfleet_controller.Api.Template.{HypervisorMachineTemplate}
use hyperfleet_controller.Provider.{ClientFactory}
use hyperfleet_controller.Provider.Proxmox.{
  proxmox_client, proxmox_test_connection, version_info, login_and_test, proxmox_close,
  new_proxmox_client, create_proxmox_client,
}
use hyperfleet_controller.Provider.Factory.{default_create_client, new_client_factory}
use hyperfleet_controller.Controller.Samples.{
  World, server, proxmox, unreachable, cluster_with, template_with, deleted_template, fresh,
  settled, deleting, util, util-FinalizerLaws, contains,
}
use hyperfleet_controller.Controller.SampleStore.{server-IsLawful}
use hyperfleet_controller.Controller.Kube.{key_of, no_requeue}
use hyperfleet_controller.Controller.Template.{
  cluster_key, finalizer_name, returns, panics, rejected, validate_template, is_cluster_ready,
}
use hyperfleet_controller.Controller.Template.Reconcile.{
  finish, reconcile, reconcile_template, add_finalizer, update_then,
}
use hyperfleet_controller.Controller.Template.Validation.{Concludes, validate_template-Concludes}
use hyperfleet_controller.Controller.Template.Lifecycle.{
  needs_finalizer, with_finalizers, updated, reconcile-deletion, reconcile-twice,
}
use hyperfleet_controller.Controller.Template.Panics.{Panicking, reconcile-panics}
use hyperfleet_controller.Controller.Template.Roundtrip.{finalizer_roundtrip}
use hyperfleet_controller.Controller.Readiness.{validate_template-unreachable}
use hyperfleet_controller.Controller.Cluster

abbrev plain : HypervisorMachineTemplate
plain = template_with []

abbrev kept : HypervisorMachineTemplate
kept = template_with (finalizer_name ∷ [])

validate_template-Concludes_example :
    Concludes server
      (some (new_client_factory proxmox))
      kept
      settled
      (validate_template server (some (new_client_factory proxmox)) kept 9 settled).0
validate_template-Concludes_example =
    validate_template-Concludes server (some (new_client_factory proxmox)) kept settled 9 tt

-- The template has no finalizer, then it has it.
plain_found : server.get_template (key_of plain.meta) fresh ≡ ok plain
unfolding text ◌==◌
plain_found = refl

plain_unprotected : util.contains plain.meta.finalizers finalizer_name ≡ false
unfolding contains
plain_unprotected = refl

adds_finalizer :
    (reconcile server none util (key_of plain.meta) 8 9 fresh).0 ≡ returns (ok needs_finalizer)
unfolding reconcile reconcile_template add_finalizer update_then contains text ◌==◌
adds_finalizer = refl

reconcile-twice_example :
    let key = key_of plain.meta in
    let w' = (reconcile server none util key 8 9 fresh).1 in
    (d : HypervisorMachineTemplate) × (server.get_template key w' ≡ ok d)
    × (d.spec ≡ plain.spec)
    × (util.contains d.meta.finalizers finalizer_name ≡ true)
    × (reconcile server none util key 8 9 w'
        ≡ (let o = validate_template server none d 8 w' in finish server none o.0 9 o.1))
reconcile-twice_example =
    reconcile-twice server none util 8 9 util-FinalizerLaws server-IsLawful fresh plain plain_found
      refl plain_unprotected adds_finalizer

deleted_found : server.get_template (key_of deleted_template.meta) deleting ≡ ok deleted_template
unfolding text ◌==◌
deleted_found = refl

reconcile-deletion_example :
    (finalizers : List Text) × (reconcile server none util
        (key_of deleted_template.meta)
        8
        9
        deleting
      ≡ updated no_requeue
          (server.update_template (with_finalizers deleted_template finalizers))
          deleting)
    × ((g : Text)
        → util.contains finalizers g ≡ (
            if finalizer_name == g
            then false
            else util.contains deleted_template.meta.finalizers g))
reconcile-deletion_example =
    reconcile-deletion server none util 8 9 util-FinalizerLaws (key_of deleted_template.meta)
      deleting deleted_template deleted_found refl

kept_found : server.get_template (key_of kept.meta) settled ≡ ok kept
unfolding text ◌==◌
kept_found = refl

kept_protected : util.contains kept.meta.finalizers finalizer_name ≡ true
unfolding contains text ◌==◌
kept_protected = refl

cluster_found : server.get_cluster (cluster_key kept) settled ≡ ok settled.cluster
unfolding cluster_key text ◌==◌
cluster_found = refl

cluster_ready : is_cluster_ready settled.cluster ≡ true
unfolding is_cluster_ready holds text ◌==◌
cluster_ready = refl

reconcile-panics_example :
    ((reconcile server none util (key_of kept.meta) 8 9 settled).0 ≡ panics
      ↔ Panicking server none util (key_of kept.meta) settled)
    × (Panicking server none util (key_of kept.meta) settled
        → (reconcile server none util (key_of kept.meta) 8 9 settled).1 ≡ settled)
reconcile-panics_example = reconcile-panics server none util 8 9 (key_of kept.meta) settled

without_factory : Panicking server none util (key_of kept.meta) settled
without_factory = record {
  template = kept;
  found = kept_found;
  alive = refl;
  present = kept_protected;
  unprovided = record {
    no_factory = refl;
    cluster = settled.cluster;
    read = cluster_found;
    ready = cluster_ready;
  };
}

it_panics : (reconcile server none util (key_of kept.meta) 8 9 settled).0 ≡ panics
it_panics = (reconcile-panics server none util 8 9 (key_of kept.meta) settled).0.1 without_factory

-- A cluster that cannot be reached is stored as not ready.
abbrev offline : ClientFactory World
offline = new_client_factory unreachable

abbrev unknown : HypervisorCluster
unknown = cluster_with []

unknown_found : server.get_cluster (key_of unknown.meta) fresh ≡ ok unknown
unfolding text ◌==◌
unknown_found = refl

stored :
    (Cluster.reconcile server offline none (key_of unknown.meta) 7 fresh).0
    ≡ ok (record { requeue = false; requeue_after = Cluster.requeue_interval })
unfolding Cluster.reconcile Cluster.sync_cluster Cluster.update_status Cluster.with_result
    Cluster.test_connection Cluster.load_credentials Cluster.load_from Cluster.load_token
    Cluster.get_secret_value Cluster.value_of Cluster.connect Cluster.use_client Cluster.probe
    Cluster.client_config Cluster.insecure_skip_verify Cluster.load_password Cluster.ready_condition
    text ◌==◌ new_client_factory default_create_client to_lower new_proxmox_client
    create_proxmox_client proxmox_client proxmox_test_connection version_info set_condition
    error_text is_not_found login_and_test proxmox_close
stored = refl

not_reached : (Cluster.test_connection server offline none unknown 7 fresh).0.success ≡ false
unfolding Cluster.test_connection Cluster.load_credentials Cluster.load_from Cluster.load_token
    Cluster.get_secret_value Cluster.value_of text ◌==◌ Cluster.connect Cluster.use_client
    Cluster.probe new_client_factory default_create_client to_lower new_proxmox_client
    create_proxmox_client proxmox_client proxmox_test_connection version_info
not_reached = refl

refers : cluster_key plain ≡ key_of unknown.meta
unfolding cluster_key ◌==◌
refers = refl

validate_template-unreachable_example :
    validate_template server
      (some (new_client_factory proxmox))
      plain
      9
      (Cluster.reconcile server offline none (key_of unknown.meta) 7 fresh).1
    ≡ (
      returns (
          rejected 9
            (text "ClusterNotReady")
            (text "Referenced HypervisorCluster is not ready")
            plain),
      (Cluster.reconcile server offline none (key_of unknown.meta) 7 fresh).1,
    )
validate_template-unreachable_example =
    validate_template-unreachable server server-IsLawful offline none (key_of unknown.meta) 7 fresh
      unknown unknown_found tt
      (record { requeue = false; requeue_after = Cluster.requeue_interval }) stored plain 9
      (some (new_client_factory proxmox)) refers not_reached

-- The template as it is once users have deleted it.
abbrev marked : HypervisorMachineTemplate
marked = record kept { meta = record (kept.meta) { deletion_timestamp = some 5 } }

abbrev after_delete : World
after_delete = record fresh { template = marked }

finalizer_stored :
    server.get_template
      (key_of plain.meta)
      (reconcile server none util (key_of plain.meta) 8 9 fresh).1
    ≡ ok kept
unfolding reconcile reconcile_template add_finalizer update_then contains text ◌==◌
finalizer_stored = refl

marked_found : server.get_template (key_of plain.meta) after_delete ≡ ok marked
unfolding text ◌==◌
marked_found = refl

finalizer_roundtrip_example :
    (finalizers : List Text) × (reconcile server none util (key_of plain.meta) 8 9 after_delete
      ≡ updated no_requeue
          (server.update_template (with_finalizers marked finalizers))
          after_delete)
    × ((g : Text) → util.contains finalizers g ≡ util.contains plain.meta.finalizers g)
finalizer_roundtrip_example =
    finalizer_roundtrip server none util 8 9 util-FinalizerLaws server-IsLawful fresh plain
      plain_found refl plain_unprotected adds_finalizer kept marked after_delete finalizer_stored
      marked_found refl refl
