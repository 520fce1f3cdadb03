-- ===== src/Controller/RequeueTests.antt =====
-- The requeueing of a template, and the view of conditions, at concrete inputs.
use mathlib.Core.Path.{subst}
use hyperfleet_controller.Base.{
  text, ◌==◌, ◌≤◌, ap, ◌∙◌, if◌then◌else◌, ◌≡◌, refl, true, false, none, some, List, [], ◌∷◌, ok,
}
use hyperfleet_controller.Api.Conditions.{
  set_condition, is_true, NodupTypes, set_condition-NodupTypes,
}
use hyperfleet_controller.Api.Conditions.View.{view, set, view-set_condition, view-swapped}
use hyperfleet_controller.Api.Meta.{Condition, condition_true, condition_false}
use hyperfleet_controller.Controller.Template.View.{with_conditions, validate_against-view}
use hyperfleet_controller.Api.Cluster.{HypervisorCluster}
use hyperfleet_controller.Api.Template.{HypervisorMachineTemplate}
use hyperfleet_controller.Provider.Factory.{new_client_factory}
use hyperfleet_controller.Controller.Samples.{
  World, ready_condition_of, server, proxmox, cluster_with, template_with, fresh, settled, util,
  util-FinalizerLaws, contains,
}
use hyperfleet_controller.Controller.SampleStore.{server-IsLawful, server-IsStore, get-ok}
use hyperfleet_controller.Controller.Kube.{key_of}
use hyperfleet_controller.Controller.Template.{
  finalizer_name, validate_against, validate_with_provider, returns, rejected, after_provider,
}
use hyperfleet_controller.Controller.Template.Reconcile.{
  reconcile, reconcile_template, add_finalizer, update_then,
}
use hyperfleet_controller.Controller.Template.Requeue.{
  requeues, KeepsFinalizers, Requeued, first, again, reconcile-Requeued,
}

abbrev plain : HypervisorMachineTemplate
plain = template_with []

abbrev kept : HypervisorMachineTemplate
kept = template_with (finalizer_name ∷ [])

-- The template is reconciled once more because it has just got the finalizer.
asks_again : requeues (reconcile server none util (key_of plain.meta) 8 9 fresh).0 ≡ true
unfolding reconcile reconcile_template add_finalizer update_then contains text ◌==◌
asks_again = refl

unchanged : (w : World) → KeepsFinalizers server none util w w
unchanged w = record {
  kept = λ key old new before protected after.
      let found : server.get_template key w ≡ ok old = before in
      let left : server.get_template key w ≡ ok new = after in
      let same : old ≡ new = cc (found, left) in
      subst (λ t. util.contains t.meta.finalizers finalizer_name ≡ true) same protected;
}

requeued : Requeued server none util (key_of plain.meta) 1 fresh
requeued = again 8 9 asks_again (unchanged _) first

reconcile-Requeued_example : 1 ≤ 1
reconcile-Requeued_example =
    reconcile-Requeued server none util util-FinalizerLaws server-IsLawful server-IsStore
      (key_of plain.meta) 1 fresh
      (λ t found zero_time.
        ap (λ x. x.meta.deletion_timestamp) (get-ok fresh.template.meta plain t _ found).1)
      requeued

-- Two conditions, set in one order and in the other.
abbrev ready : Condition
ready = ready_condition_of condition_true

abbrev synced : Condition
synced = record (ready_condition_of condition_false) { type = text "Synced" }

abbrev conditions : Condition → Condition → List Condition
conditions c d = set_condition c (set_condition d [])

conditions-NodupTypes : (c d : Condition) → NodupTypes (conditions c d)
conditions-NodupTypes c d =
    set_condition-NodupTypes c (set_condition d []) (set_condition-NodupTypes d [] tt)

different : (ready.type == synced.type) ≡ false
unfolding text ◌==◌
different = refl

ready_type : (ready.type == text "Ready") ≡ true
unfolding text ◌==◌
ready_type = refl

other_type : (synced.type == text "Ready") ≡ false
unfolding text ◌==◌
other_type = refl

abbrev both_set : HypervisorCluster
both_set = cluster_with (conditions ready synced)

validate_against-view_example :
    let (o, w) = validate_with_provider (some (new_client_factory proxmox)) kept both_set settled in
    validate_against server
      (some (new_client_factory proxmox))
      kept
      (with_conditions both_set (conditions ready synced))
      8
      settled
    ≡ (if is_true ready.status
        then (after_provider server (some (new_client_factory proxmox)) 8 kept o, w)
        else (
          returns (
              rejected 8
                (text "ClusterNotReady")
                (text "Referenced HypervisorCluster is not ready")
                kept),
          settled,
        ))
validate_against-view_example =
    validate_against-view server (some (new_client_factory proxmox)) kept both_set
      (conditions ready synced) ready synced (view []) 8 settled
      (conditions-NodupTypes ready synced)
      (view-swapped ready synced [] different
        ∙ view-set_condition synced (set_condition ready [])
        ∙ ap (set synced) (view-set_condition ready []))
      ready_type other_type
