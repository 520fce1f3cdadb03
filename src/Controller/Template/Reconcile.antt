-- ===== src/Controller/Template/Reconcile.antt =====
-- Reconcile of the templates: the finalizer, and what follows the validation
-- (internal/controller/hypervisormachinetemplate_controller.go).
use hyperfleet_controller.Base.{
  true, not, Option, none, some, if◌then◌else◌, is_not_found, Result, ok, err, M,
}
use hyperfleet_controller.Api.Meta.{Time, NamespacedName}
use hyperfleet_controller.Api.Template.{HypervisorMachineTemplate}
use hyperfleet_controller.Provider.{ClientFactory}
use hyperfleet_controller.Controller.Kube.{KubeClient, FinalizerUtil, ReconcileResult, no_requeue}
use hyperfleet_controller.Controller.Template.{
  finalizer_name, Outcome, returns, panics, is_zero, Validated, validate_template, update_status,
}

module _ {W : Type 0} (k : KubeClient W) (factory : Option (ClientFactory W)) where
  -- What Reconcile does with the outcome of validateTemplate.
  unfoldable pub finish : Outcome Validated → Time → M W (Outcome (Result ReconcileResult))
  finish panics now w = (panics, w)
  finish (returns (err e)) now w = (returns (err e), w)
  finish (returns (ok (result, template))) now w =
      let (r, w') = update_status k factory template now w in
      elim r [ some e ↦ (returns (err e), w') | none ↦ (returns (ok result), w') ]

  -- An update of the template, with what Reconcile returns behind it.
  unfoldable pub update_then :
      ReconcileResult → HypervisorMachineTemplate → M W (Outcome (Result ReconcileResult))
  update_then result template w =
      let (r, w') = k.update_template template w in
      elim r [ some e ↦ (returns (err e), w') | none ↦ (returns (ok result), w') ]

  module _ (util : FinalizerUtil) where
    unfoldable pub handle_deletion :
        HypervisorMachineTemplate → M W (Outcome (Result ReconcileResult))
    handle_deletion template = update_then no_requeue (record template {
      meta = record (template.meta) {
        finalizers = util.remove template.meta.finalizers finalizer_name;
      };
    })

    unfoldable pub add_finalizer :
        HypervisorMachineTemplate → M W (Outcome (Result ReconcileResult))
    add_finalizer template =
        update_then (record { requeue = true; requeue_after = 0 })
          (record template {
            meta = record (template.meta) {
              finalizers = util.add template.meta.finalizers finalizer_name;
            };
          })

    -- Reconcile for a template that was found. The times are those of the condition and of the
    -- status update.
    unfoldable pub reconcile_template :
        HypervisorMachineTemplate → Time → Time → M W (Outcome (Result ReconcileResult))
    reconcile_template template checked validated w =
        if not (is_zero template.meta.deletion_timestamp)
        then handle_deletion template w
        else if not (util.contains template.meta.finalizers finalizer_name)
        then add_finalizer template w
        else (let (o, w') = validate_template k factory template checked w in finish o validated w')

    unfoldable pub reconcile : NamespacedName → Time → Time → M W (Outcome (Result ReconcileResult))
    reconcile key checked validated w = elim (k.get_template key w) [
      | err e ↦ (returns (if is_not_found e then ok no_requeue else err e), w)
      | ok template ↦ reconcile_template template checked validated w
    ]
